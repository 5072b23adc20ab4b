-- ===== src/Receipt/Accepts.antt =====
-- Receipt.Validate and EffectiveCopies of internal/receipt/receipt.go, whole documents: what they
-- accept and what they resolve to.
use mathlib.Core.Option.{some-injective}
use mathlib.Core.Path.{subst}
use receiptd.Base.{
  ℕ, ◌+◌, ◌≡◌, ◌≢◌, ◌↔◌, refl, true, Option, none, some, List, [], ◌∷◌, ◌++◌, arith, if◌then◌else◌,
}
use receiptd.Base.Int.{ℤ, pos, ltb_ℤ, ◌≤ℤ◌}
use receiptd.Apperr.{Kind, GoError, join_all, wrap, is_kind}
use receiptd.Apperr.Chain.{is_kind-wrap}
use receiptd.Receipt.{
  Element, Elements, Columns, Receipt, nil_element, text, heading, divider, spacer, image, asset,
  qr_code, barcode, columns, table, list, feed, cut, nil, cons, no_columns, column, column_nil,
  effective_copies,
}
use receiptd.Receipt.Validate.{
  Codecs, validate_element, invalid_columns, invalid_cells, invalid_elements, invalid_copies,
  elements_of, validate, at_column, option_list, or_no_columns,
}
use receiptd.Receipt.Decides.{
  OneOf, InRange, Passes, Reports, not_negative, at_most, not_reported, append_reports,
  join_all_passes, no_report,
}
use receiptd.Receipt.WellFormed.{
  TextIsValid, DividerIsValid, AssetIsValid, TableIsValid, ListIsValid, QrCodeIsValid,
  BarcodeIsValid, ImageIsValid, validate_text-TextIsValid, validate_heading-ne-nil,
  validate_divider-DividerIsValid, validate_spacer-InRange, validate_feed-InRange,
  validate_cut-OneOf, validate_asset-AssetIsValid, validate_table-TableIsValid,
  validate_list-ListIsValid, validate_qr_code-QrCodeIsValid, validate_barcode-BarcodeIsValid,
  validate_image-ImageIsValid,
}

module _ (codecs : Codecs) where
  abbrev pub IsColumn : Columns → Type 0
  IsColumn no_columns = ⊥
  IsColumn (column w es cs) = Unit
  IsColumn (column_nil w cs) = Unit

  -- A well-formed element: each in its own ranges, columns in all their cells, and no nil anywhere.
  unfoldable mutual
    pub IsValid : Element → Type 0
    IsValid nil_element = ⊥
    IsValid (text t) = TextIsValid t
    IsValid (heading content) = content ≢ []
    IsValid (divider d) = DividerIsValid d
    IsValid (spacer height) = InRange 0 10000 height
    IsValid (image bytes) = ImageIsValid codecs bytes
    IsValid (asset a) = AssetIsValid a
    IsValid (qr_code q) = QrCodeIsValid codecs q
    IsValid (barcode b) = BarcodeIsValid codecs b
    IsValid (columns cs) = IsColumn cs × ColumnsAreValid cs
    IsValid (table t) = TableIsValid t
    IsValid (list x) = ListIsValid x
    IsValid (feed lines) = InRange 1 255 lines
    IsValid (cut mode) = OneOf ("" ∷ "full" ∷ "partial" ∷ []) mode

    pub ColumnsAreValid : Columns → Type 0
    ColumnsAreValid no_columns = Unit
    ColumnsAreValid (column w es cs) = (pos 0 ≤ℤ w) × (AreValid es × ColumnsAreValid cs)
    ColumnsAreValid (column_nil w cs) = (pos 0 ≤ℤ w) × ColumnsAreValid cs

    pub AreValid : Elements → Type 0
    AreValid nil = Unit
    AreValid (cons e es) = IsValid e × AreValid es

  abbrev pub ReceiptIsValid : Receipt → Type 0
  ReceiptIsValid r =
      InRange 0 100 r.copies × elim r.elements [ none ↦ Unit {0} | some es ↦ AreValid es ]

  columns_pass :
      (cs : Columns) (es : List GoError) {P : Type 0}
      → Reports es P
      → Passes (or_no_columns codecs cs (join_all es)) (IsColumn cs × P)
  columns_pass no_columns es p = (λ h. cc, λ h. absurd h.0)
  columns_pass (column w xs cs) es p =
      (λ h. (tt, (join_all_passes es p).0 h), λ h. (join_all_passes es p).1 h.1)
  columns_pass (column_nil w cs) es p =
      (λ h. (tt, (join_all_passes es p).0 h), λ h. (join_all_passes es p).1 h.1)

  cell_reports :
      (i j : ℕ) (o : Option GoError) {P : Type 0} → Passes o P → Reports (at_column codecs i j o) P
  cell_reports i j none p = (λ h. p.0 refl, λ h. refl)
  cell_reports i j (some e) p = (λ h. cc, λ h. cc (p.1 h))

  one_reports : (o : Option GoError) {P : Type 0} → Passes o P → Reports (option_list codecs o) P
  one_reports none p = (λ h. p.0 refl, λ h. refl)
  one_reports (some e) p = (λ h. cc, λ h. cc (p.1 h))

  mutual
    unfolding validate_element IsValid

    element_passes :
        (e : Element) → (e ≡ nil_element → ⊥) → Passes (validate_element codecs e) (IsValid e)
    element_passes nil_element n = absurd (n refl)
    element_passes (text t) n = validate_text-TextIsValid t
    element_passes (heading content) n = validate_heading-ne-nil content
    element_passes (divider d) n = validate_divider-DividerIsValid d
    element_passes (spacer height) n = validate_spacer-InRange height
    element_passes (image bytes) n = validate_image-ImageIsValid codecs bytes
    element_passes (asset a) n = validate_asset-AssetIsValid a
    element_passes (qr_code q) n = validate_qr_code-QrCodeIsValid codecs q
    element_passes (barcode b) n = validate_barcode-BarcodeIsValid codecs b
    element_passes (columns cs) n =
        columns_pass cs (invalid_columns codecs cs 0) (columns_report cs 0)
    element_passes (table t) n = validate_table-TableIsValid t
    element_passes (list x) n = validate_list-ListIsValid x
    element_passes (feed lines) n = validate_feed-InRange lines
    element_passes (cut mode) n = validate_cut-OneOf mode

    columns_report :
        (cs : Columns) (i : ℕ) → Reports (invalid_columns codecs cs i) (ColumnsAreValid cs)
    columns_report no_columns i = no_report
    columns_report (column w es cs) i =
        append_reports _ _ (not_reported _ _ (not_negative w))
          (append_reports _ _ (cells_report es i 0) (columns_report cs (i + 1)))
    columns_report (column_nil w cs) i =
        append_reports _ _ (not_reported _ _ (not_negative w)) (columns_report cs (i + 1))

    cells_report : (es : Elements) (i j : ℕ) → Reports (invalid_cells codecs es i j) (AreValid es)
    cells_report nil i j = no_report
    cells_report (cons nil_element es) i j = (λ h. cc, λ h. absurd h.0)
    cells_report (cons e es) i j =
        append_reports _ _ (cell_reports i j _ (element_passes e (λ p. cc)))
          (cells_report es i (j + 1))

  elements_report : (es : Elements) → Reports (invalid_elements codecs es) (AreValid es)
  unfolding invalid_elements IsValid
  elements_report nil = no_report
  elements_report (cons nil_element es) = (λ h. cc, λ h. absurd h.0)
  elements_report (cons e es) =
      append_reports _ _ (one_reports _ (element_passes e (λ p. cc))) (elements_report es)

  copies_report : (copies : ℤ) → Reports (invalid_copies codecs copies) (InRange 0 100 copies)
  copies_report copies =
      append_reports _ _ (not_reported _ _ (not_negative copies))
        (not_reported _ _ (at_most 100 copies))

  slice_reports :
      (o : Option Elements)
      → Reports
          (elim o [ none ↦ [] | some es ↦ invalid_elements codecs es ])
          (elim o [ none ↦ Unit {0} | some es ↦ AreValid es ])
  slice_reports none = no_report
  slice_reports (some es) = elements_report es

  all_reports :
      (r : Receipt)
      → Reports (invalid_copies codecs r.copies ++ elements_of codecs r) (ReceiptIsValid r)
  all_reports r = append_reports _ _ (copies_report r.copies) (slice_reports r.elements)

  wrapped_cases :
      (o : Option GoError) {P : Type 0}
      → Passes o P
      → ((elim o [ none ↦ none | some e ↦ some (wrap Kind.validation "receipt.Validate" (some e)) ]
            ≡ Option.none)
          ↔ P)
  wrapped_cases none p = p
  wrapped_cases (some e) p = (λ h. cc, λ h. cc (p.1 h))

  -- `validate` accepts a receipt exactly if its copies lie in 0 to 100 and each of its elements,
  -- those inside columns included, is well formed: present, with its numbers in their ranges, its
  -- words among those allowed, and its payload accepted by the encoder concerned.
  pub validate-ReceiptIsValid : (r : Receipt) → (validate codecs r ≡ none) ↔ ReceiptIsValid r
  unfolding validate
  validate-ReceiptIsValid r = wrapped_cases _ (join_all_passes _ (all_reports r))

  wrapped_kind :
      (o : Option GoError) (e : GoError)
      → elim o [ none ↦ none | some c ↦ some (wrap Kind.validation "receipt.Validate" (some c)) ]
        ≡ some e
      → is_kind e Kind.validation ≡ true
  wrapped_kind none e h = cc
  wrapped_kind (some c) e h =
      subst (λ x. is_kind x Kind.validation ≡ true) (some-injective _ _ h)
        ((is_kind-wrap Kind.validation Kind.validation "receipt.Validate" c).0)

  -- What `validate` answers of a receipt that it rejects is an error of the kind `validation`.
  pub is_kind-validate :
      (r : Receipt) (e : GoError) → validate codecs r ≡ some e → is_kind e Kind.validation ≡ true
  unfolding validate
  is_kind-validate r e h = wrapped_kind _ e h

  -- A validated receipt resolves to the copies that it asks for, and to one if it asks for none.
  pub effective_copies-validate :
      (r : Receipt)
      → validate codecs r ≡ none
      → effective_copies r ≡ (if ltb_ℤ r.copies (pos 1) then pos 1 else r.copies)
  unfolding effective_copies
  effective_copies-validate r h = ground (arith, ((validate-ReceiptIsValid r).0 h).0)

-- Whatever a receipt says, the number of copies that `effective_copies` takes it to ask for is between
-- 1 and 100.
pub effective_copies-InRange : (r : Receipt) → InRange 1 100 (effective_copies r)
unfolding effective_copies
effective_copies-InRange r = ground arith
