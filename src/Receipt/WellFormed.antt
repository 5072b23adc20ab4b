-- ===== src/Receipt/WellFormed.antt =====
-- What an element that its Validate method of internal/receipt accepts is, said without the code.
use Prim.Native.String.{String}
use mathlib.Core.Bool.{false≢true}
use receiptd.Base.{
  ℕ, ◌+◌, ◌*◌, ◌≤◌, ◌≡◌, ◌≢◌, ◌⊎◌, inl, inr, refl, Bool, true, false, not, ◌&&◌, Option, none, some,
  List, [], ◌∷◌, All, arith, ltb, length,
}
use receiptd.Base.Int.{ℤ, pos, ltb_ℤ, ◌≤ℤ◌}
use receiptd.Base.Text.{Text, codes}
use receiptd.Base.Utf8.{valid_utf8, contains_any}
use receiptd.Apperr.{GoError, Result, ok, err}
use receiptd.Receipt.{TextElement, Divider, Asset, QrCode, Barcode, Table, ListItem, ListElement}
use receiptd.Receipt.Validate.{
  Codecs, ImageConfig, is_any, is_empty, aligns, validate_text, validate_divider, validate_spacer,
  validate_feed, validate_cut, validate_asset, validate_heading, validate_table, validate_list,
  validate_qr_code, validate_barcode, validate_image, encode_barcode, recovery_level,
  invalid_header, invalid_row, invalid_cell, invalid_item, invalid_items, check_config,
  barcode_symbologies, supported_image_formats, qr_code_error_correction_levels,
}
use receiptd.Receipt.Decides.{
  OneOf, InRange, Decides, Passes, Reports, IsOk, one_of, or_decides, not_empty, not_negative,
  at_most, not_decides, require_passes, last_passes, is_nonempty, not_reported, neither_reported,
  append_reports, join_all_passes, failing_passes, equal_numbers, is_true, not_not, no_error,
  no_report,
}

abbrev pub TextIsValid : TextElement → Type 0
TextIsValid t = (t.content ≢ []) × (OneOf aligns t.align × InRange 0 100 t.size)

pub validate_text-TextIsValid : (t : TextElement) → Passes (validate_text t) (TextIsValid t)
unfolding validate_text
validate_text-TextIsValid t = require_passes _ _ _ (not_empty t.content) (
    require_passes _ _ _ (one_of aligns t.align)
      (require_passes _ _ _ (not_negative t.size) (last_passes _ _ (at_most 100 t.size))))

abbrev pub DividerIsValid : Divider → Type 0
DividerIsValid d = OneOf ("" ∷ "solid" ∷ "dashed" ∷ []) d.style × InRange 0 100 d.size

pub validate_divider-DividerIsValid : (d : Divider) → Passes (validate_divider d) (DividerIsValid d)
unfolding validate_divider
validate_divider-DividerIsValid d =
    require_passes _ _ _ (one_of ("" ∷ "solid" ∷ "dashed" ∷ []) d.style)
      (require_passes _ _ _ (not_negative d.size) (last_passes _ _ (at_most 100 d.size)))

pub validate_spacer-InRange :
    (height : ℤ) → Passes (validate_spacer height) (InRange 0 10000 height)
unfolding validate_spacer
validate_spacer-InRange height =
    require_passes _ _ _ (not_negative height) (last_passes _ _ (at_most 10000 height))

pub validate_feed-InRange : (lines : ℤ) → Passes (validate_feed lines) (InRange 1 255 lines)
unfolding validate_feed
validate_feed-InRange lines =
    require_passes _ _ _ (positive lines) (last_passes _ _ (at_most 255 lines))
  where
    positive : (z : ℤ) → Decides (ltb_ℤ (pos 0) z) (pos 1 ≤ℤ z)
    positive z = (λ h. ground arith, λ h. ground arith)

pub validate_cut-OneOf :
    (mode : Text) → Passes (validate_cut mode) (OneOf ("" ∷ "full" ∷ "partial" ∷ []) mode)
unfolding validate_cut
validate_cut-OneOf mode = last_passes _ _ (one_of ("" ∷ "full" ∷ "partial" ∷ []) mode)

pub validate_heading-ne-nil : (content : Text) → Passes (validate_heading content) (content ≢ [])
unfolding validate_heading
validate_heading-ne-nil content = last_passes _ _ (not_empty content)

abbrev pub AssetIsValid : Asset → Type 0
AssetIsValid a =
    (a.name ≢ [])
    × ((valid_utf8 a.name ≡ true)
        × ((¬ ((contains_any a.name (codes "/\\") ≡ true) ⊎ OneOf ("." ∷ ".." ∷ []) a.name))
            × (OneOf aligns a.align × (pos 0 ≤ℤ a.width))))

pub validate_asset-AssetIsValid : (a : Asset) → Passes (validate_asset a) (AssetIsValid a)
unfolding validate_asset
validate_asset-AssetIsValid a = require_passes _ _ _ (not_empty a.name) (
    require_passes _ _ _ (is_true _) (
      require_passes _ _ _
        (not_decides _ (or_decides _ _ (is_true _) (one_of ("." ∷ ".." ∷ []) a.name)))
        (require_passes _ _ _ (one_of aligns a.align) (last_passes _ _ (not_negative a.width)))))

abbrev pub IsUtf8 : Text → Type 0
IsUtf8 t = valid_utf8 t ≡ true

abbrev pub RowIsValid : ℕ → List Text → Type 0
RowIsValid n row = (length row ≡ n) × All IsUtf8 row

abbrev pub TableIsValid : Table → Type 0
TableIsValid t =
    (t.headers ≢ [])
    × ((t.rows ≢ []) × (All IsUtf8 t.headers × All (RowIsValid (length t.headers)) t.rows))

headers_pass : (hs : List Text) → Passes (invalid_header hs) (All IsUtf8 hs)
unfolding invalid_header
headers_pass [] = no_error
headers_pass (t ∷ ts) = require_passes _ _ _ (is_true _) (headers_pass ts)

cells_pass :
    (i : ℕ) (cells : List Text) (rest : Option GoError) {Q : Type 0}
    → Passes rest Q
    → Passes (invalid_cell i cells rest) (All IsUtf8 cells × Q)
unfolding invalid_cell
cells_pass i [] rest q = (λ h. (tt, q.0 h), λ h. q.1 h.1)
cells_pass i (c ∷ cs) rest q =
    let p : Passes (invalid_cell i (c ∷ cs) rest) (IsUtf8 c × (All IsUtf8 cs × _)) =
      require_passes _ _ _ (is_true _) (cells_pass i cs rest q) in
    (λ h. (((p.0 h).0, (p.0 h).1.0), (p.0 h).1.1), λ h. p.1 (h.0.0, (h.0.1, h.1)))

rows_pass :
    (n i : ℕ) (rows : List (List Text)) → Passes (invalid_row n i rows) (All (RowIsValid n) rows)
unfolding invalid_row
rows_pass n i [] = no_error
rows_pass n i (row ∷ rows) =
    let p : Passes (invalid_row n i (row ∷ rows))
        ((length row ≡ n) × (All IsUtf8 row × All (RowIsValid n) rows)) =
      require_passes _ _ _ (equal_numbers (length row) n)
        (cells_pass i row _ (rows_pass n (i + 1) rows)) in
    (λ h. (((p.0 h).0, (p.0 h).1.0), (p.0 h).1.1), λ h. p.1 (h.0.0, (h.0.1, h.1)))

headers_then :
    (o rest : Option GoError) {P Q : Type 0}
    → Passes o P
    → Passes rest Q
    → Passes (elim o [ some e ↦ some e | none ↦ rest ]) (P × Q)
headers_then none rest p q = (λ h. (p.0 refl, q.0 h), λ h. q.1 h.1)
headers_then (some e) rest p q = (λ h. cc, λ h. cc (p.1 h.0))

pub validate_table-TableIsValid : (t : Table) → Passes (validate_table t) (TableIsValid t)
unfolding validate_table
validate_table-TableIsValid t = require_passes _ _ _ (is_nonempty t.headers) (
    require_passes _ _ _ (is_nonempty t.rows)
      (headers_then _ _ (headers_pass t.headers) (rows_pass (length t.headers) 0 t.rows)))

abbrev pub ItemIsValid : Text → ListItem → Type 0
ItemIsValid kind item =
    ((item.content ≢ []) × IsUtf8 item.content)
    × (InRange 0 8 item.indent × (item.checked ≡ true → kind ≡ codes "checkbox"))

abbrev pub ListIsValid : ListElement → Type 0
ListIsValid x =
    OneOf ("" ∷ "bullet" ∷ "number" ∷ "checkbox" ∷ []) x.kind
    × ((x.items ≢ []) × All (ItemIsValid x.kind) x.items)

pub implied : (b c : Bool) {P : Type 0} → Decides c P → Decides (not (b && not c)) (b ≡ true → P)
implied true true p = (λ h e. p.0 refl, λ h. refl)
implied true false p = (λ h. cc, λ h. absurd (false≢true (p.1 (h refl))))
implied false c p = (λ h e. cc, λ h. refl)

pub one_word : (s : String) (t : Text) → Decides (is_any (s ∷ []) t) (t ≡ codes s)
one_word s t = (λ h. only ((one_of (s ∷ []) t).0 h), λ h. (one_of (s ∷ []) t).1 (inl h))
  where
    only : OneOf (s ∷ []) t → t ≡ codes s
    only (inl e) = e
    only (inr n) = absurd n

item_reports :
    (kind : Text) (i : ℕ) (item : ListItem)
    → Reports (invalid_item kind i item) (ItemIsValid kind item)
unfolding invalid_item
item_reports kind i item =
    append_reports _ _ (neither_reported _ _ _ _ (not_empty item.content) (not_not _ (is_true _))) (
      append_reports _ _
        (neither_reported _ _ _ _ (not_negative item.indent) (at_most 8 item.indent))
        (not_reported _ _ (implied item.checked _ (one_word "checkbox" kind))))

items_report :
    (kind : Text) (i : ℕ) (items : List ListItem)
    → Reports (invalid_items kind i items) (All (ItemIsValid kind) items)
unfolding invalid_items
items_report kind i [] = no_report
items_report kind i (item ∷ items) =
    append_reports _ _ (item_reports kind i item) (items_report kind (i + 1) items)

pub validate_list-ListIsValid : (x : ListElement) → Passes (validate_list x) (ListIsValid x)
unfolding validate_list
validate_list-ListIsValid x =
    require_passes _ _ _ (one_of ("" ∷ "bullet" ∷ "number" ∷ "checkbox" ∷ []) x.kind) (
      require_passes _ _ _ (is_nonempty x.items)
        (join_all_passes _ (items_report x.kind 0 x.items)))

module _ (codecs : Codecs) where
  abbrev pub QrCodeIsValid : QrCode → Type 0
  QrCodeIsValid q =
      (q.content ≢ [])
      × (IsUtf8 q.content
          × (((q.error_correction ≡ []) ⊎ OneOf qr_code_error_correction_levels q.error_correction)
              × IsOk (codecs.qr_encode q.content (recovery_level q))))

  pub validate_qr_code-QrCodeIsValid :
      (q : QrCode) → Passes (validate_qr_code codecs q) (QrCodeIsValid q)
  unfolding validate_qr_code
  validate_qr_code-QrCodeIsValid q = require_passes _ _ _ (not_empty q.content) (
      require_passes _ _ _ (is_true _) (
        require_passes _ _ _
          (or_decides _ _ (empty q.error_correction)
            (one_of qr_code_error_correction_levels q.error_correction))
          (failing_passes _ _)))
    where
      empty : (t : Text) → Decides (is_empty t) (t ≡ [])
      empty [] = (λ h. refl, λ h. refl)
      empty (b ∷ t) = (λ h. cc, λ h. cc)

  abbrev pub BarcodeIsValid : Barcode → Type 0
  BarcodeIsValid b =
      (b.content ≢ [])
      × (IsUtf8 b.content
          × ((b.symbology ≢ [])
              × (OneOf barcode_symbologies b.symbology
                  × ((b.height ≤ℤ pos 10000) × IsOk (encode_barcode codecs b)))))

  pub validate_barcode-BarcodeIsValid :
      (b : Barcode) → Passes (validate_barcode codecs b) (BarcodeIsValid b)
  unfolding validate_barcode
  validate_barcode-BarcodeIsValid b = require_passes _ _ _ (not_empty b.content) (
      require_passes _ _ _ (is_true _) (
        require_passes _ _ _ (not_empty b.symbology) (
          require_passes _ _ _ (one_of barcode_symbologies b.symbology)
            (require_passes _ _ _ (at_most 10000 b.height) (failing_passes _ _)))))

  abbrev pub ConfigIsValid : Result ImageConfig → Type 0
  ConfigIsValid (ok c) = OneOf supported_image_formats c.format × (c.width * c.height ≤ 20_000_000)
  ConfigIsValid (err e) = ⊥

  abbrev pub ImageIsValid : List ℕ → Type 0
  ImageIsValid bytes = (bytes ≢ []) × ConfigIsValid (codecs.decode_config bytes)

  config_passes : (r : Result ImageConfig) → Passes (check_config codecs r) (ConfigIsValid r)
  config_passes (err e) = (λ h. cc, λ h. absurd h)
  config_passes (ok c) =
      require_passes _ _ _ (one_of supported_image_formats c.format)
        (last_passes _ _ (pixels (c.width * c.height)))
    where
      pixels : (n : ℕ) → Decides (not (ltb 20_000_000 n)) (n ≤ 20_000_000)
      pixels n = (λ h. ground arith, λ h. ground arith)

  pub validate_image-ImageIsValid :
      (bytes : List ℕ) → Passes (validate_image codecs bytes) (ImageIsValid bytes)
  unfolding validate_image
  validate_image-ImageIsValid bytes =
      require_passes _ _ _ (is_nonempty bytes) (config_passes (codecs.decode_config bytes))
