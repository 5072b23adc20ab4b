-- ===== src/Receipt/Validate.antt =====
-- Receipt.Validate and the Validate methods of qrcode.go, barcode.go, image.go and columns.go of
-- internal/receipt. The encoders of github.com/boombuler/barcode and image.DecodeConfig are a
-- parameter, `Codecs`.
pub mod Limits
pub mod Simple
use Prim.Native.String.{String}
use receiptd.Base.{
  ℕ, ◌+◌, ◌*◌, Bool, true, false, not, ◌&&◌, ◌||◌, Option, none, some, List, [], ◌∷◌, ◌++◌, ltb,
  ◌==◌, if◌then◌else◌, length,
}
use receiptd.Base.Int.{ℤ, pos, ltb_ℤ}
use receiptd.Base.Text.{Text, codes, text_eq}
use receiptd.Base.Utf8.{valid_utf8, contains_any}
use receiptd.Apperr.{Kind, GoError, errorf, wrapf, join_all, wrap, Result, ok, err, Arg, num, int}
use receiptd.Receipt.{
  TextElement, Divider, Asset, QrCode, Barcode, Table, ListItem, ListElement, Element, Elements,
  Columns, Receipt, nil_element, text, heading, divider, spacer, image, asset, qr_code, barcode,
  columns, table, list, feed, cut, nil, cons, no_columns, column, column_nil, max_copies,
}
pub use Limits.*
unfoldable pub use Simple.*

module _ (codecs : Codecs) where
  unfoldable pub validate_qr_code : QrCode → Option GoError
  unfolding recovery_level
  validate_qr_code q =
      require (not (is_empty q.content)) (errorf "qrcode: content is required" []) (
        require (valid_utf8 q.content) (errorf "qrcode: content must be valid UTF-8" []) (
          require
            (is_empty q.error_correction
              || is_any qr_code_error_correction_levels q.error_correction)
            (errorf "qrcode: unsupported error_correction %q (supported: %s)"
              (Arg.text q.error_correction ∷ Arg.text (codes "low, medium, quartile, high") ∷ []))
            (failing (codecs.qr_encode q.content (recovery_level q))
              (wrapf "qrcode: content cannot be encoded: %w" []))))

  abbrev pub sized : String → ℕ → ℕ → Text → Result codecs.Code → Result codecs.Code
  sized message m n content code =
      if length content == m || length content == n
      then code
      else err (errorf message (num (length content) ∷ []))

  -- Barcode.Encode
  unfoldable pub encode_barcode : Barcode → Result codecs.Code
  encode_barcode b =
      if is_any ("code128" ∷ []) b.symbology
      then codecs.code128 b.content
      else if is_any ("ean13" ∷ []) b.symbology
      then sized "ean13 requires 12 or 13 digits, got %d" 12 13 b.content (codecs.ean b.content)
      else if is_any ("ean8" ∷ []) b.symbology
      then sized "ean8 requires 7 or 8 digits, got %d" 7 8 b.content (codecs.ean b.content)
      else if is_any ("upca" ∷ []) b.symbology
      then sized "upca requires 11 or 12 digits, got %d" 11 12 b.content
          (codecs.ean (codes "0" ++ b.content))
      else if is_any ("code39" ∷ []) b.symbology
      then codecs.code39 b.content false false
      else if is_any ("itf" ∷ []) b.symbology
      then codecs.two_of_five b.content true
      else err (errorf "unsupported symbology %q" (Arg.text b.symbology ∷ []))

  unfoldable pub validate_barcode : Barcode → Option GoError
  unfolding encode_barcode
  validate_barcode b =
      require (not (is_empty b.content)) (errorf "barcode: content is required" []) (
        require (valid_utf8 b.content) (errorf "barcode: content must be valid UTF-8" []) (
          require (not (is_empty b.symbology)) (errorf "barcode: symbology is required" []) (
            require (is_supported_symbology b.symbology)
              (errorf "barcode: unsupported symbology %q (supported: %s)" (
                Arg.text b.symbology
                ∷ Arg.text (codes "code128, ean13, ean8, upca, code39, itf")
                ∷ []))
              (require (not (ltb_ℤ (pos max_barcode_height_dots) b.height))
                (errorf "barcode: height must not exceed %d, got %d"
                  (num max_barcode_height_dots ∷ int b.height ∷ []))
                (failing (encode_barcode b) (
                  wrapf "barcode: content cannot be encoded as %s: %w"
                    (Arg.text b.symbology ∷ [])))))))

  abbrev pub check_config : Result ImageConfig → Option GoError
  check_config (err e) =
      some (wrapf "image: data does not decode as a supported image format: %w" [] e)
  check_config (ok cfg) =
      require (is_any supported_image_formats cfg.format)
        (errorf "image: unsupported format %q (supported: %s)"
          (Arg.text cfg.format ∷ Arg.text (codes "png, jpeg, gif, bmp, webp") ∷ []))
        (require (not (ltb max_image_pixels (cfg.width * cfg.height)))
          (errorf "image: %dx%d (%d pixels) exceeds the %d pixel limit" (
            num cfg.width
            ∷ num cfg.height
            ∷ num (cfg.width * cfg.height)
            ∷ num max_image_pixels
            ∷ []))
          none)

  unfoldable pub validate_image : List ℕ → Option GoError
  validate_image bytes =
      require (ltb 0 (length bytes)) (errorf "image: data is required" [])
        (check_config (codecs.decode_config bytes))

  abbrev pub negative_weight : ℕ → ℤ → List GoError
  negative_weight i weight =
      if ltb_ℤ weight (pos 0)
      then errorf "columns: column %d: weight must not be negative" (num i ∷ []) ∷ []
      else []

  abbrev pub at_column : ℕ → ℕ → Option GoError → List GoError
  at_column i j none = []
  at_column i j (some e) = wrapf "columns: column %d: element %d: %w" (num i ∷ num j ∷ []) e ∷ []

  abbrev pub or_no_columns : Columns → Option GoError → Option GoError
  or_no_columns no_columns rest = some (errorf "columns: at least one column is required" [])
  or_no_columns (column w es cs) rest = rest
  or_no_columns (column_nil w cs) rest = rest

  -- The element's own Validate. `nil_element` has none: each caller tests for nil first.
  unfoldable mutual
    unfolding validate_text validate_heading validate_divider validate_spacer validate_image
        validate_asset validate_qr_code validate_barcode validate_table validate_list validate_feed
        validate_cut

    pub validate_element : Element → Option GoError
    validate_element nil_element = none
    validate_element (text t) = validate_text t
    validate_element (heading content) = validate_heading content
    validate_element (divider d) = validate_divider d
    validate_element (spacer height) = validate_spacer height
    validate_element (image bytes) = validate_image bytes
    validate_element (asset a) = validate_asset a
    validate_element (qr_code q) = validate_qr_code q
    validate_element (barcode b) = validate_barcode b
    validate_element (columns cs) = or_no_columns cs (join_all (invalid_columns cs 0))
    validate_element (table t) = validate_table t
    validate_element (list x) = validate_list x
    validate_element (feed lines) = validate_feed lines
    validate_element (cut mode) = validate_cut mode

    pub invalid_columns : Columns → ℕ → List GoError
    invalid_columns no_columns i = []
    invalid_columns (column w es cs) i =
        negative_weight i w ++ (invalid_cells es i 0 ++ invalid_columns cs (i + 1))
    invalid_columns (column_nil w cs) i = negative_weight i w ++ invalid_columns cs (i + 1)

    pub invalid_cells : Elements → ℕ → ℕ → List GoError
    invalid_cells nil i j = []
    invalid_cells (cons nil_element es) i j =
        errorf "columns: column %d: element %d: nil element" (num i ∷ num j ∷ [])
        ∷ invalid_cells es i (j + 1)
    invalid_cells (cons e es) i j = at_column i j (validate_element e) ++ invalid_cells es i (j + 1)

  abbrev pub option_list : Option GoError → List GoError
  option_list none = []
  option_list (some e) = e ∷ []

  unfoldable pub invalid_elements : Elements → List GoError
  unfolding validate_element
  invalid_elements nil = []
  invalid_elements (cons nil_element es) = errorf "receipt: nil element" [] ∷ invalid_elements es
  invalid_elements (cons e es) = option_list (validate_element e) ++ invalid_elements es

  abbrev pub invalid_copies : ℤ → List GoError
  invalid_copies copies =
      (if ltb_ℤ copies (pos 0)
        then errorf "copies must not be negative, got %d" (int copies ∷ []) ∷ []
        else [])
      ++ (if ltb_ℤ (pos max_copies) copies
          then errorf "copies must not exceed %d, got %d" (num max_copies ∷ int copies ∷ []) ∷ []
          else [])

  abbrev pub elements_of : Receipt → List GoError
  elements_of r = elim r.elements [ none ↦ [] | some es ↦ invalid_elements es ]

  -- Receipt.Validate
  unfoldable pub validate : Receipt → Option GoError
  validate r = elim (join_all (invalid_copies r.copies ++ elements_of r)) [
    | none ↦ none
    | some e ↦ some (wrap Kind.validation "receipt.Validate" (some e))
  ]
