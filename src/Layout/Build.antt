-- ===== src/Layout/Build.antt =====
-- Build of internal/render/layout/build.go: the blocks of a receipt, from top to bottom. A page width of
-- 0 or less is none to keep to; `none` is a panic, or padding that does not end.
use receiptd.Base.{ℕ, ◌+◌, ◌*◌, true, false, Option, none, some, List, [], ◌∷◌, ◌++◌}
use receiptd.Base.Int.{pos_part}
use receiptd.Base.Text.{Text, codes}
use receiptd.Apperr.{GoError, Kind, errorf, wrapf, wrap, Result, ok, err, Arg}
use receiptd.Receipt.{
  Element, Elements, Receipt, TextElement, Barcode, Asset, nil_element, text, heading, divider,
  spacer, image, asset, qr_code, barcode, columns, table, list, feed, cut, nil, cons,
}
use receiptd.Receipt.Validate.{Codecs}
use receiptd.Render.{Profile}
use receiptd.Document.{
  Font, Placed, Block, Document, Style, divider_thickness, resolve_size, normal_style,
  heading_style, plain, table_line, columns_line, list_line, barcode_caption, aligned_asset,
}
use receiptd.Layout.Words.{wrap_text}
use receiptd.Layout.Padding.{align_pad}
use receiptd.Layout.Lines.{table_lines, columns_lines, list_lines}
use receiptd.Layout.Bitmaps.{image_height, asset_height, qr_code_dimensions, barcode_dimensions}

-- An answer, an error, or a panic.
abbrev pub Run {ℓ} : Type ℓ → Type ℓ
Run A = Option (Result A)

abbrev pub then_run {ℓ κ} : {A : Type ℓ} {B : Type κ} → Run A → (A → Run B) → Run B
then_run none f = none
then_run (some (err e)) f = some (err e)
then_run (some (ok a)) f = f a

-- The blocks of an element, and the row below them.
abbrev pub Placing : Type 0
Placing = List Block × ℕ

abbrev pub text_style : TextElement → Style
text_style t = record {
  bold = t.bold;
  italic = t.italic;
  underline = t.underline;
  strikethrough = t.strikethrough;
  size = resolve_size t.size;
}

abbrev pub block_at : ℕ → Style → Placed → Block
block_at y style element = record { y = y; element = element; style = style }

-- A block for each line, one below the other.
unfoldable pub stack : (Text → Placed) → Style → ℕ → ℕ → List Text → Placing
stack make style step y [] = ([], y)
stack make style step y (line ∷ lines) =
    let (blocks, end) = stack make style step (y + step) lines in
    (block_at y style (make line) ∷ blocks, end)

abbrev pub permanent : GoError → GoError
permanent e = wrap Kind.permanent "layout.Build" (some e)

abbrev pub single : ℕ → Placed → ℕ → Run Placing
single y element height = some (ok (block_at y normal_style element ∷ [], y + height))

module _ (codecs : Codecs) (assets : Option (Text → Result (List ℕ))) (f : Font) (width : ℕ) where
  -- Each line of a text, padded to its alignment.
  unfoldable pub aligned_lines : Text → ℕ → List Text → Option (List Text)
  aligned_lines align size [] = some []
  aligned_lines align size (line ∷ lines) = elim (align_pad f line align width size) [
    | none ↦ none
    | some padded ↦ elim (aligned_lines align size lines) [
      | none ↦ none
      | some rest ↦ some (padded ∷ rest)
    ]
  ]

  abbrev pub with_content : TextElement → Text → Element
  with_content t line = text (record t { content = line })

  abbrev pub stacked : (Text → Placed) → Style → ℕ → Option (List Text) → Run Placing
  stacked make style y none = none
  stacked make style y (some lines) =
      some (ok (stack make style (f.line_height * style.size) y lines))

  unfoldable pub place_asset : Asset → ℕ → Run Placing
  place_asset a y = elim assets [
    | none ↦ some (
        err (
          permanent
            (errorf "asset %q: no assets.Store configured to resolve it" (Arg.text a.name ∷ []))))
    | some get ↦ elim (get a.name) [
      | err e ↦ some (err e)
      | ok bytes ↦ elim (asset_height codecs bytes a.width width) [
        | none ↦ none
        | some (err e) ↦ some (err (permanent (wrapf "asset: %w" [] e)))
        | some (ok h) ↦ single y (aligned_asset bytes a.width a.align) h
      ]
    ]
  ]

  unfoldable pub place_barcode : Barcode → ℕ → Run Placing
  place_barcode b y = elim (barcode_dimensions codecs b width) [
    | err e ↦ some (err (permanent (wrapf "barcode: %w" [] e)))
    | ok (w, h) ↦ elim b.show_text [
      | false ↦ single y (plain (barcode b)) h
      | true ↦ elim (align_pad f b.content (codes "center") w 1) [
        | none ↦ none
        | some caption ↦ some (
            ok (
              block_at y normal_style (plain (barcode b))
                  ∷ block_at (y + h) normal_style (barcode_caption caption)
                  ∷ [],
              y + h + f.line_height,
            ))
      ]
    ]
  ]

  -- A case of the loop over the elements.
  unfoldable pub place : Element → ℕ → Run Placing
  place (text t) y =
      stacked (λ line. plain (with_content t line)) (text_style t) y
        (aligned_lines t.align (resolve_size t.size)
          (wrap_text f width (resolve_size t.size) t.content))
  place (heading content) y =
      stacked (λ line. plain (heading line)) heading_style y (some (wrap_text f width 2 content))
  place (spacer height) y = single y (plain (spacer height)) (pos_part height)
  place (divider d) y = single y (plain (divider d)) (divider_thickness * resolve_size d.size)
  place (image bytes) y = elim (image_height codecs bytes width) [
    | err e ↦ some (err (permanent (wrapf "image: %w" [] e)))
    | ok h ↦ single y (plain (image bytes)) h
  ]
  place (asset a) y = place_asset a y
  place (qr_code q) y = elim (qr_code_dimensions codecs q width) [
    | err e ↦ some (err (permanent (wrapf "qrcode: %w" [] e)))
    | ok (w, h) ↦ single y (plain (qr_code q)) h
  ]
  place (barcode b) y = place_barcode b y
  place (table t) y = stacked table_line normal_style y (table_lines f t width)
  place (columns cs) y = elim (columns_lines f cs width) [
    | none ↦ none
    | some (err e) ↦ some (err (permanent (wrapf "columns: %w" [] e)))
    | some (ok lines) ↦ stacked columns_line normal_style y (some lines)
  ]
  place (list x) y = stacked list_line normal_style y (list_lines f x width)
  place (feed lines) y = single y (plain (feed lines)) 0
  place (cut mode) y = single y (plain (cut mode)) 0
  place nil_element y = some (err (permanent (errorf "unsupported element type %T" [])))

  unfoldable pub place_all : Elements → ℕ → Run Placing
  place_all nil y = some (ok ([], y))
  place_all (cons e es) y =
      then_run (place e y) (λ (blocks, y').
        then_run (place_all es y') (λ (rest, end). some (ok (blocks ++ rest, end))))

abbrev pub elements_or_none : Option Elements → Elements
elements_or_none none = nil
elements_or_none (some es) = es

-- Build. `assets` is the Get of the assets.Store given, if one is given.
unfoldable pub build :
    Codecs → Option (Text → Result (List ℕ)) → Receipt → Profile → Font → Run Document
build codecs assets r p f =
    then_run (place_all codecs assets f (pos_part p.width_dots) (elements_or_none r.elements) 0)
      (λ (blocks, end). some (ok (record { width_dots = p.width_dots; blocks = blocks; font = f })))
