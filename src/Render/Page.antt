-- ===== src/Render/Page.antt =====
-- Paint of internal/render/canvas/paint.go: the canvas of a document. A width of 0 or less makes the canvas
-- as wide as its content; `none` is a panic, or dashes that do not end.
pub mod Stacks
pub mod Places
pub mod Lays
pub mod Fits
use receiptd.Base.{
  zero, suc, ℕ, ◌+◌, ◌-◌, ◌*◌, ◌/◌, Bool, true, false, ◌&&◌, ◌||◌, not, Option, none, some, List,
  [], ◌∷◌, ◌++◌, if◌then◌else◌, ◌==◌, max, replicate,
}
use receiptd.Base.Int.{pos_part}
use receiptd.Base.Text.{Text}
use receiptd.Base.Utf8.{runes}
use receiptd.Apperr.{GoError, Kind, errorf, wrapf, wrap, Result, ok, err}
use receiptd.Receipt.{Element, text, heading, divider, spacer, image, qr_code, barcode, feed, cut}
use receiptd.Receipt.Validate.{Codecs}
use receiptd.Document.{
  row_bytes, GlyphBitmap, Font, Placed, Block, Document, Style, divider_thickness, resolve_size,
  plain, table_line, columns_line, list_line, barcode_caption, aligned_asset,
}
use receiptd.Layout.Bitmaps.{
  decode_image_bitmap, decode_aligned_asset_bitmap, generate_qr_code_bitmap,
  generate_barcode_bitmap,
}
use receiptd.Layout.Build.{Run, then_run}
use receiptd.Render.{Canvas}
use receiptd.Render.Paint.{and_then, is_set, style_glyph, paint_glyph, paint_h_line, paint_divider}

abbrev pub labelled : Run GlyphBitmap → (GoError → GoError) → Run GlyphBitmap
labelled none g = none
labelled (some (err e)) g = some (err (g e))
labelled (some (ok bmp)) g = some (ok bmp)

-- rasterBitmap: `none` where its `ok` is false.
unfoldable pub raster_bitmap : Codecs → Placed → ℕ → Option (Run GlyphBitmap)
raster_bitmap codecs (plain (image bytes)) max_width =
    some (labelled (decode_image_bitmap codecs bytes max_width) (wrapf "image: %w" []))
raster_bitmap codecs (plain (qr_code q)) max_width =
    some (labelled (generate_qr_code_bitmap codecs q max_width) (wrapf "qrcode: %w" []))
raster_bitmap codecs (plain (barcode b)) max_width =
    some (labelled (generate_barcode_bitmap codecs b max_width) (wrapf "barcode: %w" []))
raster_bitmap codecs (aligned_asset bytes width align) max_width = some (
    labelled (decode_aligned_asset_bitmap codecs bytes width align max_width)
      (wrapf "asset: %w" []))
raster_bitmap codecs element max_width = none

abbrev pub text_content : Placed → Option Text
text_content (plain (text t)) = some t.content
text_content (plain (heading content)) = some content
text_content (table_line content) = some content
text_content (columns_line content) = some content
text_content (list_line content) = some content
text_content (barcode_caption content) = some content
text_content element = none

abbrev other_height : Placed → Option ℕ
other_height (plain (spacer height)) = some (pos_part height)
other_height (plain (divider d)) = some (divider_thickness * resolve_size d.size)
other_height (plain (feed lines)) = some 0
other_height (plain (cut mode)) = some 0
other_height element = none

unfoldable pub block_height : Block → Font → Option ℕ
block_height b f = elim (text_content b.element) [
  | some content ↦ some (f.line_height * b.style.size)
  | none ↦ other_height b.element
]

abbrev pub permanent : GoError → GoError
permanent e = wrap Kind.permanent "canvas.Paint" (some e)

abbrev pub blank : GlyphBitmap
blank = record { width = 0; height = 0; bits = [] }

-- What a block takes of the canvas: how wide its content is, how tall it is, and its bitmap.
pub record Extent : Type 0 where
  pub width : ℕ
  pub height : ℕ
  pub bitmap : GlyphBitmap

abbrev content_extent : Font → Block → ℕ
content_extent f b = elim (text_content b.element) [
  | some content ↦ f.measure content * b.style.size
  | none ↦ 0
]

unfoldable pub extent : Codecs → Font → ℕ → Block → Run Extent
extent codecs f max_width b = elim (raster_bitmap codecs b.element max_width) [
  | some none ↦ none
  | some (some (err e)) ↦ some (err (permanent e))
  | some (some (ok bmp)) ↦
      some (ok (record { width = bmp.width; height = bmp.height; bitmap = bmp }))
  | none ↦ elim (block_height b f) [
    | none ↦ some (err (permanent (errorf "unsupported element type %T" [])))
    | some h ↦ some (ok (record { width = content_extent f b; height = h; bitmap = blank }))
  ]
]

-- The first loop of Paint: the size of the canvas so far, and the extent of each block.
unfoldable pub measure_blocks :
    Codecs → Font → ℕ → Bool → List Block → ℕ → ℕ → Run ((ℕ × ℕ) × List Extent)
measure_blocks codecs f max_width content_fit [] width height = some (ok ((width, height), []))
measure_blocks codecs f max_width content_fit (b ∷ bs) width height =
    then_run (extent codecs f max_width b) (λ x.
      then_run
        (measure_blocks codecs f max_width content_fit bs
          (if content_fit then max width x.width else width) (max height (b.y + x.height)))
        (λ (size, xs). some (ok (size, x ∷ xs))))

-- The glyphs of a line from the column `x` on, and the column after them.
unfoldable pub paint_runes : Font → Style → ℕ → ℕ → List ℕ → Canvas → Option (Canvas × ℕ)
paint_runes f style x y [] c = some (c, x)
paint_runes f style x y (r ∷ rs) c = and_then (style_glyph (f.glyph r).0 style) (λ bmp.
    and_then (paint_glyph x y bmp c)
      (λ d. paint_runes f style (x + (f.glyph r).1 * style.size) y rs d))

unfoldable pub paint_decorations : Block → Font → ℕ → Canvas → Option Canvas
paint_decorations b f text_width c =
    if text_width == 0 || (not b.style.underline && not b.style.strikethrough)
    then some c
    else let line_height : ℕ = elim (block_height b f) [ none ↦ 0 | some h ↦ h ] in
      let thickness : ℕ = b.style.size in
      and_then
        (if b.style.underline
          then paint_h_line 0 text_width (b.y + line_height - thickness) thickness c
          else some c)
        (λ d.
          if b.style.strikethrough
          then paint_h_line 0 text_width (b.y + line_height / 2) thickness d
          else some d)

abbrev pub add_control : Element → ℕ → Bool → Canvas → Canvas
add_control element y terminal c = record c {
  controls = c.controls ++ (record { y = y; element = element; terminal = terminal } ∷ []);
}

-- A case of the second loop.
unfoldable pub paint_block : Font → Bool → Block → GlyphBitmap → Canvas → Option Canvas
paint_block f is_last b bitmap c = elim b.element [
  | plain (feed lines) ↦ some (add_control (feed lines) b.y is_last c)
  | plain (cut mode) ↦ some (add_control (cut mode) b.y is_last c)
  | plain (divider d) ↦ paint_divider d b.y c
  | plain (image bytes) ↦ paint_glyph 0 b.y bitmap c
  | plain (qr_code q) ↦ paint_glyph 0 b.y bitmap c
  | plain (barcode q) ↦ paint_glyph 0 b.y bitmap c
  | aligned_asset bytes width align ↦ paint_glyph 0 b.y bitmap c
  | _ ↦ elim (text_content b.element) [
    | none ↦ some c
    | some content ↦
        and_then (paint_runes f b.style 0 b.y (runes content) c)
          (λ painted. paint_decorations b f painted.1 painted.0)
  ]
]

abbrev pub is_nil {ℓ} : {A : Type ℓ} → List A → Bool
is_nil [] = true
is_nil (x ∷ xs) = false

-- The second loop of Paint. There is an extent for each block.
unfoldable pub paint_blocks : Font → List Block → List Extent → Canvas → Option Canvas
paint_blocks f [] xs c = some c
paint_blocks f (b ∷ bs) [] c = none
paint_blocks f (b ∷ bs) (x ∷ xs) c = elim (paint_block f (is_nil bs) b x.bitmap c) [
  | none ↦ none
  | some d ↦ paint_blocks f bs xs d
]

abbrev pub clear : ℕ → ℕ → Canvas
clear width height = record {
  width = width;
  height = height;
  bits = replicate (row_bytes width * height) 0;
  controls = [];
}

unfoldable pub paint : Codecs → Document → Run Canvas
paint codecs doc =
    let width : ℕ = pos_part doc.width_dots in
    then_run (measure_blocks codecs doc.font width (width == 0) doc.blocks width 0) (λ (size, xs).
      elim (paint_blocks doc.font doc.blocks xs (clear size.0 size.1)) [
        | none ↦ none
        | some c ↦ some (ok c)
      ])

-- The gray of a pixel in EncodePNG's image; out of range, a panic.
abbrev pub gray_at : Canvas → ℕ → ℕ → Option ℕ
gray_at c x y = elim (is_set c.bits (row_bytes c.width) x y) [
  | none ↦ none
  | some true ↦ some 0
  | some false ↦ some 255
]

-- The loops over the pixels of EncodePNG: the row of a pixel of the image, and the rows.
unfoldable pub gray_row : Canvas → ℕ → ℕ → ℕ → Option (List ℕ)
unfolding is_set
gray_row c y x zero = some []
gray_row c y x (suc n) =
    and_then (gray_at c x y) (λ g. and_then (gray_row c y (x + 1) n) (λ gs. some (g ∷ gs)))

unfoldable pub gray_rows : Canvas → ℕ → ℕ → Option (List (List ℕ))
unfolding gray_row
gray_rows c y zero = some []
gray_rows c y (suc n) =
    and_then (gray_row c y 0 c.width)
      (λ row. and_then (gray_rows c (y + 1) n) (λ rows. some (row ∷ rows)))

-- EncodePNG. `png` is png.Encode of a gray image of those rows.
unfoldable pub encode_png : (List (List ℕ) → Result (List ℕ)) → Canvas → Run (List ℕ)
unfolding gray_rows
encode_png png c = elim (gray_rows c 0 c.height) [
  | none ↦ none
  | some rows ↦ elim (png rows) [
    | err e ↦ some (err (wrap Kind.permanent "canvas.EncodePNG" (some e)))
    | ok bytes ↦ some (ok bytes)
  ]
]
