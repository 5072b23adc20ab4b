-- ===== src/Layout/Bitmaps.antt =====
-- The bitmaps of internal/render/layout and their sizes: image.go, asset.go, qrcode.go and barcode.go.
-- A page width of 0 stands for none to keep to; `none` is a panic: a division by zero, or an
-- index out of range. In target_image_size it is a product beyond an int as well.
pub mod Agree
use receiptd.Base.{
  ℕ, ◌+◌, ◌-◌, ◌*◌, ◌/◌, ◌%◌, ◌^◌, Bool, ◌||◌, ◌&&◌, not, Option, none, some, List, [], ◌∷◌, ltb,
  leb, ◌==◌, if◌then◌else◌, replicate,
}
use receiptd.Base.Int.{ℤ, pos, pos_part, ltb_ℤ}
use receiptd.Base.Text.{Text, codes}
use receiptd.Apperr.{GoError, errorf, Result, ok, err, ◌>>=◌, Arg, num}
use receiptd.Receipt.{QrCode, Barcode}
use receiptd.Receipt.Validate.{
  Codecs, ImageConfig, Picture, Pixel, is_any, supported_image_formats, max_image_pixels,
  recovery_level, encode_barcode, default_qr_code_size, default_barcode_height,
}
use receiptd.Document.{GlyphBitmap, row_bytes}
use receiptd.Render.Paint.{for_up, set_pixel, each_pixel, bitmap, and_then}

unfoldable pub scaled_image_size : ℕ → ℕ → ℕ → ℕ × ℕ
scaled_image_size orig_width orig_height max_width =
    if max_width == 0 || leb orig_width max_width
    then (orig_width, orig_height)
    else (max_width, orig_height * max_width / orig_width)

-- A width of 0 is none, as resolveTargetWidth answers it.
unfoldable pub resolve_target_width : ℤ → ℕ → ℕ
resolve_target_width requested max_width =
    if ltb_ℤ requested (pos 1)
    then 0
    else if ltb 0 max_width && ltb max_width (pos_part requested)
    then max_width
    else pos_part requested

unfoldable pub target_image_size : ℕ → ℕ → ℤ → ℕ → Option (ℕ × ℕ)
target_image_size orig_width orig_height requested max_width =
    let w : ℕ = resolve_target_width requested max_width in
    if w == 0
    then some (scaled_image_size orig_width orig_height max_width)
    else if orig_width == 0 || leb (2 ^ 63) (orig_height * w)
    then none
    else some (w, orig_height * w / orig_width)

unfoldable pub check_supported_format : Text → Option GoError
check_supported_format format =
    if is_any supported_image_formats format
    then none
    else some (
        errorf "image: unsupported format %q (supported: %s)"
          (Arg.text format ∷ Arg.text (codes "png, jpeg, gif, bmp, webp") ∷ []))

unfoldable pub check_image_dimensions : ImageConfig → Option GoError
check_image_dimensions cfg =
    if ltb max_image_pixels (cfg.width * cfg.height)
    then some (
        errorf "image: %dx%d (%d pixels) exceeds the %d pixel limit" (
          num cfg.width
          ∷ num cfg.height
          ∷ num (cfg.width * cfg.height)
          ∷ num max_image_pixels
          ∷ []))
    else none

abbrev pub unless_failing {ℓ} : {A : Type ℓ} → Option GoError → Result A → Result A
unless_failing none r = r
unless_failing (some e) r = err e

-- c + (0xffff-a) on uint32.
abbrev over_white : ℕ → ℕ → ℕ
over_white c a = (c + (65535 + 2 ^ 32 - a)) % 2 ^ 32

abbrev weighted : ℕ → ℕ → ℕ
weighted c k = c * k % 2 ^ 32 / 1000

unfoldable pub dark_over_white : Pixel → Bool
dark_over_white c =
    ltb
      ((weighted (over_white c.red c.alpha) 299
          + weighted (over_white c.green c.alpha) 587
          + weighted (over_white c.blue c.alpha) 114)
        % 2 ^ 32)
      32768

unfoldable pub rasterize_image : Picture → ℕ → ℕ → Option GlyphBitmap
rasterize_image img width height = bitmap width height (
    for_up height 0
      (λ y rows.
        for_up width 0
          (λ x bits.
            if dark_over_white (img.at (x * img.width / width) (y * img.height / height))
            then set_pixel bits (row_bytes width) x y
            else bits)
          rows)
      (some (replicate (row_bytes width * height) 0)))

abbrev pub bitmap_offset : Text → ℕ → ℕ
bitmap_offset align free = if is_any ("center" ∷ []) align then free / 2 else free

unfoldable pub align_bitmap : GlyphBitmap → Text → ℕ → Option GlyphBitmap
align_bitmap bmp align max_width =
    if not (is_any ("center" ∷ "right" ∷ []) align)
    then some bmp
    else if max_width == 0 || leb max_width bmp.width
    then some bmp
    else let offset : ℕ = bitmap_offset align (max_width - bmp.width) in
      bitmap max_width bmp.height (
        each_pixel bmp (λ x y bits. set_pixel bits (row_bytes max_width) (x + offset) y)
          (some (replicate (row_bytes max_width * bmp.height) 0)))

abbrev pub made : Option GlyphBitmap → Option (Result GlyphBitmap)
made none = none
made (some bmp) = some (ok bmp)

unfoldable pub qr_code_size : QrCode → ℕ → ℕ
qr_code_size q max_width =
    let size : ℕ = if ltb_ℤ q.size (pos 1) then default_qr_code_size else pos_part q.size in
    (scaled_image_size size size max_width).0

abbrev pub barcode_module_width : ℕ
barcode_module_width = 2

unfoldable pub barcode_width : ℕ → ℕ → ℕ
barcode_width native_width max_width =
    let width : ℕ = native_width * barcode_module_width in
    if ltb 0 max_width && ltb max_width width then max_width else width

unfoldable pub barcode_height : Barcode → ℕ
barcode_height b = if ltb_ℤ (pos 0) b.height then pos_part b.height else default_barcode_height

module _ (codecs : Codecs) where
  unfoldable pub decode_image_config : List ℕ → Result ImageConfig
  decode_image_config bytes = codecs.decode_config bytes >>= λ cfg.
      unless_failing (check_supported_format cfg.format)
        (unless_failing (check_image_dimensions cfg) (ok cfg))

  unfoldable pub decode_image : List ℕ → Result Picture
  decode_image bytes = codecs.decode_config bytes >>= λ cfg.
      unless_failing (check_supported_format cfg.format)
        (unless_failing (check_image_dimensions cfg) (codecs.decode bytes))

  unfoldable pub image_height : List ℕ → ℕ → Result ℕ
  image_height bytes max_width =
      decode_image_config bytes >>= λ cfg. ok (scaled_image_size cfg.width cfg.height max_width).1

  unfoldable pub asset_height : List ℕ → ℤ → ℕ → Option (Result ℕ)
  asset_height bytes requested max_width = elim (decode_image_config bytes) [
    | err e ↦ some (err e)
    | ok cfg ↦ elim (target_image_size cfg.width cfg.height requested max_width) [
      | none ↦ none
      | some (w, h) ↦ some (ok h)
    ]
  ]

  -- DecodeAlignedAssetBitmap.
  unfoldable pub decode_aligned_asset_bitmap : List ℕ → ℤ → Text → ℕ → Option (Result GlyphBitmap)
  decode_aligned_asset_bitmap bytes requested align max_width = elim (decode_image bytes) [
    | err e ↦ some (err e)
    | ok img ↦ elim (target_image_size img.width img.height requested max_width) [
      | none ↦ none
      | some (w, h) ↦
          made (and_then (rasterize_image img w h) (λ bmp. align_bitmap bmp align max_width))
    ]
  ]

  unfoldable pub decode_image_bitmap : List ℕ → ℕ → Option (Result GlyphBitmap)
  decode_image_bitmap bytes max_width = elim (decode_image bytes) [
    | err e ↦ some (err e)
    | ok img ↦ elim (target_image_size img.width img.height (pos 0) max_width) [
      | none ↦ none
      | some (w, h) ↦ made (rasterize_image img w h)
    ]
  ]

  unfoldable pub qr_code_dimensions : QrCode → ℕ → Result (ℕ × ℕ)
  qr_code_dimensions q max_width = codecs.qr_encode q.content (recovery_level q) >>= λ code.
      ok (qr_code_size q max_width, qr_code_size q max_width)

  unfoldable pub generate_qr_code_bitmap : QrCode → ℕ → Option (Result GlyphBitmap)
  generate_qr_code_bitmap q max_width = elim (codecs.qr_encode q.content (recovery_level q)) [
    | err e ↦ some (err e)
    | ok code ↦ made (
        rasterize_image (codecs.picture code) (qr_code_size q max_width) (qr_code_size q max_width))
  ]

  unfoldable pub barcode_dimensions : Barcode → ℕ → Result (ℕ × ℕ)
  barcode_dimensions b max_width = encode_barcode codecs b >>= λ code.
      ok (barcode_width (codecs.picture code).width max_width, barcode_height b)

  unfoldable pub generate_barcode_bitmap : Barcode → ℕ → Option (Result GlyphBitmap)
  generate_barcode_bitmap b max_width = elim (encode_barcode codecs b) [
    | err e ↦ some (err e)
    | ok code ↦ made (
        rasterize_image (codecs.picture code) (barcode_width (codecs.picture code).width max_width)
          (barcode_height b))
  ]
