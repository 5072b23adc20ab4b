-- ===== src/Layout/Bitmaps/Agree.antt =====
-- The two stages of internal/render that measure a raster element agree: the height that Build advances by,
-- read from a header, is that of the bitmap that Paint paints.
use receiptd.Base.{
  ℕ, ◌+◌, ◌-◌, ◌*◌, ◌/◌, ◌<◌, ◌≤◌, ◌^◌, ltb, ◌≡◌, inl, inr, refl, sym, ◌∙◌, false, Option, none,
  some, List, [], ◌∷◌, arith, replicate, leb, ◌==◌, ◌||◌, Bool-cases, Option-cases,
}
use mathlib.Core.Path.{subst, ap}
use native.Mathlib.Nat.{mul-le-mul_right}
use receiptd.Base.Int.{ℤ, pos}
use receiptd.Base.Text.{Text}
use receiptd.Apperr.{GoError, Result, ok, err, Result-cases}
use receiptd.Receipt.{QrCode, Barcode}
use receiptd.Receipt.Validate.{
  Codecs, ImageConfig, Picture, max_image_pixels, is_any, recovery_level, encode_barcode,
}
use receiptd.Document.{GlyphBitmap, IsPacked, row_bytes}
use receiptd.Render.Paint.{each_pixel, set_pixel, bitmap, and_then}
use receiptd.Render.Paint.Sizes.{
  Sized, bitmap-Sized, for_up-Keeps, set_pixel-Keeps, if-Keeps, same-Keeps, each_pixel-Keeps,
  in_range, replicate-Whole,
}
use receiptd.Layout.Bitmaps.{
  made, scaled_image_size, resolve_target_width, target_image_size, check_supported_format,
  check_image_dimensions, dark_over_white, rasterize_image, bitmap_offset, align_bitmap,
  decode_image_config, decode_image, image_height, asset_height, decode_aligned_asset_bitmap,
  decode_image_bitmap, qr_code_dimensions, generate_qr_code_bitmap, barcode_dimensions,
  generate_barcode_bitmap, qr_code_size, barcode_height, barcode_width,
}

rasterize_image-Sized : (img : Picture) (w h : ℕ) → Sized w h (rasterize_image img w h)
unfolding rasterize_image
rasterize_image-Sized img w h = bitmap-Sized w h _ (
    for_up-Keeps _ h 0 _
      (λ y a b. for_up-Keeps _ w 0 _ (λ x c d.
        if-Keeps _ (dark_over_white (img.at (x * img.width / w) (y * img.height / h))) _
          (λ bits. bits)
          (λ e.
            set_pixel-Keeps _ (row_bytes w) x y
              (in_range w h x y (omega (arith, d)) (omega (arith, b))))
          (λ e. same-Keeps _)))
      (some (replicate (row_bytes w * h) 0)) (replicate-Whole (row_bytes w * h)))

-- Aligned, a bitmap of whole rows stays one, and as tall.
align_bitmap-Tall :
    (bmp : GlyphBitmap) (align : Text) (max_width : ℕ)
    → IsPacked bmp
    → (out : GlyphBitmap) × (align_bitmap bmp align max_width ≡ some out)
      × IsPacked out
      × (out.height ≡ bmp.height)
unfolding align_bitmap
align_bitmap-Tall bmp align max_width h =
    elim (Bool-cases (is_any ("center" ∷ "right" ∷ []) align)) [
      | inr a ↦ rw a (bmp, refl, h, refl)
      | inl a ↦ elim (Bool-cases (max_width == 0 || leb max_width bmp.width)) [
        | inl b ↦ rw (a, b) (bmp, refl, h, refl)
        | inr b ↦
            let (out, e, s) = moved (ground (arith, b)) in rw (a, b) (out, e, s.packed, s.height)
      ]
    ]
  where
    offset : ℕ
    offset = bitmap_offset align (max_width - bmp.width)

    free : offset ≤ max_width - bmp.width
    free = ground arith

    moved :
        bmp.width < max_width
        → Sized max_width bmp.height (
            bitmap max_width bmp.height (
              each_pixel bmp
                (λ x y bits. set_pixel bits (row_bytes max_width) (x + offset) y)
                (some (replicate (row_bytes max_width * bmp.height) 0))))
    moved wide = bitmap-Sized max_width bmp.height _ (
        each_pixel-Keeps _ bmp _ h
          (λ x y p q.
            set_pixel-Keeps _ (row_bytes max_width) (x + offset) y
              (in_range max_width bmp.height (x + offset) y (omega (arith, p, free, wide)) q))
          (some (replicate (row_bytes max_width * bmp.height) 0))
          (replicate-Whole (row_bytes max_width * bmp.height)))

-- A whole bitmap of that height, or an error.
abbrev pub HasHeight : ℕ → Option (Result GlyphBitmap) → Type 0
HasHeight h none = ⊥
HasHeight h (some (err e)) = Unit
HasHeight h (some (ok bmp)) = (bmp.height ≡ h) × IsPacked bmp

-- The measured height is that of the bitmap; an error where it is measured is fine as well.
abbrev pub Agrees : Option (Result ℕ) → Option (Result GlyphBitmap) → Type 0
Agrees none bmp = ⊥
Agrees (some (err e)) bmp = Unit
Agrees (some (ok h)) bmp = HasHeight h bmp

-- image.DecodeConfig and image.Decode read the same size from the same bytes.
pub record IsCodecs (codecs : Codecs) : Type 0 where
  pub bounds :
      (bytes : List ℕ) (cfg : ImageConfig) (img : Picture)
      → codecs.decode_config bytes ≡ ok cfg
      → codecs.decode bytes ≡ ok img
      → (img.width ≡ cfg.width) × (img.height ≡ cfg.height)

-- The width that is asked for, clamped to the page, is one for which a height is computed without
-- leaving an int.
abbrev pub IsFeasible : ℤ → ℕ → Type 0
IsFeasible requested w = resolve_target_width requested w < 2 ^ 36

-- No picture of these bytes is 0 dots wide.
abbrev pub IsWide : Codecs → List ℕ → Type 0
IsWide codecs bytes = (cfg : ImageConfig) → codecs.decode_config bytes ≡ ok cfg → 0 < cfg.width

target_image_size-Ends :
    (w h : ℕ) (requested : ℤ) (max_width : ℕ)
    → 0 < w
    → h * resolve_target_width requested max_width < 2 ^ 63
    → (size : ℕ × ℕ) × (target_image_size w h requested max_width ≡ some size)
unfolding target_image_size
target_image_size-Ends w h requested max_width p fits =
    elim (Bool-cases (resolve_target_width requested max_width == 0)) [
      | inl a ↦ (scaled_image_size w h max_width, rw (target_image_size, a) refl)
      | inr a ↦
          let q : (w == 0 || leb (2 ^ 63) (h * resolve_target_width requested max_width)) ≡ false =
            ground (arith, p, fits) in
          (
            (
              resolve_target_width requested max_width,
              h * resolve_target_width requested max_width / w,
            ),
            rw (target_image_size, a, q) refl,
          )
    ]

target_image_size-none :
    (w h max_width : ℕ)
    → target_image_size w h (pos 0) max_width ≡ some (scaled_image_size w h max_width)
unfolding target_image_size resolve_target_width
target_image_size-none w h max_width = refl

ok-injective : {A : Type 0} {a b : A} → Result.ok a ≡ ok b → a ≡ b
ok-injective {A} {a} e = ap (λ r. elim r [ ok x ↦ x | err x ↦ a ]) e

Agrees-by :
    (a a' : Option (Result ℕ)) (b b' : Option (Result GlyphBitmap))
    → a ≡ a'
    → b ≡ b'
    → Agrees a' b'
    → Agrees a b
Agrees-by a a' b b' p q h = subst (λ x. Agrees x b) (sym p) (subst (λ y. Agrees a' y) (sym q) h)

module _ (codecs : Codecs) (law : IsCodecs codecs) where
  -- Either both readings of the bytes fail, or the header is read and the picture, if it is, has its size.
  data Reads (bytes : List ℕ) : Type 0 where
    refused :
        (e : GoError)
        → decode_image_config codecs bytes ≡ err e
        → decode_image codecs bytes ≡ err e
        → Reads bytes
    truncated :
        (cfg : ImageConfig) (e : GoError)
        → codecs.decode_config bytes ≡ ok cfg
        → decode_image_config codecs bytes ≡ ok cfg
        → decode_image codecs bytes ≡ err e
        → Reads bytes
    read :
        (cfg : ImageConfig) (img : Picture)
        → codecs.decode_config bytes ≡ ok cfg
        → decode_image_config codecs bytes ≡ ok cfg
        → decode_image codecs bytes ≡ ok img
        → (img.width ≡ cfg.width)
        → (img.height ≡ cfg.height)
        → Reads bytes

  bytes-Reads : (bytes : List ℕ) → Reads bytes
  unfolding decode_image_config decode_image
  bytes-Reads bytes = elim (Result-cases (codecs.decode_config bytes)) [
    | inl (e, a) ↦ refused e (rw (decode_image_config, a) refl) (rw (decode_image, a) refl)
    | inr (cfg, a) ↦ elim (Option-cases (check_supported_format cfg.format)) [
      | inr (e, b) ↦ refused e (rw (decode_image_config, a, b) refl) (rw (decode_image, a, b) refl)
      | inl b ↦ elim (Option-cases (check_image_dimensions cfg)) [
        | inr (e, c) ↦
            refused e (rw (decode_image_config, a, b, c) refl) (rw (decode_image, a, b, c) refl)
        | inl c ↦ elim (Result-cases (codecs.decode bytes)) [
          | inl (e, d) ↦
              truncated cfg e a (rw (decode_image_config, a, b, c) refl)
                (rw (decode_image, a, b, c, d) refl)
          | inr (img, d) ↦
              read cfg img a (rw (decode_image_config, a, b, c) refl)
                (rw (decode_image, a, b, c, d) refl) ((law.bounds bytes cfg img a d).0)
                ((law.bounds bytes cfg img a d).1)
        ]
      ]
    ]
  ]

  raster-HasHeight :
      (img : Picture) (w h k : ℕ) → h ≡ k → HasHeight k (made (rasterize_image img w h))
  raster-HasHeight img w h k e =
      let (bmp, p, s) = rasterize_image-Sized img w h in rw p (s.height ∙ e, s.packed)

  aligned-HasHeight :
      (img : Picture) (w h : ℕ) (align : Text) (max_width : ℕ)
      → HasHeight h
          (made (and_then (rasterize_image img w h) (λ bmp. align_bitmap bmp align max_width)))
  aligned-HasHeight img w h align max_width =
      let (bmp, p, s) = rasterize_image-Sized img w h in
      let (out, q, t, k) = align_bitmap-Tall bmp align max_width s.packed in
      rw (p, q) (k ∙ s.height, t)

  -- A header that is read has no more pixels than the limit, so not more rows either.
  rows_limit :
      (bytes : List ℕ) (cfg : ImageConfig)
      → decode_image_config codecs bytes ≡ ok cfg
      → 0 < cfg.width
      → cfg.height ≤ max_image_pixels
  unfolding decode_image_config check_image_dimensions
  rows_limit bytes cfg e p = elim (Result-cases (codecs.decode_config bytes)) [
    | inl (x, a) ↦ cc (rw (decode_image_config, a) at e)
    | inr (c, a) ↦ elim (Option-cases (check_supported_format c.format)) [
      | inr (x, b) ↦ cc (rw (decode_image_config, a, b) at e)
      | inl b ↦ elim (Bool-cases (ltb max_image_pixels (c.width * c.height))) [
        | inl d ↦ cc (rw (decode_image_config, a, b, check_image_dimensions, d) at e)
        | inr d ↦
            let same : c ≡ cfg =
              ok-injective (rw (decode_image_config, a, b, check_image_dimensions, d) at e) in
            few cfg (subst (λ x. ltb max_image_pixels (x.width * x.height) ≡ false) same d) p
      ]
    ]
  ]
    where
      few :
          (x : ImageConfig)
          → ltb max_image_pixels (x.width * x.height) ≡ false
          → 0 < x.width
          → x.height ≤ max_image_pixels
      few x d p =
          let k : 1 * x.height ≤ x.width * x.height =
            mul-le-mul_right x.height (omega (arith, p)) in
          ground (arith, d, k)

  fits_int : (h w : ℕ) → h ≤ max_image_pixels → w < 2 ^ 36 → h * w < 2 ^ 63
  fits_int h w p q =
      let k : h * w ≤ max_image_pixels * w = mul-le-mul_right w p in omega (arith, k, q)

  pub image-Agrees :
      (bytes : List ℕ) (w : ℕ)
      → Agrees (some (image_height codecs bytes w)) (decode_image_bitmap codecs bytes w)
  unfolding image_height decode_image_bitmap
  image-Agrees bytes w = elim (bytes-Reads bytes) [
    | refused e a b ↦ by (some (err e)) painted (rw (image_height, a) refl) refl tt
    | truncated cfg e a b c ↦
        by (some (ok (scaled_image_size cfg.width cfg.height w).1)) (some (err e))
          (rw (image_height, b) refl) (rw (decode_image_bitmap, c) refl) tt
    | read cfg img a b c p q ↦
        let size : ℕ × ℕ = scaled_image_size img.width img.height w in
        let e : size ≡ scaled_image_size cfg.width cfg.height w = rw (p, q) refl in
        by (some (ok size.1)) (made (rasterize_image img size.0 size.1))
          (rw (image_height, b, e) refl)
          (rw (decode_image_bitmap, c, target_image_size-none img.width img.height w) refl)
          (raster-HasHeight img size.0 size.1 size.1 refl)
  ]
    where
      painted : Option (Result GlyphBitmap)
      painted = decode_image_bitmap codecs bytes w

      by :
          (x : Option (Result ℕ)) (y : Option (Result GlyphBitmap))
          → some (image_height codecs bytes w) ≡ x
          → painted ≡ y
          → Agrees x y
          → Agrees (some (image_height codecs bytes w)) painted
      by x y = Agrees-by (some (image_height codecs bytes w)) x painted y

  pub asset-Agrees :
      (bytes : List ℕ) (requested : ℤ) (align : Text) (w : ℕ)
      → IsWide codecs bytes
      → IsFeasible requested w
      → Agrees
          (asset_height codecs bytes requested w)
          (decode_aligned_asset_bitmap codecs bytes requested align w)
  unfolding asset_height decode_aligned_asset_bitmap
  asset-Agrees bytes requested align w wide small = elim (bytes-Reads bytes) [
    | refused e a b ↦ by (some (err e)) painted (rw (asset_height, a) refl) refl tt
    | truncated cfg e a b c ↦
        let ((x, h), d) = target_image_size-Ends cfg.width cfg.height requested w (wide cfg a) (
          fits_int cfg.height (resolve_target_width requested w)
            (rows_limit bytes cfg b (wide cfg a)) small) in
        by (some (ok h)) (some (err e)) (rw (asset_height, b, d) refl)
          (rw (decode_aligned_asset_bitmap, c) refl) tt
    | read cfg img a b c p q ↦
        let ((x, h), d) = target_image_size-Ends cfg.width cfg.height requested w (wide cfg a) (
          fits_int cfg.height (resolve_target_width requested w)
            (rows_limit bytes cfg b (wide cfg a)) small) in
        let d' : target_image_size img.width img.height requested w ≡ some (x, h) = rw (p, q) d in
        by (some (ok h))
          (made (and_then (rasterize_image img x h) (λ bmp. align_bitmap bmp align w)))
          (rw (asset_height, b, d) refl) (rw (decode_aligned_asset_bitmap, c, d') refl)
          (aligned-HasHeight img x h align w)
  ]
    where
      painted : Option (Result GlyphBitmap)
      painted = decode_aligned_asset_bitmap codecs bytes requested align w

      by :
          (x : Option (Result ℕ)) (y : Option (Result GlyphBitmap))
          → asset_height codecs bytes requested w ≡ x
          → painted ≡ y
          → Agrees x y
          → Agrees (asset_height codecs bytes requested w) painted
      by x y = Agrees-by (asset_height codecs bytes requested w) x painted y

  pub qr_code-Agrees :
      (q : QrCode) (w : ℕ)
      → Agrees
          (elim (qr_code_dimensions codecs q w) [ err e ↦ some (err e) | ok (x, h) ↦ some (ok h) ])
          (generate_qr_code_bitmap codecs q w)
  unfolding qr_code_dimensions generate_qr_code_bitmap
  qr_code-Agrees q w = elim (Result-cases (codecs.qr_encode q.content (recovery_level q))) [
    | inl (e, a) ↦ rw (generate_qr_code_bitmap, a) tt
    | inr (code, a) ↦
        rw (generate_qr_code_bitmap, a)
          (raster-HasHeight (codecs.picture code) (qr_code_size q w) (qr_code_size q w) _ refl)
  ]

  pub barcode-Agrees :
      (b : Barcode) (w : ℕ)
      → Agrees
          (elim (barcode_dimensions codecs b w) [ err e ↦ some (err e) | ok (x, h) ↦ some (ok h) ])
          (generate_barcode_bitmap codecs b w)
  unfolding barcode_dimensions generate_barcode_bitmap
  barcode-Agrees b w = elim (Result-cases (encode_barcode codecs b)) [
    | inl (e, a) ↦ rw (generate_barcode_bitmap, a) tt
    | inr (code, a) ↦
        rw (generate_barcode_bitmap, a)
          (raster-HasHeight (codecs.picture code) (barcode_width (codecs.picture code).width w)
            (barcode_height b) _ refl)
  ]
