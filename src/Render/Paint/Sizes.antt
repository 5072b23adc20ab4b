-- ===== src/Render/Paint/Sizes.antt =====
-- The glyph styles of internal/render/canvas/style.go and the painting of paint.go stay within their
-- bitmaps: no index is out of range, and the bitmaps stay whole.
use native.Mathlib.Nat.{mul-le-mul_right}
use receiptd.Base.{
  ℕ, zero, suc, ◌+◌, ◌-◌, ◌*◌, ◌/◌, ◌<◌, ◌≤◌, ◌≡◌, refl, ◌∙◌, inl, inr, Bool, true, false, Option,
  some, List, arith, ltb, leb, ◌||◌, Bool-cases, if◌then◌else◌, length, length-set,
  length-replicate, replicate, get_or, set,
}
use Prim.Native.Nat.{bit_or, bit_and}
use receiptd.Document.{GlyphBitmap, Style, IsPacked, row_bytes}
use receiptd.Render.Paint.{
  Bits, for_up, mask, is_set, set_pixel, where_set, each_pixel, bitmap, scale_glyph, bold_glyph,
  italic_glyph, style_glyph, italic_left, italic_right,
}

-- `n` bytes, and no index out of range so far.
abbrev pub Whole : ℕ → Bits → Type 0
Whole n o = (bits : List ℕ) × (o ≡ some bits) × (length bits ≡ n)

abbrev pub Keeps : ℕ → (Bits → Bits) → Type 0
Keeps n f = (o : Bits) → Whole n o → Whole n (f o)

pub for_up-Keeps :
    (n count start : ℕ) (body : ℕ → Bits → Bits)
    → ((i : ℕ) → start ≤ i → i < start + count → Keeps n (body i))
    → Keeps n (for_up count start body)
for_up-Keeps n zero start body h o w = w
for_up-Keeps n (suc count) start body h o w =
    for_up-Keeps n count (start + 1) body (λ i p q. h i (omega (arith, p)) (omega (arith, q)))
      (body start o) (h start (omega arith) (omega arith) o w)

-- The byte of a dot of a bitmap of whole rows.
pub in_range :
    (width height x y : ℕ)
    → x < width
    → y < height
    → y * row_bytes width + x / 8 < row_bytes width * height
in_range width height x y p q =
    let b : ℕ = row_bytes width in
    let rows : (y + 1) * b ≤ height * b = mul-le-mul_right b (omega (arith, q)) in
    omega (arith, p, rows)

pub set_pixel-Keeps :
    (n bytes x y : ℕ) → y * bytes + x / 8 < n → Keeps n (λ bits. set_pixel bits bytes x y)
unfolding set_pixel
set_pixel-Keeps n bytes x y h o (bits, e, l) =
    let i : ℕ = y * bytes + x / 8 in
    let inside : ltb i (length bits) ≡ true = ground (arith, h, l) in
    let v : ℕ = bit_or (get_or bits i 0) (mask x) in
    (set bits i v, rw (e, set_pixel, inside) refl, length-set bits i v ∙ l)

pub if-Keeps :
    (n : ℕ) (b : Bool) (f g : Bits → Bits)
    → (b ≡ true → Keeps n f)
    → (b ≡ false → Keeps n g)
    → Keeps n (λ bits. if b then f bits else g bits)
if-Keeps n true f g p q = p refl
if-Keeps n false f g p q = q refl

pub same-Keeps : (n : ℕ) → Keeps n (λ bits. bits)
same-Keeps n o w = w

where_set-Keeps :
    (n : ℕ) (t : Bool) (f : Bits → Bits)
    → Keeps n f
    → Keeps n (λ bits. where_set (some t) (f bits) bits)
where_set-Keeps n true f h = h
where_set-Keeps n false f h = same-Keeps n

is_set-read :
    (bmp : GlyphBitmap) (x y : ℕ)
    → IsPacked bmp
    → x < bmp.width
    → y < bmp.height
    → (t : Bool) × (is_set bmp.bits (row_bytes bmp.width) x y ≡ some t)
unfolding is_set
is_set-read bmp x y h p q =
    let i : ℕ = y * row_bytes bmp.width + x / 8 in
    let r : i < row_bytes bmp.width * bmp.height = in_range bmp.width bmp.height x y p q in
    let inside : ltb i (length bmp.bits) ≡ true = ground (arith, r, h) in
    (ltb 0 (bit_and (get_or bmp.bits i 0) (mask x)), rw (is_set, inside) refl)

pub each_pixel-Keeps :
    (n : ℕ) (bmp : GlyphBitmap) (body : ℕ → ℕ → Bits → Bits)
    → IsPacked bmp
    → ((x y : ℕ) → x < bmp.width → y < bmp.height → Keeps n (body x y))
    → Keeps n (each_pixel bmp body)
unfolding each_pixel
each_pixel-Keeps n bmp body packed h = for_up-Keeps n bmp.height 0 _ (λ y a b.
    for_up-Keeps n bmp.width 0 _ (λ x c d. pixel x y (omega (arith, d)) (omega (arith, b))))
  where
    pixel :
        (x y : ℕ)
        → x < bmp.width
        → y < bmp.height
        → Keeps n
            (λ bits. where_set (is_set bmp.bits (row_bytes bmp.width) x y) (body x y bits) bits)
    pixel x y p q =
        let r : (t : Bool) × (is_set bmp.bits (row_bytes bmp.width) x y ≡ some t) =
          is_set-read bmp x y packed p q in
        rw (r.1) (where_set-Keeps n r.0 (body x y) (h x y p q))

pub replicate-Whole : (n : ℕ) → Whole n (some (replicate n 0))
replicate-Whole n = (replicate n 0, refl, length-replicate n 0)

-- A bitmap of the size given and of whole rows.
pub record IsSized (w h : ℕ) (out : GlyphBitmap) : Type 0 where
  pub packed : IsPacked out
  pub width : out.width ≡ w
  pub height : out.height ≡ h

-- No index was out of range, and the bitmap has the size given.
abbrev pub Sized : ℕ → ℕ → Option GlyphBitmap → Type 0
Sized width height o = (out : GlyphBitmap) × (o ≡ some out) × IsSized width height out

pub bitmap-Sized :
    (width height : ℕ) (o : Bits)
    → Whole (row_bytes width * height) o
    → Sized width height (bitmap width height o)
bitmap-Sized width height o (bits, e, l) = (
  record { width = width; height = height; bits = bits },
  rw e refl,
  record { packed = l; width = refl; height = refl },
)

-- The dot (x, y) of a glyph becomes a square of dots.
in_square : (x w factor d : ℕ) → x < w → d < factor → x * factor + d < w * factor
in_square x w factor d p q =
    let h : (x + 1) * factor ≤ w * factor = mul-le-mul_right factor (omega (arith, p)) in
    omega (arith, h, q)

scale_glyph-Sized :
    (bmp : GlyphBitmap) (factor : ℕ)
    → 0 < factor
    → IsPacked bmp
    → Sized (bmp.width * factor) (bmp.height * factor) (scale_glyph bmp factor)
unfolding scale_glyph
scale_glyph-Sized bmp factor p h = elim (Bool-cases (leb factor 1)) [
  | inl q ↦
      let one : factor ≡ 1 = ground (arith, p) in
      rw (scale_glyph, q)
        (
          bmp,
          refl,
          record { packed = h; width = rw one (omega arith); height = rw one (omega arith) },
        )
  | inr q ↦ rw (scale_glyph, q) (bitmap-Sized w k _ (scaled _ (replicate-Whole (row_bytes w * k))))
]
  where
    w : ℕ
    w = bmp.width * factor

    k : ℕ
    k = bmp.height * factor

    scaled : Keeps (row_bytes w * k) (
        each_pixel bmp (λ x y bits.
          for_up factor 0
            (λ dy rows.
              for_up factor 0
                (λ dx out. set_pixel out (row_bytes w) (x * factor + dx) (y * factor + dy))
                rows)
            bits))
    scaled = each_pixel-Keeps (row_bytes w * k) bmp _ h (λ x y a b.
        for_up-Keeps (row_bytes w * k) factor 0 _ (λ dy c d.
          for_up-Keeps (row_bytes w * k) factor 0 _ (λ dx e g.
            set_pixel-Keeps (row_bytes w * k) (row_bytes w) (x * factor + dx) (y * factor + dy) (
              in_range w k (x * factor + dx) (y * factor + dy)
                (in_square x bmp.width factor dx a (omega (arith, g)))
                (in_square y bmp.height factor dy b (omega (arith, d)))))))

bold_glyph-Sized : (bmp : GlyphBitmap) → IsPacked bmp → Sized bmp.width bmp.height (bold_glyph bmp)
unfolding bold_glyph
bold_glyph-Sized bmp h = bitmap-Sized bmp.width bmp.height _ (
    each_pixel-Keeps _ bmp _ h
      (λ x y p q.
        if-Keeps _ (ltb (x + 1) bmp.width) _ (λ bits. bits)
          (λ inside.
            set_pixel-Keeps _ (row_bytes bmp.width) (x + 1) y
              (in_range bmp.width bmp.height (x + 1) y (ground (arith, inside)) q))
          (λ e. same-Keeps _))
      (some bmp.bits) (bmp.bits, refl, h))

italic_glyph-Sized :
    (bmp : GlyphBitmap) → IsPacked bmp → Sized bmp.width bmp.height (italic_glyph bmp)
unfolding italic_glyph
italic_glyph-Sized bmp h = bitmap-Sized bmp.width bmp.height _ (
    each_pixel-Keeps _ bmp _ h
      (λ x y p q.
        if-Keeps _
          (ltb (x + italic_right bmp.height y) (italic_left bmp.height y)
            || leb bmp.width (x + italic_right bmp.height y - italic_left bmp.height y))
          (λ bits. bits) _ (λ e. same-Keeps _)
          (λ inside.
            set_pixel-Keeps _ (row_bytes bmp.width)
              (x + italic_right bmp.height y - italic_left bmp.height y) y
              (in_range bmp.width bmp.height _ y (ground (arith, inside)) q)))
      (some (replicate (length bmp.bits) 0))
      (replicate (length bmp.bits) 0, refl, length-replicate (length bmp.bits) 0 ∙ h))

resized :
    (width height : ℕ) (bmp : GlyphBitmap) (o : Option GlyphBitmap)
    → IsSized width height bmp
    → Sized bmp.width bmp.height o
    → Sized width height o
resized width height bmp o s (out, e, r) =
    (out, e, record { packed = r.packed; width = r.width ∙ s.width; height = r.height ∙ s.height })

if-Sized :
    (width height : ℕ) (b : Bool) (bmp : GlyphBitmap) (o : Option GlyphBitmap)
    → IsSized width height bmp
    → Sized bmp.width bmp.height o
    → Sized width height (if b then o else some bmp)
if-Sized width height true bmp o s r = resized width height bmp o s r
if-Sized width height false bmp o s r = (bmp, refl, s)

-- Whatever the style, a glyph of whole rows is styled without an index out of range, and becomes one
-- of whole rows, exactly `size` times as wide and as tall: bold and italic do not change the width
-- that was measured for it.
pub style_glyph-Sized :
    (bmp : GlyphBitmap) (style : Style)
    → IsPacked bmp
    → 0 < style.size
    → Sized (bmp.width * style.size) (bmp.height * style.size) (style_glyph bmp style)
unfolding style_glyph
style_glyph-Sized bmp style h p =
    let w : ℕ = bmp.width * style.size in
    let k : ℕ = bmp.height * style.size in
    let (scaled, e, s) = scale_glyph-Sized bmp style.size p h in
    let (bolder, e', s') =
      if-Sized w k style.bold scaled (bold_glyph scaled) s (bold_glyph-Sized scaled s.packed) in
    let (out, e'', s'') =
      if-Sized w k style.italic bolder (italic_glyph bolder) s'
        (italic_glyph-Sized bolder s'.packed) in
    (out, rw (style_glyph, e, e') e'', s'')
