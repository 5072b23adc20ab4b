-- ===== src/Render/Paint/Canvases.antt =====
-- The painting of internal/render/canvas/paint.go stays within the canvas and keeps it.
use receiptd.Base.{
  ℕ, zero, suc, ◌+◌, ◌-◌, ◌*◌, ◌≤◌, arith, Option, some, [], ◌∷◌, ◌≡◌, refl, ◌∙◌, false, ◌||◌, ltb,
  leb, Bool-cases, inl, inr, min, length,
}
use receiptd.Receipt.{Divider}
use receiptd.Receipt.Validate.{is_any}
use receiptd.Render.{Canvas}
use receiptd.Document.{GlyphBitmap, IsPacked, row_bytes, divider_thickness, resolve_size}
use receiptd.Render.Paint.{
  Bits, repainted, and_then, paint_glyph, paint_h_line, paint_dashes, paint_divider,
}
use receiptd.Render.Paint.Sizes.{
  Keeps, for_up-Keeps, set_pixel-Keeps, if-Keeps, same-Keeps, each_pixel-Keeps, in_range,
}

-- The bytes of the canvas are those of its rows.
abbrev pub IsWhole : Canvas → Type 0
IsWhole c = length c.bits ≡ row_bytes c.width * c.height

-- `d` differs from `c` at most in what its bytes hold, and is whole.
pub record Repaints (c d : Canvas) : Type 0 where
  pub width : d.width ≡ c.width
  pub height : d.height ≡ c.height
  pub whole : IsWhole d
  pub controls : d.controls ≡ c.controls

-- No index was out of range.
abbrev pub Repainted : Canvas → Option Canvas → Type 0
Repainted c o = (d : Canvas) × (o ≡ some d) × Repaints c d

pub Repaints-trans : {a b c : Canvas} → Repaints a b → Repaints b c → Repaints a c
Repaints-trans p q = record {
  width = q.width ∙ p.width;
  height = q.height ∙ p.height;
  whole = q.whole;
  controls = q.controls ∙ p.controls;
}

pub Repaints-refl : (c : Canvas) → IsWhole c → Repaints c c
Repaints-refl c h = record { width = refl; height = refl; whole = h; controls = refl }

repainted-Repainted :
    (c : Canvas) (f : Bits → Bits)
    → IsWhole c
    → Keeps (row_bytes c.width * c.height) f
    → Repainted c (repainted c (f (some c.bits)))
repainted-Repainted c f h k =
    let (bits, e, l) = k (some c.bits) (c.bits, refl, h) in
    (
      record c { bits = bits },
      rw e refl,
      record { width = refl; height = refl; whole = l; controls = refl },
    )

-- Painting one canvas after the other.
pub and_then-Repainted :
    (c : Canvas) (o : Option Canvas) (f : Canvas → Option Canvas)
    → Repainted c o
    → ((d : Canvas) → Repaints c d → Repainted d (f d))
    → Repainted c (and_then o f)
and_then-Repainted c o f (d, e, r) k =
    let (out, e', r') = k d r in (out, rw e e', Repaints-trans r r')

pub paint_glyph-Repainted :
    (x y : ℕ) (bmp : GlyphBitmap) (c : Canvas)
    → IsWhole c
    → IsPacked bmp
    → Repainted c (paint_glyph x y bmp c)
unfolding paint_glyph
paint_glyph-Repainted x y bmp c h packed = repainted-Repainted c _ h (
    each_pixel-Keeps _ bmp _ packed (λ col row p q.
      if-Keeps _ (leb c.width (x + col) || leb c.height (y + row)) (λ bits. bits) _
        (λ e. same-Keeps _)
        (λ inside. set_pixel-Keeps _ (row_bytes c.width) (x + col) (y + row) (
          in_range c.width c.height (x + col) (y + row) (ground (arith, inside))
            (ground (arith, inside))))))

pub paint_h_line-Repainted :
    (x0 x1 y0 thickness : ℕ) (c : Canvas)
    → IsWhole c
    → Repainted c (paint_h_line x0 x1 y0 thickness c)
unfolding paint_h_line
paint_h_line-Repainted x0 x1 y0 thickness c h = repainted-Repainted c _ h (
    for_up-Keeps _ thickness y0 _ (λ y a b.
      if-Keeps _ (leb c.height y) (λ bits. bits) _ (λ e. same-Keeps _)
        (λ low. for_up-Keeps _ (x1 - x0) x0 _ (λ x d e.
          if-Keeps _ (leb c.width x) (λ bits. bits) _ (λ k. same-Keeps _)
            (λ inside.
              set_pixel-Keeps _ (row_bytes c.width) x y
                (in_range c.width c.height x y (ground (arith, inside)) (ground (arith, low))))))))

paint_dashes-Repainted :
    (fuel x y thickness : ℕ) (c : Canvas)
    → IsWhole c
    → c.width ≤ x + fuel
    → Repainted c (paint_dashes fuel x y thickness c)
unfolding paint_dashes
paint_dashes-Repainted zero x y thickness c w h =
    let p : ltb x c.width ≡ false = ground (arith, h) in
    (c, rw (paint_dashes, p) refl, Repaints-refl c w)
paint_dashes-Repainted (suc fuel) x y thickness c w h = elim (Bool-cases (ltb x c.width)) [
  | inr p ↦ (c, rw (paint_dashes, p) refl, Repaints-refl c w)
  | inl p ↦
      rw (paint_dashes, p)
        (and_then-Repainted c (paint_h_line x (min (x + 16) c.width) y thickness c)
          (λ d. paint_dashes fuel (x + 24) y thickness d)
          (paint_h_line-Repainted x (min (x + 16) c.width) y thickness c w)
          (λ d r.
            paint_dashes-Repainted fuel (x + 24) y thickness d r.whole (omega (arith, h, r.width))))
]

-- On a canvas whose bytes are those of its rows: painting a divider, solid or dashed, ends within its
-- fuel without an index out of range, wherever the divider stands and however large it is, and
-- leaves the canvas with its width, its height, its number of bytes and its controls.
pub paint_divider-Repainted :
    (d : Divider) (y : ℕ) (c : Canvas) → IsWhole c → Repainted c (paint_divider d y c)
unfolding paint_divider
paint_divider-Repainted d y c h = elim (Bool-cases (is_any ("dashed" ∷ []) d.style)) [
  | inl p ↦ rw p (
      paint_dashes-Repainted c.width 0 y (divider_thickness * resolve_size d.size) c h
        (omega arith))
  | inr p ↦ rw p (paint_h_line-Repainted 0 c.width y (divider_thickness * resolve_size d.size) c h)
]
