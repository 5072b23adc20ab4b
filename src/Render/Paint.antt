-- ===== src/Render/Paint.antt =====
-- internal/render/canvas/style.go and the painting of paint.go: glyphs and lines on a packed bitmap.
-- Rows and columns are numbers that are not negative, as the callers give them. `none` is a panic: an
-- index out of range.
pub mod Sizes
pub mod Canvases
use receiptd.Base.{
  ℕ, zero, suc, ◌+◌, ◌-◌, ◌*◌, ◌/◌, ◌%◌, ◌^◌, Option, none, some, Bool, true, false, List, [], ◌∷◌,
  ltb, leb, ◌||◌, ◌==◌, if◌then◌else◌, length, get_or, set, replicate, min,
}
use Prim.Native.Nat.{bit_and, bit_or}
use receiptd.Base.Int.{ℤ, pos, pos_part, ltb_ℤ}
use receiptd.Receipt.{Divider}
use receiptd.Receipt.Validate.{is_any}
use receiptd.Render.{Canvas}
use receiptd.Document.{row_bytes, GlyphBitmap, Style, divider_thickness, resolve_size}

-- for i := start; i < start+count; i++
abbrev pub for_up {ℓ} : {A : Type ℓ} → ℕ → ℕ → (ℕ → A → A) → A → A
for_up zero start body a = a
for_up (suc count) start body a = for_up count (start + 1) body (body start a)

-- 0x80 >> uint(x%8)
abbrev pub mask : ℕ → ℕ
mask x = 128 / 2 ^ (x % 8)

-- The bits, or `none` once an index was out of range.
abbrev pub Bits : Type 0
Bits = Option (List ℕ)

-- bits[y*rowBytes+x/8] & mask != 0: out of range, a panic.
unfoldable pub is_set : List ℕ → ℕ → ℕ → ℕ → Option Bool
is_set bits bytes x y =
    let i : ℕ = y * bytes + x / 8 in
    if ltb i (length bits) then some (ltb 0 (bit_and (get_or bits i 0) (mask x))) else none

-- bits[y*rowBytes+x/8] |= mask: out of range, a panic.
unfoldable pub set_pixel : Bits → ℕ → ℕ → ℕ → Bits
set_pixel none bytes x y = none
set_pixel (some bits) bytes x y =
    let i : ℕ = y * bytes + x / 8 in
    if ltb i (length bits) then some (set bits i (bit_or (get_or bits i 0) (mask x))) else none

abbrev pub where_set : Option Bool → Bits → Bits → Bits
where_set none painted skipped = none
where_set (some true) painted skipped = painted
where_set (some false) painted skipped = skipped

-- The loops over the set pixels of a glyph.
unfoldable pub each_pixel : GlyphBitmap → (ℕ → ℕ → Bits → Bits) → Bits → Bits
unfolding is_set
each_pixel bmp body out =
    for_up bmp.height 0
      (λ y rows.
        for_up bmp.width 0
          (λ x bits. where_set (is_set bmp.bits (row_bytes bmp.width) x y) (body x y bits) bits)
          rows)
      out

abbrev pub bitmap : ℕ → ℕ → Bits → Option GlyphBitmap
bitmap width height none = none
bitmap width height (some bits) = some (record { width = width; height = height; bits = bits })

unfoldable pub scale_glyph : GlyphBitmap → ℕ → Option GlyphBitmap
unfolding each_pixel set_pixel
scale_glyph bmp factor =
    if leb factor 1
    then some bmp
    else let width : ℕ = bmp.width * factor in
      let height : ℕ = bmp.height * factor in
      bitmap width height (
        each_pixel bmp
          (λ x y bits.
            for_up factor 0
              (λ dy rows.
                for_up factor 0
                  (λ dx out. set_pixel out (row_bytes width) (x * factor + dx) (y * factor + dy))
                  rows)
              bits)
          (some (replicate (row_bytes width * height) 0)))

unfoldable pub bold_glyph : GlyphBitmap → Option GlyphBitmap
unfolding each_pixel set_pixel
bold_glyph bmp = bitmap bmp.width bmp.height (
    each_pixel bmp
      (λ x y bits.
        if ltb (x + 1) bmp.width then set_pixel bits (row_bytes bmp.width) (x + 1) y else bits)
      (some bmp.bits))

-- x + italicShear(height, y), as the number of dots to the right and to the left. Go's division
-- rounds towards 0.
abbrev pub italic_right : ℕ → ℕ → ℕ
italic_right height y = ((height - 1) / 2 - y) / 5

abbrev pub italic_left : ℕ → ℕ → ℕ
italic_left height y = (y - (height - 1) / 2) / 5

unfoldable pub italic_glyph : GlyphBitmap → Option GlyphBitmap
unfolding each_pixel set_pixel
italic_glyph bmp = bitmap bmp.width bmp.height (
    each_pixel bmp
      (λ x y bits.
        let right : ℕ = x + italic_right bmp.height y in
        let left : ℕ = italic_left bmp.height y in
        if ltb right left || leb bmp.width (right - left)
        then bits
        else set_pixel bits (row_bytes bmp.width) (right - left) y)
      (some (replicate (length bmp.bits) 0)))

abbrev pub and_then {ℓ} : {A B : Type ℓ} → Option A → (A → Option B) → Option B
and_then none f = none
and_then (some a) f = f a

unfoldable pub style_glyph : GlyphBitmap → Style → Option GlyphBitmap
unfolding scale_glyph bold_glyph italic_glyph
style_glyph bmp style = and_then (scale_glyph bmp style.size) (λ scaled.
    and_then (if style.bold then bold_glyph scaled else some scaled)
      (λ bolder. if style.italic then italic_glyph bolder else some bolder))

abbrev pub repainted : Canvas → Bits → Option Canvas
repainted c none = none
repainted c (some bits) = some (record c { bits = bits })

unfoldable pub paint_glyph : ℕ → ℕ → GlyphBitmap → Canvas → Option Canvas
unfolding each_pixel set_pixel
paint_glyph x y bmp c = repainted c (
    each_pixel bmp
      (λ col row bits.
        if leb c.width (x + col) || leb c.height (y + row)
        then bits
        else set_pixel bits (row_bytes c.width) (x + col) (y + row))
      (some c.bits))

unfoldable pub paint_h_line : ℕ → ℕ → ℕ → ℕ → Canvas → Option Canvas
unfolding set_pixel
paint_h_line x0 x1 y0 thickness c = repainted c (
    for_up thickness y0
      (λ y rows.
        if leb c.height y
        then rows
        else for_up (x1 - x0) x0
            (λ x bits. if leb c.width x then bits else set_pixel bits (row_bytes c.width) x y) rows)
      (some c.bits))

abbrev pub dash_dots : ℕ
dash_dots = 16

abbrev pub dash_gap_dots : ℕ
dash_gap_dots = 8

-- The loop over the dashes, with fuel for its rounds; `none` is a panic, or that the fuel ran out.
unfoldable pub paint_dashes : ℕ → ℕ → ℕ → ℕ → Canvas → Option Canvas
paint_dashes zero x y thickness c = if ltb x c.width then none else some c
paint_dashes (suc fuel) x y thickness c = elim (ltb x c.width) [
  | false ↦ some c
  | true ↦
      and_then (paint_h_line x (min (x + dash_dots) c.width) y thickness c)
        (λ d. paint_dashes fuel (x + (dash_dots + dash_gap_dots)) y thickness d)
]

-- One round for each dot of the width is enough.
unfoldable pub paint_divider : Divider → ℕ → Canvas → Option Canvas
paint_divider d y c =
    let thickness : ℕ = divider_thickness * resolve_size d.size in
    if is_any ("dashed" ∷ []) d.style
    then paint_dashes c.width 0 y thickness c
    else paint_h_line 0 c.width y thickness c
