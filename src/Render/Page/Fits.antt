-- ===== src/Render/Page/Fits.antt =====
-- Paint of internal/render/canvas/paint.go on blocks that stand one below the other: the canvas ends where
-- they do, and has their controls in order.
use receiptd.Base.{
  ℕ, ◌*◌, ◌<◌, ◌≡◌, ◌⊎◌, Bool, true, false, Option, none, some, List, [], ◌∷◌, ◌++◌, length, All,
}
use receiptd.Base.Text.{Text}
use receiptd.Apperr.{Kind, ok, err, is_kind}
use receiptd.Receipt.{feed, cut}
use receiptd.Document.{
  IsFont, IsPacked, row_bytes, GlyphBitmap, Font, Block, Document, Style, Placed, plain,
}
use receiptd.Layout.Build.{Run, block_at}
use receiptd.Render.{Canvas, Control}
use receiptd.Render.Escpos.Prints.{InOrder}
use receiptd.Render.Paint.Canvases.{IsWhole}
use receiptd.Render.Page.{Extent, paint_block, is_nil}

-- The controls among the blocks, at their rows.
abbrev pub control_of : Block → Bool → List Control
control_of b terminal = elim b.element [
  | plain (feed lines) ↦ record { y = b.y; element = feed lines; terminal = terminal } ∷ []
  | plain (cut mode) ↦ record { y = b.y; element = cut mode; terminal = terminal } ∷ []
  | _ ↦ []
]

abbrev pub controls_of : List Block → List Control
controls_of [] = []
controls_of (b ∷ bs) = control_of b (is_nil bs) ++ controls_of bs

-- `d` is `c` repainted, with those controls more.
record Paints (c : Canvas) (more : List Control) (d : Canvas) : Type 0 where
  pub width : d.width ≡ c.width
  pub height : d.height ≡ c.height
  pub whole : IsWhole d
  pub controls : d.controls ≡ c.controls ++ more

module _ (f : Font) (font : IsFont f) (is_last : Bool) (y : ℕ) (style : Style)
    (bitmap : GlyphBitmap) (c : Canvas) (large : 0 < style.size) (packed : IsPacked bitmap)
    (whole : IsWhole c) where
  -- What a case of the second loop makes of the canvas.
  abbrev Painted : Placed → Type 0
  Painted e =
      (d : Canvas) × ((paint_block f is_last (block_at y style e) bitmap c ≡ some d)
        × Paints c (control_of (block_at y style e) is_last) d)

  abbrev AsIs : Option Canvas → Type 0
  AsIs o = (d : Canvas) × ((o ≡ some d) × Paints c [] d)

abbrev HasSize : Block → Type 0
HasSize b = 0 < b.style.size

-- The first loop ends with the size of the canvas, or with a permanent error: at the width given, if there
-- is one, and at the height where the blocks end.
abbrev Measures : ℕ → ℕ → Bool → List Block → Run ((ℕ × ℕ) × List Extent) → Type 0
Measures width end content_fit bs none = ⊥
Measures width end content_fit bs (some (err e)) = is_kind e Kind.permanent ≡ true
Measures width end content_fit bs (some (ok ((w, h), xs))) =
    (content_fit ≡ false → w ≡ width)
    × ((h ≡ end) × ((length xs ≡ length bs) × All (λ x. IsPacked x.bitmap) xs))

-- The canvas of blocks that end at `end`: it is as tall, as wide as the page if that has a width, and
-- whole, and it has the controls of the blocks, which are valid and in order.
pub record IsPainted (page end : ℕ) (bs : List Block) (c : Canvas) : Type 0 where
  pub width : (page ≡ 0) ⊎ (c.width ≡ page)
  pub height : c.height ≡ end
  pub size : length c.bits ≡ row_bytes c.width * c.height
  pub controls : c.controls ≡ controls_of bs
  pub in_order : InOrder c.height 0 c.controls

abbrev pub PaintsWell : ℕ → ℕ → List Block → Run Canvas → Type 0
PaintsWell width end bs none = ⊥
PaintsWell width end bs (some (err e)) = is_kind e Kind.permanent ≡ true
PaintsWell width end bs (some (ok c)) = IsPainted width end bs c
