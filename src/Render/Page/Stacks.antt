-- ===== src/Render/Page/Stacks.antt =====
-- What Build lays out and what Paint measures agree: the blocks of a validated receipt stand one below
-- the other, each at the row where the heights that Paint gives to those above it end.
use receiptd.Base.{
  ℕ, ◌+◌, ◌*◌, ◌<◌, ◌≡◌, ◌⊎◌, refl, sym, true, Option, none, some, List, [], ◌∷◌, ◌++◌, arith,
}
use mathlib.Core.Path.{subst}
use receiptd.Base.Text.{Text}
use receiptd.Apperr.{GoError, Kind, Result, ok, err, is_kind}
use receiptd.Apperr.Chain.{is_kind-wrap}
use receiptd.Receipt.{feed, cut}
use receiptd.Receipt.Validate.{Codecs}
use receiptd.Document.{IsPacked, GlyphBitmap, Font, Placed, Block, Style, normal_style, plain}
use receiptd.Layout.Bitmaps.Agree.{HasHeight}
use receiptd.Layout.Build.{Run, Placing, block_at, stack, permanent}
use receiptd.Render.Escpos.Prints.{IsControl}
use receiptd.Render.Page.{Extent, extent, block_height, raster_bitmap, text_content, labelled}

-- The block takes `h` rows; or its bitmap cannot be made, for good.
abbrev pub TakesRows : ℕ → Run Extent → Type 0
TakesRows h none = ⊥
TakesRows h (some (err e)) = is_kind e Kind.permanent ≡ true
TakesRows h (some (ok x)) = (x.height ≡ h) × IsPacked x.bitmap

abbrev pub IsPlaced : Placed → Type 0
IsPlaced (plain (feed lines)) = IsControl (feed lines)
IsPlaced (plain (cut mode)) = IsControl (cut mode)
IsPlaced element = Unit

module _ (codecs : Codecs) (f : Font) (w : ℕ) where
  -- The blocks stand one below the other from `y` on, and the last one ends at `end`.
  abbrev pub IsStacked : ℕ → List Block → ℕ → Type 0
  IsStacked y [] end = y ≡ end
  IsStacked y (b ∷ bs) end =
      (b.y ≡ y)
      × (((0 < b.style.size) × IsPlaced b.element)
          × ((h : ℕ) × (TakesRows h (extent codecs f w b) × IsStacked (y + h) bs end)))

  pub IsStacked-append :
      (xs bs : List Block) (y mid end : ℕ)
      → IsStacked y xs mid
      → IsStacked mid bs end
      → IsStacked y (xs ++ bs) end
  IsStacked-append [] bs y mid end p q = subst (λ n. IsStacked n bs end) (sym p) q
  IsStacked-append (x ∷ xs) bs y mid end p q =
      (p.0, (p.1.0, (p.1.1.0, (p.1.1.1.0, IsStacked-append xs bs _ mid end p.1.1.1.1 q))))

  -- A block of text takes a line of the font in its size.
  abbrev pub IsLine : Placed → Type 0
  IsLine element =
      (raster_bitmap codecs element w ≡ none)
      × (((t : Text) × (text_content element ≡ some t)) × IsPlaced element)

  pub line-TakesRows :
      (b : Block)
      → IsLine b.element
      → TakesRows (f.line_height * b.style.size) (extent codecs f w b)
  unfolding extent block_height
  line-TakesRows b (r, ((t, e), p)) = rw (extent, r) (rw (block_height, e) (refl, refl))

  pub stack-IsStacked :
      (make : Text → Placed) (style : Style) (lines : List Text) (y : ℕ)
      → ((t : Text) → IsLine (make t))
      → 0 < style.size
      → IsStacked y
          (stack make style (f.line_height * style.size) y lines).0
          (stack make style (f.line_height * style.size) y lines).1
  unfolding stack
  stack-IsStacked make style [] y m p = refl
  stack-IsStacked make style (line ∷ lines) y m p = (
    refl,
    (
      (p, (m line).1.1),
      (
        f.line_height * style.size,
        (
          line-TakesRows (block_at y style (make line)) (m line),
          stack-IsStacked make style lines (y + f.line_height * style.size) m p,
        ),
      ),
    ),
  )

  -- What a case of Build answers: blocks from `y` on, or an error, permanent unless it is that of the
  -- asset store.
  abbrev pub PlacesWell : Option (Text → Result (List ℕ)) → ℕ → Run Placing → Type 0
  PlacesWell assets y none = ⊥
  PlacesWell assets y (some (err e)) =
      (is_kind e Kind.permanent ≡ true)
      ⊎ ((get : Text → Result (List ℕ)) × ((assets ≡ some get)
            × ((name : Text) × (get name ≡ err e))))
  PlacesWell assets y (some (ok (blocks, end))) = IsStacked y blocks end

  pub is_permanent : (e : GoError) → is_kind (permanent e) Kind.permanent ≡ true
  is_permanent e = (is_kind-wrap Kind.permanent Kind.permanent "layout.Build" e).0

  pub single-IsStacked :
      (y h : ℕ) (element : Placed)
      → IsPlaced element
      → TakesRows h (extent codecs f w (block_at y normal_style element))
      → IsStacked y (block_at y normal_style element ∷ []) (y + h)
  single-IsStacked y h element p q = (refl, ((omega arith, p), (h, (q, refl))))

  -- A raster block takes the rows of its bitmap.
  pub raster-TakesRows :
      (b : Block) (h : ℕ) (r : Run GlyphBitmap) (g : GoError → GoError)
      → raster_bitmap codecs b.element w ≡ some (labelled r g)
      → HasHeight h r
      → TakesRows h (extent codecs f w b)
  unfolding extent
  raster-TakesRows b h none g e q = absurd q
  raster-TakesRows b h (some (err x)) g e q =
      rw (extent, e) ((is_kind-wrap Kind.permanent Kind.permanent "canvas.Paint" (g x)).0)
  raster-TakesRows b h (some (ok bmp)) g e q = rw (extent, e) q
