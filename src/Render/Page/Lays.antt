-- ===== src/Render/Page/Lays.antt =====
-- Build of internal/render/layout/build.go on a validated receipt: a document whose blocks stand one below
-- the other, or an error that says why not.
use receiptd.Base.{ℕ, ◌≡◌, ◌⊎◌, true, Option, none, some, List}
use receiptd.Base.Int.{pos_part}
use receiptd.Base.Text.{Text}
use receiptd.Apperr.{Kind, Result, ok, err, is_kind}
use receiptd.Receipt.{Elements, Receipt, nil, cons}
use receiptd.Receipt.Validate.{Codecs}
use receiptd.Document.{Font, IsFont, Block, Document}
use receiptd.Layout.Bitmaps.Agree.{IsCodecs, IsWide}
use receiptd.Layout.Build.{Run}
use receiptd.Render.{Profile}
use receiptd.Render.Page.Stacks.{IsStacked}
use receiptd.Render.Page.Places.{HasLight}

-- No asset that the store returns has a picture that is 0 dots wide.
abbrev pub HoldsWide : Codecs → Option (Text → Result (List ℕ)) → Type 0
HoldsWide codecs assets =
    (get : Text → Result (List ℕ)) (name : Text) (bytes : List ℕ)
    → assets ≡ some get
    → get name ≡ ok bytes
    → IsWide codecs bytes

-- The weights of each of the columns add up within an int.
abbrev pub AreLight : Elements → Type 0
AreLight nil = Unit
AreLight (cons e es) = HasLight e × AreLight es

-- What Validate leaves open, and Build relies on.
abbrev pub ReceiptIsLight : Receipt → Type 0
ReceiptIsLight r = elim r.elements [ none ↦ Unit {0} | some es ↦ AreLight es ]

module _ (codecs : Codecs) (law : IsCodecs codecs) (f : Font) (font : IsFont f)
    (assets : Option (Text → Result (List ℕ))) (wide : HoldsWide codecs assets) where
  abbrev pub document_for : Profile → List Block → Document
  document_for p blocks = record { width_dots = p.width_dots; blocks = blocks; font = f }

  -- An error is permanent or that of the asset store; a document has its blocks one below the other.
  abbrev pub BuildsWell : Profile → Run Document → Type 0
  BuildsWell p none = ⊥
  BuildsWell p (some (err e)) =
      (is_kind e Kind.permanent ≡ true)
      ⊎ ((get : Text → Result (List ℕ)) × ((assets ≡ some get)
            × ((name : Text) × (get name ≡ err e))))
  BuildsWell p (some (ok doc)) =
      (blocks : List Block) × ((doc ≡ document_for p blocks)
        × ((end : ℕ) × IsStacked codecs f (pos_part p.width_dots) 0 blocks end))
