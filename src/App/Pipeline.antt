-- ===== src/App/Pipeline.antt =====
-- Process of internal/app/process.go, from a stored job to what the printer reads: Build, Paint and Encode
-- one after the other, and the copies.
use receiptd.Base.{ℕ, ◌+◌, ◌/◌, ◌<◌, ◌≡◌, ◌⊎◌, true, Option, none, some, List, [], ◌∷◌, length}
use receiptd.Base.Int.{pos, pos_part, ◌≤ℤ◌}
use receiptd.Base.Text.{Text}
use receiptd.Base.Map.{lookup}
use receiptd.Apperr.{GoError, Kind, Result, ok, err, is_kind}
use receiptd.Receipt.{Receipt, effective_copies}
use receiptd.Receipt.Validate.{Codecs}
use receiptd.Receipt.Decides.{OneOf}
use receiptd.Document.{Font, IsFont, Block, Document}
use receiptd.Layout.Bitmaps.Agree.{IsCodecs}
use receiptd.Layout.Build.{Run, build}
use receiptd.Render.{Canvas, Profile}
use receiptd.Render.Escpos.Stream.{read}
use receiptd.Render.Escpos.Prints.{paper}
use receiptd.Render.Page.Stacks.{IsStacked}
use receiptd.Render.Page.Lays.{HoldsWide, document_for}
use receiptd.Render.Page.Fits.{IsPainted}
use receiptd.Queue.{Job}
use receiptd.App.{Service, send_copies}

-- A profile that a valid configuration gives, on a page whose rows and bands fit the raster command.
pub record IsPage (p : Profile) : Type 0 where
  pub wide : pos 1 ≤ℤ p.width_dots
  pub cut : OneOf ("full" ∷ "partial" ∷ []) p.default_cut
  pub narrow : (pos_part p.width_dots + 7) / 8 < 65536
  pub banded : (0 < pos_part p.max_image_height_dots) × (pos_part p.max_image_height_dots < 65536)

module _ (codecs : Codecs) (law : IsCodecs codecs) (f : Font) (font : IsFont f)
    (assets : Option (Text → Result (List ℕ))) (wide : HoldsWide codecs assets) where
  -- Why a receipt is not rendered: for good, or because of the asset store.
  abbrev pub IsRefused : GoError → Type 0
  IsRefused e =
      (is_kind e Kind.permanent ≡ true)
      ⊎ ((get : Text → Result (List ℕ)) × ((assets ≡ some get)
            × ((name : Text) × (get name ≡ err e))))

  -- A canvas that is printed: the blocks of Build one below the other, painted on the width of the page,
  -- and a stream that the printer reads as that canvas.
  pub record IsPrinted (r : Receipt) (p : Profile) (bytes : List ℕ) : Type 0 where
    pub blocks : List Block
    pub end : ℕ
    pub canvas : Canvas
    pub stacked : IsStacked codecs f (pos_part p.width_dots) 0 blocks end
    pub painted : IsPainted (pos_part p.width_dots) end blocks canvas
    pub built :
        build codecs assets r p f ≡ some (ok (document_for codecs law f font assets wide p blocks))
    pub reads : read (length bytes) bytes ≡ some (paper canvas p)

  abbrev pub Renders : Receipt → Profile → Run (List ℕ) → Type 0
  Renders r p none = ⊥
  Renders r p (some (err e)) = IsRefused e
  Renders r p (some (ok bytes)) = IsPrinted r p bytes

module _ {P W : Type 0} (codecs : Codecs) (law : IsCodecs codecs) (f : Font) (font : IsFont f)
    (svc : Service P) (wide : HoldsWide codecs svc.assets) where
  -- How Process ends: the printer is not configured, or the receipt is refused, with nothing sent; or the
  -- stream of its canvas is sent as often as it has copies.
  pub data Processes (send : P → List ℕ → W → Option GoError × W) (j : Job) (w : W)
      (o : Option (Option GoError × W)) : Type 0 where
    unknown :
        (e : GoError)
        → (lookup j.printer_name svc.profiles ≡ none) ⊎ (lookup j.printer_name svc.printers ≡ none)
        → is_kind e Kind.not_found ≡ true
        → o ≡ some (some e, w)
        → Processes send j w o
    refused :
        (e : GoError)
        → IsRefused codecs law f font svc.assets wide e
        → o ≡ some (some e, w)
        → Processes send j w o
    sent :
        (p : Profile) (q : P) (bytes : List ℕ)
        → lookup j.printer_name svc.profiles ≡ some p
        → lookup j.printer_name svc.printers ≡ some q
        → IsPrinted codecs law f font svc.assets wide j.receipt p bytes
        → o ≡ some (send_copies (send q) (pos_part (effective_copies j.receipt)) bytes w)
        → Processes send j w o
