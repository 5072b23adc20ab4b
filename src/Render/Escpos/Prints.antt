-- ===== src/Render/Escpos/Prints.antt =====
-- Encode of internal/render/escpos/encode.go: what its stream prints is the canvas, with each control
-- at its row.
use receiptd.Base.{
  ℕ, ◌+◌, ◌-◌, ◌*◌, ◌/◌, ◌≤◌, ◌<◌, ◌≡◌, ◌⊎◌, inl, inr, refl, sym, Bool, true, false, not, ◌&&◌,
  some, List, [], ◌∷◌, ◌++◌, arith, ◌==◌, Bool-cases, ==_iff, if◌then◌else◌, length, drop,
}
use mathlib.Core.List.{append_assoc, append-nil}
use mathlib.Core.Path.{subst}
use native.Mathlib.Nat.{mul-le-mul_right}
use receiptd.Base.Int.{ℤ, pos, negsuc, pos_part, ltb_ℤ}
use receiptd.Base.Text.{Text, codes, text_eq}
use receiptd.Apperr.{Result, ok, err}
use receiptd.Receipt.{Element, feed, cut}
use receiptd.Receipt.Validate.{is_any, is_empty}
use receiptd.Render.{Canvas, Control, Profile}
use receiptd.Render.Escpos.{
  cut_command, control_command, is_cut, ends_with_explicit_cut, band_height, interleave,
  automatic_cut, encode, byte,
}
use receiptd.Render.Escpos.Stream.{Event, fed, full_cut, partial_cut, rows, command, read}
use receiptd.Render.Escpos.Reading.{
  Reads, Reads-nil, Reads-init, Reads-feed, Reads-full_cut, Reads-partial_cut,
}
use receiptd.Render.Escpos.Bands.{ReadsFirst, raster_bands-Prints}

abbrev pub IsCutMode : Text → Type 0
IsCutMode mode = is_any ("full" ∷ "partial" ∷ []) mode ≡ true

abbrev pub cut_events : Text → List Event
cut_events mode = if text_eq mode (codes "full") then full_cut ∷ [] else partial_cut ∷ []

-- What a control makes the printer do; one without a cutter leaves the cuts out.
abbrev pub control_events : Profile → Element → List Event
control_events profile (feed lines) = fed (pos_part lines) ∷ []
control_events profile (cut mode) =
    if profile.supports_cut
    then cut_events (if is_empty mode then profile.default_cut else mode)
    else []
control_events profile e = []

-- A control as it passes Validate.
abbrev pub IsControl : Element → Type 0
IsControl (feed lines) = (ltb_ℤ lines (pos 0) ≡ false) × (ltb_ℤ (pos 255) lines ≡ false)
IsControl (cut mode) = (is_empty mode ≡ false → IsCutMode mode)
IsControl e = ⊥

-- The controls stand at rows that do not decrease, from `at` up to the height.
abbrev pub InOrder : ℕ → ℕ → List Control → Type 0
InOrder height at [] = Unit
InOrder height at (c ∷ cs) =
    (at ≤ c.y) × ((c.y ≤ height) × (IsControl c.element × InOrder height c.y cs))

-- The rows of the canvas from `at` on, with what each control does at its row.
abbrev pub paper_from : List ℕ → ℕ → ℕ → Profile → ℕ → List Control → List Event
paper_from bits w height profile at [] = rows w (height - at) (drop (at * w) bits)
paper_from bits w height profile at (c ∷ cs) =
    rows w (c.y - at) (drop (at * w) bits)
    ++ (control_events profile c.element ++ paper_from bits w height profile c.y cs)

-- The last of the controls, if there is one, is a Cut at the very end of the document.
abbrev pub closes : Bool → List Control → Bool
closes before [] = before
closes before (c ∷ cs) = closes (c.terminal && is_cut c.element) cs

abbrev pub closing : Profile → List Control → List Event
closing profile controls =
    if profile.supports_cut && not (closes false controls)
    then fed 4 ∷ cut_events profile.default_cut
    else []

abbrev pub paper : Canvas → Profile → List Event
paper c profile =
    paper_from c.bits ((c.width + 7) / 8) c.height profile 0 c.controls
    ++ closing profile c.controls

-- A canvas as Paint leaves it, whose bands fit the 16-bit fields of the command, and a profile with a
-- cut mode if it has a cutter.
pub record IsPrintable (c : Canvas) (profile : Profile) : Type 0 where
  pub has_width : 0 < c.width
  pub has_height : 0 < c.height
  pub full : length c.bits ≡ (c.width + 7) / 8 * c.height
  pub narrow : (c.width + 7) / 8 < 65536
  pub low : band_height c.height profile.max_image_height_dots < 65536
  pub cutter : profile.supports_cut ≡ true → IsCutMode profile.default_cut
  pub in_order : InOrder c.height 0 c.controls

-- `r` is that of a stream that reads as those events.
abbrev WritesFirst : Result (List ℕ) → List Event → Type 0
WritesFirst r events = (out : List ℕ) × (r ≡ ok out) × ReadsFirst out events

ReadsFirst-append :
    (a b : List ℕ) (x y : List Event)
    → ReadsFirst a x
    → ReadsFirst b y
    → ReadsFirst (a ++ b) (x ++ y)
ReadsFirst-append a b x y f g rest more r =
    subst (λ t. Reads t ((x ++ y) ++ more)) (sym (append_assoc a b rest))
      (subst (λ t. Reads (a ++ (b ++ rest)) t) (sym (append_assoc x y more))
        (f (b ++ rest) (y ++ more) (g rest more r)))

cut_command-Writes :
    (mode : Text) → IsCutMode mode → WritesFirst (cut_command mode) (cut_events mode)
unfolding cut_command
cut_command-Writes mode h = elim (Bool-cases (text_eq mode (codes "full"))) [
  | inl p ↦ (29 ∷ 86 ∷ 0 ∷ [], rw p refl, rw p (λ rest more r. Reads-full_cut rest more r))
  | inr p ↦
      let q : text_eq mode (codes "partial") ≡ true = ground (arith, h, p) in
      (29 ∷ 86 ∷ 1 ∷ [], rw (p, q) refl, rw p (λ rest more r. Reads-partial_cut rest more r))
]

byte-feed :
    (lines : ℤ)
    → ltb_ℤ lines (pos 0) ≡ false
    → ltb_ℤ (pos 255) lines ≡ false
    → byte lines ≡ pos_part lines
byte-feed (pos n) p q = let h : n ≤ 255 = ground (arith, q) in omega (arith, h)
byte-feed (negsuc n) p q = absurd (ground (arith, p))

control_command-Writes :
    (e : Element) (profile : Profile)
    → IsControl e
    → (profile.supports_cut ≡ true → IsCutMode profile.default_cut)
    → WritesFirst (control_command e profile) (control_events profile e)
unfolding control_command
control_command-Writes (feed lines) profile h k = (
  27 ∷ 100 ∷ byte lines ∷ [],
  refl,
  λ rest more r. rw (byte-feed lines h.0 h.1) (Reads-feed (pos_part lines) rest more r),
)
control_command-Writes (cut mode) profile h k = elim (Bool-cases profile.supports_cut) [
  | inr p ↦ ([], rw p refl, rw p (λ rest more r. r))
  | inl p ↦ rw p (cut_command-Writes _ (mode_cases (Bool-cases (is_empty mode)) (k p)))
]
  where
    mode_cases :
        (is_empty mode ≡ true) ⊎ (is_empty mode ≡ false)
        → IsCutMode profile.default_cut
        → IsCutMode (if is_empty mode then profile.default_cut else mode)
    mode_cases (inl e) d = rw e d
    mode_cases (inr e) d = rw e (h e)
control_command-Writes e profile h k = absurd h

end_cut : (controls : List Control) → ends_with_explicit_cut controls ≡ closes false controls
unfolding ends_with_explicit_cut
end_cut [] = refl
end_cut (c ∷ []) = refl
end_cut (c ∷ (d ∷ cs)) = end_cut (d ∷ cs)

band_height-pos : (height : ℕ) (max : ℤ) → 0 < height → 0 < band_height height max
unfolding band_height
band_height-pos height (pos n) h = ground (arith, h)
band_height-pos height (negsuc n) h = ground (arith, h)

automatic_cut-Writes :
    (profile : Profile) (controls : List Control)
    → (profile.supports_cut ≡ true → IsCutMode profile.default_cut)
    → WritesFirst (automatic_cut profile controls) (closing profile controls)
unfolding automatic_cut
automatic_cut-Writes profile controls k =
    rw (end_cut controls) (go (profile.supports_cut && not (closes false controls)) refl)
  where
    go :
        (b : Bool)
        → (profile.supports_cut && not (closes false controls)) ≡ b
        → WritesFirst
            (if b
              then elim (cut_command profile.default_cut) [
                | err e ↦ err e
                | ok bytes ↦ ok (27 ∷ 100 ∷ 4 ∷ bytes)
              ]
              else ok [])
            (if b then fed 4 ∷ cut_events profile.default_cut else [])
    go false e = ([], refl, λ rest more r. r)
    go true e =
        let h : profile.supports_cut ≡ true = ground (arith, e) in
        let (out, p, f) = cut_command-Writes profile.default_cut (k h) in
        (27 ∷ 100 ∷ 4 ∷ out, rw p refl, λ rest more r. Reads-feed 4 _ _ (f rest more r))

module _ (bits : List ℕ) (w band height : ℕ) (profile : Profile) (full : length bits ≡ w * height)
    (narrow : w < 65536) (some_rows : 0 < band) (low : band < 65536)
    (cutter : profile.supports_cut ≡ true → IsCutMode profile.default_cut) where
  interleave-Writes :
      (at : ℕ) (cs : List Control)
      → InOrder height at cs
      → (out : List ℕ) × (interleave bits w band profile height at cs ≡ some (ok out))
        × ReadsFirst out (paper_from bits w height profile at cs)
  unfolding interleave
  interleave-Writes at [] o =
      let (out, p, f) =
        raster_bands-Prints bits w band narrow some_rows low (height - at) at height
          (omega (arith, full)) (omega arith) in
      (out, rw (interleave, p) refl, f)
  interleave-Writes at (c ∷ cs) o =
      let (out, p, f) =
        raster_bands-Prints bits w band narrow some_rows low (c.y - at) at c.y
          (omega (arith, full, mul-le-mul_right w o.1.0)) (omega arith) in
      let (command, q, g) = control_command-Writes c.element profile o.1.1.0 cutter in
      let (rest, r, h) = interleave-Writes c.y cs o.1.1.1 in
      (
        out ++ (command ++ rest),
        rw (interleave, p, q, r) refl,
        ReadsFirst-append out _ _ _ f (ReadsFirst-append command rest _ _ g h),
      )

-- On a canvas as Paint leaves it, with valid controls in order, whose bands fit the 16-bit fields of
-- the raster command, and for a profile with a valid cut mode if it has a cutter, `encode` does not
-- panic and returns no error; and a printer that reads the stream command by command prints the rows
-- of the canvas in order, however they are cut into bands, each control at its row, and at the end
-- the automatic feed and cut exactly if the printer has a cutter and the document does not end in a
-- cut.
pub encode-Prints :
    (c : Canvas) (profile : Profile)
    → IsPrintable c profile
    → (bytes : List ℕ) × (encode c profile ≡ some (ok bytes))
      × (read (length bytes) bytes ≡ some (paper c profile))
unfolding encode
encode-Prints c profile h =
    let w : ℕ = (c.width + 7) / 8 in
    let (trailer, p, f) = automatic_cut-Writes profile c.controls h.cutter in
    let (body, q, g) =
      interleave-Writes c.bits w _ c.height profile h.full h.narrow
        (band_height-pos c.height profile.max_image_height_dots h.has_height) h.low h.cutter 0
        c.controls h.in_order in
    let wide : (c.width == 0) ≡ false = ground (arith, h.has_width) in
    let tall : (c.height == 0) ≡ false = ground (arith, h.has_height) in
    let sized : (length c.bits == w * c.height) ≡ true = (==_iff _ _).1 h.full in
    let stream : Reads (27 ∷ 64 ∷ (body ++ trailer)) (paper c profile) =
      Reads-init _ _ (closed _ _ _ _ f g) in
    (27 ∷ 64 ∷ (body ++ trailer), rw (wide, tall, sized, p, q) refl, stream _ (omega arith))
  where
    closed :
        (body trailer : List ℕ) (x y : List Event)
        → ReadsFirst trailer y
        → ReadsFirst body x
        → Reads (body ++ trailer) (x ++ y)
    closed body trailer x y f g = g trailer y (
        subst (λ t. Reads t y) (append-nil trailer)
          (subst (λ t. Reads (trailer ++ []) t) (append-nil y) (f [] [] Reads-nil)))
