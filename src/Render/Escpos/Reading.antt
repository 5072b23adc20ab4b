-- ===== src/Render/Escpos/Reading.antt =====
-- What a printer reads of each command that internal/render/escpos/encode.go writes.
use receiptd.Base.{
  ℕ, zero, suc, ◌+◌, ◌-◌, ◌*◌, ◌/◌, ◌%◌, ◌≤◌, ◌<◌, ◌≡◌, refl, ap, ◌∙◌, true, some, List, [], ◌∷◌,
  ◌++◌, arith, leb, length, length-append, take, drop, take-append, drop-append, take-take,
  drop-take, drop-drop,
}
use receiptd.Render.Escpos.{lo_hi, raster_command_fixed}
use receiptd.Render.Escpos.Stream.{Event, row, fed, full_cut, partial_cut, rows, command, read}

-- A printer reads the bytes as those events.
abbrev pub Reads : List ℕ → List Event → Type 0
Reads bytes events = (fuel : ℕ) → length bytes ≤ fuel → read fuel bytes ≡ some events

pub Reads-nil : Reads [] []
unfolding read
Reads-nil fuel h = refl

-- One command, then the rest.
pub Reads-command :
    (b : ℕ) (bytes rest : List ℕ) (events more : List Event)
    → command (b ∷ bytes) ≡ some (events, rest)
    → length rest ≤ length bytes
    → Reads rest more
    → Reads (b ∷ bytes) (events ++ more)
unfolding read
Reads-command b bytes rest events more c l r zero h = absurd (omega (arith, h))
Reads-command b bytes rest events more c l r (suc fuel) h =
    rw (c, r fuel (omega (arith, h, l)), read)

low_high : (n : ℕ) → n < 65536 → n % 256 + 256 * (n / 256 % 256) ≡ n
low_high n h = omega (arith, h)

pub command-raster :
    (w h : ℕ) (dots rest : List ℕ)
    → w < 65536
    → h < 65536
    → length dots ≡ w * h
    → command (raster_command_fixed ++ (lo_hi w ++ (lo_hi h ++ (dots ++ rest))))
      ≡ some (rows w h dots, rest)
unfolding command
command-raster w h dots rest p q l = rw (
  low_high w p,
  low_high h q,
  fits,
  take-append dots rest (w * h) l,
  drop-append dots rest (w * h) l,
)
  where
    fits : leb (w * h) (length (dots ++ rest)) ≡ true
    fits = rw (length-append dots rest, l) (ground arith)

pub Reads-raster :
    (w h : ℕ) (dots rest : List ℕ) (more : List Event)
    → w < 65536
    → h < 65536
    → length dots ≡ w * h
    → Reads rest more
    → Reads
        (raster_command_fixed ++ (lo_hi w ++ (lo_hi h ++ (dots ++ rest))))
        (rows w h dots ++ more)
Reads-raster w h dots rest more p q l r =
    Reads-command 29 _ rest (rows w h dots) more (command-raster w h dots rest p q l)
      (omega (arith, length-append dots rest)) r

-- The rows of a canvas are those of its bands.
pub rows-add :
    (w m n : ℕ) (bytes : List ℕ)
    → rows w (m + n) bytes ≡ rows w m bytes ++ rows w n (drop (m * w) bytes)
rows-add w zero n bytes =
    ap (λ (k : ℕ). rows w k bytes) {x = 0 + n} {y = n} (omega arith)
    ∙ ap (λ (k : ℕ). rows w n (drop k bytes)) {x = 0} {y = 0 * w} (omega arith)
rows-add w (suc m) n bytes =
    ap (λ (k : ℕ). rows w k bytes) {x = suc m + n} {y = suc (m + n)} (omega arith)
    ∙ ap (λ t. row (take w bytes) ∷ t) (rows-add w m n (drop w bytes) ∙ rest)
  where
    rest :
        (rows w m (drop w bytes) ++ rows w n (drop (m * w) (drop w bytes)))
        ≡ (rows w m (drop w bytes) ++ rows w n (drop (suc m * w) bytes))
    rest =
        ap (λ t. rows w m (drop w bytes) ++ rows w n t)
          (drop-drop w (m * w) bytes
            ∙ ap (λ (k : ℕ). drop k bytes) {x = w + m * w} {y = suc m * w} (omega arith))

pub rows-take : (w n k : ℕ) (bytes : List ℕ) → n * w ≤ k → rows w n (take k bytes) ≡ rows w n bytes
rows-take w zero k bytes h = refl
rows-take w (suc n) k bytes h =
    rw
      (
        take-take w k bytes (omega (arith, h)),
        drop-take w k bytes,
        rows-take w n (k - w) (drop w bytes) (omega (arith, h)),
      )
      refl

pub Reads-init : (rest : List ℕ) (more : List Event) → Reads rest more → Reads (27 ∷ 64 ∷ rest) more
unfolding command
Reads-init rest more r = Reads-command 27 _ rest [] more refl (omega arith) r

pub Reads-feed :
    (n : ℕ) (rest : List ℕ) (more : List Event)
    → Reads rest more
    → Reads (27 ∷ 100 ∷ n ∷ rest) (fed n ∷ more)
unfolding command
Reads-feed n rest more r = Reads-command 27 _ rest (fed n ∷ []) more refl (omega arith) r

pub Reads-full_cut :
    (rest : List ℕ) (more : List Event)
    → Reads rest more
    → Reads (29 ∷ 86 ∷ 0 ∷ rest) (full_cut ∷ more)
unfolding command
Reads-full_cut rest more r = Reads-command 29 _ rest (full_cut ∷ []) more refl (omega arith) r

pub Reads-partial_cut :
    (rest : List ℕ) (more : List Event)
    → Reads rest more
    → Reads (29 ∷ 86 ∷ 1 ∷ rest) (partial_cut ∷ more)
unfolding command
Reads-partial_cut rest more r = Reads-command 29 _ rest (partial_cut ∷ []) more refl (omega arith) r
