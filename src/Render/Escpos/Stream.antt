-- ===== src/Render/Escpos/Stream.antt =====
-- A printer's reading of an ESC/POS stream, independent of internal/render/escpos/encode.go: one
-- command after the other, each with what comes out on paper.
use receiptd.Base.{
  ℕ, zero, suc, ◌+◌, ◌*◌, ◌&&◌, Option, none, some, List, [], ◌∷◌, ◌++◌, leb, ◌==◌, if◌then◌else◌,
  length, take, drop,
}

-- A row of dots, packed into bytes; a feed by so many lines; a cut.
pub data Event : Type 0 where
  row : List ℕ → Event
  fed : ℕ → Event
  full_cut partial_cut : Event

abbrev pub rows : ℕ → ℕ → List ℕ → List Event
rows width zero bytes = []
rows width (suc n) bytes = row (take width bytes) ∷ rows width n (drop width bytes)

abbrev pub Step : Type 0
Step = Option (List Event × List ℕ)

-- n
abbrev pub feed_of : List ℕ → Step
feed_of [] = none
feed_of (n ∷ bytes) = some (fed n ∷ [], bytes)

-- m
abbrev pub cut_of : List ℕ → Step
cut_of [] = none
cut_of (m ∷ bytes) =
    if m == 0
    then some (full_cut ∷ [], bytes)
    else if m == 1
    then some (partial_cut ∷ [], bytes)
    else none

-- '0' m xL xH yL yH and the data
abbrev pub raster_of : List ℕ → Step
raster_of (zero_digit ∷ mode ∷ xl ∷ xh ∷ yl ∷ yh ∷ bytes) =
    let width : ℕ = xl + 256 * xh in
    let height : ℕ = yl + 256 * yh in
    if zero_digit == 48 && (mode == 0 && leb (width * height) (length bytes))
    then some (rows width height (take (width * height) bytes), drop (width * height) bytes)
    else none
raster_of bytes = none

abbrev pub after_escape : List ℕ → Step
after_escape [] = none
after_escape (b ∷ bytes) =
    if b == 64 then some ([], bytes) else if b == 100 then feed_of bytes else none

abbrev pub after_group : List ℕ → Step
after_group [] = none
after_group (b ∷ bytes) =
    if b == 86 then cut_of bytes else if b == 118 then raster_of bytes else none

unfoldable pub command : List ℕ → Step
command [] = none
command (b ∷ bytes) =
    if b == 27 then after_escape bytes else if b == 29 then after_group bytes else none

-- The whole stream; `none` if it has a command that is unknown or cut short.
unfoldable pub read : ℕ → List ℕ → Option (List Event)
read fuel [] = some []
read zero (b ∷ bytes) = none
read (suc fuel) (b ∷ bytes) = elim (command (b ∷ bytes)) [
  | none ↦ none
  | some (events, rest) ↦ elim (read fuel rest) [ none ↦ none | some more ↦ some (events ++ more) ]
]
