-- ===== src/Render/Escpos.antt =====
-- internal/render/escpos/encode.go: a canvas as a stream of ESC/POS bytes.
pub mod Stream
pub mod Reading
pub mod Bands
pub mod Prints
pub mod Errors
use receiptd.Base.{
  ℕ, zero, suc, ◌+◌, ◌-◌, ◌*◌, ◌/◌, ◌%◌, Bool, true, false, not, ◌&&◌, ◌||◌, Option, none, some,
  List, [], ◌∷◌, ◌++◌, ltb, leb, ◌==◌, if◌then◌else◌, length, take, drop,
}
use receiptd.Base.Int.{ℤ, pos, negsuc, pos_part, ltb_ℤ}
use receiptd.Base.Text.{Text, codes}
use receiptd.Apperr.{GoError, Kind, Arg, num, errorf, wrap, Result, ok, err}
use receiptd.Receipt.{Element, cut, feed}
use receiptd.Receipt.Validate.{is_any, is_empty}
use receiptd.Render.{Canvas, Control, Profile}

-- ESC @
abbrev pub init_sequence : List ℕ
init_sequence = 27 ∷ 64 ∷ []

-- GS v 0, in normal mode
abbrev pub raster_command_fixed : List ℕ
raster_command_fixed = 29 ∷ 118 ∷ 48 ∷ 0 ∷ []

abbrev pub default_feed_lines : ℕ
default_feed_lines = 4

abbrev pub permanent_error : GoError → GoError
permanent_error e = wrap Kind.permanent "escpos.Encode" (some e)

abbrev pub lo_hi : ℕ → List ℕ
lo_hi n = n % 256 ∷ n / 256 % 256 ∷ []

-- byte(n), which keeps the low eight bits.
abbrev pub byte : ℤ → ℕ
byte (pos n) = n % 256
byte (negsuc n) = 255 - n % 256

abbrev pub feed_command : ℤ → List ℕ
feed_command lines = 27 ∷ 100 ∷ byte lines ∷ []

unfoldable pub cut_command : Text → Result (List ℕ)
cut_command mode =
    if is_any ("full" ∷ []) mode
    then ok (29 ∷ 86 ∷ 0 ∷ [])
    else if is_any ("partial" ∷ []) mode
    then ok (29 ∷ 86 ∷ 1 ∷ [])
    else err (
        permanent_error (
          errorf "printer.Profile.DefaultCut %q is invalid (want \"full\" or \"partial\")"
            (Arg.text mode ∷ [])))

-- The `default` case of controlCommand: its %T is left out of the message.
abbrev unsupported : Result (List ℕ)
unsupported = err (permanent_error (errorf "unsupported control element type %T" []))

unfoldable pub control_command : Element → Profile → Result (List ℕ)
control_command (feed lines) profile = ok (feed_command lines)
control_command (cut mode) profile =
    if not profile.supports_cut
    then ok []
    else cut_command (if is_empty mode then profile.default_cut else mode)
control_command e profile = unsupported

abbrev pub is_cut : Element → Bool
is_cut (cut mode) = true
is_cut e = false

-- The last control is a Terminal Cut.
unfoldable pub ends_with_explicit_cut : List Control → Bool
ends_with_explicit_cut [] = false
ends_with_explicit_cut (c ∷ []) = c.terminal && is_cut c.element
ends_with_explicit_cut (c ∷ (d ∷ cs)) = ends_with_explicit_cut (d ∷ cs)

unfoldable pub band_height : ℕ → ℤ → ℕ
band_height canvas_height max =
    if not (ltb_ℤ (pos 0) max) || not (ltb_ℤ max (pos canvas_height))
    then canvas_height
    else pos_part max

-- c.Bits[a:b], where Go panics if b exceeds the length.
unfoldable pub slice : ℕ → ℕ → List ℕ → Option (List ℕ)
slice a b bits = if leb b (length bits) then some (take (b - a) (drop a bits)) else none

-- The rows of the band at `start`: the last one is cut to what is left.
unfoldable pub clipped : ℕ → ℕ → ℕ → ℕ
clipped start band end = if ltb end (start + band) then end - start else band

-- What appendRasterBands appends, with fuel for its rounds; `none` is a panic, or that the fuel ran
-- out.
unfoldable pub raster_bands : ℕ → List ℕ → ℕ → ℕ → ℕ → ℕ → Option (List ℕ)
raster_bands zero bits row_bytes band start end = if ltb start end then none else some []
raster_bands (suc fuel) bits row_bytes band start end = elim (ltb start end) [
  | false ↦ some []
  | true ↦
      let height : ℕ = clipped start band end in
      elim (slice (start * row_bytes) ((start + height) * row_bytes) bits) [
        | none ↦ none
        | some rows ↦ elim (raster_bands fuel bits row_bytes band (start + band) end) [
          | none ↦ none
          | some rest ↦
              some (raster_command_fixed ++ (lo_hi row_bytes ++ (lo_hi height ++ (rows ++ rest))))
        ]
      ]
]

-- The loop of Encode over the controls, and the bands after it.
unfoldable pub interleave :
    List ℕ → ℕ → ℕ → Profile → ℕ → ℕ → List Control → Option (Result (List ℕ))
interleave bits row_bytes band profile height at [] =
    elim (raster_bands (height - at) bits row_bytes band at height) [
      | none ↦ none
      | some rows ↦ some (ok rows)
    ]
interleave bits row_bytes band profile height at (c ∷ cs) =
    elim (raster_bands (c.y - at) bits row_bytes band at c.y) [
      | none ↦ none
      | some rows ↦ elim (control_command c.element profile) [
        | err e ↦ some (err e)
        | ok command ↦ elim (interleave bits row_bytes band profile height c.y cs) [
          | none ↦ none
          | some (err e) ↦ some (err e)
          | some (ok rest) ↦ some (ok (rows ++ (command ++ rest)))
        ]
      ]
    ]

-- autoFeed and autoCut
unfoldable pub automatic_cut : Profile → List Control → Result (List ℕ)
automatic_cut profile controls =
    if profile.supports_cut && not (ends_with_explicit_cut controls)
    then elim (cut_command profile.default_cut) [
      | err e ↦ err e
      | ok command ↦ ok (feed_command (pos default_feed_lines) ++ command)
    ]
    else ok []

-- Encode; `none` is a panic.
unfoldable pub encode : Canvas → Profile → Option (Result (List ℕ))
encode c profile =
    let row_bytes : ℕ = (c.width + 7) / 8 in
    if c.width == 0 || c.height == 0
    then some (
        err (
          permanent_error
            (errorf "canvas has no content (%dx%d)" (num c.width ∷ num c.height ∷ []))))
    else if not (length c.bits == row_bytes * c.height)
    then some (
        err (
          permanent_error (
            errorf "canvas Bits length %d does not match %dx%d dimensions (want %d)" (
              num (length c.bits) ∷ num c.width ∷ num c.height ∷ num (row_bytes * c.height) ∷ []))))
    else elim (automatic_cut profile c.controls) [
      | err e ↦ some (err e)
      | ok trailer ↦
          elim (interleave c.bits row_bytes (band_height c.height profile.max_image_height_dots)
            profile c.height 0 c.controls) [
              | none ↦ none
              | some (err e) ↦ some (err e)
              | some (ok body) ↦ some (ok (init_sequence ++ (body ++ trailer)))
            ]
    ]
