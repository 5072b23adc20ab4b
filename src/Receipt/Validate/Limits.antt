-- ===== src/Receipt/Validate/Limits.antt =====
-- The encoders that internal/receipt calls, as a parameter, and the limits, words and tests that its
-- Validate methods share.
use Prim.Native.String.{String}
use receiptd.Base.{ℕ, Bool, true, false, ◌||◌, Option, none, some, List, [], ◌∷◌}
use receiptd.Base.Text.{Text, codes, text_eq}
use receiptd.Apperr.{GoError, Result, ok, err}

pub data RecoveryLevel : Type 0 where
  low medium quartile high : RecoveryLevel

pub record ImageConfig : Type 0 where
  pub width : ℕ
  pub height : ℕ
  pub format : Text

-- A color as color.Color.RGBA gives it: 16 bits of each, alpha-premultiplied.
pub record Pixel : Type 0 where
  pub red : ℕ
  pub green : ℕ
  pub blue : ℕ
  pub alpha : ℕ

-- image.Image: `at` takes coordinates that count from the corner of its bounds.
pub record Picture : Type 0 where
  pub width : ℕ
  pub height : ℕ
  pub at : ℕ → ℕ → Pixel

-- What the encoders and decoders outside of the repository answer. `Code` is barcode.Barcode, and
-- `picture` the image that it is.
pub record Codecs : Type 1 where
  pub Code : Type 0
  pub qr_encode : Text → RecoveryLevel → Result Code
  pub code128 : Text → Result Code
  pub ean : Text → Result Code
  pub code39 : Text → Bool → Bool → Result Code
  pub two_of_five : Text → Bool → Result Code
  pub picture : Code → Picture
  pub decode_config : List ℕ → Result ImageConfig
  pub decode : List ℕ → Result Picture

abbrev pub is_any : List String → Text → Bool
is_any [] t = false
is_any (s ∷ ss) t = text_eq t (codes s) || is_any ss t

abbrev pub is_empty : Text → Bool
is_empty [] = true
is_empty (b ∷ t) = false

abbrev pub require : Bool → GoError → Option GoError → Option GoError
require true e rest = rest
require false e rest = some e

abbrev pub aligns : List String
aligns = "" ∷ "left" ∷ "center" ∷ "right" ∷ []

abbrev pub max_text_size : ℕ
max_text_size = 100

abbrev pub max_divider_size : ℕ
max_divider_size = 100

abbrev pub max_feed_lines : ℕ
max_feed_lines = 255

abbrev pub max_spacer_height_dots : ℕ
max_spacer_height_dots = 10000

abbrev pub max_barcode_height_dots : ℕ
max_barcode_height_dots = 10000

abbrev pub max_list_indent : ℕ
max_list_indent = 8

abbrev pub default_qr_code_size : ℕ
default_qr_code_size = 200

abbrev pub default_barcode_height : ℕ
default_barcode_height = 80

abbrev pub max_image_pixels : ℕ
max_image_pixels = 20_000_000

abbrev pub qr_code_error_correction_levels : List String
qr_code_error_correction_levels = "low" ∷ "medium" ∷ "quartile" ∷ "high" ∷ []

abbrev pub barcode_symbologies : List String
barcode_symbologies = "code128" ∷ "ean13" ∷ "ean8" ∷ "upca" ∷ "code39" ∷ "itf" ∷ []

abbrev pub supported_image_formats : List String
supported_image_formats = "png" ∷ "jpeg" ∷ "gif" ∷ "bmp" ∷ "webp" ∷ []

-- `if _, err := e; err != nil { return wrapped }`
abbrev pub failing {ℓ} : {A : Type ℓ} → Result A → (GoError → GoError) → Option GoError
failing (ok a) wrapped = none
failing (err e) wrapped = some (wrapped e)

abbrev pub is_supported_symbology : Text → Bool
is_supported_symbology s = is_any barcode_symbologies s
