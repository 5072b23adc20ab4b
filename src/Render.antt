-- ===== src/Render.antt =====
-- internal/render and internal/printer: the bitmap of a receipt, the profile of a printer, and the
-- bytes that print the one on the other.
pub mod Escpos
pub mod Paint
pub mod Page
mod Runs
use receiptd.Base.{ℕ, Bool, List}
use receiptd.Base.Int.{ℤ}
use receiptd.Base.Text.{Text}
use receiptd.Receipt.{Element}

-- canvas.Control: a Feed or Cut at the row `y`.
pub record Control : Type 0 where
  pub y : ℕ
  pub element : Element
  pub terminal : Bool

-- canvas.Canvas: `bits` packs each row into whole bytes.
pub record Canvas : Type 0 where
  pub width : ℕ
  pub height : ℕ
  pub bits : List ℕ
  pub controls : List Control

-- printer.Profile
pub record Profile : Type 0 where
  pub width_dots : ℤ
  pub dpi : ℤ
  pub margin_left_dots : ℤ
  pub margin_right_dots : ℤ
  pub supports_cut : Bool
  pub supports_partial_cut : Bool
  pub default_cut : Text
  pub max_image_height_dots : ℤ
