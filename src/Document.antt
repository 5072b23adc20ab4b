-- ===== src/Document.antt =====
-- internal/render/layout: the document between a receipt and its canvas (document.go), the Font interface
-- (font.go), and the sizes that the stages share (build.go).
use receiptd.Base.{
  length, ◌*◌, ◌/◌, ℕ, ◌+◌, ◌<◌, ◌≡◌, Bool, false, true, List, [], ◌∷◌, ◌++◌, if◌then◌else◌,
}
use receiptd.Base.Int.{ℤ, pos, pos_part, ltb_ℤ}
use receiptd.Base.Text.{Text}
use receiptd.Receipt.{Element}

pub record GlyphBitmap : Type 0 where
  pub width : ℕ
  pub height : ℕ
  pub bits : List ℕ

-- The bytes of a row of dots, eight to a byte.
abbrev pub row_bytes : ℕ → ℕ
row_bytes width = (width + 7) / 8

-- The bytes are those of the rows.
abbrev pub IsPacked : GlyphBitmap → Type 0
IsPacked bmp = length bmp.bits ≡ row_bytes bmp.width * bmp.height

pub record Style : Type 0 where
  pub bold : Bool
  pub italic : Bool
  pub underline : Bool
  pub strikethrough : Bool
  pub size : ℕ

-- `glyph` gives the bitmap of a rune, and its advance.
pub record Font : Type 0 where
  pub measure : Text → ℕ
  pub line_height : ℕ
  pub glyph : ℕ → GlyphBitmap × ℕ

abbrev pub space : Text
space = 32 ∷ []

-- What the layout and the painter rely on: a space has a width of its own, whatever stands on either
-- side of it, and the bitmap of a glyph has the bytes of its rows.
pub record IsFont (f : Font) : Type 0 where
  pub nothing : f.measure [] ≡ 0
  pub gap : 0 < f.measure space
  pub at_space :
      (s t : Text) → f.measure (s ++ (32 ∷ t)) ≡ f.measure s + (f.measure space + f.measure t)
  pub line : 0 < f.line_height
  pub packed : (r : ℕ) → IsPacked (f.glyph r).0

-- An element as it is laid out: one of the receipt, or one that only Build makes.
pub data Placed : Type 0 where
  plain : Element → Placed
  table_line : Text → Placed
  columns_line : Text → Placed
  list_line : Text → Placed
  barcode_caption : Text → Placed
  aligned_asset : List ℕ → ℤ → Text → Placed

pub record Block : Type 0 where
  pub y : ℕ
  pub element : Placed
  pub style : Style

pub record Document : Type 0 where
  pub width_dots : ℤ
  pub blocks : List Block
  pub font : Font

abbrev pub divider_thickness : ℕ
divider_thickness = 2

-- ResolveSize
abbrev pub resolve_size : ℤ → ℕ
resolve_size size = if ltb_ℤ size (pos 1) then 1 else pos_part size

abbrev pub normal_style : Style
normal_style = record {
  bold = false;
  italic = false;
  underline = false;
  strikethrough = false;
  size = 1;
}

abbrev pub heading_style : Style
heading_style = record {
  bold = true;
  italic = false;
  underline = false;
  strikethrough = false;
  size = 2;
}
