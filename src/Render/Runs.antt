-- ===== src/Render/Runs.antt =====
-- Concrete runs of internal/render, and its theorems at them.
use receiptd.Base.{ℕ, ◌≡◌, refl, true, false, some, List, [], ◌∷◌, arith, length}
use receiptd.Base.Int.{pos}
use receiptd.Base.Text.{codes, text_eq}
use receiptd.Render.Escpos.Errors.{is_kind-encode}
use receiptd.Apperr.{GoError, Kind, errorf, num, is_kind, err, ok}
use receiptd.Receipt.{Divider, feed}
use receiptd.Render.{Canvas, Profile}
use receiptd.Document.{GlyphBitmap, Style}
use receiptd.Render.Paint.{style_glyph, paint_divider}
use receiptd.Render.Paint.Sizes.{Sized, style_glyph-Sized}
use receiptd.Render.Paint.Canvases.{Repainted, paint_divider-Repainted}
use receiptd.Render.Escpos.{
  encode, interleave, raster_bands, clipped, slice, band_height, automatic_cut,
  ends_with_explicit_cut, cut_command, control_command, permanent_error,
}
use receiptd.Render.Escpos.Stream.{row, fed, partial_cut, read}
use receiptd.Render.Escpos.Prints.{IsPrintable, paper, encode-Prints}

abbrev cutter : Profile
cutter = record {
  width_dots = pos 8;
  dpi = pos 203;
  margin_left_dots = pos 0;
  margin_right_dots = pos 0;
  supports_cut = true;
  supports_partial_cut = true;
  default_cut = codes "partial";
  max_image_height_dots = pos 2;
}

-- Three rows, with a feed after the first one.
abbrev slip : Canvas
slip = record {
  width = 8;
  height = 3;
  bits = 170 ∷ 85 ∷ 255 ∷ [];
  controls = record { y = 1; element = feed (pos 2); terminal = false } ∷ [];
}

slip_bytes :
    encode slip cutter
    ≡ some (
        ok (
          27 ∷ 64 ∷ 29 ∷ 118 ∷ 48 ∷ 0 ∷ 1 ∷ 0 ∷ 1 ∷ 0 ∷ 170 ∷ 27 ∷ 100 ∷ 2 ∷ 29 ∷ 118 ∷ 48 ∷ 0 ∷ 1
          ∷ 0 ∷ 2 ∷ 0 ∷ 85 ∷ 255 ∷ 27 ∷ 100 ∷ 4 ∷ 29 ∷ 86 ∷ 1 ∷ []))
unfolding encode interleave raster_bands clipped slice band_height automatic_cut
    ends_with_explicit_cut cut_command control_command text_eq
slip_bytes = refl

printed_slip :
    paper slip cutter
    ≡ row (170 ∷ []) ∷ fed 2 ∷ row (85 ∷ []) ∷ row (255 ∷ []) ∷ fed 4 ∷ partial_cut ∷ []
unfolding text_eq
printed_slip = refl

slip-IsPrintable : IsPrintable slip cutter
unfolding band_height text_eq
slip-IsPrintable = record {
  has_width = omega arith;
  has_height = omega arith;
  full = refl;
  narrow = omega arith;
  low = omega arith;
  cutter = λ h. refl;
  in_order = (omega arith, (omega arith, ((refl, refl), tt)));
}

encode-Prints_example :
    (bytes : List ℕ) × (encode slip cutter ≡ some (ok bytes))
    × (read (length bytes) bytes ≡ some (paper slip cutter))
encode-Prints_example = encode-Prints slip cutter slip-IsPrintable

-- A canvas two bytes short.
abbrev short_canvas : Canvas
short_canvas = record { width = 8; height = 3; bits = 170 ∷ []; controls = [] }

abbrev short_error : GoError
short_error = permanent_error (
    errorf "canvas Bits length %d does not match %dx%d dimensions (want %d)"
      (num 1 ∷ num 8 ∷ num 3 ∷ num 3 ∷ []))

rejected : encode short_canvas cutter ≡ some (err short_error)
unfolding encode
rejected = refl

is_kind-encode_example : is_kind short_error Kind.permanent ≡ true
is_kind-encode_example = is_kind-encode short_canvas cutter short_error rejected

-- Three dots wide, two tall.
abbrev small_glyph : GlyphBitmap
small_glyph = record { width = 3; height = 2; bits = 128 ∷ 64 ∷ [] }

abbrev bold_large : Style
bold_large = record {
  bold = true;
  italic = true;
  underline = false;
  strikethrough = false;
  size = 2;
}

small_glyph_styled :
    style_glyph small_glyph bold_large
    ≡ some (record { width = 6; height = 4; bits = 224 ∷ 224 ∷ 56 ∷ 56 ∷ [] })
unfolding style_glyph
small_glyph_styled = refl

style_glyph-Sized_example : Sized 6 4 (style_glyph small_glyph bold_large)
style_glyph-Sized_example = style_glyph-Sized small_glyph bold_large refl (omega arith)

abbrev dashes : Divider
dashes = record { style = codes "dashed"; size = pos 1 }

paint_divider-Repainted_example : Repainted slip (paint_divider dashes 1 slip)
paint_divider-Repainted_example = paint_divider-Repainted dashes 1 slip refl
