-- ===== src/Layout/Runs.antt =====
-- Concrete runs of internal/render/layout, with a font of fixed width, and its theorems at them.
use receiptd.Base.{
  none, ◌^◌, ℕ, ◌*◌, ◌≡◌, ◌≢◌, ◌⊎◌, refl, sym, ap, ◌∙◌, some, List, [], ◌∷◌, arith, length,
  length-append, All,
}
use receiptd.Base.Int.{div_int64}
use receiptd.Base.Text.{Text, codes}
use receiptd.Apperr.{Result, ok, err}
use receiptd.Receipt.Validate.{ImageConfig, Picture}
use receiptd.Receipt.Runs.{lenient}
use receiptd.Document.{Font, IsFont}
use receiptd.Layout.Words.{
  wrap_all, wrap_words, wrap_paragraph, wrap_text, split_lines, fields, pack,
}
use receiptd.Layout.Words.Wraps.{IsWrapped, wrap_paragraph-IsWrapped}
use receiptd.Layout.Words.Within.{WordsFit, IsWithin, wrap_text-IsWithin}
use receiptd.Layout.Padding.{align_pad}
use receiptd.Layout.Padding.Fits.{Aligns, align_pad-Aligns}
use receiptd.Layout.Columns.{shares, column_widths, table_row_lines}
use receiptd.Layout.Columns.Widths.{IsShare, column_widths-IsShare}
use receiptd.Layout.Columns.Rows.{RowFits, Within, total, table_row_lines-Within}
use receiptd.Layout.Bitmaps.Agree.{IsCodecs}

-- 14 dots for each byte, in lines of 26 dots, as the embedded face has them for ASCII.
abbrev pub fixed_font : Font
fixed_font = record {
  measure = λ s. 14 * length s;
  line_height = 26;
  glyph = λ r. (record { width = 1; height = 1; bits = 128 ∷ [] }, 14);
}

pub fixed_font-IsFont : IsFont fixed_font
fixed_font-IsFont = record {
  nothing = refl;
  gap = omega arith;
  at_space = λ s t. omega (arith, length-append s (32 ∷ t));
  line = omega arith;
  packed = λ r. refl;
}

pub lenient-IsCodecs : IsCodecs lenient
lenient-IsCodecs = record {
  bounds = λ bytes cfg img a b. (
    sym (ap width_of_picture b) ∙ ap width_of_config a,
    sym (ap height_of_picture b) ∙ ap height_of_config a,
  );
}
  where
    width_of_picture : Result Picture → ℕ
    width_of_picture r = elim r [ ok x ↦ x.width | err e ↦ 0 ]

    height_of_picture : Result Picture → ℕ
    height_of_picture r = elim r [ ok x ↦ x.height | err e ↦ 0 ]

    width_of_config : Result ImageConfig → ℕ
    width_of_config r = elim r [ ok x ↦ x.width | err e ↦ 0 ]

    height_of_config : Result ImageConfig → ℕ
    height_of_config r = elim r [ ok x ↦ x.height | err e ↦ 0 ]

wrap_paragraph-IsWrapped_example :
    ((fields (codes "one two") ≡ []) × (wrap_paragraph fixed_font 60 1 (codes "one two") ≡ [] ∷ []))
    ⊎ ((fields (codes "one two") ≢ [])
        × IsWrapped fixed_font 60 1
            (fields (codes "one two"))
            (wrap_paragraph fixed_font 60 1 (codes "one two")))
wrap_paragraph-IsWrapped_example = wrap_paragraph-IsWrapped fixed_font 60 1 (codes "one two")

two_lines : wrap_text fixed_font 60 1 (codes "one two") ≡ codes "one" ∷ codes "two" ∷ []
unfolding wrap_text wrap_all wrap_paragraph wrap_words split_lines fields pack
two_lines = refl

words_fit : All (WordsFit fixed_font fixed_font-IsFont 60 1) (split_lines (codes "one two"))
unfolding split_lines fields
words_fit = ((omega arith, (omega arith, tt)), tt)

wrap_text-IsWithin_example :
    All (IsWithin fixed_font fixed_font-IsFont 60 1) (wrap_text fixed_font 60 1 (codes "one two"))
wrap_text-IsWithin_example =
    wrap_text-IsWithin fixed_font fixed_font-IsFont 60 1 (codes "one two") (omega arith) words_fit

align_pad-Aligns_example :
    (out : Text) × (align_pad fixed_font (codes "one") (codes "center") 100 1 ≡ some out)
    × Aligns fixed_font fixed_font-IsFont (codes "one") (codes "center") 100 1 out
align_pad-Aligns_example =
    align_pad-Aligns fixed_font fixed_font-IsFont (codes "one") (codes "center") 100 1 (omega arith)

column_widths-IsShare_example :
    (vs : List ℕ) × (column_widths (2 ∷ 1 ∷ []) 100 14 ≡ some vs) × IsShare 2 100 14 vs
column_widths-IsShare_example =
    column_widths-IsShare 2 (1 ∷ []) 100 14 (omega arith) (omega arith) (omega arith)

-- Four weights of 2^62 make a total of 0, by which the source divides.
overflowing_weights : column_widths (2 ^ 62 ∷ 2 ^ 62 ∷ 2 ^ 62 ∷ 2 ^ 62 ∷ []) 576 14 ≡ none
unfolding column_widths shares div_int64
overflowing_weights = refl

cells_fit : RowFits fixed_font fixed_font-IsFont (codes "one" ∷ codes "two" ∷ []) (50 ∷ 60 ∷ [])
unfolding split_lines fields
cells_fit = ((omega arith, ((omega arith, tt), tt)), ((omega arith, ((omega arith, tt), tt)), tt))

table_row_lines-Within_example :
    (out : List Text) × (table_row_lines fixed_font (codes "one" ∷ codes "two" ∷ []) (50 ∷ 60 ∷ [])
      ≡ some out)
    × All
        (Within fixed_font fixed_font-IsFont (total fixed_font fixed_font-IsFont (50 ∷ 60 ∷ [])))
        out
table_row_lines-Within_example =
    table_row_lines-Within fixed_font fixed_font-IsFont (codes "one" ∷ codes "two" ∷ [])
      (50 ∷ 60 ∷ []) cells_fit
