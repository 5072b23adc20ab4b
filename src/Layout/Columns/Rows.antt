-- ===== src/Layout/Columns/Rows.antt =====
-- The composition of a row of columns (tableRowLines of table.go, columnsLines of columns.go) ends, and a
-- row of cells that keep to their columns keeps to the width.
use receiptd.Base.{
  ℕ, zero, suc, ◌+◌, ◌-◌, ◌*◌, ◌≤◌, ◌<◌, ◌≡◌, ◌⊎◌, inl, inr, refl, sym, ap, ◌∙◌, true, false, some,
  List, [], ◌∷◌, ◌++◌, arith, length, All, replicate,
}
use mathlib.Core.List.{append_assoc}
use mathlib.Core.Path.{subst}
use receiptd.Base.Text.{Text}
use receiptd.Document.{Font, IsFont, space}
use receiptd.Layout.Words.{split_lines, wrap_text}
use receiptd.Layout.Words.Within.{WordsFit, wrap_text-IsWithin}
use receiptd.Layout.Padding.Fits.{IsPadded, pad_to_width-IsPadded}
use receiptd.Layout.Columns.{
  sum, wrap_cells, max_lines, first_line, other_lines, add_column, add_columns, compose_columns,
  table_row_lines,
}

module _ (f : Font) (law : IsFont f) where
  abbrev gap : ℕ
  gap = f.measure space

  abbrev pub Within : ℕ → Text → Type 0
  Within n t = f.measure t ≤ n

  -- A line to which a cell can be added: it is empty, or ends in the gap.
  abbrev IsOpen : Text → Type 0
  IsOpen l = (l ≡ []) ⊎ ((m : Text) × (l ≡ m ++ space))

  abbrev IsOpenWithin : ℕ → Text → Type 0
  IsOpenWithin n l = IsOpen l × Within n l

  measure-open : (l t : Text) → IsOpen l → f.measure (l ++ t) ≡ f.measure l + f.measure t
  measure-open l t (inl e) = rw e (omega (arith, law.nothing))
  measure-open l t (inr (m, e)) = rw e (
      ap (λ u. f.measure u) (append_assoc m space t)
      ∙ omega (arith, law.at_space m t, law.at_space m [], law.nothing))

  first_line-Within : (w : ℕ) (col : List Text) → All (Within w) col → Within w (first_line col)
  first_line-Within w [] h = omega (arith, law.nothing)
  first_line-Within w (l ∷ ls) h = h.0

  other_lines-Within :
      (w : ℕ) (col : List Text) → All (Within w) col → All (Within w) (other_lines col)
  other_lines-Within w [] h = tt
  other_lines-Within w (l ∷ ls) h = h.1

  padded-Within : (w : ℕ) (s out : Text) → Within w s → IsPadded f law 1 w s out → Within w out
  padded-Within w s out h p = go p.fits
    where
      go : (p.count ≡ 0) ⊎ (f.measure out * 1 ≤ w) → Within w out
      go (inl e) = omega (arith, p.measured, h, ap (λ (t : ℕ). t * f.measure space) e)
      go (inr q) = omega (arith, q)

  -- A column that is not the last one leaves the lines open.
  add_column-inner :
      (a w : ℕ) (lines col : List Text)
      → All (IsOpenWithin a) lines
      → All (Within w) col
      → (out : List Text) × (add_column f false w lines col ≡ some out)
        × All (IsOpenWithin (a + w + gap)) out
  unfolding add_column
  add_column-inner a w [] col p q = ([], refl, tt)
  add_column-inner a w (line ∷ lines) col p q =
      let cell : Text = first_line col in
      let (padded, e, r) = pad_to_width-IsPadded f law cell w in
      let (rest, e', r') =
        add_column-inner a w lines (other_lines col) p.1 (other_lines-Within w col q) in
      let fits : Within w padded = padded-Within w cell padded (first_line-Within w col q) r in
      (
        (line ++ (padded ++ space)) ∷ rest,
        rw (add_column, e, e') refl,
        (
          (
            inr (line ++ padded, sym (append_assoc line padded space)),
            omega (
              arith,
              p.0.1,
              fits,
              measure-open line (padded ++ space) p.0.0,
              law.at_space padded [],
              law.nothing,
            ),
          ),
          r',
        ),
      )

  add_column-last :
      (a w : ℕ) (lines col : List Text)
      → All (IsOpenWithin a) lines
      → All (Within w) col
      → (out : List Text) × (add_column f true w lines col ≡ some out) × All (Within (a + w)) out
  unfolding add_column
  add_column-last a w [] col p q = ([], refl, tt)
  add_column-last a w (line ∷ lines) col p q =
      let (rest, e, r) =
        add_column-last a w lines (other_lines col) p.1 (other_lines-Within w col q) in
      (
        (line ++ first_line col) ∷ rest,
        rw (add_column, e) refl,
        (
          omega (arith, p.0.1, first_line-Within w col q, measure-open line (first_line col) p.0.0),
          r,
        ),
      )

  -- Each column's lines keep to its width.
  abbrev pub CellsFit : List (List Text) → List ℕ → Type 0
  CellsFit [] [] = Unit
  CellsFit [] (w ∷ ws) = ⊥
  CellsFit (col ∷ cols) [] = ⊥
  CellsFit (col ∷ cols) (w ∷ ws) = All (Within w) col × CellsFit cols ws

  -- The widths of some columns, and the gaps between them.
  abbrev pub total : List ℕ → ℕ
  total ws = sum ws + (length ws - 1) * gap

  total-more : (w v : ℕ) (ws : List ℕ) → w + gap + total (v ∷ ws) ≡ total (w ∷ v ∷ ws)
  total-more w v ws =
      let d : suc (suc (length ws)) - 1 ≡ suc (length ws) = omega arith in
      let e : suc (length ws) - 1 ≡ length ws = omega arith in
      omega (arith, ap (λ (t : ℕ). t * gap) d, ap (λ (t : ℕ). t * gap) e)

  add_columns-Within :
      (a w : ℕ) (col : List Text) (cols : List (List Text)) (ws : List ℕ) (lines : List Text)
      → All (IsOpenWithin a) lines
      → CellsFit (col ∷ cols) (w ∷ ws)
      → (out : List Text) × (add_columns f (col ∷ cols) (w ∷ ws) lines ≡ some out)
        × All (Within (a + total (w ∷ ws))) out
  unfolding add_columns
  add_columns-Within a w col [] [] lines p q =
      let (out, e, r) = add_column-last a w lines col p q.0 in
      (
        out,
        rw (add_columns, e) refl,
        subst (λ (n : ℕ). All (Within n) out) {x = a + w} {y = a + total (w ∷ [])} (omega arith) r,
      )
  add_columns-Within a w col [] (v ∷ ws) lines p q = absurd q.1
  add_columns-Within a w col (col' ∷ cols) [] lines p q = absurd q.1
  add_columns-Within a w col (col' ∷ cols) (v ∷ ws) lines p q =
      let (more, e, r) = add_column-inner a w lines col p q.0 in
      let (out, e', r') = add_columns-Within (a + w + gap) v col' cols ws more r q.1 in
      (
        out,
        rw (add_columns, e) e',
        subst (λ (n : ℕ). All (Within n) out) {x = a + w + gap + total (v ∷ ws)}
            {y = a + total (w ∷ v ∷ ws)} (omega (arith, total-more w v ws)) r',
      )

  blank-open : (n : ℕ) → All (IsOpenWithin 0) (replicate n [])
  blank-open zero = tt
  blank-open (suc n) = ((inl refl, omega (arith, law.nothing)), blank-open n)

  pub compose_columns-Within :
      (cols : List (List Text)) (ws : List ℕ)
      → CellsFit cols ws
      → (out : List Text) × (compose_columns f cols ws ≡ some out) × All (Within (total ws)) out
  unfolding compose_columns add_columns
  compose_columns-Within [] [] h = ([], refl, tt)
  compose_columns-Within [] (w ∷ ws) h = absurd h
  compose_columns-Within (col ∷ cols) [] h = absurd h
  compose_columns-Within (col ∷ cols) (w ∷ ws) h =
      let (out, e, r) =
        add_columns-Within 0 w col cols ws _ (blank-open (max_lines (col ∷ cols))) h in
      (out, e, subst (λ (n : ℕ). All (Within n) out) {x = 0 + total (w ∷ ws)} (omega arith) r)

  -- The cells of a row, with a width for each: no word of a cell is wider than its column.
  abbrev pub RowFits : List Text → List ℕ → Type 0
  RowFits [] [] = Unit
  RowFits [] (w ∷ ws) = ⊥
  RowFits (cell ∷ row) [] = ⊥
  RowFits (cell ∷ row) (w ∷ ws) =
      ((0 < w) × All (WordsFit f law w 1) (split_lines cell)) × RowFits row ws

  times_one : (w : ℕ) (ls : List Text) → All (λ t. f.measure t * 1 ≤ w) ls → All (Within w) ls
  times_one w [] h = tt
  times_one w (l ∷ ls) h = (omega (arith, h.0), times_one w ls h.1)

  wrap_cells-CellsFit :
      (row : List Text) (ws : List ℕ)
      → RowFits row ws
      → (cols : List (List Text)) × (wrap_cells f row ws ≡ some cols) × CellsFit cols ws
  unfolding wrap_cells
  wrap_cells-CellsFit [] [] h = ([], refl, tt)
  wrap_cells-CellsFit [] (w ∷ ws) h = absurd h
  wrap_cells-CellsFit (cell ∷ row) [] h = absurd h
  wrap_cells-CellsFit (cell ∷ row) (w ∷ ws) h =
      let (cols, e, r) = wrap_cells-CellsFit row ws h.1 in
      (
        wrap_text f w 1 cell ∷ cols,
        rw (wrap_cells, e) refl,
        (times_one w _ (wrap_text-IsWithin f law w 1 cell h.0.0 h.0.1), r),
      )

  -- A row whose cells have no word wider than their column is composed, and none of its lines is wider
  -- than the columns and the gaps between them.
  pub table_row_lines-Within :
      (row : List Text) (ws : List ℕ)
      → RowFits row ws
      → (out : List Text) × (table_row_lines f row ws ≡ some out) × All (Within (total ws)) out
  unfolding table_row_lines
  table_row_lines-Within row ws h =
      let (cols, e, r) = wrap_cells-CellsFit row ws h in
      let (out, e', r') = compose_columns-Within cols ws r in (out, rw (table_row_lines, e) e', r')
