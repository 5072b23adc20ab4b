-- ===== src/Layout/Lines/Ends.antt =====
-- Tables, columns and lists that Validate accepts are laid out: tableLines, columnsLines and listLines
-- neither panic nor pad without end.
use receiptd.Base.{
  ◌^◌, ◌<◌, ℕ, suc, ◌+◌, ◌≤◌, ◌<◌, ◌≡◌, ◌≢◌, inl, inr, refl, ap, ◌∙◌, Bool, true, false, Option,
  some, List, [], ◌∷◌, ◌++◌, arith, length, All, map, replicate, ◌*◌, ◌==◌, Bool-cases,
}
use mathlib.Core.Path.{subst}
use receiptd.Base.Int.{ℤ, pos, negsuc, ◌≤ℤ◌}
use receiptd.Base.Text.{Text}
use receiptd.Apperr.{Result, ok, err, Result-cases}
use receiptd.Receipt.{Elements, Columns, Table, ListItem, ListElement}
use receiptd.Receipt.WellFormed.{TableIsValid, RowIsValid, ListIsValid, ItemIsValid}
use receiptd.Document.{Font, IsFont, space, resolve_size}
use receiptd.Layout.Words.{wrap_text}
use receiptd.Layout.Padding.Fits.{pad_to_width-IsPadded, list_hang_indent-IsPadded}
use receiptd.Layout.Columns.{
  sum, column_widths, wrap_cells, add_column, add_columns, compose_columns, table_row_lines,
  padded_cell, first_line, other_lines, is_empty_list, max_lines,
}
use receiptd.Layout.Columns.Widths.{table_column_widths-IsShare, column_widths-length}
use receiptd.Layout.Lines.{
  table_lines, rows_lines, columns_lines, cells_lines, column_lines, columns_list, weights_of,
  list_lines, items_lines, item_lines, indent_of, list_indent_spaces, list_marker, hung,
  content_width, join_cells,
}

-- The computation ends, and with what.
abbrev pub Ends {ℓ} : {A : Type ℓ} → Option A → Type ℓ
Ends {A} o = (a : A) × (o ≡ some a)

-- The weights of the columns, each at least 1, add up within an int.
abbrev pub IsLight : Columns → Type 0
IsLight cs = sum (weights_of (columns_list cs)) < 2 ^ 63

module _ (f : Font) (law : IsFont f) where
  padded_cell-Ends : (is_last : Bool) (w : ℕ) (cell : Text) → Ends (padded_cell f is_last w cell)
  padded_cell-Ends true w cell = (cell, refl)
  padded_cell-Ends false w cell =
      let (out, e, r) = pad_to_width-IsPadded f law cell w in
      (out ++ space, rw (padded_cell, e) refl)

  add_column-Ends :
      (is_last : Bool) (w : ℕ) (lines col : List Text) → Ends (add_column f is_last w lines col)
  unfolding add_column
  add_column-Ends is_last w [] col = ([], refl)
  add_column-Ends is_last w (line ∷ lines) col =
      let (cell, e) = padded_cell-Ends is_last w (first_line col) in
      let (rest, e') = add_column-Ends is_last w lines (other_lines col) in
      ((line ++ cell) ∷ rest, rw (add_column, e, e') refl)

  add_columns-Ends :
      (cols : List (List Text)) (ws : List ℕ) (lines : List Text)
      → length cols ≤ length ws
      → Ends (add_columns f cols ws lines)
  unfolding add_columns
  add_columns-Ends [] ws lines h = (lines, refl)
  add_columns-Ends (col ∷ cols) [] lines h = absurd (omega (arith, h))
  add_columns-Ends (col ∷ cols) (w ∷ ws) lines h =
      let (more, e) = add_column-Ends (is_empty_list cols) w lines col in
      let (out, e') = add_columns-Ends cols ws more (omega (arith, h)) in
      (out, rw (add_columns, e) e')

  compose_columns-Ends :
      (cols : List (List Text)) (ws : List ℕ)
      → length cols ≤ length ws
      → Ends (compose_columns f cols ws)
  unfolding compose_columns
  compose_columns-Ends cols ws h = add_columns-Ends cols ws (replicate (max_lines cols) []) h

  wrap_cells-Ends :
      (row : List Text) (ws : List ℕ)
      → length row ≤ length ws
      → (cols : List (List Text)) × (wrap_cells f row ws ≡ some cols) × (length cols ≡ length row)
  unfolding wrap_cells
  wrap_cells-Ends [] ws h = ([], refl, refl)
  wrap_cells-Ends (cell ∷ row) [] h = absurd (omega (arith, h))
  wrap_cells-Ends (cell ∷ row) (w ∷ ws) h =
      let (cols, e, n) = wrap_cells-Ends row ws (omega (arith, h)) in
      (wrap_text f w 1 cell ∷ cols, rw (wrap_cells, e) refl, ap suc n)

  table_row_lines-Ends :
      (row : List Text) (ws : List ℕ) → length row ≤ length ws → Ends (table_row_lines f row ws)
  unfolding table_row_lines
  table_row_lines-Ends row ws h =
      let (cols, e, n) = wrap_cells-Ends row ws h in
      let (out, e') = compose_columns-Ends cols ws (omega (arith, h, n)) in
      (out, rw (table_row_lines, e) e')

  rows_lines-Ends :
      (ws : List ℕ) (rows : List (List Text))
      → All (λ row. length row ≤ length ws) rows
      → Ends (rows_lines f ws rows)
  unfolding rows_lines
  rows_lines-Ends ws [] h = ([], refl)
  rows_lines-Ends ws (row ∷ rows) h =
      let (lines, e) = table_row_lines-Ends row ws h.0 in
      let (rest, e') = rows_lines-Ends ws rows h.1 in (lines ++ rest, rw (rows_lines, e, e') refl)

  rows_fit :
      (n m : ℕ) (rows : List (List Text))
      → m ≡ n
      → All (RowIsValid n) rows
      → All (λ row. length row ≤ m) rows
  rows_fit n m [] e h = tt
  rows_fit n m (row ∷ rows) e h = (omega (arith, e, h.0.0), rows_fit n m rows e h.1)

  pub table_lines-Ends : (t : Table) (width : ℕ) → TableIsValid t → Ends (table_lines f t width)
  unfolding table_lines
  table_lines-Ends t width h = elim (Bool-cases (width == 0)) [
    | inl z ↦ (map join_cells (t.headers ∷ t.rows), rw (table_lines, z) refl)
    | inr z ↦ wide z t.headers h.0 refl
  ]
    where
      wide :
          (width == 0) ≡ false
          → (hs : List Text) → hs ≢ []
          → t.headers ≡ hs
          → Ends (table_lines f t width)
      wide z [] n e = absurd (n refl)
      wide z (c ∷ cs) n e =
          let (ws, e', share) = table_column_widths-IsShare (length cs) width (f.measure space) in
          let size : length t.headers ≡ suc (length cs) = ap length e in
          let (out, e'') = rows_lines-Ends ws (t.headers ∷ t.rows) (
            omega (arith, share.0, size),
            rows_fit (length t.headers) (length ws) t.rows (omega (arith, share.0, size)) h.1.1.1,
          ) in
          (out, rw (table_lines, z, size, e') e'')

  length-weights : (ds : List (ℤ × Elements)) → length (weights_of ds) ≡ length ds
  length-weights [] = refl
  length-weights ((weight, es) ∷ ds) = ap suc (length-weights ds)

  resolve_size-positive : (size : ℤ) → 0 < resolve_size size
  resolve_size-positive size = ground arith

  abbrev HasSize : ℕ → Result (List (List Text)) → Type 0
  HasSize n (ok cells) = length cells ≡ n
  HasSize n (err e) = Unit

  cells_lines-Ends :
      (cs : List (ℤ × Elements)) (ws : List ℕ)
      → length cs ≤ length ws
      → (r : Result (List (List Text))) × (cells_lines f cs ws ≡ some r) × HasSize (length cs) r
  unfolding cells_lines
  cells_lines-Ends [] ws h = (ok [], refl, refl)
  cells_lines-Ends (c ∷ cs) [] h = absurd (omega (arith, h))
  cells_lines-Ends ((weight, es) ∷ cs) (w ∷ ws) h =
      let (r, e, n) = cells_lines-Ends cs ws (omega (arith, h)) in
      elim (Result-cases (column_lines f w es)) [
        | inl (x, a) ↦ (err x, rw (cells_lines, a) refl, tt)
        | inr (lines, a) ↦ elim (Result-cases r) [
          | inl (x, b) ↦ (err x, rw (cells_lines, a, e, b) refl, tt)
          | inr (rest, b) ↦ (
            ok (lines ∷ rest),
            rw (cells_lines, a, e, b) refl,
            ap suc (subst (λ x. HasSize (length cs) x) b n),
          )
        ]
      ]

  -- The columns of a validated element are at least one, and their weights do not overflow.
  pub columns_lines-Ends :
      (cs : Columns) (width : ℕ)
      → columns_list cs ≢ []
      → IsLight cs
      → Ends (columns_lines f cs width)
  unfolding columns_lines
  columns_lines-Ends cs width h light =
      let (ws, e, n) = widths (columns_list cs) h light in
      let (r, e', m) = cells_lines-Ends (columns_list cs) ws (omega (arith, n)) in
      elim (Result-cases r) [
        | inl (x, a) ↦ (err x, rw (columns_lines, e, e', a) refl)
        | inr (cells, a) ↦
            let (out, e'') =
              compose_columns-Ends cells ws
                (omega (arith, n, subst (λ x. HasSize (length (columns_list cs)) x) a m)) in
            (ok out, rw (columns_lines, e, e', a, e'') refl)
      ]
    where
      widths :
          (ds : List (ℤ × Elements))
          → ds ≢ []
          → sum (weights_of ds) < 2 ^ 63
          → (ws : List ℕ) × (column_widths (weights_of ds) width (f.measure space) ≡ some ws)
            × (length ws ≡ length ds)
      widths [] q light = absurd (q refl)
      widths ((weight, es) ∷ ds) q light =
          let (ws, e, l) =
            column_widths-length (resolve_size weight) (weights_of ds) width (f.measure space)
              (resolve_size-positive weight) light in
          (ws, e, l ∙ ap suc (length-weights ds))

  item_lines-Ends :
      (kind : Text) (width number : ℕ) (item : ListItem)
      → pos 0 ≤ℤ item.indent
      → Ends (item_lines f kind width number item)
  unfolding item_lines
  item_lines-Ends kind width number item h =
      let (i, e) = indent item.indent h in
      let (hang, e', r) = list_hang_indent-IsPadded f law (i ++ list_marker kind number item) in
      let prefix : Text = i ++ list_marker kind number item in
      (
        hung prefix hang (wrap_text f (content_width width (f.measure prefix)) 1 item.content),
        rw (item_lines, e, e') refl,
      )
    where
      indent : (z : ℤ) → pos 0 ≤ℤ z → Ends (indent_of z)
      indent (pos n) q = (replicate (n * list_indent_spaces) 32, refl)
      indent (negsuc n) q = absurd (omega (arith, q))

  items_lines-Ends :
      (kind : Text) (width number : ℕ) (items : List ListItem)
      → All (ItemIsValid kind) items
      → Ends (items_lines f kind width number items)
  unfolding items_lines
  items_lines-Ends kind width number [] h = ([], refl)
  items_lines-Ends kind width number (item ∷ items) h =
      let (lines, e) = item_lines-Ends kind width number item h.0.1.0.0 in
      let (rest, e') = items_lines-Ends kind width (number + 1) items h.1 in
      (lines ++ rest, rw (items_lines, e, e') refl)

  pub list_lines-Ends : (l : ListElement) (width : ℕ) → ListIsValid l → Ends (list_lines f l width)
  unfolding list_lines
  list_lines-Ends l width h = items_lines-Ends l.kind width 1 l.items h.1.1
