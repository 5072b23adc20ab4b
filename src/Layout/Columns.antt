-- ===== src/Layout/Columns.antt =====
-- The columns of internal/render/layout: tableColumnWidths and tableRowLines (table.go), columnWidths and
-- the composition of columnsLines (columns.go). `none` is a panic, or padding that does not end.
pub mod Widths
pub mod Rows
use receiptd.Base.{
  ℕ, zero, suc, ◌+◌, ◌-◌, ◌*◌, ◌/◌, ◌%◌, Bool, true, false, Option, none, some, List, [], ◌∷◌, ◌++◌,
  map, ltb, ◌==◌, max, if◌then◌else◌, length, set, replicate,
}
use receiptd.Base.Int.{ℤ, pos, pos_part, int64, add_int64, sub_int64, div_int64}
use receiptd.Base.Text.{Text}
use receiptd.Document.{Font, space}
use receiptd.Layout.Words.{wrap_text}
use receiptd.Layout.Padding.{pad_to_width}

abbrev pub sum : List ℕ → ℕ
sum [] = 0
sum (x ∷ xs) = x + sum xs

-- What the gaps between `n` columns leave of the width, and a dot for each column at least.
unfoldable pub column_budget : ℕ → ℕ → ℕ → ℕ
column_budget n width gap =
    let budget : ℕ = width - (n - 1) * gap in if ltb budget n then n else budget

-- tableColumnWidths: without columns, a division by zero.
unfoldable pub table_column_widths : ℕ → ℕ → ℕ → Option (List ℕ)
table_column_widths zero width gap = none
table_column_widths (suc k) width gap =
    let budget : ℕ = column_budget (suc k) width gap in
    let base : ℕ = budget / suc k in some (set (replicate (suc k) base) k (base + budget % suc k))

-- The loop over the weights: `budget * w / totalWeight` in 64 bits. A total of 0 is a division by 0.
unfoldable pub shares : ℕ → ℤ → List ℕ → Option (List ℤ)
shares budget total [] = some []
shares budget total (w ∷ ws) =
    let rest = shares budget total ws in
    elim (div_int64 (int64 (budget * w)) total) [
      | none ↦ none
      | some share ↦ elim rest [ none ↦ none | some more ↦ some (share ∷ more) ]
    ]

-- assigned += widths[i]
unfoldable pub assigned : ℤ → List ℤ → ℤ
assigned so_far [] = so_far
assigned so_far (w ∷ ws) = assigned (add_int64 so_far w) ws

-- widths[len(widths)-1] += extra: without columns, an index out of range.
unfoldable pub add_to_last : ℤ → List ℤ → Option (List ℤ)
add_to_last extra [] = none
add_to_last extra (w ∷ []) = some (add_int64 w extra ∷ [])
add_to_last extra (w ∷ v ∷ ws) = elim (add_to_last extra (v ∷ ws)) [
  | none ↦ none
  | some vs ↦ some (w ∷ vs)
]

-- columnWidths, of the columns' resolved weights, at a width of 0 where there is none to keep to. The
-- weights and their products are 64-bit integers, which wrap. To wrapText and padToWidth a negative
-- width is none to keep to, as 0 is, so that it is answered as 0.
unfoldable pub column_widths : List ℕ → ℕ → ℕ → Option (List ℕ)
column_widths weights width gap =
    if width == 0
    then some (replicate (length weights) 0)
    else let budget : ℕ = column_budget (length weights) width gap in
      elim (shares budget (int64 (sum weights)) weights) [
        | none ↦ none
        | some widths ↦
            elim (add_to_last (sub_int64 (pos budget) (assigned (pos 0) widths)) widths) [
              | none ↦ none
              | some ws ↦ some (map pos_part ws)
            ]
      ]

-- Each cell in lines of its column's width: with fewer widths than cells, an index out of range.
unfoldable pub wrap_cells : Font → List Text → List ℕ → Option (List (List Text))
wrap_cells f [] widths = some []
wrap_cells f (cell ∷ cells) [] = none
wrap_cells f (cell ∷ cells) (w ∷ widths) = elim (wrap_cells f cells widths) [
  | none ↦ none
  | some rest ↦ some (wrap_text f w 1 cell ∷ rest)
]

abbrev pub max_lines : List (List Text) → ℕ
max_lines [] = 0
max_lines (col ∷ cols) = max (length col) (max_lines cols)

abbrev pub first_line : List Text → Text
first_line [] = []
first_line (l ∷ ls) = l

abbrev pub other_lines : List Text → List Text
other_lines [] = []
other_lines (l ∷ ls) = ls

-- The padding and the gap after a cell that is not the last one.
abbrev pub padded_cell : Font → Bool → ℕ → Text → Option Text
padded_cell f true width cell = some cell
padded_cell f false width cell = elim (pad_to_width f cell width) [
  | none ↦ none
  | some padded ↦ some (padded ++ space)
]

-- The inner loop, over the lines: `col` has a cell for each of the first of them.
unfoldable pub add_column : Font → Bool → ℕ → List Text → List Text → Option (List Text)
add_column f is_last width [] col = some []
add_column f is_last width (line ∷ lines) col =
    elim (padded_cell f is_last width (first_line col)) [
      | none ↦ none
      | some cell ↦ elim (add_column f is_last width lines (other_lines col)) [
        | none ↦ none
        | some rest ↦ some ((line ++ cell) ∷ rest)
      ]
    ]

abbrev pub is_empty_list {ℓ} : {A : Type ℓ} → List A → Bool
is_empty_list [] = true
is_empty_list (x ∷ xs) = false

-- The outer loop, over the columns.
unfoldable pub add_columns : Font → List (List Text) → List ℕ → List Text → Option (List Text)
add_columns f [] widths lines = some lines
add_columns f (col ∷ cols) [] lines = none
add_columns f (col ∷ cols) (w ∷ widths) lines =
    elim (add_column f (is_empty_list cols) w lines col) [
      | none ↦ none
      | some more ↦ add_columns f cols widths more
    ]

unfoldable pub compose_columns : Font → List (List Text) → List ℕ → Option (List Text)
compose_columns f cols widths = add_columns f cols widths (replicate (max_lines cols) [])

-- tableRowLines
unfoldable pub table_row_lines : Font → List Text → List ℕ → Option (List Text)
table_row_lines f row widths = elim (wrap_cells f row widths) [
  | none ↦ none
  | some cols ↦ compose_columns f cols widths
]
