-- ===== src/Layout/Lines.antt =====
-- The elements of internal/render/layout that are laid out as lines of text: tableLines (table.go),
-- columnsLines (columns.go) and listLines (list.go). `none` is a panic, or padding that does not end.
pub mod Ends
use receiptd.Base.{
  ℕ, zero, suc, ◌+◌, ◌-◌, ◌*◌, ◌/◌, ◌%◌, Bool, true, false, Option, none, some, List, [], ◌∷◌, ◌++◌,
  map, ltb, ◌==◌, if◌then◌else◌, length, replicate,
}
use receiptd.Base.Int.{ℤ, pos, negsuc}
use receiptd.Base.Text.{Text, codes}
use receiptd.Apperr.{GoError, errorf, Result, ok, err}
use receiptd.Receipt.{
  Element, Elements, Columns, Table, ListItem, ListElement, text, nil, cons, no_columns, column,
  column_nil,
}
use receiptd.Receipt.Validate.{is_any}
use receiptd.Document.{Font, space, resolve_size}
use receiptd.Layout.Words.{wrap_text}
use receiptd.Layout.Padding.{list_hang_indent}
use receiptd.Layout.Columns.{table_column_widths, column_widths, table_row_lines, compose_columns}

-- strings.Join(row, " ")
abbrev pub join_cells : List Text → Text
join_cells [] = []
join_cells (c ∷ []) = c
join_cells (c ∷ d ∷ cs) = c ++ (32 ∷ join_cells (d ∷ cs))

-- The loop of tableLines over the rows.
unfoldable pub rows_lines : Font → List ℕ → List (List Text) → Option (List Text)
rows_lines f widths [] = some []
rows_lines f widths (row ∷ rows) = elim (table_row_lines f row widths) [
  | none ↦ none
  | some lines ↦ elim (rows_lines f widths rows) [ none ↦ none | some rest ↦ some (lines ++ rest) ]
]

-- tableLines, at a width of 0 where there is none to keep to.
unfoldable pub table_lines : Font → Table → ℕ → Option (List Text)
table_lines f t width =
    if width == 0
    then some (map join_cells (t.headers ∷ t.rows))
    else elim (table_column_widths (length t.headers) width (f.measure space)) [
      | none ↦ none
      | some widths ↦ rows_lines f widths (t.headers ∷ t.rows)
    ]

-- columnLines. The %T is left out of the message.
abbrev unsupported : Result (List Text)
unsupported = err (errorf "column: unsupported element type %T inside a column" [])

unfoldable pub column_lines : Font → ℕ → Elements → Result (List Text)
column_lines f width nil = ok []
column_lines f width (cons (text t) es) = elim (column_lines f width es) [
  | err e ↦ err e
  | ok rest ↦ ok (wrap_text f width 1 t.content ++ rest)
]
column_lines f width (cons e es) = unsupported

abbrev pub columns_list : Columns → List (ℤ × Elements)
columns_list no_columns = []
columns_list (column weight es cs) = (weight, es) ∷ columns_list cs
columns_list (column_nil weight cs) = (weight, nil) ∷ columns_list cs

abbrev pub weights_of : List (ℤ × Elements) → List ℕ
weights_of [] = []
weights_of ((weight, es) ∷ cs) = resolve_size weight ∷ weights_of cs

unfoldable pub cells_lines :
    Font → List (ℤ × Elements) → List ℕ → Option (Result (List (List Text)))
cells_lines f [] widths = some (ok [])
cells_lines f (c ∷ cs) [] = none
cells_lines f ((weight, es) ∷ cs) (w ∷ widths) = elim (column_lines f w es) [
  | err e ↦ some (err e)
  | ok lines ↦ elim (cells_lines f cs widths) [
    | none ↦ none
    | some (err e) ↦ some (err e)
    | some (ok rest) ↦ some (ok (lines ∷ rest))
  ]
]

-- columnsLines, at a width of 0 where there is none to keep to.
unfoldable pub columns_lines : Font → Columns → ℕ → Option (Result (List Text))
columns_lines f cs width =
    elim (column_widths (weights_of (columns_list cs)) width (f.measure space)) [
      | none ↦ none
      | some widths ↦ elim (cells_lines f (columns_list cs) widths) [
        | none ↦ none
        | some (err e) ↦ some (err e)
        | some (ok cells) ↦ elim (compose_columns f cells widths) [
          | none ↦ none
          | some lines ↦ some (ok lines)
        ]
      ]
    ]

-- fmt's %d of a number: its last digit, and before it those of the rest; `fuel` bounds the digits.
unfoldable pub decimal_from : ℕ → ℕ → Text
decimal_from zero n = []
decimal_from (suc fuel) n = elim (ltb n 10) [
  | true ↦ (48 + n) ∷ []
  | false ↦ decimal_from fuel (n / 10) ++ ((48 + n % 10) ∷ [])
]

abbrev pub decimal : ℕ → Text
decimal n = decimal_from (n + 1) n

-- listMarker
unfoldable pub list_marker : Text → ℕ → ListItem → Text
unfolding decimal_from
list_marker kind number item =
    if is_any ("number" ∷ []) kind
    then decimal number ++ codes ". "
    else if is_any ("checkbox" ∷ []) kind
    then if item.checked then codes "[x] " else codes "[ ] "
    else codes "- "

abbrev pub list_indent_spaces : ℕ
list_indent_spaces = 2

-- strings.Repeat(" ", indent*listIndentSpaces), which panics on a negative count.
abbrev pub indent_of : ℤ → Option Text
indent_of (pos n) = some (replicate (n * list_indent_spaces) 32)
indent_of (negsuc n) = none

abbrev pub content_width : ℕ → ℕ → ℕ
content_width width prefix =
    if width == 0 then 0 else if ltb (width - prefix) 1 then 1 else width - prefix

abbrev pub hung : Text → Text → List Text → List Text
hung prefix hang [] = []
hung prefix hang (line ∷ lines) = (prefix ++ line) ∷ map (λ l. hang ++ l) lines

-- The lines of one item.
unfoldable pub item_lines : Font → Text → ℕ → ℕ → ListItem → Option (List Text)
item_lines f kind width number item = elim (indent_of item.indent) [
  | none ↦ none
  | some indent ↦
      let prefix : Text = indent ++ list_marker kind number item in
      elim (list_hang_indent f prefix) [
        | none ↦ none
        | some hang ↦
            some (
              hung prefix hang
                (wrap_text f (content_width width (f.measure prefix)) 1 item.content))
      ]
]

unfoldable pub items_lines : Font → Text → ℕ → ℕ → List ListItem → Option (List Text)
items_lines f kind width number [] = some []
items_lines f kind width number (item ∷ items) = elim (item_lines f kind width number item) [
  | none ↦ none
  | some lines ↦ elim (items_lines f kind width (number + 1) items) [
    | none ↦ none
    | some rest ↦ some (lines ++ rest)
  ]
]

-- listLines, at a width of 0 where there is none to keep to.
unfoldable pub list_lines : Font → ListElement → ℕ → Option (List Text)
list_lines f l width = items_lines f l.kind width 1 l.items
