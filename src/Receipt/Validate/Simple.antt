-- ===== src/Receipt/Validate/Simple.antt =====
-- The Validate methods of the elements that hold no others and need no encoder: text.go, heading.go,
-- divider.go, spacer.go, feed.go, cut.go, asset.go, table.go and list.go of internal/receipt.
use receiptd.Base.{
  ℕ, ◌+◌, not, ◌&&◌, ◌||◌, Option, none, some, List, [], ◌∷◌, ◌++◌, ltb, ◌==◌, if◌then◌else◌,
  length,
}
use receiptd.Base.Int.{ℤ, pos, ltb_ℤ}
use receiptd.Base.Text.{Text, codes}
use receiptd.Base.Utf8.{valid_utf8, contains_any}
use receiptd.Apperr.{GoError, errorf, join_all, Arg, num, int}
use receiptd.Receipt.{TextElement, Divider, Asset, QrCode, Table, ListItem, ListElement}
use receiptd.Receipt.Validate.Limits.{
  RecoveryLevel, is_any, is_empty, require, aligns, max_text_size, max_divider_size, max_feed_lines,
  max_spacer_height_dots, max_list_indent, low, medium, quartile, high,
}

unfoldable pub validate_text : TextElement → Option GoError
validate_text t = require (not (is_empty t.content)) (errorf "text: content is required" []) (
    require (is_any aligns t.align) (errorf "text: invalid align %q" (Arg.text t.align ∷ [])) (
      require (not (ltb_ℤ t.size (pos 0))) (errorf "text: size must not be negative" []) (
        require (not (ltb_ℤ (pos max_text_size) t.size))
          (errorf "text: size must not exceed %d, got %d" (num max_text_size ∷ int t.size ∷ []))
          none)))

unfoldable pub validate_heading : Text → Option GoError
validate_heading content =
    require (not (is_empty content)) (errorf "heading: content is required" []) none

unfoldable pub validate_divider : Divider → Option GoError
validate_divider d =
    require (is_any ("" ∷ "solid" ∷ "dashed" ∷ []) d.style)
      (errorf "divider: invalid style %q" (Arg.text d.style ∷ []))
      (require (not (ltb_ℤ d.size (pos 0))) (errorf "divider: size must not be negative" []) (
        require (not (ltb_ℤ (pos max_divider_size) d.size))
          (errorf "divider: size must not exceed %d, got %d"
            (num max_divider_size ∷ int d.size ∷ []))
          none))

unfoldable pub validate_spacer : ℤ → Option GoError
validate_spacer height =
    require (not (ltb_ℤ height (pos 0)))
      (errorf "spacer: height must be non-negative, got %d" (int height ∷ []))
      (require (not (ltb_ℤ (pos max_spacer_height_dots) height))
        (errorf "spacer: height must not exceed %d dots, got %d"
          (num max_spacer_height_dots ∷ int height ∷ []))
        none)

unfoldable pub validate_feed : ℤ → Option GoError
validate_feed lines =
    require (ltb_ℤ (pos 0) lines) (errorf "feed: lines must be positive, got %d" (int lines ∷ [])) (
      require (not (ltb_ℤ (pos max_feed_lines) lines))
        (errorf "feed: lines must not exceed %d, got %d" (num max_feed_lines ∷ int lines ∷ []))
        none)

unfoldable pub validate_cut : Text → Option GoError
validate_cut mode =
    require (is_any ("" ∷ "full" ∷ "partial" ∷ []) mode)
      (errorf "cut: invalid mode %q" (Arg.text mode ∷ [])) none

unfoldable pub validate_asset : Asset → Option GoError
validate_asset a = require (not (is_empty a.name)) (errorf "asset: name is required" []) (
    require (valid_utf8 a.name) (errorf "asset: name %q is not valid UTF-8" (Arg.text a.name ∷ []))
      (require (not (contains_any a.name (codes "/\\") || is_any ("." ∷ ".." ∷ []) a.name))
        (errorf "asset: invalid name %q" (Arg.text a.name ∷ []))
        (require (is_any aligns a.align) (errorf "asset: invalid align %q" (Arg.text a.align ∷ []))
          (require (not (ltb_ℤ a.width (pos 0))) (errorf "asset: width must not be negative" [])
            none))))

unfoldable pub invalid_header : List Text → Option GoError
invalid_header [] = none
invalid_header (head ∷ rest) =
    require (valid_utf8 head) (errorf "table: header %q is not valid UTF-8" (Arg.text head ∷ []))
      (invalid_header rest)

unfoldable pub invalid_cell : ℕ → List Text → Option GoError → Option GoError
invalid_cell i [] rest = rest
invalid_cell i (c ∷ cs) rest =
    require (valid_utf8 c) (errorf "table: row %d has a cell that is not valid UTF-8" (num i ∷ []))
      (invalid_cell i cs rest)

unfoldable pub invalid_row : ℕ → ℕ → List (List Text) → Option GoError
unfolding invalid_cell
invalid_row width i [] = none
invalid_row width i (row ∷ rows) =
    require (length row == width)
      (errorf "table: row %d has %d columns, want %d (len(headers))"
        (num i ∷ num (length row) ∷ num width ∷ []))
      (invalid_cell i row (invalid_row width (i + 1) rows))

unfoldable pub validate_table : Table → Option GoError
unfolding invalid_header invalid_row
validate_table t = require (ltb 0 (length t.headers)) (errorf "table: headers is required" []) (
    require (ltb 0 (length t.rows)) (errorf "table: at least one row is required" [])
      (elim (invalid_header t.headers) [
        | some e ↦ some e
        | none ↦ invalid_row (length t.headers) 0 t.rows
      ]))

unfoldable pub recovery_level : QrCode → RecoveryLevel
recovery_level q =
    if is_any ("low" ∷ []) q.error_correction
    then low
    else if is_any ("quartile" ∷ []) q.error_correction
    then quartile
    else if is_any ("high" ∷ []) q.error_correction
    then high
    else medium

unfoldable pub invalid_item : Text → ℕ → ListItem → List GoError
invalid_item kind i item =
    (if is_empty item.content
      then errorf "list: item %d: content is required" (num i ∷ []) ∷ []
      else if not (valid_utf8 item.content)
      then errorf "list: item %d: content must be valid UTF-8" (num i ∷ []) ∷ []
      else [])
    ++ ((if ltb_ℤ item.indent (pos 0)
          then errorf "list: item %d: indent must not be negative" (num i ∷ []) ∷ []
          else if ltb_ℤ (pos max_list_indent) item.indent
          then errorf "list: item %d: indent %d exceeds the maximum of %d"
              (num i ∷ int item.indent ∷ num max_list_indent ∷ [])
            ∷ []
          else [])
        ++ (if item.checked && not (is_any ("checkbox" ∷ []) kind)
            then errorf "list: item %d: checked is only valid when kind is %q"
                (num i ∷ Arg.text (codes "checkbox") ∷ [])
              ∷ []
            else []))

unfoldable pub invalid_items : Text → ℕ → List ListItem → List GoError
unfolding invalid_item
invalid_items kind i [] = []
invalid_items kind i (item ∷ items) = invalid_item kind i item ++ invalid_items kind (i + 1) items

unfoldable pub validate_list : ListElement → Option GoError
unfolding invalid_items
validate_list x =
    require (is_any ("" ∷ "bullet" ∷ "number" ∷ "checkbox" ∷ []) x.kind)
      (errorf "list: invalid kind %q" (Arg.text x.kind ∷ []))
      (require (ltb 0 (length x.items)) (errorf "list: at least one item is required" [])
        (join_all (invalid_items x.kind 0 x.items)))
