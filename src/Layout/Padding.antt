-- ===== src/Layout/Padding.antt =====
-- The loops of internal/render/layout that pad a text with spaces: alignPad (align.go), padToWidth
-- (table.go) and listHangIndent (list.go).
pub mod Fits
use receiptd.Base.{
  ℕ, zero, suc, ◌-◌, ◌*◌, ◌/◌, Bool, true, false, not, ◌||◌, Option, none, some, List, [], ◌∷◌,
  ◌++◌, leb, ◌==◌, if◌then◌else◌,
}
use receiptd.Base.Text.{Text}
use receiptd.Receipt.Validate.{is_any}
use receiptd.Document.{Font, space}

-- The loop that adds a space as long as the text with it fits the limit, with fuel for its rounds;
-- `none` means that the fuel ran out.
unfoldable pub pad_loop : Font → ℕ → ℕ → ℕ → Text → Option Text
pad_loop f size limit zero s = if leb (f.measure (s ++ space) * size) limit then none else some s
pad_loop f size limit (suc fuel) s = elim (leb (f.measure (s ++ space) * size) limit) [
  | false ↦ some s
  | true ↦ pad_loop f size limit fuel (s ++ space)
]

-- padToWidth. One round for each dot of the width is enough.
unfoldable pub pad_to_width : Font → Text → ℕ → Option Text
pad_to_width f s width = pad_loop f 1 width width s

unfoldable pub list_hang_indent : Font → Text → Option Text
list_hang_indent f prefix = pad_loop f 1 (f.measure prefix) (f.measure prefix) []

-- The room that the prefix may take.
abbrev pub room : Text → ℕ → ℕ
room align available = if is_any ("center" ∷ []) align then available / 2 else available

-- alignPad, at a width of 0 where there is none to keep to.
unfoldable pub align_pad : Font → Text → Text → ℕ → ℕ → Option Text
align_pad f content align width size =
    if not (is_any ("center" ∷ "right" ∷ []) align)
    then some content
    else if width == 0 || leb width (f.measure content * size)
    then some content
    else let limit : ℕ = room align (width - f.measure content * size) in
      elim (pad_loop f size limit limit []) [ none ↦ none | some prefix ↦ some (prefix ++ content) ]
