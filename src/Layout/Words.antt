-- ===== src/Layout/Words.antt =====
-- wrapText and wrapParagraph of internal/render/layout/build.go, with strings.Split and strings.Fields as
-- they use them.
pub mod Wraps
pub mod Within
use receiptd.Base.{
  ℕ, zero, suc, ◌+◌, ◌-◌, ◌*◌, Bool, true, false, ◌&&◌, ◌||◌, List, [], ◌∷◌, ◌++◌, ltb, leb, ◌==◌,
  if◌then◌else◌,
}
use receiptd.Base.Text.{Text}
use receiptd.Document.{Font}

-- strings.Split(content, "\n")
unfoldable pub split_from : Text → Text → List Text
split_from line [] = line ∷ []
split_from line (b ∷ bs) =
    let rest = split_from (if b == 10 then [] else line ++ (b ∷ [])) bs in
    if b == 10 then line ∷ rest else rest

unfoldable pub split_lines : Text → List Text
unfolding split_from
split_lines content = split_from [] content

abbrev is_one_of : List ℕ → ℕ → Bool
is_one_of [] b = false
is_one_of (c ∷ cs) b = b == c || is_one_of cs b

abbrev spaces_1 : List ℕ
spaces_1 = 9 ∷ 10 ∷ 11 ∷ 12 ∷ 13 ∷ 32 ∷ []

-- The white space of Unicode in UTF-8, two bytes and three: U+0085 and U+00A0; U+1680, U+2000 to
-- U+200A, U+2028, U+2029, U+202F, U+205F and U+3000.
abbrev is_space_2 : ℕ → ℕ → Bool
is_space_2 a b = a == 194 && is_one_of (133 ∷ 160 ∷ []) b

abbrev is_space_3 : ℕ → ℕ → ℕ → Bool
is_space_3 a b c =
    (a == 225 && (b == 154 && c == 128))
    || ((a == 226 && (b == 128 && ((leb 128 c && leb c 138) || is_one_of (168 ∷ 169 ∷ 175 ∷ []) c)))
        || ((a == 226 && (b == 129 && c == 159)) || (a == 227 && (b == 128 && c == 128))))

-- How many bytes the white space at the head takes, 0 if there is none.
abbrev space_width : Text → ℕ
space_width [] = 0
space_width (a ∷ []) = if is_one_of spaces_1 a then 1 else 0
space_width (a ∷ b ∷ []) = if is_one_of spaces_1 a then 1 else if is_space_2 a b then 2 else 0
space_width (a ∷ b ∷ c ∷ t) =
    if is_one_of spaces_1 a
    then 1
    else if is_space_2 a b
    then 2
    else if is_space_3 a b c
    then 3
    else 0

abbrev add_word : Text → List Text → List Text
add_word [] words = words
add_word (b ∷ word) words = (b ∷ word) ∷ words

-- strings.Fields: `skip` bytes of white space are still to be passed.
unfoldable pub fields_from : ℕ → Text → Text → List Text
fields_from skip word [] = add_word word []
fields_from (suc skip) word (b ∷ bs) = fields_from skip word bs
fields_from zero word (b ∷ bs) =
    let w = space_width (b ∷ bs) in
    let rest = fields_from (w - 1) (if w == 0 then word ++ (b ∷ []) else []) bs in
    if w == 0 then rest else add_word word rest

unfoldable pub fields : Text → List Text
unfolding fields_from
fields p = fields_from 0 [] p

-- The loop of wrapParagraph.
unfoldable pub pack : Font → ℕ → ℕ → Text → List Text → List Text
pack f width size line [] = line ∷ []
pack f width size line (w ∷ ws) =
    let candidate = line ++ (32 ∷ w) in
    let fits = leb (f.measure candidate * size) width in
    let rest = pack f width size (if fits then candidate else w) ws in
    if fits then rest else line ∷ rest

unfoldable pub wrap_words : Font → ℕ → ℕ → List Text → List Text
wrap_words f width size [] = [] ∷ []
wrap_words f width size (w ∷ ws) = pack f width size w ws

unfoldable pub wrap_paragraph : Font → ℕ → ℕ → Text → List Text
wrap_paragraph f width size p = wrap_words f width size (fields p)

unfoldable pub wrap_all : Font → ℕ → ℕ → List Text → List Text
wrap_all f width size [] = []
wrap_all f width size (p ∷ ps) = wrap_paragraph f width size p ++ wrap_all f width size ps

-- wrapText, at a width of 0 where there is none to keep to.
unfoldable pub wrap_text : Font → ℕ → ℕ → Text → List Text
wrap_text f width size content =
    if width == 0 then split_lines content else wrap_all f width size (split_lines content)
