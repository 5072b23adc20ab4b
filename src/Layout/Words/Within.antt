-- ===== src/Layout/Words/Within.antt =====
-- The lines of wrapText of internal/render/layout/build.go stay within the width, unless a word does not.
use receiptd.Base.{
  ℕ, ◌*◌, ◌≤◌, ◌<◌, ◌≡◌, inl, inr, sym, ap, false, List, [], ◌∷◌, ◌++◌, map, arith, ◌==◌, All,
  All-append,
}
use mathlib.Core.Path.{subst}
use receiptd.Base.Text.{Text}
use receiptd.Document.{Font, IsFont}
use receiptd.Layout.Words.{fields, split_lines, wrap_paragraph, wrap_all, wrap_text}
use receiptd.Layout.Words.Wraps.{
  Line, text_of, words_of, ArePacked, line_of, wrap_paragraph-IsWrapped,
}

module _ (f : Font) (law : IsFont f) (width size : ℕ) where
  abbrev pub IsWithin : Text → Type 0
  IsWithin t = f.measure t * size ≤ width

  -- No word of the paragraph is wider than the width.
  abbrev pub WordsFit : Text → Type 0
  WordsFit p = All IsWithin (fields p)

  All-drop : (us ws : List Text) → All IsWithin (us ++ ws) → All IsWithin ws
  All-drop [] ws h = h
  All-drop (u ∷ us) ws h = All-drop us ws h.1

  groups-IsWithin :
      (gs : List Line)
      → ArePacked f width size gs
      → All IsWithin (words_of gs)
      → All IsWithin (map text_of gs)
  groups-IsWithin [] p q = tt
  groups-IsWithin ((w, ws) ∷ gs) (inl e, p) q = (
    subst (λ us. IsWithin (line_of w us)) (sym e) q.0,
    groups-IsWithin gs p.1 (All-drop ws (words_of gs) q.1),
  )
  groups-IsWithin ((w, ws) ∷ gs) (inr h, p) q =
      (h, groups-IsWithin gs p.1 (All-drop ws (words_of gs) q.1))

  wrap_paragraph-IsWithin : (p : Text) → WordsFit p → All IsWithin (wrap_paragraph f width size p)
  wrap_paragraph-IsWithin p h = elim (wrap_paragraph-IsWrapped f width size p) [
    | inl e ↦ rw e.1 (omega (arith, ap (λ (t : ℕ). t * size) law.nothing), tt)
    | inr (ne, r) ↦
        subst (λ ls. All IsWithin ls) r.texts
          (groups-IsWithin r.groups r.packed (subst (λ ws. All IsWithin ws) (sym r.in_order) h))
  ]

  wrap_all-IsWithin : (ps : List Text) → All WordsFit ps → All IsWithin (wrap_all f width size ps)
  unfolding wrap_all
  wrap_all-IsWithin [] h = tt
  wrap_all-IsWithin (p ∷ ps) h =
      All-append IsWithin _ _ (wrap_paragraph-IsWithin p h.0) (wrap_all-IsWithin ps h.1)

  -- Where no word is wider than the width, no line is.
  pub wrap_text-IsWithin :
      (content : Text)
      → 0 < width
      → All WordsFit (split_lines content)
      → All IsWithin (wrap_text f width size content)
  unfolding wrap_text
  wrap_text-IsWithin content p h =
      let positive : (width == 0) ≡ false = ground (arith, p) in
      rw positive (wrap_all-IsWithin (split_lines content) h)
