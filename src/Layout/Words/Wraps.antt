-- ===== src/Layout/Words/Wraps.antt =====
-- wrapParagraph of internal/render/layout/build.go packs the words in order, and each line as full as it
-- can be.
use receiptd.Base.{
  ℕ, ◌*◌, ◌≤◌, ◌<◌, ◌≡◌, ◌≢◌, ◌⊎◌, inl, inr, refl, ap, ◌∙◌, List, [], ◌∷◌, ◌++◌, map, leb, leb→le,
  leb→lt, Bool-cases,
}
use mathlib.Core.List.{append_assoc}
use receiptd.Base.Text.{Text}
use receiptd.Document.{Font}
use receiptd.Layout.Words.{fields, pack, wrap_words, wrap_paragraph}

-- A line of words, with one space between any two.
abbrev pub line_of : Text → List Text → Text
line_of line [] = line
line_of line (w ∷ ws) = line_of (line ++ (32 ∷ w)) ws

-- The words of a line: the first one, and the others.
abbrev pub Line : Type 0
Line = Text × List Text

abbrev pub text_of : Line → Text
text_of (w, ws) = line_of w ws

abbrev pub words_of : List Line → List Text
words_of [] = []
words_of ((w, ws) ∷ ls) = w ∷ (ws ++ words_of ls)

module _ (f : Font) (width size : ℕ) where
  abbrev pub Fits : Text → Type 0
  Fits line = f.measure line * size ≤ width

  -- More than one word on a line only if they fit.
  abbrev pub IsFitting : Line → Type 0
  IsFitting (w, ws) = (ws ≡ []) ⊎ Fits (line_of w ws)

  -- The next line's first word would not have fitted.
  abbrev pub IsFull : Line → List Line → Type 0
  IsFull l [] = Unit
  IsFull l ((w, ws) ∷ ls) = width < f.measure (text_of l ++ (32 ∷ w)) * size

  abbrev pub ArePacked : List Line → Type 0
  ArePacked [] = Unit
  ArePacked (l ∷ ls) = IsFitting l × (IsFull l ls × ArePacked ls)

  -- The lines of these words.
  pub record IsWrapped (words : List Text) (lines : List Text) : Type 0 where
    pub groups : List Line
    pub in_order : words_of groups ≡ words
    pub texts : map text_of groups ≡ lines
    pub packed : ArePacked groups

  line_of-snoc :
      (w v : Text) (ws : List Text) → line_of w (ws ++ (v ∷ [])) ≡ line_of w ws ++ (32 ∷ v)
  line_of-snoc w v [] = refl
  line_of-snoc w v (u ∷ us) = line_of-snoc (w ++ (32 ∷ u)) v us

  -- The line that is being filled is `g`; its first word is that of the first group.
  record Packs (g : Line) (ws : List Text) (lines : List Text) : Type 0 where
    others : List Text
    rest : List Line
    in_order : others ++ words_of rest ≡ g.1 ++ ws
    texts : line_of g.0 others ∷ map text_of rest ≡ lines
    packed : ArePacked ((g.0, others) ∷ rest)

  pack-Packs :
      (g : Line) (ws : List Text) → IsFitting g → Packs g ws (pack f width size (text_of g) ws)
  unfolding pack
  pack-Packs g [] h = record {
    others = g.1;
    rest = [];
    in_order = refl;
    texts = refl;
    packed = (h, (tt, tt));
  }
  pack-Packs g (w ∷ ws) h =
      go (pack-Packs (g.0, g.1 ++ (w ∷ [])) ws) (pack-Packs (w, []) ws (inl refl))
    where
      longer : text_of (g.0, g.1 ++ (w ∷ [])) ≡ text_of g ++ (32 ∷ w)
      longer = line_of-snoc g.0 w g.1

      go :
          (IsFitting (g.0, g.1 ++ (w ∷ []))
            → Packs
                (g.0, g.1 ++ (w ∷ []))
                ws
                (pack f width size (text_of (g.0, g.1 ++ (w ∷ []))) ws))
          → Packs (w, []) ws (pack f width size w ws)
          → Packs g (w ∷ ws) (pack f width size (text_of g) (w ∷ ws))
      go more next = elim (Bool-cases (leb (f.measure (text_of g ++ (32 ∷ w)) * size) width)) [
        | inl p ↦
            let r = more (inr (rw longer (leb→le _ _ p))) in
            rw (pack, p)
              (record {
                others = r.others;
                rest = r.rest;
                in_order = r.in_order ∙ append_assoc g.1 (w ∷ []) ws;
                texts = r.texts ∙ ap (λ t. pack f width size t ws) longer;
                packed = r.packed;
              })
        | inr p ↦
            rw (pack, p)
              (record {
                others = g.1;
                rest = (w, next.others) ∷ next.rest;
                in_order = ap (λ t. g.1 ++ (w ∷ t)) next.in_order;
                texts = ap (λ t. text_of g ∷ t) next.texts;
                packed = (h, (leb→lt _ _ p, next.packed));
              })
      ]

  -- The lines of a paragraph that has words are those words in order, one space between any two on a
  -- line: a line of several words fits the width, and no line could have taken the word after it.
  -- A paragraph without words is one empty line.
  pub wrap_paragraph-IsWrapped :
      (p : Text)
      → ((fields p ≡ []) × (wrap_paragraph f width size p ≡ [] ∷ []))
        ⊎ ((fields p ≢ []) × IsWrapped (fields p) (wrap_paragraph f width size p))
  unfolding wrap_paragraph wrap_words
  wrap_paragraph-IsWrapped p = go (fields p)
    where
      go :
          (ws : List Text)
          → ((ws ≡ []) × (wrap_words f width size ws ≡ [] ∷ []))
            ⊎ ((ws ≢ []) × IsWrapped ws (wrap_words f width size ws))
      go [] = inl (refl, refl)
      go (w ∷ ws) =
          let r = pack-Packs (w, []) ws (inl refl) in
          inr (
            λ e. cc e,
            record {
              groups = (w, r.others) ∷ r.rest;
              in_order = ap (λ t. w ∷ t) r.in_order;
              texts = r.texts;
              packed = r.packed;
            },
          )
