-- ===== src/Layout/Padding/Fits.antt =====
-- Padding ends, and fills the room that there is to less than one space.
use receiptd.Base.{
  ℕ, zero, suc, ◌+◌, ◌-◌, ◌*◌, ◌≤◌, ◌<◌, ◌≡◌, ◌⊎◌, inl, inr, refl, sym, ap, ◌∙◌, true, false, ◌||◌,
  some, [], ◌∷◌, ◌++◌, arith, leb, leb→le, leb→lt, lt→leb, ◌==◌, Bool-cases, replicate,
}
use mathlib.Core.List.{append_assoc, append-nil}
use mathlib.Core.Path.{subst}
use native.Mathlib.Nat.{mul-le-mul_left}
use receiptd.Base.Text.{Text}
use receiptd.Receipt.Validate.{is_any}
use receiptd.Document.{Font, IsFont, space}
use receiptd.Layout.Padding.{pad_loop, pad_to_width, list_hang_indent, room, align_pad}

abbrev pub spaces : ℕ → Text
spaces n = replicate n 32

module _ (f : Font) (law : IsFont f) where
  abbrev pub gap : ℕ
  gap = f.measure space

  pub measure-space : (s : Text) → f.measure (s ++ space) ≡ f.measure s + gap
  measure-space s = omega (arith, law.at_space s [], law.nothing)

  pub measure-spaces : (k : ℕ) (t : Text) → f.measure (spaces k ++ t) ≡ k * gap + f.measure t
  measure-spaces zero t = omega arith
  measure-spaces (suc k) t =
      omega (arith, law.at_space [] (spaces k ++ t), law.nothing, measure-spaces k t)

  -- `out` is `s` with spaces, as many as the limit allows.
  pub record IsPadded (size limit : ℕ) (s out : Text) : Type 0 where
    pub count : ℕ
    pub text : out ≡ s ++ spaces count
    pub measured : f.measure out ≡ f.measure s + count * gap
    pub fits : (count ≡ 0) ⊎ (f.measure out * size ≤ limit)
    pub full : limit < (f.measure out + gap) * size

  IsPadded-more :
      (size limit : ℕ) (s out : Text)
      → f.measure (s ++ space) * size ≤ limit
      → IsPadded size limit (s ++ space) out
      → IsPadded size limit s out
  IsPadded-more size limit s out h p = record {
    count = suc p.count;
    text = p.text ∙ append_assoc s space (spaces p.count);
    measured = omega (arith, p.measured, measure-space s);
    fits = inr (fitting p.fits);
    full = p.full;
  }
    where
      none_added : p.count ≡ 0 → f.measure out ≡ f.measure (s ++ space)
      none_added e =
          let m : p.count * gap ≡ 0 = ap (λ (t : ℕ). t * gap) e ∙ omega arith in
          omega (arith, p.measured)

      fitting : (p.count ≡ 0) ⊎ (f.measure out * size ≤ limit) → f.measure out * size ≤ limit
      fitting (inl e) = rw (none_added e) h
      fitting (inr q) = q

  IsPadded-stop :
      (size limit : ℕ) (s : Text) → limit < f.measure (s ++ space) * size → IsPadded size limit s s
  IsPadded-stop size limit s h = record {
    count = 0;
    text = sym (append-nil s);
    measured = omega arith;
    fits = inl refl;
    full = rw (sym (measure-space s)) h;
  }

  pub pad_loop-IsPadded :
      (size limit fuel : ℕ) (s : Text)
      → 0 < size
      → limit < f.measure s + suc fuel
      → (out : Text) × (pad_loop f size limit fuel s ≡ some out) × IsPadded size limit s out
  unfolding pad_loop
  pad_loop-IsPadded size limit zero s p h =
      let q : limit < f.measure (s ++ space) * size =
        omega (arith, measure-space s, law.gap, mul-le-mul_left (f.measure (s ++ space)) p) in
      (s, rw (pad_loop, lt→leb _ _ q) refl, IsPadded-stop size limit s q)
  pad_loop-IsPadded size limit (suc fuel) s p h =
      go
        (pad_loop-IsPadded size limit fuel (s ++ space) p (omega (arith, measure-space s, law.gap)))
        (Bool-cases (leb (f.measure (s ++ space) * size) limit))
    where
      go :
          (out : Text) × (pad_loop f size limit fuel (s ++ space) ≡ some out)
            × IsPadded size limit (s ++ space) out
          → (leb (f.measure (s ++ space) * size) limit ≡ true)
            ⊎ (leb (f.measure (s ++ space) * size) limit ≡ false)
          → (out : Text) × (pad_loop f size limit (suc fuel) s ≡ some out)
            × IsPadded size limit s out
      go r (inr e) = (s, rw (pad_loop, e) refl, IsPadded-stop size limit s (leb→lt _ _ e))
      go (out, q, r) (inl e) =
          (out, rw (pad_loop, e) q, IsPadded-more size limit s out (leb→le _ _ e) r)

  -- `pad_to_width` ends, adds spaces only, as many as keep the text within the width, so that one more
  -- would exceed it.
  pub pad_to_width-IsPadded :
      (s : Text) (width : ℕ)
      → (out : Text) × (pad_to_width f s width ≡ some out) × IsPadded 1 width s out
  unfolding pad_to_width
  pad_to_width-IsPadded s width = pad_loop-IsPadded 1 width width s (omega arith) (omega arith)

  -- The indent under a marker ends, and is as wide as the marker to less than one space.
  pub list_hang_indent-IsPadded :
      (prefix : Text)
      → (out : Text) × (list_hang_indent f prefix ≡ some out) × IsPadded 1 (f.measure prefix) [] out
  unfolding list_hang_indent
  list_hang_indent-IsPadded prefix =
      pad_loop-IsPadded 1 (f.measure prefix) (f.measure prefix) [] (omega arith)
        (omega (arith, law.nothing))

  -- The content is left as it is, or it stands after spaces, possibly none, that fill what `align`
  -- gives them to less than one space, and stays within the width.
  pub data Aligns (content align : Text) (width size : ℕ) (out : Text) : Type 0 where
    unmoved :
        (is_any ("center" ∷ "right" ∷ []) align ≡ false)
          ⊎ ((width ≡ 0) ⊎ (width ≤ f.measure content * size))
        → out ≡ content
        → Aligns content align width size out
    moved :
        (n : ℕ)
        → is_any ("center" ∷ "right" ∷ []) align ≡ true
        → out ≡ spaces n ++ content
        → n * gap * size ≤ room align (width - f.measure content * size)
        → room align (width - f.measure content * size) < (n * gap + gap) * size
        → f.measure out * size ≤ width
        → Aligns content align width size out

  room-le : (align : Text) (n : ℕ) → room align n ≤ n
  room-le align n = elim (Bool-cases (is_any ("center" ∷ []) align)) [
    | inl p ↦ rw p (omega arith)
    | inr p ↦ rw p (omega arith)
  ]

  -- `align_pad` ends. If the content is to be centered or to stand at the right and there is a width
  -- that it does not fill, it puts as many spaces before the content as go into half of the free room
  -- or the whole of it, none if that is less than a space; the result is within the width. Otherwise
  -- it leaves the content as it is.
  pub align_pad-Aligns :
      (content align : Text) (width size : ℕ)
      → 0 < size
      → (out : Text) × (align_pad f content align width size ≡ some out)
        × Aligns content align width size out
  unfolding align_pad
  align_pad-Aligns content align width size p =
      elim (Bool-cases (is_any ("center" ∷ "right" ∷ []) align)) [
        | inr a ↦ (content, rw (align_pad, a) refl, unmoved (inl a) refl)
        | inl a ↦ elim (Bool-cases (width == 0 || leb width (f.measure content * size))) [
          | inl b ↦ (content, rw (align_pad, a, b) refl, unmoved (inr (no_room width b)) refl)
          | inr b ↦
              let r = pad_loop-IsPadded size limit limit [] p (omega arith) in
              let n : ℕ = r.2.count in
              (
                r.0 ++ content,
                rw (align_pad, a, b, r.1) refl,
                moved n a (ap (λ t. t ++ content) r.2.text) (below r.0 r.2) (above r.0 r.2) (
                    subst (λ t. f.measure (t ++ content) * size ≤ width) (sym r.2.text)
                      (within n (has_room width b) (below r.0 r.2))),
              )
        ]
      ]
    where
      limit : ℕ
      limit = room align (width - f.measure content * size)

      no_room :
          (width : ℕ)
          → (width == 0 || leb width (f.measure content * size)) ≡ true
          → (width ≡ 0) ⊎ (width ≤ f.measure content * size)
      no_room width h = ground (arith, h)

      has_room :
          (width : ℕ)
          → (width == 0 || leb width (f.measure content * size)) ≡ false
          → f.measure content * size < width
      has_room width h = ground (arith, h)

      within :
          (n : ℕ)
          → f.measure content * size < width
          → n * gap * size ≤ limit
          → f.measure (spaces n ++ content) * size ≤ width
      within n q b = omega (
        arith,
        q,
        b,
        ap (λ (t : ℕ). t * size) (measure-spaces n content),
        room-le align (width - f.measure content * size),
      )

      above : (out : Text) (r : IsPadded size limit [] out) → limit < (r.count * gap + gap) * size
      above out r =
          let e : f.measure out ≡ r.count * gap = omega (arith, r.measured, law.nothing) in
          omega (arith, r.full, ap (λ (t : ℕ). (t + gap) * size) e)

      below : (out : Text) (r : IsPadded size limit [] out) → r.count * gap * size ≤ limit
      below out r = go r.fits
        where
          go : (r.count ≡ 0) ⊎ (f.measure out * size ≤ limit) → r.count * gap * size ≤ limit
          go (inl e) = omega (arith, ap (λ (t : ℕ). t * gap * size) e)
          go (inr q) =
              omega (
                arith,
                q,
                ap (λ (t : ℕ). t * size) r.measured,
                ap (λ (t : ℕ). t * size) law.nothing,
              )
