-- ===== src/Layout/Columns/Widths.antt =====
-- The widths of the columns: tableColumnWidths and columnWidths share out the whole of the width.
use receiptd.Base.{
  sym, map, Bool-cases, inl, inr, ◌^◌, max, ℕ, zero, suc, ◌+◌, ◌-◌, ◌*◌, ◌/◌, ◌%◌, ◌≤◌, ◌<◌, ◌≡◌,
  refl, ap, ◌∙◌, false, some, List, [], ◌∷◌, arith, ◌==◌, length, length-replicate, length-set, set,
  replicate,
}
use mathlib.Core.Path.{subst}
use receiptd.Base.Int.Small.{int64-small, add_int64-small, sub_int64-small}
use receiptd.Base.Int.{ℤ, pos, negsuc, pos_part, int64, add_int64, sub_int64, div_int64}
use native.Mathlib.Nat.{mul-div-le, div-add-mod, mul-le-mul_right, mul-le-mul_left}
use receiptd.Layout.Columns.{
  sum, column_budget, table_column_widths, shares, assigned, add_to_last, column_widths,
}

sum-replicate : (n b : ℕ) → sum (replicate n b) ≡ n * b
sum-replicate zero b = omega arith
sum-replicate (suc n) b = omega (arith, sum-replicate n b)

-- The last column of `suc k` equal ones grows by `e`.
sum-set_last : (k b e : ℕ) → sum (set (replicate (suc k) b) k (b + e)) ≡ suc k * b + e
sum-set_last zero b e = omega arith
sum-set_last (suc k) b e = omega (arith, sum-set_last k b e)

-- The widths make what the gaps leave of the width, but a dot for each column at least.
abbrev pub IsShare : ℕ → ℕ → ℕ → List ℕ → Type 0
IsShare n width gap ws = (length ws ≡ n) × (sum ws ≡ max n (width - (n - 1) * gap))

budget-IsShare :
    (n width gap : ℕ) (ws : List ℕ)
    → length ws ≡ n
    → sum ws ≡ column_budget n width gap
    → IsShare n width gap ws
unfolding column_budget
budget-IsShare n width gap ws l s = (l, ground (arith, s))

-- A table of at least one column gets widths that share out the width in this way.
pub table_column_widths-IsShare :
    (k width gap : ℕ)
    → (ws : List ℕ) × (table_column_widths (suc k) width gap ≡ some ws)
      × IsShare (suc k) width gap ws
unfolding table_column_widths
table_column_widths-IsShare k width gap =
    let b : ℕ = column_budget (suc k) width gap in
    let base : ℕ = b / suc k in
    (
      set (replicate (suc k) base) k (base + b % suc k),
      refl,
      budget-IsShare (suc k) width gap _
          (length-set (replicate (suc k) base) k (base + b % suc k) ∙ length-replicate (suc k) base)
          (omega (arith, sum-set_last k base (b % suc k), div-add-mod b (suc k))),
    )

column_budget-max :
    (k width gap : ℕ) → column_budget (suc k) width gap ≡ max (suc k) (width - k * gap)
unfolding column_budget
column_budget-max k width gap = ground arith

product_right : (a b : ℕ) → 0 < a → a * b < 2 ^ 63 → b < 2 ^ 63
product_right a b p h =
    let k : 1 * b ≤ a * b = mul-le-mul_right b (omega (arith, p)) in omega (arith, h, k)

product_left : (a b : ℕ) → 0 < b → a * b < 2 ^ 63 → a < 2 ^ 63
product_left a b p h =
    let k : a * 1 ≤ a * b = mul-le-mul_left a (omega (arith, p)) in omega (arith, h, k)

-- A positive total divides.
div_int64-ends : (a : ℤ) (t : ℕ) → (q : ℤ) × (div_int64 a (pos (suc t)) ≡ some q)
unfolding div_int64
div_int64-ends (pos a) t = (_, refl)
div_int64-ends (negsuc a) t = (_, refl)

-- The shares without the bounds of an int.
abbrev whole_shares : ℕ → ℕ → List ℕ → List ℕ
whole_shares budget total [] = []
whole_shares budget total (w ∷ ws) = budget * w / total ∷ whole_shares budget total ws

length-whole_shares : (b t : ℕ) (ws : List ℕ) → length (whole_shares b t ws) ≡ length ws
length-whole_shares b t [] = refl
length-whole_shares b t (w ∷ ws) = ap suc (length-whole_shares b t ws)

-- No more is shared out than there is.
whole_shares-le : (b t : ℕ) (ws : List ℕ) → t * sum (whole_shares b t ws) ≤ b * sum ws
whole_shares-le b t [] = omega arith
whole_shares-le b t (w ∷ ws) = omega (arith, mul-div-le (b * w) t, whole_shares-le b t ws)

sum-whole_shares : (b : ℕ) (ws : List ℕ) → 0 < sum ws → sum (whole_shares b (sum ws) ws) ≤ b
sum-whole_shares b ws p = grind (arith, whole_shares-le b (sum ws) ws)

abbrev as_ints : List ℕ → List ℤ
as_ints = map pos

shares-small :
    (b t : ℕ) (ws : List ℕ)
    → 0 < t
    → b * sum ws < 2 ^ 63
    → shares b (pos t) ws ≡ some (as_ints (whole_shares b t ws))
unfolding shares div_int64
shares-small b t [] p h = refl
shares-small b zero (w ∷ ws) p h = absurd (omega (arith, p))
shares-small b (suc t) (w ∷ ws) p h =
    rw
      (
        shares,
        int64-small (b * w) (omega (arith, h)),
        shares-small b (suc t) ws p (omega (arith, h)),
      )
      refl

assigned-small :
    (a : ℕ) (ws : List ℕ) → a + sum ws < 2 ^ 63 → assigned (pos a) (as_ints ws) ≡ pos (a + sum ws)
unfolding assigned
assigned-small a [] h = ap pos (omega arith)
assigned-small a (w ∷ ws) h =
    rw (assigned, add_int64-small a w (omega (arith, h)))
      (assigned-small (a + w) ws (omega (arith, h)) ∙ ap pos (omega arith))

assigned_all : (ws : List ℕ) → sum ws < 2 ^ 63 → assigned (pos 0) (as_ints ws) ≡ pos (sum ws)
assigned_all ws h = assigned-small 0 ws (omega (arith, h)) ∙ ap pos (omega arith)

-- Adding to the last of at least one.
add_to_last-small :
    (e w : ℕ) (ws : List ℕ)
    → sum (w ∷ ws) + e < 2 ^ 63
    → (vs : List ℕ) × (add_to_last (pos e) (as_ints (w ∷ ws)) ≡ some (as_ints vs))
      × (length vs ≡ suc (length ws))
      × (sum vs ≡ w + sum ws + e)
unfolding add_to_last
add_to_last-small e w [] h =
    ((w + e) ∷ [], rw (add_to_last, add_int64-small w e (omega (arith, h))) refl, refl, omega arith)
add_to_last-small e w (v ∷ ws) h =
    let (vs, q, l, s) = add_to_last-small e v ws (omega (arith, h)) in
    (w ∷ vs, rw (add_to_last, q) refl, ap suc l, omega (arith, s))

as_ints-pos_part : (ws : List ℕ) → map pos_part (as_ints ws) ≡ ws
as_ints-pos_part [] = refl
as_ints-pos_part (w ∷ ws) = ap (λ x. w ∷ x) (as_ints-pos_part ws)

-- Columns of positive weights, at least one, whose sum times what is shared out is less than 2^63, get
-- widths that share out the width in this way.
pub column_widths-IsShare :
    (w : ℕ) (ws : List ℕ) (width gap : ℕ)
    → 0 < w
    → 0 < width
    → max (suc (length ws)) (width - length ws * gap) * sum (w ∷ ws) < 2 ^ 63
    → (vs : List ℕ) × (column_widths (w ∷ ws) width gap ≡ some vs)
      × IsShare (suc (length ws)) width gap vs
unfolding column_widths
column_widths-IsShare w ws width gap p q fits =
    let n : ℕ = suc (length ws) in
    let b : ℕ = column_budget n width gap in
    let t : ℕ = sum (w ∷ ws) in
    let positive : (width == 0) ≡ false = ground (arith, q) in
    let least : b ≡ max n (width - length ws * gap) = column_budget-max (length ws) width gap in
    let fits' : b * t < 2 ^ 63 =
      subst (λ (x : ℕ). x * t < 2 ^ 63) {x = max n (width - length ws * gap)} {y = b} (sym least)
        fits in
    let few : sum (whole_shares b t (w ∷ ws)) ≤ b =
      sum-whole_shares b (w ∷ ws) (omega (arith, p)) in
    let total : t < 2 ^ 63 = product_right b t (omega (arith, least)) fits' in
    let budget : b < 2 ^ 63 = product_left b t (omega (arith, p)) fits' in
    let (vs, e, l, s) =
      add_to_last-small (b - sum (whole_shares b t (w ∷ ws))) (b * w / t) (whole_shares b t ws)
        (omega (arith, few, budget)) in
    (
      vs,
      rw
          (
            column_widths,
            positive,
            int64-small t total,
            shares-small b t (w ∷ ws) (omega (arith, p)) fits',
            assigned_all (whole_shares b t (w ∷ ws)) (omega (arith, few, budget)),
            sub_int64-small b (sum (whole_shares b t (w ∷ ws))) budget few,
            e,
            as_ints-pos_part vs,
          )
          refl,
      budget-IsShare n width gap vs (l ∙ ap suc (length-whole_shares b t ws))
          (omega (arith, s, few)),
    )

-- Whatever the budget: where the weights add up to less than 2^63, and are positive, there is a
-- width for each of at least one column.
shares-length :
    (b t : ℕ) (ws : List ℕ)
    → (vs : List ℤ) × (shares b (pos (suc t)) ws ≡ some vs) × (length vs ≡ length ws)
unfolding shares
shares-length b t [] = ([], refl, refl)
shares-length b t (w ∷ ws) =
    let (vs, e, l) = shares-length b t ws in
    let (v, d) = div_int64-ends (int64 (b * w)) t in (v ∷ vs, rw (shares, d, e) refl, ap suc l)

add_to_last-length :
    (e w : ℤ) (ws : List ℤ)
    → (vs : List ℤ) × (add_to_last e (w ∷ ws) ≡ some vs) × (length vs ≡ suc (length ws))
unfolding add_to_last
add_to_last-length e w [] = (add_int64 w e ∷ [], refl, refl)
add_to_last-length e w (v ∷ ws) =
    let (vs, q, l) = add_to_last-length e v ws in (w ∷ vs, rw (add_to_last, q) refl, ap suc l)

length-pos_parts : (ws : List ℤ) → length (map pos_part ws) ≡ length ws
length-pos_parts [] = refl
length-pos_parts (w ∷ ws) = ap suc (length-pos_parts ws)

pub column_widths-length :
    (w : ℕ) (ws : List ℕ) (width gap : ℕ)
    → 0 < w
    → sum (w ∷ ws) < 2 ^ 63
    → (vs : List ℕ) × (column_widths (w ∷ ws) width gap ≡ some vs) × (length vs ≡ suc (length ws))
unfolding column_widths
column_widths-length w ws width gap p h = elim (Bool-cases (width == 0)) [
  | inl z ↦ (
    replicate (suc (length ws)) 0,
    rw (column_widths, z) refl,
    length-replicate (suc (length ws)) 0,
  )
  | inr z ↦
      shared (sum (w ∷ ws)) (omega (arith, p)) (int64-small (sum (w ∷ ws)) h)
        (column_budget (suc (length ws)) width gap) refl z
]
  where
    shared :
        (t : ℕ)
        → 0 < t
        → int64 (sum (w ∷ ws)) ≡ pos t
        → (b : ℕ) → column_budget (suc (length ws)) width gap ≡ b
        → (width == 0) ≡ false
        → (vs : List ℕ) × (column_widths (w ∷ ws) width gap ≡ some vs)
          × (length vs ≡ suc (length ws))
    shared zero p e b c z = absurd (omega (arith, p))
    shared (suc t) p e b c z =
        last (shares-length (column_budget (suc (length ws)) width gap) t (w ∷ ws))
      where
        last :
            (us : List ℤ) × (shares
                  (column_budget (suc (length ws)) width gap)
                  (pos (suc t))
                  (w ∷ ws)
                ≡ some us)
              × (length us ≡ suc (length ws))
            → (vs : List ℕ) × (column_widths (w ∷ ws) width gap ≡ some vs)
              × (length vs ≡ suc (length ws))
        last ([], d, l) = absurd (omega (arith, l))
        last (u ∷ us, d, l) =
            let budget : ℕ = column_budget (suc (length ws)) width gap in
            let (vs, q, k) =
              add_to_last-length (sub_int64 (pos budget) (assigned (pos 0) (u ∷ us))) u us in
            (map pos_part vs, rw (column_widths, z, e, d, q) refl, length-pos_parts vs ∙ k ∙ l)
