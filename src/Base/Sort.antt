-- ===== src/Base/Sort.antt =====
-- sort.Slice by a name that the elements have. Where the names are distinct, the order does not
-- depend on the algorithm.
use mathlib.Core.Path.{◌≡◌, refl}
use mathlib.Core.Logic.{◌↔◌, ◌⊎◌, inl, inr}
use mathlib.Core.Bool.{true, false}
use mathlib.Core.List.{List, [], ◌∷◌}
use Prim.Native.Nat.{suc}
use native.Mathlib.Omega.{arith}
use receiptd.Base.Lists.{length}
use receiptd.Base.Tests.{if◌then◌else◌, Bool-cases}
use receiptd.Base.Text.{Text, text_ltb, text_ltb_irrefl, text_ltb-false_of_lt, text_ltb_trans}

module _ {A : Type 0} (name : A → Text) where
  unfoldable pub insert_by : A → List A → List A
  insert_by x [] = x ∷ []
  insert_by x (y ∷ ys) = if text_ltb (name x) (name y) then x ∷ (y ∷ ys) else y ∷ insert_by x ys

  unfoldable pub sort_by : List A → List A
  unfolding insert_by
  sort_by [] = []
  sort_by (x ∷ xs) = insert_by x (sort_by xs)

  -- No element of the list comes before `x`.
  abbrev pub IsLeast : A → List A → Type 0
  IsLeast x [] = Unit
  IsLeast x (y ∷ ys) = (text_ltb (name y) (name x) ≡ false) × IsLeast x ys

  abbrev pub IsSortedBy : List A → Type 0
  IsSortedBy [] = Unit
  IsSortedBy (x ∷ xs) = IsLeast x xs × IsSortedBy xs

abbrev pub In : {A : Type 0} → A → List A → Type 0
In x [] = ⊥
In x (y ∷ ys) = (x ≡ y) ⊎ In x ys

module _ {A : Type 0} (name : A → Text) where
  In-insert : (x y : A) (ys : List A) → In x (insert_by name y ys) ↔ ((x ≡ y) ⊎ In x ys)
  unfolding insert_by
  In-insert x y [] = (λ h. h, λ h. h)
  In-insert x y (z ∷ zs) = elim (Bool-cases (text_ltb (name y) (name z))) [
    | inl p ↦ rw p (λ h. h, λ h. h)
    | inr p ↦ rw p (
      λ h. elim h [
        | inl q ↦ inr (inl q)
        | inr q ↦ elim ((In-insert x y zs).0 q) [ inl r ↦ inl r | inr r ↦ inr (inr r) ]
      ],
      λ h. elim h [
        | inl q ↦ inr ((In-insert x y zs).1 (inl q))
        | inr q ↦ elim q [ inl r ↦ inl r | inr r ↦ inr ((In-insert x y zs).1 (inr r)) ]
      ],
    )
  ]

  pub In-sort : (x : A) (ys : List A) → In x (sort_by name ys) ↔ In x ys
  unfolding sort_by
  In-sort x [] = (λ h. h, λ h. h)
  In-sort x (y ∷ ys) = (
    λ h. elim ((In-insert x y (sort_by name ys)).0 h) [
      | inl p ↦ inl p
      | inr p ↦ inr ((In-sort x ys).0 p)
    ],
    λ h. elim h [
      | inl p ↦ (In-insert x y (sort_by name ys)).1 (inl p)
      | inr p ↦ (In-insert x y (sort_by name ys)).1 (inr ((In-sort x ys).1 p))
    ],
  )

  lower_not : (x y : A) → text_ltb (name x) (name y) ≡ true → text_ltb (name y) (name x) ≡ false
  lower_not x y h = text_ltb-false_of_lt (name x) (name y) (name x) h (text_ltb_irrefl (name x))

  IsLeast-below :
      (x y : A) (ys : List A)
      → text_ltb (name x) (name y) ≡ true
      → IsLeast name y ys
      → IsLeast name x ys
  IsLeast-below x y [] h p = tt
  IsLeast-below x y (z ∷ zs) h p = (
    elim (Bool-cases (text_ltb (name z) (name x))) [
      | inr e ↦ e
      | inl e ↦ cc (text_ltb_trans (name z) (name x) (name y) e h, p.0)
    ],
    IsLeast-below x y zs h p.1,
  )

  IsLeast-insert :
      (x y : A) (ys : List A)
      → text_ltb (name y) (name x) ≡ false
      → IsLeast name x ys
      → IsLeast name x (insert_by name y ys)
  unfolding insert_by
  IsLeast-insert x y [] h p = (h, tt)
  IsLeast-insert x y (z ∷ zs) h p = elim (Bool-cases (text_ltb (name y) (name z))) [
    | inl q ↦ rw q (h, p)
    | inr q ↦ rw q (p.0, IsLeast-insert x y zs h p.1)
  ]

  insert-IsSortedBy :
      (x : A) (ys : List A) → IsSortedBy name ys → IsSortedBy name (insert_by name x ys)
  unfolding insert_by
  insert-IsSortedBy x [] o = (tt, tt)
  insert-IsSortedBy x (y ∷ ys) o = elim (Bool-cases (text_ltb (name x) (name y))) [
    | inl q ↦ rw q ((lower_not x y q, IsLeast-below x y ys q o.0), o)
    | inr q ↦ rw q (IsLeast-insert y x ys q o.0, insert-IsSortedBy x ys o.1)
  ]

  pub sort-IsSortedBy : (xs : List A) → IsSortedBy name (sort_by name xs)
  unfolding sort_by
  sort-IsSortedBy [] = tt
  sort-IsSortedBy (x ∷ xs) = insert-IsSortedBy x (sort_by name xs) (sort-IsSortedBy xs)

  length-insert : (x : A) (xs : List A) → length (insert_by name x xs) ≡ suc (length xs)
  unfolding insert_by
  length-insert x [] = refl
  length-insert x (y ∷ ys) = elim (Bool-cases (text_ltb (name x) (name y))) [
    | inl p ↦ rw p refl
    | inr p ↦ rw p (omega (arith, length-insert x ys))
  ]

  pub length-sort : (xs : List A) → length (sort_by name xs) ≡ length xs
  unfolding sort_by
  length-sort [] = refl
  length-sort (x ∷ xs) = omega (arith, length-insert x (sort_by name xs), length-sort xs)
