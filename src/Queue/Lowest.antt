-- ===== src/Queue/Lowest.antt =====
-- The scan for the job with the lowest ID, which NextPending and ClaimNextPending of
-- internal/queue/store_memory.go run over the entries of the map.
use mathlib.Core.Path.{subst}
use mathlib.Core.Option.{some-injective}
use receiptd.Base.{
  ◌≡◌, refl, ◌⊎◌, inl, inr, Bool, true, false, Option, none, some, [], ◌∷◌, arith, if◌then◌else◌,
  Bool-cases,
}
use receiptd.Base.Text.{
  Text, text_ltb, text_eq, text_ltb-false_trans, text_ltb-false_of_lt, text_ltb_irrefl,
}
use receiptd.Base.Map.{Map, lookup, IsMap, lookup_head, lookup_tail}
use receiptd.Queue.{Job}

-- `if next == nil || j.ID < next.ID { next = j }`; the key stands for the pointer into the map.
unfoldable pub consider : Text × Job → Option (Text × Job) → Option (Text × Job)
consider e none = some e
consider e (some n) = if text_ltb e.1.id n.1.id then some e else some n

unfoldable pub lowest : (Job → Bool) → Map Job → Option (Text × Job) → Option (Text × Job)
unfolding consider
lowest skip [] next = next
lowest skip (e ∷ m) next = lowest skip m (if skip e.1 then next else consider e next)

module _ (skip : Job → Bool) where
  abbrev Below : Map Job → Job → Type 0
  Below m j =
      (k : Text) (i : Job) → lookup k m ≡ some i → skip i ≡ false → text_ltb i.id j.id ≡ false

  -- Nothing is selected: every entry is skipped.
  abbrev pub NoneOf : Map Job → Type 0
  NoneOf m = (k : Text) (i : Job) → lookup k m ≡ some i → skip i ≡ true

  -- `e` is an entry that is not skipped, and no such entry has a lower ID.
  abbrev pub IsLowest : Map Job → Text × Job → Type 0
  IsLowest m e = (lookup e.0 m ≡ some e.1) × ((skip e.1 ≡ false) × Below m e.1)

  abbrev Selects : Map Job → Option (Text × Job) → Option (Text × Job) → Type 0
  Selects m next none = (next ≡ none) × NoneOf m
  Selects m next (some e) =
      ((next ≡ some e) ⊎ ((lookup e.0 m ≡ some e.1) × (skip e.1 ≡ false)))
      × (((n : Text × Job) → next ≡ some n → text_ltb n.1.id e.1.id ≡ false) × Below m e.1)

  Below-cons :
      (k : Text) (j : Job) (m : Map Job) (t : Job)
      → (skip j ≡ false → text_ltb j.id t.id ≡ false)
      → Below m t
      → Below ((k, j) ∷ m) t
  unfolding lookup
  Below-cons k j m t h b key i e s = elim (Bool-cases (text_eq k key)) [
    | inl p ↦ ground (arith, h)
    | inr p ↦ b key i (rw p at e) s
  ]

  NoneOf-cons : (k : Text) (j : Job) (m : Map Job) → skip j ≡ true → NoneOf m → NoneOf ((k, j) ∷ m)
  unfolding lookup
  NoneOf-cons k j m h b key i e = elim (Bool-cases (text_eq k key)) [
    | inl p ↦ ground arith
    | inr p ↦ b key i (rw p at e)
  ]

  -- One more entry in front of the map: skipped, or considered.
  Selects-skip :
      (k : Text) (j : Job) (m : Map Job) (next r : Option (Text × Job))
      → lookup k m ≡ none
      → skip j ≡ true
      → Selects m next r
      → Selects ((k, j) ∷ m) next r
  Selects-skip k j m next none u h s = (s.0, NoneOf-cons k j m h s.1)
  Selects-skip k j m next (some e) u h s = (
    elim s.0 [ inl p ↦ inl p | inr p ↦ inr (lookup_tail k e.0 j e.1 m u p.0, p.1) ],
    (s.1.0, Below-cons k j m e.1 (λ f. cc) s.1.1),
  )

  Entry : Map Job → Text × Job → Type 0
  Entry m e = (lookup e.0 m ≡ some e.1) × (skip e.1 ≡ false)

  -- What the scan of the rest found, where it started from `(k, j)`, or from another entry.
  found_in :
      (k : Text) (j : Job) (m : Map Job) (e : Text × Job)
      → lookup k m ≡ none
      → skip j ≡ false
      → (◌≡◌ {A = Option (Text × Job)} (some (k, j)) (some e)) ⊎ Entry m e
      → Entry ((k, j) ∷ m) e
  unfolding Entry
  found_in k j m e u h (inl p) =
      subst (λ x. (lookup x.0 ((k, j) ∷ m) ≡ some x.1) × (skip x.1 ≡ false)) (some-injective _ _ p)
        (lookup_head k j m, h)
  found_in k j m e u h (inr q) = (lookup_tail k e.0 j e.1 m u q.0, q.1)

  Selects-consider :
      (k : Text) (j : Job) (m : Map Job) (next r : Option (Text × Job))
      → lookup k m ≡ none
      → skip j ≡ false
      → Selects m (consider (k, j) next) r
      → Selects ((k, j) ∷ m) next r
  unfolding consider Entry
  Selects-consider k j m none none u h s = cc (s.0)
  Selects-consider k j m (some n) none u h s = absurd (chosen (text_ltb j.id n.1.id) s.0)
    where
      chosen :
          (b : Bool) → ◌≡◌ {A = Option (Text × Job)} (if b then some (k, j) else some n) none → ⊥
      chosen true e = cc
      chosen false e = cc
  Selects-consider k j m none (some e) u h s = (
    inr (found_in k j m e u h s.0),
    (λ n p. cc, Below-cons k j m e.1 (λ f. s.1.0 (k, j) refl) s.1.1),
  )
  Selects-consider k j m (some n) (some e) u h s = elim (Bool-cases (text_ltb j.id n.1.id)) [
    | inl p ↦
        let t : Selects m (some (k, j)) (some e) = rw p at s in
        (
          inr (found_in k j m e u h t.0),
          (
            λ x q.
                subst (λ y. text_ltb y.1.id e.1.id ≡ false) (some-injective _ _ q)
                  (text_ltb-false_of_lt j.id n.1.id e.1.id p (t.1.0 (k, j) refl)),
            Below-cons k j m e.1 (λ f. t.1.0 (k, j) refl) t.1.1,
          ),
        )
    | inr p ↦
        let t : Selects m (some n) (some e) = rw p at s in
        (
          elim t.0 [ inl q ↦ inl q | inr q ↦ inr (found_in k j m e u h (inr q)) ],
          (
            t.1.0,
            Below-cons k j m e.1 (λ f. text_ltb-false_trans j.id n.1.id e.1.id p (t.1.0 n refl))
                t.1.1,
          ),
        )
  ]

  lowest-Selects :
      (m : Map Job) (next : Option (Text × Job)) → IsMap m → Selects m next (lowest skip m next)
  unfolding lowest lookup
  lowest-Selects [] none u = (refl, λ k i h. cc)
  lowest-Selects [] (some n) u =
      (inl refl, (λ x h. rw (← some-injective _ _ h) (text_ltb_irrefl n.1.id), λ k i h. cc))
  lowest-Selects ((k, j) ∷ m) next u = elim (Bool-cases (skip j)) [
    | inl p ↦ rw p (Selects-skip k j m next (lowest skip m next) u.0 p (lowest-Selects m next u.1))
    | inr p ↦ rw p (
        Selects-consider k j m next (lowest skip m (consider (k, j) next)) u.0 p
          (lowest-Selects m (consider (k, j) next) u.1))
  ]

  -- The scan of a whole map selects its lowest entry that is not skipped, if there is one.
  abbrev pub Chosen : Map Job → Option (Text × Job) → Type 0
  Chosen m none = NoneOf m
  Chosen m (some e) = IsLowest m e

  pub lowest-Chosen : (m : Map Job) → IsMap m → Chosen m (lowest skip m none)
  lowest-Chosen m u = chosen (lowest skip m none) (lowest-Selects m none u)
    where
      chosen : (r : Option (Text × Job)) → Selects m none r → Chosen m r
      chosen none s = s.1
      chosen (some e) s = elim s.0 [ inl p ↦ cc | inr p ↦ (p.0, (p.1, s.1.1)) ]
