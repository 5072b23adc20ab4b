-- ===== src/Queue/Memory/Listing.antt =====
-- List of internal/queue/store_memory.go: every job once, by ID, whatever the order of the map.
use receiptd.Base.{
  ◌≡◌, ◌↔◌, ◌⊎◌, inl, inr, refl, sym, ap, ◌∙◌, Bool, true, false, some, List, [], ◌∷◌, Bool-cases,
}
use mathlib.Core.Path.{subst, ap₂}
use mathlib.Core.Option.{some-injective}
use receiptd.Base.Text.{Text, text_eq, text_ltb, text_ltb_trans, text_ltb_total, text_ltb_irrefl}
use receiptd.Base.Map.{lookup, IsMap, lookup_head, lookup_tail}
use receiptd.Apperr.{ok}
use receiptd.Queue.{Job}
use receiptd.Queue.Store.{InList, Precedes, IsOrdered, Lists}
use receiptd.Queue.Memory.{Jobs, sort_by_id, insert_by_id, jobs_of, list}
use receiptd.Queue.Memory.Laws.{IsWell, view}

InList-insert : (i j : Job) (js : List Job) → InList i (insert_by_id j js) ↔ ((i ≡ j) ⊎ InList i js)
unfolding insert_by_id
InList-insert i j [] = (λ h. h, λ h. h)
InList-insert i j (x ∷ js) = elim (Bool-cases (text_ltb j.id x.id)) [
  | inl p ↦ rw p (λ h. h, λ h. h)
  | inr p ↦ rw p (
    λ h. elim h [
      | inl q ↦ inr (inl q)
      | inr q ↦ elim ((InList-insert i j js).0 q) [ inl r ↦ inl r | inr r ↦ inr (inr r) ]
    ],
    λ h. elim h [
      | inl q ↦ inr ((InList-insert i j js).1 (inl q))
      | inr q ↦ elim q [ inl r ↦ inl r | inr r ↦ inr ((InList-insert i j js).1 (inr r)) ]
    ],
  )
]

InList-sort : (i : Job) (js : List Job) → InList i (sort_by_id js) ↔ InList i js
unfolding sort_by_id
InList-sort i [] = (λ h. h, λ h. h)
InList-sort i (j ∷ js) = (
  λ h. elim ((InList-insert i j (sort_by_id js)).0 h) [
    | inl p ↦ inl p
    | inr p ↦ inr ((InList-sort i js).0 p)
  ],
  λ h. elim h [
    | inl p ↦ (InList-insert i j (sort_by_id js)).1 (inl p)
    | inr p ↦ (InList-insert i j (sort_by_id js)).1 (inr ((InList-sort i js).1 p))
  ],
)

-- No job of the list has the ID of `j`.
abbrev IsFresh : Job → List Job → Type 0
IsFresh j js = (i : Job) → InList i js → i.id ≡ j.id → ⊥

Precedes-trans :
    (j i : Job) (js : List Job) → text_ltb j.id i.id ≡ true → Precedes i js → Precedes j js
Precedes-trans j i [] h p = tt
Precedes-trans j i (x ∷ js) h p = (text_ltb_trans j.id i.id x.id h p.0, Precedes-trans j i js h p.1)

Precedes-insert :
    (x j : Job) (js : List Job)
    → text_ltb x.id j.id ≡ true
    → Precedes x js
    → Precedes x (insert_by_id j js)
unfolding insert_by_id
Precedes-insert x j [] h p = (h, tt)
Precedes-insert x j (i ∷ js) h p = elim (Bool-cases (text_ltb j.id i.id)) [
  | inl q ↦ rw q (h, p)
  | inr q ↦ rw q (p.0, Precedes-insert x j js h p.1)
]

lower_of_fresh :
    (i j : Job) → (i.id ≡ j.id → ⊥) → text_ltb j.id i.id ≡ false → text_ltb i.id j.id ≡ true
lower_of_fresh i j f q = above (text_ltb i.id j.id) refl
  where
    above : (b : Bool) → text_ltb i.id j.id ≡ b → text_ltb i.id j.id ≡ true
    above true e = e
    above false e = absurd (f (text_ltb_total i.id j.id e q))

IsOrdered-insert :
    (j : Job) (js : List Job) → IsFresh j js → IsOrdered js → IsOrdered (insert_by_id j js)
unfolding insert_by_id
IsOrdered-insert j [] f o = (tt, tt)
IsOrdered-insert j (i ∷ js) f o = elim (Bool-cases (text_ltb j.id i.id)) [
  | inl q ↦ rw q ((q, Precedes-trans j i js q o.0), o)
  | inr q ↦ rw q (
    Precedes-insert i j js (lower_of_fresh i j (f i (inl refl)) q) o.0,
    IsOrdered-insert j js (λ x h. f x (inr h)) o.1,
  )
]

-- In a well-formed store the jobs are those that the view shows.
InList-jobs :
    (s : Jobs) → IsMap s → (i : Job) → InList i (jobs_of s) → (k : Text) × (lookup k s ≡ some i)
unfolding jobs_of
InList-jobs [] u i h = absurd h
InList-jobs ((k, j) ∷ m) u i (inl e) = (k, rw e (lookup_head k j m))
InList-jobs ((k, j) ∷ m) u i (inr h) =
    let r : (k' : Text) × (lookup k' m ≡ some i) = InList-jobs m u.1 i h in
    (r.0, lookup_tail k r.0 j i m u.0 r.1)

jobs-InList : (s : Jobs) (k : Text) (i : Job) → lookup k s ≡ some i → InList i (jobs_of s)
unfolding jobs_of lookup
jobs-InList [] k i h = cc
jobs-InList ((x, j) ∷ m) k i h = elim (Bool-cases (text_eq x k)) [
  | inl p ↦ inl (sym (some-injective _ _ (rw p at h)))
  | inr p ↦ inr (jobs-InList m k i (rw p at h))
]

IsOrdered-sort : (s : Jobs) → IsWell s → IsOrdered (sort_by_id (jobs_of s))
unfolding sort_by_id jobs_of
IsOrdered-sort [] w = tt
IsOrdered-sort ((k, j) ∷ m) w =
    IsOrdered-insert j (sort_by_id (jobs_of m))
      (λ i h e. fresh i ((InList-sort i (jobs_of m)).0 h) e)
      (IsOrdered-sort m (record {
        is_map = w.is_map.1;
        keyed = λ x i h. w.keyed x i (lookup_tail k x j i m w.is_map.0 h);
      }))
  where
    fresh : (i : Job) → InList i (jobs_of m) → i.id ≡ j.id → ⊥
    fresh i h e =
        let r : (x : Text) × (lookup x m ≡ some i) = InList-jobs m w.is_map.1 i h in
        let q : r.0 ≡ k =
          sym (w.keyed r.0 i (lookup_tail k r.0 j i m w.is_map.0 r.1))
          ∙ e
          ∙ w.keyed k j (lookup_head k j m) in
        let h' : lookup k m ≡ some i = subst (λ x. lookup x m ≡ some i) q r.1 in cc

pub list-Lists : (s : Jobs) → IsWell s → Lists (view s) (list s)
unfolding list
list-Lists s w = (
  IsOrdered-sort s w,
  λ j. (
    λ h. (InList-sort j (jobs_of s)).1 (jobs-InList s j.id j h),
    λ h. held j (InList-jobs s w.is_map j ((InList-sort j (jobs_of s)).0 h)),
  ),
)
  where
    held : (j : Job) → ((k : Text) × (lookup k s ≡ some j)) → lookup j.id s ≡ some j
    held j r = subst (λ i. lookup i s ≡ some j) (sym (w.keyed r.0 j r.1)) r.1

not_self : (x : Job) → text_ltb x.id x.id ≡ true → ⊥
not_self x h = cc (text_ltb_irrefl x.id)

Precedes-of : (j i : Job) (js : List Job) → Precedes j js → InList i js → text_ltb j.id i.id ≡ true
Precedes-of j i [] p h = absurd h
Precedes-of j i (x ∷ js) p (inl e) = rw e p.0
Precedes-of j i (x ∷ js) p (inr h) = Precedes-of j i js p.1 h

not_both : (i j : Job) → text_ltb i.id j.id ≡ true → text_ltb j.id i.id ≡ true → ⊥
not_both i j p q = cc (text_ltb_trans i.id j.id i.id p q, text_ltb_irrefl i.id)

same_head :
    (j i : Job) (js is : List Job)
    → Precedes j js
    → Precedes i is
    → (j ≡ i) ⊎ InList j is
    → (i ≡ j) ⊎ InList i js
    → j ≡ i
same_head j i js is p q (inl e) b = e
same_head j i js is p q (inr h) (inl e) = sym e
same_head j i js is p q (inr h) (inr k) =
    absurd (not_both j i (Precedes-of j i js p k) (Precedes-of i j is q h))

-- Two ordered lists with the same members are one.
IsOrdered-ext :
    (js is : List Job)
    → IsOrdered js
    → IsOrdered is
    → ((j : Job) → InList j js ↔ InList j is)
    → js ≡ is
IsOrdered-ext [] [] o q h = refl
IsOrdered-ext [] (i ∷ is) o q h = absurd ((h i).1 (inl refl))
IsOrdered-ext (j ∷ js) [] o q h = absurd ((h j).0 (inl refl))
IsOrdered-ext (j ∷ js) (i ∷ is) o q h =
    let e : j ≡ i = same_head j i js is o.0 q.0 ((h j).0 (inl refl)) ((h i).1 (inl refl)) in
    ap₂ ◌∷◌ e (IsOrdered-ext js is o.1 q.1 (λ x. (fwd e x, back e x)))
  where
    fwd : j ≡ i → (x : Job) → InList x js → InList x is
    fwd e x m = elim ((h x).0 (inr m)) [
      | inl r ↦ absurd (
          not_self x
            (subst (λ y. text_ltb y.id x.id ≡ true) (e ∙ sym r) (Precedes-of j x js o.0 m)))
      | inr r ↦ r
    ]

    back : j ≡ i → (x : Job) → InList x is → InList x js
    back e x m = elim ((h x).1 (inr m)) [
      | inl r ↦ absurd (
          not_self x
            (subst (λ y. text_ltb y.id x.id ≡ true) (sym e ∙ sym r) (Precedes-of i x is q.0 m)))
      | inr r ↦ r
    ]

-- Two well-formed stores that hold the same jobs list them alike, whatever the order of their maps.
pub list_of_view :
    (s t : Jobs) → IsWell s → IsWell t → ((k : Text) → view s k ≡ view t k) → list s ≡ list t
unfolding list
list_of_view s t w u h = ap ok (
    IsOrdered-ext _ _ (IsOrdered-sort s w) (IsOrdered-sort t u) (λ j. (
      λ m. (InList-sort j (jobs_of t)).1 (move s t w h j ((InList-sort j (jobs_of s)).0 m)),
      λ m.
          (InList-sort j (jobs_of s)).1
            (move t s u (λ k. sym (h k)) j ((InList-sort j (jobs_of t)).0 m)),
    )))
  where
    move :
        (s t : Jobs)
        → IsWell s
        → ((k : Text) → view s k ≡ view t k)
        → (j : Job) → InList j (jobs_of s)
        → InList j (jobs_of t)
    move s t w h j m =
        let r : (k : Text) × (lookup k s ≡ some j) = InList-jobs s w.is_map j m in
        jobs-InList t r.0 j (sym (h r.0) ∙ r.1)
