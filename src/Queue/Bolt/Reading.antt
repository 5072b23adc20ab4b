-- ===== src/Queue/Bolt/Reading.antt =====
-- What internal/queue/store_bolt.go relies on of bbolt and of the JSON of a job, and what a walk over the
-- bucket then reads.
use mathlib.Core.Path.{subst}
use mathlib.Core.Option.{some-injective}
use mathlib.Core.Bool.{true≢false}
use receiptd.Base.{
  ◌≡◌, ◌↔◌, ◌⊎◌, inl, inr, refl, sym, ap, ◌∙◌, Bool, true, false, Option, none, some, List, [], ◌∷◌,
  if◌then◌else◌, Bool-cases,
}
use receiptd.Base.Text.{Text, text_eq, text_ltb, text_ltb_irrefl, text_ltb_trans}
use receiptd.Apperr.{GoError, Kind, is_kind, Result, ok, err}
use receiptd.Queue.{Job}
use receiptd.Queue.Store.{InList, IsOrdered, Precedes}
use receiptd.Queue.Bolt.{Bbolt, Json}

-- An error from outside the repository is of none of its kinds.
abbrev pub IsForeign : GoError → Type 0
IsForeign e = (k : Kind) → is_kind e k ≡ false

abbrev pub In : {D : Type 0} → Text → D → List (Text × D) → Type 0
In k d [] = ⊥
In k d ((i, e) ∷ es) = ((k ≡ i) × (d ≡ e)) ⊎ In k d es

abbrev pub Before : {D : Type 0} → Text → List (Text × D) → Type 0
Before k [] = Unit
Before k ((i, e) ∷ es) = (text_ltb k i ≡ true) × Before k es

-- The keys ascend.
abbrev pub IsSorted : {D : Type 0} → List (Text × D) → Type 0
IsSorted [] = Unit
IsSorted ((k, d) ∷ es) = Before k es × IsSorted es

-- A read transaction runs the function, or cannot begin.
pub data Looks {A B : Type 0} (f : B → Result A) (b : B) (r : Result A) : Type 0 where
  ran : r ≡ f b → Looks f b r
  unread : (e : GoError) → IsForeign e → r ≡ err e → Looks f b r

-- A write transaction runs the function and commits, or leaves everything as it was: because the function
-- failed, or because the transaction did.
pub data Updates {A B : Type 0} (f : B → Result (A × B)) (b : B) (o : Result A × B) : Type 0 where
  committed : (a : A) (after : B) → f b ≡ ok (a, after) → o ≡ (ok a, after) → Updates f b o
  rolled_back : (e : GoError) → f b ≡ err e → o ≡ (err e, b) → Updates f b o
  uncommitted : (e : GoError) → IsForeign e → o ≡ (err e, b) → Updates f b o

pub record IsBbolt {B D : Type 0} (db : Bbolt B D) : Type 1 where
  pub find_put :
      (k j : Text) (d : D) (b after : B)
      → db.put k d b ≡ ok after
      → db.find j after ≡ (if text_eq k j then some d else db.find j b)
  pub put_error : (k : Text) (d : D) (b : B) (e : GoError) → db.put k d b ≡ err e → IsForeign e
  pub sorted : (b : B) → IsSorted (db.entries b)
  pub listed : (b : B) (k : Text) (d : D) → (db.find k b ≡ some d) ↔ In k d (db.entries b)
  pub looks : {A : Type 0} (f : B → Result A) (b : B) → Looks f b (db.look f b)
  pub updates : {A : Type 0} (f : B → Result (A × B)) (b : B) → Updates f b (db.update f b)

-- A job that is encoded is decoded again, and encoding fails with none of the repository's errors.
pub record IsJson {D : Type 0} (json : Json D) : Type 0 where
  pub round : (j : Job) (d : D) → json.marshal j ≡ ok d → json.unmarshal d ≡ ok j
  pub marshal_error : (j : Job) (e : GoError) → json.marshal j ≡ err e → IsForeign e

abbrev pub first : (Job → Bool) → List Job → Option Job
first test [] = none
first test (j ∷ js) = if test j then some j else first test js

pub first-none :
    (test : Job → Bool) (js : List Job) (i : Job)
    → first test js ≡ none
    → InList i js
    → test i ≡ false
first-none test [] i e m = absurd m
first-none test (j ∷ js) i e m = elim (Bool-cases (test j)) [
  | inl a ↦ absurd (some-ne j (ap (λ b. if b then some j else first test js) (sym a) ∙ e))
  | inr a ↦ elim m [
    | inl p ↦ subst (λ x. test x ≡ false) (sym p) a
    | inr p ↦ first-none test js i (ap (λ b. if b then some j else first test js) (sym a) ∙ e) p
  ]
]
  where
    some-ne : (x : Job) → Option.some x ≡ none → ⊥
    some-ne x q = cc

Precedes-ltb : (j i : Job) (js : List Job) → Precedes j js → InList i js → text_ltb j.id i.id ≡ true
Precedes-ltb j i [] p m = absurd m
Precedes-ltb j i (x ∷ js) p (inl e) = subst (λ y. text_ltb j.id y.id ≡ true) (sym e) p.0
Precedes-ltb j i (x ∷ js) p (inr m) = Precedes-ltb j i js p.1 m

ltb_asym : (s t : Text) → text_ltb s t ≡ true → text_ltb t s ≡ false
ltb_asym s t h = elim (Bool-cases (text_ltb t s)) [
  | inr e ↦ e
  | inl e ↦ cc (text_ltb_trans s t s h e, text_ltb_irrefl s)
]

-- The first job that the test takes is the one with the lowest ID.
pub record IsLowest (test : Job → Bool) (js : List Job) (j : Job) : Type 0 where
  pub listed : InList j js
  pub taken : test j ≡ true
  pub lowest : (i : Job) → InList i js → test i ≡ true → text_ltb i.id j.id ≡ false

pub first-IsLowest :
    (test : Job → Bool) (js : List Job) (j : Job)
    → IsOrdered js
    → first test js ≡ some j
    → IsLowest test js j
first-IsLowest test [] j o e = cc
first-IsLowest test (x ∷ js) j o e = elim (Bool-cases (test x)) [
  | inl a ↦
      let p : x ≡ j =
        some-injective x j (ap (λ b. if b then some x else first test js) (sym a) ∙ e) in
      subst (IsLowest test (x ∷ js)) p (record {
        listed = inl refl;
        taken = a;
        lowest = λ i m t. elim m [
          | inl q ↦ subst (λ y. text_ltb y.id x.id ≡ false) (sym q) (text_ltb_irrefl x.id)
          | inr q ↦ ltb_asym x.id i.id (Precedes-ltb x i js o.0 q)
        ];
      })
  | inr a ↦
      let r =
        first-IsLowest test js j o.1 (ap (λ b. if b then some x else first test js) (sym a) ∙ e) in
      record {
        listed = inr r.listed;
        taken = r.taken;
        lowest = λ i m t. elim m [
          | inl q ↦ absurd (true≢false (sym t ∙ (ap test q ∙ a)))
          | inr q ↦ r.lowest i q t
        ];
      }
]
