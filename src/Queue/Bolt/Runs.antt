-- ===== src/Queue/Bolt/Runs.antt =====
-- A bucket in memory, with its keys in order, of which the laws of bbolt hold.
use mathlib.Core.Option.{some-injective}
use mathlib.Core.Path.{subst}
use receiptd.Base.{
  ◌≡◌, inl, inr, refl, sym, ap, ◌∙◌, true, false, some, List, [], ◌∷◌, if◌then◌else◌, Bool-cases,
  arith,
}
use receiptd.Base.Text.{
  Text, text_eq, text_ltb, text_eq_iff, text_ltb_irrefl, text_ltb_trans, text_ltb_total,
}
use receiptd.Base.Map.{lookup}
use receiptd.Apperr.{Result, ok, err}
use receiptd.Queue.{Job}
use receiptd.Queue.Bolt.{Bbolt, Json}
use receiptd.Queue.Bolt.Reading.{
  In, Before, IsSorted, IsBbolt, IsJson, Updates, ran, committed, rolled_back,
}
use receiptd.Queue.Bolt.Snapshot.{IsWell}

abbrev insert : Text → Job → List (Text × Job) → List (Text × Job)
insert k d [] = (k, d) ∷ []
insert k d ((i, e) ∷ es) =
    if text_eq i k
    then (k, d) ∷ es
    else if text_ltb k i
    then (k, d) ∷ ((i, e) ∷ es)
    else (i, e) ∷ insert k d es

lookup-insert :
    (k j : Text) (d : Job) (es : List (Text × Job))
    → lookup j (insert k d es) ≡ (if text_eq k j then some d else lookup j es)
unfolding lookup
lookup-insert k j d [] = refl
lookup-insert k j d ((i, e) ∷ es) =
    ground (arith, text_eq_iff k j, text_eq_iff i k, text_eq_iff i j, lookup-insert k j d es)

Before-insert :
    (h k : Text) (d : Job) (es : List (Text × Job))
    → text_ltb h k ≡ true
    → Before h es
    → Before h (insert k d es)
Before-insert h k d [] p q = (p, tt)
Before-insert h k d ((i, e) ∷ es) p q = elim (Bool-cases (text_eq i k)) [
  | inl a ↦ rw a (p, q.1)
  | inr a ↦ elim (Bool-cases (text_ltb k i)) [
    | inl b ↦ rw (a, b) (p, q)
    | inr b ↦ rw (a, b) (q.0, Before-insert h k d es p q.1)
  ]
]

Before-trans :
    (h k : Text) (es : List (Text × Job)) → text_ltb h k ≡ true → Before k es → Before h es
Before-trans h k [] p q = tt
Before-trans h k ((i, e) ∷ es) p q = (text_ltb_trans h k i p q.0, Before-trans h k es p q.1)

above : (i k : Text) → text_eq i k ≡ false → text_ltb k i ≡ false → text_ltb i k ≡ true
above i k a b = elim (Bool-cases (text_ltb i k)) [
  | inl e ↦ e
  | inr e ↦ cc ((text_eq_iff i k).1 (text_ltb_total i k e b), a)
]

below-ne : (i k : Text) → text_ltb i k ≡ true → text_eq i k ≡ false
below-ne i k h = elim (Bool-cases (text_eq i k)) [
  | inr e ↦ e
  | inl e ↦ cc (subst (λ t. text_ltb t k ≡ true) ((text_eq_iff i k).0 e) h, text_ltb_irrefl k)
]

insert-IsSorted :
    (k : Text) (d : Job) (es : List (Text × Job)) → IsSorted es → IsSorted (insert k d es)
insert-IsSorted k d [] s = (tt, tt)
insert-IsSorted k d ((i, e) ∷ es) s = elim (Bool-cases (text_eq i k)) [
  | inl a ↦ rw a (subst (λ t. Before t es) ((text_eq_iff i k).0 a) s.0, s.1)
  | inr a ↦ elim (Bool-cases (text_ltb k i)) [
    | inl b ↦ rw (a, b) ((b, Before-trans k i es b s.0), s)
    | inr b ↦ rw (a, b) (Before-insert i k d es (above i k a b) s.0, insert-IsSorted k d es s.1)
  ]
]

In-Before :
    (h k : Text) (d : Job) (es : List (Text × Job)) → Before h es → In k d es → text_ltb h k ≡ true
In-Before h k d [] b m = absurd m
In-Before h k d ((i, e) ∷ es) b (inl p) = subst (λ t. text_ltb h t ≡ true) (sym p.0) b.0
In-Before h k d ((i, e) ∷ es) b (inr m) = In-Before h k d es b.1 m

lookup-In : (k : Text) (d : Job) (es : List (Text × Job)) → lookup k es ≡ some d → In k d es
unfolding lookup
lookup-In k d [] e = cc
lookup-In k d ((i, c) ∷ es) e = elim (Bool-cases (text_eq i k)) [
  | inl a ↦ inl (
    sym ((text_eq_iff i k).0 a),
    sym (some-injective c d (ap (λ b. if b then some c else lookup k es) (sym a) ∙ e)),
  )
  | inr a ↦ inr (lookup-In k d es (ap (λ b. if b then some c else lookup k es) (sym a) ∙ e))
]

In-lookup :
    (k : Text) (d : Job) (es : List (Text × Job)) → IsSorted es → In k d es → lookup k es ≡ some d
unfolding lookup
In-lookup k d [] s m = absurd m
In-lookup k d ((i, c) ∷ es) s (inl p) =
    ap (λ b. if b then some c else lookup k es) ((text_eq_iff i k).1 (sym p.0)) ∙ ap some (sym p.1)
In-lookup k d ((i, c) ∷ es) s (inr m) =
    ap (λ b. if b then some c else lookup k es) (below-ne i k (In-Before i k d es s.0 m))
    ∙ In-lookup k d es s.1 m

abbrev Bucket : Type 0
Bucket = (es : List (Text × Job)) × IsSorted es

abbrev ended : {A : Type 0} → Bucket → Result (A × Bucket) → Result A × Bucket
ended b (ok (a, after)) = (ok a, after)
ended b (err e) = (err e, b)

abbrev bucket_db : Bbolt Bucket Job
bucket_db = record {
  find = λ k b. lookup k b.0;
  entries = λ b. b.0;
  put = λ k d b. ok (insert k d b.0, insert-IsSorted k d b.0 b.1);
  look = λ f b. f b;
  update = λ f b. ended b (f b);
}

abbrev plain_json : Json Job
plain_json = record { marshal = λ j. ok j; unmarshal = λ j. ok j }

ended-Updates :
    {A : Type 0} (f : Bucket → Result (A × Bucket)) (b : Bucket) → Updates f b (ended b (f b))
ended-Updates f b = go (f b) refl
  where
    go : (r : Result _) → f b ≡ r → Updates f b (ended b r)
    go (ok (a, after)) e = committed a after e refl
    go (err x) e = rolled_back x e refl

entries_of : Result Bucket → List (Text × Job)
entries_of (ok b) = b.0
entries_of (err e) = []

bucket_db-IsBbolt : IsBbolt bucket_db
unfolding entries_of
bucket_db-IsBbolt = record {
  find_put = λ k j d b after e. ap (lookup j) (sym (ap entries_of e)) ∙ lookup-insert k j d b.0;
  put_error = λ k d b e p. cc;
  sorted = λ b. b.1;
  listed = λ b k d. (lookup-In k d b.0, In-lookup k d b.0 b.1);
  looks = λ f b. ran refl;
  updates = λ f b. ended-Updates f b;
}

plain_json-IsJson : IsJson plain_json
plain_json-IsJson = record { round = λ j d e. sym e; marshal_error = λ j e p. cc }

no_entries-IsWell : IsWell bucket_db plain_json ([], tt)
unfolding lookup
no_entries-IsWell k d e = cc
