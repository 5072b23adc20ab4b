-- ===== src/Queue/Bolt/Snapshot.antt =====
-- The jobs bucket of internal/queue/store_bolt.go, read: every value in it decodes to a job filed under its own
-- ID, and walking it gives those jobs in the order of their IDs.
use mathlib.Core.Path.{subst}
use mathlib.Core.Option.{some-injective}
use receiptd.Base.{
  ◌≡◌, ◌↔◌, inl, inr, refl, sym, ap, ◌∙◌, Bool, true, false, Option, none, some, List, [], ◌∷◌,
  if◌then◌else◌, Option-cases,
}
use receiptd.Base.Text.{Text, text_ltb}
use receiptd.Apperr.{Result, ok, err}
use receiptd.Queue.{Job}
use receiptd.Queue.Store.{View, InList, IsOrdered, Precedes}
use receiptd.Queue.Bolt.{Bbolt, Json, decode_all, first_job}
use receiptd.Queue.Bolt.Reading.{In, Before, IsSorted, IsBbolt, first}

module _ {B D : Type 0} (db : Bbolt B D) (json : Json D) where
  abbrev decoded : Result Job → Option Job
  decoded (ok j) = some j
  decoded (err e) = none

  abbrev pub decoded_value : Option D → Option Job
  decoded_value none = none
  decoded_value (some d) = decoded (json.unmarshal d)

  -- The job that is held under an ID.
  abbrev pub view : B → View
  view b k = decoded_value (db.find k b)

  abbrev pub Decodes : Text → D → Type 0
  Decodes k d = (j : Job) × ((json.unmarshal d ≡ ok j) × (j.id ≡ k))

  abbrev pub IsWell : B → Type 0
  IsWell b = (k : Text) (d : D) → db.find k b ≡ some d → Decodes k d

  pub view_of_find :
      (b : B) (k : Text) (d : D) (j : Job)
      → db.find k b ≡ some d
      → json.unmarshal d ≡ ok j
      → view b k ≡ some j
  view_of_find b k d j e e' = ap decoded_value e ∙ ap decoded e'

  decoded-some : (r : Result Job) (j : Job) → decoded r ≡ some j → r ≡ ok j
  decoded-some (ok i) j e = ap ok (some-injective i j e)
  decoded-some (err x) j e = cc

  pub find_of_view :
      (b : B) (k : Text) (j : Job)
      → view b k ≡ some j
      → (d : D) × ((db.find k b ≡ some d) × (json.unmarshal d ≡ ok j))
  find_of_view b k j e = elim (Option-cases (db.find k b)) [
    | inl a ↦ cc (ap decoded_value a, e)
    | inr (d, a) ↦ (d, (a, decoded-some (json.unmarshal d) j (sym (ap decoded_value a) ∙ e)))
  ]

  -- The jobs are those of the entries, one for each, in their order.
  Pairs : List (Text × D) → List Job → Type 0
  Pairs [] [] = Unit
  Pairs [] (j ∷ js) = ⊥
  Pairs ((k, d) ∷ es) [] = ⊥
  Pairs ((k, d) ∷ es) (j ∷ js) = ((json.unmarshal d ≡ ok j) × (j.id ≡ k)) × Pairs es js

  Pairs-Precedes :
      (es : List (Text × D)) (js : List Job) (i : Job)
      → Pairs es js
      → Before i.id es
      → Precedes i js
  unfolding Pairs
  Pairs-Precedes [] [] i p q = tt
  Pairs-Precedes [] (j ∷ js) i p q = absurd p
  Pairs-Precedes ((k, d) ∷ es) [] i p q = absurd p
  Pairs-Precedes ((k, d) ∷ es) (j ∷ js) i p q =
      (subst (λ t. text_ltb i.id t ≡ true) (sym p.0.1) q.0, Pairs-Precedes es js i p.1 q.1)

  Pairs-IsOrdered :
      (es : List (Text × D)) (js : List Job) → Pairs es js → IsSorted es → IsOrdered js
  unfolding Pairs
  Pairs-IsOrdered [] [] p s = tt
  Pairs-IsOrdered [] (j ∷ js) p s = absurd p
  Pairs-IsOrdered ((k, d) ∷ es) [] p s = absurd p
  Pairs-IsOrdered ((k, d) ∷ es) (j ∷ js) p s = (
    Pairs-Precedes es js j p.1 (subst (λ t. Before t es) (sym p.0.1) s.0),
    Pairs-IsOrdered es js p.1 s.1,
  )

  InList-Pairs :
      (es : List (Text × D)) (js : List Job) (k : Text) (d : D) (j : Job)
      → Pairs es js
      → In k d es
      → json.unmarshal d ≡ ok j
      → InList j js
  unfolding Pairs
  InList-Pairs [] js k d j p m e = absurd m
  InList-Pairs ((i, c) ∷ es) [] k d j p m e = absurd p
  InList-Pairs ((i, c) ∷ es) (x ∷ js) k d j p (inl q) e =
      inl (some-injective j x (ap decoded (sym e ∙ (ap json.unmarshal q.1 ∙ p.0.0))))
  InList-Pairs ((i, c) ∷ es) (x ∷ js) k d j p (inr m) e = inr (InList-Pairs es js k d j p.1 m e)

  In-Pairs :
      (es : List (Text × D)) (js : List Job) (j : Job)
      → Pairs es js
      → InList j js
      → (d : D) × (In j.id d es × (json.unmarshal d ≡ ok j))
  unfolding Pairs
  In-Pairs [] [] j p m = absurd m
  In-Pairs [] (x ∷ js) j p m = absurd p
  In-Pairs ((i, c) ∷ es) [] j p m = absurd p
  In-Pairs ((i, c) ∷ es) (x ∷ js) j p (inl q) =
      (c, (inl (ap (λ y. y.id) q ∙ p.0.1, refl), p.0.0 ∙ ap ok (sym q)))
  In-Pairs ((i, c) ∷ es) (x ∷ js) j p (inr m) =
      let (d, (n, e)) = In-Pairs es js j p.1 m in (d, (inr n, e))

  -- A walk that decodes every entry.
  record Walks (es : List (Text × D)) (js : List Job) : Type 0 where
    pub pairs : Pairs es js
    pub all : decode_all db json es ≡ ok js
    pub firsts : (test : Job → Bool) → first_job db json test es ≡ ok (first test js)

  if-ok :
      (b : Bool) (j : Job) (o : Option Job)
      → (if b then Result.ok (some j) else ok o) ≡ ok (if b then some j else o)
  if-ok true j o = refl
  if-ok false j o = refl

  entries-Walks :
      (es : List (Text × D))
      → ((k : Text) (d : D) → In k d es → Decodes k d)
      → (js : List Job) × Walks es js
  unfolding Pairs decode_all first_job
  entries-Walks [] h = ([], record { pairs = tt; all = refl; firsts = λ test. refl })
  entries-Walks ((k, d) ∷ es) h =
      let (j, (e, p)) = h k d (inl (refl, refl)) in
      let (js, w) = entries-Walks es (λ i c m. h i c (inr m)) in
      (
        j ∷ js,
        record {
          pairs = ((e, p), w.pairs);
          all = rw (decode_all, e, w.all) refl;
          firsts = λ test. rw (first_job, e, w.firsts test) (if-ok (test j) j (first test js));
        },
      )

  -- What a well-formed bucket holds, as the list of its jobs in the order of their IDs.
  pub record Snapshot (b : B) (js : List Job) : Type 0 where
    pub all : decode_all db json (db.entries b) ≡ ok js
    pub firsts : (test : Job → Bool) → first_job db json test (db.entries b) ≡ ok (first test js)
    pub ordered : IsOrdered js
    pub held : (j : Job) → (view b j.id ≡ some j) ↔ InList j js

  pub well-Snapshot : IsBbolt db → (b : B) → IsWell b → (js : List Job) × Snapshot b js
  well-Snapshot law b well =
      let (js, w) = entries-Walks (db.entries b) (λ k d m. well k d ((law.listed b k d).1 m)) in
      (
        js,
        record {
          all = w.all;
          firsts = w.firsts;
          ordered = Pairs-IsOrdered (db.entries b) js w.pairs (law.sorted b);
          held = λ j. (
            λ e.
                let (d, (a, c)) = find_of_view b j.id j e in
                InList-Pairs (db.entries b) js j.id d j w.pairs ((law.listed b j.id d).0 a) c,
            λ m.
                let (d, (n, c)) = In-Pairs (db.entries b) js j w.pairs m in
                view_of_find b j.id d j ((law.listed b j.id d).1 n) c,
          );
        },
      )
