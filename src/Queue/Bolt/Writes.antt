-- ===== src/Queue/Bolt/Writes.antt =====
-- A transaction of internal/queue/store_bolt.go, and the write of a job in it.
use mathlib.Core.Path.{subst}
use mathlib.Core.Option.{some-injective}
use receiptd.Base.{◌≡◌, inl, inr, sym, ap, ◌∙◌, some, if◌then◌else◌, Bool-cases}
use receiptd.Base.Text.{Text, text_eq, text_eq_iff}
use receiptd.Apperr.{GoError, Result, ok, err, Result-cases}
use receiptd.Queue.{Job}
use receiptd.Queue.Store.{View, Updated}
use receiptd.Queue.Bolt.{Bbolt, Json, put_job}
use receiptd.Queue.Bolt.Reading.{IsForeign, IsBbolt, IsJson, committed, rolled_back, uncommitted}
use receiptd.Queue.Bolt.Snapshot.{decoded_value, view, IsWell, view_of_find, find_of_view}

module _ {B D : Type 0} (db : Bbolt B D) (json : Json D) (law : IsBbolt db)
    (codec : IsJson json) where
  abbrev v : B → View
  v = view db json

  abbrev Well : B → Type 0
  Well = IsWell db json

  -- What holds after a function inside a transaction.
  abbrev pub After : {A : Type 0} → (Result A → B → Type 0) → B → Result (A × B) → Type 0
  After P b (ok (a, after)) = P (ok a) after
  After P b (err e) = P (err e) b

  pub update-After :
      {A : Type 0} (P : Result A → B → Type 0) (f : B → Result (A × B)) (b : B)
      → After P b (f b)
      → ((e : GoError) → IsForeign e → P (err e) b)
      → P (db.update f b).0 (db.update f b).1
  update-After P f b h g = elim (law.updates f b) [
    | committed a after e o ↦ subst (λ q. P q.0 q.1) (sym o) (subst (After P b) e h)
    | rolled_back e x o ↦ subst (λ q. P q.0 q.1) (sym o) (subst (After P b) x h)
    | uncommitted e n o ↦ subst (λ q. P q.0 q.1) (sym o) (g e n)
  ]

  pub keyed : (b : B) (k : Text) (j : Job) → Well b → v b k ≡ some j → j.id ≡ k
  keyed b k j well e =
      let (d, (a, c)) = find_of_view db json b k j e in
      let (i, (c', p)) = well k d a in ap (λ r. elim r [ ok x ↦ x.id | err x ↦ k ]) (sym c ∙ c') ∙ p

  -- A write of a job.
  put-Updated :
      (j : Job) (d : D) (b after : B)
      → json.marshal j ≡ ok d
      → db.put j.id d b ≡ ok after
      → Well b
      → Updated (v b) j (v after) × Well after
  put-Updated j d b after e p well = (held, filed)
    where
      found : (k : Text) → db.find k after ≡ (if text_eq j.id k then some d else db.find k b)
      found k = law.find_put j.id k d b after p

      held : Updated (v b) j (v after)
      held k = elim (Bool-cases (text_eq j.id k)) [
        | inl a ↦
            view_of_find db json after k d j
              (found k ∙ ap (λ c. if c then some d else db.find k b) a) (codec.round j d e)
            ∙ ap (λ c. if c then some j else v b k) (sym a)
        | inr a ↦
            ap (decoded_value db json) (found k ∙ ap (λ c. if c then some d else db.find k b) a)
            ∙ ap (λ c. if c then some j else v b k) (sym a)
      ]

      filed : Well after
      filed k c q = elim (Bool-cases (text_eq j.id k)) [
        | inl a ↦
            let same : d ≡ c =
              some-injective d c
                (sym (found k ∙ ap (λ c. if c then some d else db.find k b) a) ∙ q) in
            (j, (ap json.unmarshal (sym same) ∙ codec.round j d e, (text_eq_iff j.id k).0 a))
        | inr a ↦ well k c (sym (found k ∙ ap (λ c. if c then some d else db.find k b) a) ∙ q)
      ]

  pub put-After :
      {A : Type 0} (P : Result A → B → Type 0) (a : A) (j : Job) (d : D) (b : B)
      → json.marshal j ≡ ok d
      → Well b
      → ((after : B) → Updated (v b) j (v after) → Well after → P (ok a) after)
      → ((e : GoError) → IsForeign e → P (err e) b)
      → After P b (elim (db.put j.id d b) [ err e ↦ err e | ok b' ↦ ok (a, b') ])
  put-After P a j d b p well h g = elim (Result-cases (db.put j.id d b)) [
    | inl (e, q) ↦ rw q (g e (law.put_error j.id d b e q))
    | inr (after, q) ↦ let r = put-Updated j d b after p q well in rw q (h after r.0 r.1)
  ]

  pub put_job-After :
      {A : Type 0} (P : Result A → B → Type 0) (a : A) (j : Job) (b : B)
      → Well b
      → ((after : B) → Updated (v b) j (v after) → Well after → P (ok a) after)
      → ((e : GoError) → IsForeign e → P (err e) b)
      → After P b (put_job db json a j b)
  unfolding put_job
  put_job-After P a j b well h g = elim (Result-cases (json.marshal j)) [
    | inl (e, p) ↦ rw (put_job, p) (g e (codec.marshal_error j e p))
    | inr (d, p) ↦ rw (put_job, p) (put-After P a j d b p well h g)
  ]
