-- ===== src/Queue/Bolt/Methods.antt =====
-- Save, Get, List, NextPending and ClaimNextPending of internal/queue/store_bolt.go keep the contract of the
-- Store interface.
use mathlib.Core.Path.{subst}
use mathlib.Core.Bool.{true≢false}
use receiptd.Base.{
  ℕ, ◌≡◌, ◌↔◌, inl, inr, refl, sym, ap, ◌∙◌, Bool, true, Option, none, some, List, [], ◌∷◌,
  Option-cases, arith,
}
use receiptd.Base.Text.{Text, text_eq_iff}
use receiptd.Apperr.{GoError, Kind, Arg, errorf, is_kind, wrap, Result, ok, err, Result-cases}
use receiptd.Apperr.Chain.{is_kind-wrap}
use receiptd.Queue.{Job}
use receiptd.Queue.Store.{
  View, Saves, Gets, Lists, IsFirst, NoneEligible, IsPending, IsPendingFor, NextPending, Claims,
  claimed,
}
use receiptd.Queue.Bolt.{
  Bbolt, Json, permanently, save, read_job, get, decode_all, list, first_job, is_pending,
  is_pending_for, next_pending, claim_in, claim_next_pending,
}
use receiptd.Queue.Bolt.Reading.{IsBbolt, IsJson, ran, unread, first, first-none, first-IsLowest}
use receiptd.Queue.Bolt.Snapshot.{
  decoded_value, view, IsWell, Snapshot, well-Snapshot, view_of_find,
}
use receiptd.Queue.Bolt.Writes.{After, update-After, put-After, put_job-After, keyed}

module _ {B D : Type 0} (db : Bbolt B D) (json : Json D) (law : IsBbolt db)
    (codec : IsJson json) where
  abbrev v : B → View
  v = view db json

  abbrev Well : B → Type 0
  Well = IsWell db json

  abbrev Saved : Job → B → Result (Unit {0}) → B → Type 0
  Saved j b r after = Saves (v b) j r (v after) × Well after

  pub save-Saved : (j : Job) (b : B) → Well b → Saved j b (save db json j b).0 (save db json j b).1
  unfolding save
  save-Saved j b well = elim (Result-cases (json.marshal j)) [
    | inl (e, p) ↦ rw (save, p) (λ k. refl, well)
    | inr (d, p) ↦
        rw (save, p)
          (update-After db json law codec
            (λ r after.
              Saved j b (permanently (λ e. wrap Kind.permanent "queue.Store.Save" (some e)) r)
                after)
            (λ bucket. elim (db.put j.id d bucket) [ err e ↦ err e | ok after ↦ ok (tt, after) ]) b
            (put-After db json law codec
              (λ r after.
                Saved j b (permanently (λ e. wrap Kind.permanent "queue.Store.Save" (some e)) r)
                  after)
              tt j d b p well (λ after u w. (u, w)) (λ e n. (λ k. refl, well)))
            (λ e n. (λ k. refl, well)))
  ]

  -- A read, whose error is wrapped as permanent.
  look-permanently :
      {A : Type 0} (P : Result A → Type 0) (g : GoError → GoError) (f : B → Result A) (b : B)
      → P (permanently g (f b))
      → ((e : GoError) → P (err (g e)))
      → P (permanently g (db.look f b))
  look-permanently P g f b h q = elim (law.looks f b) [
    | ran e ↦ subst (λ r. P (permanently g r)) (sym e) h
    | unread e n x ↦ subst (λ r. P (permanently g r)) (sym x) (q e)
  ]

  pub list-Lists : (b : B) → Well b → Lists (v b) (list db json b)
  unfolding list
  list-Lists b well =
      let (js, snap) = well-Snapshot db json law b well in
      look-permanently (Lists (v b)) _ (λ bucket. decode_all db json (db.entries bucket)) b
        (subst
          (λ r. Lists (v b) (permanently (λ e. wrap Kind.permanent "queue.Store.List" (some e)) r))
          (sym snap.all) (snap.ordered, snap.held))
        (λ e. tt)

  -- The first job that a test takes, said of the store's view.
  first-IsFirst :
      (test : Job → Bool) (Eligible : Job → Type 0) (b : B) (js : List Job) (j : Job)
      → ((i : Job) → (test i ≡ true) ↔ Eligible i)
      → Well b
      → Snapshot db json b js
      → first test js ≡ some j
      → IsFirst Eligible (v b) j
  first-IsFirst test Eligible b js j t well snap e =
      let low = first-IsLowest test js j snap.ordered e in
      (
        (snap.held j).1 low.listed,
        (
          (t j).0 low.taken,
          λ k i p q.
              let same : i.id ≡ k = keyed db json law codec b k i well p in
              low.lowest i ((snap.held i).0 (ap (v b) same ∙ p)) ((t i).1 q),
        ),
      )

  none-NoneEligible :
      (test : Job → Bool) (Eligible : Job → Type 0) (b : B) (js : List Job)
      → ((i : Job) → (test i ≡ true) ↔ Eligible i)
      → Well b
      → Snapshot db json b js
      → first test js ≡ none
      → NoneEligible Eligible (v b)
  none-NoneEligible test Eligible b js t well snap e k i p q =
      let same : i.id ≡ k = keyed db json law codec b k i well p in
      true≢false (sym ((t i).1 q) ∙ first-none test js i e ((snap.held i).0 (ap (v b) same ∙ p)))

  is_pending_iff : (i : Job) → (is_pending db json i ≡ true) ↔ IsPending i
  is_pending_iff i = (λ h. ground arith, λ h. rw h)

  is_pending_for_iff :
      (printer : Text) (i : Job)
      → (is_pending_for db json printer i ≡ true) ↔ IsPendingFor printer i
  is_pending_for_iff printer i = (
    λ h. (ground arith, ground (arith, text_eq_iff i.printer_name printer)),
    λ h. ground (arith, text_eq_iff i.printer_name printer),
  )

  pub next_pending-NextPending : (b : B) → Well b → NextPending (v b) (next_pending db json b)
  unfolding next_pending
  next_pending-NextPending b well =
      let (js, snap) = well-Snapshot db json law b well in
      look-permanently (NextPending (v b)) _
        (λ bucket. first_job db json (is_pending db json) (db.entries bucket)) b
        (subst
          (λ r.
            NextPending (v b)
              (permanently (λ e. wrap Kind.permanent "queue.Store.NextPending" (some e)) r))
          (sym (snap.firsts (is_pending db json))) (found js snap))
        (λ e. tt)
    where
      found :
          (js : List Job)
          → Snapshot db json b js
          → NextPending (v b) (ok (first (is_pending db json) js))
      found js snap = elim (Option-cases (first (is_pending db json) js)) [
        | inl e ↦
            rw e (none-NoneEligible (is_pending db json) IsPending b js is_pending_iff well snap e)
        | inr (j, e) ↦
            rw e (first-IsFirst (is_pending db json) IsPending b js j is_pending_iff well snap e)
      ]

  abbrev Claimed : Text → ℕ → B → Result (Option Job) → B → Type 0
  Claimed printer now b r after =
      Claims (v b) printer now
        (permanently (λ e. wrap Kind.permanent "queue.Store.ClaimNextPending" (some e)) r) (v after)
      × Well after

  pub claim-Claimed :
      (printer : Text) (now : ℕ) (b : B)
      → Well b
      → Claims
          (v b)
          printer
          now
          (claim_next_pending db json printer now b).0
          (v (claim_next_pending db json printer now b).1)
        × Well (claim_next_pending db json printer now b).1
  unfolding claim_next_pending claim_in
  claim-Claimed printer now b well =
      let (js, snap) = well-Snapshot db json law b well in
      update-After db json law codec (Claimed printer now b) (claim_in db json printer now) b
        (found js snap) (λ e n. (λ k. refl, well))
    where
      test : Job → Bool
      test = is_pending_for db json printer

      found :
          (js : List Job)
          → Snapshot db json b js
          → After db json law codec (Claimed printer now b) b (claim_in db json printer now b)
      found js snap = elim (Option-cases (first test js)) [
        | inl e ↦
            rw (claim_in, snap.firsts test, e)
              (
                (
                  none-NoneEligible test (IsPendingFor printer) b js (is_pending_for_iff printer)
                      well snap e,
                  λ k. refl,
                ),
                well,
              )
        | inr (j, e) ↦
            let low : IsFirst (IsPendingFor printer) (v b) j =
              first-IsFirst test (IsPendingFor printer) b js j (is_pending_for_iff printer) well
                snap e in
            rw (claim_in, snap.firsts test, e)
              (put_job-After db json law codec (Claimed printer now b) (some (claimed now j))
                (claimed now j) b well (λ after u w. ((j, low, refl, u), w))
                (λ e n. (λ k. refl, well)))
      ]

  abbrev absent : Text → GoError
  absent id =
      wrap Kind.not_found "queue.Store.Get" (some (errorf "job %q not found" (Arg.text id ∷ [])))

  pub get-Gets : (id : Text) (b : B) → Well b → Gets (v b) id (get db json id b)
  unfolding get read_job
  get-Gets id b well = elim (law.looks (read_job db json id) b) [
    | unread e n x ↦
        rw (get, x, n Kind.not_found)
          (λ h. absurd (
            true≢false (
              sym h
              ∙ ((is_kind-wrap Kind.permanent Kind.not_found "queue.Store.Get" e).0
                  ∙ (n Kind.not_found)))))
    | ran x ↦ elim (Option-cases (db.find id b)) [
      | inl a ↦
          let missing : is_kind (absent id) Kind.not_found ≡ true =
            (is_kind-wrap Kind.not_found Kind.not_found "queue.Store.Get" _).0 in
          rw (get, x, read_job, a, missing) (λ h. ap (decoded_value db json) a)
      | inr (d, a) ↦
          let (j, (c, p)) = well id d a in
          rw (get, x, read_job, a, c) (view_of_find db json b id d j a c)
    ]
  ]
