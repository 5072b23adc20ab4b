-- ===== src/Queue/Bolt/Idempotent.antt =====
-- EnqueueIdempotent of internal/queue/store_bolt.go keeps the contract of the Store interface.
use mathlib.Core.Bool.{true≢false}
use receiptd.Base.{
  ℕ, ◌≡◌, ◌≢◌, ◌↔◌, ◌⊎◌, inl, inr, refl, sym, ◌∙◌, Bool, true, false, some, List, [], ◌∷◌,
  Bool-cases, Option-cases, arith,
}
use receiptd.Base.Text.{Text, text_eq_iff}
use receiptd.Apperr.{GoError, Kind, Arg, errorf, is_kind, wrap, Result, ok, err}
use receiptd.Apperr.Chain.{is_kind-wrap}
use receiptd.Queue.{Job, is_state, idempotency_key_expired, same_logical_request, failed}
use receiptd.Queue.Store.{View}
use receiptd.Queue.Bolt.{Bbolt, Json, permanently}
use receiptd.Queue.Bolt.Reading.{IsForeign, IsBbolt, IsJson, first, first-none, first-IsLowest}
use receiptd.Queue.Bolt.Snapshot.{view, IsWell, Snapshot, well-Snapshot}
use receiptd.Queue.Bolt.Writes.{After, update-After, put_job-After}
use receiptd.Receipt.Validate.{is_empty}
use receiptd.Queue.Bolt.{
  is_live, find_by_idempotency_key, resolve, create, enqueue_in, enqueue_error, enqueue_idempotent,
}
use receiptd.Queue.Store.{
  IsLive, NoneLive, Enqueues, rejected, returned, reactivated, created, no_id, unstored,
  created_job, reactivated_job,
}

module _ {B D : Type 0} (db : Bbolt B D) (json : Json D) (law : IsBbolt db) (codec : IsJson json)
    (new : Job) (now : ℕ) (fresh : Result Text) (b : B) (well : IsWell db json b) where
  abbrev v : B → View
  v = view db json

  abbrev Enqueued : Result (Job × Bool) → B → Type 0
  Enqueued r after =
      Enqueues (v b) new now fresh (permanently (enqueue_error db json) r) (v after)
      × IsWell db json after

  -- An error from outside is permanent, with nothing changed.
  foreign-Enqueued : (e : GoError) → IsForeign e → Enqueued (err e) b
  foreign-Enqueued e n = (
    unstored (enqueue_error db json e) refl
        (rw (n Kind.validation)
          ((is_kind-wrap Kind.permanent Kind.permanent "queue.Store.EnqueueIdempotent" e).0))
        (λ k. refl),
    well,
  )

  enqueue_error-kind :
      (e : GoError)
      → (is_kind (enqueue_error db json e) Kind.validation ≡ true)
        ⊎ (is_kind (enqueue_error db json e) Kind.permanent ≡ true)
  enqueue_error-kind e = elim (Bool-cases (is_kind e Kind.validation)) [
    | inl p ↦ inl (rw (p) p)
    | inr p ↦
        inr (
          rw (p) ((is_kind-wrap Kind.permanent Kind.permanent "queue.Store.EnqueueIdempotent" e).0))
  ]

  abbrev Done : Result ((Job × Bool) × B) → Type 0
  Done = After db json law codec Enqueued b

  create-Done : NoneLive (v b) new now → Done (create db json new now fresh b)
  unfolding create
  create-Done h = by_id fresh refl
    where
      by_id : (r : Result Text) → fresh ≡ r → Done (create db json new now r b)
      by_id (err x) e =
          (no_id x (enqueue_error db json x) h e refl (enqueue_error-kind x) (λ k. refl), well)
      by_id (ok id) e =
          put_job-After db json law codec Enqueued (created_job now id new, true)
            (created_job now id new) b well (λ after u w. (created id h e refl u, w))
            foreign-Enqueued

  abbrev conflict : Job → GoError
  conflict j = wrap Kind.validation "queue.Store.EnqueueIdempotent" (
      some (
        errorf "idempotency key %q already used for a different printer or receipt"
          (Arg.text j.idempotency_key ∷ [])))

  resolve-Done : (e : Job) → IsLive (v b) new now e → Done (resolve db json e new now b)
  unfolding resolve
  resolve-Done e live = elim (Bool-cases (same_logical_request e new)) [
    | inr p ↦
        let clash : is_kind (conflict new) Kind.validation ≡ true =
          (is_kind-wrap Kind.validation Kind.validation "queue.Store.EnqueueIdempotent" _).0 in
        rw (resolve, p)
          (
            rejected e (enqueue_error db json (conflict new)) live p refl (rw (clash) clash)
                (λ k. refl),
            well,
          )
    | inl p ↦ elim (Bool-cases (is_state e.state failed)) [
      | inl q ↦
          rw (resolve, p, q)
            (put_job-After db json law codec Enqueued (reactivated_job now e, false)
              (reactivated_job now e) b well
              (λ after u w. (reactivated e live p (ground arith) refl u, w)) foreign-Enqueued)
      | inr q ↦ rw (resolve, p, q) (returned e live p (λ f. ground arith) refl (λ k. refl), well)
    ]
  ]

  NoneLive-empty : (t : Text) → new.idempotency_key ≡ t → is_empty t ≡ true → NoneLive (v b) new now
  NoneLive-empty [] e h i l = l.0 e
  NoneLive-empty (c ∷ t) e h i l = cc

  ne-nil : (t : Text) → is_empty t ≡ false → t ≢ []
  ne-nil [] h e = cc
  ne-nil (c ∷ t) h e = cc

  abbrev test : Job → Bool
  test = is_live db json new.idempotency_key now

  is_live_iff :
      (i : Job)
      → (test i ≡ true)
        ↔ ((i.idempotency_key ≡ new.idempotency_key) × (idempotency_key_expired i now ≡ false))
  is_live_iff i = (
    λ h. (ground (arith, text_eq_iff i.idempotency_key new.idempotency_key), ground arith),
    λ h. ground (arith, text_eq_iff i.idempotency_key new.idempotency_key),
  )

  by_search :
      (js : List Job)
      → Snapshot db json b js
      → is_empty new.idempotency_key ≡ false
      → Done (enqueue_in db json new now fresh b)
  unfolding enqueue_in find_by_idempotency_key
  by_search js snap h = elim (Option-cases (first test js)) [
    | inl e ↦
        rw (enqueue_in, h, find_by_idempotency_key, snap.firsts test, e)
          (create-Done (λ i l.
            true≢false
              (sym ((is_live_iff i).1 l.1.1) ∙ first-none test js i e ((snap.held i).0 l.1.0))))
    | inr (i, e) ↦
        let low = first-IsLowest test js i snap.ordered e in
        rw (enqueue_in, h, find_by_idempotency_key, snap.firsts test, e)
          (resolve-Done i (
            ne-nil new.idempotency_key h,
            ((snap.held i).1 low.listed, (is_live_iff i).0 low.taken),
          ))
  ]

  pub enqueue_idempotent-Enqueued :
      Enqueues
        (v b)
        new
        now
        fresh
        (enqueue_idempotent db json new now fresh b).0
        (v (enqueue_idempotent db json new now fresh b).1)
      × IsWell db json (enqueue_idempotent db json new now fresh b).1
  unfolding enqueue_idempotent enqueue_in
  enqueue_idempotent-Enqueued =
      update-After db json law codec Enqueued (enqueue_in db json new now fresh) b
        (elim (Bool-cases (is_empty new.idempotency_key)) [
          | inl p ↦ rw (enqueue_in, p) (create-Done (NoneLive-empty new.idempotency_key refl p))
          | inr p ↦ let (js, snap) = well-Snapshot db json law b well in by_search js snap p
        ])
        foreign-Enqueued
