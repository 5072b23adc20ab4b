-- ===== src/Queue/Memory/Idempotent.antt =====
-- EnqueueIdempotent of internal/queue/store_memory.go has the outcomes of the Store interface.
use receiptd.Base.{
  ℕ, ◌≡◌, inl, inr, refl, sym, Bool, true, false, not, ◌&&◌, Option, none, some, [], ◌∷◌, arith,
  if◌then◌else◌, Bool-cases,
}
use mathlib.Core.Path.{subst}
use mathlib.Core.Option.{some-injective}
use receiptd.Base.Text.{Text, text_eq, text_eq_iff}
use receiptd.Base.Map.{lookup, IsMap, lookup-put, lookup_head, lookup_tail}
use receiptd.Apperr.{Kind, Result, ok, err, wrap}
use receiptd.Apperr.Chain.{is_kind-wrap}
use receiptd.Receipt.Validate.{is_empty}
use receiptd.Queue.{Job, failed, is_state, same_logical_request, idempotency_key_expired}
use receiptd.Queue.Store.{
  IsLive, NoneLive, Enqueues, rejected, returned, reactivated, created, no_id, reactivated_job,
  created_job,
}
use receiptd.Queue.Memory.{Jobs, find_by_idempotency_key, resolve, create, enqueue_idempotent}
use receiptd.Queue.Memory.Laws.{IsWell, view, put-IsWell}

-- The scan finds a live entry under the key, or there is none.
abbrev Matches : Text → ℕ → Job → Type 0
Matches key now j = (j.idempotency_key ≡ key) × (idempotency_key_expired j now ≡ false)

abbrev Found : Text → ℕ → Jobs → Option Job → Type 0
Found key now s none = (k : Text) (j : Job) → lookup k s ≡ some j → ¬ Matches key now j
Found key now s (some e) = (k : Text) × (lookup k s ≡ some e) × Matches key now e

test_of_match :
    (key : Text) (now : ℕ) (j : Job)
    → Matches key now j
    → (text_eq j.idempotency_key key && not (idempotency_key_expired j now)) ≡ true
test_of_match key now j m = ground (arith, text_eq_iff j.idempotency_key key)

find-Found :
    (key : Text) (now : ℕ) (s : Jobs)
    → IsMap s
    → Found key now s (find_by_idempotency_key key now s)
unfolding find_by_idempotency_key lookup
find-Found key now [] u = λ k j h. cc
find-Found key now ((k, j) ∷ m) u =
    split (text_eq j.idempotency_key key && not (idempotency_key_expired j now)) refl
      (find_by_idempotency_key key now m) (find-Found key now m u.1)
  where
    split :
        (b : Bool)
        → (text_eq j.idempotency_key key && not (idempotency_key_expired j now)) ≡ b
        → (r : Option Job) → Found key now m r
        → Found key now ((k, j) ∷ m) (if b then some j else r)
    split true e r f =
        (k, lookup_head k j m, (ground (arith, text_eq_iff j.idempotency_key key), ground arith))
    split false e none f = λ i w h p. elim (Bool-cases (text_eq k i)) [
      | inl q ↦ cc (
        e,
        test_of_match key now j (subst (Matches key now) (sym (some-injective _ _ (rw q at h))) p),
      )
      | inr q ↦ f i w (rw q at h) p
    ]
    split false e (some x) f = (f.0, lookup_tail k f.0 j x m u.0 f.1, f.2)

module _ (new : Job) (now : ℕ) (fresh : Result Text) (s : Jobs) (w : IsWell s) where
  abbrev Outcome : Result (Job × Bool) × Jobs → Type 0
  Outcome o = Enqueues (view s) new now fresh o.0 (view o.1)

  create-Outcome : NoneLive (view s) new now → Outcome (create new now fresh s)
  unfolding create
  create-Outcome h = by_id fresh refl
    where
      by_id : (f : Result Text) → fresh ≡ f → Outcome (create new now f s)
      by_id (err x) e =
          no_id x (wrap Kind.permanent "queue.Store.EnqueueIdempotent" (some x)) h e refl
            (inr ((is_kind-wrap Kind.permanent Kind.permanent "queue.Store.EnqueueIdempotent" x).0))
            (λ k. refl)
      by_id (ok id) e = created id h e refl (λ k. lookup-put id k (created_job now id new) s)

  resolve-Outcome : (e : Job) → IsLive (view s) new now e → Outcome (resolve e new now s)
  unfolding resolve
  resolve-Outcome e live = elim (Bool-cases (same_logical_request e new)) [
    | inr p ↦
        rw (p, resolve)
          (rejected e _ live p refl
            ((is_kind-wrap Kind.validation Kind.validation "queue.Store.EnqueueIdempotent" _).0)
            (λ k. refl))
    | inl p ↦ elim (Bool-cases (is_state e.state failed)) [
      | inl q ↦
          rw (p, q, resolve)
            (reactivated e live p (ground arith) refl
              (λ k. lookup-put e.id k (reactivated_job now e) s))
      | inr q ↦ rw (p, q, resolve) (returned e live p (λ h. ground arith) refl (λ k. refl))
    ]
  ]

  NoneLive-empty : is_empty new.idempotency_key ≡ true → NoneLive (view s) new now
  NoneLive-empty h e l = l.0 (empty new.idempotency_key h)
    where
      empty : (t : Text) → is_empty t ≡ true → t ≡ []
      empty [] p = refl
      empty (b ∷ t) p = cc

  by_search :
      is_empty new.idempotency_key ≡ false
      → (r : Option Job) → Found new.idempotency_key now s r
      → Outcome (elim r as (λ o. Result (Job × Bool) × Jobs) [
        | none ↦ create new now fresh s
        | some existing ↦ resolve existing new now s
      ])
  by_search h none f = create-Outcome (λ e l. f e.id e l.1.0 l.1.1)
  by_search h (some e) f = resolve-Outcome e (
    λ p. nonempty new.idempotency_key h p,
    (subst (λ i. lookup i s ≡ some e) (sym (w.keyed f.0 e f.1)) f.1, f.2),
  )
    where
      nonempty : (t : Text) → is_empty t ≡ false → t ≡ [] → ⊥
      nonempty [] p q = cc
      nonempty (b ∷ t) p q = cc

  -- Whatever the order of the map, `enqueue_idempotent` has one of the outcomes of the contract,
  -- in the circumstances of that outcome.
  pub enqueue_idempotent-Enqueues : Outcome (enqueue_idempotent new now fresh s)
  unfolding enqueue_idempotent
  enqueue_idempotent-Enqueues = elim (Bool-cases (is_empty new.idempotency_key)) [
    | inl p ↦ rw p (create-Outcome (NoneLive-empty p))
    | inr p ↦ rw p (
        by_search p (find_by_idempotency_key new.idempotency_key now s)
          (find-Found new.idempotency_key now s w.is_map))
  ]

create-IsWell :
    (new : Job) (now : ℕ) (fresh : Result Text) (s : Jobs)
    → IsWell s
    → IsWell (create new now fresh s).1
unfolding create
create-IsWell new now (err x) s w = w
create-IsWell new now (ok id) s w = put-IsWell (created_job now id new) s w

resolve-IsWell : (e new : Job) (now : ℕ) (s : Jobs) → IsWell s → IsWell (resolve e new now s).1
unfolding resolve
resolve-IsWell e new now s w = elim (Bool-cases (same_logical_request e new)) [
  | inr p ↦ rw (p, resolve) w
  | inl p ↦ elim (Bool-cases (is_state e.state failed)) [
    | inl q ↦ rw (p, q, resolve) (put-IsWell (reactivated_job now e) s w)
    | inr q ↦ rw (p, q, resolve) w
  ]
]

pub enqueue_idempotent-IsWell :
    (new : Job) (now : ℕ) (fresh : Result Text) (s : Jobs)
    → IsWell s
    → IsWell (enqueue_idempotent new now fresh s).1
unfolding enqueue_idempotent
enqueue_idempotent-IsWell new now fresh s w = elim (Bool-cases (is_empty new.idempotency_key)) [
  | inl p ↦ rw p (create-IsWell new now fresh s w)
  | inr p ↦ rw p (by_search (find_by_idempotency_key new.idempotency_key now s))
]
  where
    by_search :
        (r : Option Job)
        → IsWell
            (elim r as (λ o. Result (Job × Bool) × Jobs) [
              | none ↦ create new now fresh s
              | some existing ↦ resolve existing new now s
            ]).1
    by_search none = create-IsWell new now fresh s w
    by_search (some e) = resolve-IsWell e new now s w
