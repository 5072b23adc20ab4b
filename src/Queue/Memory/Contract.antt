-- ===== src/Queue/Memory/Contract.antt =====
-- The in-memory store of internal/queue/store_memory.go as a lawful Store.
use mathlib.Core.Path.{subst}
use receiptd.Base.{
  ℕ, ◌≡◌, inl, inr, refl, Bool, true, Option, none, some, List, [], ◌∷◌, Bool-cases,
}
use receiptd.Base.Text.{Text}
use receiptd.Apperr.{GoError, Kind, Arg, errorf, wrap, is_kind, Result, ok, err, err-injective}
use receiptd.Apperr.Chain.{is_kind-wrap}
use receiptd.Receipt.Validate.{is_empty}
use receiptd.Queue.{Job, failed, is_state, same_logical_request}
use receiptd.Queue.Lowest.{lowest}
use receiptd.Base.Map.{lookup, put}
use receiptd.Queue.Store.{Store, View, Lawful, Refines, claimed}
use receiptd.Queue.Memory.{
  Jobs, save, get, list, next_pending, claim_next_pending, not_pending, not_pending_for, sort_by_id,
  jobs_of, find_by_idempotency_key, resolve, create, enqueue_idempotent, memory_store,
}
use receiptd.Queue.Memory.Laws.{
  IsWell, view, save-Saves, save-IsWell, get-Gets, next_pending-NextPending, claim-Claims,
  claim-IsWell,
}
use receiptd.Queue.Memory.Idempotent.{enqueue_idempotent-Enqueues, enqueue_idempotent-IsWell}
use receiptd.Queue.Memory.Listing.{list-Lists}

unfoldable pub memory_lawful : Lawful memory_store
memory_lawful = record {
  IsWell = IsWell;
  view = view;
  keyed = λ s k j w e. w.keyed k j e;
  save_law = λ j s w. save-Saves j s;
  save_well = save-IsWell;
  get_law = λ id s w. get-Gets id s;
  list_law = list-Lists;
  next_law = next_pending-NextPending;
  claim_law = claim-Claims;
  claim_well = claim-IsWell;
  enqueue_law = enqueue_idempotent-Enqueues;
  enqueue_well = enqueue_idempotent-IsWell;
}

pub no_jobs-IsWell : IsWell []
unfolding lookup
no_jobs-IsWell = record { is_map = tt; keyed = λ k j e. cc }

-- No method fails but for what it is asked: a Get has what is held, and reports what is not held as
-- not found; an EnqueueIdempotent that has drawn an ID is refused as one of validation only.
pub record NeverFails {S : Type 0} (st : Store S) (view : S → View) : Type 0 where
  pub saves : (j : Job) (s : S) → (st.save j s).0 ≡ ok tt
  pub finds : (id : Text) (j : Job) (s : S) → view s id ≡ some j → st.get id s ≡ ok j
  pub misses :
      (id : Text) (s : S)
      → view s id ≡ none
      → (e : GoError) × (st.get id s ≡ err e) × (is_kind e Kind.not_found ≡ true)
  pub lists : (s : S) → (js : List Job) × (st.list s ≡ ok js)
  pub nexts : (s : S) → (o : Option Job) × (st.next_pending s ≡ ok o)
  pub claims :
      (printer : Text) (now : ℕ) (s : S)
      → (o : Option Job) × ((st.claim_next_pending printer now s).0 ≡ ok o)
  pub enqueues :
      (new : Job) (now : ℕ) (id : Text) (s : S) (e : GoError)
      → (st.enqueue_idempotent new now (ok id) s).0 ≡ err e
      → is_kind e Kind.validation ≡ true

resolve-err :
    (i new : Job) (now : ℕ) (s : Jobs) (e : GoError)
    → (resolve i new now s).0 ≡ err e
    → is_kind e Kind.validation ≡ true
unfolding resolve
resolve-err i new now s e = elim (Bool-cases (same_logical_request i new)) [
  | inr p ↦ λ h.
      subst (λ x. is_kind x Kind.validation ≡ true) (err-injective (rw (p, resolve) at h))
        (is_kind-wrap Kind.validation Kind.validation "queue.Store.EnqueueIdempotent" _).0
  | inl p ↦ elim (Bool-cases (is_state i.state failed)) [
    | inl q ↦ λ h. cc (rw (p, q, resolve) at h)
    | inr q ↦ λ h. cc (rw (p, q, resolve) at h)
  ]
]

enqueue-err :
    (new : Job) (now : ℕ) (id : Text) (s : Jobs) (e : GoError)
    → (enqueue_idempotent new now (ok id) s).0 ≡ err e
    → is_kind e Kind.validation ≡ true
unfolding enqueue_idempotent create
enqueue-err new now id s e = elim (Bool-cases (is_empty new.idempotency_key)) [
  | inl p ↦ λ h. cc (rw (p, enqueue_idempotent) at h)
  | inr p ↦ λ h.
      searched (find_by_idempotency_key new.idempotency_key now s) (rw (p, enqueue_idempotent) at h)
]
  where
    searched :
        (r : Option Job)
        → (elim r as (λ o. Result (Job × Bool) × Jobs) [
          | none ↦ create new now (ok id) s
          | some existing ↦ resolve existing new now s
        ]).0
          ≡ err e
        → is_kind e Kind.validation ≡ true
    searched none h = cc h
    searched (some i) h = resolve-err i new now s e h

memory_store-NeverFails : NeverFails memory_store view
unfolding save get list next_pending claim_next_pending
memory_store-NeverFails = record {
  saves = λ j s. refl;
  finds = λ id j s h. rw (get, h) refl;
  misses = λ id s h. (
    wrap Kind.not_found "queue.Store.Get" (some (errorf "job %q not found" (Arg.text id ∷ []))),
    rw (get, h) refl,
    (is_kind-wrap Kind.not_found Kind.not_found "queue.Store.Get"
        (errorf "job %q not found" (Arg.text id ∷ []))).0,
  );
  lists = λ s. (sort_by_id (jobs_of s), refl);
  nexts = λ s. next (lowest not_pending s none);
  claims = λ printer now s. claim now s (lowest (not_pending_for printer) s none);
  enqueues = enqueue-err;
}
  where
    next :
        (o : Option (Text × Job))
        → (r : Option Job) × ((elim o as (λ x. Result (Option Job)) [
          | none ↦ ok none
          | some (k, j) ↦ ok (some j)
        ])
            ≡ ok r)
    next none = (none, refl)
    next (some (k, j)) = (some j, refl)

    claim :
        (now : ℕ) (s : Jobs) (o : Option (Text × Job))
        → (r : Option Job) × ((elim o as (λ x. Result (Option Job) × Jobs) [
          | none ↦ (ok none, s)
          | some (k, j) ↦ (ok (some (claimed now j)), put k (claimed now j) s)
        ]).0
            ≡ ok r)
    claim now s none = (none, refl)
    claim now s (some (k, j)) = (some (claimed now j), refl)

-- Every method of the in-memory store keeps the contract of the Store interface, for the jobs that
-- the map holds under each ID and from the empty map on: what it returns, what the store holds
-- afterwards under every ID, and that each job stays filed once, under its own ID. None of them fails
-- otherwise than asked: a Get answers the job that is held or that none is found, and an
-- EnqueueIdempotent with a fresh ID is refused only as one of validation.
pub memory_store-Refines : Refines memory_store IsWell view [] × NeverFails memory_store view
unfolding memory_lawful
memory_store-Refines = ((memory_lawful, (refl, (refl, no_jobs-IsWell))), memory_store-NeverFails)
