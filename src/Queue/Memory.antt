-- ===== src/Queue/Memory.antt =====
-- internal/queue/store_memory.go: the store over a map. Each method holds the lock throughout, so
-- it is one step on the entries.
pub mod Laws
pub mod Idempotent
pub mod Listing
pub mod Contract
use receiptd.Base.{
  ℕ, Bool, true, false, not, ◌&&◌, ◌||◌, Option, none, some, List, [], ◌∷◌, map, if◌then◌else◌,
}
use receiptd.Base.Text.{Text, text_eq, text_ltb}
use receiptd.Base.Map.{Map, lookup, put}
use receiptd.Apperr.{GoError, Kind, Arg, errorf, wrap, Result, ok, err}
use receiptd.Receipt.Validate.{is_empty}
use receiptd.Queue.{
  Job, JobState, Message, pending, running, failed, is_state, same_logical_request,
  idempotency_key_expired,
}
use receiptd.Queue.Lowest.{lowest}
use receiptd.Queue.Store.{Store}

abbrev pub Jobs : Type 0
Jobs = Map Job

unfoldable pub save : Job → Jobs → Result (Unit {0}) × Jobs
save j jobs = (ok tt, put j.id j jobs)

unfoldable pub get : Text → Jobs → Result Job
get id jobs = elim (lookup id jobs) [
  | none ↦
      err (
        wrap Kind.not_found "queue.Store.Get" (some (errorf "job %q not found" (Arg.text id ∷ []))))
  | some j ↦ ok j
]

-- sort.Slice by ID. The IDs are distinct, so the order does not depend on the algorithm.
unfoldable pub insert_by_id : Job → List Job → List Job
insert_by_id j [] = j ∷ []
insert_by_id j (i ∷ js) = if text_ltb j.id i.id then j ∷ (i ∷ js) else i ∷ insert_by_id j js

unfoldable pub sort_by_id : List Job → List Job
unfolding insert_by_id
sort_by_id [] = []
sort_by_id (j ∷ js) = insert_by_id j (sort_by_id js)

unfoldable pub jobs_of : Jobs → List Job
jobs_of [] = []
jobs_of ((k, j) ∷ m) = j ∷ jobs_of m

unfoldable pub list : Jobs → Result (List Job)
unfolding sort_by_id jobs_of
list jobs = ok (sort_by_id (jobs_of jobs))

abbrev pub not_pending : Job → Bool
not_pending j = not (is_state j.state pending)

abbrev pub not_pending_for : Text → Job → Bool
not_pending_for printer j = not (is_state j.state pending) || not (text_eq j.printer_name printer)

unfoldable pub next_pending : Jobs → Result (Option Job)
next_pending jobs = elim (lowest not_pending jobs none) [
  | none ↦ ok none
  | some (k, j) ↦ ok (some j)
]

-- `next` points into the map, so the transition is stored where the scan found it.
unfoldable pub claim_next_pending : Text → ℕ → Jobs → Result (Option Job) × Jobs
claim_next_pending printer now jobs = elim (lowest (not_pending_for printer) jobs none) [
  | none ↦ (ok none, jobs)
  | some (k, next) ↦
      let next' : Job = record next { state = running; updated_at = now } in
      (ok (some next'), put k next' jobs)
]

unfoldable pub find_by_idempotency_key : Text → ℕ → Jobs → Option Job
find_by_idempotency_key key now [] = none
find_by_idempotency_key key now ((k, j) ∷ m) =
    if text_eq j.idempotency_key key && not (idempotency_key_expired j now)
    then some j
    else find_by_idempotency_key key now m

abbrev reset : ℕ → Job → Job
reset now existing = record existing {
  state = pending;
  attempts = 0;
  last_error = Message.blank;
  updated_at = now;
}

-- The branch of a live job under the key.
unfoldable pub resolve : Job → Job → ℕ → Jobs → Result (Job × Bool) × Jobs
resolve existing new now jobs =
    if not (same_logical_request existing new)
    then (
      err (
          wrap Kind.validation "queue.Store.EnqueueIdempotent" (
            some (
              errorf "idempotency key %q already used for a different printer or receipt"
                (Arg.text new.idempotency_key ∷ [])))),
      jobs,
    )
    else if is_state existing.state failed
    then (ok (reset now existing, false), put existing.id (reset now existing) jobs)
    else (ok (existing, false), jobs)

-- The branch of a fresh job.
unfoldable pub create : Job → ℕ → Result Text → Jobs → Result (Job × Bool) × Jobs
create new now (err e) jobs =
    (err (wrap Kind.permanent "queue.Store.EnqueueIdempotent" (some e)), jobs)
create new now (ok id) jobs =
    let job : Job = record new { id = id; state = pending; created_at = now; updated_at = now } in
    (ok (job, true), put id job jobs)

unfoldable pub enqueue_idempotent : Job → ℕ → Result Text → Jobs → Result (Job × Bool) × Jobs
unfolding find_by_idempotency_key resolve create
enqueue_idempotent new now fresh jobs =
    if is_empty new.idempotency_key
    then create new now fresh jobs
    else elim (find_by_idempotency_key new.idempotency_key now jobs) [
      | some existing ↦ resolve existing new now jobs
      | none ↦ create new now fresh jobs
    ]

abbrev pub memory_store : Store Jobs
memory_store = record {
  save = save;
  get = get;
  list = list;
  next_pending = next_pending;
  claim_next_pending = claim_next_pending;
  enqueue_idempotent = enqueue_idempotent;
}
