-- ===== src/Queue/Bolt.antt =====
-- internal/queue/store_bolt.go: the store over a bbolt file, with bbolt and the JSON of a job as parameters.
pub mod Reading
pub mod Snapshot
pub mod Writes
pub mod Methods
pub mod Idempotent
pub mod Contract
mod Runs
use receiptd.Base.{
  ℕ, Bool, true, false, not, ◌&&◌, ◌≡◌, ◌⊎◌, Option, none, some, List, [], ◌∷◌, if◌then◌else◌,
}
use receiptd.Base.Text.{Text, text_eq, text_ltb}
use receiptd.Apperr.{GoError, Kind, Arg, errorf, wrap, is_kind, Result, ok, err}
use receiptd.Receipt.Validate.{is_empty}
use receiptd.Queue.{
  Job, JobState, Message, pending, running, failed, is_state, same_logical_request,
  idempotency_key_expired,
}
use receiptd.Queue.Store.{Store}

-- bbolt, with the contents of the jobs bucket as a `B` and a value as a `D`: Bucket.Get, the keys and values
-- in the order of the Cursor and of ForEach, Bucket.Put, and the transactions db.View and db.Update.
pub record Bbolt (B D : Type 0) : Type 1 where
  pub find : Text → B → Option D
  pub entries : B → List (Text × D)
  pub put : Text → D → B → Result B
  pub look : {A : Type 0} → (B → Result A) → B → Result A
  pub update : {A : Type 0} → (B → Result (A × B)) → B → Result A × B

-- json.Marshal and json.Unmarshal of a Job.
pub record Json (D : Type 0) : Type 0 where
  pub marshal : Job → Result D
  pub unmarshal : D → Result Job

-- An error of the transaction, wrapped as permanent.
abbrev pub permanently {ℓ} : {A : Type ℓ} → (GoError → GoError) → Result A → Result A
permanently f (ok a) = ok a
permanently f (err e) = err (f e)

module _ {B D : Type 0} (db : Bbolt B D) (json : Json D) where
  -- The write of a job inside a transaction, with what it answers.
  unfoldable pub put_job : {A : Type 0} → A → Job → B → Result (A × B)
  put_job a j b = elim (json.marshal j) [
    | err e ↦ err e
    | ok bytes ↦ elim (db.put j.id bytes b) [ err e ↦ err e | ok b' ↦ ok (a, b') ]
  ]

  unfoldable pub save : Job → B → Result (Unit {0}) × B
  save j b = elim (json.marshal j) [
    | err e ↦ (err (wrap Kind.permanent "queue.Store.Save" (some e)), b)
    | ok bytes ↦
        let (r, b') =
          db.update
            (λ bucket. elim (db.put j.id bytes bucket) [
              | err e ↦ err e
              | ok after ↦ ok (tt, after)
            ])
            b in
        (permanently (λ e. wrap Kind.permanent "queue.Store.Save" (some e)) r, b')
  ]

  unfoldable pub read_job : Text → B → Result Job
  read_job id bucket = elim (db.find id bucket) [
    | none ↦ err (
        wrap Kind.not_found "queue.Store.Get" (some (errorf "job %q not found" (Arg.text id ∷ []))))
    | some bytes ↦ json.unmarshal bytes
  ]

  unfoldable pub get : Text → B → Result Job
  get id b = elim (db.look (read_job id) b) [
    | ok j ↦ ok j
    | err e ↦
        if is_kind e Kind.not_found
        then err e
        else err (wrap Kind.permanent "queue.Store.Get" (some e))
  ]

  unfoldable pub decode_all : List (Text × D) → Result (List Job)
  decode_all [] = ok []
  decode_all ((k, bytes) ∷ es) = elim (json.unmarshal bytes) [
    | err e ↦ err e
    | ok j ↦ elim (decode_all es) [ err e ↦ err e | ok js ↦ ok (j ∷ js) ]
  ]

  unfoldable pub list : B → Result (List Job)
  list b =
      permanently (λ e. wrap Kind.permanent "queue.Store.List" (some e))
        (db.look (λ bucket. decode_all (db.entries bucket)) b)

  -- The walk of a Cursor up to the first job that the test takes.
  unfoldable pub first_job : (Job → Bool) → List (Text × D) → Result (Option Job)
  first_job test [] = ok none
  first_job test ((k, bytes) ∷ es) = elim (json.unmarshal bytes) [
    | err e ↦ err e
    | ok j ↦ if test j then ok (some j) else first_job test es
  ]

  abbrev pub is_pending : Job → Bool
  is_pending j = is_state j.state pending

  abbrev pub is_pending_for : Text → Job → Bool
  is_pending_for printer j = is_state j.state pending && text_eq j.printer_name printer

  abbrev pub is_live : Text → ℕ → Job → Bool
  is_live key now j = text_eq j.idempotency_key key && not (idempotency_key_expired j now)

  unfoldable pub next_pending : B → Result (Option Job)
  next_pending b =
      permanently (λ e. wrap Kind.permanent "queue.Store.NextPending" (some e))
        (db.look (λ bucket. first_job is_pending (db.entries bucket)) b)

  unfoldable pub claim_in : Text → ℕ → B → Result (Option Job × B)
  claim_in printer now bucket = elim (first_job (is_pending_for printer) (db.entries bucket)) [
    | err e ↦ err e
    | ok none ↦ ok (none, bucket)
    | ok (some j) ↦
        let claimed : Job = record j { state = running; updated_at = now } in
        put_job (some claimed) claimed bucket
  ]

  unfoldable pub claim_next_pending : Text → ℕ → B → Result (Option Job) × B
  claim_next_pending printer now b =
      let (r, b') = db.update (claim_in printer now) b in
      (permanently (λ e. wrap Kind.permanent "queue.Store.ClaimNextPending" (some e)) r, b')

  -- findByIdempotencyKey: after a match, ForEach goes on without decoding.
  unfoldable pub find_by_idempotency_key : Text → ℕ → B → Result (Option Job)
  find_by_idempotency_key key now bucket = first_job (is_live key now) (db.entries bucket)

  abbrev pub reset : ℕ → Job → Job
  reset now existing = record existing {
    state = pending;
    attempts = 0;
    last_error = Message.blank;
    updated_at = now;
  }

  -- The branch of a live job under the key.
  unfoldable pub resolve : Job → Job → ℕ → B → Result ((Job × Bool) × B)
  resolve existing new now bucket =
      if not (same_logical_request existing new)
      then err (
          wrap Kind.validation "queue.Store.EnqueueIdempotent" (
            some (
              errorf "idempotency key %q already used for a different printer or receipt"
                (Arg.text new.idempotency_key ∷ []))))
      else if is_state existing.state failed
      then put_job (reset now existing, false) (reset now existing) bucket
      else ok ((existing, false), bucket)

  -- The branch of a fresh job.
  unfoldable pub create : Job → ℕ → Result Text → B → Result ((Job × Bool) × B)
  create new now (err e) bucket = err e
  create new now (ok id) bucket =
      let job : Job = record new { id = id; state = pending; created_at = now; updated_at = now } in
      put_job (job, true) job bucket

  unfoldable pub enqueue_in : Job → ℕ → Result Text → B → Result ((Job × Bool) × B)
  enqueue_in new now fresh bucket =
      if is_empty new.idempotency_key
      then create new now fresh bucket
      else elim (find_by_idempotency_key new.idempotency_key now bucket) [
        | err e ↦ err e
        | ok (some existing) ↦ resolve existing new now bucket
        | ok none ↦ create new now fresh bucket
      ]

  abbrev pub enqueue_error : GoError → GoError
  enqueue_error e =
      if is_kind e Kind.validation
      then e
      else wrap Kind.permanent "queue.Store.EnqueueIdempotent" (some e)

  unfoldable pub enqueue_idempotent : Job → ℕ → Result Text → B → Result (Job × Bool) × B
  enqueue_idempotent new now fresh b =
      let (r, b') = db.update (enqueue_in new now fresh) b in (permanently enqueue_error r, b')

  abbrev pub bolt_store : Store B
  bolt_store = record {
    save = save;
    get = get;
    list = list;
    next_pending = next_pending;
    claim_next_pending = claim_next_pending;
    enqueue_idempotent = enqueue_idempotent;
  }

-- NewBoltStore. `open_file` is bbolt.Open, and `create_bucket` the transaction that makes the bucket.
unfoldable pub new_bolt_store :
    {F : Type 0} → (Text → Result F) → (F → Option GoError) → Text → Result F
new_bolt_store open_file create_bucket path = elim (open_file path) [
  | err e ↦ err (wrap Kind.permanent "queue.NewBoltStore" (some e))
  | ok file ↦ elim (create_bucket file) [
    | some e ↦ err (wrap Kind.permanent "queue.NewBoltStore" (some e))
    | none ↦ ok file
  ]
]
