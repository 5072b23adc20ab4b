-- ===== src/Queue/Process/Retry.antt =====
-- The retry loop of internal/queue/process.go: it ends, it stays within the budget of attempts, and
-- it leaves the job in one of the states that the comments allow.
use receiptd.Base.{
  ℕ, ◌+◌, ◌*◌, ◌%◌, ◌^◌, ◌≤◌, ◌<◌, ◌≡◌, ◌⊎◌, ◌∙◌, Bool, true, false, Option, none, some,
}
use receiptd.Base.Text.{Text, text_eq}
use receiptd.Apperr.{GoError, Kind, Result, ok, err, is_kind}
use receiptd.Queue.{Job, done, failed, of_error}
use receiptd.Queue.Store.{Store, Updated, Lawful}
use receiptd.Queue.World.{World, Settings}
use receiptd.Queue.Process.{call_processor}

-- The fields that the queue never changes once a job is stored.
pub record SameRequest (i j : Job) : Type 0 where
  pub id : j.id ≡ i.id
  pub printer_name : j.printer_name ≡ i.printer_name
  pub receipt : j.receipt ≡ i.receipt
  pub created_at : j.created_at ≡ i.created_at
  pub idempotency_key : j.idempotency_key ≡ i.idempotency_key

pub SameRequest-trans : {i j k : Job} → SameRequest i j → SameRequest j k → SameRequest i k
SameRequest-trans a b = record {
  id = b.id ∙ a.id;
  printer_name = b.printer_name ∙ a.printer_name;
  receipt = b.receipt ∙ a.receipt;
  created_at = b.created_at ∙ a.created_at;
  idempotency_key = b.idempotency_key ∙ a.idempotency_key;
}

-- A failed job carries the error of its last attempt, which was not worth or not left a retry.
abbrev pub IsFailed : ℕ → Job → Type 0
IsFailed max j =
    (j.state ≡ failed)
    × ((e : GoError) × (j.last_error ≡ of_error e)
        × ((is_kind e Kind.transient ≡ false) ⊎ (max ≤ j.attempts)))

abbrev pub IsSettled : ℕ → Job → Type 0
IsSettled max j = (j.state ≡ done) ⊎ IsFailed max j

-- One round: `j` before it, `j'` as it is saved.
abbrev Round : ℕ → Job → Job → Bool → Type 0
Round max j j' true = SameRequest j j' × ((j'.attempts ≡ j.attempts + 1) × IsSettled max j')
Round max j j' false =
    SameRequest j j'
    × ((j'.attempts ≡ j.attempts + 1) × ((j'.state ≡ j.state) × (j.attempts + 1 < max)))

-- The pair that `settle` makes of the job, with the time of its save.
abbrev Settles : ℕ → Job → ℕ → Job × Bool → Type 0
Settles max j now (j', is_over) = Round max j (record j' { updated_at = now }) is_over

-- What one call of the processor makes of the job: `answer` is what the processor answered, `j` the
-- job with the attempt counted, `now` the time of the save, `j'` the job as it is saved.
abbrev pub Answers : ℕ → Option GoError → Job → ℕ → Job → Bool → Type 0
Answers max answer j now j' true =
    ((answer ≡ none) × (j' ≡ record j { state = done; updated_at = now }))
    ⊎ ((e : GoError) × (answer ≡ some e)
        × ((is_kind e Kind.transient ≡ false) ⊎ (max ≤ j.attempts))
        × (j' ≡ record j { state = failed; last_error = of_error e; updated_at = now }))
Answers max answer j now j' false =
    (e : GoError) × (answer ≡ some e)
    × (is_kind e Kind.transient ≡ true)
    × (j.attempts < max)
    × (j' ≡ record j { updated_at = now })

abbrev AnswersPair : ℕ → Option GoError → Job → ℕ → Job × Bool → Type 0
AnswersPair max answer j now (j', is_over) =
    Answers max answer j now (record j' { updated_at = now }) is_over

-- What a run leaves of the job `j`: `stopped` says that the context was cancelled.
pub record Finished (max : ℕ) (j : Job) (stopped : Bool) (j' : Job) : Type 0 where
  pub same : SameRequest j j'
  pub tried : j.attempts < j'.attempts
  pub budget : (j'.attempts ≤ j.attempts + 1) ⊎ (j'.attempts ≤ max)
  pub outcome : IsSettled max j' ⊎ ((j'.state ≡ j.state) × (stopped ≡ true))

module _ {S W : Type 0} (st : Store S) (law : Lawful st) (env : World W) (settings : Settings) where
  open law use {IsWell, view}

  abbrev budget : ℕ
  budget = settings.max_attempts

  abbrev answer : Job → W → Option GoError
  answer i w = (call_processor st env settings (record i { attempts = i.attempts + 1 }) w).0

  -- The clock as it is read after the processor has been called.
  abbrev read_clock : Job → W → ℕ × W
  read_clock i w =
      env.now (call_processor st env settings (record i { attempts = i.attempts + 1 }) w).1

  -- What a round makes of the job `i`, in terms of what the processor answers.
  abbrev Tried : Job → W → Job → Bool → Type 0
  Tried i w =
      Answers budget (answer i w) (record i { attempts = i.attempts + 1 }) (read_clock i w).0

  -- A run of rounds from the job `i` in the world `w` to the job `j` in the world `x`: the last round
  -- ends it, or the context is cancelled while it waits, or the wait is over and it goes on with twice
  -- the wait.
  pub data Tries : Job → ℕ → W → Job → W → Type 0 where
    over :
        (i : Job) (backoff : ℕ) (w : W) (j : Job)
        → Tried i w j true
        → Tries i backoff w j (read_clock i w).1
    cancelled :
        (i : Job) (backoff : ℕ) (w : W) (j : Job)
        → Tried i w j false
        → env.is_cancelled (env.sleep backoff (read_clock i w).1) ≡ true
        → Tries i backoff w j (env.sleep backoff (read_clock i w).1)
    again :
        (i : Job) (backoff : ℕ) (w : W) (j k : Job) (x : W)
        → Tried i w j false
        → env.is_cancelled (env.sleep backoff (read_clock i w).1) ≡ false
        → Tries j (backoff * 2 % 2 ^ 64) (env.sleep backoff (read_clock i w).1) k x
        → Tries i backoff w k x

  -- A run that returns nil leaves one job changed, by such rounds; one that returns an error of the
  -- store leaves every other job as it was.
  abbrev pub EndsFrom : Job → ℕ → W → S → Result (Unit {0}) × S × W → Type 0
  EndsFrom j backoff w s (ok u, s', w') =
      (j' : Job) × Tries j backoff w j' w'
      × Finished budget j (env.is_cancelled w') j'
      × Updated (view s) j' (view s')
      × IsWell s'
  EndsFrom j backoff w s (err e, s', w') =
      IsWell s' × ((k : Text) → (text_eq j.id k ≡ false) → view s' k ≡ view s k)

  abbrev pub Ends : Job → W → S → Result (Unit {0}) × S × W → Type 0
  Ends j w s o = EndsFrom j settings.base_backoff w s o

  -- The round that went on from `i` to `j`, in `w` up to `x`.
  record Waited (i : Job) (backoff : ℕ) (w : W) (s : S) (j : Job) (x : W) (t : S) : Type 0 where
    round : Round budget i j false
    tried : Tried i w j false
    world : x ≡ env.sleep backoff (read_clock i w).1
    saved : Updated (view s) j (view t)
