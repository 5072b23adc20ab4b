-- ===== src/Queue/Requests/Laws.antt =====
-- Cancel, Enqueue and EnqueueIdempotent of internal/queue over a store that keeps its contract.
use receiptd.Base.{ℕ, ◌≡◌, ◌≢◌, true, none, some}
use receiptd.Base.Text.{Text}
use receiptd.Apperr.{GoError, Kind, Result, ok, err, is_kind}
use receiptd.Queue.{Job, pending, cancelled}
use receiptd.Queue.Store.{Store, Unchanged, Updated, Lawful}
use receiptd.Queue.World.{World}

abbrev pub cancelled_job : ℕ → Job → Job
cancelled_job now j = record j { state = cancelled; updated_at = now }

module _ {S W : Type 0} (st : Store S) (law : Lawful st) (env : World W) where
  open law use {IsWell, view}

  -- The outcomes of Cancel.
  pub data Cancels (id : Text) (s : S) (w : W) (o : Result (Unit {0}) × S × W) : Type 0 where
    unreadable :
        (e : GoError)
        → (is_kind e Kind.not_found ≡ true → view s id ≡ none)
        → o.0 ≡ err e
        → o.1 ≡ s
        → Cancels id s w o
    refused :
        (j : Job) (e : GoError)
        → view s id ≡ some j
        → j.state ≢ pending
        → o.0 ≡ err e
        → is_kind e Kind.validation ≡ true
        → o.1 ≡ s
        → Cancels id s w o
    unsaved :
        (j : Job) (e : GoError)
        → view s id ≡ some j
        → j.state ≡ pending
        → o.0 ≡ err e
        → Unchanged (view s) (view o.1)
        → Cancels id s w o
    stopped :
        (j : Job)
        → view s id ≡ some j
        → j.state ≡ pending
        → o.0 ≡ ok tt
        → Updated (view s) (cancelled_job (env.now w).0 j) (view o.1)
        → Cancels id s w o
