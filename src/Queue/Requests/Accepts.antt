-- ===== src/Queue/Requests/Accepts.antt =====
-- EnqueueIdempotent of internal/queue/queue.go over a store that keeps its contract.
use receiptd.Base.{◌≡◌, ◌≢◌, ◌⊎◌, true, false, some}
use receiptd.Base.Text.{Text, text_eq}
use receiptd.Apperr.{Kind, Result, ok, err, is_kind}
use receiptd.Queue.{Job, failed, same_logical_request}
use receiptd.Queue.Store.{Store, View, Unchanged}
use receiptd.Queue.World.{World}

abbrev pub keyed_job : Job → Text → Job
keyed_job new key = record new { idempotency_key = key }

-- The job `j` answers for the request `new`, from the contents `v` to the contents `w`.
pub record Answers (new : Job) (v : View) (id : Text) (w : View) (j : Job) : Type 0 where
  pub held : w id ≡ some j
  pub keyed : j.idempotency_key ≡ new.idempotency_key
  pub same :
      (same_logical_request j new ≡ true)
      ⊎ ((j.printer_name ≡ new.printer_name) × (j.receipt ≡ new.receipt))
  pub active : j.state ≢ failed
  pub others : (k : Text) → text_eq id k ≡ false → w k ≡ v k

abbrev pub Accepts : Job → View → Result Text → View → Type 0
Accepts new v (ok id) w = (j : Job) × Answers new v id w j
Accepts new v (err e) w =
    ((is_kind e Kind.validation ≡ true) ⊎ (is_kind e Kind.permanent ≡ true)) × Unchanged v w
