-- ===== src/App.antt =====
-- internal/app: the service that the interfaces call, over any Store and World of the queue.
pub mod Pipeline
pub mod Summary
pub mod Intake
pub mod Printers
mod Runs
use Prim.Native.String.{String}
use receiptd.Base.{
  ℕ, zero, suc, ◌+◌, Bool, true, false, Option, none, some, List, [], ◌∷◌, if◌then◌else◌,
}
use receiptd.Base.Int.{ℤ, pos, pos_part}
use receiptd.Base.Text.{Text}
use receiptd.Base.Map.{Map, lookup}
use receiptd.Apperr.{GoError, Kind, Arg, errorf, wrap, Result, ok, err}
use receiptd.Receipt.{Receipt, effective_copies}
use receiptd.Receipt.Validate.{Codecs, validate, is_empty}
use receiptd.Document.{Font}
use receiptd.Layout.Build.{Run, then_run, build}
use receiptd.Render.{Canvas, Profile}
use receiptd.Render.Escpos.{encode}
use receiptd.Render.Page.{paint, encode_png}
use receiptd.Queue.{Job, JobState, Message, pending, running, done, failed, cancelled}
use receiptd.Queue.Store.{Store}
use receiptd.Queue.World.{World, Outcome, returned, panicked}
use receiptd.Queue.Requests.{enqueue, enqueue_idempotent, list, get}

pub record ConnectionSummary : Type 0 where
  pub transport : Text
  pub address : Text

-- Service, for printers that are a `P`. `assets` is the Get of its asset store.
pub record Service (P : Type 0) : Type 0 where
  pub printers : Map P
  pub profiles : Map Profile
  pub connections : Map ConnectionSummary
  pub assets : Option (Text → Result (List ℕ))

abbrev pub not_configured : Kind → String → String → Text → GoError
not_configured k op message name = wrap k op (some (errorf message (Arg.text name ∷ [])))

module _ {P : Type 0} (codecs : Codecs) (font : Font) (svc : Service P) where
  unfoldable pub render : Receipt → Profile → Run Canvas
  render r profile = then_run (build codecs svc.assets r profile font) (λ doc. paint codecs doc)

  -- Preview. `png` is png.Encode.
  unfoldable pub preview : (List (List ℕ) → Result (List ℕ)) → Receipt → Text → Run (List ℕ)
  preview png r printer_name = elim (validate codecs r) [
    | some e ↦ some (err e)
    | none ↦ elim (lookup printer_name svc.profiles) [
      | none ↦ some (
          err (
            not_configured Kind.not_found "app.Preview" "printer profile %q not configured"
              printer_name))
      | some profile ↦ then_run (render r profile) (λ c. encode_png png c)
    ]
  ]

-- The loop of Process over the copies.
unfoldable pub send_copies :
    {W : Type 0} → (List ℕ → W → Option GoError × W) → ℕ → List ℕ → W → Option GoError × W
send_copies send zero bytes w = (none, w)
send_copies send (suc n) bytes w =
    let (e, w') = send bytes w in
    elim e [ some x ↦ (some x, w') | none ↦ send_copies send n bytes w' ]

module _ {P W : Type 0} (codecs : Codecs) (font : Font) (svc : Service P) where
  -- Process; `none` is a panic.
  unfoldable pub process :
      (P → List ℕ → W → Option GoError × W) → Job → W → Option (Option GoError × W)
  process send j w = elim (lookup j.printer_name svc.profiles) [
    | none ↦ some (
      some (
          not_configured Kind.not_found "app.Process" "printer profile %q not configured"
            j.printer_name),
      w,
    )
    | some profile ↦
        elim (then_run (render codecs font svc j.receipt profile) (λ c. encode c profile)) [
          | none ↦ none
          | some (err e) ↦ some (some e, w)
          | some (ok bytes) ↦ elim (lookup j.printer_name svc.printers) [
            | none ↦ some (
              some (
                  not_configured Kind.not_found "app.Process" "printer %q not configured"
                    j.printer_name),
              w,
            )
            | some p ↦ some (send_copies (send p) (pos_part (effective_copies j.receipt)) bytes w)
          ]
        ]
  ]

abbrev pub new_job : Receipt → Text → Job
new_job r printer_name = record {
  id = [];
  printer_name = printer_name;
  receipt = r;
  state = pending;
  attempts = 0;
  last_error = Message.blank;
  created_at = 0;
  updated_at = 0;
  idempotency_key = [];
}

module _ {S W : Type 0} (codecs : Codecs) (st : Store S) (env : World W) where
  abbrev pub enqueued : Result Job × S × W → Result Text × S × W
  enqueued (err e, s, w) = (err e, s, w)
  enqueued (ok j, s, w) = (ok j.id, s, w)

  -- Print. The State and the times of the fresh job are those that the queue sets.
  unfoldable pub print : Receipt → Text → Text → S → W → Result Text × S × W
  print r printer_name key s w = elim (validate codecs r) [
    | some e ↦ (err e, s, w)
    | none ↦
        if is_empty key
        then enqueued (enqueue st env (new_job r printer_name) s w)
        else enqueue_idempotent st env (new_job r printer_name) key s w
  ]

  unfoldable pub job_status : Text → S → Result Job
  job_status id s = get st env id s

pub record QueueSummary : Type 0 where
  pub pending : ℕ
  pub running : ℕ
  pub done : ℕ
  pub failed : ℕ
  pub cancelled : ℕ

abbrev pub no_jobs : QueueSummary
no_jobs = record { pending = 0; running = 0; done = 0; failed = 0; cancelled = 0 }

abbrev pub count_job : JobState → QueueSummary → QueueSummary
count_job pending c = record c { pending = c.pending + 1 }
count_job running c = record c { running = c.running + 1 }
count_job done c = record c { done = c.done + 1 }
count_job failed c = record c { failed = c.failed + 1 }
count_job cancelled c = record c { cancelled = c.cancelled + 1 }

unfoldable pub count_jobs : List Job → QueueSummary → QueueSummary
count_jobs [] c = c
count_jobs (j ∷ js) c = count_jobs js (count_job j.state c)

unfoldable pub queue_summary : {S W : Type 0} → Store S → World W → S → Result QueueSummary
queue_summary st env s = elim (list st env s) [
  | err e ↦ err e
  | ok jobs ↦ ok (count_jobs jobs no_jobs)
]

-- QueueSummary.Total
unfoldable pub total : QueueSummary → ℕ
total c = c.pending + c.running + c.done + c.failed + c.cancelled
