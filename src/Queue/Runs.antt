-- ===== src/Queue/Runs.antt =====
-- Concrete runs of internal/queue over the in-memory store, and its theorems at them.
use receiptd.Base.{ℕ, ◌+◌, ◌≡◌, refl, false, none, some, List, [], ◌∷◌, arith}
use receiptd.Base.Int.{pos}
use receiptd.Base.Text.{Text, codes, text_eq, text_ltb, text_eq_iff}
use receiptd.Base.Map.{lookup, put}
use receiptd.Apperr.{Kind, app, errorf, ok, is_kind}
use receiptd.Receipt.{Receipt}
use receiptd.Queue.{Job, JobState, Message, pending, running, done}
use receiptd.Queue.Lowest.{lowest}
use receiptd.Queue.Memory.{Jobs, memory_store, list, save, claim_next_pending}
use receiptd.Queue.Memory.Laws.{IsWell, view, put-IsWell}
use receiptd.Queue.Memory.Contract.{memory_lawful}
use receiptd.Queue.Memory.Listing.{list_of_view}
use receiptd.Queue.World.{World, Outcome, returned, default_settings}
use receiptd.Queue.Requests.Accepts.{Accepts}
use receiptd.Queue.Process.{
  run_claimed_job, process_next_for_printer, reconcile, reconcile_loop, attempt, run_loop,
}
use receiptd.Queue.Process.Recovery.{Reconciles, reconcile-Reconciles}

-- A processor with a script of outcomes, a clock that ticks, and the waits that were asked for.
record Script : Type 0 where
  outcomes : List Outcome
  clock : ℕ
  waits : List ℕ

abbrev next_outcome : List Outcome → Outcome × List Outcome
next_outcome [] = (returned none, [])
next_outcome (o ∷ os) = (o, os)

abbrev scripted : World Script
scripted = record {
  process = λ j w. let (o, os) = next_outcome w.outcomes in (o, record w { outcomes = os });
  now = λ w. (w.clock, record w { clock = w.clock + 1 });
  sleep = λ d w. record w { waits = d ∷ w.waits };
  is_cancelled = λ w. false;
  random = λ w. (ok (1 ∷ 171 ∷ []), w);
}

abbrev offline : Outcome
offline = returned (some (app Kind.transient "printer.Send" (errorf "connection refused" [])))

abbrev start : List Outcome → Script
start os = record { outcomes = os; clock = 100; waits = [] }

abbrev empty_receipt : Receipt
empty_receipt = record { version = pos 1; copies = pos 0; elements = none }

abbrev job : Text → Text → JobState → Job
job id printer state = record {
  id = id;
  printer_name = printer;
  receipt = empty_receipt;
  state = state;
  attempts = 0;
  last_error = Message.blank;
  created_at = 7;
  updated_at = 7;
  idempotency_key = [];
}

abbrev job_a : Job
job_a = job (codes "a") (codes "desk") pending

abbrev job_b : Job
job_b = job (codes "b") (codes "desk") running

abbrev two_jobs : Jobs
two_jobs = (codes "b", job_b) ∷ (codes "a", job_a) ∷ []

abbrev other_order : Jobs
other_order = (codes "a", job_a) ∷ (codes "b", job_b) ∷ []

no_jobs-IsWell : IsWell []
unfolding lookup
no_jobs-IsWell = record { is_map = tt; keyed = λ k j e. cc }

two_jobs-IsWell : IsWell two_jobs
unfolding put text_eq
two_jobs-IsWell = put-IsWell job_a _ (put-IsWell job_b [] no_jobs-IsWell)

other_order-IsWell : IsWell other_order
unfolding put text_eq
other_order-IsWell = put-IsWell job_b _ (put-IsWell job_a [] no_jobs-IsWell)

-- Two refused connections, then a print: the waits are 5 and 10 seconds, and the job is done.
retried_twice :
    process_next_for_printer memory_store scripted default_settings
      (codes "desk")
      two_jobs
      (start (offline ∷ offline ∷ []))
    ≡ some (
      ok tt,
      (codes "b", job_b)
          ∷ (codes "a", record job_a { state = done; attempts = 3; updated_at = 103 })
          ∷ [],
      record { outcomes = []; clock = 104; waits = 10_000_000_000 ∷ 5_000_000_000 ∷ [] },
    )
unfolding process_next_for_printer run_claimed_job run_loop attempt claim_next_pending save lowest
    text_ltb put is_kind text_eq
retried_twice = refl

same_jobs : (k : Text) → view two_jobs k ≡ view other_order k
unfolding lookup
same_jobs k = ground (arith, text_eq_iff (codes "a") k, text_eq_iff (codes "b") k)

list_of_view_example : list two_jobs ≡ list other_order
list_of_view_example =
    list_of_view two_jobs other_order two_jobs-IsWell other_order-IsWell same_jobs

no_store_error : (reconcile memory_store 3 scripted two_jobs (start [])).0.error ≡ none
unfolding reconcile reconcile_loop list save text_ltb
no_store_error = refl

reconcile-Reconciles_example :
    (js : List Job) × (memory_store.list two_jobs ≡ ok js)
    × Reconciles memory_store memory_lawful 3 scripted two_jobs
        (start [])
        js
        (reconcile memory_store 3 scripted two_jobs (start []))
unfolding memory_lawful
reconcile-Reconciles_example =
    reconcile-Reconciles memory_store memory_lawful 3 scripted two_jobs (start []) two_jobs-IsWell
      no_store_error
