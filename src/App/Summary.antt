-- ===== src/App/Summary.antt =====
-- QueueSummary of internal/app/queue_summary.go counts every job once, under its state.
use receiptd.Base.{ℕ, ◌+◌, ◌≡◌, refl, List, [], ◌∷◌, arith, length, if◌then◌else◌}
use receiptd.Apperr.{Result, ok, err}
use receiptd.Queue.{Job, JobState, pending, running, done, failed, cancelled, is_state}
use receiptd.Queue.Store.{Store}
use receiptd.Queue.World.{World}
use receiptd.Queue.Requests.{list}
use receiptd.App.{QueueSummary, count_job, count_jobs, no_jobs, queue_summary, total}

-- How many of the jobs are in the state.
abbrev pub number_in : JobState → List Job → ℕ
number_in state [] = 0
number_in state (j ∷ js) = (if is_state j.state state then 1 else 0) + number_in state js

-- `d` counts the jobs on top of `c`, each under its state.
pub record Counts (js : List Job) (c d : QueueSummary) : Type 0 where
  pub pending : d.pending ≡ c.pending + number_in pending js
  pub running : d.running ≡ c.running + number_in running js
  pub done : d.done ≡ c.done + number_in done js
  pub failed : d.failed ≡ c.failed + number_in failed js
  pub cancelled : d.cancelled ≡ c.cancelled + number_in cancelled js
  pub total : total d ≡ total c + length js

record CountsOne (state : JobState) (c d : QueueSummary) : Type 0 where
  pub pending : d.pending ≡ c.pending + (if is_state state pending then 1 else 0)
  pub running : d.running ≡ c.running + (if is_state state running then 1 else 0)
  pub done : d.done ≡ c.done + (if is_state state done then 1 else 0)
  pub failed : d.failed ≡ c.failed + (if is_state state failed then 1 else 0)
  pub cancelled : d.cancelled ≡ c.cancelled + (if is_state state cancelled then 1 else 0)
  pub total : total d ≡ total c + 1

count_job-CountsOne : (state : JobState) (c : QueueSummary) → CountsOne state c (count_job state c)
unfolding total
count_job-CountsOne pending c = record {
  pending = omega arith;
  running = omega arith;
  done = omega arith;
  failed = omega arith;
  cancelled = omega arith;
  total = omega arith;
}
count_job-CountsOne running c = record {
  pending = omega arith;
  running = omega arith;
  done = omega arith;
  failed = omega arith;
  cancelled = omega arith;
  total = omega arith;
}
count_job-CountsOne done c = record {
  pending = omega arith;
  running = omega arith;
  done = omega arith;
  failed = omega arith;
  cancelled = omega arith;
  total = omega arith;
}
count_job-CountsOne failed c = record {
  pending = omega arith;
  running = omega arith;
  done = omega arith;
  failed = omega arith;
  cancelled = omega arith;
  total = omega arith;
}
count_job-CountsOne cancelled c = record {
  pending = omega arith;
  running = omega arith;
  done = omega arith;
  failed = omega arith;
  cancelled = omega arith;
  total = omega arith;
}

count_jobs-Counts : (js : List Job) (c : QueueSummary) → Counts js c (count_jobs js c)
unfolding count_jobs
count_jobs-Counts [] c = record {
  pending = omega arith;
  running = omega arith;
  done = omega arith;
  failed = omega arith;
  cancelled = omega arith;
  total = omega arith;
}
count_jobs-Counts (j ∷ js) c =
    let one = count_job-CountsOne j.state c in
    let more = count_jobs-Counts js (count_job j.state c) in
    record {
      pending = omega (arith, one.pending, more.pending);
      running = omega (arith, one.running, more.running);
      done = omega (arith, one.done, more.done);
      failed = omega (arith, one.failed, more.failed);
      cancelled = omega (arith, one.cancelled, more.cancelled);
      total = omega (arith, one.total, more.total);
    }

abbrev pub Summarizes : Result (List Job) → Result QueueSummary → Type 0
Summarizes (err e) r = r ≡ err e
Summarizes (ok js) r = (c : QueueSummary) × ((r ≡ ok c) × Counts js no_jobs c)

-- The summary passes on the error of the store's listing, or counts each job of the listing once, under
-- its state, so that its total is the number of jobs.
pub queue_summary-Summarizes :
    {S W : Type 0} (st : Store S) (env : World W) (s : S)
    → Summarizes (st.list s) (queue_summary st env s)
unfolding queue_summary list
queue_summary-Summarizes st env s = go (st.list s)
  where
    go :
        (r : Result (List Job))
        → Summarizes r (elim r [ err e ↦ err e | ok jobs ↦ ok (count_jobs jobs no_jobs) ])
    go (err e) = refl
    go (ok js) = (count_jobs js no_jobs, (refl, count_jobs-Counts js no_jobs))
