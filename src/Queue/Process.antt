-- ===== src/Queue/Process.antt =====
-- ProcessNext, ProcessNextForPrinter and Reconcile of internal/queue (process.go, reconcile.go), over
-- any Store.
pub mod Retry
pub mod Recovery
pub mod Serve
use receiptd.Base.{
  ℕ, zero, suc, ◌+◌, ◌*◌, ◌%◌, ◌^◌, Bool, true, false, not, ◌||◌, Option, none, some, List, [], ◌∷◌,
  leb, ltb, if◌then◌else◌,
}
use receiptd.Base.Text.{Text}
use receiptd.Apperr.{GoError, Kind, Arg, num, errorf, wrap, Result, ok, err, is_kind}
use receiptd.Queue.{
  Job, JobState, Message, pending, running, done, failed, is_state, of_error, formatted,
}
use receiptd.Queue.Store.{Store}
use receiptd.Queue.World.{World, Outcome, returned, panicked, Settings}

-- What is left of a job after an attempt that ended with `e`, and whether the loop is over.
unfoldable pub settle : ℕ → Option GoError → Job → Job × Bool
settle max_attempts none j = (record j { state = done }, true)
settle max_attempts (some e) j =
    if not (is_kind e Kind.transient) || leb max_attempts j.attempts
    then (record j { state = failed; last_error = of_error e }, true)
    else (j, false)

-- callProcessor: a panic is recovered as an error of the kind `permanent`.
unfoldable pub recovered : Outcome → Option GoError
recovered (returned e) = e
recovered (panicked value) =
    some (wrap Kind.permanent "queue.ProcessNext" (some (errorf "panic: %v" (Arg.text value ∷ []))))

module _ {S W : Type 0} (st : Store S) (env : World W) (settings : Settings) where
  pub call_processor : Job → W → Option GoError × W
  unfolding recovered
  call_processor j w = let (outcome, w') = env.process j w in (recovered outcome, w')

  -- One round up to the save: the job as it is saved, whether the loop is over, and the world.
  unfoldable pub attempt : Job → W → Job × Bool × W
  unfolding call_processor settle
  attempt j w =
      let next : Job = record j { attempts = j.attempts + 1 } in
      let (error, w1) = call_processor next w in
      let (next', is_over) = settle settings.max_attempts error next in
      let (now, w2) = env.now w1 in (record next' { updated_at = now }, is_over, w2)

  -- The loop of runClaimedJob, with fuel for its rounds; `none` means that the fuel ran out.
  -- `backoff *= 2` doubles a 64-bit integer.
  unfoldable pub run_loop : ℕ → Job → ℕ → S → W → Option (Result (Unit {0}) × S × W)
  run_loop zero next backoff s w = none
  run_loop (suc fuel) next backoff s w =
      let (next', is_over, w1) = attempt next w in
      let (saved, s1) = st.save next' s in
      elim saved [
        | err e ↦ some (err e, s1, w1)
        | ok u ↦ elim is_over [
          | true ↦ some (ok tt, s1, w1)
          | false ↦
              let w2 = env.sleep backoff w1 in
              elim (env.is_cancelled w2) [
                | true ↦ some (ok tt, s1, w2)
                | false ↦ run_loop fuel next' (backoff * 2 % 2 ^ 64) s1 w2
              ]
        ]
      ]

  -- Every round adds an attempt, and the round that reaches max_attempts is the last.
  unfoldable pub run_claimed_job : Job → S → W → Option (Result (Unit {0}) × S × W)
  run_claimed_job next s w = run_loop (settings.max_attempts + 1) next settings.base_backoff s w

  start_job : Job → S → W → Option (Result (Unit {0}) × S × W)
  start_job next s w =
      let (now, w1) = env.now w in
      let next' : Job = record next { state = running; updated_at = now } in
      let (saved, s1) = st.save next' s in
      elim saved [ err e ↦ some (err e, s1, w1) | ok u ↦ run_claimed_job next' s1 w1 ]

  unfoldable pub process_next : S → W → Option (Result (Unit {0}) × S × W)
  unfolding start_job
  process_next s w = elim (st.next_pending s) [
    | err e ↦ some (err e, s, w)
    | ok none ↦ some (ok tt, s, w)
    | ok (some next) ↦ start_job next s w
  ]

  unfoldable pub process_next_for_printer : Text → S → W → Option (Result (Unit {0}) × S × W)
  process_next_for_printer printer s w =
      let (now, w1) = env.now w in
      let (claim, s1) = st.claim_next_pending printer now s in
      elim claim [
        | err e ↦ some (err e, s1, w1)
        | ok none ↦ some (ok tt, s1, w1)
        | ok (some next) ↦ run_claimed_job next s1 w1
      ]

-- What Reconcile makes of a running job.
unfoldable pub interrupted : ℕ → ℕ → Job → Job
interrupted max_attempts now j = record j {
  attempts = j.attempts + 1;
  last_error =
      formatted "interrupted: daemon restarted while this job was running (attempt %d of %d)"
        (num (j.attempts + 1) ∷ num max_attempts ∷ []);
  state = if ltb (j.attempts + 1) max_attempts then pending else failed;
  updated_at = now;
}

-- How many jobs were retried and failed, and the first error of the store.
pub record Reconciled : Type 0 where
  pub retried : ℕ
  pub failures : ℕ
  pub error : Option GoError

abbrev pub counted : Job → Reconciled → Reconciled
counted j r =
    if is_state j.state pending
    then record r { retried = r.retried + 1 }
    else record r { failures = r.failures + 1 }

module _ {S : Type 0} (st : Store S) (max_attempts : ℕ) where
  unfoldable pub reconcile_loop : List Job → ℕ → Reconciled → S → Reconciled × S
  unfolding interrupted
  reconcile_loop [] now r s = (r, s)
  reconcile_loop (j ∷ js) now r s = elim (is_state j.state running) [
    | false ↦ reconcile_loop js now r s
    | true ↦
        let j' = interrupted max_attempts now j in
        let r' = counted j' r in
        let (saved, s1) = st.save j' s in
        elim saved [
          | err e ↦ (record r' { error = some e }, s1)
          | ok u ↦ reconcile_loop js now r' s1
        ]
  ]

  unfoldable pub reconcile : {W : Type 0} → World W → S → W → Reconciled × S × W
  reconcile env s w = elim (st.list s) [
    | err e ↦ (record { retried = 0; failures = 0; error = some e }, s, w)
    | ok jobs ↦
        let (now, w') = env.now w in
        let (r, s') =
          reconcile_loop jobs now (record { retried = 0; failures = 0; error = none }) s in
        (r, s', w')
  ]
