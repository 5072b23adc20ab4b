-- ===== src/Queue/Requests.antt =====
-- Enqueue, EnqueueIdempotent, Cancel, Get and List of internal/queue (queue.go, cancel.go, get.go,
-- list.go), over any Store.
pub mod Laws
pub mod Accepts
use receiptd.Base.{ℕ, Bool, not, some, List, [], ◌∷◌, if◌then◌else◌}
use receiptd.Base.Text.{Text}
use receiptd.Apperr.{GoError, Kind, Arg, errorf, wrap, Result, ok, err}
use receiptd.Queue.{Job, JobState, pending, cancelled, is_state, state_text}
use receiptd.Queue.Store.{Store}
use receiptd.Queue.World.{World, new_job_id}

module _ {S W : Type 0} (st : Store S) (env : World W) where
  -- Enqueue: the error, the job as the caller sees it afterwards, the store, the world.
  unfoldable pub enqueue : Job → S → W → Result Job × S × W
  enqueue j s w =
      let (fresh, w1) = new_job_id env w in
      elim fresh [
        | err e ↦ (err (wrap Kind.permanent "queue.Enqueue" (some e)), s, w1)
        | ok id ↦
            let (now, w2) = env.now w1 in
            let j' : Job = record j {
              id = id;
              state = pending;
              created_at = now;
              updated_at = now;
            } in
            let (r, s') = st.save j' s in
            elim r [ err e ↦ (err e, s', w2) | ok u ↦ (ok j', s', w2) ]
      ]

  unfoldable pub enqueue_idempotent : Job → Text → S → W → Result Text × S × W
  enqueue_idempotent j key s w =
      let (now, w1) = env.now w in
      let (fresh, w2) = new_job_id env w1 in
      let (r, s') = st.enqueue_idempotent (record j { idempotency_key = key }) now fresh s in
      elim r [ err e ↦ (err e, s', w2) | ok (job, created) ↦ (ok job.id, s', w2) ]

  unfoldable pub cancel_pending : Job → S → W → Result (Unit {0}) × S × W
  cancel_pending j s w =
      let (now, w') = env.now w in
      let (r, s') = st.save (record j { state = cancelled; updated_at = now }) s in (r, s', w')

  unfoldable pub cancel_job : Text → Job → S → W → Result (Unit {0}) × S × W
  cancel_job id j s w =
      if not (is_state j.state pending)
      then (
        err (
            wrap Kind.validation "queue.Cancel" (
              some (
                errorf "job %q is %s, only a pending job can be cancelled"
                  (Arg.text id ∷ Arg.text (state_text j.state) ∷ [])))),
        s,
        w,
      )
      else cancel_pending j s w

  unfoldable pub cancel : Text → S → W → Result (Unit {0}) × S × W
  unfolding cancel_job
  cancel id s w = elim (st.get id s) [ err e ↦ (err e, s, w) | ok j ↦ cancel_job id j s w ]

  unfoldable pub get : Text → S → Result Job
  get id s = st.get id s

  unfoldable pub list : S → Result (List Job)
  list s = st.list s
