-- ===== src/App/Intake.antt =====
-- Print of internal/app/service.go keeps the store's jobs printable: only validated receipts get in.
use mathlib.Core.Path.{subst}
use mathlib.Core.Option.{some-injective}
use receiptd.Base.{
  ℕ, ◌≡◌, inl, inr, refl, sym, ap, ◌∙◌, Bool, true, false, some, Bool-cases, Option-cases,
  if◌then◌else◌,
}
use receiptd.Base.Text.{Text, text_eq}
use receiptd.Apperr.{GoError, Kind, Result, ok, err, is_kind, wrap}
use receiptd.Receipt.{Receipt}
use receiptd.Receipt.Validate.{Codecs, validate, is_empty}
use receiptd.Receipt.Accepts.{ReceiptIsValid, validate-ReceiptIsValid, is_kind-validate}
use receiptd.Queue.{Job}
use receiptd.Queue.Store.{
  Store, View, Unchanged, Updated, Saves, Enqueues, Lawful, created_job, reactivated_job, rejected,
  returned, reactivated, created, no_id, unstored,
}
use receiptd.Queue.World.{World, new_job_id}
use receiptd.Queue.Requests.{enqueue, enqueue_idempotent}
use receiptd.App.{print, new_job, enqueued}

module _ (codecs : Codecs) where
  -- Every job that is held has a receipt that Validate accepts.
  abbrev pub HoldsValid : View → Type 0
  HoldsValid v = (k : Text) (j : Job) → v k ≡ some j → ReceiptIsValid codecs j.receipt

  Unchanged-HoldsValid : (v w : View) → HoldsValid v → Unchanged v w → HoldsValid w
  Unchanged-HoldsValid v w h u k j e = h k j (sym (u k) ∙ e)

  pub Updated-HoldsValid :
      (v : View) (i : Job) (w : View)
      → HoldsValid v
      → ReceiptIsValid codecs i.receipt
      → Updated v i w
      → HoldsValid w
  Updated-HoldsValid v i w h p u k j e = elim (Bool-cases (text_eq i.id k)) [
    | inl a ↦
        let q : some i ≡ some j = (ap (λ b. if b then some i else v k) (sym a) ∙ sym (u k)) ∙ e in
        subst (λ x. ReceiptIsValid codecs x.receipt) (some-injective i j q) p
    | inr a ↦ h k j ((ap (λ b. if b then some i else v k) (sym a) ∙ sym (u k)) ∙ e)
  ]

  Saves-HoldsValid :
      (v : View) (i : Job) (r : Result (Unit {0})) (w : View)
      → HoldsValid v
      → ReceiptIsValid codecs i.receipt
      → Saves v i r w
      → HoldsValid w
  Saves-HoldsValid v i (ok u) w h p s = Updated-HoldsValid v i w h p s
  Saves-HoldsValid v i (err e) w h p s = Unchanged-HoldsValid v w h s

  Enqueues-HoldsValid :
      (v : View) (new : Job) (now : ℕ) (fresh : Result Text) (r : Result (Job × Bool)) (w : View)
      → HoldsValid v
      → ReceiptIsValid codecs new.receipt
      → Enqueues v new now fresh r w
      → HoldsValid w
  Enqueues-HoldsValid v new now fresh r w h p (rejected e x l s q c u) =
      Unchanged-HoldsValid v w h u
  Enqueues-HoldsValid v new now fresh r w h p (returned e l s q c u) = Unchanged-HoldsValid v w h u
  Enqueues-HoldsValid v new now fresh r w h p (reactivated e l s q c u) =
      Updated-HoldsValid v (reactivated_job now e) w h (h e.id e l.1.0) u
  Enqueues-HoldsValid v new now fresh r w h p (created id l q c u) =
      Updated-HoldsValid v (created_job now id new) w h p u
  Enqueues-HoldsValid v new now fresh r w h p (no_id x y l q c k u) = Unchanged-HoldsValid v w h u
  Enqueues-HoldsValid v new now fresh r w h p (unstored x q k u) = Unchanged-HoldsValid v w h u

  module _ {S W : Type 0} (st : Store S) (law : Lawful st) (env : World W) where
    open law use {IsWell, view}

    enqueue-HoldsValid :
        (j : Job) (s : S) (w : W)
        → IsWell s
        → HoldsValid (view s)
        → ReceiptIsValid codecs j.receipt
        → HoldsValid (view (enqueue st env j s w).1)
    unfolding enqueue
    enqueue-HoldsValid j s w well h p = fresh (new_job_id env w).0
      where
        now : ℕ
        now = (env.now (new_job_id env w).1).0

        w2 : W
        w2 = (env.now (new_job_id env w).1).1

        filed : Text → Job
        filed id = created_job now id j

        saved :
            (i : Job) (r : Result (Unit {0})) (t : S)
            → HoldsValid (view t)
            → HoldsValid (
                view
                  (elim r as (λ x. Result Job × S × W) [
                    | err e ↦ (err e, t, w2)
                    | ok u ↦ (ok i, t, w2)
                  ]).1)
        saved i (err e) t q = q
        saved i (ok u) t q = q

        fresh :
            (id : Result Text)
            → HoldsValid (
                view
                  (elim id as (λ x. Result Job × S × W) [
                    | err e ↦ (
                      err (wrap Kind.permanent "queue.Enqueue" (some e)),
                      s,
                      (new_job_id env w).1,
                    )
                    | ok id ↦ elim (st.save (filed id) s).0 as (λ x. Result Job × S × W) [
                      | err e ↦ (err e, (st.save (filed id) s).1, w2)
                      | ok u ↦ (ok (filed id), (st.save (filed id) s).1, w2)
                    ]
                  ]).1)
        fresh (err e) = h
        fresh (ok id) =
            saved (filed id) (st.save (filed id) s).0 (st.save (filed id) s).1
              (Saves-HoldsValid (view s) (filed id) _ _ h p (law.save_law (filed id) s well))

    enqueue_idempotent-HoldsValid :
        (j : Job) (key : Text) (s : S) (w : W)
        → IsWell s
        → HoldsValid (view s)
        → ReceiptIsValid codecs j.receipt
        → HoldsValid (view (enqueue_idempotent st env j key s w).1)
    unfolding enqueue_idempotent
    enqueue_idempotent-HoldsValid j key s w well h p =
        answered (st.enqueue_idempotent new now id s).0 (st.enqueue_idempotent new now id s).1
          (Enqueues-HoldsValid (view s) new now id _ _ h p (law.enqueue_law new now id s well))
      where
        new : Job
        new = record j { idempotency_key = key }

        now : ℕ
        now = (env.now w).0

        id : Result Text
        id = (new_job_id env (env.now w).1).0

        w2 : W
        w2 = (new_job_id env (env.now w).1).1

        answered :
            (r : Result (Job × Bool)) (t : S)
            → HoldsValid (view t)
            → HoldsValid (
                view
                  (elim r as (λ x. Result Text × S × W) [
                    | err e ↦ (err e, t, w2)
                    | ok (job, is_new) ↦ (ok job.id, t, w2)
                  ]).1)
        answered (err e) t q = q
        answered (ok (job, is_new)) t q = q

    enqueued-1 : (o : Result Job × S × W) → (enqueued codecs st env o).1 ≡ o.1
    enqueued-1 (err e, t, w) = refl
    enqueued-1 (ok j, t, w) = refl

    -- The two outcomes of Print.
    pub data Prints (r : Receipt) (s : S) (w : W) (o : Result Text × S × W) : Type 0 where
      refused :
          (e : GoError)
          → (¬ ReceiptIsValid codecs r)
          → is_kind e Kind.validation ≡ true
          → o ≡ (err e, s, w)
          → Prints r s w o
      taken : ReceiptIsValid codecs r → HoldsValid (view o.1) → Prints r s w o

    enqueue_either :
        (b : Bool) (j : Job) (key : Text) (s : S) (w : W)
        → IsWell s
        → HoldsValid (view s)
        → ReceiptIsValid codecs j.receipt
        → HoldsValid (
            view
              (if b
                then enqueued codecs st env (enqueue st env j s w)
                else enqueue_idempotent st env j key s w).1)
    enqueue_either true j key s w well h p =
        subst (λ t. HoldsValid (view t)) (sym (enqueued-1 (enqueue st env j s w)))
          (enqueue-HoldsValid j s w well h p)
    enqueue_either false j key s w well h p = enqueue_idempotent-HoldsValid j key s w well h p

    -- Over a lawful store whose jobs all have receipts that Validate accepts, Print either refuses a
    -- receipt that is not valid, with an error of the kind validation, and leaves the store and the world
    -- as they were; or the receipt is valid, and the jobs that are then held still all have valid ones.
    pub print-Prints :
        (r : Receipt) (printer key : Text) (s : S) (w : W)
        → IsWell s
        → HoldsValid (view s)
        → Prints r s w (print codecs st env r printer key s w)
    unfolding print
    print-Prints r printer key s w well h = elim (Option-cases (validate codecs r)) [
      | inr (e, a) ↦
          rw (print, a)
            (refused e (λ p. cc (a, (validate-ReceiptIsValid codecs r).1 p))
              (is_kind-validate codecs r e a) refl)
      | inl a ↦
          let valid : ReceiptIsValid codecs r = (validate-ReceiptIsValid codecs r).0 a in
          rw (print, a)
            (taken valid (enqueue_either (is_empty key) (new_job r printer) key s w well h valid))
    ]
