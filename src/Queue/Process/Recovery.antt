-- ===== src/Queue/Process/Recovery.antt =====
-- Reconcile of internal/queue/reconcile.go resolves every job that a crash left running.
use receiptd.Base.{
  ℕ, ◌+◌, ◌≡◌, inl, inr, refl, sym, ◌∙◌, Bool, true, false, ◌&&◌, not, Option, none, some, List, [],
  ◌∷◌, arith, ltb, if◌then◌else◌, Bool-cases,
}
use mathlib.Core.Path.{subst}
use receiptd.Base.Text.{
  Text, text_eq, text_eq_iff, text_ltb, text_ltb_irrefl, text_eq_refl, text_eq_comm,
}
use receiptd.Apperr.{num, Result, ok, err}
use receiptd.Queue.{Job, Message, formatted, pending, running, failed, is_state}
use receiptd.Queue.Store.{Store, Updated, Saves, Lists, InList, Precedes, IsOrdered, Lawful}
use receiptd.Queue.World.{World}
use receiptd.Queue.Process.{interrupted, Reconciled, counted, reconcile_loop, reconcile}

-- What the job says of the attempt that the crash cut short.
abbrev pub restart_message : ℕ → Job → Message
restart_message max j =
    formatted "interrupted: daemon restarted while this job was running (attempt %d of %d)"
      (num (j.attempts + 1) ∷ num max ∷ [])

-- What a job becomes: only a running one changes. It has used up one attempt, and waits for the next
-- one if any is left.
abbrev pub resolved : ℕ → ℕ → Job → Job
resolved max now j =
    if is_state j.state running
    then record j {
      attempts = j.attempts + 1;
      last_error = restart_message max j;
      updated_at = now;
      state = if ltb (j.attempts + 1) max then pending else failed;
    }
    else j

abbrev pub resolved_option : ℕ → ℕ → Option Job → Option Job
resolved_option max now none = none
resolved_option max now (some j) = some (resolved max now j)

abbrev pub count_jobs : (Job → Bool) → List Job → ℕ
count_jobs p [] = 0
count_jobs p (j ∷ js) = (if p j then 1 else 0) + count_jobs p js

-- A running job with attempts left after the one that the crash used up.
abbrev pub has_retry : ℕ → Job → Bool
has_retry max j = is_state j.state running && ltb (j.attempts + 1) max

abbrev pub has_no_retry : ℕ → Job → Bool
has_no_retry max j = is_state j.state running && not (ltb (j.attempts + 1) max)

ne_of_lt : (s t : Text) → text_ltb s t ≡ true → text_eq t s ≡ false
ne_of_lt s t h = split (text_eq t s) refl
  where
    split : (b : Bool) → text_eq t s ≡ b → text_eq t s ≡ false
    split false e = e
    split true e =
        cc (subst (λ x. text_ltb s x ≡ true) ((text_eq_iff t s).0 e) h, text_ltb_irrefl s)

Precedes-ne : (j i : Job) (js : List Job) → Precedes j js → InList i js → text_eq i.id j.id ≡ false
Precedes-ne j i [] p h = absurd h
Precedes-ne j i (x ∷ js) p (inl e) =
    subst (λ y. text_eq y.id j.id ≡ false) (sym e) (ne_of_lt j.id x.id p.0)
Precedes-ne j i (x ∷ js) p (inr h) = Precedes-ne j i js p.1 h

module _ {S : Type 0} (st : Store S) (law : Lawful st) (max : ℕ) (now : ℕ) where
  open law use {IsWell, view}

  -- A loop over `js` that met no error resolved those jobs, counted them, and left the others.
  record Resolves (js : List Job) (r : Reconciled) (s : S) (r' : Reconciled) (s' : S) : Type 0 where
    well : IsWell s'
    each : (j : Job) → InList j js → view s' j.id ≡ some (resolved max now j)
    others : (k : Text) → ((j : Job) → InList j js → text_eq j.id k ≡ false) → view s' k ≡ view s k
    retried : r'.retried ≡ r.retried + count_jobs (has_retry max) js
    failures : r'.failures ≡ r.failures + count_jobs (has_no_retry max) js

  interrupted_id : (j : Job) → (interrupted max now j).id ≡ j.id
  unfolding interrupted
  interrupted_id j = refl

  counted_retried :
      (j : Job) (r : Reconciled)
      → is_state j.state running ≡ true
      → ((counted (interrupted max now j) r).retried
          ≡ r.retried + (if has_retry max j then 1 else 0))
        × ((counted (interrupted max now j) r).failures
            ≡ r.failures + (if has_no_retry max j then 1 else 0))
  unfolding interrupted
  counted_retried j r h = elim (Bool-cases (ltb (j.attempts + 1) max)) [
    | inl p ↦ rw p (ground arith, ground arith)
    | inr p ↦ rw p (ground arith, ground arith)
  ]

  Resolves-skip :
      (j : Job) (js : List Job) (r r' : Reconciled) (s s' : S)
      → is_state j.state running ≡ false
      → view s j.id ≡ some j
      → Precedes j js
      → Resolves js r s r' s'
      → Resolves (j ∷ js) r s r' s'
  Resolves-skip j js r r' s s' n v p t = record {
    well = t.well;
    each = λ i h. at i h;
    others = λ k h. t.others k (λ i m. h i (inr m));
    retried = ground (arith, t.retried);
    failures = ground (arith, t.failures);
  }
    where
      here : view s' j.id ≡ some (resolved max now j)
      here = t.others j.id (λ i m. Precedes-ne j i js p m) ∙ v ∙ rw n

      at : (i : Job) → InList i (j ∷ js) → view s' i.id ≡ some (resolved max now i)
      at i (inl e) = subst (λ x. view s' x.id ≡ some (resolved max now x)) (sym e) here
      at i (inr m) = t.each i m

  Resolves-save :
      (j : Job) (js : List Job) (r r' : Reconciled) (s t s' : S)
      → is_state j.state running ≡ true
      → Precedes j js
      → Updated (view s) (interrupted max now j) (view t)
      → Resolves js (counted (interrupted max now j) r) t r' s'
      → Resolves (j ∷ js) r s r' s'
  unfolding interrupted
  Resolves-save j js r r' s t s' n p u f = record {
    well = f.well;
    each = λ i h. at i h;
    others = λ k h. f.others k (λ i m. h i (inr m)) ∙ u k ∙ rw (interrupted_id j, h j (inl refl));
    retried = ground (arith, f.retried, counted_retried j r n);
    failures = ground (arith, f.failures, counted_retried j r n);
  }
    where
      here : view s' j.id ≡ some (resolved max now j)
      here =
          f.others j.id (λ i m. Precedes-ne j i js p m)
          ∙ u j.id
          ∙ rw (interrupted_id j, text_eq_refl j.id, n)

      at : (i : Job) → InList i (j ∷ js) → view s' i.id ≡ some (resolved max now i)
      at i (inl e) = subst (λ x. view s' x.id ≡ some (resolved max now x)) (sym e) here
      at i (inr m) = f.each i m

  reconcile_loop-Resolves :
      (js : List Job) (r : Reconciled) (s : S)
      → IsWell s
      → IsOrdered js
      → ((j : Job) → InList j js → view s j.id ≡ some j)
      → (reconcile_loop st max js now r s).0.error ≡ none
      → Resolves js r s (reconcile_loop st max js now r s).0 (reconcile_loop st max js now r s).1
  unfolding reconcile_loop
  reconcile_loop-Resolves [] r s w o h e = record {
    well = w;
    each = λ j m. absurd m;
    others = λ k m. refl;
    retried = omega arith;
    failures = omega arith;
  }
  reconcile_loop-Resolves (j ∷ js) r s w o h e =
      go (λ q t x y z. reconcile_loop-Resolves js q t x o.1 y z) (is_state j.state running) refl e
    where
      Goal : Reconciled × S → Type 0
      Goal x = x.0.error ≡ none → Resolves (j ∷ js) r s x.0 x.1

      j' : Job
      j' = interrupted max now j

      Rest : Reconciled → S → Type 0
      Rest q t =
          IsWell t
          → ((i : Job) → InList i js → view t i.id ≡ some i)
          → (reconcile_loop st max js now q t).0.error ≡ none
          → Resolves js q t (reconcile_loop st max js now q t).0
              (reconcile_loop st max js now q t).1

      kept : (t : S) → Updated (view s) j' (view t) → (i : Job) → InList i js → view t i.id ≡ some i
      kept t u i m =
          u i.id
          ∙ rw (interrupted_id j, text_eq_comm j.id i.id, Precedes-ne j i js o.0 m) (h i (inr m))

      save :
          ((q : Reconciled) (t : S) → Rest q t)
          → is_state j.state running ≡ true
          → (v : Result (Unit {0}) × S) → Saves (view s) j' v.0 (view v.1)
          → IsWell v.1
          → Goal (elim v.0 as (λ x. Reconciled × S) [
            | err e ↦ (record (counted j' r) { error = some e }, v.1)
            | ok u ↦ reconcile_loop st max js now (counted j' r) v.1
          ])
      save again n (err x, t) d y z = cc
      save again n (ok u, t) d y z =
          Resolves-save j js r _ s t _ n o.0 d (again (counted j' r) t y (kept t d) z)

      go :
          ((q : Reconciled) (t : S) → Rest q t)
          → (b : Bool) → is_state j.state running ≡ b
          → Goal (elim b as (λ x. Reconciled × S) [
            | false ↦ reconcile_loop st max js now r s
            | true ↦ elim (st.save j' s).0 [
              | err e ↦ (record (counted j' r) { error = some e }, (st.save j' s).1)
              | ok u ↦ reconcile_loop st max js now (counted j' r) (st.save j' s).1
            ]
          ])
      go again false n z =
          Resolves-skip j js r _ s _ n (h j (inl refl)) o.0 (again r s w (λ i m. h i (inr m)) z)
      go again true n z = save again n (st.save j' s) (law.save_law j' s w) (law.save_well j' s w) z

module _ {S W : Type 0} (st : Store S) (law : Lawful st) (max : ℕ) (env : World W) where
  open law use {IsWell, view}

  -- What a run of Reconcile that met no error promises.
  pub record Reconciles (s : S) (w : W) (js : List Job) (o : Reconciled × S × W) : Type 0 where
    pub well : IsWell o.1
    pub pointwise : (k : Text) → view o.1 k ≡ resolved_option max (env.now w).0 (view s k)
    pub retried : o.0.retried ≡ count_jobs (has_retry max) js
    pub failures : o.0.failures ≡ count_jobs (has_no_retry max) js

  listed :
      (s s' : S) (now : ℕ) (r r' : Reconciled) (js : List Job)
      → IsWell s
      → Lists (view s) (ok js)
      → Resolves st law max now js r s r' s'
      → (k : Text) → view s' k ≡ resolved_option max now (view s k)
  listed s s' now r r' js w l f k = go (view s k) refl
    where
      absent : view s k ≡ none → (j : Job) → InList j js → text_eq j.id k ≡ false
      absent e j m = elim (Bool-cases (text_eq j.id k)) [
        | inr n ↦ n
        | inl p ↦ cc (e, subst (λ x. view s x ≡ some j) ((text_eq_iff j.id k).0 p) ((l.1 j).1 m))
      ]

      go : (o : Option Job) → view s k ≡ o → view s' k ≡ resolved_option max now o
      go none e = f.others k (absent e) ∙ e
      go (some j) e =
          let i : j.id ≡ k = law.keyed s k j w e in
          subst (λ x. view s' x ≡ some (resolved max now j)) i
            (f.each j ((l.1 j).0 (subst (λ x. view s x ≡ some j) (sym i) e)))

  -- If `reconcile` meets no error of a store that keeps its contract, then each job that the store
  -- held running is pending again or failed, the crash counted as an attempt, no other job has
  -- changed, none was lost or added, and the two counts are those of the retried and the failed.
  pub reconcile-Reconciles :
      (s : S) (w : W)
      → IsWell s
      → (reconcile st max env s w).0.error ≡ none
      → (js : List Job) × (st.list s ≡ ok js) × Reconciles s w js (reconcile st max env s w)
  unfolding reconcile
  reconcile-Reconciles s w h e = go (st.list s) refl (law.list_law s h) e
    where
      now : ℕ
      now = (env.now w).0

      zero_counts : Reconciled
      zero_counts = record { retried = 0; failures = 0; error = none }

      after : Result (List Job) → Reconciled × S × W
      after o = elim o [
        | err x ↦ (record { retried = 0; failures = 0; error = some x }, s, w)
        | ok jobs ↦
            let (r, s') = reconcile_loop st max jobs now zero_counts s in (r, s', (env.now w).1)
      ]

      go :
          (o : Result (List Job))
          → st.list s ≡ o
          → Lists (view s) o
          → (after o).0.error ≡ none
          → (js : List Job) × (st.list s ≡ ok js) × Reconciles s w js (after o)
      go (err x) p l z = cc
      go (ok js) p l z =
          let f : Resolves st law max now js zero_counts s
              (reconcile_loop st max js now zero_counts s).0
              (reconcile_loop st max js now zero_counts s).1 =
            reconcile_loop-Resolves st law max now js zero_counts s h l.0 (λ j m. (l.1 j).1 m) z in
          (
            js,
            p,
            record {
              well = f.well;
              pointwise = listed s _ now zero_counts _ js h l f;
              retried = f.retried ∙ omega arith;
              failures = f.failures ∙ omega arith;
            },
          )
