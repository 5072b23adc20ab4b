-- ===== src/Queue/Store.antt =====
-- internal/queue/store.go: the Store interface, and the contract that its comments promise, said of
-- a store's view, the job that it holds under each ID.
use receiptd.Base.{
  ℕ, ◌≡◌, ◌≢◌, ◌↔◌, ◌⊎◌, Bool, true, false, Option, none, some, List, [], ◌∷◌, if◌then◌else◌,
}
use receiptd.Base.Text.{Text, text_eq, text_ltb}
use receiptd.Apperr.{GoError, Kind, Result, ok, err, is_kind}
use receiptd.Queue.{
  Job, Message, pending, running, failed, same_logical_request, idempotency_key_expired,
}

-- The operations on a store whose contents are an `S`. A method that reads the clock or draws an ID
-- takes what it reads or draws as an argument.
pub record Store (S : Type 0) : Type 0 where
  pub save : Job → S → Result (Unit {0}) × S
  pub get : Text → S → Result Job
  pub list : S → Result (List Job)
  pub next_pending : S → Result (Option Job)
  pub claim_next_pending : Text → ℕ → S → Result (Option Job) × S
  pub enqueue_idempotent : Job → ℕ → Result Text → S → Result (Job × Bool) × S

abbrev pub View : Type 0
View = Text → Option Job

abbrev pub Unchanged : View → View → Type 0
Unchanged v w = (k : Text) → w k ≡ v k

-- `w` is `v` but for `j`, which it holds under its ID.
abbrev pub Updated : View → Job → View → Type 0
Updated v j w = (k : Text) → w k ≡ (if text_eq j.id k then some j else v k)

abbrev pub Saves : View → Job → Result (Unit {0}) → View → Type 0
Saves v j (ok u) w = Updated v j w
Saves v j (err e) w = Unchanged v w

abbrev pub Gets : View → Text → Result Job → Type 0
Gets v id (ok j) = v id ≡ some j
Gets v id (err e) = is_kind e Kind.not_found ≡ true → v id ≡ none

abbrev pub InList : Job → List Job → Type 0
InList j [] = ⊥
InList j (i ∷ is) = (j ≡ i) ⊎ InList j is

-- The IDs strictly increase along the list.
abbrev pub Precedes : Job → List Job → Type 0
Precedes j [] = Unit
Precedes j (i ∷ is) = (text_ltb j.id i.id ≡ true) × Precedes j is

abbrev pub IsOrdered : List Job → Type 0
IsOrdered [] = Unit
IsOrdered (j ∷ js) = Precedes j js × IsOrdered js

abbrev pub Lists : View → Result (List Job) → Type 0
Lists v (ok js) = IsOrdered js × ((j : Job) → (v j.id ≡ some j) ↔ InList j js)
Lists v (err e) = Unit

-- `j` is held, may be chosen, and has the lowest ID of those that may.
abbrev pub IsFirst : (Job → Type 0) → View → Job → Type 0
IsFirst Eligible v j =
    (v j.id ≡ some j)
    × (Eligible j × ((k : Text) (i : Job) → v k ≡ some i → Eligible i → text_ltb i.id j.id ≡ false))

abbrev pub NoneEligible : (Job → Type 0) → View → Type 0
NoneEligible Eligible v = (k : Text) (i : Job) → v k ≡ some i → ¬ Eligible i

abbrev pub IsPending : Job → Type 0
IsPending j = j.state ≡ pending

abbrev pub IsPendingFor : Text → Job → Type 0
IsPendingFor printer j = (j.state ≡ pending) × (j.printer_name ≡ printer)

abbrev pub NextPending : View → Result (Option Job) → Type 0
NextPending v (ok none) = NoneEligible IsPending v
NextPending v (ok (some j)) = IsFirst IsPending v j
NextPending v (err e) = Unit

abbrev pub claimed : ℕ → Job → Job
claimed now j = record j { state = running; updated_at = now }

abbrev pub Claims : View → Text → ℕ → Result (Option Job) → View → Type 0
Claims v printer now (ok none) w = NoneEligible (IsPendingFor printer) v × Unchanged v w
Claims v printer now (ok (some c)) w =
    (j : Job) × IsFirst (IsPendingFor printer) v j × (c ≡ claimed now j) × Updated v c w
Claims v printer now (err e) w = Unchanged v w

abbrev pub reactivated_job : ℕ → Job → Job
reactivated_job now j = record j {
  state = pending;
  attempts = 0;
  last_error = Message.blank;
  updated_at = now;
}

abbrev pub created_job : ℕ → Text → Job → Job
created_job now id j = record j { id = id; state = pending; created_at = now; updated_at = now }

-- `e` is held under the key of `new`, which is not empty, and the key has not expired.
abbrev pub IsLive : View → Job → ℕ → Job → Type 0
IsLive v new now e =
    (new.idempotency_key ≢ [])
    × ((v e.id ≡ some e)
        × ((e.idempotency_key ≡ new.idempotency_key) × (idempotency_key_expired e now ≡ false)))

abbrev pub NoneLive : View → Job → ℕ → Type 0
NoneLive v new now = (e : Job) → ¬ IsLive v new now e

-- The outcomes of EnqueueIdempotent.
pub data Enqueues (v : View) (new : Job) (now : ℕ) (fresh : Result Text) (r : Result (Job × Bool))
    (w : View) : Type 0 where
  rejected :
      (e : Job) (x : GoError)
      → IsLive v new now e
      → same_logical_request e new ≡ false
      → r ≡ err x
      → is_kind x Kind.validation ≡ true
      → Unchanged v w
      → Enqueues v new now fresh r w
  returned :
      (e : Job)
      → IsLive v new now e
      → same_logical_request e new ≡ true
      → e.state ≢ failed
      → r ≡ ok (e, false)
      → Unchanged v w
      → Enqueues v new now fresh r w
  reactivated :
      (e : Job)
      → IsLive v new now e
      → same_logical_request e new ≡ true
      → e.state ≡ failed
      → r ≡ ok (reactivated_job now e, false)
      → Updated v (reactivated_job now e) w
      → Enqueues v new now fresh r w
  created :
      (id : Text)
      → NoneLive v new now
      → fresh ≡ ok id
      → r ≡ ok (created_job now id new, true)
      → Updated v (created_job now id new) w
      → Enqueues v new now fresh r w
  no_id :
      (x y : GoError)
      → NoneLive v new now
      → fresh ≡ err x
      → r ≡ err y
      → (is_kind y Kind.validation ≡ true) ⊎ (is_kind y Kind.permanent ≡ true)
      → Unchanged v w
      → Enqueues v new now fresh r w
  unstored :
      (x : GoError)
      → r ≡ err x
      → is_kind x Kind.permanent ≡ true
      → Unchanged v w
      → Enqueues v new now fresh r w

-- A store that keeps the contract, with its invariant and its view.
pub record Lawful {S : Type 0} (st : Store S) : Type 1 where
  pub IsWell : S → Type 0
  pub view : S → View
  pub keyed : (s : S) (k : Text) (j : Job) → IsWell s → view s k ≡ some j → j.id ≡ k
  pub save_law :
      (j : Job) (s : S) → IsWell s → Saves (view s) j (st.save j s).0 (view (st.save j s).1)
  pub save_well : (j : Job) (s : S) → IsWell s → IsWell (st.save j s).1
  pub get_law : (id : Text) (s : S) → IsWell s → Gets (view s) id (st.get id s)
  pub list_law : (s : S) → IsWell s → Lists (view s) (st.list s)
  pub next_law : (s : S) → IsWell s → NextPending (view s) (st.next_pending s)
  pub claim_law :
      (printer : Text) (now : ℕ) (s : S)
      → IsWell s
      → Claims
          (view s)
          printer
          now
          (st.claim_next_pending printer now s).0
          (view (st.claim_next_pending printer now s).1)
  pub claim_well :
      (printer : Text) (now : ℕ) (s : S) → IsWell s → IsWell (st.claim_next_pending printer now s).1
  pub enqueue_law :
      (new : Job) (now : ℕ) (fresh : Result Text) (s : S)
      → IsWell s
      → Enqueues
          (view s)
          new
          now
          fresh
          (st.enqueue_idempotent new now fresh s).0
          (view (st.enqueue_idempotent new now fresh s).1)
  pub enqueue_well :
      (new : Job) (now : ℕ) (fresh : Result Text) (s : S)
      → IsWell s
      → IsWell (st.enqueue_idempotent new now fresh s).1

-- `st` keeps the contract by the invariant and the view given, from the contents `s` on.
abbrev pub Refines : {S : Type 0} → Store S → (S → Type 0) → (S → View) → S → Type 1
Refines st IsWell view s =
    (law : Lawful st) × ((law.IsWell ≡ IsWell) × ((law.view ≡ view) × law.IsWell s))
