-- ===== src/Queue/Memory/Laws.antt =====
-- The in-memory store of internal/queue/store_memory.go keeps the contract of the Store interface.
use mathlib.Core.Path.{subst}
use receiptd.Base.{ℕ, ◌≡◌, ◌↔◌, refl, sym, Bool, false, Option, none, some, arith, if◌then◌else◌}
use receiptd.Base.Text.{Text, text_eq, text_eq_iff}
use receiptd.Base.Map.{lookup, put, IsMap, lookup-put, put-IsMap}
use receiptd.Apperr.{Result, ok}
use receiptd.Queue.{Job}
use receiptd.Queue.Lowest.{lowest, Chosen, NoneOf, IsLowest, lowest-Chosen}
use receiptd.Queue.Store.{
  View, Saves, Gets, IsFirst, NoneEligible, IsPending, IsPendingFor, NextPending, Claims, claimed,
}
use receiptd.Queue.Memory.{
  Jobs, save, get, next_pending, claim_next_pending, not_pending, not_pending_for,
}

-- Distinct keys, and each job under its own ID.
pub record IsWell (s : Jobs) : Type 0 where
  pub is_map : IsMap s
  pub keyed : (k : Text) (j : Job) → lookup k s ≡ some j → j.id ≡ k

abbrev pub view : Jobs → View
view s k = lookup k s

pub put-IsWell : (j : Job) (s : Jobs) → IsWell s → IsWell (put j.id j s)
put-IsWell j s w = record {
  is_map = put-IsMap j.id j s w.is_map;
  keyed = λ k i e. ground (arith, lookup-put j.id k j s, text_eq_iff j.id k, w.keyed k i);
}

pub save-Saves : (j : Job) (s : Jobs) → Saves (view s) j (save j s).0 (view (save j s).1)
unfolding save
save-Saves j s k = lookup-put j.id k j s

pub save-IsWell : (j : Job) (s : Jobs) → IsWell s → IsWell (save j s).1
unfolding save
save-IsWell j s w = put-IsWell j s w

-- The eligible jobs are those that the scan does not skip.
IsPending-iff : (j : Job) → (not_pending j ≡ false) ↔ IsPending j
IsPending-iff j = (λ h. ground arith, λ h. rw h)

IsPendingFor-iff :
    (printer : Text) (j : Job) → (not_pending_for printer j ≡ false) ↔ IsPendingFor printer j
IsPendingFor-iff printer j = (
  λ h. (ground arith, ground (arith, text_eq_iff j.printer_name printer)),
  λ h. ground (arith, text_eq_iff j.printer_name printer),
)

module _ (skip : Job → Bool) (Eligible : Job → Type 0)
    (agree : (j : Job) → (skip j ≡ false) ↔ Eligible j) where
  NoneOf-NoneEligible : (s : Jobs) → NoneOf skip s → NoneEligible Eligible (view s)
  NoneOf-NoneEligible s h k i e l = cc (h k i e, (agree i).1 l)

  IsLowest-IsFirst :
      (s : Jobs) → IsWell s → (e : Text × Job) → IsLowest skip s e → IsFirst Eligible (view s) e.1
  IsLowest-IsFirst s w e h = (
    subst (λ i. lookup i s ≡ some e.1) (sym (w.keyed e.0 e.1 h.0)) h.0,
    ((agree e.1).0 h.1.0, λ k i p l. h.1.1 k i p ((agree i).1 l)),
  )

pub next_pending-NextPending : (s : Jobs) → IsWell s → NextPending (view s) (next_pending s)
unfolding next_pending
next_pending-NextPending s w =
    chosen (lowest not_pending s none) (lowest-Chosen not_pending s w.is_map)
  where
    chosen :
        (r : Option (Text × Job))
        → Chosen not_pending s r
        → NextPending (view s) (elim r [ none ↦ ok none | some (k, j) ↦ ok (some j) ])
    chosen none h = NoneOf-NoneEligible not_pending IsPending IsPending-iff s h
    chosen (some e) h = IsLowest-IsFirst not_pending IsPending IsPending-iff s w e h

pub claim-Claims :
    (printer : Text) (now : ℕ) (s : Jobs)
    → IsWell s
    → Claims
        (view s)
        printer
        now
        (claim_next_pending printer now s).0
        (view (claim_next_pending printer now s).1)
unfolding claim_next_pending
claim-Claims printer now s w = chosen (lowest skip s none) (lowest-Chosen skip s w.is_map)
  where
    skip : Job → Bool
    skip = not_pending_for printer

    after : Option (Text × Job) → Result (Option Job) × Jobs
    after o = elim o [
      | none ↦ (ok none, s)
      | some (k, next) ↦ (ok (some (claimed now next)), put k (claimed now next) s)
    ]

    chosen :
        (r : Option (Text × Job))
        → Chosen skip s r
        → Claims (view s) printer now (after r).0 (view (after r).1)
    chosen none h =
        (NoneOf-NoneEligible skip (IsPendingFor printer) (IsPendingFor-iff printer) s h, λ k. refl)
    chosen (some e) h = (
      e.1,
      IsLowest-IsFirst skip (IsPendingFor printer) (IsPendingFor-iff printer) s w e h,
      refl,
      λ k.
          subst
            (λ i.
              lookup k (put i (claimed now e.1) s)
              ≡ (if text_eq e.1.id k then some (claimed now e.1) else lookup k s))
            (w.keyed e.0 e.1 h.0) (lookup-put e.1.id k (claimed now e.1) s),
    )

pub claim-IsWell :
    (printer : Text) (now : ℕ) (s : Jobs) → IsWell s → IsWell (claim_next_pending printer now s).1
unfolding claim_next_pending
claim-IsWell printer now s w =
    chosen (lowest (not_pending_for printer) s none)
      (lowest-Chosen (not_pending_for printer) s w.is_map)
  where
    chosen :
        (r : Option (Text × Job))
        → Chosen (not_pending_for printer) s r
        → IsWell
            (elim r as (λ o. Result (Option Job) × Jobs) [
              | none ↦ (ok none, s)
              | some (k, next) ↦ (ok (some (claimed now next)), put k (claimed now next) s)
            ]).1
    chosen none h = w
    chosen (some e) h =
        subst (λ i. IsWell (put i (claimed now e.1) s)) (w.keyed e.0 e.1 h.0)
          (put-IsWell (claimed now e.1) s w)

pub get-Gets : (id : Text) (s : Jobs) → Gets (view s) id (get id s)
unfolding get
get-Gets id s = found (lookup id s) refl
  where
    found : (o : Option Job) → lookup id s ≡ o → Gets (view s) id (get id s)
    found none e = rw (e, get) (λ h. e)
    found (some j) e = rw (e, get) e
