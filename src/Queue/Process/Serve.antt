-- ===== src/Queue/Process/Serve.antt =====
-- ProcessNextForPrinter of internal/queue/process.go: which job it takes, and what becomes of it.
use receiptd.Base.{◌≡◌}
use receiptd.Base.Text.{Text}
use receiptd.Apperr.{GoError, Result, ok, err}
use receiptd.Queue.{Job}
use receiptd.Queue.Store.{
  Store, Unchanged, Updated, IsFirst, NoneEligible, IsPendingFor, claimed, Lawful,
}
use receiptd.Queue.World.{World, Settings}
use receiptd.Queue.Process.Retry.{Ends}

module _ {S W : Type 0} (st : Store S) (law : Lawful st) (env : World W) (settings : Settings) where
  open law use {IsWell, view}

  -- The ways a call can go: the printer has no pending job; the store fails before the claim; or the
  -- claim of the printer's first pending job is stored, and the retry loop runs on it from there.
  pub data Serves (printer : Text) (s : S) (w : W) (o : Result (Unit {0}) × S × W) : Type 0 where
    idle :
        NoneEligible (IsPendingFor printer) (view s)
        → Unchanged (view s) (view o.1)
        → o.0 ≡ ok tt
        → Serves printer s w o
    broken : (e : GoError) → o.0 ≡ err e → Unchanged (view s) (view o.1) → Serves printer s w o
    served :
        (j : Job) (t : S)
        → IsFirst (IsPendingFor printer) (view s) j
        → Updated (view s) (claimed (env.now w).0 j) (view t)
        → Ends st law env settings (claimed (env.now w).0 j) (env.now w).1 t o
        → Serves printer s w o
