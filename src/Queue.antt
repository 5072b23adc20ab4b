-- ===== src/Queue.antt =====
-- internal/queue: jobs, their stores, and the queue that processes them.
mod Lowest
mod Runs
pub mod Store
pub mod Memory
pub mod Bolt
pub mod World
pub mod Requests
pub mod Process
use receiptd.Base.{ℕ, ◌-◌, ◌*◌, Bool, ◌&&◌, ltb, List, ◌==◌}
use receiptd.Base.Text.{Text, text_eq, codes}
use receiptd.Apperr.{GoError, Arg}
use receiptd.Receipt.{Receipt, Receipt-discrete}
use Prim.Native.String.{String}
use mathlib.Core.Bool.{decide}

pub data JobState : Type 0 where
  pending running done failed cancelled : JobState

-- Job.LastError: the empty string, the text of an error, or a formatted text.
pub data Message : Type 0 where
  blank : Message
  of_error : GoError → Message
  formatted : String → List Arg → Message

-- Times are nanoseconds. Attempts starts at 0 and only counts up or back to 0.
pub record Job : Type 0 where
  pub id : Text
  pub printer_name : Text
  pub receipt : Receipt
  pub state : JobState
  pub attempts : ℕ
  pub last_error : Message
  pub created_at : ℕ
  pub updated_at : ℕ
  pub idempotency_key : Text

abbrev state_index : JobState → ℕ
state_index pending = 0
state_index running = 1
state_index done = 2
state_index failed = 3
state_index cancelled = 4

-- `==` on states.
abbrev pub is_state : JobState → JobState → Bool
is_state a b = state_index a == state_index b

-- string(state)
pub state_text : JobState → Text
state_text pending = codes "pending"
state_text running = codes "running"
state_text done = codes "done"
state_text failed = codes "failed"
state_text cancelled = codes "cancelled"

-- 24 hours
abbrev pub idempotency_key_ttl : ℕ
idempotency_key_ttl = 86_400_000_000_000

unfoldable pub same_receipt : Receipt → Receipt → Bool
same_receipt a b = decide (Receipt-discrete a b)

unfoldable pub same_logical_request : Job → Job → Bool
unfolding same_receipt
same_logical_request a b = text_eq a.printer_name b.printer_name && same_receipt a.receipt b.receipt

-- A `now` before the creation gives a negative duration, which no ttl is below.
unfoldable pub idempotency_key_expired : Job → ℕ → Bool
idempotency_key_expired j now = ltb idempotency_key_ttl (now - j.created_at)
