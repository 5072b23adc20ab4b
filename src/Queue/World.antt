-- ===== src/Queue/World.antt =====
-- What internal/queue takes from the process around it, as a `World`: the Processor, the clock, the
-- wait between attempts, the context, and the source of random bytes; and newJobID.
use receiptd.Base.{ℕ, ◌+◌, ◌/◌, ◌%◌, Bool, Option, List, [], ◌∷◌, ltb, if◌then◌else◌}
use receiptd.Base.Text.{Text}
use receiptd.Apperr.{GoError, Result, ok, err}
use receiptd.Queue.{Job}

-- Processor.Process returns an error or nil, or panics with a value.
pub data Outcome : Type 0 where
  returned : Option GoError → Outcome
  panicked : Text → Outcome

pub record World (W : Type 0) : Type 0 where
  pub process : Job → W → Outcome × W
  pub now : W → ℕ × W
  pub sleep : ℕ → W → W
  pub is_cancelled : W → Bool
  pub random : W → Result (List ℕ) × W

-- The settings of a Queue; a backoff is a time.Duration, by its 64-bit pattern.
pub record Settings : Type 0 where
  pub max_attempts : ℕ
  pub base_backoff : ℕ

-- New's settings: 3 attempts, 5 seconds.
abbrev pub default_settings : Settings
default_settings = record { max_attempts = 3; base_backoff = 5_000_000_000 }

abbrev hex_digit : ℕ → ℕ
hex_digit n = if ltb n 10 then n + 48 else n + 87

-- hex.EncodeToString
unfoldable pub hex : List ℕ → Text
hex [] = []
hex (b ∷ bs) = hex_digit (b / 16) ∷ hex_digit (b % 16) ∷ hex bs

abbrev with_hex : Result (List ℕ) → Result Text
with_hex (err e) = err e
with_hex (ok bytes) = ok (hex bytes)

-- newJobID
unfoldable pub new_job_id : {W : Type 0} → World W → W → Result Text × W
unfolding hex
new_job_id env w = let (r, w') = env.random w in (with_hex r, w')
