-- ===== src/Store/Retrying.antt =====
-- `_retrying`, over a wire that may lose a request before the script runs or its reply after.
-- What other processes do while a call waits is a list of commands before each attempt.
use generation_balance_servi.Base.{ℕ, ◌+◌, Bool, true, false, leb, List, [], ◌∷◌}
use generation_balance_servi.Errors.{Result, ok, raise, transport_error}
use generation_balance_servi.Redis.{Redis, Call, run}

pub data Fault : Type 0 where
  delivered request_lost reply_lost : Fault

pub record Attempt : Type 0 where
  pub before : List Call
  pub fault : Fault

module _ {ℓ} {A : Type ℓ} where
  -- How an attempt ends: `start` is the state that it met, `landed` what the script made of it. The
  -- last attempt raises, any other is made again.
  abbrev pub after_fault :
      Fault → Bool → Redis → A × Redis → (Redis → Result A × Redis) → Result A × Redis
  after_fault delivered last start landed again = (ok landed.0, landed.1)
  after_fault request_lost true start landed again = (raise transport_error, start)
  after_fault request_lost false start landed again = again start
  after_fault reply_lost true start landed again = (raise transport_error, landed.1)
  after_fault reply_lost false start landed again = again landed.1

  -- The loop, from the attempt with the given number. Attempts beyond the end of the list are
  -- delivered.
  unfoldable pub retrying_from :
      ℕ → ℕ → List Attempt → (Redis → A × Redis) → Redis → Result A × Redis
  retrying_from retry_attempts attempt [] script r = (ok (script r).0, (script r).1)
  retrying_from retry_attempts attempt (w ∷ wire) script r =
      after_fault w.fault (leb retry_attempts attempt) (run w.before r) (script (run w.before r))
        (λ s. retrying_from retry_attempts (attempt + 1) wire script s)

  unfoldable pub retrying : ℕ → List Attempt → (Redis → A × Redis) → Redis → Result A × Redis
  unfolding retrying_from
  retrying retry_attempts = retrying_from retry_attempts 1
