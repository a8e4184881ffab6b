-- ===== src/Billing/Generation.antt =====
-- `GenerationService`: backend/app/billing/generation.py. The provider is an argument: what it
-- answers to a request and the authorized cost.
use generation_balance_servi.Base.{
  ℕ, zero, suc, ◌+◌, ◌-◌, ◌==◌, ltb, leb, ◌&&◌, Bool, true, false, if◌then◌else◌, pos, min_ℤ, max_ℤ,
  ◌==ℤ◌, String, str_eq, Option, none, some,
}
use generation_balance_servi.Errors.{
  Error, Result, ok, raise, insufficient_balance, free_requests_exhausted,
  conditional_free_access_denied, invalid_input, generation_failed, generation_in_progress,
  balance_contention, cancelled,
}
use generation_balance_servi.Money.{Decimal, quantize_money}
use generation_balance_servi.Policy.{
  GenerationRequest, GenerationResult, Authorization, DebitPlan, total_usd, models, authorize,
}
use generation_balance_servi.Surplus.{surplus_refund}
use generation_balance_servi.Redis.{Status}
use generation_balance_servi.Store.{
  BalanceSnapshot, GenerationRecord, ReserveOutcome, SettleOutcome,
}
use generation_balance_servi.Machine.{
  returned, M, ◌>>=◌, ◌>>◌, pure, throw, lift, unfinished, next, sleep, monotonic,
}
use generation_balance_servi.Billing.Configs.{Config}
use generation_balance_servi.Billing.Remote.{reserve, get_generation, settle}
use generation_balance_servi.Billing.Loader.{ensure_loaded}
use generation_balance_servi.Billing.Refunder.{refund_reservation}

-- How a call of the provider ends. An exception carries its text and the name of its type. A
-- cancellation is no `Exception`.
pub data Answer : Type 0 where
  answered : GenerationResult → Answer
  failed : String → String → Answer
  cancelled_with : String → String → Answer

abbrev pub Provider : Type 0
Provider = GenerationRequest → Decimal → Answer

-- `text or other`
abbrev pub or_else : String → String → String
or_else text other = if str_eq text "" then other else text

abbrev pub some_or : Option String → String → String
some_or none other = other
some_or (some text) other = or_else text other

-- `amount or other`: a zero amount is false.
abbrev pub amount_or : Option Decimal → Decimal → Decimal
amount_or none other = other
amount_or (some amount) other = if amount ==ℤ pos 0 then other else amount

-- The three fields that a redelivery must repeat.
abbrev pub same_payload : GenerationRequest → GenerationRecord → Bool
same_payload request g =
    g.user_id == request.user_id
    && g.dialog_id == request.dialog_id
    && str_eq g.model_name request.model_name

-- What a record that is done answers.
abbrev pub cached_result : GenerationRequest → GenerationRecord → GenerationResult
cached_result request g = record {
  client_request_id = request.client_request_id;
  content = some_or g.content "";
  billed_cost_usd = amount_or g.billed_cost_usd g.authorized_cost_usd;
}

-- A turn of the loop in `_resolve_duplicate`; `again` polls.
abbrev pub resolve_by_status :
    ℕ
    → GenerationRequest
    → GenerationRecord
    → M (Option GenerationResult)
    → Status
    → M (Option GenerationResult)
resolve_by_status deadline request g again Status.done = pure (some (cached_result request g))
resolve_by_status deadline request g again Status.failed =
    throw (generation_failed (some_or g.error "generation failed"))
resolve_by_status deadline request g again Status.running = do
  now ← monotonic
  (if ltb deadline now then throw (generation_in_progress "generation still running") else again)

abbrev pub none_or :
    (GenerationRecord → M (Option GenerationResult))
    → Option GenerationRecord
    → M (Option GenerationResult)
none_or turn none = pure none
none_or turn (some fresh) = turn fresh

unfoldable pub resolve_turns :
    Config → ℕ → ℕ → GenerationRequest → GenerationRecord → M (Option GenerationResult)
resolve_turns config zero deadline request g = unfinished
resolve_turns config (suc turns) deadline request g =
    resolve_by_status deadline request g
      (do
        slept ← sleep config.billing.running_poll_interval
        fresh ← get_generation request.client_request_id
        none_or (λ g' m. resolve_turns config turns deadline request g' m) fresh)
      g.status

-- `_resolve_duplicate`. A turn that waits takes a millisecond at least.
unfoldable pub resolve_duplicate :
    Config → GenerationRequest → GenerationRecord → M (Option GenerationResult)
resolve_duplicate config request g =
    if same_payload request g
    then (do
      start ← monotonic
      resolve_turns config (config.billing.running_wait_timeout + 2)
          (start + config.billing.running_wait_timeout) request g)
    else throw (invalid_input "client_request_id reused with a different payload")

-- `_denied_or_duplicate`
abbrev pub resolve_or_deny :
    Config → GenerationRequest → Error → Option GenerationRecord → M (Option GenerationResult)
resolve_or_deny config request denied none = throw denied
resolve_or_deny config request denied (some g) = resolve_duplicate config request g

unfoldable pub denied_or_duplicate :
    Config → GenerationRequest → Error → M (Option GenerationResult)
denied_or_duplicate config request denied =
    get_generation request.client_request_id >>= resolve_or_deny config request denied

-- What `_reserve` returns.
pub data Reserving : Type 0 where
  granted : Authorization → Reserving
  resolved : GenerationResult → Reserving

-- The subclasses of `GenerationAccessError`.
abbrev pub is_access_error : Error → Bool
is_access_error insufficient_balance = true
is_access_error free_requests_exhausted = true
is_access_error conditional_free_access_denied = true
is_access_error _ = false

-- `_JITTER_AFTER_ATTEMPT`
abbrev pub jitter_after_attempt : ℕ
jitter_after_attempt = 5

-- `_reserve`, from a snapshot on; `again` is the next attempt.
abbrev pub resolved_or :
    Config
    → GenerationRequest
    → (BalanceSnapshot → M Reserving)
    → Option GenerationResult
    → M Reserving
resolved_or config request again (some result) = pure (resolved result)
resolved_or config request again none = ensure_loaded config request.user_id >>= again

abbrev pub reserve_again :
    Config
    → GenerationRequest
    → ℕ
    → Authorization
    → (BalanceSnapshot → M Reserving)
    → ReserveOutcome
    → M Reserving
reserve_again config request attempt auth again ReserveOutcome.reserved = pure (granted auth)
reserve_again config request attempt auth again (ReserveOutcome.conflict current) =
    if leb jitter_after_attempt attempt then sleep 0 >> again current else again current
reserve_again config request attempt auth again ReserveOutcome.missing =
    ensure_loaded config request.user_id >>= again
reserve_again config request attempt auth again (ReserveOutcome.duplicate g) =
    resolve_duplicate config request g >>= resolved_or config request again

abbrev pub reserve_attempt :
    Config
    → GenerationRequest
    → ℕ
    → BalanceSnapshot
    → (BalanceSnapshot → M Reserving)
    → Result Authorization
    → M Reserving
reserve_attempt config request attempt snapshot again (raise e) =
    if is_access_error e
    then denied_or_duplicate config request e >>= resolved_or config request again
    else throw e
reserve_attempt config request attempt snapshot again (ok auth) = do
  now ← monotonic
  outcome ←
      reserve config.store request snapshot.version auth.debit_plan auth.estimated_cost_usd
        (pos now)
  reserve_again config request attempt auth again outcome

-- The number of the attempt, and how many are left.
unfoldable pub reserve_attempts : Config → GenerationRequest → ℕ → ℕ → BalanceSnapshot → M Reserving
reserve_attempts config request attempt zero snapshot =
    throw (balance_contention "reservation retries exhausted")
reserve_attempts config request attempt (suc left) snapshot =
    reserve_attempt config request attempt snapshot
      (λ s m. reserve_attempts config request (attempt + 1) left s m)
      (authorize request snapshot.view)

unfoldable pub reserve_generation : Config → GenerationRequest → M Reserving
reserve_generation config request =
    ensure_loaded config request.user_id
    >>= reserve_attempts config request 0 config.billing.reserve_max_attempts

-- The bill, brought into the range of the plan, in whole micro-dollars.
unfoldable pub charge : DebitPlan → Decimal → Decimal
charge plan billed = quantize_money (max_ℤ (pos 0) (min_ℤ billed (total_usd plan)))

abbrev pub settle_again : Config → ℕ → Decimal → M Decimal → SettleOutcome → M Decimal
settle_again config user_id charged again SettleOutcome.applied = pure charged
settle_again config user_id charged again SettleOutcome.already_applied = pure charged
settle_again config user_id charged again SettleOutcome.stale =
    throw (generation_failed "reservation was reaped before settle")
settle_again config user_id charged again SettleOutcome.missing =
    ensure_loaded config user_id >> again

unfoldable pub settle_attempts :
    Config → ℕ → GenerationRequest → GenerationResult → Decimal → DebitPlan → M Decimal
settle_attempts config zero request result charged refund =
    throw (balance_contention "settle retries exhausted")
settle_attempts config (suc attempts) request result charged refund =
    settle config.store request.user_id request.client_request_id result.content charged
      result.billed_cost_usd refund
    >>= settle_again config request.user_id charged
        (λ m. settle_attempts config attempts request result charged refund m)

-- `_settle`
unfoldable pub settle_generation :
    Config → GenerationRequest → Authorization → GenerationResult → M Decimal
settle_generation config request auth result =
    let charged = charge auth.debit_plan result.billed_cost_usd in
    settle_attempts config config.billing.reserve_max_attempts request result charged
      (surplus_refund auth.debit_plan auth.debit_policy charged)

-- The call of the provider, under `asyncio.timeout`. It takes a moment.
unfoldable pub generate : Config → Provider → GenerationRequest → Decimal → M Answer
generate config provider request cost m =
    let m' = (next m).1 in
    (
      returned (
          if ltb config.billing.provider_timeout (m'.clock - m.clock)
          then failed "" "TimeoutError"
          else provider request cost),
      m',
    )

abbrev pub after_answer : Config → GenerationRequest → Authorization → Answer → M GenerationResult
after_answer config request auth (answered result) = do
  charged ← settle_generation config request auth result
  pure (record {
    client_request_id = request.client_request_id;
    content = result.content;
    billed_cost_usd = charged;
  })
after_answer config request auth (failed text name) =
    refund_reservation config request.user_id request.client_request_id auth.debit_plan
      (or_else text name)
    >> throw (generation_failed (or_else text name))
after_answer config request auth (cancelled_with text name) =
    refund_reservation config request.user_id request.client_request_id auth.debit_plan
      (or_else text name)
    >> throw cancelled

abbrev pub after_reserve : Config → Provider → GenerationRequest → Reserving → M GenerationResult
after_reserve config provider request (resolved result) = pure result
after_reserve config provider request (granted auth) =
    generate config provider request auth.estimated_cost_usd >>= after_answer config request auth

-- `model_name not in MODELS`; the message names the model.
abbrev pub check_model : GenerationRequest → Result (Unit {0})
check_model request = elim (models request.model_name) [
  | none ↦ raise (invalid_input "unknown model")
  | some _ ↦ ok tt
]

unfoldable pub execute_generation : Config → Provider → GenerationRequest → M GenerationResult
execute_generation config provider request = do
  known ← lift (check_model request)
  reserved ← reserve_generation config request
  after_reserve config provider request reserved
