-- ===== src/Billing/Settled.antt =====
-- The settlement of a generation ends, and leaves its record done, or finished by another.
use generation_balance_servi.Base.{ℕ, zero, suc, ◌≡◌, refl}
use generation_balance_servi.Errors.{balance_contention, generation_failed}
use generation_balance_servi.Money.{Decimal}
use generation_balance_servi.Policy.{GenerationRequest, GenerationResult, Authorization, DebitPlan}
use generation_balance_servi.Surplus.{surplus_refund}
use generation_balance_servi.Store.{SettleOutcome}
use generation_balance_servi.Store.Recognises.{HasRecord}
use generation_balance_servi.Machine.{Machine}
use generation_balance_servi.Machine.Rules.{
  Setting, IsSchedule, Advance, Advance-refl, Goes, proceed-Goes,
}
use generation_balance_servi.Billing.Configs.{Config}
use generation_balance_servi.Billing.Remote.{settle, refund}
use generation_balance_servi.Billing.Generation.{
  charge, settle_again, settle_attempts, settle_generation,
}
use generation_balance_servi.Billing.Following.{Follows, Ran-HasRecord, IsFinished-of-NotRunning}
use generation_balance_servi.Billing.Steps.{Admits}
use generation_balance_servi.Billing.Facts.{IsDone, SettleSays}
use generation_balance_servi.Billing.Outcomes.{settle-Goes}
use generation_balance_servi.Billing.Attempts.{reload-Goes}

module _ (c : Setting) (own : Admits c.allowed) (config : Config) (id : ℕ)
    (follows : Follows id c) where
  open c use {allowed}

  settle_attempts-Goes :
      (attempts : ℕ) (request : GenerationRequest) (result : GenerationResult) (charged : Decimal)
      (refund : DebitPlan) (m : Machine)
      → request.client_request_id ≡ id
      → IsSchedule allowed m.schedule
      → HasRecord id m.world.redis
      → Goes c m
          (λ d m'. (d ≡ charged) × IsDone id m'.world.redis)
          (settle_attempts config attempts request result charged refund m)
  unfolding settle_attempts
  settle_attempts-Goes zero request result charged refund m is_id s h = (
    Advance-refl allowed m s,
    c.harmless (balance_contention "settle retries exhausted") m.world.redis refl,
  )
  settle_attempts-Goes (suc attempts) request result charged refund m is_id s h =
      let again =
        λ (m' : Machine). settle_attempts config attempts request result charged refund m' in
      proceed-Goes c m (λ o m'. SettleSays request.client_request_id o m'.world.redis)
        (λ d m'. (d ≡ charged) × IsDone id m'.world.redis)
        (settle config.store request.user_id request.client_request_id result.content charged
          result.billed_cost_usd refund m)
        (settle_again config request.user_id charged again)
        (settle-Goes c own config.store request.user_id request.client_request_id result.content
          charged result.billed_cost_usd refund m s)
        (λ o m₁ h₁ says.
          let kept = Ran-HasRecord c id follows m.world.redis m₁.world.redis h₁.ran h in
          after o m₁ h₁.schedule kept (rw (← is_id) says) (λ m₂ h₂.
            settle_attempts-Goes attempts request result charged refund m₂ is_id h₂.schedule
              (Ran-HasRecord c id follows m₁.world.redis m₂.world.redis h₂.ran kept)))
    where
      after :
          (o : SettleOutcome) (m₁ : Machine)
          → IsSchedule allowed m₁.schedule
          → HasRecord id m₁.world.redis
          → SettleSays id o m₁.world.redis
          → ((m₂ : Machine)
              → Advance allowed m₁ m₂
              → Goes c m₂
                  (λ d m'. (d ≡ charged) × IsDone id m'.world.redis)
                  (settle_attempts config attempts request result charged refund m₂))
          → Goes c m₁
              (λ d m'. (d ≡ charged) × IsDone id m'.world.redis)
              (settle_again config request.user_id charged
                (λ m'. settle_attempts config attempts request result charged refund m')
                o
                m₁)
      after SettleOutcome.applied m₁ s₁ kept says k = (Advance-refl allowed m₁ s₁, (refl, says))
      after SettleOutcome.already_applied m₁ s₁ kept says k =
          (Advance-refl allowed m₁ s₁, (refl, says))
      after SettleOutcome.stale m₁ s₁ kept says k = (
        Advance-refl allowed m₁ s₁,
        follows.finished (generation_failed "reservation was reaped before settle") m₁.world.redis
            (IsFinished-of-NotRunning id m₁.world.redis kept says),
      )
      after SettleOutcome.missing m₁ s₁ kept says k =
          reload-Goes c own config request.user_id m₁
            (λ d m'. (d ≡ charged) × IsDone id m'.world.redis)
            (λ m'. settle_attempts config attempts request result charged refund m') s₁ k

  -- A settlement that returns leaves the record done, and returns the charge.
  pub settle_generation-Goes :
      (request : GenerationRequest) (auth : Authorization) (result : GenerationResult) (m : Machine)
      → request.client_request_id ≡ id
      → IsSchedule allowed m.schedule
      → HasRecord id m.world.redis
      → Goes c m
          (λ d m'. (d ≡ charge auth.debit_plan result.billed_cost_usd) × IsDone id m'.world.redis)
          (settle_generation config request auth result m)
  unfolding settle_generation
  settle_generation-Goes request auth result m is_id s h =
      let charged = charge auth.debit_plan result.billed_cost_usd in
      settle_attempts-Goes config.billing.reserve_max_attempts request result charged
        (surplus_refund auth.debit_plan auth.debit_policy charged) m is_id s h
