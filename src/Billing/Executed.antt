-- ===== src/Billing/Executed.antt =====
-- A generation from the request to its answer.
use generation_balance_servi.Base.{
  ℕ, arith, ◌-◌, ◌≤◌, ◌≡◌, ◌⊎◌, refl, ap, sym, subst, Option-cases, ltb, Bool-cases, String, inl,
  inr,
}
use generation_balance_servi.Errors.{ok, Error, generation_failed, cancelled}
use generation_balance_servi.Money.{Decimal}
use generation_balance_servi.Policy.{
  GenerationRequest, GenerationResult, Authorization, authorize, models,
}
use generation_balance_servi.Redis.{Redis}
use generation_balance_servi.Store.{BalanceSnapshot}
use generation_balance_servi.Machine.{Machine, proceed, next, lift, throw}
use generation_balance_servi.Machine.Rules.{
  Setting, IsCalm, lift-Goes, IsSchedule, Advance-refl, Goes, proceed-Goes, next-Advance,
}
use generation_balance_servi.Billing.Configs.{Config}
use generation_balance_servi.Billing.Refunder.{refund_reservation}
use generation_balance_servi.Billing.Generation.{
  Answer, answered, failed, cancelled_with, Provider, or_else, Reserving, granted, resolved, charge,
  settle_generation, generate, after_answer, after_reserve, check_model, reserve_generation,
  execute_generation,
}
use generation_balance_servi.Billing.Steps.{Admits}
use generation_balance_servi.Billing.Facts.{IsDone, NotRunning}
use generation_balance_servi.Billing.Following.{
  Follows, IsOwn, HasRecord-of-IsOwn, Ran-HasRecord, Ran-IsOwn, IsFinished-of-NotRunning,
}
use generation_balance_servi.Billing.Attempts.{refund_reservation-Goes}
use generation_balance_servi.Billing.Settled.{settle_generation-Goes}
use generation_balance_servi.Billing.Answers.{IsCharge, charge-IsCharge, IsKept, Cached-IsKept}
use generation_balance_servi.Billing.Reserved.{ReservingSays, reserve_generation-Goes}

-- The answer of the provider to an authorized request, with the bill brought into the plan and
-- rounded down; the record is done, and was reserved with a token given out from the start on.
abbrev pub IsFresh : Provider → GenerationRequest → ℕ → GenerationResult → Redis → Type 0
IsFresh provider request start res r =
    (s : BalanceSnapshot) × (auth : Authorization) × (result : GenerationResult) × (authorize
        request s.view
      ≡ ok auth)
    × (provider request auth.estimated_cost_usd ≡ answered result)
    × (res.content ≡ result.content)
    × IsCharge auth.debit_plan result.billed_cost_usd res.billed_cost_usd
    × IsDone request.client_request_id r
    × IsOwn request.client_request_id start r

-- What a generation returns.
abbrev pub IsAnswer : Provider → GenerationRequest → ℕ → GenerationResult → Redis → Type 0
IsAnswer provider request start res r =
    (res.client_request_id ≡ request.client_request_id)
    × (IsFresh provider request start res r ⊎ IsKept request res r)

check_model-IsCalm : (request : GenerationRequest) → IsCalm (check_model request)
check_model-IsCalm request = elim (Option-cases (models request.model_name)) [
  | inl e ↦ rw (e, check_model) refl
  | inr (model, e) ↦ rw (e, check_model) tt
]

module _ (c : Setting) (own : Admits c.allowed) (config : Config) (provider : Provider)
    (request : GenerationRequest) (follows : Follows request.client_request_id c)
    (polls : 1 ≤ config.billing.running_poll_interval) (start : ℕ) where
  open c use {allowed}

  abbrev Post : GenerationResult → Machine → Type 0
  Post res m = IsAnswer provider request start res m.world.redis

  -- A refund before a failure is raised.
  failing-Goes :
      (auth : Authorization) (error : String) (e : Error) (m : Machine)
      → IsSchedule allowed m.schedule
      → IsOwn request.client_request_id start m.world.redis
      → Goes c m Post (
          proceed
            (refund_reservation config request.user_id request.client_request_id auth.debit_plan
              error m)
            (λ _. throw e))
  failing-Goes auth error e m s h =
      proceed-Goes c m (λ done m'. NotRunning request.client_request_id m'.world.redis) Post
        (refund_reservation config request.user_id request.client_request_id auth.debit_plan error
          m)
        (λ _. throw e)
        (refund_reservation-Goes c own config request.user_id request.client_request_id
          auth.debit_plan error m s)
        (λ done m' g n. (
          Advance-refl allowed m' g.schedule,
          follows.finished e m'.world.redis (
              IsFinished-of-NotRunning request.client_request_id m'.world.redis
                (Ran-HasRecord c request.client_request_id follows m.world.redis m'.world.redis
                  g.ran (HasRecord-of-IsOwn request.client_request_id start m.world.redis h))
                n),
        ))

  after_answer-Goes :
      (s : BalanceSnapshot) (auth : Authorization) (answer : Answer) (m : Machine)
      → authorize request s.view ≡ ok auth
      → provider request auth.estimated_cost_usd ≡ answer ⊎ (answer ≡ failed "" "TimeoutError")
      → IsSchedule allowed m.schedule
      → IsOwn request.client_request_id start m.world.redis
      → Goes c m Post (after_answer config request auth answer m)
  after_answer-Goes s auth (answered result) m by from t h =
      proceed-Goes c m
        (λ d m'.
          (d ≡ charge auth.debit_plan result.billed_cost_usd)
          × IsDone request.client_request_id m'.world.redis)
        Post (settle_generation config request auth result m) _
        (settle_generation-Goes c own config request.client_request_id follows request auth result m
          refl t (HasRecord-of-IsOwn request.client_request_id start m.world.redis h))
        (λ d m' g says. (
          Advance-refl allowed m' g.schedule,
          (
            refl,
            inl (
              s,
              auth,
              result,
              by,
              elim from [ inl e ↦ e | inr e ↦ cc ],
              refl,
              subst (IsCharge auth.debit_plan result.billed_cost_usd) (sym says.0)
                  (charge-IsCharge auth.debit_plan result.billed_cost_usd),
              says.1,
              Ran-IsOwn c request.client_request_id follows start m.world.redis m'.world.redis g.ran
                  h,
            ),
          ),
        ))
  after_answer-Goes s auth (failed text name) m by from t h =
      failing-Goes auth (or_else text name) (generation_failed (or_else text name)) m t h
  after_answer-Goes s auth (cancelled_with text name) m by from t h =
      failing-Goes auth (or_else text name) cancelled m t h

  generate-Goes :
      (cost : Decimal) (m : Machine)
      → IsSchedule allowed m.schedule
      → Goes c m
          (λ answer m'. (provider request cost ≡ answer) ⊎ (answer ≡ failed "" "TimeoutError"))
          (generate config provider request cost m)
  unfolding generate
  generate-Goes cost m s = (
    (next-Advance allowed m s).0,
    elim (Bool-cases (ltb config.billing.provider_timeout ((next m).1.clock - m.clock))) [
      | inl over ↦ rw over (inr refl)
      | inr time ↦ rw time (inl refl)
    ],
  )

  after_reserve-Goes :
      (x : Reserving) (m : Machine)
      → IsSchedule allowed m.schedule
      → ReservingSays request start x m.world.redis
      → Goes c m Post (after_reserve config provider request x m)
  after_reserve-Goes (resolved res) m s says = (
    Advance-refl allowed m s,
    (
      ap (λ (x : GenerationResult). x.client_request_id) says.4,
      inr (Cached-IsKept request res m.world.redis says),
    ),
  )
  after_reserve-Goes (granted auth) m s (h, (snapshot, by)) =
      proceed-Goes c m
        (λ answer m'.
          (provider request auth.estimated_cost_usd ≡ answer) ⊎ (answer ≡ failed "" "TimeoutError"))
        Post (generate config provider request auth.estimated_cost_usd m)
        (after_answer config request auth) (generate-Goes auth.estimated_cost_usd m s)
        (λ answer m' g from. after_answer-Goes snapshot auth answer m' by from g.schedule (
          Ran-IsOwn c request.client_request_id follows start m.world.redis m'.world.redis g.ran h))

  pub execute_generation-Goes :
      (m : Machine)
      → IsSchedule allowed m.schedule
      → start ≤ m.next_token
      → Goes c m Post (execute_generation config provider request m)
  unfolding execute_generation
  execute_generation-Goes m s t =
      proceed-Goes c m (λ known m'. check_model request ≡ ok known) Post
        (lift (check_model request) m) _
        (lift-Goes c (check_model request) m (check_model-IsCalm request) s)
        (λ known m₁ h₁ e.
          proceed-Goes c m₁ (λ x m'. ReservingSays request start x m'.world.redis) Post
            (reserve_generation config request m₁) (after_reserve config provider request)
            (reserve_generation-Goes c own config request follows polls start m₁ h₁.schedule
              (omega (arith, t, h₁.tokens)))
            (λ x m₂ h₂ says. after_reserve-Goes x m₂ h₂.schedule says))
