-- ===== src/Surplus/Plans.antt =====
-- The plans that the policy grants are of the form that the refund of a surplus supposes.
use generation_balance_servi.Base.{◌≡◌, refl, sym, ◌∙◌, Bool, pos, arith}
use generation_balance_servi.Errors.{ok}
use generation_balance_servi.Money.{Decimal}
use generation_balance_servi.Policy.{
  GenerationRequest, BalanceView, Authorization, DebitPlan, DebitPolicy, funds, authorize,
  build_plan, fill,
}
use generation_balance_servi.Policy.Access.{authorize-IsAuthorized, authorize-Steps}
use generation_balance_servi.Policy.Fill.{IsNonneg}
use generation_balance_servi.Surplus.Lifo.{IsPlanOf}

paid_only_plan :
    (b : BalanceView) (amount : Decimal) (policy : DebitPolicy) (consumes : Bool) {plan : DebitPlan}
    → policy ≡ DebitPolicy.paid_only
    → build_plan b amount policy consumes ≡ ok plan
    → (plan.free_usd ≡ pos 0) × (plan.bonus_usd ≡ pos 0)
unfolding build_plan fill
paid_only_plan b amount policy consumes p e = ground arith

of_parts :
    (policy : DebitPolicy) (plan : DebitPlan)
    → IsNonneg (funds plan)
    → (policy ≡ DebitPolicy.paid_only → (plan.free_usd ≡ pos 0) × (plan.bonus_usd ≡ pos 0))
    → IsPlanOf policy plan
of_parts DebitPolicy.paid_only plan n h = (n, (h refl).0, (h refl).1)
of_parts DebitPolicy.default plan n h = (n, tt, tt)
of_parts DebitPolicy.paid_then_free_then_bonus plan n h = (n, tt, tt)

-- Every authorized plan is non-negative, and under the policy PAID_ONLY it takes from paid funds
-- alone.
pub authorize-IsPlanOf :
    (request : GenerationRequest) (b : BalanceView) {a : Authorization}
    → authorize request b ≡ ok a
    → IsPlanOf a.debit_policy a.debit_plan
authorize-IsPlanOf request b {a} e =
    let c = (authorize-IsAuthorized request b e).covered in
    let (t, s) = authorize-Steps request b e in
    of_parts a.debit_policy a.debit_plan
      (record { free = c.free_nonneg; bonus = c.bonus_nonneg; paid = c.paid_nonneg })
      (λ p.
        paid_only_plan b t.estimated_cost_usd t.debit_policy t.consumes_free_request
          (sym s.policy ∙ p) s.plan)
