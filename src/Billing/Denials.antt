-- ===== src/Billing/Denials.antt =====
-- What the policy raises is no failure.
use generation_balance_servi.Base.{Bool, ◌&&◌, ◌||◌, refl, pos, ltb_ℤ, leb_ℤ, Option, none, some}
use generation_balance_servi.Errors.{Result, ok, raise, free_requests_exhausted}
use generation_balance_servi.Money.{Decimal}
use generation_balance_servi.Policy.{
  GenerationRequest, BalanceView, GenerationModel, AccessType, DebitPolicy, fill, available,
  charge_order, no_money, build_plan, terms_by_access, find_model, validate_balance, authorize,
  models,
}
use generation_balance_servi.Machine.Rules.{IsCalm}
use generation_balance_servi.Billing.Calm.{bind-IsCalm, if-IsCalm}

build_plan-IsCalm :
    (balance : BalanceView) (amount : Decimal) (policy : DebitPolicy) (consumes : Bool)
    → IsCalm (build_plan balance amount policy consumes)
unfolding build_plan
build_plan-IsCalm balance amount policy consumes =
    if-IsCalm (ltb_ℤ (pos 0) (fill (available balance) (charge_order policy) no_money amount).1) _ _
      refl tt

terms_by_access-IsCalm :
    (a : AccessType) (model : GenerationModel) (eligible : Bool) (balance : BalanceView)
    (has : Bool)
    → IsCalm (terms_by_access a model eligible balance has)
unfolding terms_by_access
terms_by_access-IsCalm AccessType.paid_only model eligible balance has = tt
terms_by_access-IsCalm AccessType.conditional_free model eligible balance has =
    if-IsCalm (has && leb_ℤ model.paid_cost_usd balance.paid_usd) _ _ tt
      (if-IsCalm eligible _ _ tt refl)
terms_by_access-IsCalm AccessType.free model eligible balance has = tt

find_model-IsCalm : (o : Option GenerationModel) → IsCalm (find_model o)
find_model-IsCalm none = refl
find_model-IsCalm (some model) = tt

validate_balance-IsCalm : (balance : BalanceView) → IsCalm (validate_balance balance)
unfolding validate_balance
validate_balance-IsCalm b =
    if-IsCalm
      (ltb_ℤ b.free_usd (pos 0)
        || ltb_ℤ b.bonus_usd (pos 0)
        || ltb_ℤ b.paid_usd (pos 0)
        || ltb_ℤ b.free_requests (pos 0))
      _ _ refl tt

pub authorize-IsCalm :
    (request : GenerationRequest) (balance : BalanceView) → IsCalm (authorize request balance)
unfolding authorize
authorize-IsCalm request balance =
    bind-IsCalm (find_model (models request.model_name)) _
      (find_model-IsCalm (models request.model_name))
      (λ model. bind-IsCalm (validate_balance balance) _ (validate_balance-IsCalm balance) (λ valid.
        bind-IsCalm
          (terms_by_access model.access_type model request.conditional_free_eligible balance
            (ltb_ℤ (pos 0) balance.paid_usd))
          _
          (terms_by_access-IsCalm model.access_type model request.conditional_free_eligible balance
            (ltb_ℤ (pos 0) balance.paid_usd))
          (λ terms.
            let denied : Result (Unit {0}) = raise free_requests_exhausted in
            bind-IsCalm _ _
              (if-IsCalm (terms.consumes_free_request && leb_ℤ balance.free_requests (pos 0)) denied
                (ok tt) refl tt)
              (λ enough.
                bind-IsCalm
                  (build_plan balance terms.estimated_cost_usd terms.debit_policy
                    terms.consumes_free_request)
                  _
                  (build_plan-IsCalm balance terms.estimated_cost_usd terms.debit_policy
                    terms.consumes_free_request)
                  (λ plan. tt)))))
