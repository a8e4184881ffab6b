-- ===== src/FakeProvider/Charges.antt =====
-- What a generation that the provider of the tests answers is charged.
use generation_balance_servi.Base.{
  str_append, ◌≡◌, refl, sym, ap, ◌∙◌, ◌≤ℤ◌, ◌-ℤ◌, false, pos, pos_part, neg_part, eq_of_parts,
  arith, int_laws,
}
use generation_balance_servi.Errors.{ok}
use generation_balance_servi.Money.{Decimal, quantize_money, micros_to_money}
use generation_balance_servi.Money.Conversion.{quantize_money_bounds, micros_to_money_parts}
use generation_balance_servi.Policy.{
  GenerationRequest, GenerationResult, Authorization, authorize, total_usd,
}
use generation_balance_servi.Policy.Access.{authorize-IsAuthorized}
use generation_balance_servi.Policy.Exact.{IsExact, authorize-AllExact}
use generation_balance_servi.Surplus.{surplus_refund}
use generation_balance_servi.Surplus.Lifo.{clamp, surplus_refund_lem}
use generation_balance_servi.Surplus.Plans.{authorize-IsPlanOf}
use generation_balance_servi.Redis.{BalanceHash}
use generation_balance_servi.Store.{snapshot_from_hash}
use generation_balance_servi.Billing.{answered, charge}
use generation_balance_servi.Billing.Converted.{quantize-IsExact, clamp_of_range, snapshot-AllExact}
use generation_balance_servi.FakeProvider.{ProviderScenario, outcome}

quantize_exact : (d : Decimal) → pos 0 ≤ℤ d → IsExact d → quantize_money d ≡ d
quantize_exact d h (m, e) =
    let (lo, hi, near) = quantize_money_bounds d h in
    let (k, f) = quantize-IsExact d in
    let same : k ≡ m = eq_of_parts k m (
      omega (
        int_laws,
        micros_to_money_parts m,
        micros_to_money_parts k,
        ap pos_part e,
        ap neg_part e,
        ap pos_part f,
        ap neg_part f,
        lo,
        hi,
        near,
        h,
      )) in
    sym f ∙ ap micros_to_money same ∙ e

sub_self : (c : Decimal) → c -ℤ c ≡ pos 0
sub_self c = omega int_laws

-- A generation of an authorized request that the provider of the tests answers is charged exactly the
-- authorized cost, and nothing of the plan goes back.
pub answer_charges_cost :
    (request : GenerationRequest) (b : BalanceHash) (scenario : ProviderScenario)
    {auth : Authorization}
    → authorize request (snapshot_from_hash b).view ≡ ok auth
    → scenario.fail ≡ false
    → (result : GenerationResult) × (outcome request auth.estimated_cost_usd scenario false
        ≡ answered result)
      × (result.client_request_id ≡ request.client_request_id)
      × (charge auth.debit_plan result.billed_cost_usd ≡ auth.estimated_cost_usd)
      × (total_usd (
            surplus_refund auth.debit_plan auth.debit_policy
              (charge auth.debit_plan result.billed_cost_usd))
          ≡ pos 0)
unfolding outcome charge
answer_charges_cost request b scenario {auth} e works =
    let view = (snapshot_from_hash b).view in
    let cost = auth.estimated_cost_usd in
    let authorized = authorize-IsAuthorized request view e in
    let total : total_usd auth.debit_plan ≡ cost = authorized.total in
    let nonneg : pos 0 ≤ℤ cost = omega (arith, authorized.priced) in
    let clamped : clamp cost (total_usd auth.debit_plan) ≡ cost =
      clamp_of_range cost (total_usd auth.debit_plan) nonneg (rw total (omega arith)) in
    let exact = (authorize-AllExact request view (snapshot-AllExact b) e).1 in
    let charged : charge auth.debit_plan cost ≡ cost =
      ap quantize_money clamped ∙ quantize_exact cost nonneg exact in
    let refund =
      surplus_refund_lem auth.debit_plan auth.debit_policy cost
        (authorize-IsPlanOf request view e) in
    (
      record {
        client_request_id = request.client_request_id;
        content = str_append "generated:" request.model_name;
        billed_cost_usd = cost;
      },
      rw works refl,
      refl,
      charged,
      ap (λ x. total_usd (surplus_refund auth.debit_plan auth.debit_policy x)) charged
          ∙ refund.0
          ∙ ap (λ x. total_usd auth.debit_plan -ℤ x) clamped
          ∙ ap (λ x. x -ℤ cost) total
          ∙ sub_self cost,
    )
