-- ===== src/Examples/Policy.antt =====
-- Money, the policy and the refund of a surplus at concrete inputs.
use generation_balance_servi.Base.{
  ◌≡◌, refl, ◌↔◌, ◌⊎◌, Bool, true, false, pos, ◌+ℤ◌, ◌-ℤ◌, ◌≤ℤ◌, ◌<ℤ◌, min_ℤ, max_ℤ, scale, arith,
}
use generation_balance_servi.Errors.{
  ok, raise, insufficient_balance, free_requests_exhausted, conditional_free_access_denied,
  value_error,
}
use generation_balance_servi.Money.{
  cents, money_quantum, quantize_money, money_to_micros, micros_to_money,
}
use generation_balance_servi.Money.Conversion.{quantize_money_bounds}
use generation_balance_servi.Policy.{
  AccessType, DebitPolicy, BalanceView, models, basic, premium, conditional, GenerationRequest,
  DebitPlan, Authorization, total_usd, charge_order, fill, available, build_plan, authorize,
}
use generation_balance_servi.Policy.Fill.{IsNonneg}
use generation_balance_servi.Policy.Plan.{
  IsCovered, spendable, waterfall, build_plan_sound, build_plan_refuses_iff,
}
use generation_balance_servi.Policy.Access.{
  IsAuthorized, authorize-IsAuthorized, authorize_denied_iff, authorize_exhausted_iff,
}
use generation_balance_servi.Surplus.{surplus_refund}
use generation_balance_servi.Surplus.Lifo.{
  IsPlanOf, as_balance, kept_of, clamp, kept-eq-waterfall, surplus_refund_lem,
}
use generation_balance_servi.Surplus.Plans.{authorize-IsPlanOf}

program : Unit {0}
unfolding authorize build_plan fill models charge_order min_ℤ max_ℤ ◌-ℤ◌ ◌+ℤ◌ total_usd
    surplus_refund scale money_to_micros micros_to_money quantize_money
program = tt

-- One dollar of paid funds.
abbrev pub dollar : BalanceView
dollar = record { free_usd = pos 0; bonus_usd = pos 0; paid_usd = cents 100; free_requests = pos 0 }

-- Five cents free, four cents bonus, no free requests.
abbrev gifts : BalanceView
gifts = record { free_usd = cents 5; bonus_usd = cents 4; paid_usd = pos 0; free_requests = pos 0 }

abbrev mixed : BalanceView
mixed = record {
  free_usd = cents 5;
  bonus_usd = cents 4;
  paid_usd = cents 6;
  free_requests = pos 2;
}

abbrev mixed' : BalanceView
mixed' = record mixed { bonus_usd = pos 0 }

abbrev pub premium_request : GenerationRequest
premium_request = record {
  user_id = 7;
  dialog_id = 3;
  client_request_id = 42;
  model_name = "premium";
  conditional_free_eligible = false;
}

abbrev pub premium_authorization : Authorization
premium_authorization = record {
  model = premium;
  debit_policy = DebitPolicy.paid_only;
  estimated_cost_usd = cents 20;
  debit_plan = record {
    free_usd = pos 0;
    bonus_usd = pos 0;
    paid_usd = cents 20;
    free_requests = pos 0;
  };
}

abbrev mixed_plan : DebitPlan
mixed_plan = record {
  free_usd = cents 5;
  bonus_usd = pos 0;
  paid_usd = cents 3;
  free_requests = pos 0;
}

authorize_premium : authorize premium_request dollar ≡ ok premium_authorization
unfolding program
authorize_premium = refl

basic_authorization :
    authorize (record premium_request { model_name = "basic" }) mixed
    ≡ ok (record {
      model = basic;
      debit_policy = DebitPolicy.default;
      estimated_cost_usd = cents 8;
      debit_plan = record mixed_plan { bonus_usd = cents 3; paid_usd = pos 0 };
    })
unfolding program
basic_authorization = refl

-- tests/unit/billing/test_surplus_refund.py
partial_surplus :
    surplus_refund mixed_plan DebitPolicy.default (cents 3)
    ≡ record { free_usd = cents 2; bonus_usd = pos 0; paid_usd = cents 3; free_requests = pos 0 }
unfolding program
partial_surplus = refl

too_fine : money_to_micros (pos 1) ≡ raise value_error
unfolding program
too_fine = refl

dollar-IsNonneg : IsNonneg (available dollar)
dollar-IsNonneg = omega arith

authorize-IsAuthorized_example : IsAuthorized premium_request dollar premium_authorization
authorize-IsAuthorized_example = authorize-IsAuthorized premium_request dollar authorize_premium

authorize_denied_iff_example :
    (authorize (record premium_request { model_name = "conditional" }) gifts
      ≡ raise conditional_free_access_denied)
    ↔ ((conditional.access_type ≡ AccessType.conditional_free)
        × (◌≡◌ {A = Bool} false false)
        × (gifts.paid_usd <ℤ conditional.paid_cost_usd))
unfolding program
authorize_denied_iff_example =
    authorize_denied_iff (record premium_request { model_name = "conditional" }) gifts
      {m = conditional} refl (record { funds = omega arith; free_requests = omega arith })

authorize_exhausted_iff_example :
    (authorize (record premium_request { model_name = "basic" }) gifts
      ≡ raise free_requests_exhausted)
    ↔ ((gifts.free_requests ≤ℤ pos 0)
        × (((basic.access_type ≡ AccessType.free) × (gifts.paid_usd ≤ℤ pos 0))
            ⊎ ((basic.access_type ≡ AccessType.conditional_free)
                × (◌≡◌ {A = Bool} false true)
                × (gifts.paid_usd <ℤ basic.paid_cost_usd))))
unfolding program
authorize_exhausted_iff_example =
    authorize_exhausted_iff (record premium_request { model_name = "basic" }) gifts {m = basic} refl
      (record { funds = omega arith; free_requests = omega arith })

build_plan_sound_example :
    (total_usd mixed_plan ≡ cents 8)
    × IsCovered mixed_plan mixed'
    × (mixed_plan.free_requests ≡ pos 0)
unfolding program
build_plan_sound_example =
    build_plan_sound mixed' (cents 8) DebitPolicy.default false {plan = mixed_plan} (omega arith)
      (omega arith) refl

build_plan_refuses_iff_example :
    (build_plan gifts (cents 20) DebitPolicy.default true ≡ raise insufficient_balance)
    ↔ (spendable DebitPolicy.default gifts <ℤ cents 20)
build_plan_refuses_iff_example =
    build_plan_refuses_iff gifts (cents 20) DebitPolicy.default true (omega arith) (omega arith)

kept-eq-waterfall_example :
    kept_of mixed_plan (surplus_refund mixed_plan DebitPolicy.default (cents 3))
    ≡ (waterfall DebitPolicy.default
        (as_balance mixed_plan)
        (clamp (cents 3) (total_usd mixed_plan))).0
kept-eq-waterfall_example =
    kept-eq-waterfall mixed_plan DebitPolicy.default (cents 3) (omega arith, tt, tt)

surplus_refund_lem_example :
    let refund = surplus_refund mixed_plan DebitPolicy.default (cents 3) in
    (total_usd refund ≡ total_usd mixed_plan -ℤ clamp (cents 3) (total_usd mixed_plan))
    × IsCovered refund (as_balance mixed_plan)
    × (refund.free_requests ≡ pos 0)
surplus_refund_lem_example =
    surplus_refund_lem mixed_plan DebitPolicy.default (cents 3) (omega arith, tt, tt)

authorize-IsPlanOf_example : IsPlanOf DebitPolicy.paid_only premium_authorization.debit_plan
authorize-IsPlanOf_example = authorize-IsPlanOf premium_request dollar authorize_premium

quantize_money_bounds_example :
    (pos 0 ≤ℤ quantize_money (pos 266666666600000000000000000))
    × (quantize_money (pos 266666666600000000000000000) ≤ℤ pos 266666666600000000000000000)
    × (pos 266666666600000000000000000
        <ℤ quantize_money (pos 266666666600000000000000000) +ℤ pos money_quantum)
quantize_money_bounds_example =
    quantize_money_bounds (pos 266666666600000000000000000) (omega arith)
