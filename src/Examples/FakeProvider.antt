-- ===== src/Examples/FakeProvider.antt =====
-- Two calls of the provider of the tests that overlap, one of them to fail.
use generation_balance_servi.Base.{
  ◌≡◌, refl, true, false, pos, ◌+ℤ◌, ◌-ℤ◌, max_ℤ, min_ℤ, scale, some, insert, List, [], ◌∷◌, lookup,
  length,
}
use generation_balance_servi.Money.{cents, micros_to_money}
use generation_balance_servi.Policy.{
  GenerationResult, authorize, models, build_plan, fill, total_usd,
}
use generation_balance_servi.Surplus.{surplus_refund}
use generation_balance_servi.Store.{snapshot_from_hash}
use generation_balance_servi.Billing.{failed, answered, charge}
use generation_balance_servi.FakeProvider.{
  Event, set, look, begin, end, default_scenario, step, run, fresh, enter, leave, outcome,
  get_stats, get_or,
}
use generation_balance_servi.FakeProvider.Counted.{peak, entries, get_stats_lem}
use generation_balance_servi.FakeProvider.Charges.{answer_charges_cost}
use generation_balance_servi.Examples.Policy.{premium_request, premium_authorization}
use generation_balance_servi.Examples.Redis.{dollar_hash}

abbrev overlapping : List Event
overlapping =
    set 42 (record { delay = 5; fail = true })
    ∷ look premium_request (cents 20)
    ∷ look premium_request (cents 20)
    ∷ begin 1
    ∷ begin 0
    ∷ end 0 true
    ∷ []

-- The call that is left fails as its scenario says.
left_test :
    (step default_scenario (end 0 false) (run default_scenario overlapping fresh)).0
    ≡ some (failed "generation failed" "RuntimeError")
unfolding run insert enter max_ℤ ◌+ℤ◌ leave outcome ◌-ℤ◌
left_test = refl

peak_test : peak default_scenario overlapping fresh ≡ pos 2
unfolding insert enter max_ℤ ◌+ℤ◌ leave ◌-ℤ◌
peak_test = refl

get_stats_lem_example :
    let s = run default_scenario overlapping fresh in
    let stats = get_stats s.shared in
    (stats.active_calls ≡ pos (length s.asleep))
    × (stats.max_active_calls ≡ peak default_scenario overlapping fresh)
    × (get_or (lookup 42 stats.calls) 0 ≡ entries default_scenario 42 overlapping fresh)
get_stats_lem_example = get_stats_lem default_scenario 42 overlapping

answer_charges_cost_example :
    let cost = premium_authorization.estimated_cost_usd in
    (result : GenerationResult) × (outcome premium_request cost default_scenario false
      ≡ answered result)
    × (result.client_request_id ≡ 42)
    × (charge premium_authorization.debit_plan result.billed_cost_usd ≡ cost)
    × (total_usd (
          surplus_refund premium_authorization.debit_plan premium_authorization.debit_policy
            (charge premium_authorization.debit_plan result.billed_cost_usd))
        ≡ pos 0)
unfolding authorize models snapshot_from_hash micros_to_money scale build_plan fill ◌-ℤ◌ min_ℤ
answer_charges_cost_example =
    answer_charges_cost premium_request dollar_hash default_scenario refl refl
