-- ===== src/Policy/Authorize.antt =====
-- `DebitPolicyService`.
use generation_balance_servi.Base.{
  Bool, true, false, not, ◌&&◌, ◌||◌, ℤ, pos, ◌-ℤ◌, ltb_ℤ, leb_ℤ, ◌==ℤ◌, min_ℤ, if◌then◌else◌,
  Option, none, some, List, [], ◌∷◌,
}
use generation_balance_servi.Errors.{
  Result, ok, raise, ◌>>=◌, ◌>>◌, value_error, key_error, insufficient_balance,
  free_requests_exhausted, conditional_free_access_denied,
}
use generation_balance_servi.Money.{Decimal}
use generation_balance_servi.Policy.Types.{
  AccessType, DebitPolicy, BalanceView, GenerationModel, models, GenerationRequest, DebitPlan,
  Authorization, Bucket, Buckets, get, put, no_money, charge_order,
}

-- The loop over the order: take from each bucket in turn until nothing remains.
unfoldable pub fill : Buckets → List Bucket → Buckets → Decimal → Buckets × Decimal
fill stock [] used remaining = (used, remaining)
fill stock (bucket ∷ order) used remaining =
    let taken = min_ℤ (get stock bucket) remaining in
    let rest = fill stock order (put used bucket taken) (remaining -ℤ taken) in
    if (remaining -ℤ taken) ==ℤ pos 0 then (put used bucket taken, remaining -ℤ taken) else rest

abbrev pub int : Bool → ℤ
int true = pos 1
int false = pos 0

abbrev pub available : BalanceView → Buckets
available balance = record {
  free = balance.free_usd;
  bonus = balance.bonus_usd;
  paid = balance.paid_usd;
}

-- `_build_plan`
unfoldable pub build_plan : BalanceView → Decimal → DebitPolicy → Bool → Result DebitPlan
unfolding charge_order
build_plan balance amount policy consumes_free_request =
    let (used, remaining) = fill (available balance) (charge_order policy) no_money amount in
    if ltb_ℤ (pos 0) remaining
    then raise insufficient_balance
    else ok (record {
      free_usd = used.free;
      bonus_usd = used.bonus;
      paid_usd = used.paid;
      free_requests = int consumes_free_request;
    })

-- `_validate_balance`
unfoldable pub validate_balance : BalanceView → Result (Unit {0})
validate_balance balance =
    if ltb_ℤ balance.free_usd (pos 0)
      || ltb_ℤ balance.bonus_usd (pos 0)
      || ltb_ℤ balance.paid_usd (pos 0)
      || ltb_ℤ balance.free_requests (pos 0)
    then raise value_error
    else ok tt

-- The three local variables that the branches of `authorize` decide.
pub record Terms : Type 0 where
  pub debit_policy : DebitPolicy
  pub estimated_cost_usd : Decimal
  pub consumes_free_request : Bool

unfoldable pub terms_by_access :
    AccessType → GenerationModel → Bool → BalanceView → Bool → Result Terms
terms_by_access AccessType.paid_only model eligible balance has_paid_balance = ok (record {
  debit_policy = DebitPolicy.paid_only;
  estimated_cost_usd = model.paid_cost_usd;
  consumes_free_request = false;
})
terms_by_access AccessType.conditional_free model eligible balance has_paid_balance =
    if has_paid_balance && leb_ℤ model.paid_cost_usd balance.paid_usd
    then ok (record {
      debit_policy = DebitPolicy.paid_only;
      estimated_cost_usd = model.paid_cost_usd;
      consumes_free_request = false;
    })
    else if eligible
    then ok (record {
      debit_policy =
          if has_paid_balance then DebitPolicy.paid_then_free_then_bonus else DebitPolicy.default;
      estimated_cost_usd = model.free_cost_usd;
      consumes_free_request = true;
    })
    else raise conditional_free_access_denied
terms_by_access AccessType.free model eligible balance has_paid_balance = ok (record {
  debit_policy = DebitPolicy.default;
  estimated_cost_usd = if has_paid_balance then model.paid_cost_usd else model.free_cost_usd;
  consumes_free_request = not has_paid_balance;
})

abbrev pub find_model : Option GenerationModel → Result GenerationModel
find_model none = raise key_error
find_model (some model) = ok model

-- `authorize`
unfoldable pub authorize : GenerationRequest → BalanceView → Result Authorization
unfolding validate_balance terms_by_access
authorize request balance = do
  model ← find_model (models request.model_name)
  validate_balance balance
  terms ←
      terms_by_access model.access_type model request.conditional_free_eligible balance
        (ltb_ℤ (pos 0) balance.paid_usd)
  (if terms.consumes_free_request && leb_ℤ balance.free_requests (pos 0)
      then raise free_requests_exhausted
      else ok tt)
  debit_plan ←
      build_plan balance terms.estimated_cost_usd terms.debit_policy terms.consumes_free_request
  ok (record {
    model = model;
    debit_policy = terms.debit_policy;
    estimated_cost_usd = terms.estimated_cost_usd;
    debit_plan = debit_plan;
  })
