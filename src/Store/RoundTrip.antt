-- ===== src/Store/RoundTrip.antt =====
-- What the codec keeps: amounts go to Redis and come back unchanged.
use generation_balance_servi.Base.{◌≡◌, refl, ℤ, ◌≤ℤ◌, int_laws}
use generation_balance_servi.Errors.{ok, >>=-eq-ok}
use generation_balance_servi.Money.{micros_to_money, money_to_micros}
use generation_balance_servi.Money.Conversion.{
  money_to_micros-micros_to_money, micros_to_money-money_to_micros, micros_to_money_parts,
}
use generation_balance_servi.Policy.{DebitPlan}
use generation_balance_servi.Redis.{BalanceHash, Amounts}
use generation_balance_servi.Store.Codec.{
  snapshot_args, snapshot_from_hash, plan_args, plan_from_fields,
}

-- The snapshot of any balance hash converts back to arguments, and they are the same hash.
pub snapshot_args-snapshot_from_hash :
    (b : BalanceHash) → snapshot_args (snapshot_from_hash b) ≡ ok b
unfolding snapshot_args snapshot_from_hash
snapshot_args-snapshot_from_hash b =
    rw
      (
        money_to_micros-micros_to_money b.free_usd,
        money_to_micros-micros_to_money b.bonus_usd,
        money_to_micros-micros_to_money b.paid_usd,
      )
      refl

-- A plan whose amounts convert to arguments of a script reads back from those fields as the same
-- plan.
pub plan_from_fields-plan_args :
    (plan : DebitPlan) {p : Amounts} → plan_args plan ≡ ok p → plan_from_fields p ≡ plan
unfolding plan_args plan_from_fields
plan_from_fields-plan_args plan {p} e =
    let (f, ef, e₁) = >>=-eq-ok (money_to_micros plan.free_usd) _ e in
    let (b, eb, e₂) = >>=-eq-ok (money_to_micros plan.bonus_usd) _ e₁ in
    let (q, eq, e₃) = >>=-eq-ok (money_to_micros plan.paid_usd) _ e₂ in
    cc (
      micros_to_money-money_to_micros plan.free_usd ef,
      micros_to_money-money_to_micros plan.bonus_usd eb,
      micros_to_money-money_to_micros plan.paid_usd eq,
      e₃,
    )

-- Amounts in micro-dollars are ordered as the money is.
pub micros_le : (x y : ℤ) → micros_to_money x ≤ℤ micros_to_money y → x ≤ℤ y
micros_le x y h = omega (int_laws, micros_to_money_parts x, micros_to_money_parts y)
