-- ===== src/Billing/Converted.antt =====
-- The arguments of SETTLE for an authorized plan always convert, whatever the provider bills.
use generation_balance_servi.Base.{
  ◌≡◌, refl, ap, ℤ, pos, ◌+ℤ◌, ◌-ℤ◌, ◌≤ℤ◌, min_ℤ, String, int_laws, pos_part, neg_part, max_ℤ_cases,
  max_ℤ-IsMax, min_ℤ-IsMin, inl, inr,
}
use mathlib.Core.List.{reverse}
use generation_balance_servi.Errors.{ok}
use generation_balance_servi.Money.{Decimal, quantize_money, micros_to_money}
use generation_balance_servi.Money.Conversion.{
  micros_to_money_parts, micros_to_money-money_to_micros, quantize_money-IsExact,
  quantize_money_bounds,
}
use generation_balance_servi.Policy.{
  GenerationRequest, Authorization, DebitPlan, DebitPolicy, total_usd, funds, no_money,
  charge_order, available, authorize,
}
use generation_balance_servi.Policy.Exact.{
  IsExact, AllExact, IsExact-converts, IsExact-zero, IsExact-sub, IsExact-min, fill-AllExact,
  authorize-AllExact,
}
use generation_balance_servi.Surplus.{surplus_refund}
use generation_balance_servi.Surplus.Lifo.{
  IsPlanOf, clamp, clamp_bounds, IsPlanOf-nonneg, total_usd_nonneg,
}
use generation_balance_servi.Redis.{BalanceHash, SettleArgs}
use generation_balance_servi.Store.{StoreConfig, snapshot_from_hash}
use generation_balance_servi.Store.Methods.{settle_args}
use generation_balance_servi.Billing.Generation.{charge}

micros_to_money-add : (a b : ℤ) → micros_to_money (a +ℤ b) ≡ micros_to_money a +ℤ micros_to_money b
micros_to_money-add a b =
    omega
      (int_laws, micros_to_money_parts a, micros_to_money_parts b, micros_to_money_parts (a +ℤ b))

pub micros_eq : (x y : ℤ) → micros_to_money x ≡ micros_to_money y → x ≡ y
micros_eq x y h =
    omega (int_laws, micros_to_money_parts x, micros_to_money_parts y, ap pos_part h, ap neg_part h)

IsExact-add : {c d : Decimal} → IsExact c → IsExact d → IsExact (c +ℤ d)
IsExact-add {c} {d} x y = (x.0 +ℤ y.0, rw (micros_to_money-add x.0 y.0, x.1, y.1) refl)

total-IsExact : (plan : DebitPlan) → AllExact (funds plan) → IsExact (total_usd plan)
unfolding total_usd
total-IsExact plan e = IsExact-add (IsExact-add e.free e.bonus) e.paid

pub quantize-IsExact : (d : Decimal) → IsExact (quantize_money d)
quantize-IsExact d =
    let (m, e) = quantize_money-IsExact d in
    (m, micros_to_money-money_to_micros (quantize_money d) e)

clamp-IsExact : (d t : Decimal) → IsExact d → IsExact t → IsExact (clamp d t)
clamp-IsExact d t x y = elim (max_ℤ_cases (pos 0) (min_ℤ d t)) [
  | inl e ↦ rw e.0 IsExact-zero
  | inr e ↦ rw e.0 (IsExact-min x y)
]

refund-AllExact :
    (plan : DebitPlan) (policy : DebitPolicy) (billed : Decimal)
    → AllExact (funds plan)
    → IsExact billed
    → AllExact (funds (surplus_refund plan policy billed))
unfolding surplus_refund
refund-AllExact plan policy billed e b =
    let total = total-IsExact plan e in
    fill-AllExact (funds plan) (reverse (charge_order policy)) no_money
      (total_usd plan -ℤ clamp billed (total_usd plan)) e
      (record { free = IsExact-zero; bonus = IsExact-zero; paid = IsExact-zero })
      (IsExact-sub total (clamp-IsExact billed (total_usd plan) b total))

charge-IsExact : (plan : DebitPlan) (billed : Decimal) → IsExact (charge plan billed)
unfolding charge
charge-IsExact plan billed = quantize-IsExact (clamp billed (total_usd plan))

pub charge_bounds :
    (plan : DebitPlan) (policy : DebitPolicy) (billed : Decimal)
    → IsPlanOf policy plan
    → (pos 0 ≤ℤ charge plan billed) × (charge plan billed ≤ℤ total_usd plan)
unfolding charge
charge_bounds plan policy billed p =
    let range =
      clamp_bounds billed (total_usd plan)
        (total_usd_nonneg plan (IsPlanOf-nonneg policy plan p)) in
    let whole = quantize_money_bounds (clamp billed (total_usd plan)) range.0 in
    (whole.0, omega (int_laws, whole.1, range.1))

pub clamp_of_range : (d t : Decimal) → pos 0 ≤ℤ d → d ≤ℤ t → clamp d t ≡ d
clamp_of_range d t h k = omega (int_laws, min_ℤ-IsMin d t, max_ℤ-IsMax (pos 0) (min_ℤ d t))

-- What Redis keeps is in whole micro-dollars.
pub snapshot-AllExact : (b : BalanceHash) → AllExact (available (snapshot_from_hash b).view)
unfolding snapshot_from_hash
snapshot-AllExact b = record {
  free = (b.free_usd, refl);
  bonus = (b.bonus_usd, refl);
  paid = (b.paid_usd, refl);
}

module _ (store : StoreConfig) (request : GenerationRequest) (b : BalanceHash)
    {auth : Authorization} (granted : authorize request (snapshot_from_hash b).view ≡ ok auth) where
  plan-AllExact : AllExact (funds auth.debit_plan)
  plan-AllExact =
      (authorize-AllExact request (snapshot_from_hash b).view (snapshot-AllExact b) granted).0

  -- Whatever the provider bills, the settlement of an authorized plan converts to the arguments of
  -- SETTLE, so that no answered generation fails on its conversion.
  pub settle_args_total :
      (content : String) (billed : Decimal)
      → (a : SettleArgs) × (settle_args store request.user_id request.client_request_id content
            (charge auth.debit_plan billed)
            billed
            (surplus_refund auth.debit_plan auth.debit_policy (charge auth.debit_plan billed))
          ≡ ok a)
  settle_args_total content billed =
      let charged = charge auth.debit_plan billed in
      let refund = surplus_refund auth.debit_plan auth.debit_policy charged in
      let e =
        refund-AllExact auth.debit_plan auth.debit_policy charged plan-AllExact
          (charge-IsExact auth.debit_plan billed) in
      let (c, ec) = IsExact-converts (charge-IsExact auth.debit_plan billed) in
      let (f, ef) = IsExact-converts e.free in
      let (o, eo) = IsExact-converts e.bonus in
      let (p, ep) = IsExact-converts e.paid in
      let (t, et) = IsExact-converts (total-IsExact refund e) in
      (
        record {
          content = content;
          billed = c;
          provider_billed = billed;
          ttl = store.generation_record_ttl_seconds;
          client_request_id = request.client_request_id;
          user_id = request.user_id;
          refund_free = f;
          refund_bonus = o;
          refund_paid = p;
          refunded_surplus = t;
        },
        rw (ec, ef, eo, ep, et) refl,
      )
