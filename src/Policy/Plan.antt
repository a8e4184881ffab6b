-- ===== src/Policy/Plan.antt =====
-- What `_build_plan` returns, and when it refuses.
use generation_balance_servi.Base.{
  ◌≡◌, ◌↔◌, Bool, pos, ◌+ℤ◌, ◌-ℤ◌, ◌≤ℤ◌, ◌<ℤ◌, min_ℤ, min_ℤ_cases, ltb_ℤ, if◌then◌else◌, int_laws,
}
use generation_balance_servi.Errors.{ok, raise, insufficient_balance}
use generation_balance_servi.Money.{Decimal}
use generation_balance_servi.Policy.Types.{
  BalanceView, DebitPlan, total_usd, DebitPolicy, Buckets, no_money, charge_order,
}
use generation_balance_servi.Policy.Authorize.{fill, build_plan, available, int}
use generation_balance_servi.Policy.Fill.{
  IsNonneg, fill_all, charge_order-IsFresh, fill-eq-fill_all,
}

-- Each part of the plan is non-negative and at most what the balance holds.
pub record IsCovered (plan : DebitPlan) (balance : BalanceView) : Type 0 where
  pub free_nonneg : pos 0 ≤ℤ plan.free_usd
  pub bonus_nonneg : pos 0 ≤ℤ plan.bonus_usd
  pub paid_nonneg : pos 0 ≤ℤ plan.paid_usd
  pub free_le : plan.free_usd ≤ℤ balance.free_usd
  pub bonus_le : plan.bonus_usd ≤ℤ balance.bonus_usd
  pub paid_le : plan.paid_usd ≤ℤ balance.paid_usd

-- What a policy may spend of a balance.
abbrev pub spendable : DebitPolicy → BalanceView → Decimal
spendable DebitPolicy.paid_only balance = balance.paid_usd
spendable DebitPolicy.paid_then_free_then_bonus balance =
    balance.paid_usd +ℤ balance.free_usd +ℤ balance.bonus_usd
spendable DebitPolicy.default balance = balance.free_usd +ℤ balance.bonus_usd +ℤ balance.paid_usd

-- The plan in closed form: each bucket gives what it can of what the buckets before it left.
unfoldable pub waterfall : DebitPolicy → BalanceView → Decimal → Buckets × Decimal
waterfall DebitPolicy.paid_only b amount =
    let t = min_ℤ b.paid_usd amount in
    (record { free = pos 0; bonus = pos 0; paid = t }, amount -ℤ t)
waterfall DebitPolicy.paid_then_free_then_bonus b amount =
    let t = min_ℤ b.paid_usd amount in
    let u = min_ℤ b.free_usd (amount -ℤ t) in
    let v = min_ℤ b.bonus_usd (amount -ℤ t -ℤ u) in
    (record { free = u; bonus = v; paid = t }, amount -ℤ t -ℤ u -ℤ v)
waterfall DebitPolicy.default b amount =
    let t = min_ℤ b.free_usd amount in
    let u = min_ℤ b.bonus_usd (amount -ℤ t) in
    let v = min_ℤ b.paid_usd (amount -ℤ t -ℤ u) in
    (record { free = t; bonus = u; paid = v }, amount -ℤ t -ℤ u -ℤ v)

pub fill-eq-waterfall :
    (policy : DebitPolicy) (balance : BalanceView) (amount : Decimal)
    → IsNonneg (available balance)
    → fill (available balance) (charge_order policy) no_money amount
      ≡ waterfall policy balance amount
unfolding charge_order fill_all waterfall
fill-eq-waterfall DebitPolicy.paid_only balance amount n =
    fill-eq-fill_all _ _ _ _ n (charge_order-IsFresh DebitPolicy.paid_only)
fill-eq-waterfall DebitPolicy.paid_then_free_then_bonus balance amount n =
    fill-eq-fill_all _ _ _ _ n (charge_order-IsFresh DebitPolicy.paid_then_free_then_bonus)
fill-eq-waterfall DebitPolicy.default balance amount n =
    fill-eq-fill_all _ _ _ _ n (charge_order-IsFresh DebitPolicy.default)

-- The facts about a waterfall that the theorems below are made of.
pub record IsWaterfall (b : BalanceView) (policy : DebitPolicy) (amount : Decimal) (u : Buckets)
    (rest : Decimal) : Type 0 where
  pub total : u.free +ℤ u.bonus +ℤ u.paid +ℤ rest ≡ amount
  pub rest_nonneg : pos 0 ≤ℤ rest
  pub free_nonneg : pos 0 ≤ℤ u.free
  pub bonus_nonneg : pos 0 ≤ℤ u.bonus
  pub paid_nonneg : pos 0 ≤ℤ u.paid
  pub free_le : u.free ≤ℤ b.free_usd
  pub bonus_le : u.bonus ≤ℤ b.bonus_usd
  pub paid_le : u.paid ≤ℤ b.paid_usd
  pub within : u.free +ℤ u.bonus +ℤ u.paid ≤ℤ spendable policy b
  pub short : pos 0 <ℤ rest → spendable policy b +ℤ rest ≡ amount

pub waterfall-IsWaterfall :
    (policy : DebitPolicy) (b : BalanceView) (amount : Decimal)
    → IsNonneg (available b)
    → pos 0 ≤ℤ amount
    → let (u, rest) = waterfall policy b amount in IsWaterfall b policy amount u rest
unfolding waterfall
waterfall-IsWaterfall DebitPolicy.paid_only b amount n h =
    grind (int_laws, min_ℤ_cases b.paid_usd amount)
waterfall-IsWaterfall DebitPolicy.paid_then_free_then_bonus b amount n h =
    let t = min_ℤ b.paid_usd amount in
    let u = min_ℤ b.free_usd (amount -ℤ t) in
    grind (
      int_laws,
      min_ℤ_cases b.paid_usd amount,
      min_ℤ_cases b.free_usd (amount -ℤ t),
      min_ℤ_cases b.bonus_usd (amount -ℤ t -ℤ u),
    )
waterfall-IsWaterfall DebitPolicy.default b amount n h =
    let t = min_ℤ b.free_usd amount in
    let u = min_ℤ b.bonus_usd (amount -ℤ t) in
    grind (
      int_laws,
      min_ℤ_cases b.free_usd amount,
      min_ℤ_cases b.bonus_usd (amount -ℤ t),
      min_ℤ_cases b.paid_usd (amount -ℤ t -ℤ u),
    )

module _ (balance : BalanceView) (amount : Decimal) (policy : DebitPolicy) (consumes : Bool) where
  planned : Buckets → DebitPlan
  planned u = record {
    free_usd = u.free;
    bonus_usd = u.bonus;
    paid_usd = u.paid;
    free_requests = int consumes;
  }

  build_plan-waterfall :
      IsNonneg (available balance)
      → let (u, rest) = waterfall policy balance amount in
        build_plan balance amount policy consumes
        ≡ (if ltb_ℤ (pos 0) rest then raise insufficient_balance else ok (planned u))
  unfolding build_plan planned
  build_plan-waterfall n = rw (fill-eq-waterfall policy balance amount n)

  -- For non-negative funds and a non-negative amount, a plan that is returned comes to the
  -- amount, is covered by the balance bucket by bucket, and takes one free request exactly if it
  -- was to consume one.
  pub build_plan_sound :
      {plan : DebitPlan}
      → IsNonneg (available balance)
      → pos 0 ≤ℤ amount
      → build_plan balance amount policy consumes ≡ ok plan
      → (total_usd plan ≡ amount) × IsCovered plan balance × (plan.free_requests ≡ int consumes)
  unfolding planned total_usd
  build_plan_sound n h e =
      let w = waterfall-IsWaterfall policy balance amount n h in
      grind (int_laws, build_plan-waterfall n, w)

  -- For non-negative funds and a non-negative amount, the plan is refused with
  -- InsufficientBalanceError exactly when the buckets that the policy may charge hold less than
  -- the amount.
  pub build_plan_refuses_iff :
      IsNonneg (available balance)
      → pos 0 ≤ℤ amount
      → (build_plan balance amount policy consumes ≡ raise insufficient_balance)
        ↔ (spendable policy balance <ℤ amount)
  build_plan_refuses_iff n h =
      let w = waterfall-IsWaterfall policy balance amount n h in
      (
        λ e. grind (int_laws, build_plan-waterfall n, w),
        λ e. grind (int_laws, build_plan-waterfall n, w),
      )
