-- ===== src/Surplus/Lifo.antt =====
-- A surplus is given back in the reverse of the charge order, and what is kept is what the charge
-- order would have taken for the bill alone.
use mathlib.Core.List.{reverse}
use generation_balance_servi.Base.{
  ◌≡◌, refl, ap, ℤ, pos, ◌+ℤ◌, ◌-ℤ◌, ◌≤ℤ◌, min_ℤ, max_ℤ, IsMin, min_ℤ-IsMin, max_ℤ-IsMax, int_laws,
}
use generation_balance_servi.Money.{Decimal}
use generation_balance_servi.Policy.{
  BalanceView, DebitPlan, DebitPolicy, total_usd, funds, Buckets, no_money, charge_order,
}
use generation_balance_servi.Policy.Fill.{IsNonneg, IsFresh, fill_all, fill-eq-fill_all}
use generation_balance_servi.Policy.Plan.{
  IsCovered, spendable, waterfall, IsWaterfall, waterfall-IsWaterfall,
}
use generation_balance_servi.Surplus.{surplus_refund}

-- The bill, brought into the range from zero to the total of the plan.
abbrev pub clamp : Decimal → Decimal → Decimal
clamp billed total = max_ℤ (pos 0) (min_ℤ billed total)

-- A plan as the policy makes it: non-negative, and empty outside of the policy's order.
abbrev pub IsPlanOf : DebitPolicy → DebitPlan → Type 0
IsPlanOf DebitPolicy.paid_only plan =
    IsNonneg (funds plan) × (plan.free_usd ≡ pos 0) × (plan.bonus_usd ≡ pos 0)
IsPlanOf DebitPolicy.default plan = IsNonneg (funds plan) × Unit {0} × Unit {0}
IsPlanOf DebitPolicy.paid_then_free_then_bonus plan = IsNonneg (funds plan) × Unit {0} × Unit {0}

reverse-IsFresh : (policy : DebitPolicy) → IsFresh no_money (reverse (charge_order policy))
unfolding charge_order
reverse-IsFresh DebitPolicy.paid_only = (refl, λ v. tt)
reverse-IsFresh DebitPolicy.default = (refl, λ v. (refl, λ w. (refl, λ x. tt)))
reverse-IsFresh DebitPolicy.paid_then_free_then_bonus = (refl, λ v. (refl, λ w. (refl, λ x. tt)))

-- The refund in closed form: the last bucket charged gives back first.
give_back : DebitPolicy → DebitPlan → Decimal → DebitPlan
give_back DebitPolicy.paid_only plan rest = record {
  free_usd = pos 0;
  bonus_usd = pos 0;
  paid_usd = min_ℤ plan.paid_usd rest;
  free_requests = pos 0;
}
give_back DebitPolicy.default plan rest =
    let z = min_ℤ plan.paid_usd rest in
    let y = min_ℤ plan.bonus_usd (rest -ℤ z) in
    let x = min_ℤ plan.free_usd (rest -ℤ z -ℤ y) in
    record { free_usd = x; bonus_usd = y; paid_usd = z; free_requests = pos 0 }
give_back DebitPolicy.paid_then_free_then_bonus plan rest =
    let z = min_ℤ plan.bonus_usd rest in
    let y = min_ℤ plan.free_usd (rest -ℤ z) in
    let x = min_ℤ plan.paid_usd (rest -ℤ z -ℤ y) in
    record { free_usd = y; bonus_usd = z; paid_usd = x; free_requests = pos 0 }

abbrev as_plan : Buckets × Decimal → DebitPlan
as_plan (u, _) = record {
  free_usd = u.free;
  bonus_usd = u.bonus;
  paid_usd = u.paid;
  free_requests = pos 0;
}

surplus_refund-eq-give_back :
    (plan : DebitPlan) (policy : DebitPolicy) (billed : Decimal)
    → IsNonneg (funds plan)
    → surplus_refund plan policy billed
      ≡ give_back policy plan (total_usd plan -ℤ clamp billed (total_usd plan))
unfolding surplus_refund give_back fill_all
surplus_refund-eq-give_back plan DebitPolicy.paid_only billed n =
    ap as_plan (fill-eq-fill_all _ _ _ _ n (reverse-IsFresh DebitPolicy.paid_only))
surplus_refund-eq-give_back plan DebitPolicy.default billed n =
    ap as_plan (fill-eq-fill_all _ _ _ _ n (reverse-IsFresh DebitPolicy.default))
surplus_refund-eq-give_back plan DebitPolicy.paid_then_free_then_bonus billed n =
    ap as_plan (fill-eq-fill_all _ _ _ _ n (reverse-IsFresh DebitPolicy.paid_then_free_then_bonus))

total_of_paid : (f b q : ℤ) → f ≡ pos 0 → b ≡ pos 0 → (f +ℤ b +ℤ q ≤ℤ q) × (q ≤ℤ f +ℤ b +ℤ q)
total_of_paid f b q ef eb = rw (ef, eb) (omega int_laws)

zero_sub : {x : ℤ} → x ≡ pos 0 → x -ℤ pos 0 ≡ pos 0
zero_sub e = rw e (omega int_laws)

-- With one bucket.
one_lifo :
    (a total kept x u : ℤ)
    → total ≤ℤ a
    → a ≤ℤ total
    → pos 0 ≤ℤ kept
    → kept ≤ℤ total
    → IsMin x a (total -ℤ kept)
    → IsMin u a kept
    → a -ℤ x ≡ u
one_lifo a total kept x u e e' hk hle hx hu = omega int_laws

buckets_eq :
    {f b p f' b' p' : Decimal}
    → f ≡ f'
    → b ≡ b'
    → p ≡ p'
    → ◌≡◌ {A = Buckets}
        (record { free = f; bonus = b; paid = p })
        (record { free = f'; bonus = b'; paid = p' })
buckets_eq x y z = cc

total_nonneg :
    (plan : DebitPlan)
    → IsNonneg (funds plan)
    → pos 0 ≤ℤ plan.free_usd +ℤ plan.bonus_usd +ℤ plan.paid_usd
total_nonneg plan n = omega (int_laws, n.free, n.bonus, n.paid)

-- Three buckets hold a, b and c. What c, b and a give back in turn of the part that was not kept,
-- against what a, b and c give in turn of the part that was.
three_lifo :
    (a b c total kept x y z u v w : ℤ)
    → pos 0 ≤ℤ a
    → pos 0 ≤ℤ b
    → pos 0 ≤ℤ c
    → total ≤ℤ a +ℤ b +ℤ c
    → a +ℤ b +ℤ c ≤ℤ total
    → pos 0 ≤ℤ kept
    → kept ≤ℤ total
    → IsMin z c (total -ℤ kept)
    → IsMin y b (total -ℤ kept -ℤ z)
    → IsMin x a (total -ℤ kept -ℤ z -ℤ y)
    → IsMin u a kept
    → IsMin v b (kept -ℤ u)
    → IsMin w c (kept -ℤ u -ℤ v)
    → (a -ℤ x ≡ u) × (b -ℤ y ≡ v) × (c -ℤ z ≡ w)
three_lifo a b c total kept x y z u v w ha hb hc e e' hk hle hz hy hx hu hv hw = omega int_laws

pub clamp_bounds :
    (billed total : ℤ)
    → pos 0 ≤ℤ total
    → (pos 0 ≤ℤ max_ℤ (pos 0) (min_ℤ billed total)) × (max_ℤ (pos 0) (min_ℤ billed total) ≤ℤ total)
clamp_bounds billed total h =
    omega (int_laws, min_ℤ-IsMin billed total, max_ℤ-IsMax (pos 0) (min_ℤ billed total))

-- A plan read as a balance.
abbrev pub as_balance : DebitPlan → BalanceView
as_balance plan = record {
  free_usd = plan.free_usd;
  bonus_usd = plan.bonus_usd;
  paid_usd = plan.paid_usd;
  free_requests = plan.free_requests;
}

-- What stays charged after a refund.
abbrev pub kept_of : DebitPlan → DebitPlan → Buckets
kept_of plan refund = record {
  free = plan.free_usd -ℤ refund.free_usd;
  bonus = plan.bonus_usd -ℤ refund.bonus_usd;
  paid = plan.paid_usd -ℤ refund.paid_usd;
}

-- For a plan of the policy, what stays charged after the refund of the surplus is, bucket by
-- bucket, what the policy's order takes from the plan for the clamped bill alone.
pub kept-eq-waterfall :
    (plan : DebitPlan) (policy : DebitPolicy) (billed : Decimal)
    → IsPlanOf policy plan
    → kept_of plan (surplus_refund plan policy billed)
      ≡ (waterfall policy (as_balance plan) (clamp billed (total_usd plan))).0
unfolding total_usd waterfall give_back
kept-eq-waterfall plan DebitPolicy.default billed p =
    let total = total_usd plan in
    let kept = clamp billed total in
    let range = clamp_bounds billed total (total_nonneg plan p.0) in
    let z = min_ℤ plan.paid_usd (total -ℤ kept) in
    let y = min_ℤ plan.bonus_usd (total -ℤ kept -ℤ z) in
    let u = min_ℤ plan.free_usd kept in
    let v = min_ℤ plan.bonus_usd (kept -ℤ u) in
    let e =
      three_lifo plan.free_usd plan.bonus_usd plan.paid_usd total kept
        (min_ℤ plan.free_usd (total -ℤ kept -ℤ z -ℤ y)) y z u v
        (min_ℤ plan.paid_usd (kept -ℤ u -ℤ v)) p.0.free p.0.bonus p.0.paid (omega int_laws)
        (omega int_laws) range.0 range.1 (min_ℤ-IsMin _ _) (min_ℤ-IsMin _ _) (min_ℤ-IsMin _ _)
        (min_ℤ-IsMin _ _) (min_ℤ-IsMin _ _) (min_ℤ-IsMin _ _) in
    rw (surplus_refund-eq-give_back plan DebitPolicy.default billed p.0) (buckets_eq e.0 e.1 e.2)
kept-eq-waterfall plan DebitPolicy.paid_then_free_then_bonus billed p =
    let total = total_usd plan in
    let kept = clamp billed total in
    let range = clamp_bounds billed total (total_nonneg plan p.0) in
    let z = min_ℤ plan.bonus_usd (total -ℤ kept) in
    let y = min_ℤ plan.free_usd (total -ℤ kept -ℤ z) in
    let u = min_ℤ plan.paid_usd kept in
    let v = min_ℤ plan.free_usd (kept -ℤ u) in
    let e =
      three_lifo plan.paid_usd plan.free_usd plan.bonus_usd total kept
        (min_ℤ plan.paid_usd (total -ℤ kept -ℤ z -ℤ y)) y z u v
        (min_ℤ plan.bonus_usd (kept -ℤ u -ℤ v)) p.0.paid p.0.free p.0.bonus (omega int_laws)
        (omega int_laws) range.0 range.1 (min_ℤ-IsMin _ _) (min_ℤ-IsMin _ _) (min_ℤ-IsMin _ _)
        (min_ℤ-IsMin _ _) (min_ℤ-IsMin _ _) (min_ℤ-IsMin _ _) in
    rw (surplus_refund-eq-give_back plan DebitPolicy.paid_then_free_then_bonus billed p.0)
      (buckets_eq e.1 e.2 e.0)
kept-eq-waterfall plan DebitPolicy.paid_only billed p =
    let total = total_usd plan in
    let kept = clamp billed total in
    let range = clamp_bounds billed total (total_nonneg plan p.0) in
    let same = total_of_paid plan.free_usd plan.bonus_usd plan.paid_usd p.1 p.2 in
    let e =
      one_lifo plan.paid_usd total kept (min_ℤ plan.paid_usd (total -ℤ kept))
        (min_ℤ plan.paid_usd kept) same.0 same.1 range.0 range.1 (min_ℤ-IsMin _ _)
        (min_ℤ-IsMin _ _) in
    rw (surplus_refund-eq-give_back plan DebitPolicy.paid_only billed p.0)
      (buckets_eq (zero_sub p.1) (zero_sub p.2) e)

pub IsPlanOf-nonneg :
    (policy : DebitPolicy) (plan : DebitPlan) → IsPlanOf policy plan → IsNonneg (funds plan)
IsPlanOf-nonneg DebitPolicy.paid_only plan p = p.0
IsPlanOf-nonneg DebitPolicy.default plan p = p.0
IsPlanOf-nonneg DebitPolicy.paid_then_free_then_bonus plan p = p.0

pub total_usd_nonneg : (plan : DebitPlan) → IsNonneg (funds plan) → pos 0 ≤ℤ total_usd plan
unfolding total_usd
total_usd_nonneg plan n = total_nonneg plan n

spendable-total :
    (plan : DebitPlan) (policy : DebitPolicy)
    → IsPlanOf policy plan
    → total_usd plan ≤ℤ spendable policy (as_balance plan)
unfolding total_usd
spendable-total plan DebitPolicy.paid_only p =
    (total_of_paid plan.free_usd plan.bonus_usd plan.paid_usd p.1 p.2).0
spendable-total plan DebitPolicy.default p = omega int_laws
spendable-total plan DebitPolicy.paid_then_free_then_bonus p = omega int_laws

surplus_refund-free_requests :
    (plan : DebitPlan) (policy : DebitPolicy) (billed : Decimal)
    → (surplus_refund plan policy billed).free_requests ≡ pos 0
unfolding surplus_refund
surplus_refund-free_requests plan policy billed = refl

-- What was kept determines what went back.
refund_of_kept :
    (plan refund : DebitPlan) (policy : DebitPolicy) (amount rest : Decimal)
    → IsWaterfall (as_balance plan) policy amount (kept_of plan refund) rest
    → amount ≤ℤ total_usd plan
    → total_usd plan ≤ℤ spendable policy (as_balance plan)
    → (total_usd refund ≡ total_usd plan -ℤ amount) × IsCovered refund (as_balance plan)
unfolding total_usd
refund_of_kept plan refund policy amount rest w hle hs =
    let done : rest ≤ℤ pos 0 = grind (int_laws, w.short, w.total) in
    (grind (int_laws, w.total), omega (int_laws, w))

-- For a plan of the policy, the refund comes to the plan's total less the clamped bill, no bucket
-- gives back a negative amount or more than it gave, and no free request comes back.
pub surplus_refund_lem :
    (plan : DebitPlan) (policy : DebitPolicy) (billed : Decimal)
    → IsPlanOf policy plan
    → let refund = surplus_refund plan policy billed in
      (total_usd refund ≡ total_usd plan -ℤ clamp billed (total_usd plan))
      × IsCovered refund (as_balance plan)
      × (refund.free_requests ≡ pos 0)
surplus_refund_lem plan policy billed p =
    let n = IsPlanOf-nonneg policy plan p in
    let range = clamp_bounds billed (total_usd plan) (total_usd_nonneg plan n) in
    let kept = clamp billed (total_usd plan) in
    let w = waterfall-IsWaterfall policy (as_balance plan) kept n range.0 in
    let (sum, covered) =
      refund_of_kept plan (surplus_refund plan policy billed) policy kept
        (waterfall policy (as_balance plan) kept).1 (rw (kept-eq-waterfall plan policy billed p) w)
        range.1 (spendable-total plan policy p) in
    (sum, covered, surplus_refund-free_requests plan policy billed)
