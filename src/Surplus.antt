-- ===== src/Surplus.antt =====
-- The refund of what the provider did not bill:
-- backend/app/shared/ports/billing/balance_store.py, `_CHARGE_ORDER` and `surplus_refund`.
pub mod Lifo
pub mod Plans
use generation_balance_servi.Base.{pos, ◌-ℤ◌, min_ℤ, max_ℤ}
use mathlib.Core.List.{reverse}
use generation_balance_servi.Money.{Decimal}
use generation_balance_servi.Policy.{
  DebitPlan, DebitPolicy, total_usd, funds, no_money, charge_order, fill,
}

unfoldable pub surplus_refund : DebitPlan → DebitPolicy → Decimal → DebitPlan
unfolding charge_order
surplus_refund plan policy billed_cost_usd =
    let remaining = total_usd plan -ℤ max_ℤ (pos 0) (min_ℤ billed_cost_usd (total_usd plan)) in
    let (refund, _) = fill (funds plan) (reverse (charge_order policy)) no_money remaining in
    record {
      free_usd = refund.free;
      bonus_usd = refund.bonus;
      paid_usd = refund.paid;
      free_requests = pos 0;
    }
