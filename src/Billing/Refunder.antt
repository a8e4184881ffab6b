-- ===== src/Billing/Refunder.antt =====
-- `ReservationRefunder`: backend/app/billing/refund.py.
use generation_balance_servi.Base.{ℕ, zero, suc, String}
use generation_balance_servi.Errors.{balance_contention}
use generation_balance_servi.Policy.{DebitPlan}
use generation_balance_servi.Store.{RefundOutcome}
use generation_balance_servi.Machine.{M, ◌>>=◌, ◌>>◌, pure, throw}
use generation_balance_servi.Billing.Configs.{Config}
use generation_balance_servi.Billing.Remote.{refund}
use generation_balance_servi.Billing.Loader.{ensure_loaded}

abbrev pub refund_again : Config → ℕ → M (Unit {0}) → RefundOutcome → M (Unit {0})
refund_again config user_id again RefundOutcome.applied = pure tt
refund_again config user_id again RefundOutcome.stale = pure tt
refund_again config user_id again RefundOutcome.missing = ensure_loaded config user_id >> again

unfoldable pub refund_attempts : Config → ℕ → ℕ → ℕ → DebitPlan → String → M (Unit {0})
refund_attempts config zero user_id client_request_id plan error =
    throw (balance_contention "refund retries exhausted")
refund_attempts config (suc attempts) user_id client_request_id plan error =
    refund config.store user_id client_request_id plan error
    >>= refund_again config user_id
        (λ m. refund_attempts config attempts user_id client_request_id plan error m)

-- `refund`
unfoldable pub refund_reservation : Config → ℕ → ℕ → DebitPlan → String → M (Unit {0})
refund_reservation config user_id client_request_id plan error =
    refund_attempts config config.billing.reserve_max_attempts user_id client_request_id plan error
