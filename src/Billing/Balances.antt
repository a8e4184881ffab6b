-- ===== src/Billing/Balances.antt =====
-- `BalanceService`: backend/app/billing/balance.py.
use generation_balance_servi.Base.{ℕ, zero, suc}
use generation_balance_servi.Errors.{balance_contention}
use generation_balance_servi.Policy.{BalanceTopUp}
use generation_balance_servi.TopUp.{validate}
use generation_balance_servi.Store.{BalanceSnapshot, TopUpOutcome}
use generation_balance_servi.Machine.{M, ◌>>=◌, ◌>>◌, pure, throw, lift}
use generation_balance_servi.Billing.Configs.{Config}
use generation_balance_servi.Billing.Remote.{top_up}
use generation_balance_servi.Billing.Loader.{ensure_loaded}

abbrev pub top_up_again : Config → ℕ → M (Unit {0}) → TopUpOutcome → M (Unit {0})
top_up_again config user_id again TopUpOutcome.applied = pure tt
top_up_again config user_id again TopUpOutcome.already_applied = pure tt
top_up_again config user_id again TopUpOutcome.missing = ensure_loaded config user_id >> again

unfoldable pub top_up_attempts : Config → ℕ → BalanceTopUp → M (Unit {0})
top_up_attempts config zero command = throw (balance_contention "top-up retries exhausted")
top_up_attempts config (suc attempts) command =
    top_up config.store command
    >>= top_up_again config command.user_id (λ m. top_up_attempts config attempts command m)

unfoldable pub apply_top_up : Config → BalanceTopUp → M (Unit {0})
apply_top_up config command =
    lift (validate command) >> top_up_attempts config config.billing.reserve_max_attempts command

unfoldable pub get_balance : Config → ℕ → M BalanceSnapshot
get_balance config user_id = ensure_loaded config user_id
