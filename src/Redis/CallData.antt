-- ===== src/Redis/CallData.antt =====
-- Every command that changes the keyspace, as a value: the scripts, the plain commands of
-- `ImplRedisBalanceStore`, and the expiry of a key.
use generation_balance_servi.Base.{ℕ, ℤ}
use generation_balance_servi.Redis.State.{BalanceHash}
use generation_balance_servi.Redis.Scripts.{ReserveArgs, SettleArgs, RefundArgs, TopUpArgs}

pub data Call : Type 0 where
  reserve : ReserveArgs → Call
  settle : SettleArgs → Call
  refund : RefundArgs → Call
  top_up : TopUpArgs → Call
  seed_if_absent : ℕ → BalanceHash → Call
  advance_version : ℕ → ℤ → ℤ → Call
  acquire_load_lock : ℕ → ℕ → ℕ → Call
  release_load_lock : ℕ → ℕ → Call
  clear_dirty : ℕ → ℤ → Call
  forget_inflight : ℕ → Call
  expire_generation : ℕ → Call
  expire_top_up : ℕ → Call
  expire_load_lock : ℕ → Call
