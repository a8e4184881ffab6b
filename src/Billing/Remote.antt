-- ===== src/Billing/Remote.antt =====
-- The methods of the store as the services await them. A method that the adapter does not retry is
-- one attempt.
use generation_balance_servi.Base.{ℕ, ℤ, Bool, if◌then◌else◌, String, Option, none, some, List}
use generation_balance_servi.Errors.{Result}
use generation_balance_servi.Money.{Decimal}
use generation_balance_servi.Policy.{GenerationRequest, BalanceTopUp, DebitPlan}
use generation_balance_servi.Redis
use generation_balance_servi.Redis.{Redis}
use generation_balance_servi.Store.{
  BalanceSnapshot, GenerationRecord, ReserveOutcome, SettleOutcome, RefundOutcome, TopUpOutcome,
  StoreConfig, Attempt, retrying, snapshot_args,
}
use generation_balance_servi.Store.Methods
use generation_balance_servi.Machine.{M, ◌>>=◌, pure, on_redis, uuid4}

-- A read, which is not retried.
abbrev pub reading {ℓ} : {A : Type ℓ} → (Redis → A) → List Attempt → Redis → Result A × Redis
reading f wire r = retrying 1 wire (λ s. (f s, s)) r

unfoldable pub load : ℕ → M (Option BalanceSnapshot)
load user_id = on_redis (reading (Methods.load user_id))

unfoldable pub seed_if_absent : ℕ → BalanceSnapshot → M Bool
seed_if_absent user_id snapshot = on_redis (λ wire.
    Methods.with_args (snapshot_args snapshot)
      (λ b r. retrying 1 wire (Redis.seed_if_absent user_id b) r))

unfoldable pub try_acquire_load_lock : StoreConfig → ℕ → M (Option ℕ)
try_acquire_load_lock store user_id = do
  token ← uuid4
  acquired ←
      on_redis
        (λ wire. retrying 1 wire (Redis.acquire_load_lock user_id token store.load_lock_ttl_ms))
  pure (if acquired then some token else none)

unfoldable pub release_load_lock : ℕ → ℕ → M Bool
release_load_lock user_id token =
    on_redis (λ wire. retrying 1 wire (Redis.release_load_lock user_id token))

unfoldable pub reserve :
    StoreConfig → GenerationRequest → ℤ → DebitPlan → Decimal → ℤ → M ReserveOutcome
reserve store request expected_version plan authorized_cost_usd started_at = do
  token ← uuid4
  on_redis (λ wire.
      Methods.reserve store token wire request expected_version plan authorized_cost_usd started_at)

unfoldable pub get_generation : ℕ → M (Option GenerationRecord)
get_generation client_request_id = on_redis (reading (Methods.get_generation client_request_id))

unfoldable pub settle :
    StoreConfig → ℕ → ℕ → String → Decimal → Decimal → DebitPlan → M SettleOutcome
settle store user_id client_request_id content billed provider_billed refund = on_redis (λ wire.
    Methods.settle store wire user_id client_request_id content billed provider_billed refund)

unfoldable pub refund : StoreConfig → ℕ → ℕ → DebitPlan → String → M RefundOutcome
refund store user_id client_request_id plan error =
    on_redis (λ wire. Methods.refund store wire user_id client_request_id plan error)

unfoldable pub top_up : StoreConfig → BalanceTopUp → M TopUpOutcome
top_up store command = on_redis (λ wire. Methods.top_up store wire command)

unfoldable pub stale_inflight : ℤ → ℕ → M (List ℕ)
stale_inflight older_than limit = on_redis (reading (Methods.stale_inflight older_than limit))

unfoldable pub forget_inflight : StoreConfig → ℕ → M (Unit {0})
forget_inflight store client_request_id = on_redis (λ wire.
    retrying store.retry_attempts wire (λ r. (tt, Redis.forget_inflight client_request_id r)))
