-- ===== src/Store/Methods.antt =====
-- The methods of `ImplRedisBalanceStore`. A method that is retried takes the wire of its attempts.
-- `uuid4` gives the token of a reservation, so the token is an argument.
use generation_balance_servi.Base.{
  ℕ, zero, suc, ℤ, Bool, leb_ℤ, ltb_ℤ, if◌then◌else◌, String, Option, none, some, List, [], ◌∷◌,
  Dict, lookup,
}
use mathlib.Core.Option
use generation_balance_servi.Errors.{Result, ok, raise, ◌>>=◌}
use generation_balance_servi.Money.{Decimal, money_to_micros}
use generation_balance_servi.Policy.{DebitPlan, BalanceTopUp, GenerationRequest, total_usd}
use generation_balance_servi.Redis
use generation_balance_servi.Redis.{Redis, ReserveArgs, SettleArgs, RefundArgs, TopUpArgs}
use generation_balance_servi.Store.Types.{
  BalanceSnapshot, GenerationRecord, ReserveOutcome, SettleOutcome, RefundOutcome, TopUpOutcome,
  StoreConfig,
}
use generation_balance_servi.Store.Retrying.{Attempt, retrying}
use generation_balance_servi.Store.Codec.{
  snapshot_args, plan_args, snapshot_from_hash, record_from_fields, reserve_outcome, settle_outcome,
  refund_outcome, top_up_outcome,
}

abbrev pub map_result {ℓ κ} : {A : Type ℓ} {B : Type κ} → (A → B) → Result A → Result B
map_result f (ok a) = ok (f a)
map_result f (raise e) = raise e

-- A retried script whose arguments are computed before each attempt: if they raise, so does the
-- first attempt, and nothing is sent.
abbrev pub with_args {ℓ κ} :
    {A : Type ℓ} {B : Type κ} → Result A → (A → Redis → Result B × Redis) → Redis → Result B × Redis
with_args (ok a) call r = call a r
with_args (raise e) call r = (raise e, r)

unfoldable pub load : ℕ → Redis → Option BalanceSnapshot
load user_id r = Option.map snapshot_from_hash (lookup user_id r.balances)

-- `load_many`: a dict, in the order of the users.
unfoldable pub load_many : List ℕ → Redis → Dict BalanceSnapshot
load_many [] r = []
load_many (user_id ∷ user_ids) r =
    let rest = load_many user_ids r in
    elim (lookup user_id r.balances) [
      | none ↦ rest
      | some b ↦ (user_id, snapshot_from_hash b) ∷ rest
    ]

unfoldable pub seed_if_absent : ℕ → BalanceSnapshot → Redis → Result Bool × Redis
seed_if_absent user_id snapshot r =
    with_args (snapshot_args snapshot)
      (λ b s. (ok (Redis.seed_if_absent user_id b s).0, (Redis.seed_if_absent user_id b s).1)) r

unfoldable pub advance_version :
    StoreConfig → List Attempt → ℕ → ℤ → ℤ → Redis → Result Bool × Redis
advance_version config wire user_id expected to r =
    retrying config.retry_attempts wire (Redis.advance_version user_id expected to) r

abbrev pub reserve_args :
    StoreConfig → ℕ → GenerationRequest → ℤ → DebitPlan → Decimal → ℤ → Result ReserveArgs
reserve_args config token request expected_version plan authorized_cost_usd started_at = do
  amounts ← plan_args plan
  cost ← money_to_micros authorized_cost_usd
  ok (record {
    expected_version = expected_version;
    user_id = request.user_id;
    dialog_id = request.dialog_id;
    model_name = request.model_name;
    plan = amounts;
    authorized_cost = cost;
    started_at = started_at;
    ttl = config.generation_record_ttl_seconds;
    client_request_id = request.client_request_id;
    reservation_token = token;
  })

unfoldable pub reserve :
    StoreConfig
    → ℕ
    → List Attempt
    → GenerationRequest
    → ℤ
    → DebitPlan
    → Decimal
    → ℤ
    → Redis
    → Result ReserveOutcome × Redis
reserve config token wire request expected_version plan authorized_cost_usd started_at =
    with_args
      (reserve_args config token request expected_version plan authorized_cost_usd started_at)
      (λ a r.
        let x = retrying config.retry_attempts wire (Redis.reserve a) r in
        (map_result (reserve_outcome token) x.0, x.1))

unfoldable pub get_generation : ℕ → Redis → Option GenerationRecord
get_generation client_request_id r =
    Option.map record_from_fields (lookup client_request_id r.generations)

abbrev pub settle_args :
    StoreConfig → ℕ → ℕ → String → Decimal → Decimal → DebitPlan → Result SettleArgs
settle_args config user_id client_request_id content billed provider_billed refund = do
  charged ← money_to_micros billed
  free ← money_to_micros refund.free_usd
  bonus ← money_to_micros refund.bonus_usd
  paid ← money_to_micros refund.paid_usd
  total ← money_to_micros (total_usd refund)
  ok (record {
    content = content;
    billed = charged;
    provider_billed = provider_billed;
    ttl = config.generation_record_ttl_seconds;
    client_request_id = client_request_id;
    user_id = user_id;
    refund_free = free;
    refund_bonus = bonus;
    refund_paid = paid;
    refunded_surplus = total;
  })

unfoldable pub settle :
    StoreConfig
    → List Attempt
    → ℕ
    → ℕ
    → String
    → Decimal
    → Decimal
    → DebitPlan
    → Redis
    → Result SettleOutcome × Redis
settle config wire user_id client_request_id content billed provider_billed refund =
    with_args (settle_args config user_id client_request_id content billed provider_billed refund)
      (λ a r.
        let x = retrying config.retry_attempts wire (Redis.settle a) r in
        (map_result settle_outcome x.0, x.1))

abbrev pub refund_args : StoreConfig → ℕ → ℕ → DebitPlan → String → Result RefundArgs
refund_args config user_id client_request_id plan error = do
  amounts ← plan_args plan
  ok (record {
    user_id = user_id;
    error = error;
    ttl = config.generation_record_ttl_seconds;
    client_request_id = client_request_id;
    plan = amounts;
  })

unfoldable pub refund :
    StoreConfig → List Attempt → ℕ → ℕ → DebitPlan → String → Redis → Result RefundOutcome × Redis
refund config wire user_id client_request_id plan error =
    with_args (refund_args config user_id client_request_id plan error) (λ a r.
      let x = retrying config.retry_attempts wire (Redis.refund a) r in
      (map_result refund_outcome x.0, x.1))

abbrev pub top_up_args : StoreConfig → BalanceTopUp → Result TopUpArgs
top_up_args config command = do
  paid ← money_to_micros command.paid_usd
  bonus ← money_to_micros command.bonus_usd
  ok (record {
    operation_id = command.operation_id;
    user_id = command.user_id;
    ttl = config.top_up_record_ttl_seconds;
    paid = paid;
    bonus = bonus;
    free_requests = command.free_requests;
  })

unfoldable pub top_up :
    StoreConfig → List Attempt → BalanceTopUp → Redis → Result TopUpOutcome × Redis
top_up config wire command = with_args (top_up_args config command) (λ a r.
    let x = retrying config.retry_attempts wire (Redis.top_up a) r in
    (map_result top_up_outcome x.0, x.1))

-- `clear_dirty`: a pipeline of CLEAR_DIRTY calls, one after another.
unfoldable pub clear_dirty : List (ℕ × ℤ) → Redis → Redis
clear_dirty [] r = r
clear_dirty ((user_id, version) ∷ flushed) r =
    clear_dirty flushed (Redis.clear_dirty user_id version r).1

-- `ZRANGEBYSCORE gen:inflight -inf older_than LIMIT 0 limit`: the entries up to the cutoff, by
-- score.
abbrev pub insert_by_score : ℕ × ℤ → Dict ℤ → Dict ℤ
insert_by_score e [] = e ∷ []
insert_by_score e (x ∷ d) = if ltb_ℤ x.1 e.1 then x ∷ insert_by_score e d else e ∷ x ∷ d

unfoldable pub up_to_score : ℤ → Dict ℤ → Dict ℤ
up_to_score cutoff [] = []
up_to_score cutoff (x ∷ d) =
    let rest = up_to_score cutoff d in if leb_ℤ x.1 cutoff then insert_by_score x rest else rest

unfoldable pub take_keys : ℕ → Dict ℤ → List ℕ
take_keys zero d = []
take_keys (suc n) [] = []
take_keys (suc n) (x ∷ d) = x.0 ∷ take_keys n d

unfoldable pub stale_inflight : ℤ → ℕ → Redis → List ℕ
unfolding up_to_score take_keys
stale_inflight older_than limit r = take_keys limit (up_to_score older_than r.inflight)
