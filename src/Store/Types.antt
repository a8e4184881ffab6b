-- ===== src/Store/Types.antt =====
-- Snapshots, records and outcomes: what the store tells its callers.
use generation_balance_servi.Base.{ℕ, ℤ, pos, String, Option}
use generation_balance_servi.Money.{Decimal}
use generation_balance_servi.Policy.{BalanceView, DebitPlan}
use generation_balance_servi.Redis.{Status}

-- `BalanceSnapshot`; its view is what the policy reads.
pub record BalanceSnapshot : Type 0 where
  pub view : BalanceView
  pub open view use *
  pub version : ℤ

-- `BalanceSnapshot.zero`
abbrev pub zero_snapshot : BalanceSnapshot
zero_snapshot = record {
  view = record { free_usd = pos 0; bonus_usd = pos 0; paid_usd = pos 0; free_requests = pos 0 };
  version = pos 0;
}

pub record GenerationRecord : Type 0 where
  pub status : Status
  pub user_id : ℕ
  pub dialog_id : ℕ
  pub model_name : String
  pub plan : DebitPlan
  pub authorized_cost_usd : Decimal
  pub started_at : ℤ
  pub content : Option String
  pub billed_cost_usd : Option Decimal
  pub provider_billed_cost_usd : Option Decimal
  pub refunded_surplus_usd : Option Decimal
  pub error : Option String

pub data ReserveOutcome : Type 0 where
  reserved : ReserveOutcome
  conflict : BalanceSnapshot → ReserveOutcome
  missing : ReserveOutcome
  duplicate : GenerationRecord → ReserveOutcome

pub data SettleOutcome : Type 0 where
  applied already_applied missing stale : SettleOutcome

pub data RefundOutcome : Type 0 where
  applied missing stale : RefundOutcome

pub data TopUpOutcome : Type 0 where
  applied missing already_applied : TopUpOutcome

-- `RedisBalanceStoreConfig`
pub record StoreConfig : Type 0 where
  pub generation_record_ttl_seconds : ℕ
  pub top_up_record_ttl_seconds : ℕ
  pub load_lock_ttl_ms : ℕ
  pub retry_attempts : ℕ

abbrev pub default_store_config : StoreConfig
default_store_config = record {
  generation_record_ttl_seconds = 86400;
  top_up_record_ttl_seconds = 86400;
  load_lock_ttl_ms = 5000;
  retry_attempts = 3;
}
