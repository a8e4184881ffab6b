-- ===== src/Billing/Configs.antt =====
-- backend/app/billing/config.py, in milliseconds.
use generation_balance_servi.Base.{ℕ}
use generation_balance_servi.Store.{StoreConfig}

pub record BillingConfig : Type 0 where
  pub running_wait_timeout : ℕ
  pub running_poll_interval : ℕ
  pub reserve_max_attempts : ℕ
  pub load_wait_timeout : ℕ
  pub flush_interval : ℕ
  pub flush_batch_size : ℕ
  pub provider_timeout : ℕ
  pub reap_after : ℕ
  pub reap_batch_size : ℕ

abbrev pub default_billing_config : BillingConfig
default_billing_config = record {
  running_wait_timeout = 30000;
  running_poll_interval = 20;
  reserve_max_attempts = 100;
  load_wait_timeout = 15000;
  flush_interval = 1000;
  flush_batch_size = 500;
  provider_timeout = 240000;
  reap_after = 300000;
  reap_batch_size = 100;
}

-- What the services and their store are configured by.
pub record Config : Type 0 where
  pub billing : BillingConfig
  pub store : StoreConfig
