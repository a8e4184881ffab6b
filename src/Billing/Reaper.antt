-- ===== src/Billing/Reaper.antt =====
-- `ReservationReaper`: backend/app/billing/reaper.py.
use generation_balance_servi.Base.{ℕ, ◌+◌, ℤ, pos, ◌-ℤ◌, String, Option, none, some, List, [], ◌∷◌}
use generation_balance_servi.Redis.{Status}
use generation_balance_servi.Store.{GenerationRecord}
use generation_balance_servi.Machine.{M, ◌>>=◌, ◌>>◌, pure, monotonic}
use generation_balance_servi.Billing.Configs.{Config}
use generation_balance_servi.Billing.Remote.{get_generation, stale_inflight, forget_inflight}
use generation_balance_servi.Billing.Refunder.{refund_reservation}

-- `REAPED_ERROR`
abbrev pub reaped_error : String
reaped_error = "reaped: reservation exceeded REAP_AFTER_SECONDS"

-- One identifier of the batch: how many reservations were refunded.
abbrev pub reap_by_status : Config → ℕ → Status → GenerationRecord → M ℕ
reap_by_status config id Status.running g =
    refund_reservation config g.user_id id g.plan reaped_error >> pure 1
reap_by_status config id Status.done g = forget_inflight config.store id >> pure 0
reap_by_status config id Status.failed g = forget_inflight config.store id >> pure 0

abbrev pub reap_record : Config → ℕ → Option GenerationRecord → M ℕ
reap_record config id none = forget_inflight config.store id >> pure 0
reap_record config id (some g) = reap_by_status config id g.status g

unfoldable pub reap_all : Config → List ℕ → M ℕ
reap_all config [] = pure 0
reap_all config (id ∷ ids) = do
  entry ← get_generation id
  reaped ← reap_record config id entry
  others ← (λ m. reap_all config ids m)
  pure (reaped + others)

-- `reap_once`, at the time of the call or at the given one.
abbrev pub time_or_now : Option ℤ → M ℤ
time_or_now (some now) = pure now
time_or_now none = do now ← monotonic; pure (pos now)

unfoldable pub reap_once : Config → Option ℤ → M ℕ
reap_once config now = do
  time ← time_or_now now
  stale ← stale_inflight (time -ℤ pos config.billing.reap_after) config.billing.reap_batch_size
  reap_all config stale
