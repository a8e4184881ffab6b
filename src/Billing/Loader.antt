-- ===== src/Billing/Loader.antt =====
-- `BalanceLoader`: backend/app/billing/balance_loader.py.
use generation_balance_servi.Base.{ℕ, zero, suc, ◌+◌, ltb, if◌then◌else◌, Option, none, some}
use generation_balance_servi.Errors.{balance_contention}
use generation_balance_servi.Store.{BalanceSnapshot, zero_snapshot}
use generation_balance_servi.Table.{Balance, get_by_user_id}
use generation_balance_servi.Machine.{
  returned, M, ◌>>=◌, ◌>>◌, pure, throw, unfinished, finally, next, sleep, monotonic,
}
use generation_balance_servi.Billing.Configs.{Config}
use generation_balance_servi.Billing.Remote.{
  load, seed_if_absent, try_acquire_load_lock, release_load_lock,
}

abbrev pub snapshot_of_row : Option Balance → BalanceSnapshot
snapshot_of_row none = zero_snapshot
snapshot_of_row (some row) = record {
  view = record {
    free_usd = row.free_usd;
    bonus_usd = row.bonus_usd;
    paid_usd = row.paid_usd;
    free_requests = row.free_requests;
  };
  version = row.version;
}

-- `_load_from_db`
unfoldable pub load_from_db : ℕ → M BalanceSnapshot
load_from_db user_id m =
    let m' = (next m).1 in (returned (snapshot_of_row (get_by_user_id user_id m'.world.table)), m')

-- The body of `try`: the snapshot if there is one by now, else a seed from the row.
abbrev pub seed_unless_loaded : ℕ → Option BalanceSnapshot → M (Option BalanceSnapshot)
seed_unless_loaded user_id (some snapshot) = pure (some snapshot)
seed_unless_loaded user_id none = do
  row ← load_from_db user_id
  seeded ← seed_if_absent user_id row
  pure none

abbrev pub load_or_seed : ℕ → M (Option BalanceSnapshot)
load_or_seed user_id = load user_id >>= seed_unless_loaded user_id

abbrev pub return_or : M BalanceSnapshot → Option BalanceSnapshot → M BalanceSnapshot
return_or again (some snapshot) = pure snapshot
return_or again none = again

-- A turn with the lock, or without it.
abbrev pub with_lock : ℕ → ℕ → M BalanceSnapshot → Option ℕ → M BalanceSnapshot
with_lock user_id deadline again (some token) =
    finally (load_or_seed user_id) (release_load_lock user_id token) >>= return_or again
with_lock user_id deadline again none = do
  now ← monotonic
  (if ltb deadline now
      then throw (balance_contention "balance load timed out")
      else sleep 10 >> again)

-- A turn of the loop; `again` is the next one.
abbrev pub load_turn :
    Config → ℕ → ℕ → M BalanceSnapshot → Option BalanceSnapshot → M BalanceSnapshot
load_turn config user_id deadline again (some snapshot) = pure snapshot
load_turn config user_id deadline again none =
    try_acquire_load_lock config.store user_id >>= with_lock user_id deadline again

unfoldable pub load_turns : Config → ℕ → ℕ → ℕ → M BalanceSnapshot
load_turns config zero user_id deadline = unfinished
load_turns config (suc turns) user_id deadline =
    load user_id
    >>= load_turn config user_id deadline (λ m. load_turns config turns user_id deadline m)

-- `ensure_loaded`. A turn that waits takes ten milliseconds.
unfoldable pub ensure_loaded : Config → ℕ → M BalanceSnapshot
ensure_loaded config user_id = do
  start ← monotonic
  load_turns config (config.billing.load_wait_timeout + 3) user_id
      (start + config.billing.load_wait_timeout)
