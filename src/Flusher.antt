-- ===== src/Flusher.antt =====
-- The write-behind: backend/app/billing/flusher.py. The world is the hot store and the table.
-- Wherever `flush_once` waits, other processes may run commands on Redis and other flushers may
-- write rows. The users that SRANDMEMBER picks from the dirty set are an argument.
pub mod Dirty
pub mod Reached
pub mod Repair
pub mod Flush
pub mod Views
pub mod Cleared
pub mod Quiet
pub mod Converges
use generation_balance_servi.Base.{
  ℕ, ◌+◌, zero, suc, Bool, true, false, not, ◌&&◌, ◌==◌, if◌then◌else◌, ℤ, pos, negsuc, ◌+ℤ◌, ◌==ℤ◌,
  Option, none, some, List, [], ◌∷◌, Dict, lookup, length,
}
use generation_balance_servi.Errors.{Result, ok, raise}
use generation_balance_servi.Redis.{Redis, Call, exec, contains}
use generation_balance_servi.World.{World, Event, command, write, happen_all}
use generation_balance_servi.Store.{BalanceSnapshot, StoreConfig, Attempt}
use generation_balance_servi.Store.Methods.{load_many, advance_version, clear_dirty}
use generation_balance_servi.Table.{Balance, Table, get_by_user_id, upsert_many}

-- What happens while `flush_once` waits: before it reads, before it writes, during each repair, and
-- before it clears.
pub record Waits : Type 0 where
  pub before_load : List Event
  pub before_write : List Event
  pub repair : ℕ → List Attempt
  pub before_clear : List Event

abbrev pub row_of_snapshot : ℕ → BalanceSnapshot → Balance
row_of_snapshot user_id s = record {
  user_id = user_id;
  free_usd = s.free_usd;
  bonus_usd = s.bonus_usd;
  paid_usd = s.paid_usd;
  free_requests = s.free_requests;
  version = s.version;
}

abbrev pub rows_of : Dict BalanceSnapshot → List Balance
rows_of [] = []
rows_of (e ∷ snapshots) = row_of_snapshot e.0 e.1 ∷ rows_of snapshots

-- `_state(a) == _state(b)`
abbrev pub same_state : Balance → Balance → Bool
same_state a b =
    (a.free_usd ==ℤ b.free_usd)
    && (a.bonus_usd ==ℤ b.bonus_usd)
    && (a.paid_usd ==ℤ b.paid_usd)
    && (a.free_requests ==ℤ b.free_requests)
    && (a.version ==ℤ b.version)

abbrev pub finished : Result Bool × Redis → Result (Unit {0}) × Redis
finished (ok advanced, r) = (ok tt, r)
finished (raise e, r) = (raise e, r)

-- `_repair_regressed`
unfoldable pub repair_regressed :
    StoreConfig → List Attempt → Balance → Option Balance → Redis → Result (Unit {0}) × Redis
repair_regressed config wire row none r = (ok tt, r)
repair_regressed config wire row (some stored) r =
    if same_state stored row
    then (ok tt, r)
    else finished (advance_version config wire row.user_id row.version (stored.version +ℤ pos 1) r)

-- What follows a call, unless it raises.
abbrev pub proceed :
    Result (Unit {0}) × Redis → (Redis → Result (Unit {0}) × Redis) → Result (Unit {0}) × Redis
proceed (ok _, r) rest = rest r
proceed (raise e, r) rest = (raise e, r)

-- The loop over the rejected rows; an error ends it.
unfoldable pub repair_all :
    StoreConfig
    → (ℕ → List Attempt)
    → List Balance
    → List ℕ
    → Table
    → Redis
    → Result (Unit {0}) × Redis
repair_all config wires [] written stored r = (ok tt, r)
repair_all config wires (row ∷ rows) written stored r =
    let rest = repair_all config wires rows written stored in
    proceed
      (if contains row.user_id written
        then (ok tt, r)
        else repair_regressed config (wires row.user_id) row (get_by_user_id row.user_id stored) r)
      rest

-- The argument of `clear_dirty`: a user without a snapshot has version -1.
abbrev pub flushed_versions : List ℕ → Dict BalanceSnapshot → List (ℕ × ℤ)
flushed_versions [] snapshots = []
flushed_versions (u ∷ users) snapshots =
    let rest = flushed_versions users snapshots in
    elim (lookup u snapshots) [ none ↦ (u, negsuc 0) ∷ rest | some s ↦ (u, s.version) ∷ rest ]

-- The end of a flush, after the repairs.
abbrev pub clear_flushed :
    Waits
    → List ℕ
    → Dict BalanceSnapshot
    → List ℕ
    → Table
    → Result (Unit {0}) × Redis
    → Result ℕ × World
clear_flushed waits users snapshots written table (raise e, r) =
    (raise e, record { redis = r; table = table })
clear_flushed waits users snapshots written table (ok _, r) =
    let w = happen_all waits.before_clear (record { redis = r; table = table }) in
    (
      ok (length written),
      record w { redis = clear_dirty (flushed_versions users snapshots) w.redis },
    )

-- From the snapshots on: the transaction, the repairs and the clearing. The transaction is one step:
-- an upsert keeps the rows that it met locked, the rejected ones included, so the rows that are read
-- back are the ones that it left.
abbrev pub write_back :
    StoreConfig → Waits → List ℕ → Dict BalanceSnapshot → World → Result ℕ × World
write_back config waits users snapshots w =
    let (written, table) = upsert_many (rows_of snapshots) w.table in
    clear_flushed waits users snapshots written table
      (repair_all config waits.repair (rows_of snapshots) written table w.redis)

-- `flush_once`
unfoldable pub flush_once : StoreConfig → Waits → List ℕ → World → Result ℕ × World
flush_once config waits [] w = (ok 0, w)
flush_once config waits (u ∷ users) w =
    let read = happen_all waits.before_load w in
    write_back config waits (u ∷ users) (load_many (u ∷ users) read.redis)
      (happen_all waits.before_write read)
