-- ===== src/Examples/Flusher.antt =====
-- An upsert, and a flush during which the balance is topped up.
use generation_balance_servi.Base.{
  ℕ, ◌≡◌, ◌⊎◌, refl, Bool, true, false, ℤ, pos, Option, none, some, List, [], ◌∷◌, lookup, arith,
}
use generation_balance_servi.Money.{cents, micros_to_money}
use generation_balance_servi.Redis.{
  Redis, Call, contains, clear_dirty, exec, run, top_up, advance_version,
}
use generation_balance_servi.Store.{
  default_store_config, retrying, retrying_from, snapshot_from_hash,
}
use generation_balance_servi.Store.Methods.{load_many}
use generation_balance_servi.Table.{Balance, upsert_many}
use generation_balance_servi.Table.Newest.{lookup-upsert_many}
use generation_balance_servi.World.{World, command}
use generation_balance_servi.Flusher.{Waits, flush_once, repair_all, repair_regressed}
use generation_balance_servi.Flusher.Dirty.{IsFlushed}
use generation_balance_servi.Flusher.Flush.{flush_once-IsFlushed}
use generation_balance_servi.Flusher.Quiet.{quiet}
use generation_balance_servi.Flusher.Converges.{IsSynced, flush_once_converges}
use generation_balance_servi.Examples.Redis.{one_user, dollar_hash, top_up_dollar}

abbrev old_row : Balance
old_row = record {
  user_id = 7;
  free_usd = pos 0;
  bonus_usd = pos 0;
  paid_usd = pos 0;
  free_requests = pos 0;
  version = pos 3;
}

abbrev new_row : Balance
new_row = record old_row { paid_usd = cents 100; version = pos 4 }

abbrev other_row : Balance
other_row = record new_row { user_id = 2; version = pos 1 }

lookup-upsert_many_example :
    lookup 7 (upsert_many (new_row ∷ other_row ∷ []) ((7, old_row) ∷ [])).1 ≡ some new_row
lookup-upsert_many_example =
    lookup-upsert_many 7 (new_row ∷ other_row ∷ []) ((7, old_row) ∷ []) (refl, (refl, tt))

abbrev dirty_world : World
dirty_world = record { redis = record one_user { dirty = 7 ∷ [] }; table = (7, old_row) ∷ [] }

-- Someone tops the balance up between the snapshot and the write.
abbrev busy : Waits
busy = record {
  before_load = [];
  before_write = command (Call.top_up top_up_dollar) ∷ [];
  repair = λ k. [];
  before_clear = [];
}

abbrev regressed_world : World
regressed_world = record dirty_world { table = (7, record old_row { version = pos 9 }) ∷ [] }

busy_test :
    contains 7 (flush_once default_store_config busy (7 ∷ []) dirty_world).1.redis.dirty ≡ true
unfolding flush_once repair_all load_many upsert_many snapshot_from_hash
    generation_balance_servi.Store.Methods.clear_dirty clear_dirty exec top_up
    generation_balance_servi.Base.insert generation_balance_servi.Base.◌+ℤ◌
    generation_balance_servi.Redis.sadd
busy_test = refl

quiet_test :
    (flush_once default_store_config quiet (7 ∷ []) dirty_world).1.table ≡ (7, new_row) ∷ []
unfolding flush_once repair_all load_many upsert_many snapshot_from_hash
    generation_balance_servi.Base.insert micros_to_money generation_balance_servi.Base.scale
quiet_test = refl

regressed_test :
    lookup 7 (flush_once default_store_config quiet (7 ∷ []) regressed_world).1.redis.balances
    ≡ some (record dollar_hash { version = pos 10 })
unfolding flush_once repair_all load_many upsert_many snapshot_from_hash repair_regressed
    micros_to_money generation_balance_servi.Base.scale
    generation_balance_servi.Store.Methods.advance_version retrying
    generation_balance_servi.Store.Methods.clear_dirty clear_dirty advance_version
    generation_balance_servi.Base.insert generation_balance_servi.Base.◌+ℤ◌
regressed_test = refl

dirty_world-IsFlushed : IsFlushed 7 dirty_world.table dirty_world.redis
dirty_world-IsFlushed b at clean positive = absurd (ground arith)

flush_once-IsFlushed_example :
    let w = (flush_once default_store_config busy (7 ∷ []) dirty_world).1 in
    IsFlushed 7 w.table w.redis
flush_once-IsFlushed_example =
    flush_once-IsFlushed default_store_config busy (7 ∷ []) 7 dirty_world (refl, tt) (tt, tt)
      (λ k. tt) dirty_world-IsFlushed

-- The hot store restarted behind the table.
flush_once_converges_example :
    let w₁ = (flush_once default_store_config quiet (7 ∷ []) regressed_world).1 in
    (IsSynced 7 dollar_hash w₁ ⊎ (contains 7 w₁.redis.dirty ≡ true))
    × IsSynced 7 dollar_hash (flush_once default_store_config quiet (2 ∷ 7 ∷ []) w₁).1
flush_once_converges_example =
    flush_once_converges default_store_config 7 (7 ∷ []) (2 ∷ 7 ∷ []) regressed_world dollar_hash
      (refl, tt) (refl, (refl, tt)) refl refl refl
