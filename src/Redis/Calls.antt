-- ===== src/Redis/Calls.antt =====
-- The plain commands of `ImplRedisBalanceStore` that write, and sequences of commands.
use generation_balance_servi.Base.{
  ℕ, Bool, true, false, none, some, List, [], ◌∷◌, lookup, insert, erase,
}
use generation_balance_servi.Redis.CallData.{Call}
use generation_balance_servi.Redis.State.{Redis}
use generation_balance_servi.Redis.Scripts.{
  reserve, settle, refund, top_up, seed_if_absent, advance_version, release_load_lock, clear_dirty,
}

-- `SET bal:load:{user_id} token NX PX ttl`
unfoldable pub acquire_load_lock : ℕ → ℕ → ℕ → Redis → Bool × Redis
acquire_load_lock user_id token ttl_ms r = elim (lookup user_id r.load_locks) [
  | some _ ↦ (false, r)
  | none ↦ (
    true,
    record r {
      load_locks = insert user_id (record { token = token; ttl_ms = ttl_ms }) r.load_locks;
    },
  )
]

-- `ZREM gen:inflight client_request_id`
unfoldable pub forget_inflight : ℕ → Redis → Redis
forget_inflight client_request_id r = record r { inflight = erase client_request_id r.inflight }

unfoldable pub exec : Call → Redis → Redis
exec (Call.reserve a) r = (reserve a r).1
exec (Call.settle a) r = (settle a r).1
exec (Call.refund a) r = (refund a r).1
exec (Call.top_up a) r = (top_up a r).1
exec (Call.seed_if_absent u b) r = (seed_if_absent u b r).1
exec (Call.advance_version u expected to) r = (advance_version u expected to r).1
exec (Call.acquire_load_lock u token ttl) r = (acquire_load_lock u token ttl r).1
exec (Call.release_load_lock u token) r = (release_load_lock u token r).1
exec (Call.clear_dirty u version) r = (clear_dirty u version r).1
exec (Call.forget_inflight id) r = forget_inflight id r
exec (Call.expire_generation id) r = record r { generations = erase id r.generations }
exec (Call.expire_top_up id) r = record r { top_ups = erase id r.top_ups }
exec (Call.expire_load_lock u) r = record r { load_locks = erase u r.load_locks }

unfoldable pub run : List Call → Redis → Redis
run [] r = r
run (c ∷ calls) r = run calls (exec c r)
