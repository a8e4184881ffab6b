-- ===== src/Redis/Credits.antt =====
-- How often the TOP_UPs of one operation credit a balance.
use generation_balance_servi.Base.{
  ℕ, ◌+◌, ◌≡◌, ◌≢◌, inl, inr, ◌==◌, if◌then◌else◌, Option, none, some, Option-cases, List, [], ◌∷◌,
  lookup, lookup-insert, lookup-erase, arith,
}
use generation_balance_servi.Redis.State.{Redis, TopUpMarker}
use generation_balance_servi.Redis.Scripts.{
  TopUpArgs, TopUpReply, reserve, settle, refund, top_up, seed_if_absent, advance_version,
  release_load_lock, clear_dirty,
}
use generation_balance_servi.Redis.CallData.{Call}
use generation_balance_servi.Redis.Calls.{exec, run, acquire_load_lock, forget_inflight}
use generation_balance_servi.Redis.Versions.{All}

-- The commands that do not end the marker's time to live.
abbrev pub KeepsMarker : ℕ → Call → Type 0
KeepsMarker id (Call.expire_top_up other) = id ≢ other
KeepsMarker id _ = Unit

abbrev credits_by_reply : TopUpReply → ℕ
credits_by_reply TopUpReply.ok = 1
credits_by_reply TopUpReply.missing = 0
credits_by_reply TopUpReply.dup = 0

-- Whether a command is a TOP_UP of the operation that credits a balance.
abbrev pub credits : ℕ → Call → Redis → ℕ
credits id (Call.top_up a) r = if id == a.operation_id then credits_by_reply (top_up a r).0 else 0
credits id _ r = 0

abbrev pub credited : ℕ → List Call → Redis → ℕ
credited id [] r = 0
credited id (c ∷ calls) r = credits id c r + credited id calls (exec c r)

abbrev marks : Option TopUpMarker → ℕ
marks none = 0
marks (some t) = 1

-- One if the marker of the operation is there, and zero otherwise.
abbrev pub marked : ℕ → Redis → ℕ
marked id r = marks (lookup id r.top_ups)

top_up-marked :
    (id : ℕ) (a : TopUpArgs) (r : Redis)
    → marked id (top_up a r).1 ≡ marked id r + credits id (Call.top_up a) r
unfolding top_up
top_up-marked id a r = elim (Option-cases (lookup a.operation_id r.top_ups)) [
  | inr (t, e) ↦ ground arith
  | inl e ↦ elim (Option-cases (lookup a.user_id r.balances)) [
    | inl m ↦ ground arith
    | inr (b, m) ↦
        let marker : TopUpMarker = record { user_id = a.user_id; ttl = a.ttl } in
        ground (arith, lookup-insert id a.operation_id marker r.top_ups)
  ]
]

exec-marked :
    (id : ℕ) (c : Call) (r : Redis)
    → KeepsMarker id c
    → marked id (exec c r) ≡ marked id r + credits id c r
unfolding exec reserve settle refund seed_if_absent advance_version acquire_load_lock
    release_load_lock clear_dirty forget_inflight
exec-marked id (Call.reserve a) r k = ground arith
exec-marked id (Call.settle a) r k = ground arith
exec-marked id (Call.refund a) r k = ground arith
exec-marked id (Call.top_up a) r k = top_up-marked id a r
exec-marked id (Call.seed_if_absent u b) r k = ground arith
exec-marked id (Call.advance_version u expected to) r k = ground arith
exec-marked id (Call.acquire_load_lock u token ttl) r k = ground arith
exec-marked id (Call.release_load_lock u token) r k = ground arith
exec-marked id (Call.clear_dirty u version) r k = ground arith
exec-marked id (Call.forget_inflight other) r k = ground arith
exec-marked id (Call.expire_generation other) r k = ground arith
exec-marked id (Call.expire_top_up other) r k = ground (arith, lookup-erase id other r.top_ups)
exec-marked id (Call.expire_load_lock u) r k = ground arith

pub run-marked :
    (id : ℕ) (calls : List Call) (r : Redis)
    → All (KeepsMarker id) calls
    → marked id (run calls r) ≡ marked id r + credited id calls r
unfolding run
run-marked id [] r h = omega arith
run-marked id (c ∷ calls) r (k, h) =
    omega (arith, run-marked id calls (exec c r) h, exec-marked id c r k)
