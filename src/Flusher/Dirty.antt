-- ===== src/Flusher/Dirty.antt =====
-- A balance that is not marked dirty has reached the table.
use generation_balance_servi.Base.{
  ℕ, ◌≡◌, refl, inl, inr, false, Bool-cases, ◌==◌, ◌==ℤ◌, ==ℤ→eq, ℤ, pos, ◌≤ℤ◌, ◌<ℤ◌, some,
  Option-cases, lookup, insert, lookup-insert, arith,
}
use generation_balance_servi.Redis.{
  Redis, Call, exec, contains, sadd, contains-sadd, contains-srem, BalanceHash, GenerationHash,
  Status, ReserveArgs, SettleArgs, RefundArgs, TopUpArgs, debit, credit, surplus, has_surplus,
  topped, reserve, settle, settle_running, settle_by_status, refund, refund_by_status, top_up,
  seed_if_absent, advance_version, acquire_load_lock, release_load_lock, clear_dirty,
  forget_inflight,
}
use generation_balance_servi.Table.{Balance, Table}

-- What a command does to the balances and the dirty set: nothing, or it writes one balance and
-- marks its user.
data Marks (r r' : Redis) : Type 0 where
  same : r'.balances ≡ r.balances → r'.dirty ≡ r.dirty → Marks r r'
  put :
      (k : ℕ) (b : BalanceHash)
      → r'.balances ≡ insert k b r.balances
      → r'.dirty ≡ sadd k r.dirty
      → Marks r r'

reserve-Marks : (a : ReserveArgs) (r : Redis) → Marks r (reserve a r).1
unfolding reserve
reserve-Marks a r = elim (Option-cases (lookup a.client_request_id r.generations)) [
  | inr (g, e) ↦ same (ground arith) (ground arith)
  | inl e ↦ elim (Option-cases (lookup a.user_id r.balances)) [
    | inl m ↦ same (ground arith) (ground arith)
    | inr (b, m) ↦ elim (Bool-cases (b.version ==ℤ a.expected_version)) [
      | inl v ↦ put a.user_id (debit a.plan b) (ground arith) (ground arith)
      | inr v ↦ same (ground arith) (ground arith)
    ]
  ]
]

settle-Marks : (a : SettleArgs) (r : Redis) → Marks r (settle a r).1
unfolding settle settle_running
settle-Marks a r = elim (Option-cases (lookup a.client_request_id r.generations)) [
  | inl e ↦ same (ground arith) (ground arith)
  | inr (g, e) ↦ rw (e, settle) (by_status g.status g)
]
  where
    by_status : (s : Status) (g : GenerationHash) → Marks r (settle_by_status s a g r).1
    by_status Status.done g = same refl refl
    by_status Status.failed g = same refl refl
    by_status Status.running g = elim (Bool-cases (has_surplus a)) [
      | inr none_left ↦ same (ground arith) (ground arith)
      | inl left ↦ elim (Option-cases (lookup a.user_id r.balances)) [
        | inl m ↦ same (ground arith) (ground arith)
        | inr (b, m) ↦ put a.user_id (credit (surplus a) b) (ground arith) (ground arith)
      ]
    ]

refund-Marks : (a : RefundArgs) (r : Redis) → Marks r (refund a r).1
unfolding refund
refund-Marks a r = elim (Option-cases (lookup a.client_request_id r.generations)) [
  | inl e ↦ same (ground arith) (ground arith)
  | inr (g, e) ↦ rw (e, refund) (by_status g.status g)
]
  where
    by_status : (s : Status) (g : GenerationHash) → Marks r (refund_by_status s a g r).1
    by_status Status.done g = same refl refl
    by_status Status.failed g = same refl refl
    by_status Status.running g = elim (Option-cases (lookup a.user_id r.balances)) [
      | inl m ↦ same (ground arith) (ground arith)
      | inr (b, m) ↦ put a.user_id (credit a.plan b) (ground arith) (ground arith)
    ]

top_up-Marks : (a : TopUpArgs) (r : Redis) → Marks r (top_up a r).1
unfolding top_up
top_up-Marks a r = elim (Option-cases (lookup a.operation_id r.top_ups)) [
  | inr (t, e) ↦ same (ground arith) (ground arith)
  | inl e ↦ elim (Option-cases (lookup a.user_id r.balances)) [
    | inl m ↦ same (ground arith) (ground arith)
    | inr (b, m) ↦ put a.user_id (credit (topped a) b) (ground arith) (ground arith)
  ]
]

advance_version-Marks :
    (k : ℕ) (expected to : ℤ) (r : Redis) → Marks r (advance_version k expected to r).1
unfolding advance_version
advance_version-Marks k expected to r = elim (Option-cases (lookup k r.balances)) [
  | inl m ↦ same (ground arith) (ground arith)
  | inr (b, m) ↦ elim (Bool-cases (b.version ==ℤ expected)) [
    | inl v ↦ put k (record b { version = to }) (ground arith) (ground arith)
    | inr v ↦ same (ground arith) (ground arith)
  ]
]

-- The table holds a row of the user with at least the version.
abbrev pub HasReached : ℕ → ℤ → Table → Type 0
HasReached u v t = (row : Balance) × (lookup u t ≡ some row) × (v ≤ℤ row.version)

-- A balance with a positive version that is not marked dirty has reached the table. Version zero
-- is the empty balance of a user without a row.
abbrev pub IsFlushed : ℕ → Table → Redis → Type 0
IsFlushed u t r =
    (b : BalanceHash)
    → lookup u r.balances ≡ some b
    → contains u r.dirty ≡ false
    → pos 0 <ℤ b.version
    → HasReached u b.version t

-- The commands that a careful process gives: the user is seeded with what the table holds, and
-- cleared at a version that the table has reached.
abbrev pub Admitted : ℕ → Table → Call → Type 0
Admitted u t (Call.seed_if_absent k b) = k ≡ u → pos 0 <ℤ b.version → HasReached u b.version t
Admitted u t (Call.clear_dirty k v) = k ≡ u → pos 0 <ℤ v → HasReached u v t
Admitted u t _ = Unit

Marks-IsFlushed :
    (u : ℕ) (t : Table) (r r' : Redis) → Marks r r' → IsFlushed u t r → IsFlushed u t r'
Marks-IsFlushed u t r r' (same e f) flushed b at clean positive =
    flushed b (ground arith) (ground arith) positive
Marks-IsFlushed u t r r' (put k b' e f) flushed b at clean positive = elim (Bool-cases (u == k)) [
  | inl here ↦ absurd (ground (arith, contains-sadd u k r.dirty))
  | inr apart ↦
      flushed b (ground (arith, lookup-insert u k b' r.balances))
        (ground (arith, contains-sadd u k r.dirty)) positive
]

seed_if_absent-IsFlushed :
    (u : ℕ) (t : Table) (k : ℕ) (b : BalanceHash) (r : Redis)
    → Admitted u t (Call.seed_if_absent k b)
    → IsFlushed u t r
    → IsFlushed u t (seed_if_absent k b r).1
unfolding seed_if_absent
seed_if_absent-IsFlushed u t k b r admitted flushed b' at clean positive =
    elim (Option-cases (lookup k r.balances)) [
      | inr (old, m) ↦ flushed b' (ground arith) (ground arith) positive
      | inl m ↦ elim (Bool-cases (u == k)) [
        | inr apart ↦
            flushed b' (ground (arith, lookup-insert u k b r.balances)) (ground arith) positive
        | inl here ↦
            let same_b : b ≡ b' = ground (arith, lookup-insert u k b r.balances) in
            rw same_b at (admitted (ground arith) (rw same_b positive))
      ]
    ]

pub clear_dirty-IsFlushed :
    (u : ℕ) (t : Table) (k : ℕ) (v : ℤ) (r : Redis)
    → Admitted u t (Call.clear_dirty k v)
    → IsFlushed u t r
    → IsFlushed u t (clear_dirty k v r).1
unfolding clear_dirty
clear_dirty-IsFlushed u t k v r admitted flushed b at clean positive = elim (Bool-cases (u == k)) [
  | inr apart ↦ flushed b (ground arith) (ground (arith, contains-srem u k r.dirty)) positive
  | inl here ↦ elim (Bool-cases (b.version ==ℤ v)) [
    | inr moved ↦ flushed b (ground arith) (ground arith) positive
    | inl now ↦
        let is_v : b.version ≡ v = ==ℤ→eq _ _ now in
        rw is_v (admitted (ground arith) (rw is_v at positive))
  ]
]

pub exec-IsFlushed :
    (u : ℕ) (t : Table) (c : Call) (r : Redis)
    → Admitted u t c
    → IsFlushed u t r
    → IsFlushed u t (exec c r)
unfolding exec acquire_load_lock release_load_lock forget_inflight
exec-IsFlushed u t (Call.reserve a) r ok flushed =
    Marks-IsFlushed u t _ _ (reserve-Marks a r) flushed
exec-IsFlushed u t (Call.settle a) r ok flushed = Marks-IsFlushed u t _ _ (settle-Marks a r) flushed
exec-IsFlushed u t (Call.refund a) r ok flushed = Marks-IsFlushed u t _ _ (refund-Marks a r) flushed
exec-IsFlushed u t (Call.top_up a) r ok flushed = Marks-IsFlushed u t _ _ (top_up-Marks a r) flushed
exec-IsFlushed u t (Call.seed_if_absent k b) r ok flushed =
    seed_if_absent-IsFlushed u t k b r ok flushed
exec-IsFlushed u t (Call.advance_version k expected to) r ok flushed =
    Marks-IsFlushed u t _ _ (advance_version-Marks k expected to r) flushed
exec-IsFlushed u t (Call.acquire_load_lock k token ttl) r ok flushed =
    Marks-IsFlushed u t r (exec (Call.acquire_load_lock k token ttl) r)
      (same (ground arith) (ground arith)) flushed
exec-IsFlushed u t (Call.release_load_lock k token) r ok flushed =
    Marks-IsFlushed u t r (exec (Call.release_load_lock k token) r)
      (same (ground arith) (ground arith)) flushed
exec-IsFlushed u t (Call.clear_dirty k v) r ok flushed = clear_dirty-IsFlushed u t k v r ok flushed
exec-IsFlushed u t (Call.forget_inflight id) r ok flushed = flushed
exec-IsFlushed u t (Call.expire_generation id) r ok flushed = flushed
exec-IsFlushed u t (Call.expire_top_up id) r ok flushed = flushed
exec-IsFlushed u t (Call.expire_load_lock k) r ok flushed = flushed
