-- ===== src/Redis/Versions.antt =====
-- The version of a balance identifies its contents: what RESERVE's compare-and-set rests on.
use generation_balance_servi.Base.{
  ℕ, ◌≡◌, refl, ◌⊎◌, Bool-cases, ◌==ℤ◌, inl, inr, ◌==◌, ℤ, pos, ◌+ℤ◌, ◌<ℤ◌, Option, none, some,
  Option-cases, List, [], ◌∷◌, Dict, lookup, insert, lookup-insert, int_laws, arith,
}
use generation_balance_servi.Redis.State.{Status, Redis, BalanceHash, GenerationHash}
use generation_balance_servi.Redis.Scripts.{
  ReserveArgs, SettleArgs, RefundArgs, TopUpArgs, debit, credit, surplus, has_surplus, topped,
  reserve, settle_running, settle_by_status, settle, refund_by_status, refund, top_up,
  seed_if_absent, advance_version, release_load_lock, clear_dirty,
}
use generation_balance_servi.Redis.CallData.{Call}
use generation_balance_servi.Redis.Calls.{exec, run, acquire_load_lock, forget_inflight}

-- A balance is never lost, and it is unchanged or has a greater version.
abbrev pub Later : Option BalanceHash → Option BalanceHash → Type 0
Later none o = Unit
Later (some b) none = ⊥
Later (some b) (some b') = (b' ≡ b) ⊎ (b.version <ℤ b'.version)

pub Later-refl : (o : Option BalanceHash) → Later o o
Later-refl none = tt
Later-refl (some b) = inl refl

pub Later-trans : (o p q : Option BalanceHash) → Later o p → Later p q → Later o q
Later-trans none p q x y = tt
Later-trans (some b) none q x y = absurd x
Later-trans (some b) (some b') none x y = absurd y
Later-trans (some b) (some b') (some b'') x y = grind (arith, x, y)

-- The only command that can set a version back is ADVANCE_VERSION; the flusher moves it forward.
abbrev pub IsForward : Call → Type 0
IsForward (Call.advance_version u expected to) = expected <ℤ to
IsForward _ = Unit

abbrev pub All {ℓ κ} : {A : Type ℓ} → (A → Type κ) → List A → Type κ
All P [] = Unit
All P (x ∷ xs) = P x × All P xs

-- What one command does to the balances.
data Change (d d' : Dict BalanceHash) : Type 0 where
  same : d' ≡ d → Change d d'
  bump :
      (k : ℕ) (b b' : BalanceHash)
      → lookup k d ≡ some b
      → b.version <ℤ b'.version
      → d' ≡ insert k b' d
      → Change d d'
  new : (k : ℕ) (b : BalanceHash) → lookup k d ≡ none → d' ≡ insert k b d → Change d d'

next_version : (v : ℤ) → v <ℤ v +ℤ pos 1
next_version v = omega int_laws

reserve-Change : (a : ReserveArgs) (r : Redis) → Change r.balances (reserve a r).1.balances
unfolding reserve
reserve-Change a r = elim (Option-cases (lookup a.client_request_id r.generations)) [
  | inr (g, e) ↦ same (ground arith)
  | inl e ↦ elim (Option-cases (lookup a.user_id r.balances)) [
    | inl m ↦ same (ground arith)
    | inr (b, m) ↦ elim (Bool-cases (b.version ==ℤ a.expected_version)) [
      | inl v ↦ bump a.user_id b (debit a.plan b) m (next_version b.version) (ground arith)
      | inr v ↦ same (ground arith)
    ]
  ]
]

settle_running-Change :
    (a : SettleArgs) (g : GenerationHash) (r : Redis)
    → Change r.balances (settle_running a g r).1.balances
unfolding settle_running
settle_running-Change a g r = elim (Bool-cases (has_surplus a)) [
  | inr none_left ↦ same (ground arith)
  | inl left ↦ elim (Option-cases (lookup a.user_id r.balances)) [
    | inl m ↦ same (ground arith)
    | inr (b, m) ↦ bump a.user_id b (credit (surplus a) b) m (next_version b.version) (ground arith)
  ]
]

settle-Change : (a : SettleArgs) (r : Redis) → Change r.balances (settle a r).1.balances
unfolding settle
settle-Change a r = elim (Option-cases (lookup a.client_request_id r.generations)) [
  | inl e ↦ same (ground arith)
  | inr (g, e) ↦ rw (e, settle) (by_status g.status g)
]
  where
    by_status :
        (s : Status) (g : GenerationHash) → Change r.balances (settle_by_status s a g r).1.balances
    by_status Status.done g = same refl
    by_status Status.failed g = same refl
    by_status Status.running g = settle_running-Change a g r

refund-Change : (a : RefundArgs) (r : Redis) → Change r.balances (refund a r).1.balances
unfolding refund
refund-Change a r = elim (Option-cases (lookup a.client_request_id r.generations)) [
  | inl e ↦ same (ground arith)
  | inr (g, e) ↦ elim (Option-cases (lookup a.user_id r.balances)) [
    | inl m ↦ same (ground arith)
    | inr (b, m) ↦ rw (e, refund) (by_status g.status g b m)
  ]
]
  where
    by_status :
        (s : Status) (g : GenerationHash) (b : BalanceHash)
        → lookup a.user_id r.balances ≡ some b
        → Change r.balances (refund_by_status s a g r).1.balances
    by_status Status.done g b m = same refl
    by_status Status.failed g b m = same refl
    by_status Status.running g b m =
        bump a.user_id b (credit a.plan b) m (next_version b.version) (ground arith)

top_up-Change : (a : TopUpArgs) (r : Redis) → Change r.balances (top_up a r).1.balances
unfolding top_up
top_up-Change a r = elim (Option-cases (lookup a.operation_id r.top_ups)) [
  | inr (t, e) ↦ same (ground arith)
  | inl e ↦ elim (Option-cases (lookup a.user_id r.balances)) [
    | inl m ↦ same (ground arith)
    | inr (b, m) ↦ bump a.user_id b (credit (topped a) b) m (next_version b.version) (ground arith)
  ]
]

seed_if_absent-Change :
    (u : ℕ) (b : BalanceHash) (r : Redis) → Change r.balances (seed_if_absent u b r).1.balances
unfolding seed_if_absent
seed_if_absent-Change u b r = elim (Option-cases (lookup u r.balances)) [
  | inl m ↦ new u b m (ground arith)
  | inr (b', m) ↦ same (ground arith)
]

advance_version-Change :
    (u : ℕ) (expected to : ℤ) (r : Redis)
    → expected <ℤ to
    → Change r.balances (advance_version u expected to r).1.balances
unfolding advance_version
advance_version-Change u expected to r h = elim (Option-cases (lookup u r.balances)) [
  | inl m ↦ same (ground arith)
  | inr (b, m) ↦ elim (Bool-cases (b.version ==ℤ expected)) [
    | inl v ↦ bump u b (record b { version = to }) m (ground arith) (ground arith)
    | inr v ↦ same (ground arith)
  ]
]

exec-Change : (c : Call) (r : Redis) → IsForward c → Change r.balances (exec c r).balances
unfolding exec acquire_load_lock release_load_lock clear_dirty forget_inflight
exec-Change (Call.reserve a) r f = reserve-Change a r
exec-Change (Call.settle a) r f = settle-Change a r
exec-Change (Call.refund a) r f = refund-Change a r
exec-Change (Call.top_up a) r f = top_up-Change a r
exec-Change (Call.seed_if_absent u b) r f = seed_if_absent-Change u b r
exec-Change (Call.advance_version u expected to) r f = advance_version-Change u expected to r f
exec-Change (Call.acquire_load_lock u token ttl) r f = same (ground arith)
exec-Change (Call.release_load_lock u token) r f = same (ground arith)
exec-Change (Call.clear_dirty u version) r f = same (ground arith)
exec-Change (Call.forget_inflight id) r f = same refl
exec-Change (Call.expire_generation id) r f = same refl
exec-Change (Call.expire_top_up id) r f = same refl
exec-Change (Call.expire_load_lock u) r f = same refl

Change-Later : (u : ℕ) (d d' : Dict BalanceHash) → Change d d' → Later (lookup u d) (lookup u d')
Change-Later u d d' (same e) = rw e (Later-refl (lookup u d))
Change-Later u d d' (bump k b b' l h e) =
    rw (e, lookup-insert u k b' d)
      (elim (Bool-cases (u == k)) [
        | inl here ↦ let at : lookup u d ≡ some b = ground arith in rw (here) (rw at (inr h))
        | inr other ↦ rw other (Later-refl (lookup u d))
      ])
Change-Later u d d' (new k b l e) =
    rw (e, lookup-insert u k b d)
      (elim (Bool-cases (u == k)) [
        | inl here ↦ let at : lookup u d ≡ none = ground arith in rw here (rw at tt)
        | inr other ↦ rw other (Later-refl (lookup u d))
      ])

-- Along any commands whose ADVANCE_VERSION go forward, a user's balance is never lost, and at the
-- end it is the same balance or has a greater version.
pub run-Later :
    (calls : List Call) (r : Redis) (u : ℕ)
    → All IsForward calls
    → Later (lookup u r.balances) (lookup u (run calls r).balances)
unfolding run
run-Later [] r u f = Later-refl _
run-Later (c ∷ calls) r u f =
    Later-trans _ (lookup u (exec c r).balances) _ (Change-Later u _ _ (exec-Change c r f.0))
      (run-Later calls (exec c r) u f.1)
