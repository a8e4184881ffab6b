-- ===== src/Redis/Traces.antt =====
-- What a sequence of commands can do, whoever gives them.
use generation_balance_servi.Base.{
  ℕ, ◌≡◌, refl, Bool-cases, inl, inr, ◌==◌, ◌==ℤ◌, ℤ, Option, Option-cases, none, some, List, [],
  ◌∷◌, ◌++◌, lookup, lookup-insert, arith,
}
use generation_balance_servi.Redis.State.{Redis, BalanceHash}
use generation_balance_servi.Redis.Scripts.{advance_version}
use generation_balance_servi.Redis.CallData.{Call}
use generation_balance_servi.Redis.Calls.{exec, run}
use generation_balance_servi.Redis.Versions.{All, Later, IsForward, run-Later}

pub run-append : (xs ys : List Call) (r : Redis) → run (xs ++ ys) r ≡ run ys (run xs r)
unfolding run
run-append [] ys r = refl
run-append (x ∷ xs) ys r = run-append xs ys (exec x r)

pub All-append {ℓ κ} :
    {A : Type ℓ} (P : A → Type κ) (xs ys : List A) → All P xs → All P ys → All P (xs ++ ys)
All-append P [] ys h k = k
All-append P (x ∷ xs) ys (p, h) k = (p, All-append P xs ys h k)

-- The second keyspace comes from the first by commands with the property.
pub record Ran (P : Call → Type 0) (r r' : Redis) : Type 0 where
  pub calls : List Call
  pub all : All P calls
  pub ends : r' ≡ run calls r

module _ {P : Call → Type 0} where
  pub Ran-refl : {r : Redis} → Ran P r r
  unfolding run
  Ran-refl = record { calls = []; all = tt; ends = refl }

  pub Ran-trans : {r r' r'' : Redis} → Ran P r r' → Ran P r' r'' → Ran P r r''
  Ran-trans {r} x y = record {
    calls = x.calls ++ y.calls;
    all = All-append P x.calls y.calls x.all y.all;
    ends = rw (run-append x.calls y.calls r, ← x.ends) y.ends;
  }

  pub Ran-exec : (c : Call) (r : Redis) → P c → Ran P r (exec c r)
  unfolding run
  Ran-exec c r h = record { calls = c ∷ []; all = (h, tt); ends = refl }

-- What every command with the property keeps.
run-stable :
    (P : Call → Type 0) (S : Redis → Type 0) (calls : List Call) (r : Redis)
    → ((c : Call) (r : Redis) → P c → S r → S (exec c r))
    → All P calls
    → S r
    → S (run calls r)
unfolding run
run-stable P S [] r keep h k = k
run-stable P S (c ∷ calls) r keep (p, h) k = run-stable P S calls (exec c r) keep h (keep c r p k)

pub Ran-stable :
    {P : Call → Type 0} (S : Redis → Type 0) (r r' : Redis)
    → ((c : Call) (r : Redis) → P c → S r → S (exec c r))
    → Ran P r r'
    → S r
    → S r'
Ran-stable {P} S r r' keep x k = rw x.ends (run-stable P S x.calls r keep x.all k)

-- No command takes a balance away.
abbrev pub HasBalance : ℕ → Redis → Type 0
HasBalance u r = (b : BalanceHash) × (lookup u r.balances ≡ some b)

advance_version-HasBalance :
    (u k : ℕ) (expected to : ℤ) (r : Redis)
    → HasBalance u r
    → HasBalance u (advance_version k expected to r).1
unfolding advance_version
advance_version-HasBalance u k expected to r (b, e) = elim (Option-cases (lookup k r.balances)) [
  | inl m ↦ (b, ground arith)
  | inr (old, m) ↦ elim (Bool-cases (old.version ==ℤ expected)) [
    | inr v ↦ (b, ground arith)
    | inl v ↦
        let new : BalanceHash = record old { version = to } in
        elim (Bool-cases (u == k)) [
          | inl here ↦ (new, ground (arith, lookup-insert u k new r.balances))
          | inr apart ↦ (b, ground (arith, lookup-insert u k new r.balances))
        ]
  ]
]

Later-some :
    (o o' : Option BalanceHash) (b : BalanceHash)
    → Later o o'
    → o ≡ some b
    → (b' : BalanceHash) × (o' ≡ some b')
Later-some none o' b l e = cc
Later-some (some x) none b l e = absurd l
Later-some (some x) (some b') b l e = (b', refl)

forward-HasBalance :
    (u : ℕ) (c : Call) (r : Redis) → IsForward c → HasBalance u r → HasBalance u (exec c r)
unfolding run
forward-HasBalance u c r f (b, e) = Later-some _ _ b (run-Later (c ∷ []) r u (f, tt)) e

exec-HasBalance : (u : ℕ) (c : Call) (r : Redis) → HasBalance u r → HasBalance u (exec c r)
unfolding exec
exec-HasBalance u (Call.advance_version k expected to) r h =
    advance_version-HasBalance u k expected to r h
exec-HasBalance u (Call.reserve a) r h = forward-HasBalance u (Call.reserve a) r tt h
exec-HasBalance u (Call.settle a) r h = forward-HasBalance u (Call.settle a) r tt h
exec-HasBalance u (Call.refund a) r h = forward-HasBalance u (Call.refund a) r tt h
exec-HasBalance u (Call.top_up a) r h = forward-HasBalance u (Call.top_up a) r tt h
exec-HasBalance u (Call.seed_if_absent k b) r h =
    forward-HasBalance u (Call.seed_if_absent k b) r tt h
exec-HasBalance u (Call.acquire_load_lock k token ttl) r h =
    forward-HasBalance u (Call.acquire_load_lock k token ttl) r tt h
exec-HasBalance u (Call.release_load_lock k token) r h =
    forward-HasBalance u (Call.release_load_lock k token) r tt h
exec-HasBalance u (Call.clear_dirty k v) r h = forward-HasBalance u (Call.clear_dirty k v) r tt h
exec-HasBalance u (Call.forget_inflight id) r h =
    forward-HasBalance u (Call.forget_inflight id) r tt h
exec-HasBalance u (Call.expire_generation id) r h =
    forward-HasBalance u (Call.expire_generation id) r tt h
exec-HasBalance u (Call.expire_top_up id) r h = forward-HasBalance u (Call.expire_top_up id) r tt h
exec-HasBalance u (Call.expire_load_lock k) r h =
    forward-HasBalance u (Call.expire_load_lock k) r tt h

pub run-HasBalance :
    (u : ℕ) (calls : List Call) (r : Redis) → HasBalance u r → HasBalance u (run calls r)
unfolding run
run-HasBalance u [] r h = h
run-HasBalance u (c ∷ calls) r h = run-HasBalance u calls (exec c r) (exec-HasBalance u c r h)

pub Ran-HasBalance :
    {P : Call → Type 0} (u : ℕ) (r r' : Redis) → Ran P r r' → HasBalance u r → HasBalance u r'
Ran-HasBalance u r r' x h = rw x.ends (run-HasBalance u x.calls r h)
