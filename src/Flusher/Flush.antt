-- ===== src/Flusher/Flush.antt =====
-- A flush takes the dirty mark only off what has reached the table.
use generation_balance_servi.Base.{
  ℕ, ◌≡◌, refl, inl, inr, false, Bool-cases, ◌==◌, ℤ, none, some, Option-cases, List, [], ◌∷◌, ◌++◌,
  Dict, lookup, arith, int_laws,
}
use generation_balance_servi.Errors.{Result, ok, raise}
use generation_balance_servi.Redis
use generation_balance_servi.Redis.{Redis, Call, exec, run, contains, BalanceHash}
use generation_balance_servi.Redis.Versions.{All}
use generation_balance_servi.Store.{StoreConfig, BalanceSnapshot, Attempt}
use generation_balance_servi.Store.Methods.{load_many, clear_dirty}
use generation_balance_servi.Table.{Table, upsert_many}
use generation_balance_servi.Table.Newest.{row_of, AreDistinct}
use generation_balance_servi.World.{World, happen_all}
use generation_balance_servi.Flusher.{
  Waits, row_of_snapshot, rows_of, flushed_versions, clear_flushed, write_back, flush_once,
}
use generation_balance_servi.Flusher.Dirty.{HasReached, IsFlushed, Admitted, clear_dirty-IsFlushed}
use generation_balance_servi.Flusher.Reached.{
  AtLeast, AreAdmitted, after, AreAdmitted-append, upsert_many-AtLeast, upsert_many-reaches,
  Admitted-AtLeast, IsFlushed-AtLeast, happen_all-IsFlushed,
}
use generation_balance_servi.Flusher.Repair.{repair_all-IsFlushed}

-- No user twice, as SRANDMEMBER picks them.
abbrev pub AreApart : List ℕ → Type 0
AreApart [] = Unit
AreApart (u ∷ users) = (contains u users ≡ false) × AreApart users

row_of-absent :
    (u : ℕ) (users : List ℕ) (r : Redis)
    → contains u users ≡ false
    → row_of u (rows_of (load_many users r)) ≡ none
unfolding load_many
row_of-absent u [] r h = refl
row_of-absent u (k ∷ users) r h = elim (Option-cases (lookup k r.balances)) [
  | inl m ↦ ground (arith, row_of-absent u users r)
  | inr (b, m) ↦ ground (arith, row_of-absent u users r)
]

pub rows_of-AreDistinct :
    (users : List ℕ) (r : Redis) → AreApart users → AreDistinct (rows_of (load_many users r))
unfolding load_many
rows_of-AreDistinct [] r a = tt
rows_of-AreDistinct (k ∷ users) r (h, a) = elim (Option-cases (lookup k r.balances)) [
  | inl m ↦ rw (m, load_many) (rows_of-AreDistinct users r a)
  | inr (b, m) ↦ rw (m, load_many) (row_of-absent k users r h, rows_of-AreDistinct users r a)
]

pub row_of-snapshot :
    (u : ℕ) (snapshots : Dict BalanceSnapshot) {s : BalanceSnapshot}
    → lookup u snapshots ≡ some s
    → row_of u (rows_of snapshots) ≡ some (row_of_snapshot u s)
row_of-snapshot u [] e = cc
row_of-snapshot u ((k, s') ∷ snapshots) {s} e = elim (Bool-cases (u == k)) [
  | inr apart ↦ rw apart (row_of-snapshot u snapshots (rw apart at e))
  | inl here ↦
      let same_user : u ≡ k = ground arith in
      let same_snapshot : some s' ≡ some s = rw here at e in
      ground (arith, same_user, same_snapshot)
]

flushed_versions-Admitted :
    (u : ℕ) (t : Table) (users : List ℕ) (snapshots : Dict BalanceSnapshot)
    → ((s : BalanceSnapshot) → lookup u snapshots ≡ some s → HasReached u s.version t)
    → All
        (λ (e : ℕ × ℤ). Admitted u t (Call.clear_dirty e.0 e.1))
        (flushed_versions users snapshots)
flushed_versions-Admitted u t [] snapshots h = tt
flushed_versions-Admitted u t (k ∷ users) snapshots h = elim (Option-cases (lookup k snapshots)) [
  | inl m ↦
      rw (m, flushed_versions)
        (
          λ (e : k ≡ u) p. absurd (omega (int_laws, p)),
          flushed_versions-Admitted u t users snapshots h,
        )
  | inr (s, m) ↦
      rw (m, flushed_versions)
        (λ (e : k ≡ u) p. h s (rw e at m), flushed_versions-Admitted u t users snapshots h)
]

cleared-IsFlushed :
    (u : ℕ) (t : Table) (flushed : List (ℕ × ℤ)) (r : Redis)
    → All (λ (e : ℕ × ℤ). Admitted u t (Call.clear_dirty e.0 e.1)) flushed
    → IsFlushed u t r
    → IsFlushed u t (clear_dirty flushed r)
unfolding clear_dirty
cleared-IsFlushed u t [] r a f = f
cleared-IsFlushed u t ((k, v) ∷ flushed) r (a, rest) f =
    cleared-IsFlushed u t flushed (Redis.clear_dirty k v r).1 rest
      (clear_dirty-IsFlushed u t k v r a f)

module _ (config : StoreConfig) (waits : Waits) (u : ℕ) (t : Table)
    (repairs : (k : ℕ) → All (λ (a : Attempt). All (Admitted u t) a.before) (waits.repair k)) where
  repairs_at_later_table :
      (t' : Table) (le : AtLeast u t t') (wire : List Attempt)
      → All (λ (a : Attempt). All (Admitted u t) a.before) wire
      → All (λ (a : Attempt). All (Admitted u t') a.before) wire
  repairs_at_later_table t' le [] h = tt
  repairs_at_later_table t' le (a ∷ wire) (h, rest) =
      (calls a.before h, repairs_at_later_table t' le wire rest)
    where
      calls : (cs : List Call) → All (Admitted u t) cs → All (Admitted u t') cs
      calls [] h = tt
      calls (c ∷ cs) (h, rest) = (Admitted-AtLeast u t t' c le h, calls cs rest)

  clear_flushed-IsFlushed :
      (low : Table) (users : List ℕ) (snapshots : Dict BalanceSnapshot) (written : List ℕ)
      (t' : Table) (x : Result (Unit {0}) × Redis)
      → ((s : BalanceSnapshot) → lookup u snapshots ≡ some s → HasReached u s.version t')
      → AtLeast u low t'
      → AreAdmitted u low waits.before_clear
      → IsFlushed u t' x.1
      → let w' = (clear_flushed waits users snapshots written t' x).1 in
        IsFlushed u w'.table w'.redis
  clear_flushed-IsFlushed low users snapshots written t' (raise e, r) reached le clears fine = fine
  clear_flushed-IsFlushed low users snapshots written t' (ok _, r) reached le clears fine =
      let w : World = record { redis = r; table = t' } in
      let (f, l, g) = happen_all-IsFlushed u low waits.before_clear w clears le fine in
      cleared-IsFlushed u _ (flushed_versions users snapshots) _
        (flushed_versions-Admitted u _ users snapshots (λ s m. g _ (reached s m))) f

  write_back-IsFlushed :
      (low : Table) (users : List ℕ) (snapshots : Dict BalanceSnapshot) (w : World)
      → AreDistinct (rows_of snapshots)
      → AtLeast u t w.table
      → AtLeast u low w.table
      → AreAdmitted u low waits.before_clear
      → IsFlushed u w.table w.redis
      → let w' = (write_back config waits users snapshots w).1 in IsFlushed u w'.table w'.redis
  write_back-IsFlushed low users snapshots w d le le' clears flushed =
      let rows = rows_of snapshots in
      let (written, t') = upsert_many rows w.table in
      let grown = upsert_many-AtLeast u rows w.table d in
      clear_flushed-IsFlushed low users snapshots written t' _
        (λ s m.
          upsert_many-reaches u rows w.table (row_of_snapshot u s) d
            (row_of-snapshot u snapshots m))
        (λ v h. grown v (le' v h)) clears
        (repair_all-IsFlushed config u t' waits.repair rows written w.redis
          (λ k. repairs_at_later_table t' (λ v h. grown v (le v h)) (waits.repair k) (repairs k))
          (IsFlushed-AtLeast u w.table t' w.redis grown flushed))

-- Suppose that, for one user, a balance that has a positive version and is not dirty has a row of
-- at least its version. This still holds after a flush of distinct users that succeeds or fails,
-- whatever other processes do while it waits, provided that they seed the user's balance only
-- with a version, and clear the user's mark only at a version, that the table has reached, and
-- write one row for a user at a time. During the repairs these versions are counted by the table
-- at the start, and otherwise by the writes of others up to then.
pub flush_once-IsFlushed :
    (config : StoreConfig) (waits : Waits) (users : List ℕ) (u : ℕ) (w : World)
    → AreApart users
    → AreAdmitted u w.table (waits.before_load ++ (waits.before_write ++ waits.before_clear))
    → ((k : ℕ) → All (λ (a : Attempt). All (Admitted u w.table) a.before) (waits.repair k))
    → IsFlushed u w.table w.redis
    → let w' = (flush_once config waits users w).1 in IsFlushed u w'.table w'.redis
unfolding flush_once
flush_once-IsFlushed config waits [] u w apart events repairs flushed = flushed
flush_once-IsFlushed config waits (k ∷ users) u w apart events repairs flushed =
    let t = w.table in
    let read = happen_all waits.before_load w in
    let t₁ = after t waits.before_load in
    let (a₁, rest) = AreAdmitted-append u t waits.before_load _ events in
    let (a₂, a₃) = AreAdmitted-append u t₁ waits.before_write waits.before_clear rest in
    let (f₁, l₁, g₁) = happen_all-IsFlushed u t waits.before_load w a₁ (λ v h. h) flushed in
    let (f₂, l₂, g₂) = happen_all-IsFlushed u t₁ waits.before_write read a₂ l₁ f₁ in
    write_back-IsFlushed config waits u t repairs (after t₁ waits.before_write) (k ∷ users)
      (load_many (k ∷ users) read.redis) (happen_all waits.before_write read)
      (rows_of-AreDistinct (k ∷ users) read.redis apart) (λ v h. g₂ v (g₁ v h)) l₂ a₃ f₂
