-- ===== src/Flusher/Converges.antt =====
-- Flushes while nobody else is at work: the table and the hot store come to agree.
use generation_balance_servi.Base.{
  ◌&&◌, ==ℤ→eq, ℕ, ◌≡◌, refl, ap, ◌∙◌, ◌⊎◌, inl, inr, Bool, true, false, Bool-cases, ◌==ℤ◌, ltb_ℤ,
  ℤ, pos, ◌+ℤ◌, ◌<ℤ◌, Option, none, some, List, lookup, arith, int_laws,
}
use generation_balance_servi.Money.{micros_to_money}
use generation_balance_servi.Redis.{BalanceHash, contains}
use generation_balance_servi.Store.{StoreConfig, snapshot_from_hash}
use generation_balance_servi.Table.{Balance}
use generation_balance_servi.World.{World}
use generation_balance_servi.Flusher.{same_state, flush_once}
use generation_balance_servi.Flusher.Flush.{AreApart}
use generation_balance_servi.Flusher.Views.{View, view}
use generation_balance_servi.Flusher.Quiet.{
  quiet, row_of_hash, flushed_row, flushed_view, flush_once-view,
}

-- The balance is clean, has the amounts of `b`, and is what the table has.
abbrev Agrees : ℕ → BalanceHash → View → Option Balance → Type 0
Agrees u b v stored =
    (b' : BalanceHash) × (row : Balance) × (v ≡ (some b', false))
    × (b' ≡ record b { version = b'.version })
    × (stored ≡ some row)
    × (same_state row (row_of_hash u b') ≡ true)

-- The balance is dirty, has the amounts of `b`, and is newer than the table's row.
abbrev IsAhead : ℕ → BalanceHash → View → Option Balance → Type 0
IsAhead u b v stored =
    (b' : BalanceHash) × (row : Balance) × (v ≡ (some b', true))
    × (b' ≡ record b { version = b'.version })
    × (stored ≡ some row)
    × (row.version <ℤ b'.version)

same_state_refl : (row : Balance) → same_state row row ≡ true
same_state_refl row = ground arith

same_version : (v : ℤ) → v ==ℤ v ≡ true
same_version v = ground arith

not_next : (v w : ℤ) → ltb_ℤ v w ≡ false → ((v +ℤ pos 1) ==ℤ w ≡ false) × (v <ℤ v +ℤ pos 1)
not_next v w h = (grind int_laws, grind int_laws)

-- From any row, a flush leaves the two in agreement, or the balance ahead and dirty.
flushed_once :
    (u : ℕ) (b : BalanceHash) (stored : Option Balance) (dirty : Bool)
    → let v = flushed_view u b stored (some b, dirty) in
      Agrees u b v (flushed_row u b stored) ⊎ IsAhead u b v (flushed_row u b stored)
unfolding snapshot_from_hash
flushed_once u b none dirty = inl (
  b,
  row_of_hash u b,
  rw (same_version b.version) refl,
  refl,
  refl,
  same_state_refl (row_of_hash u b),
)
flushed_once u b (some row) dirty = elim (Bool-cases (ltb_ℤ row.version b.version)) [
  | inl newer ↦ rw newer (
      inl (
        b,
        row_of_hash u b,
        rw (same_version b.version) refl,
        refl,
        refl,
        same_state_refl (row_of_hash u b),
      ))
  | inr older ↦ rw older (elim (Bool-cases (same_state row (row_of_hash u b))) [
    | inl same ↦ rw same (inl (b, row, rw (same_version b.version) refl, refl, refl, same))
    | inr differ ↦
        let (apart, later) = not_next row.version b.version older in
        rw (differ, same_version b.version)
          (inr (record b { version = row.version +ℤ pos 1 }, row, rw apart refl, refl, refl, later))
  ])
]

-- From such a state, a flush leaves the two in agreement.
flushed_again :
    (u : ℕ) (b : BalanceHash) (row : Balance) (dirty : Bool)
    → (same_state row (row_of_hash u b) ≡ true) ⊎ (row.version <ℤ b.version)
    → Agrees u b (flushed_view u b (some row) (some b, dirty)) (flushed_row u b (some row))
unfolding snapshot_from_hash
flushed_again u b row dirty (inr ahead) =
    let newer : ltb_ℤ row.version b.version ≡ true = ground arith in
    rw newer (
      b,
      row_of_hash u b,
      rw (same_version b.version) refl,
      refl,
      refl,
      same_state_refl (row_of_hash u b),
    )
flushed_again u b row dirty (inl same) =
    let older : ltb_ℤ row.version b.version ≡ false = ground arith in
    rw (older, same) (b, row, rw (same_version b.version) refl, refl, refl, same)

-- The row has the version of the balance, its free requests, and its funds in dollars, field by
-- field.
abbrev pub Shows : Balance → BalanceHash → Type 0
Shows row b =
    (row.free_usd ≡ micros_to_money b.free_usd)
    × (row.bonus_usd ≡ micros_to_money b.bonus_usd)
    × (row.paid_usd ≡ micros_to_money b.paid_usd)
    × (row.free_requests ≡ b.free_requests)
    × (row.version ≡ b.version)

-- The user's balance has the amounts of `b`, is not marked dirty, and is what the table's row shows.
abbrev pub IsSynced : ℕ → BalanceHash → World → Type 0
IsSynced u b w =
    (b' : BalanceHash) × (row : Balance) × (lookup u w.redis.balances ≡ some b')
    × (contains u w.redis.dirty ≡ false)
    × (b' ≡ record b { version = b'.version })
    × (lookup u w.table ≡ some row)
    × Shows row b'

all_true :
    (v w x y z : Bool)
    → (v && w && x && y && z) ≡ true
    → (v ≡ true) × (w ≡ true) × (x ≡ true) × (y ≡ true) × (z ≡ true)
all_true v w x y z h = ground arith

same_state-Shows :
    (u : ℕ) (row : Balance) (b : BalanceHash)
    → same_state row (row_of_hash u b) ≡ true
    → Shows row b
unfolding snapshot_from_hash
same_state-Shows u row b h =
    let (free, bonus, paid, requests, version) = all_true _ _ _ _ _ h in
    (==ℤ→eq _ _ free, ==ℤ→eq _ _ bonus, ==ℤ→eq _ _ paid, ==ℤ→eq _ _ requests, ==ℤ→eq _ _ version)

Agrees-IsSynced :
    (u : ℕ) (b : BalanceHash) (w : World)
    → Agrees u b (view u w.redis) (lookup u w.table)
    → IsSynced u b w
Agrees-IsSynced u b w (b', row, shown, money, at, same) =
    (b', row, ap (λ v. v.0) shown, ap (λ v. v.1) shown, money, at, same_state-Shows u row b' same)

-- A second flush of the user.
flushed_twice :
    (config : StoreConfig) (u : ℕ) (users : List ℕ) (w : World) (b b' : BalanceHash) (row : Balance)
    (dirty : Bool)
    → AreApart users
    → contains u users ≡ true
    → view u w.redis ≡ (some b', dirty)
    → b' ≡ record b { version = b'.version }
    → lookup u w.table ≡ some row
    → (same_state row (row_of_hash u b') ≡ true) ⊎ (row.version <ℤ b'.version)
    → IsSynced u b (flush_once config quiet users w).1
flushed_twice config u users w b b' row dirty a h shown money at state =
    let w' = (flush_once config quiet users w).1 in
    let (row', shown') = flush_once-view config u users w b' a h (ap (λ v. v.0) shown) in
    let (c, row'', e, same_money, f, same) =
      flushed_again u b' row (contains u w.redis.dirty) state in
    Agrees-IsSynced u b w' (
      c,
      row'',
      shown' ∙ ap (λ o. flushed_view u b' o (some b', contains u w.redis.dirty)) at ∙ e,
      cc (same_money, money),
      row' ∙ ap (flushed_row u b') at ∙ f,
      same,
    )

-- Suppose a user has a balance in Redis, nobody else is at work, and the wire delivers. Whatever the
-- table has for the user, be it newer than Redis after a restart that lost writes: after two flushes
-- of batches of distinct users that both have the user, the table's row has the free, bonus and paid
-- dollars, the free requests and the version of the balance, the balance is not marked dirty, and
-- its funds and free requests are what they were. After the first flush this holds already, or the
-- user is still marked dirty, so that a later batch finds it.
pub flush_once_converges :
    (config : StoreConfig) (u : ℕ) (users users' : List ℕ) (w : World) (b : BalanceHash)
    → AreApart users
    → AreApart users'
    → contains u users ≡ true
    → contains u users' ≡ true
    → lookup u w.redis.balances ≡ some b
    → let w₁ = (flush_once config quiet users w).1 in
      (IsSynced u b w₁ ⊎ (contains u w₁.redis.dirty ≡ true))
      × IsSynced u b (flush_once config quiet users' w₁).1
flush_once_converges config u users users' w b a a' h h' e =
    let w₁ = (flush_once config quiet users w).1 in
    let (row, shown) = flush_once-view config u users w b a h e in
    elim (flushed_once u b (lookup u w.table) (contains u w.redis.dirty)) [
      | inl (b', stored, v, money, at, same) ↦ (
        inl (Agrees-IsSynced u b w₁ (b', stored, shown ∙ v, money, row ∙ at, same)),
        flushed_twice config u users' w₁ b b' stored false a' h' (shown ∙ v) money (row ∙ at)
            (inl same),
      )
      | inr (b', stored, v, money, at, later) ↦ (
        inr (ap (λ x. x.1) (shown ∙ v)),
        flushed_twice config u users' w₁ b b' stored true a' h' (shown ∙ v) money (row ∙ at)
            (inr later),
      )
    ]
