-- ===== src/Flusher/Cleared.antt =====
-- What a flush writes and clears for one user while nobody else is at work.
use generation_balance_servi.Base.{
  ℕ, ◌≡◌, refl, ap, ◌∙◌, inl, inr, Bool, true, false, Bool-cases, ◌==◌, ◌==ℤ◌, ltb_ℤ, if◌then◌else◌,
  ℤ, Option, none, some, Option-cases, List, [], ◌∷◌, Dict, lookup, negsuc, arith,
}
use generation_balance_servi.Redis
use generation_balance_servi.Redis.{Redis, BalanceHash, contains, contains-sadd, contains-srem}
use generation_balance_servi.Store.{BalanceSnapshot, snapshot_from_hash}
use generation_balance_servi.Store.Methods.{load_many, clear_dirty}
use generation_balance_servi.Table.{Balance, Table, upsert, upsert_rows, upsert_many, sort_by_user}
use generation_balance_servi.Table.Newest.{
  row_of, AreDistinct, lookup-upsert, row_of-sort_by_user, sort_by_user-AreDistinct,
}
use generation_balance_servi.Flusher.{flushed_versions}
use generation_balance_servi.Flusher.Flush.{AreApart}
use generation_balance_servi.Flusher.Views.{View, view, same_number}

-- Whether an upsert writes the row of a user over the stored one.
abbrev pub is_newer : Option Balance → Option Balance → Bool
is_newer none stored = false
is_newer (some b) none = true
is_newer (some b) (some stored) = ltb_ℤ stored.version b.version

contains-upsert_rows :
    (u : ℕ) (rows : List Balance) (t : Table)
    → AreDistinct rows
    → contains u (upsert_rows rows t).0 ≡ is_newer (row_of u rows) (lookup u t)
contains-upsert_rows u [] t d = refl
contains-upsert_rows u (b ∷ rows) t (f, d) =
    ground (arith, contains-upsert_rows u rows (upsert b t).1 d, lookup-upsert u b t)

pub contains-upsert_many :
    (u : ℕ) (rows : List Balance) (t : Table)
    → AreDistinct rows
    → contains u (upsert_many rows t).0 ≡ is_newer (row_of u rows) (lookup u t)
unfolding upsert_many
contains-upsert_many u rows t d =
    contains-upsert_rows u (sort_by_user rows) t (sort_by_user-AreDistinct rows d)
    ∙ rw (row_of-sort_by_user u rows) refl

pub lookup-load_many :
    (u : ℕ) (users : List ℕ) (r : Redis) (b : BalanceHash)
    → contains u users ≡ true
    → lookup u r.balances ≡ some b
    → lookup u (load_many users r) ≡ some (snapshot_from_hash b)
unfolding load_many
lookup-load_many u [] r b h e = cc
lookup-load_many u (k ∷ users) r b h e = elim (Option-cases (lookup k r.balances)) [
  | inl m ↦ ground (arith, lookup-load_many u users r b)
  | inr (b', m) ↦ ground (arith, lookup-load_many u users r b)
]

-- What CLEAR_DIRTY shows of the user.
abbrev pub cleaned : ℤ → View → View
cleaned version (none, dirty) = (none, false)
cleaned version (some b, dirty) = (some b, if b.version ==ℤ version then false else dirty)

clear_dirty_self :
    (u : ℕ) (version : ℤ) (r : Redis)
    → view u (Redis.clear_dirty u version r).1 ≡ cleaned version (view u r)
unfolding Redis.clear_dirty
clear_dirty_self u version r = elim (Option-cases (lookup u r.balances)) [
  | inl m ↦ rw (m, Redis.clear_dirty, contains-srem u u r.dirty) (rw (m, same_number u) refl)
  | inr (b, m) ↦ elim (Bool-cases (b.version ==ℤ version)) [
    | inl now ↦
        rw (m, Redis.clear_dirty, now, contains-srem u u r.dirty) (rw (m, same_number u) refl)
    | inr moved ↦ rw (m, Redis.clear_dirty, moved) (rw m refl)
  ]
]

clear_dirty_other :
    (u k : ℕ) (version : ℤ) (r : Redis)
    → u == k ≡ false
    → view u (Redis.clear_dirty k version r).1 ≡ view u r
unfolding Redis.clear_dirty
clear_dirty_other u k version r apart = elim (Option-cases (lookup k r.balances)) [
  | inl m ↦ rw (m, Redis.clear_dirty, contains-srem u k r.dirty, apart) refl
  | inr (b, m) ↦ elim (Bool-cases (b.version ==ℤ version)) [
    | inl now ↦ rw (m, Redis.clear_dirty, now, contains-srem u k r.dirty, apart) refl
    | inr moved ↦ rw (m, Redis.clear_dirty, moved) refl
  ]
]

view-cleared_absent :
    (u : ℕ) (users : List ℕ) (snapshots : Dict BalanceSnapshot) (r : Redis)
    → contains u users ≡ false
    → view u (clear_dirty (flushed_versions users snapshots) r) ≡ view u r
unfolding clear_dirty
view-cleared_absent u [] snapshots r h = refl
view-cleared_absent u (k ∷ users) snapshots r h =
    let apart : u == k ≡ false = ground arith in
    let rest : contains u users ≡ false = ground arith in
    elim (Option-cases (lookup k snapshots)) [
      | inl m ↦
          rw (m, flushed_versions)
            (view-cleared_absent u users snapshots (Redis.clear_dirty k (negsuc 0) r).1 rest
              ∙ clear_dirty_other u k (negsuc 0) r apart)
      | inr (s, m) ↦
          rw (m, flushed_versions)
            (view-cleared_absent u users snapshots (Redis.clear_dirty k s.version r).1 rest
              ∙ clear_dirty_other u k s.version r apart)
    ]

-- The users of a batch are cleared each at its own version.
pub view-cleared :
    (u : ℕ) (users : List ℕ) (snapshots : Dict BalanceSnapshot) (r : Redis) (s : BalanceSnapshot)
    → AreApart users
    → contains u users ≡ true
    → lookup u snapshots ≡ some s
    → view u (clear_dirty (flushed_versions users snapshots) r) ≡ cleaned s.version (view u r)
unfolding clear_dirty
view-cleared u [] snapshots r s a h m = cc
view-cleared u (k ∷ users) snapshots r s (f, a) h m = elim (Bool-cases (u == k)) [
  | inl here ↦
      let same_user : k ≡ u = ground arith in
      rw (ap (λ x. lookup x snapshots) same_user ∙ m, flushed_versions)
        (view-cleared_absent u users snapshots (Redis.clear_dirty k s.version r).1
            (rw same_user at f)
          ∙ rw same_user (clear_dirty_self u s.version r))
  | inr apart ↦
      let rest : contains u users ≡ true = ground arith in
      elim (Option-cases (lookup k snapshots)) [
        | inl n ↦
            rw (n, flushed_versions)
              (view-cleared u users snapshots (Redis.clear_dirty k (negsuc 0) r).1 s a rest m
                ∙ ap (cleaned s.version) (clear_dirty_other u k (negsuc 0) r apart))
        | inr (s', n) ↦
            rw (n, flushed_versions)
              (view-cleared u users snapshots (Redis.clear_dirty k s'.version r).1 s a rest m
                ∙ ap (cleaned s.version) (clear_dirty_other u k s'.version r apart))
      ]
]
