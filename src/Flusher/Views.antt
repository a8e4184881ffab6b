-- ===== src/Flusher/Views.antt =====
-- What a flush does to one user while nobody else is at work.
use generation_balance_servi.Base.{
  ℕ, ◌≡◌, refl, ap, ◌∙◌, inl, inr, Bool, true, false, Bool-cases, ◌==◌, ◌==ℤ◌, if◌then◌else◌, ℤ,
  pos, ◌+ℤ◌, Option, none, some, Option-cases, List, [], ◌∷◌, lookup, lookup-insert, arith,
}
use generation_balance_servi.Errors.{Result, ok}
use generation_balance_servi.Redis
use generation_balance_servi.Redis.{Redis, BalanceHash, contains, contains-sadd, contains-srem}
use generation_balance_servi.Store.{Attempt, StoreConfig, retrying, retrying_from}
use generation_balance_servi.Store.Methods
use generation_balance_servi.Store.Methods.{load_many, clear_dirty}
use generation_balance_servi.Table.{Balance, Table, get_by_user_id}
use generation_balance_servi.Table.Newest.{row_of, AreDistinct}
use generation_balance_servi.Flusher.{same_state, repair_regressed, repair_all, proceed}

-- A user's balance, and whether it is marked dirty.
abbrev pub View : Type 0
View = Option BalanceHash × Bool

abbrev pub view : ℕ → Redis → View
view u r = (lookup u r.balances, contains u r.dirty)

abbrev pub advanced : ℤ → ℤ → View → View
advanced expected to (none, dirty) = (none, dirty)
advanced expected to (some b, dirty) =
    if b.version ==ℤ expected then (some (record b { version = to }), true) else (some b, dirty)

advance_version_other :
    (u k : ℕ) (expected to : ℤ) (r : Redis)
    → u == k ≡ false
    → view u (Redis.advance_version k expected to r).1 ≡ view u r
unfolding Redis.advance_version
advance_version_other u k expected to r apart = elim (Option-cases (lookup k r.balances)) [
  | inl m ↦ rw (m, Redis.advance_version) refl
  | inr (b, m) ↦ elim (Bool-cases (b.version ==ℤ expected)) [
    | inr moved ↦ rw (m, Redis.advance_version, moved) refl
    | inl now ↦
        rw
          (
            m,
            Redis.advance_version,
            now,
            lookup-insert u k (record b { version = to }) r.balances,
            contains-sadd u k r.dirty,
            apart,
          )
          refl
  ]
]

pub same_number : (u : ℕ) → u == u ≡ true
same_number u = ground arith

advance_version_self :
    (u : ℕ) (expected to : ℤ) (r : Redis)
    → view u (Redis.advance_version u expected to r).1 ≡ advanced expected to (view u r)
unfolding Redis.advance_version
advance_version_self u expected to r = elim (Option-cases (lookup u r.balances)) [
  | inl m ↦ rw (m, Redis.advance_version) (rw m refl)
  | inr (b, m) ↦ elim (Bool-cases (b.version ==ℤ expected)) [
    | inr moved ↦ rw (m, Redis.advance_version, moved) (rw m refl)
    | inl now ↦
        rw
          (
            m,
            Redis.advance_version,
            now,
            lookup-insert u u (record b { version = to }) r.balances,
            contains-sadd u u r.dirty,
            same_number u,
          )
          refl
  ]
]

abbrev pub repaired : Balance → Option Balance → View → View
repaired row none v = v
repaired row (some stored) v =
    if same_state stored row then v else advanced row.version (stored.version +ℤ pos 1) v

abbrev pub repairs : ℕ → Option Balance → List ℕ → Table → View → View
repairs u none written t v = v
repairs u (some row) written t v = if contains u written then v else repaired row (lookup u t) v

-- Nobody is at work while the calls wait, and the wire delivers.
abbrev pub calm : ℕ → List Attempt
calm k = []

-- The call succeeds, and leaves the user with the view.
abbrev pub Leaves : ℕ → Result (Unit {0}) × Redis → View → Type 0
Leaves u x v = (r : Redis) × (x ≡ (ok tt, r)) × (view u r ≡ v)

module _ (config : StoreConfig) (u : ℕ) where
  repair_regressed_self :
      (row : Balance) (stored : Option Balance) (r : Redis)
      → row.user_id ≡ u
      → Leaves u (repair_regressed config [] row stored r) (repaired row stored (view u r))
  unfolding repair_regressed Methods.advance_version retrying retrying_from
  repair_regressed_self row none r e = (r, refl, refl)
  repair_regressed_self row (some stored) r e = elim (Bool-cases (same_state stored row)) [
    | inl same ↦ rw same (r, refl, refl)
    | inr differ ↦ rw differ (
      (Redis.advance_version row.user_id row.version (stored.version +ℤ pos 1) r).1,
      refl,
      rw e (advance_version_self u row.version (stored.version +ℤ pos 1) r),
    )
  ]

  repair_regressed_other :
      (row : Balance) (stored : Option Balance) (r : Redis)
      → u == row.user_id ≡ false
      → Leaves u (repair_regressed config [] row stored r) (view u r)
  unfolding repair_regressed Methods.advance_version retrying retrying_from
  repair_regressed_other row none r e = (r, refl, refl)
  repair_regressed_other row (some stored) r e = elim (Bool-cases (same_state stored row)) [
    | inl same ↦ rw same (r, refl, refl)
    | inr differ ↦ rw differ (
      (Redis.advance_version row.user_id row.version (stored.version +ℤ pos 1) r).1,
      refl,
      advance_version_other u row.user_id row.version (stored.version +ℤ pos 1) r e,
    )
  ]

  proceed-Leaves :
      (x : Result (Unit {0}) × Redis) (rest : Redis → Result (Unit {0}) × Redis) (v w : View)
      → Leaves u x v
      → ((r : Redis) → view u r ≡ v → Leaves u (rest r) w)
      → Leaves u (proceed x rest) w
  proceed-Leaves x rest v w (r, e, is) h = rw e (h r is)

  Leaves-at :
      (x : Result (Unit {0}) × Redis) (f : View → View) (v w : View)
      → v ≡ w
      → Leaves u x (f v)
      → Leaves u x (f w)
  Leaves-at x f v w h (r, e, is) = (r, e, is ∙ ap f h)

  -- The turn of the loop at one row.
  abbrev turn : Balance → List ℕ → Table → Redis → Result (Unit {0}) × Redis
  turn row written t r =
      if contains row.user_id written
      then (ok tt, r)
      else repair_regressed config [] row (get_by_user_id row.user_id t) r

  turn_self :
      (row : Balance) (written : List ℕ) (t : Table) (r : Redis)
      → row.user_id ≡ u
      → Leaves u (turn row written t r) (repairs u (some row) written t (view u r))
  turn_self row written t r e = elim (Bool-cases (contains u written)) [
    | inl accepted ↦ rw (ap (λ k. contains k written) e, accepted) (r, refl, refl)
    | inr rejected ↦
        rw (ap (λ k. contains k written) e, rejected, ap (λ k. lookup k t) e)
          (repair_regressed_self row (lookup u t) r e)
  ]

  turn_other :
      (row : Balance) (written : List ℕ) (t : Table) (r : Redis)
      → u == row.user_id ≡ false
      → Leaves u (turn row written t r) (view u r)
  turn_other row written t r apart = elim (Bool-cases (contains row.user_id written)) [
    | inl accepted ↦ rw accepted (r, refl, refl)
    | inr rejected ↦ rw rejected (repair_regressed_other row (lookup row.user_id t) r apart)
  ]

  -- The repairs of distinct users change what they show of one user as the repair of its own row.
  pub repair_all-Leaves :
      (rows : List Balance) (written : List ℕ) (t : Table) (r : Redis)
      → AreDistinct rows
      → Leaves u
          (repair_all config calm rows written t r)
          (repairs u (row_of u rows) written t (view u r))
  unfolding repair_all
  repair_all-Leaves [] written t r d = (r, refl, refl)
  repair_all-Leaves (row ∷ rows) written t r (f, d) = elim (Bool-cases (u == row.user_id)) [
    | inl here ↦
        let same_user : row.user_id ≡ u = ground arith in
        rw here (
          proceed-Leaves (turn row written t r) (repair_all config calm rows written t)
            (repairs u (some row) written t (view u r)) _ (turn_self row written t r same_user)
            (λ r' e.
              Leaves-at _ (λ v. v) (view u r') _ e
                (rw (rw same_user at f) at (repair_all-Leaves rows written t r' d))))
    | inr apart ↦ rw apart (
        proceed-Leaves (turn row written t r) (repair_all config calm rows written t) (view u r) _
          (turn_other row written t r apart)
          (λ r' e.
            Leaves-at _ (repairs u (row_of u rows) written t) (view u r') (view u r) e
              (repair_all-Leaves rows written t r' d)))
  ]
