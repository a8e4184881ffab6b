-- ===== src/Flusher/Reached.antt =====
-- The steps of other processes around a flush, and a table that only grows.
use generation_balance_servi.Base.{
  ℕ, ◌≡◌, refl, sym, ◌∙◌, ◌⊎◌, inl, inr, Bool-cases, ltb_ℤ, ℤ, ◌≤ℤ◌, Option, none, some,
  Option-cases, List, [], ◌∷◌, ◌++◌, lookup, arith, int_laws,
}
use generation_balance_servi.Redis.{Redis, Call}
use generation_balance_servi.Table.{Balance, Table, upsert_many}
use generation_balance_servi.Table.Newest.{row_of, AreDistinct, newest, lookup-upsert_many}
use generation_balance_servi.World.{World, Event, command, write, happen, happen_all}
use generation_balance_servi.Flusher.Dirty.{HasReached, IsFlushed, Admitted, exec-IsFlushed}

-- The second table has reached whatever the first has.
abbrev pub AtLeast : ℕ → Table → Table → Type 0
AtLeast u t t' = (v : ℤ) → HasReached u v t → HasReached u v t'

-- Steps of other processes from a table that they met: their commands are admitted by the table
-- that the writes before them left, and a write has one row for a user.
abbrev pub AreAdmitted : ℕ → Table → List Event → Type 0
AreAdmitted u t [] = Unit
AreAdmitted u t (command c ∷ events) = Admitted u t c × AreAdmitted u t events
AreAdmitted u t (write rows ∷ events) =
    AreDistinct rows × AreAdmitted u (upsert_many rows t).1 events

-- The table that the writes leave.
abbrev pub after : Table → List Event → Table
after t [] = t
after t (command c ∷ events) = after t events
after t (write rows ∷ events) = after (upsert_many rows t).1 events

pub AreAdmitted-append :
    (u : ℕ) (t : Table) (xs ys : List Event)
    → AreAdmitted u t (xs ++ ys)
    → AreAdmitted u t xs × AreAdmitted u (after t xs) ys
AreAdmitted-append u t [] ys h = (tt, h)
AreAdmitted-append u t (command c ∷ xs) ys (a, h) =
    let (l, r) = AreAdmitted-append u t xs ys h in ((a, l), r)
AreAdmitted-append u t (write rows ∷ xs) ys (d, h) =
    let (l, r) = AreAdmitted-append u (upsert_many rows t).1 xs ys h in ((d, l), r)

newest_stored :
    (o : Option Balance) (stored : Balance)
    → (row : Balance) × (newest o (some stored) ≡ some row) × (stored.version ≤ℤ row.version)
newest_stored none stored = (stored, refl, omega int_laws)
newest_stored (some b) stored = elim (Bool-cases (ltb_ℤ stored.version b.version)) [
  | inl h ↦ (b, rw h refl, ground arith)
  | inr h ↦ (stored, rw h refl, omega int_laws)
]

newest_written :
    (b : Balance) (o : Option Balance)
    → (row : Balance) × (newest (some b) o ≡ some row) × (b.version ≤ℤ row.version)
newest_written b none = (b, refl, omega int_laws)
newest_written b (some stored) = elim (Bool-cases (ltb_ℤ stored.version b.version)) [
  | inl h ↦ (b, rw h refl, omega int_laws)
  | inr h ↦ (stored, rw h refl, ground arith)
]

le_trans : (x y z : ℤ) → x ≤ℤ y → y ≤ℤ z → x ≤ℤ z
le_trans x y z h k = omega int_laws

pub upsert_many-AtLeast :
    (u : ℕ) (rows : List Balance) (t : Table)
    → AreDistinct rows
    → AtLeast u t (upsert_many rows t).1
upsert_many-AtLeast u rows t d v (stored, e, h) =
    let (row, f, le) = newest_stored (row_of u rows) stored in
    (row, lookup-upsert_many u rows t d ∙ rw e f, le_trans v stored.version row.version h le)

pub upsert_many-reaches :
    (u : ℕ) (rows : List Balance) (t : Table) (b : Balance)
    → AreDistinct rows
    → row_of u rows ≡ some b
    → HasReached u b.version (upsert_many rows t).1
upsert_many-reaches u rows t b d e =
    let (row, f, le) = newest_written b (lookup u t) in
    (row, lookup-upsert_many u rows t d ∙ rw e f, le)

newest_cases :
    (b : Balance) (o : Option Balance) {row : Balance}
    → newest (some b) o ≡ some row
    → (row ≡ b) ⊎ (o ≡ some row)
newest_cases b none e = inl cc
newest_cases b (some stored) e = elim (Bool-cases (ltb_ℤ stored.version b.version)) [
  | inl h ↦ inl (ground arith)
  | inr h ↦ inr (ground arith)
]

pub same_writes :
    (u : ℕ) (rows : List Balance) (t t' : Table)
    → AreDistinct rows
    → AtLeast u t t'
    → AtLeast u (upsert_many rows t).1 (upsert_many rows t').1
same_writes u rows t t' d le v (row, e, h) = elim (Option-cases (row_of u rows)) [
  | inl m ↦
      upsert_many-AtLeast u rows t' d v
        (le v (row, rw m at (sym (lookup-upsert_many u rows t d) ∙ e), h))
  | inr (b, m) ↦
      let found : newest (some b) (lookup u t) ≡ some row =
        rw m at (sym (lookup-upsert_many u rows t d) ∙ e) in
      elim (newest_cases b (lookup u t) found) [
        | inl is_b ↦
            let (row', f, le') = upsert_many-reaches u rows t' b d m in
            (row', f, le_trans v b.version row'.version (rw is_b at h) le')
        | inr stored ↦ upsert_many-AtLeast u rows t' d v (le v (row, stored, h))
      ]
]

pub Admitted-AtLeast :
    (u : ℕ) (t t' : Table) (c : Call) → AtLeast u t t' → Admitted u t c → Admitted u t' c
Admitted-AtLeast u t t' (Call.seed_if_absent k b) le h = λ e p. le _ (h e p)
Admitted-AtLeast u t t' (Call.clear_dirty k v) le h = λ e p. le _ (h e p)
Admitted-AtLeast u t t' (Call.reserve a) le h = tt
Admitted-AtLeast u t t' (Call.settle a) le h = tt
Admitted-AtLeast u t t' (Call.refund a) le h = tt
Admitted-AtLeast u t t' (Call.top_up a) le h = tt
Admitted-AtLeast u t t' (Call.advance_version k expected to) le h = tt
Admitted-AtLeast u t t' (Call.acquire_load_lock k token ttl) le h = tt
Admitted-AtLeast u t t' (Call.release_load_lock k token) le h = tt
Admitted-AtLeast u t t' (Call.forget_inflight id) le h = tt
Admitted-AtLeast u t t' (Call.expire_generation id) le h = tt
Admitted-AtLeast u t t' (Call.expire_top_up id) le h = tt
Admitted-AtLeast u t t' (Call.expire_load_lock k) le h = tt

pub IsFlushed-AtLeast :
    (u : ℕ) (t t' : Table) (r : Redis) → AtLeast u t t' → IsFlushed u t r → IsFlushed u t' r
IsFlushed-AtLeast u t t' r le flushed b at clean positive = le _ (flushed b at clean positive)

-- Along admitted steps a world stays flushed, and its table grows.
pub happen_all-IsFlushed :
    (u : ℕ) (t : Table) (events : List Event) (w : World)
    → AreAdmitted u t events
    → AtLeast u t w.table
    → IsFlushed u w.table w.redis
    → let w' = happen_all events w in
      IsFlushed u w'.table w'.redis
      × AtLeast u (after t events) w'.table
      × AtLeast u w.table w'.table
happen_all-IsFlushed u t [] w a le flushed = (flushed, le, λ v h. h)
happen_all-IsFlushed u t (command c ∷ events) w (a, rest) le flushed =
    happen_all-IsFlushed u t events (happen (command c) w) rest le
      (exec-IsFlushed u w.table c w.redis (Admitted-AtLeast u t w.table c le a) flushed)
happen_all-IsFlushed u t (write rows ∷ events) w (d, rest) le flushed =
    let grown = upsert_many-AtLeast u rows w.table d in
    let (f, l, g) =
      happen_all-IsFlushed u (upsert_many rows t).1 events (happen (write rows) w) rest
        (same_writes u rows t w.table d le)
        (IsFlushed-AtLeast u w.table (upsert_many rows w.table).1 w.redis grown flushed) in
    (f, l, λ v h. g v (grown v h))
