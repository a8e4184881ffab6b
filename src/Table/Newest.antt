-- ===== src/Table/Newest.antt =====
-- What an upsert leaves in the table, user by user.
use generation_balance_servi.Base.{
  ℕ, ◌≡◌, refl, ◌∙◌, inl, inr, Bool-cases, ltb, ltb_ℤ, ◌==◌, if◌then◌else◌, Option, none, some,
  List, [], ◌∷◌, lookup, lookup-insert, arith,
}
use generation_balance_servi.Table.{
  Balance, Table, insert_by_user, sort_by_user, upsert, upsert_rows, upsert_many,
}

-- The row that a list gives to a user.
abbrev pub row_of : ℕ → List Balance → Option Balance
row_of u [] = none
row_of u (b ∷ rows) = if u == b.user_id then some b else row_of u rows

abbrev pub AreDistinct : List Balance → Type 0
AreDistinct [] = Unit
AreDistinct (b ∷ rows) = (row_of b.user_id rows ≡ none) × AreDistinct rows

-- The newer of a row to write and the row that is stored; the stored one if the versions are equal.
abbrev pub newest : Option Balance → Option Balance → Option Balance
newest none stored = stored
newest (some b) none = some b
newest (some b) (some stored) = if ltb_ℤ stored.version b.version then some b else some stored

row_of-insert_by_user :
    (u : ℕ) (b : Balance) (rows : List Balance)
    → row_of u (insert_by_user b rows) ≡ (if u == b.user_id then some b else row_of u rows)
row_of-insert_by_user u b [] = refl
row_of-insert_by_user u b (c ∷ rows) = ground (arith, row_of-insert_by_user u b rows)

pub row_of-sort_by_user :
    (u : ℕ) (rows : List Balance) → row_of u (sort_by_user rows) ≡ row_of u rows
row_of-sort_by_user u [] = refl
row_of-sort_by_user u (b ∷ rows) =
    row_of-insert_by_user u b (sort_by_user rows) ∙ rw (row_of-sort_by_user u rows) refl

insert_by_user-AreDistinct :
    (b : Balance) (rows : List Balance)
    → row_of b.user_id rows ≡ none
    → AreDistinct rows
    → AreDistinct (insert_by_user b rows)
insert_by_user-AreDistinct b [] h d = (refl, tt)
insert_by_user-AreDistinct b (c ∷ rows) h (f, d) = elim (Bool-cases (ltb c.user_id b.user_id)) [
  | inr before ↦ rw before (h, (f, d))
  | inl after ↦ rw after (
    ground (arith, row_of-insert_by_user c.user_id b rows),
    insert_by_user-AreDistinct b rows (ground arith) d,
  )
]

pub sort_by_user-AreDistinct :
    (rows : List Balance) → AreDistinct rows → AreDistinct (sort_by_user rows)
sort_by_user-AreDistinct [] d = tt
sort_by_user-AreDistinct (b ∷ rows) (f, d) =
    insert_by_user-AreDistinct b (sort_by_user rows) (row_of-sort_by_user b.user_id rows ∙ f)
      (sort_by_user-AreDistinct rows d)

pub lookup-upsert :
    (u : ℕ) (b : Balance) (t : Table)
    → lookup u (upsert b t).1 ≡ newest (if u == b.user_id then some b else none) (lookup u t)
lookup-upsert u b t = ground (arith, lookup-insert u b.user_id b t)

lookup-upsert_rows :
    (u : ℕ) (rows : List Balance) (t : Table)
    → AreDistinct rows
    → lookup u (upsert_rows rows t).1 ≡ newest (row_of u rows) (lookup u t)
lookup-upsert_rows u [] t d = refl
lookup-upsert_rows u (b ∷ rows) t (f, d) =
    lookup-upsert_rows u rows (upsert b t).1 d ∙ ground (arith, lookup-upsert u b t)

-- After an upsert of rows of distinct users, in whatever order they were given, every user's row
-- in the table is the newer of the written and the stored one, and the stored one if their
-- versions are equal.
pub lookup-upsert_many :
    (u : ℕ) (rows : List Balance) (t : Table)
    → AreDistinct rows
    → lookup u (upsert_many rows t).1 ≡ newest (row_of u rows) (lookup u t)
unfolding upsert_many
lookup-upsert_many u rows t d =
    lookup-upsert_rows u (sort_by_user rows) t (sort_by_user-AreDistinct rows d)
    ∙ rw (row_of-sort_by_user u rows) refl
