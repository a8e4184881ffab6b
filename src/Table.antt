-- ===== src/Table.antt =====
-- The table of balances in PostgreSQL and the repository over it:
-- backend/domain/entities/balance.py and backend/infra/database/psql/repos/balance.py. The column
-- `updated_at`, which nothing reads, is left out.
pub mod Newest
use generation_balance_servi.Base.{
  ℕ, Bool, true, false, ltb, ltb_ℤ, if◌then◌else◌, ℤ, Option, none, some, List, [], ◌∷◌, Dict,
  lookup, insert,
}
use generation_balance_servi.Money.{Decimal}

-- `Balance`
pub record Balance : Type 0 where
  pub user_id : ℕ
  pub free_usd : Decimal
  pub bonus_usd : Decimal
  pub paid_usd : Decimal
  pub free_requests : ℤ
  pub version : ℤ

abbrev pub Table : Type 0
Table = Dict Balance

abbrev pub get_by_user_id : ℕ → Table → Option Balance
get_by_user_id user_id t = lookup user_id t

-- `sorted(balances, key=lambda b: b.user_id)`, which keeps the order of equal keys.
abbrev pub insert_by_user : Balance → List Balance → List Balance
insert_by_user b [] = b ∷ []
insert_by_user b (c ∷ sorted) =
    if ltb c.user_id b.user_id then c ∷ insert_by_user b sorted else b ∷ c ∷ sorted

abbrev pub sort_by_user : List Balance → List Balance
sort_by_user [] = []
sort_by_user (b ∷ balances) = insert_by_user b (sort_by_user balances)

-- One row of the statement: whether it is returned, and the table.
abbrev pub upsert : Balance → Table → Bool × Table
upsert b t = elim (lookup b.user_id t) [
  | none ↦ (true, insert b.user_id b t)
  | some stored ↦
      if ltb_ℤ stored.version b.version then (true, insert b.user_id b t) else (false, t)
]

abbrev pub upsert_rows : List Balance → Table → List ℕ × Table
upsert_rows [] t = ([], t)
upsert_rows (b ∷ rows) t =
    let (written, t') = upsert b t in
    let (ids, t'') = upsert_rows rows t' in (if written then b.user_id ∷ ids else ids, t'')

-- `upsert_many`, for rows of distinct users.
unfoldable pub upsert_many : List Balance → Table → List ℕ × Table
upsert_many balances t = upsert_rows (sort_by_user balances) t
