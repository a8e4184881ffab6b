-- ===== src/Flusher/Quiet.antt =====
-- A flush while nobody else is at work, as one user sees it.
use generation_balance_servi.Base.{
  ℕ, ◌≡◌, refl, ap, ◌∙◌, true, if◌then◌else◌, Option, some, List, [], ◌∷◌, Dict, lookup,
}
use generation_balance_servi.Errors.{Result}
use generation_balance_servi.Redis.{Redis, BalanceHash, contains}
use generation_balance_servi.Store.{StoreConfig, BalanceSnapshot, snapshot_from_hash}
use generation_balance_servi.Store.Methods.{load_many}
use generation_balance_servi.Table.{Balance, Table, upsert_many}
use generation_balance_servi.Table.Newest.{row_of, newest, lookup-upsert_many}
use generation_balance_servi.World.{World}
use generation_balance_servi.Flusher.{
  Waits, row_of_snapshot, rows_of, clear_flushed, write_back, flush_once,
}
use generation_balance_servi.Flusher.Flush.{AreApart, row_of-snapshot, rows_of-AreDistinct}
use generation_balance_servi.Flusher.Views.{
  View, view, repaired, repairs, calm, Leaves, repair_all-Leaves,
}
use generation_balance_servi.Flusher.Cleared.{
  is_newer, contains-upsert_many, lookup-load_many, cleaned, view-cleared,
}

-- Nobody else is at work, and the wire delivers.
abbrev pub quiet : Waits
quiet = record { before_load = []; before_write = []; repair = calm; before_clear = [] }

-- The row that the user's balance is flushed to.
abbrev pub row_of_hash : ℕ → BalanceHash → Balance
unfolding snapshot_from_hash
row_of_hash u b = row_of_snapshot u (snapshot_from_hash b)

-- What a flush shows of the user: the table's row, and the balance with its mark.
abbrev pub flushed_row : ℕ → BalanceHash → Option Balance → Option Balance
flushed_row u b stored = newest (some (row_of_hash u b)) stored

abbrev pub flushed_view : ℕ → BalanceHash → Option Balance → View → View
flushed_view u b stored v = cleaned b.version (
    if is_newer (some (row_of_hash u b)) stored
    then v
    else repaired (row_of_hash u b) (flushed_row u b stored) v)

clear_flushed-view :
    (u : ℕ) (users : List ℕ) (snapshots : Dict BalanceSnapshot) (written : List ℕ) (t : Table)
    (x : Result (Unit {0}) × Redis) (v : View) (s : BalanceSnapshot)
    → AreApart users
    → contains u users ≡ true
    → lookup u snapshots ≡ some s
    → Leaves u x v
    → let w = (clear_flushed quiet users snapshots written t x).1 in
      (w.table ≡ t) × (view u w.redis ≡ cleaned s.version v)
clear_flushed-view u users snapshots written t x v s a h m (r, e, is) =
    rw e (refl, view-cleared u users snapshots r s a h m ∙ ap (cleaned s.version) is)

write_back-view :
    (config : StoreConfig) (u : ℕ) (users : List ℕ) (w : World) (b : BalanceHash)
    → AreApart users
    → contains u users ≡ true
    → lookup u w.redis.balances ≡ some b
    → let w' = (write_back config quiet users (load_many users w.redis) w).1 in
      (lookup u w'.table ≡ flushed_row u b (lookup u w.table))
      × (view u w'.redis ≡ flushed_view u b (lookup u w.table) (view u w.redis))
unfolding snapshot_from_hash
write_back-view config u users w b a h e =
    let snapshots = load_many users w.redis in
    let rows = rows_of snapshots in
    let d = rows_of-AreDistinct users w.redis a in
    let (written, t) = upsert_many rows w.table in
    let m = lookup-load_many u users w.redis b h e in
    let own : row_of u rows ≡ some (row_of_hash u b) = row_of-snapshot u snapshots m in
    let row : lookup u t ≡ flushed_row u b (lookup u w.table) =
      lookup-upsert_many u rows w.table d ∙ ap (λ o. newest o (lookup u w.table)) own in
    let (table, shown) =
      clear_flushed-view u users snapshots written t _ _ (snapshot_from_hash b) a h m
        (repair_all-Leaves config u rows written t w.redis d) in
    let v = view u w.redis in
    let wrote : contains u written ≡ is_newer (some (row_of_hash u b)) (lookup u w.table) =
      contains-upsert_many u rows w.table d ∙ ap (λ o. is_newer o (lookup u w.table)) own in
    (
      ap (lookup u) table ∙ row,
      shown
          ∙ ap (λ o. cleaned b.version (repairs u o written t v)) own
          ∙ ap (λ x. cleaned b.version (if x then v else repaired (row_of_hash u b) (lookup u t) v))
              wrote
          ∙ ap
              (λ o. cleaned b.version (
                if is_newer (some (row_of_hash u b)) (lookup u w.table)
                then v
                else repaired (row_of_hash u b) o v))
              row,
    )

pub flush_once-view :
    (config : StoreConfig) (u : ℕ) (users : List ℕ) (w : World) (b : BalanceHash)
    → AreApart users
    → contains u users ≡ true
    → lookup u w.redis.balances ≡ some b
    → let w' = (flush_once config quiet users w).1 in
      (lookup u w'.table ≡ flushed_row u b (lookup u w.table))
      × (view u w'.redis ≡ flushed_view u b (lookup u w.table) (some b, contains u w.redis.dirty))
unfolding flush_once
flush_once-view config u [] w b a h e = cc
flush_once-view config u (k ∷ users) w b a h e =
    let (row, shown) = write_back-view config u (k ∷ users) w b a h e in
    (row, shown ∙ ap (λ o. flushed_view u b (lookup u w.table) (o, contains u w.redis.dirty)) e)
