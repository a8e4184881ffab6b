-- ===== src/Flusher/Repair.antt =====
-- Repairs keep a world flushed.
use generation_balance_servi.Base.{
  ℕ, ◌+◌, ◌≡◌, refl, inl, inr, Bool, true, false, Bool-cases, leb, if◌then◌else◌, ℤ, pos, ◌+ℤ◌,
  Option, none, some, List, [], ◌∷◌, lookup,
}
use generation_balance_servi.Errors.{Result, ok, raise}
use generation_balance_servi.Redis
use generation_balance_servi.Redis.{Redis, Call, exec, run, contains, BalanceHash}
use generation_balance_servi.Redis.Versions.{All}
use generation_balance_servi.Store.{
  StoreConfig, Fault, delivered, request_lost, reply_lost, Attempt, retrying, retrying_from,
  after_fault,
}
use generation_balance_servi.Store.Methods.{advance_version}
use generation_balance_servi.Table.{Balance, Table}
use generation_balance_servi.Flusher.{repair_regressed, repair_all, same_state, finished, proceed}
use generation_balance_servi.Flusher.Dirty.{IsFlushed, Admitted, exec-IsFlushed}

finished-redis : (x : Result Bool × Redis) → (finished x).1 ≡ x.1
finished-redis (ok b, r) = refl
finished-redis (raise e, r) = refl

module _ {ℓ} {A : Type ℓ} (u : ℕ) (t : Table) (script : Redis → A × Redis)
    (keeps : (r : Redis) → IsFlushed u t r → IsFlushed u t (script r).1) where
  run-IsFlushed :
      (calls : List Call) (r : Redis)
      → All (Admitted u t) calls
      → IsFlushed u t r
      → IsFlushed u t (run calls r)
  unfolding run
  run-IsFlushed [] r a flushed = flushed
  run-IsFlushed (c ∷ calls) r (a, rest) flushed =
      run-IsFlushed calls (exec c r) rest (exec-IsFlushed u t c r a flushed)

  after_fault-IsFlushed :
      (f : Fault) (last : Bool) (start : Redis) (again : Redis → Result A × Redis)
      → ((r : Redis) → IsFlushed u t r → IsFlushed u t (again r).1)
      → IsFlushed u t start
      → IsFlushed u t (after_fault f last start (script start) again).1
  after_fault-IsFlushed delivered last start again ih flushed = keeps start flushed
  after_fault-IsFlushed request_lost true start again ih flushed = flushed
  after_fault-IsFlushed request_lost false start again ih flushed = ih start flushed
  after_fault-IsFlushed reply_lost true start again ih flushed = keeps start flushed
  after_fault-IsFlushed reply_lost false start again ih flushed = ih _ (keeps start flushed)

  retrying_from-IsFlushed :
      (limit attempt : ℕ) (wire : List Attempt) (r : Redis)
      → All (λ (w : Attempt). All (Admitted u t) w.before) wire
      → IsFlushed u t r
      → IsFlushed u t (retrying_from limit attempt wire script r).1
  unfolding retrying_from
  retrying_from-IsFlushed limit attempt [] r a flushed = keeps r flushed
  retrying_from-IsFlushed limit attempt (w ∷ wire) r (a, rest) flushed =
      after_fault-IsFlushed w.fault (leb limit attempt) (run w.before r)
        (λ s. retrying_from limit (attempt + 1) wire script s)
        (λ s f. retrying_from-IsFlushed limit (attempt + 1) wire s rest f)
        (run-IsFlushed w.before r a flushed)

module _ (config : StoreConfig) (u : ℕ) (t : Table) where
  advance_version-IsFlushed :
      (wire : List Attempt) (k : ℕ) (expected to : ℤ) (r : Redis)
      → All (λ (w : Attempt). All (Admitted u t) w.before) wire
      → IsFlushed u t r
      → IsFlushed u t (advance_version config wire k expected to r).1
  unfolding advance_version retrying exec
  advance_version-IsFlushed wire k expected to r a flushed =
      retrying_from-IsFlushed u t (Redis.advance_version k expected to)
        (λ s f. exec-IsFlushed u t (Call.advance_version k expected to) s tt f)
        config.retry_attempts 1 wire r a flushed

  repair_regressed-IsFlushed :
      (wire : List Attempt) (row : Balance) (stored : Option Balance) (r : Redis)
      → All (λ (w : Attempt). All (Admitted u t) w.before) wire
      → IsFlushed u t r
      → IsFlushed u t (repair_regressed config wire row stored r).1
  unfolding repair_regressed
  repair_regressed-IsFlushed wire row none r a flushed = flushed
  repair_regressed-IsFlushed wire row (some stored) r a flushed =
      elim (Bool-cases (same_state stored row)) [
        | inl same ↦ rw same flushed
        | inr differ ↦ rw differ (
            rw
              (finished-redis
                (advance_version config wire row.user_id row.version (stored.version +ℤ pos 1) r))
              (advance_version-IsFlushed wire row.user_id row.version (stored.version +ℤ pos 1) r a
                flushed))
      ]

  proceed-IsFlushed :
      (x : Result (Unit {0}) × Redis) (rest : Redis → Result (Unit {0}) × Redis)
      → IsFlushed u t x.1
      → ((r : Redis) → IsFlushed u t r → IsFlushed u t (rest r).1)
      → IsFlushed u t (proceed x rest).1
  proceed-IsFlushed (ok _, r) rest f h = h r f
  proceed-IsFlushed (raise e, r) rest f h = f

  pub repair_all-IsFlushed :
      (wires : ℕ → List Attempt) (rows : List Balance) (written : List ℕ) (r : Redis)
      → ((k : ℕ) → All (λ (w : Attempt). All (Admitted u t) w.before) (wires k))
      → IsFlushed u t r
      → IsFlushed u t (repair_all config wires rows written t r).1
  unfolding repair_all
  repair_all-IsFlushed wires [] written r a flushed = flushed
  repair_all-IsFlushed wires (row ∷ rows) written r a flushed =
      proceed-IsFlushed
        (if contains row.user_id written
          then (ok tt, r)
          else repair_regressed config (wires row.user_id) row (lookup row.user_id t) r)
        (repair_all config wires rows written t)
        (elim (Bool-cases (contains row.user_id written)) [
          | inl accepted ↦ rw accepted flushed
          | inr rejected ↦
              rw rejected (repair_regressed-IsFlushed (wires row.user_id) row _ r (a _) flushed)
        ])
        (λ s f. repair_all-IsFlushed wires rows written s a f)
