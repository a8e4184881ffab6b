-- ===== src/Billing/Promises.antt =====
-- What the services promise to their callers, whatever other processes do at each `await`.
use generation_balance_servi.Base.{
  ℕ, ap, [], arith, ◌≤◌, ◌≡◌, true, Option-cases, some, inl, inr, lookup,
}
use generation_balance_servi.Errors.{ok}
use generation_balance_servi.Money.{micros_to_money}
use generation_balance_servi.Policy.{GenerationRequest, BalanceTopUp}
use generation_balance_servi.TopUp.{validate}
use generation_balance_servi.Redis.{Redis, BalanceHash}
use generation_balance_servi.Redis.Generations.{Keeps}
use generation_balance_servi.Redis.Versions.{IsForward, Later, run-Later}
use generation_balance_servi.Store.{BalanceSnapshot, snapshot_from_hash}
use generation_balance_servi.Store.Methods
use generation_balance_servi.Store.Recognises.{IsFinished, HasMarker}
use generation_balance_servi.Machine.{Machine}
use generation_balance_servi.Machine.Rules.{is_failure, IsSchedule, Outcome, Met}
use generation_balance_servi.Billing.Configs.{Config}
use generation_balance_servi.Billing.Loader.{ensure_loaded}
use generation_balance_servi.Billing.Balances.{apply_top_up}
use generation_balance_servi.Billing.Generation.{Provider, execute_generation}
use generation_balance_servi.Billing.Settings.{
  Outcome-of-Goes, plain, following, Admits-Keeps, Admits-IsForward, Follows-following, Any,
  IsSchedule-Any, Admits-Any,
}
use generation_balance_servi.Billing.Loaded.{WasLoaded, ensure_loaded-Goes}
use generation_balance_servi.Billing.Attempts.{apply_top_up-Goes}
use generation_balance_servi.Billing.Executed.{IsAnswer, execute_generation-Goes}

-- A call of `execute_generation` ends: whatever other processes do, short of an expiry of the
-- request's record, and however the wire behaves, it returns or raises, provided that a poll takes a
-- millisecond at least. If it returns, the result is for the request, and the record is done. Either
-- it has the text of the provider's answer to an authorized request, with the bill brought between
-- zero and the total of the authorized plan and rounded down to whole micro-dollars; or the record
-- is of the same user, dialog and model, and the result has the text and the charge that it keeps,
-- except that it bills the authorized cost where the record keeps no charge or a charge of zero. If
-- it raises GenerationFailedError or is cancelled, the record is finished, so that no reservation is
-- left running.
pub execute_generation_ends :
    (config : Config) (provider : Provider) (request : GenerationRequest) (m : Machine)
    → 1 ≤ config.billing.running_poll_interval
    → IsSchedule (Keeps request.client_request_id) m.schedule
    → Outcome
        (λ res m'. IsAnswer provider request m.next_token res m'.world.redis)
        (λ e m'. is_failure e ≡ true → IsFinished request.client_request_id m'.world.redis)
        (execute_generation config provider request m)
execute_generation_ends config provider request m polls s =
    let id = request.client_request_id in
    Outcome-of-Goes (following id) m
      (λ res m'. IsAnswer provider request m.next_token res m'.world.redis)
      (λ res m'. IsAnswer provider request m.next_token res m'.world.redis)
      (λ e m'. is_failure e ≡ true → IsFinished id m'.world.redis)
      (execute_generation config provider request m)
      (execute_generation-Goes (following id) (Admits-Keeps id) config provider request
        (Follows-following id) polls m.next_token m s (omega arith))
      (λ res m' h q. q) (λ e m' o. o)

-- The snapshot has the version of the balance, its free requests, and its funds in dollars, field by
-- field.
abbrev pub IsSnapshotOf : BalanceSnapshot → BalanceHash → Type 0
IsSnapshotOf s b =
    (s.view.free_usd ≡ micros_to_money b.free_usd)
    × (s.view.bonus_usd ≡ micros_to_money b.bonus_usd)
    × (s.view.paid_usd ≡ micros_to_money b.paid_usd)
    × (s.view.free_requests ≡ b.free_requests)
    × (s.version ≡ b.version)

-- The snapshot is of a balance that the user had in a keyspace of the history, and that the user has
-- still or has left behind.
abbrev pub IsRecent : ℕ → BalanceSnapshot → Machine → Type 0
IsRecent u s m =
    (r : Redis) × (b : BalanceHash) × Met r m.history
    × (lookup u r.balances ≡ some b)
    × IsSnapshotOf s b
    × Later (some b) (lookup u m.world.redis.balances)

load-IsSnapshotOf :
    (u : ℕ) (s : BalanceSnapshot) (r : Redis)
    → some s ≡ Methods.load u r
    → (b : BalanceHash) × IsSnapshotOf s b × (lookup u r.balances ≡ some b)
unfolding Methods.load snapshot_from_hash
load-IsSnapshotOf u s r e = elim (Option-cases (lookup u r.balances)) [
  | inl m ↦ cc (rw m at e)
  | inr (b, m) ↦
      let is : s ≡ snapshot_from_hash b = cc (rw m at e) in
      (
        b,
        (
          ap (λ x. x.view.free_usd) is,
          ap (λ x. x.view.bonus_usd) is,
          ap (λ x. x.view.paid_usd) is,
          ap (λ x. x.view.free_requests) is,
          ap (λ x. x.version) is,
        ),
        m,
      )
]

WasLoaded-IsRecent :
    (u : ℕ) (s : BalanceSnapshot) (m : Machine) → WasLoaded IsForward u s m → IsRecent u s m
WasLoaded-IsRecent u s m (r, met, e, x) =
    let (b, is, at) = load-IsSnapshotOf u s r e in
    (r, b, met, at, is, rw x.ends (rw at at (run-Later x.calls r u x.all)))

-- A machine at the start of a call.
abbrev pub began : Machine → Machine
began m = record m { history = [] }

-- A call of `ensure_loaded` ends, whatever other processes do whose ADVANCE_VERSION go forward: it
-- returns or raises. What it returns is, field by field, a balance that the user had in Redis right
-- after one of the call's own commands, and at the end the user still has this balance or one of a
-- greater version.
pub ensure_loaded_ends :
    (config : Config) (u : ℕ) (m : Machine)
    → IsSchedule IsForward m.schedule
    → Outcome (IsRecent u) (λ e m'. Unit {0}) (ensure_loaded config u (began m))
ensure_loaded_ends config u m s =
    Outcome-of-Goes (plain IsForward) (began m) (WasLoaded IsForward u) (IsRecent u)
      (λ e m'. Unit {0}) (ensure_loaded config u (began m))
      (ensure_loaded-Goes (plain IsForward) Admits-IsForward config u (began m) s)
      (λ s m' h l. WasLoaded-IsRecent u s m' l) (λ e m' o. tt)

-- A call of `apply_top_up` ends, whatever other processes do and however the wire behaves: it
-- returns or raises. If it returns, the top-up passed its check, and the marker of its operation is
-- in Redis, by which TOP_UP recognises it.
pub apply_top_up_ends :
    (config : Config) (command : BalanceTopUp) (m : Machine)
    → Outcome
        (λ done m'. (validate command ≡ ok tt) × HasMarker command.operation_id m'.world.redis)
        (λ e m'. Unit {0})
        (apply_top_up config command m)
apply_top_up_ends config command m =
    let Post = λ (done : Unit {0}) (m' : Machine).
      (validate command ≡ ok tt) × HasMarker command.operation_id m'.world.redis in
    Outcome-of-Goes (plain Any) m Post Post (λ e m'. Unit {0}) (apply_top_up config command m)
      (apply_top_up-Goes (plain Any) Admits-Any config command m (IsSchedule-Any m.schedule))
      (λ done m' h q. q) (λ e m' o. tt)
