-- ===== src/Billing/Credited.antt =====
-- A top-up credits its user once, however often its command lands.
use generation_balance_servi.Base.{ℕ, ◌+◌, ◌≤◌, ◌≡◌, refl, arith}
use generation_balance_servi.Errors.{ok}
use generation_balance_servi.Policy.{BalanceTopUp}
use generation_balance_servi.TopUp.{validate}
use generation_balance_servi.Redis.{Redis}
use generation_balance_servi.Redis.Traces.{Ran}
use generation_balance_servi.Redis.Credits.{KeepsMarker, credited, marked, run-marked}
use generation_balance_servi.Store.Recognises.{HasMarker}
use generation_balance_servi.Machine.{Machine, Reply, returned, raised, waiting}
use generation_balance_servi.Machine.Rules.{IsSchedule, Outcome, Goes}
use generation_balance_servi.Billing.Configs.{Config}
use generation_balance_servi.Billing.Balances.{apply_top_up}
use generation_balance_servi.Billing.Settings.{plain, Admits-KeepsMarker}
use generation_balance_servi.Billing.Attempts.{apply_top_up-Goes}

-- By commands that keep the operation's marker the first keyspace becomes the second, and the
-- operation's credits among them, with its marker at the start, are so many.
abbrev pub Credited : ℕ → (ℕ → Type 0) → Redis → Redis → Type 0
Credited id P r r' = (x : Ran (KeepsMarker id) r r') × P (marked id r + credited id x.calls r)

Ran-marked :
    (id : ℕ) (r r' : Redis) (x : Ran (KeepsMarker id) r r')
    → marked id r' ≡ marked id r + credited id x.calls r
Ran-marked id r r' x = rw x.ends (run-marked id x.calls r x.all)

HasMarker-marked : (id : ℕ) (r : Redis) → HasMarker id r → marked id r ≡ 1
HasMarker-marked id r (t, e) = rw e refl

marked_bound : (id : ℕ) (r : Redis) → marked id r ≤ 1
marked_bound id r = ground arith

apply_top_up-Credited :
    (command : BalanceTopUp) (m : Machine) (x : Reply (Unit {0}) × Machine)
    → let id = command.operation_id in
      Goes
        (plain (KeepsMarker id))
        m
        (λ done m'. (validate command ≡ ok tt) × HasMarker id m'.world.redis)
        x
      → Outcome
          (λ done m'. Credited id (λ n. n ≡ 1) m.world.redis m'.world.redis)
          (λ e m'. Credited id (λ n. n ≤ 1) m.world.redis m'.world.redis)
          x
apply_top_up-Credited command m (returned done, m') (h, (valid, marker)) =
    let id = command.operation_id in
    (
      h.ran,
      cc (
        Ran-marked id m.world.redis m'.world.redis h.ran,
        HasMarker-marked id m'.world.redis marker,
      ),
    )
apply_top_up-Credited command m (raised e, m') (h, o) =
    let id = command.operation_id in
    (
      h.ran,
      omega
          (arith, Ran-marked id m.world.redis m'.world.redis h.ran, marked_bound id m'.world.redis),
    )
apply_top_up-Credited command m (waiting, m') h = h

-- A call of `apply_top_up` credits once: whatever other processes do, short of an expiry of the
-- operation's marker, and however the wire behaves, it returns or raises, and Redis has gone through
-- commands among which, if the operation was not marked at the start, exactly one TOP_UP of the
-- operation credited a balance when the call returns, and at most one when it raises. If the
-- operation was marked at the start, none did.
pub apply_top_up_once :
    (config : Config) (command : BalanceTopUp) (m : Machine)
    → IsSchedule (KeepsMarker command.operation_id) m.schedule
    → Outcome
        (λ done m'. Credited command.operation_id (λ n. n ≡ 1) m.world.redis m'.world.redis)
        (λ e m'. Credited command.operation_id (λ n. n ≤ 1) m.world.redis m'.world.redis)
        (apply_top_up config command m)
apply_top_up_once config command m s =
    let id = command.operation_id in
    apply_top_up-Credited command m (apply_top_up config command m)
      (apply_top_up-Goes (plain (KeepsMarker id)) (Admits-KeepsMarker id) config command m s)
