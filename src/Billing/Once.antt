-- ===== src/Billing/Once.antt =====
-- A generation is reserved once and charged or refunded once.
use generation_balance_servi.Base.{ℕ, ◌+◌, ◌≤◌, ◌≡◌, refl, true, false, Bool, inl, inr, arith}
use generation_balance_servi.Policy.{GenerationRequest, GenerationResult}
use generation_balance_servi.Redis.{Redis}
use generation_balance_servi.Redis.Generations.{Keeps}
use generation_balance_servi.Redis.Traces.{Ran}
use generation_balance_servi.Redis.Closings.{
  recorded, finished, opened, closed, run-tally, closes_once, finished_counts,
}
use generation_balance_servi.Store.Recognises.{IsFinished}
use generation_balance_servi.Machine.{Machine, Reply, returned, raised, waiting}
use generation_balance_servi.Machine.Rules.{is_failure, IsSchedule, Outcome, Goes}
use generation_balance_servi.Billing.Configs.{Config}
use generation_balance_servi.Billing.Generation.{Provider, execute_generation}
use generation_balance_servi.Billing.Executed.{IsAnswer, execute_generation-Goes}
use generation_balance_servi.Billing.Settings.{following, Admits-Keeps, Follows-following}

-- By commands that keep the generation's record the first keyspace becomes the second, and the
-- generation's RESERVEs that reply OK among them, with its record at the start, are so many, and so
-- are its SETTLEs and REFUNDs that reply OK, with a finished record at the start.
abbrev pub Tallied : ℕ → (ℕ → ℕ → Type 0) → Redis → Redis → Type 0
Tallied id P r r' =
    (x : Ran (Keeps id) r r') × P (recorded id r + opened id x.calls r)
      (finished id r + closed id x.calls r)

-- Reserved once and ended once; and at most once, and not ended without being reserved.
abbrev pub ExactlyOnce : ℕ → ℕ → Type 0
ExactlyOnce reserved ended = (reserved ≡ 1) × (ended ≡ 1)

abbrev pub AtMostOnce : ℕ → ℕ → Type 0
AtMostOnce reserved ended = (reserved ≤ 1) × (ended ≤ reserved)

abbrev pub EndedBy : Bool → ℕ → ℕ → Type 0
EndedBy true reserved ended = ExactlyOnce reserved ended
EndedBy false reserved ended = AtMostOnce reserved ended

module _ (id : ℕ) (r r' : Redis) (x : Ran (Keeps id) r r') where
  Ran-ExactlyOnce :
      IsFinished id r'
      → ExactlyOnce (recorded id r + opened id x.calls r) (finished id r + closed id x.calls r)
  Ran-ExactlyOnce (g, e, n) =
      let (o, f) = run-tally id x.calls r x.all in
      let (one, ended) = finished_counts id r' g e n in (cc (x.ends, o, one), cc (x.ends, f, ended))

  Ran-EndedBy :
      (failure : Bool)
      → (failure ≡ true → IsFinished id r')
      → EndedBy failure (recorded id r + opened id x.calls r) (finished id r + closed id x.calls r)
  Ran-EndedBy true h = Ran-ExactlyOnce (h refl)
  Ran-EndedBy false h = closes_once id x.calls r x.all

answer-IsFinished :
    (provider : Provider) (request : GenerationRequest) (start : ℕ) (res : GenerationResult)
    (r : Redis)
    → IsAnswer provider request start res r
    → IsFinished request.client_request_id r
answer-IsFinished provider request start res r
      (e, inl (s, auth, result, by, from, content, bill, (g, at, done), own)) =
    (g, at, λ p. cc)
answer-IsFinished provider request start res r (e, inr (h, at, answers)) =
    (h, at, λ p. cc (p, answers.done))

-- A call of `execute_generation` ends: whatever other processes do, short of an expiry of the
-- request's record, and however the wire behaves, it returns or raises, provided that a poll takes a
-- millisecond at least. Redis has gone through commands among which, when the call returns, raises
-- GenerationFailedError or is cancelled, exactly one RESERVE of the request replied OK, and exactly
-- one SETTLE or REFUND, counting a record and its end that were there at the start. When it raises
-- another error, there was at most one of each, and no end without a reservation.
pub execute_generation_once :
    (config : Config) (provider : Provider) (request : GenerationRequest) (m : Machine)
    → 1 ≤ config.billing.running_poll_interval
    → IsSchedule (Keeps request.client_request_id) m.schedule
    → Outcome
        (λ res m'. Tallied request.client_request_id ExactlyOnce m.world.redis m'.world.redis)
        (λ e m'.
          Tallied request.client_request_id (EndedBy (is_failure e)) m.world.redis m'.world.redis)
        (execute_generation config provider request m)
execute_generation_once config provider request m polls s =
    let id = request.client_request_id in
    tallied (execute_generation config provider request m) (
      execute_generation-Goes (following id) (Admits-Keeps id) config provider request
        (Follows-following id) polls m.next_token m s (omega arith))
  where
    tallied :
        (x : Reply GenerationResult × Machine)
        → Goes
            (following request.client_request_id)
            m
            (λ res m'. IsAnswer provider request m.next_token res m'.world.redis)
            x
        → Outcome
            (λ res m'. Tallied request.client_request_id ExactlyOnce m.world.redis m'.world.redis)
            (λ e m'.
              Tallied request.client_request_id
                (EndedBy (is_failure e))
                m.world.redis
                m'.world.redis)
            x
    tallied (returned res, m') (h, q) = (
      h.ran,
      Ran-ExactlyOnce request.client_request_id m.world.redis m'.world.redis h.ran
          (answer-IsFinished provider request m.next_token res m'.world.redis q),
    )
    tallied (raised e, m') (h, o) = (
      h.ran,
      Ran-EndedBy request.client_request_id m.world.redis m'.world.redis h.ran (is_failure e) o,
    )
    tallied (waiting, m') h = h
