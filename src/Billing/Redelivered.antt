-- ===== src/Billing/Redelivered.antt =====
-- A request that is delivered again, after its record was reserved.
use generation_balance_servi.Base.{
  ◌+◌, ◌≤◌, ◌≡◌, ◌⊎◌, subst, some, inl, inr, true, lookup, arith, ℕ,
}
use generation_balance_servi.Policy.{GenerationRequest, GenerationResult}
use generation_balance_servi.Redis.{Redis, Status, GenerationHash}
use generation_balance_servi.Redis.Generations.{Keeps, Progress}
use generation_balance_servi.Store.Recognises.{IsFinished}
use generation_balance_servi.Machine.{Machine}
use generation_balance_servi.Machine.Rules.{is_failure, IsSchedule, Outcome}
use generation_balance_servi.Billing.Configs.{Config}
use generation_balance_servi.Billing.Generation.{Provider, execute_generation}
use generation_balance_servi.Billing.Following.{Ran-Progress}
use generation_balance_servi.Billing.Answers.{Answers, IsKept}
use generation_balance_servi.Billing.Executed.{IsAnswer, execute_generation-Goes}
use generation_balance_servi.Billing.Settings.{
  Outcome-of-Goes, following, Admits-Keeps, Follows-following,
}

-- The answer that the record keeps in the end, and that it kept already if it was finished.
abbrev pub IsRepeated : GenerationRequest → GenerationHash → GenerationResult → Redis → Type 0
IsRepeated request g res r =
    IsKept request res r × ((g.status ≡ Status.running) ⊎ Answers request g res)

own_not_earlier :
    (g g' : GenerationHash) (start : ℕ)
    → Progress (some g) (some g')
    → g.reservation_token + 1 ≤ start
    → start ≤ g'.reservation_token
    → ⊥
own_not_earlier g g' start (same, change) t own = omega (arith, same.token, t, own)

repeated :
    (request : GenerationRequest) (res : GenerationResult) (g g' : GenerationHash)
    → Progress (some g) (some g')
    → Answers request g' res
    → (g.status ≡ Status.running) ⊎ Answers request g res
repeated request res g g' (same, inl e) answers = inr (subst (λ h. Answers request h res) e answers)
repeated request res g g' (same, inr (running, left)) answers = inl running

answer-IsRepeated :
    (provider : Provider) (request : GenerationRequest) (start : ℕ) (g : GenerationHash)
    (res : GenerationResult) (r : Redis)
    → Progress (some g) (lookup request.client_request_id r.generations)
    → g.reservation_token + 1 ≤ start
    → IsAnswer provider request start res r
    → IsRepeated request g res r
answer-IsRepeated provider request start g res r p t
      (e, inl (s, auth, result, by, from, content, bill, done, (g', at, own))) =
    absurd (own_not_earlier g g' start (rw at at p) t own)
answer-IsRepeated provider request start g res r p t (e, inr (g', at, answers)) =
    ((g', at, answers), repeated request res g g' (rw at at p) answers)

-- Suppose the record of a request was reserved by an earlier delivery, with a token given out before.
-- When the request is delivered again, `execute_generation` ends: whatever other processes do, short
-- of an expiry of the record, and however the wire behaves, it returns or raises, provided that a
-- poll takes a millisecond at least. If it returns, the record is done and of the same user, dialog
-- and model, and the result has the text that the record keeps and the charge that it keeps in
-- dollars, never a second answer of the provider; only where the record keeps no charge or a charge
-- of zero, the result bills the authorized cost. If the record was finished at the start, this is
-- the text and the charge that it kept then. If it raises GenerationFailedError or is cancelled, the
-- record is finished.
pub redelivery_repeats :
    (config : Config) (provider : Provider) (request : GenerationRequest) (g : GenerationHash)
    (m : Machine)
    → 1 ≤ config.billing.running_poll_interval
    → IsSchedule (Keeps request.client_request_id) m.schedule
    → lookup request.client_request_id m.world.redis.generations ≡ some g
    → g.reservation_token + 1 ≤ m.next_token
    → Outcome
        (λ res m'. IsRepeated request g res m'.world.redis)
        (λ e m'. is_failure e ≡ true → IsFinished request.client_request_id m'.world.redis)
        (execute_generation config provider request m)
redelivery_repeats config provider request g m polls s at t =
    let id = request.client_request_id in
    let c = following id in
    Outcome-of-Goes c m (λ res m'. IsAnswer provider request m.next_token res m'.world.redis)
      (λ res m'. IsRepeated request g res m'.world.redis)
      (λ e m'. is_failure e ≡ true → IsFinished id m'.world.redis)
      (execute_generation config provider request m)
      (execute_generation-Goes c (Admits-Keeps id) config provider request (Follows-following id)
        polls m.next_token m s (omega arith))
      (λ res m' h q.
        answer-IsRepeated provider request m.next_token g res m'.world.redis
          (rw at at (Ran-Progress c id (Follows-following id) m.world.redis m'.world.redis h.ran)) t
          q)
      (λ e m' o. o)
