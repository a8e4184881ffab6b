-- ===== src/Billing/Redelivery.antt =====
-- A request whose record is there already: waiting for its end, and the answer that it keeps.
use generation_balance_servi.Base.{
  ℕ, zero, suc, ◌+◌, ◌≤◌, ◌≡◌, ◌≢◌, refl, ap, ltb, true, Bool-cases, Option, none, some,
  Option-cases, inl, inr, lookup, arith,
}
use generation_balance_servi.Errors.{generation_failed, generation_in_progress, invalid_input}
use generation_balance_servi.Policy.{GenerationRequest, GenerationResult}
use generation_balance_servi.Redis.{Redis, Status, GenerationHash}
use generation_balance_servi.Redis.Generations.{Progress}
use generation_balance_servi.Redis.Traces.{Ran-trans}
use generation_balance_servi.Store.{GenerationRecord, record_from_fields}
use generation_balance_servi.Store.Methods
use generation_balance_servi.Store.Recognises.{IsFinished}
use generation_balance_servi.Machine.{Machine, M, sleep}
use generation_balance_servi.Machine.Rules.{
  Setting, IsSchedule, Advance-refl, Goes, proceed-Goes, sleep-Goes,
}
use generation_balance_servi.Billing.Configs.{Config}
use generation_balance_servi.Billing.Remote.{get_generation}
use generation_balance_servi.Billing.Generation.{
  cached_result, same_payload, resolve_by_status, none_or, resolve_turns, resolve_duplicate,
  some_or,
}
use generation_balance_servi.Billing.Steps.{get_generation-Goes}
use generation_balance_servi.Billing.Following.{Follows, Ran-Progress}

-- The record of the identifier, as the keyspace has it.
abbrev pub Holds : ℕ → GenerationRecord → Redis → Type 0
Holds id g r =
    (h : GenerationHash) × (lookup id r.generations ≡ some h) × (g ≡ record_from_fields h)

-- The answer of a record that is done, and that belongs to the same request.
abbrev pub Cached : GenerationRequest → GenerationResult → Redis → Type 0
Cached request res r =
    (g : GenerationRecord) × Holds request.client_request_id g r
    × (g.status ≡ Status.done)
    × (same_payload request g ≡ true)
    × (res ≡ cached_result request g)

abbrev pub CachedOrGone : GenerationRequest → Option GenerationResult → Redis → Type 0
CachedOrGone request none r = Unit
CachedOrGone request (some res) r = Cached request res r

pub get_generation-Holds :
    (id : ℕ) (g : GenerationRecord) (r : Redis)
    → some g ≡ Methods.get_generation id r
    → Holds id g r
unfolding Methods.get_generation
get_generation-Holds id g r e = elim (Option-cases (lookup id r.generations)) [
  | inl m ↦ cc (rw m at e)
  | inr (h, m) ↦ (h, m, cc (rw m at e))
]

same_payload-Progress :
    (request : GenerationRequest) (o : Option GenerationHash) (h h' : GenerationHash)
    → Progress o (some h')
    → o ≡ some h
    → same_payload request (record_from_fields h) ≡ true
    → same_payload request (record_from_fields h') ≡ true
unfolding record_from_fields
same_payload-Progress request none h h' p e q = cc
same_payload-Progress request (some h₀) h h' (same, change) e q =
    let is : h₀ ≡ h = cc in
    let user : h'.user_id ≡ h.user_id = cc (same.user, ap (λ (x : GenerationHash). x.user_id) is) in
    let dialog : h'.dialog_id ≡ h.dialog_id =
      cc (same.dialog, ap (λ (x : GenerationHash). x.dialog_id) is) in
    let model : h'.model_name ≡ h.model_name =
      cc (same.model, ap (λ (x : GenerationHash). x.model_name) is) in
    cc

pub status_of_Holds :
    (id : ℕ) (g : GenerationRecord) (r : Redis)
    → Holds id g r
    → g.status ≢ Status.running
    → IsFinished id r
unfolding record_from_fields
status_of_Holds id g r (h, e, is) n = (h, e, λ p. n (rw is p))

module _ (c : Setting) (config : Config) (request : GenerationRequest)
    (follows : Follows request.client_request_id c)
    (polls : 1 ≤ config.billing.running_poll_interval) where
  open c use {allowed}

  abbrev Post : Option GenerationResult → Machine → Type 0
  Post o m = CachedOrGone request o m.world.redis

  resolve_by_status-Goes :
      (deadline : ℕ) (g : GenerationRecord) (s : Status) (again : M (Option GenerationResult))
      (m : Machine)
      → IsSchedule allowed m.schedule
      → Holds request.client_request_id g m.world.redis
      → same_payload request g ≡ true
      → g.status ≡ s
      → (m.clock ≤ deadline → Goes c m Post (again m))
      → Goes c m Post (resolve_by_status deadline request g again s m)
  resolve_by_status-Goes deadline g Status.done again m s at same is k =
      (Advance-refl allowed m s, (g, at, is, same, refl))
  resolve_by_status-Goes deadline g Status.failed again m s at same is k = (
    Advance-refl allowed m s,
    follows.finished (generation_failed (some_or g.error "generation failed")) m.world.redis
        (status_of_Holds request.client_request_id g m.world.redis at (λ p. cc)),
  )
  resolve_by_status-Goes deadline g Status.running again m s at same is k =
      elim (Bool-cases (ltb deadline m.clock)) [
        | inl over ↦ rw over (
          Advance-refl allowed m s,
          c.harmless (generation_in_progress "generation still running") m.world.redis refl,
        )
        | inr time ↦ rw time (k (ground arith))
      ]

  resolve_turns-Goes :
      (turns deadline : ℕ) (g : GenerationRecord) (m : Machine)
      → IsSchedule allowed m.schedule
      → Holds request.client_request_id g m.world.redis
      → same_payload request g ≡ true
      → (1 ≤ turns) × (deadline + 2 ≤ turns + m.clock)
      → Goes c m Post (resolve_turns config turns deadline request g m)
  unfolding resolve_turns
  resolve_turns-Goes zero deadline g m s at same t = absurd (omega arith)
  resolve_turns-Goes (suc turns) deadline g m s at same t =
      resolve_by_status-Goes deadline g g.status _ m s at same refl (λ time.
        proceed-Goes c m (λ slept m'. m.clock + config.billing.running_poll_interval ≤ m'.clock)
          Post (sleep config.billing.running_poll_interval m) _
          (sleep-Goes c m config.billing.running_poll_interval s)
          (λ slept m₁ h₁ later.
            proceed-Goes c m₁
              (λ o m'. o ≡ Methods.get_generation request.client_request_id m'.world.redis) Post
              (get_generation request.client_request_id m₁)
              (none_or (λ g' m'. resolve_turns config turns deadline request g' m'))
              (get_generation-Goes c request.client_request_id m₁ h₁.schedule)
              (λ o m₂ h₂ e.
                let ran =
                  Ran-Progress c request.client_request_id follows m.world.redis m₂.world.redis
                    (Ran-trans h₁.ran h₂.ran) in
                after o m₂ h₂.schedule e ran (λ g' at' same'.
                  resolve_turns-Goes turns deadline g' m₂ h₂.schedule at' same'
                    (omega (arith, t.1, time), omega (arith, t.1, later, h₂.clock, polls))))))
    where
      after :
          (o : Option GenerationRecord) (m₂ : Machine)
          → IsSchedule allowed m₂.schedule
          → o ≡ Methods.get_generation request.client_request_id m₂.world.redis
          → Progress
              (lookup request.client_request_id m.world.redis.generations)
              (lookup request.client_request_id m₂.world.redis.generations)
          → ((g' : GenerationRecord)
              → Holds request.client_request_id g' m₂.world.redis
              → same_payload request g' ≡ true
              → Goes c m₂ Post (resolve_turns config turns deadline request g' m₂))
          → Goes c m₂ Post
              (none_or (λ g' m'. resolve_turns config turns deadline request g' m') o m₂)
      after none m₂ s₂ e p k = (Advance-refl allowed m₂ s₂, tt)
      after (some g') m₂ s₂ e p k =
          let at' = get_generation-Holds request.client_request_id g' m₂.world.redis e in
          k g' at' (
            rw at'.2 (
              same_payload-Progress request
                (lookup request.client_request_id m.world.redis.generations) at.0 at'.0
                (rw (← at'.1) p) at.1 (rw (← at.2) same)))

  -- Waiting for a record of the same request ends.
  pub resolve_duplicate-Goes :
      (g : GenerationRecord) (m : Machine)
      → IsSchedule allowed m.schedule
      → Holds request.client_request_id g m.world.redis
      → Goes c m Post (resolve_duplicate config request g m)
  unfolding resolve_duplicate
  resolve_duplicate-Goes g m s at = elim (Bool-cases (same_payload request g)) [
    | inl same ↦ rw same (
        resolve_turns-Goes (config.billing.running_wait_timeout + 2)
          (m.clock + config.billing.running_wait_timeout) g m s at same (omega arith, omega arith))
    | inr other ↦ rw other (
      Advance-refl allowed m s,
      c.harmless (invalid_input "client_request_id reused with a different payload") m.world.redis
          refl,
    )
  ]
