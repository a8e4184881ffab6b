-- ===== src/Billing/Reaped.antt =====
-- Reaping ends, and leaves no reservation of its batch running.
use generation_balance_servi.Base.{
  length, ℕ, ◌≤◌, ◌≡◌, ◌⊎◌, refl, true, ℤ, pos, ◌-ℤ◌, Option, none, some, List, [], ◌∷◌, inl, inr,
  arith,
}
use generation_balance_servi.Redis.{Redis, Status, contains}
use generation_balance_servi.Store.{GenerationRecord}
use generation_balance_servi.Store.Methods
use generation_balance_servi.Store.Stale.{
  count_to, IsStale, stale_inflight-contains, stale_inflight_bounds,
}
use generation_balance_servi.Store.Recognises.{HasRecord, IsFinished}
use generation_balance_servi.Machine.{Machine, proceed, pure}
use generation_balance_servi.Machine.Rules.{
  Setting, IsSchedule, Advance-refl, Grown, Goes, Goes-map, proceed-Goes,
}
use generation_balance_servi.Billing.Configs.{Config}
use generation_balance_servi.Billing.Remote.{get_generation, stale_inflight, forget_inflight}
use generation_balance_servi.Billing.Refunder.{refund_reservation}
use generation_balance_servi.Billing.Reaper.{
  reaped_error, reap_by_status, reap_record, reap_all, reap_once,
}
use generation_balance_servi.Billing.Steps.{
  Admits, get_generation-Goes, stale_inflight-Goes, forget_inflight-Goes,
}
use generation_balance_servi.Billing.Facts.{NotRunning}
use generation_balance_servi.Billing.Following.{
  Follows, Ran-HasRecord, Ran-IsFinished, IsFinished-of-NotRunning,
}
use generation_balance_servi.Billing.Attempts.{refund_reservation-Goes}
use generation_balance_servi.Billing.Redelivery.{Holds, get_generation-Holds, status_of_Holds}

-- At most one was refunded, and if the identifier is the one that is followed and had a record, that
-- is finished.
abbrev Reaped : ℕ → ℕ → Redis → ℕ → Machine → Type 0
Reaped id x r n m' = (n ≤ 1) × (x ≡ id → HasRecord id r → IsFinished id m'.world.redis)

-- What a batch of identifiers, met in the keyspace, becomes.
abbrev pub AllReaped : ℕ → List ℕ → Redis → ℕ → Machine → Type 0
AllReaped id ids r n m' =
    (n ≤ length ids) × (contains id ids ≡ true → HasRecord id r → IsFinished id m'.world.redis)

contains_cases :
    (id x : ℕ) (ids : List ℕ) → contains id (x ∷ ids) ≡ true → (x ≡ id) ⊎ (contains id ids ≡ true)
contains_cases id x ids e = ground arith

-- The time by which reservations are judged.
abbrev pub reap_time : Option ℤ → Machine → ℤ
reap_time none m = pos m.clock
reap_time (some now) m = now

-- The keyspace that the first call of the reaping met, by the history; so many reservations were
-- refunded, no more than the batch's size and than were stale there; and the given one, if it was
-- stale and had a record there, is finished.
abbrev pub BatchReaped : Config → ℕ → ℤ → Machine → ℕ → Machine → Type 0
BatchReaped config id time m n m' =
    let cutoff = time -ℤ pos config.billing.reap_after in
    let limit = config.billing.reap_batch_size in
    (r : Redis) × Grown (r ∷ m.history) m'.history
    × (n ≤ limit)
    × (n ≤ count_to cutoff r.inflight)
    × (IsStale id cutoff limit r.inflight → HasRecord id r → IsFinished id m'.world.redis)

module _ (c : Setting) (own : Admits c.allowed) (config : Config) (id : ℕ)
    (follows : Follows id c) where
  open c use {allowed}

  forgetting-Goes :
      (x : ℕ) (m : Machine)
      → IsSchedule allowed m.schedule
      → (x ≡ id → HasRecord id m.world.redis → IsFinished id m.world.redis)
      → Goes c m
          (Reaped id x m.world.redis)
          (proceed (forget_inflight config.store x m) (λ _. pure 0))
  forgetting-Goes x m s over =
      proceed-Goes c m (λ done m'. Unit {0}) (Reaped id x m.world.redis)
        (forget_inflight config.store x m) (λ _. pure 0)
        (forget_inflight-Goes c own config.store x m s)
        (λ done m' h t. (
          Advance-refl allowed m' h.schedule,
          (
            omega arith,
            λ e k. Ran-IsFinished c id follows m.world.redis m'.world.redis h.ran (over e k),
          ),
        ))

  reap_by_status-Goes :
      (x : ℕ) (g : GenerationRecord) (status : Status) (m : Machine)
      → IsSchedule allowed m.schedule
      → Holds x g m.world.redis
      → g.status ≡ status
      → Goes c m (Reaped id x m.world.redis) (reap_by_status config x status g m)
  reap_by_status-Goes x g Status.running m s at is =
      proceed-Goes c m (λ done m'. NotRunning x m'.world.redis) (Reaped id x m.world.redis)
        (refund_reservation config g.user_id x g.plan reaped_error m) (λ _. pure 1)
        (refund_reservation-Goes c own config g.user_id x g.plan reaped_error m s)
        (λ done m' h n. (
          Advance-refl allowed m' h.schedule,
          (
            omega arith,
            λ e k.
                IsFinished-of-NotRunning id m'.world.redis
                  (Ran-HasRecord c id follows m.world.redis m'.world.redis h.ran k) (rw (← e) n),
          ),
        ))
  reap_by_status-Goes x g Status.done m s at is =
      forgetting-Goes x m s (λ e k. rw (← e) (status_of_Holds x g m.world.redis at (λ p. cc)))
  reap_by_status-Goes x g Status.failed m s at is =
      forgetting-Goes x m s (λ e k. rw (← e) (status_of_Holds x g m.world.redis at (λ p. cc)))

  reap_record-Goes :
      (x : ℕ) (o : Option GenerationRecord) (m : Machine)
      → IsSchedule allowed m.schedule
      → o ≡ Methods.get_generation x m.world.redis
      → Goes c m (Reaped id x m.world.redis) (reap_record config x o m)
  unfolding Methods.get_generation
  reap_record-Goes x (some g) m s e =
      reap_by_status-Goes x g g.status m s (get_generation-Holds x g m.world.redis e) refl
  reap_record-Goes x none m s e =
      forgetting-Goes x m s (λ is k. absurd (no_record x m.world.redis is k e))
    where
      no_record :
          (x : ℕ) (r : Redis) → x ≡ id → HasRecord id r → none ≡ Methods.get_generation x r → ⊥
      no_record x r is (h, at) e = cc (rw (is, at) at e)

  reap_all-Goes :
      (ids : List ℕ) (m : Machine)
      → IsSchedule allowed m.schedule
      → Goes c m (AllReaped id ids m.world.redis) (reap_all config ids m)
  unfolding reap_all
  reap_all-Goes [] m s = (Advance-refl allowed m s, (omega arith, λ e. cc))
  reap_all-Goes (x ∷ ids) m s =
      proceed-Goes c m (λ o m'. o ≡ Methods.get_generation x m'.world.redis)
        (AllReaped id (x ∷ ids) m.world.redis) (get_generation x m) _ (get_generation-Goes c x m s)
        (λ o m₁ h₁ e.
          proceed-Goes c m₁ (Reaped id x m₁.world.redis) (AllReaped id (x ∷ ids) m.world.redis)
            (reap_record config x o m₁) _ (reap_record-Goes x o m₁ h₁.schedule e)
            (λ n₁ m₂ h₂ reaped.
              proceed-Goes c m₂ (AllReaped id ids m₂.world.redis)
                (AllReaped id (x ∷ ids) m.world.redis) (reap_all config ids m₂) _
                (reap_all-Goes ids m₂ h₂.schedule)
                (λ n₂ m₃ h₃ rest. (
                  Advance-refl allowed m₃ h₃.schedule,
                  (
                    omega (arith, reaped.0, rest.0),
                    λ e k.
                        let kept =
                          Ran-HasRecord c id follows m.world.redis m₁.world.redis h₁.ran k in
                        elim (contains_cases id x ids e) [
                          | inl is ↦
                              Ran-IsFinished c id follows m₂.world.redis m₃.world.redis h₃.ran
                                (reaped.1 is kept)
                          | inr there ↦
                              rest.1 there (
                                Ran-HasRecord c id follows m₁.world.redis m₂.world.redis h₂.ran
                                  kept)
                        ],
                  ),
                ))))

  reap_at-Goes :
      (time : ℤ) (m : Machine)
      → IsSchedule allowed m.schedule
      → Goes c m (BatchReaped config id time m) (
          proceed
            (stale_inflight
              (time -ℤ pos config.billing.reap_after)
              config.billing.reap_batch_size
              m)
            (reap_all config))
  reap_at-Goes time m s =
      let cutoff = time -ℤ pos config.billing.reap_after in
      let limit = config.billing.reap_batch_size in
      proceed-Goes c m
        (λ ids m'.
          (ids ≡ Methods.stale_inflight cutoff limit m'.world.redis)
          × (m'.history ≡ m'.world.redis ∷ m.history))
        (BatchReaped config id time m) (stale_inflight cutoff limit m) (reap_all config)
        (stale_inflight-Goes c cutoff limit m s)
        (λ ids m₁ h₁ says.
          Goes-map c m₁ (AllReaped id ids m₁.world.redis) (BatchReaped config id time m)
            (reap_all config ids m₁) (reap_all-Goes ids m₁ h₁.schedule)
            (λ n m' h all.
              reaped cutoff limit m₁.world.redis n m' (rw (← says.1) h.history)
                (rw (← says.0) all)))
    where
      reaped :
          (cutoff : ℤ) (limit : ℕ) (r : Redis) (n : ℕ) (m' : Machine)
          → Grown (r ∷ m.history) m'.history
          → AllReaped id (Methods.stale_inflight cutoff limit r) r n m'
          → (r : Redis) × Grown (r ∷ m.history) m'.history
            × (n ≤ limit)
            × (n ≤ count_to cutoff r.inflight)
            × (IsStale id cutoff limit r.inflight → HasRecord id r → IsFinished id m'.world.redis)
      reaped cutoff limit r n m' first (le, over) =
          let (bound, stale) = stale_inflight_bounds cutoff limit r in
          (
            r,
            first,
            omega (arith, le, bound),
            omega (arith, le, stale),
            λ old. over (stale_inflight-contains id cutoff limit r old),
          )

  pub reap_once-Goes :
      (now : Option ℤ) (m : Machine)
      → IsSchedule allowed m.schedule
      → Goes c m (BatchReaped config id (reap_time now m) m) (reap_once config now m)
  unfolding reap_once
  reap_once-Goes none m s = reap_at-Goes (pos m.clock) m s
  reap_once-Goes (some time) m s = reap_at-Goes time m s
