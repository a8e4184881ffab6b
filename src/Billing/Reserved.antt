-- ===== src/Billing/Reserved.antt =====
-- The reservation of a generation ends: with a plan that the policy authorized and a record, or with
-- the answer of an earlier delivery.
use generation_balance_servi.Base.{
  ℕ, zero, suc, ◌+◌, ◌≤◌, ◌≡◌, refl, sym, pos, leb, Bool, true, false, Bool-cases, if◌then◌else◌,
  Option, none, some, inl, inr, arith,
}
use generation_balance_servi.Errors.{Error, Result, ok, raise, balance_contention}
use generation_balance_servi.Policy.{GenerationRequest, GenerationResult, Authorization, authorize}
use generation_balance_servi.Redis.{Redis}
use generation_balance_servi.Store.{BalanceSnapshot, GenerationRecord, ReserveOutcome}
use generation_balance_servi.Store.Methods
use generation_balance_servi.Machine.{Machine, M, proceed, sleep}
use generation_balance_servi.Machine.Rules.{
  Setting, IsCalm, is_failure, IsSchedule, Advance, Advance-refl, Advance-trans, Goes, proceed-Goes,
  sleep-Goes,
}
use generation_balance_servi.Billing.Configs.{Config}
use generation_balance_servi.Billing.Remote.{get_generation, reserve}
use generation_balance_servi.Billing.Loader.{ensure_loaded}
use generation_balance_servi.Billing.Generation.{
  Reserving, granted, resolved, is_access_error, jitter_after_attempt, resolve_duplicate,
  resolve_or_deny, denied_or_duplicate, resolved_or, reserve_again, reserve_attempt,
  reserve_attempts, reserve_generation,
}
use generation_balance_servi.Billing.Denials.{authorize-IsCalm}
use generation_balance_servi.Billing.Steps.{Admits, get_generation-Goes}
use generation_balance_servi.Billing.Facts.{ReserveSays}
use generation_balance_servi.Billing.Outcomes.{reserve-Goes}
use generation_balance_servi.Billing.Loaded.{WasLoaded, ensure_loaded-Goes}
use generation_balance_servi.Billing.Following.{Follows, IsOwn}
use generation_balance_servi.Billing.Redelivery.{
  Cached, CachedOrGone, get_generation-Holds, resolve_duplicate-Goes,
}

-- What a reservation tells of the keyspace that it leaves: a grant has a record with a token of its
-- own, given out from the start on.
abbrev pub ReservingSays : GenerationRequest → ℕ → Reserving → Redis → Type 0
ReservingSays request start (granted auth) r =
    IsOwn request.client_request_id start r
    × ((s : BalanceSnapshot) × (authorize request s.view ≡ ok auth))
ReservingSays request start (resolved res) r = Cached request res r

module _ (c : Setting) (own : Admits c.allowed) (config : Config) (request : GenerationRequest)
    (follows : Follows request.client_request_id c)
    (polls : 1 ≤ config.billing.running_poll_interval) (start : ℕ) where
  open c use {allowed}

  abbrev Post : Reserving → Machine → Type 0
  Post x m = ReservingSays request start x m.world.redis

  -- Every later attempt ends.
  abbrev Again : Machine → (BalanceSnapshot → M Reserving) → Type 0
  Again m again =
      (snapshot : BalanceSnapshot) (m' : Machine)
      → Advance allowed m m'
      → Goes c m' Post (again snapshot m')

  Again-later :
      (m m' : Machine) (again : BalanceSnapshot → M Reserving)
      → Advance allowed m m'
      → Again m again
      → Again m' again
  Again-later m m' again h k snapshot m'' g = k snapshot m'' (Advance-trans allowed m m' m'' h g)

  reloaded-Goes :
      (again : BalanceSnapshot → M Reserving) (m : Machine)
      → IsSchedule allowed m.schedule
      → Again m again
      → Goes c m Post (proceed (ensure_loaded config request.user_id m) again)
  reloaded-Goes again m s k =
      proceed-Goes c m (λ snapshot m'. WasLoaded allowed request.user_id snapshot m') Post
        (ensure_loaded config request.user_id m) again
        (ensure_loaded-Goes c own config request.user_id m s) (λ snapshot m' h l. k snapshot m' h)

  resolved_or-Goes :
      (again : BalanceSnapshot → M Reserving) (o : Option GenerationResult) (m : Machine)
      → IsSchedule allowed m.schedule
      → Again m again
      → CachedOrGone request o m.world.redis
      → Goes c m Post (resolved_or config request again o m)
  resolved_or-Goes again none m s k h = reloaded-Goes again m s k
  resolved_or-Goes again (some res) m s k h = (Advance-refl allowed m s, h)

  resolve_or_deny-Goes :
      (denied : Error) (o : Option GenerationRecord) (m : Machine)
      → IsSchedule allowed m.schedule
      → is_failure denied ≡ false
      → o ≡ Methods.get_generation request.client_request_id m.world.redis
      → Goes c m
          (λ x m'. CachedOrGone request x m'.world.redis)
          (resolve_or_deny config request denied o m)
  resolve_or_deny-Goes denied none m s calm e =
      (Advance-refl allowed m s, c.harmless denied m.world.redis calm)
  resolve_or_deny-Goes denied (some g) m s calm e =
      resolve_duplicate-Goes c config request follows polls g m s
        (get_generation-Holds request.client_request_id g m.world.redis e)

  denied_or_duplicate-Goes :
      (denied : Error) (m : Machine)
      → IsSchedule allowed m.schedule
      → is_failure denied ≡ false
      → Goes c m
          (λ x m'. CachedOrGone request x m'.world.redis)
          (denied_or_duplicate config request denied m)
  unfolding denied_or_duplicate
  denied_or_duplicate-Goes denied m s calm =
      proceed-Goes c m (λ o m'. o ≡ Methods.get_generation request.client_request_id m'.world.redis)
        (λ x m'. CachedOrGone request x m'.world.redis) (get_generation request.client_request_id m)
        (resolve_or_deny config request denied)
        (get_generation-Goes c request.client_request_id m s)
        (λ o m' h e. resolve_or_deny-Goes denied o m' h.schedule calm e)

  conflict-Goes :
      (late : Bool) (again : BalanceSnapshot → M Reserving) (current : BalanceSnapshot)
      (m : Machine)
      → IsSchedule allowed m.schedule
      → Again m again
      → Goes c m Post
          ((if late then (λ m'. proceed (sleep 0 m') (λ _. again current)) else again current) m)
  conflict-Goes true again current m s k =
      proceed-Goes c m (λ slept m'. m.clock + 0 ≤ m'.clock) Post (sleep 0 m) (λ _. again current)
        (sleep-Goes c m 0 s) (λ slept m' h later. k current m' h)
  conflict-Goes false again current m s k = k current m (Advance-refl allowed m s)

  reserve_again-Goes :
      (attempt : ℕ) (auth : Authorization) (again : BalanceSnapshot → M Reserving)
      (o : ReserveOutcome) (m : Machine)
      → IsSchedule allowed m.schedule
      → ((s : BalanceSnapshot) × (authorize request s.view ≡ ok auth))
      → Again m again
      → (token : ℕ) → start ≤ token
      → ReserveSays token request.client_request_id o m.world.redis
      → Goes c m Post (reserve_again config request attempt auth again o m)
  reserve_again-Goes attempt auth again ReserveOutcome.reserved m s by k token t says =
      (Advance-refl allowed m s, ((says.0, says.1, rw says.2 t), by))
  reserve_again-Goes attempt auth again (ReserveOutcome.conflict current) m s by k token t says =
      conflict-Goes (leb jitter_after_attempt attempt) again current m s k
  reserve_again-Goes attempt auth again ReserveOutcome.missing m s by k token t says =
      reloaded-Goes again m s k
  reserve_again-Goes attempt auth again (ReserveOutcome.duplicate g) m s by k token t says =
      proceed-Goes c m (λ x m'. CachedOrGone request x m'.world.redis) Post
        (resolve_duplicate config request g m) (resolved_or config request again)
        (resolve_duplicate-Goes c config request follows polls g m s
          (get_generation-Holds request.client_request_id g m.world.redis (sym says)))
        (λ o m' h x. resolved_or-Goes again o m' h.schedule (Again-later m m' again h k) x)

  reserve_attempt-Goes :
      (attempt : ℕ) (snapshot : BalanceSnapshot) (again : BalanceSnapshot → M Reserving)
      (x : Result Authorization) (m : Machine)
      → authorize request snapshot.view ≡ x
      → IsCalm x
      → IsSchedule allowed m.schedule
      → start ≤ m.next_token
      → Again m again
      → Goes c m Post (reserve_attempt config request attempt snapshot again x m)
  reserve_attempt-Goes attempt snapshot again (raise e) m by calm s t k =
      elim (Bool-cases (is_access_error e)) [
        | inl access ↦ rw access (
            proceed-Goes c m (λ x m'. CachedOrGone request x m'.world.redis) Post
              (denied_or_duplicate config request e m) (resolved_or config request again)
              (denied_or_duplicate-Goes e m s calm)
              (λ o m' h x. resolved_or-Goes again o m' h.schedule (Again-later m m' again h k) x))
        | inr other ↦ rw other (Advance-refl allowed m s, c.harmless e m.world.redis calm)
      ]
  reserve_attempt-Goes attempt snapshot again (ok auth) m by calm s t k =
      proceed-Goes c m (λ o m'. ReserveSays m.next_token request.client_request_id o m'.world.redis)
        Post
        (reserve config.store request snapshot.version auth.debit_plan auth.estimated_cost_usd
          (pos m.clock) m)
        (reserve_again config request attempt auth again)
        (reserve-Goes c own config.store request snapshot.version auth.debit_plan
          auth.estimated_cost_usd (pos m.clock) m s)
        (λ o m' h says.
          reserve_again-Goes attempt auth again o m' h.schedule (snapshot, by)
            (Again-later m m' again h k) m.next_token t says)

  reserve_attempts-Goes :
      (left attempt : ℕ) (snapshot : BalanceSnapshot) (m : Machine)
      → IsSchedule allowed m.schedule
      → start ≤ m.next_token
      → Goes c m Post (reserve_attempts config request attempt left snapshot m)
  unfolding reserve_attempts
  reserve_attempts-Goes zero attempt snapshot m s t = (
    Advance-refl allowed m s,
    c.harmless (balance_contention "reservation retries exhausted") m.world.redis refl,
  )
  reserve_attempts-Goes (suc left) attempt snapshot m s t =
      reserve_attempt-Goes attempt snapshot
        (λ snapshot' m'. reserve_attempts config request (attempt + 1) left snapshot' m')
        (authorize request snapshot.view) m refl (authorize-IsCalm request snapshot.view) s t
        (λ snapshot' m' h.
          reserve_attempts-Goes left (attempt + 1) snapshot' m' h.schedule
            (omega (arith, t, h.tokens)))

  pub reserve_generation-Goes :
      (m : Machine)
      → IsSchedule allowed m.schedule
      → start ≤ m.next_token
      → Goes c m Post (reserve_generation config request m)
  unfolding reserve_generation
  reserve_generation-Goes m s t =
      reloaded-Goes
        (λ snapshot m'.
          reserve_attempts config request 0 config.billing.reserve_max_attempts snapshot m')
        m s
        (λ snapshot' m' h.
          reserve_attempts-Goes config.billing.reserve_max_attempts 0 snapshot' m' h.schedule
            (omega (arith, t, h.tokens)))
