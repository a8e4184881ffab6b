-- ===== src/Billing/Attempts.antt =====
-- The loops over a retried command of the store: they end, and what they return tells that the
-- command has been carried out.
use generation_balance_servi.Base.{ℕ, zero, suc, ◌≡◌, refl, String}
use generation_balance_servi.Errors.{ok, balance_contention}
use generation_balance_servi.TopUp.{validate}
use generation_balance_servi.Policy.{BalanceTopUp, DebitPlan}
use generation_balance_servi.Store.{RefundOutcome, TopUpOutcome}
use generation_balance_servi.Store.Recognises.{HasMarker}
use generation_balance_servi.Machine.{Machine, M, proceed, lift}
use generation_balance_servi.Machine.Rules.{
  Setting, IsSchedule, Advance, Advance-refl, Goes, Goes-map, lift-Goes, proceed-Goes,
}
use generation_balance_servi.Billing.Configs.{Config}
use generation_balance_servi.Billing.Remote.{refund, top_up}
use generation_balance_servi.Billing.Loader.{ensure_loaded}
use generation_balance_servi.Billing.Refunder.{refund_again, refund_attempts, refund_reservation}
use generation_balance_servi.Billing.Balances.{top_up_again, top_up_attempts, apply_top_up}
use generation_balance_servi.Billing.Calm.{validate-IsCalm}
use generation_balance_servi.Billing.Steps.{Admits}
use generation_balance_servi.Billing.Facts.{NotRunning, RefundSays, TopUpSays}
use generation_balance_servi.Billing.Outcomes.{refund-Goes, top_up-Goes}
use generation_balance_servi.Billing.Loaded.{WasLoaded, ensure_loaded-Goes}

module _ (c : Setting) (own : Admits c.allowed) (config : Config) where
  open c use {allowed}

  -- Loads the balance, and goes on.
  pub reload-Goes {ℓ} :
      {A : Type ℓ} (u : ℕ) (m : Machine) (Q : A → Machine → Type 0) (again : M A)
      → IsSchedule allowed m.schedule
      → ((m' : Machine) → Advance allowed m m' → Goes c m' Q (again m'))
      → Goes c m Q (proceed (ensure_loaded config u m) (λ _. again))
  reload-Goes u m Q again s k =
      proceed-Goes c m (λ snapshot m'. WasLoaded allowed u snapshot m') Q (ensure_loaded config u m)
        (λ _. again) (ensure_loaded-Goes c own config u m s) (λ snapshot m' h l. k m' h)

  refund_attempts-Goes :
      (attempts u id : ℕ) (plan : DebitPlan) (error : String) (m : Machine)
      → IsSchedule allowed m.schedule
      → Goes c m
          (λ done m'. NotRunning id m'.world.redis)
          (refund_attempts config attempts u id plan error m)
  unfolding refund_attempts
  refund_attempts-Goes zero u id plan error m s = (
    Advance-refl allowed m s,
    c.harmless (balance_contention "refund retries exhausted") m.world.redis refl,
  )
  refund_attempts-Goes (suc attempts) u id plan error m s =
      let again = λ (m' : Machine). refund_attempts config attempts u id plan error m' in
      proceed-Goes c m (λ o m'. RefundSays id o m'.world.redis)
        (λ done m'. NotRunning id m'.world.redis) (refund config.store u id plan error m)
        (refund_again config u again) (refund-Goes c own config.store u id plan error m s)
        (λ o m₁ h₁ says.
          after o m₁ h₁.schedule says
            (λ m₂ h₂. refund_attempts-Goes attempts u id plan error m₂ h₂.schedule))
    where
      after :
          (o : RefundOutcome) (m₁ : Machine)
          → IsSchedule allowed m₁.schedule
          → RefundSays id o m₁.world.redis
          → ((m₂ : Machine)
              → Advance allowed m₁ m₂
              → Goes c m₂
                  (λ done m'. NotRunning id m'.world.redis)
                  (refund_attempts config attempts u id plan error m₂))
          → Goes c m₁
              (λ done m'. NotRunning id m'.world.redis)
              (refund_again config u
                (λ m'. refund_attempts config attempts u id plan error m')
                o
                m₁)
      after RefundOutcome.applied m₁ s₁ says k = (Advance-refl allowed m₁ s₁, says)
      after RefundOutcome.stale m₁ s₁ says k = (Advance-refl allowed m₁ s₁, says)
      after RefundOutcome.missing m₁ s₁ says k =
          reload-Goes u m₁ (λ done m'. NotRunning id m'.world.redis)
            (λ m'. refund_attempts config attempts u id plan error m') s₁ k

  -- A refund that returns leaves a record that is not running, or none.
  pub refund_reservation-Goes :
      (u id : ℕ) (plan : DebitPlan) (error : String) (m : Machine)
      → IsSchedule allowed m.schedule
      → Goes c m
          (λ done m'. NotRunning id m'.world.redis)
          (refund_reservation config u id plan error m)
  unfolding refund_reservation
  refund_reservation-Goes u id plan error m s =
      refund_attempts-Goes config.billing.reserve_max_attempts u id plan error m s

  top_up_attempts-Goes :
      (attempts : ℕ) (command : BalanceTopUp) (m : Machine)
      → IsSchedule allowed m.schedule
      → Goes c m
          (λ done m'. HasMarker command.operation_id m'.world.redis)
          (top_up_attempts config attempts command m)
  unfolding top_up_attempts
  top_up_attempts-Goes zero command m s = (
    Advance-refl allowed m s,
    c.harmless (balance_contention "top-up retries exhausted") m.world.redis refl,
  )
  top_up_attempts-Goes (suc attempts) command m s =
      let again = λ (m' : Machine). top_up_attempts config attempts command m' in
      proceed-Goes c m (λ o m'. TopUpSays command.operation_id o m'.world.redis)
        (λ done m'. HasMarker command.operation_id m'.world.redis) (top_up config.store command m)
        (top_up_again config command.user_id again) (top_up-Goes c own config.store command m s)
        (λ o m₁ h₁ says.
          after o m₁ h₁.schedule says
            (λ m₂ h₂. top_up_attempts-Goes attempts command m₂ h₂.schedule))
    where
      after :
          (o : TopUpOutcome) (m₁ : Machine)
          → IsSchedule allowed m₁.schedule
          → TopUpSays command.operation_id o m₁.world.redis
          → ((m₂ : Machine)
              → Advance allowed m₁ m₂
              → Goes c m₂
                  (λ done m'. HasMarker command.operation_id m'.world.redis)
                  (top_up_attempts config attempts command m₂))
          → Goes c m₁
              (λ done m'. HasMarker command.operation_id m'.world.redis)
              (top_up_again config command.user_id
                (λ m'. top_up_attempts config attempts command m')
                o
                m₁)
      after TopUpOutcome.applied m₁ s₁ says k = (Advance-refl allowed m₁ s₁, says)
      after TopUpOutcome.already_applied m₁ s₁ says k = (Advance-refl allowed m₁ s₁, says)
      after TopUpOutcome.missing m₁ s₁ says k =
          reload-Goes command.user_id m₁ (λ done m'. HasMarker command.operation_id m'.world.redis)
            (λ m'. top_up_attempts config attempts command m') s₁ k

  -- A top-up that returns was accepted, and has left its marker.
  pub apply_top_up-Goes :
      (command : BalanceTopUp) (m : Machine)
      → IsSchedule allowed m.schedule
      → Goes c m
          (λ done m'. (validate command ≡ ok tt) × HasMarker command.operation_id m'.world.redis)
          (apply_top_up config command m)
  unfolding apply_top_up
  apply_top_up-Goes command m s =
      let Post = λ (done : Unit {0}) (m' : Machine).
        (validate command ≡ ok tt) × HasMarker command.operation_id m'.world.redis in
      proceed-Goes c m (λ valid m'. validate command ≡ ok valid) Post (lift (validate command) m) _
        (lift-Goes c (validate command) m (validate-IsCalm command) s)
        (λ valid m₁ h₁ e.
          Goes-map c m₁ (λ done m'. HasMarker command.operation_id m'.world.redis) Post
            (top_up_attempts config config.billing.reserve_max_attempts command m₁)
            (top_up_attempts-Goes config.billing.reserve_max_attempts command m₁ h₁.schedule)
            (λ done m' h marked. (e, marked)))
