-- ===== src/Billing/Outcomes.antt =====
-- The retried methods of the store as a service awaits them.
use generation_balance_servi.Base.{ℕ, suc, ◌≡◌, subst, ℤ, String}
use generation_balance_servi.Errors.{ok, >>=-eq-ok}
use generation_balance_servi.Money.{Decimal, money_to_micros}
use generation_balance_servi.Policy.{GenerationRequest, BalanceTopUp, DebitPlan, total_usd}
use generation_balance_servi.Redis
use generation_balance_servi.Redis.{
  Redis, Call, exec, ReserveArgs, SettleArgs, RefundArgs, TopUpArgs,
}
use generation_balance_servi.Redis.Traces.{Ran-exec}
use generation_balance_servi.Store.{
  StoreConfig, reserve_outcome, settle_outcome, refund_outcome, top_up_outcome, plan_args,
}
use generation_balance_servi.Store.Methods
use generation_balance_servi.Store.Methods.{reserve_args, settle_args, refund_args, top_up_args}
use generation_balance_servi.Machine.{Machine, on_redis}
use generation_balance_servi.Machine.Rules.{Setting, IsSchedule, Goes, Goes-after}
use generation_balance_servi.Billing.Remote.{reserve, settle, refund, top_up}
use generation_balance_servi.Billing.Calm.{
  reserve_args-IsCalm, settle_args-IsCalm, refund_args-IsCalm, top_up_args-IsCalm,
}
use generation_balance_servi.Billing.Steps.{Admits, retried-Goes, token_taken}
use generation_balance_servi.Billing.Facts.{
  ReserveSays, SettleSays, RefundSays, TopUpSays, reserve-Says, settle-Says, refund-Says,
  top_up-Says,
}

reserve_args-id :
    (store : StoreConfig) (token : ℕ) (request : GenerationRequest) (version : ℤ) (plan : DebitPlan)
    (cost : Decimal) (started : ℤ) (a : ReserveArgs)
    → reserve_args store token request version plan cost started ≡ ok a
    → (a.client_request_id ≡ request.client_request_id) × (a.reservation_token ≡ token)
reserve_args-id store token request version plan cost started a e =
    let (p, _, e₁) = >>=-eq-ok (plan_args plan) _ e in
    let (c, _, e₂) = >>=-eq-ok (money_to_micros cost) _ e₁ in (cc, cc)

settle_args-id :
    (store : StoreConfig) (u id : ℕ) (content : String) (billed provider_billed : Decimal)
    (plan : DebitPlan) (a : SettleArgs)
    → settle_args store u id content billed provider_billed plan ≡ ok a
    → a.client_request_id ≡ id
settle_args-id store u id content billed provider_billed plan a e =
    let (b, _, e₁) = >>=-eq-ok (money_to_micros billed) _ e in
    let (f, _, e₂) = >>=-eq-ok (money_to_micros plan.free_usd) _ e₁ in
    let (g, _, e₃) = >>=-eq-ok (money_to_micros plan.bonus_usd) _ e₂ in
    let (p, _, e₄) = >>=-eq-ok (money_to_micros plan.paid_usd) _ e₃ in
    let (t, _, e₅) = >>=-eq-ok (money_to_micros (total_usd plan)) _ e₄ in cc

refund_args-id :
    (store : StoreConfig) (u id : ℕ) (plan : DebitPlan) (error : String) (a : RefundArgs)
    → refund_args store u id plan error ≡ ok a
    → a.client_request_id ≡ id
refund_args-id store u id plan error a e = let (p, _, e₁) = >>=-eq-ok (plan_args plan) _ e in cc

top_up_args-id :
    (store : StoreConfig) (command : BalanceTopUp) (a : TopUpArgs)
    → top_up_args store command ≡ ok a
    → a.operation_id ≡ command.operation_id
top_up_args-id store command a e =
    let (p, _, e₁) = >>=-eq-ok (money_to_micros command.paid_usd) _ e in
    let (b, _, e₂) = >>=-eq-ok (money_to_micros command.bonus_usd) _ e₁ in cc

module _ (c : Setting) (own : Admits c.allowed) (store : StoreConfig) where
  open c use {allowed}

  pub reserve-Goes :
      (request : GenerationRequest) (version : ℤ) (plan : DebitPlan) (cost : Decimal) (started : ℤ)
      (m : Machine)
      → IsSchedule allowed m.schedule
      → Goes c m
          (λ o m'. ReserveSays m.next_token request.client_request_id o m'.world.redis)
          (reserve store request version plan cost started m)
  unfolding reserve Methods.reserve exec
  reserve-Goes request version plan cost started m s =
      let token = m.next_token in
      let m₁ = record m { next_token = suc token } in
      Goes-after c m m₁
        (λ o m'. ReserveSays m.next_token request.client_request_id o m'.world.redis)
        (on_redis (λ wire. Methods.reserve store token wire request version plan cost started) m₁)
        (token_taken c m s)
        (retried-Goes c m₁ (ReserveSays m.next_token request.client_request_id) store.retry_attempts
          (reserve_args store token request version plan cost started) Redis.reserve
          (reserve_outcome token) s
          (reserve_args-IsCalm store token request version plan cost started)
          (λ a r. Ran-exec (Call.reserve a) r (own.reserve a))
          (λ a r e.
            subst
              (λ (id : ℕ).
                ReserveSays token id (reserve_outcome token (Redis.reserve a r).0)
                  (Redis.reserve a r).1)
              (reserve_args-id store token request version plan cost started a e).0
              (reserve-Says token a r
                (reserve_args-id store token request version plan cost started a e).1)))

  pub settle-Goes :
      (u id : ℕ) (content : String) (billed provider_billed : Decimal) (plan : DebitPlan)
      (m : Machine)
      → IsSchedule allowed m.schedule
      → Goes c m
          (λ o m'. SettleSays id o m'.world.redis)
          (settle store u id content billed provider_billed plan m)
  unfolding settle Methods.settle exec
  settle-Goes u id content billed provider_billed plan m s =
      retried-Goes c m (SettleSays id) store.retry_attempts
        (settle_args store u id content billed provider_billed plan) Redis.settle settle_outcome s
        (settle_args-IsCalm store u id content billed provider_billed plan)
        (λ a r. Ran-exec (Call.settle a) r (own.settle a))
        (λ a r e.
          subst
            (λ (id' : ℕ). SettleSays id' (settle_outcome (Redis.settle a r).0) (Redis.settle a r).1)
            (settle_args-id store u id content billed provider_billed plan a e) (settle-Says a r))

  pub refund-Goes :
      (u id : ℕ) (plan : DebitPlan) (error : String) (m : Machine)
      → IsSchedule allowed m.schedule
      → Goes c m (λ o m'. RefundSays id o m'.world.redis) (refund store u id plan error m)
  unfolding refund Methods.refund exec
  refund-Goes u id plan error m s =
      retried-Goes c m (RefundSays id) store.retry_attempts (refund_args store u id plan error)
        Redis.refund refund_outcome s (refund_args-IsCalm store u id plan error)
        (λ a r. Ran-exec (Call.refund a) r (own.refund a))
        (λ a r e.
          subst
            (λ (id' : ℕ). RefundSays id' (refund_outcome (Redis.refund a r).0) (Redis.refund a r).1)
            (refund_args-id store u id plan error a e) (refund-Says a r))

  pub top_up-Goes :
      (command : BalanceTopUp) (m : Machine)
      → IsSchedule allowed m.schedule
      → Goes c m (λ o m'. TopUpSays command.operation_id o m'.world.redis) (top_up store command m)
  unfolding top_up Methods.top_up exec
  top_up-Goes command m s =
      retried-Goes c m (TopUpSays command.operation_id) store.retry_attempts
        (top_up_args store command) Redis.top_up top_up_outcome s (top_up_args-IsCalm store command)
        (λ a r. Ran-exec (Call.top_up a) r (own.top_up a))
        (λ a r e.
          subst
            (λ (id : ℕ). TopUpSays id (top_up_outcome (Redis.top_up a r).0) (Redis.top_up a r).1)
            (top_up_args-id store command a e) (top_up-Says a r))
