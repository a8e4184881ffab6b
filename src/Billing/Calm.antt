-- ===== src/Billing/Calm.antt =====
-- The calls on the store raise no error that says how a generation ended: neither
-- GenerationFailedError nor a cancellation.
use generation_balance_servi.Base.{
  ℕ, ◌+◌, ◌%◌, ◌==◌, ◌&&◌, refl, if◌then◌else◌, ltb_ℤ, ◌==ℤ◌, pos, not, Bool, true, false,
  Bool-cases, leb, inl, inr, ℤ, pos_part, neg_part, String, List, [], ◌∷◌,
}
use generation_balance_servi.Errors.{Result, ok, raise, ◌>>=◌}
use generation_balance_servi.Money.{Decimal, money_quantum, money_to_micros}
use generation_balance_servi.Policy.{GenerationRequest, BalanceTopUp, DebitPlan, total_usd}
use generation_balance_servi.TopUp.{validate, validate_amount, quantize}
use generation_balance_servi.Redis.{Redis, run}
use generation_balance_servi.Store.{
  BalanceSnapshot, StoreConfig, Fault, delivered, request_lost, reply_lost, Attempt, after_fault,
  retrying_from, retrying, snapshot_args, plan_args,
}
use generation_balance_servi.Store.Methods.{
  with_args, map_result, reserve_args, settle_args, refund_args, top_up_args,
}
use generation_balance_servi.Machine.Rules.{IsCalm}

pub bind-IsCalm {ℓ κ} :
    {A : Type ℓ} {B : Type κ} (x : Result A) (f : A → Result B)
    → IsCalm x
    → ((a : A) → IsCalm (f a))
    → IsCalm (x >>= f)
bind-IsCalm (ok a) f h k = k a
bind-IsCalm (raise e) f h k = h

pub if-IsCalm {ℓ} :
    {A : Type ℓ} (b : Bool) (x y : Result A) → IsCalm x → IsCalm y → IsCalm (if b then x else y)
if-IsCalm true x y h k = h
if-IsCalm false x y h k = k

pub with_args-IsCalm {ℓ κ} :
    {A : Type ℓ} {B : Type κ} (x : Result A) (call : A → Redis → Result B × Redis) (r : Redis)
    → IsCalm x
    → ((a : A) → IsCalm (call a r).0)
    → IsCalm (with_args x call r).0
with_args-IsCalm (ok a) call r h k = k a
with_args-IsCalm (raise e) call r h k = h

pub map_result-IsCalm {ℓ κ} :
    {A : Type ℓ} {B : Type κ} (f : A → B) (x : Result A) → IsCalm x → IsCalm (map_result f x)
map_result-IsCalm f (ok a) h = tt
map_result-IsCalm f (raise e) h = h

module _ {ℓ} {A : Type ℓ} where
  after_fault-IsCalm :
      (f : Fault) (last : Bool) (start : Redis) (landed : A × Redis)
      (again : Redis → Result A × Redis)
      → ((r : Redis) → IsCalm (again r).0)
      → IsCalm (after_fault f last start landed again).0
  after_fault-IsCalm delivered last start landed again h = tt
  after_fault-IsCalm request_lost true start landed again h = refl
  after_fault-IsCalm request_lost false start landed again h = h start
  after_fault-IsCalm reply_lost true start landed again h = refl
  after_fault-IsCalm reply_lost false start landed again h = h landed.1

  retrying_from-IsCalm :
      (limit attempt : ℕ) (wire : List Attempt) (script : Redis → A × Redis) (r : Redis)
      → IsCalm (retrying_from limit attempt wire script r).0
  unfolding retrying_from
  retrying_from-IsCalm limit attempt [] script r = tt
  retrying_from-IsCalm limit attempt (w ∷ wire) script r =
      after_fault-IsCalm w.fault (leb limit attempt) (run w.before r) (script (run w.before r))
        (λ s. retrying_from limit (attempt + 1) wire script s)
        (λ s. retrying_from-IsCalm limit (attempt + 1) wire script s)

  pub retrying-IsCalm :
      (limit : ℕ) (wire : List Attempt) (script : Redis → A × Redis) (r : Redis)
      → IsCalm (retrying limit wire script r).0
  unfolding retrying
  retrying-IsCalm limit wire script r = retrying_from-IsCalm limit 1 wire script r

money_to_micros-IsCalm : (amount : Decimal) → IsCalm (money_to_micros amount)
unfolding money_to_micros
money_to_micros-IsCalm amount =
    elim (Bool-cases
      ((pos_part amount % money_quantum == 0) && (neg_part amount % money_quantum == 0))) [
        | inl whole ↦ rw whole tt
        | inr fine ↦ rw fine refl
      ]

pub snapshot_args-IsCalm : (s : BalanceSnapshot) → IsCalm (snapshot_args s)
unfolding snapshot_args
snapshot_args-IsCalm s =
    bind-IsCalm (money_to_micros s.free_usd) _ (money_to_micros-IsCalm s.free_usd) (λ free.
      bind-IsCalm (money_to_micros s.bonus_usd) _ (money_to_micros-IsCalm s.bonus_usd) (λ bonus.
        bind-IsCalm (money_to_micros s.paid_usd) _ (money_to_micros-IsCalm s.paid_usd)
          (λ paid. tt)))

plan_args-IsCalm : (p : DebitPlan) → IsCalm (plan_args p)
unfolding plan_args
plan_args-IsCalm s =
    bind-IsCalm (money_to_micros s.free_usd) _ (money_to_micros-IsCalm s.free_usd) (λ free.
      bind-IsCalm (money_to_micros s.bonus_usd) _ (money_to_micros-IsCalm s.bonus_usd) (λ bonus.
        bind-IsCalm (money_to_micros s.paid_usd) _ (money_to_micros-IsCalm s.paid_usd)
          (λ paid. tt)))

pub reserve_args-IsCalm :
    (store : StoreConfig) (token : ℕ) (request : GenerationRequest) (version : ℤ) (plan : DebitPlan)
    (cost : Decimal) (started : ℤ)
    → IsCalm (reserve_args store token request version plan cost started)
reserve_args-IsCalm store token request version plan cost started =
    bind-IsCalm (plan_args plan) _ (plan_args-IsCalm plan)
      (λ amounts. bind-IsCalm (money_to_micros cost) _ (money_to_micros-IsCalm cost) (λ micros. tt))

pub settle_args-IsCalm :
    (store : StoreConfig) (u id : ℕ) (content : String) (billed provider_billed : Decimal)
    (plan : DebitPlan)
    → IsCalm (settle_args store u id content billed provider_billed plan)
settle_args-IsCalm store u id content billed provider_billed plan =
    bind-IsCalm (money_to_micros billed) _ (money_to_micros-IsCalm billed) (λ charged.
      bind-IsCalm (money_to_micros plan.free_usd) _ (money_to_micros-IsCalm plan.free_usd) (λ free.
        bind-IsCalm (money_to_micros plan.bonus_usd) _ (money_to_micros-IsCalm plan.bonus_usd)
          (λ bonus.
            bind-IsCalm (money_to_micros plan.paid_usd) _ (money_to_micros-IsCalm plan.paid_usd)
              (λ paid.
                bind-IsCalm (money_to_micros (total_usd plan)) _
                  (money_to_micros-IsCalm (total_usd plan)) (λ total. tt)))))

pub refund_args-IsCalm :
    (store : StoreConfig) (u id : ℕ) (plan : DebitPlan) (error : String)
    → IsCalm (refund_args store u id plan error)
refund_args-IsCalm store u id plan error =
    bind-IsCalm (plan_args plan) _ (plan_args-IsCalm plan) (λ amounts. tt)

pub top_up_args-IsCalm :
    (store : StoreConfig) (command : BalanceTopUp) → IsCalm (top_up_args store command)
top_up_args-IsCalm store command =
    bind-IsCalm (money_to_micros command.paid_usd) _ (money_to_micros-IsCalm command.paid_usd)
      (λ paid.
        bind-IsCalm (money_to_micros command.bonus_usd) _ (money_to_micros-IsCalm command.bonus_usd)
          (λ bonus. tt))

validate_amount-IsCalm :
    (negative too_fine : String) (amount : Decimal)
    → IsCalm (validate_amount negative too_fine amount)
unfolding validate_amount
validate_amount-IsCalm negative too_fine amount =
    if-IsCalm (ltb_ℤ amount (pos 0)) _ _ refl
      (if-IsCalm (not (amount ==ℤ quantize amount)) _ _ refl tt)

pub validate-IsCalm : (command : BalanceTopUp) → IsCalm (validate command)
unfolding validate
validate-IsCalm command =
    bind-IsCalm _ _
      (validate_amount-IsCalm "paid_usd must be non-negative"
        "paid_usd must have at most 6 decimal places" command.paid_usd)
      (λ paid.
        bind-IsCalm _ _
          (validate_amount-IsCalm "bonus_usd must be non-negative"
            "bonus_usd must have at most 6 decimal places" command.bonus_usd)
          (λ bonus. if-IsCalm (ltb_ℤ command.free_requests (pos 0)) _ _ refl tt))
