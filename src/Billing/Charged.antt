-- ===== src/Billing/Charged.antt =====
-- What a settlement charges: the user pays the bill, brought into the plan, and nothing else.
use generation_balance_servi.Base.{
  ℕ, ◌≡◌, sym, ◌∙◌, ap, ℤ, pos, ◌+ℤ◌, ◌-ℤ◌, String, some, lookup, int_laws, pos_part, neg_part,
}
use generation_balance_servi.Errors.{ok, >>=-eq-ok}
use generation_balance_servi.Money.{Decimal, money_to_micros, micros_to_money}
use generation_balance_servi.Money.Conversion.{
  micros_to_money_parts, micros_to_money-money_to_micros,
}
use generation_balance_servi.Policy.{
  GenerationRequest, Authorization, DebitPlan, total_usd, authorize,
}
use generation_balance_servi.Surplus.{surplus_refund}
use generation_balance_servi.Surplus.Lifo.{surplus_refund_lem}
use generation_balance_servi.Surplus.Plans.{authorize-IsPlanOf}
use generation_balance_servi.Redis
use generation_balance_servi.Redis.{
  Redis, BalanceHash, Amounts, GenerationHash, SettleArgs, SettleReply, RefundArgs, surplus,
}
use generation_balance_servi.Redis.Ledger.{Field, held}
use generation_balance_servi.Redis.Returns.{held-settle}
use generation_balance_servi.Store.{StoreConfig, plan_args, snapshot_from_hash, plan_from_fields}
use generation_balance_servi.Store.Methods.{settle_args}
use generation_balance_servi.Store.RoundTrip.{plan_from_fields-plan_args}
use generation_balance_servi.Billing.Generation.{charge}
use generation_balance_servi.Billing.Converted.{charge_bounds, clamp_of_range}

-- The money that a user has in the balance and in running reservations, in micro-dollars.
abbrev pub money_held : ℕ → Redis → ℤ
money_held u r = held Field.free u r +ℤ held Field.bonus u r +ℤ held Field.paid u r

-- A bill and a surplus in micro-dollars that make up the plan in money make it up.
parts_of_plan :
    (pf pb pp sf sb sp c : ℤ)
    → micros_to_money sf +ℤ micros_to_money sb +ℤ micros_to_money sp
      ≡ micros_to_money pf +ℤ micros_to_money pb +ℤ micros_to_money pp -ℤ micros_to_money c
    → sf +ℤ sb +ℤ sp +ℤ c ≡ pf +ℤ pb +ℤ pp
parts_of_plan pf pb pp sf sb sp c e = omega (
  int_laws,
  micros_to_money_parts pf,
  micros_to_money_parts pb,
  micros_to_money_parts pp,
  micros_to_money_parts sf,
  micros_to_money_parts sb,
  micros_to_money_parts sp,
  micros_to_money_parts c,
  ap pos_part e,
  ap neg_part e,
)

-- What is held less than before, when each field falls by its part of the plan less its surplus.
fall :
    (hf hb hp hf' hb' hp' pf pb pp sf sb sp c : ℤ)
    → hf' +ℤ pf ≡ hf +ℤ sf
    → hb' +ℤ pb ≡ hb +ℤ sb
    → hp' +ℤ pp ≡ hp +ℤ sp
    → sf +ℤ sb +ℤ sp +ℤ c ≡ pf +ℤ pb +ℤ pp
    → hf +ℤ hb +ℤ hp -ℤ (hf' +ℤ hb' +ℤ hp') ≡ c
fall hf hb hp hf' hb' hp' pf pb pp sf sb sp c x y z e = omega (
  int_laws,
  ap pos_part x,
  ap neg_part x,
  ap pos_part y,
  ap neg_part y,
  ap pos_part z,
  ap neg_part z,
  ap pos_part e,
  ap neg_part e,
)

add_none : (x : ℤ) → x +ℤ pos 0 ≡ x
add_none x = omega int_laws

-- What the arguments of SETTLE are.
record SettleParts (a : SettleArgs) (u id : ℕ) (charged : Decimal) (refund : DebitPlan)
    : Type 0 where
  user : a.user_id ≡ u
  request : a.client_request_id ≡ id
  billed : micros_to_money a.billed ≡ charged
  free : micros_to_money a.refund_free ≡ refund.free_usd
  bonus : micros_to_money a.refund_bonus ≡ refund.bonus_usd
  paid : micros_to_money a.refund_paid ≡ refund.paid_usd

settle_args-SettleParts :
    (store : StoreConfig) (u id : ℕ) (content : String) (charged billed : Decimal)
    (refund : DebitPlan) {a : SettleArgs}
    → settle_args store u id content charged billed refund ≡ ok a
    → SettleParts a u id charged refund
settle_args-SettleParts store u id content charged billed refund {a} e =
    let (c, ec, e₁) = >>=-eq-ok (money_to_micros charged) _ e in
    let (f, ef, e₂) = >>=-eq-ok (money_to_micros refund.free_usd) _ e₁ in
    let (o, eo, e₃) = >>=-eq-ok (money_to_micros refund.bonus_usd) _ e₂ in
    let (p, ep, e₄) = >>=-eq-ok (money_to_micros refund.paid_usd) _ e₃ in
    let (t, et, e₅) = >>=-eq-ok (money_to_micros (total_usd refund)) _ e₄ in
    record {
      user = cc;
      request = cc;
      billed = cc (micros_to_money-money_to_micros charged ec);
      free = cc (micros_to_money-money_to_micros refund.free_usd ef);
      bonus = cc (micros_to_money-money_to_micros refund.bonus_usd eo);
      paid = cc (micros_to_money-money_to_micros refund.paid_usd ep);
    }

module _ (store : StoreConfig) (request : GenerationRequest) (b : BalanceHash)
    {auth : Authorization} (granted : authorize request (snapshot_from_hash b).view ≡ ok auth) where
  -- Suppose the policy authorizes a request on the snapshot of a balance, a record stands under the
  -- request's identifier with the authorized plan and the request's user, and SETTLE is called with
  -- the arguments for a bill of the provider. If it replies OK, the money that the user has in the
  -- balance and in running reservations falls by exactly the charge, which is the bill brought into
  -- the plan and rounded down to a micro-dollar, and the free requests by those of the plan.
  pub settle_charges :
      (content : String) (billed : Decimal) (r : Redis) {g : GenerationHash} {a : SettleArgs}
      → lookup request.client_request_id r.generations ≡ some g
      → g.user_id ≡ request.user_id
      → plan_args auth.debit_plan ≡ ok g.plan
      → settle_args store request.user_id request.client_request_id content
          (charge auth.debit_plan billed)
          billed
          (surplus_refund auth.debit_plan auth.debit_policy (charge auth.debit_plan billed))
        ≡ ok a
      → (Redis.settle a r).0 ≡ SettleReply.ok
      → (micros_to_money
            (money_held request.user_id r -ℤ money_held request.user_id (Redis.settle a r).1)
          ≡ charge auth.debit_plan billed)
        × (held Field.requests request.user_id (Redis.settle a r).1 +ℤ auth.debit_plan.free_requests
            ≡ held Field.requests request.user_id r)
  unfolding plan_from_fields total_usd
  settle_charges content billed r {g} {a} at user plan args reply =
      let charged = charge auth.debit_plan billed in
      let refund = surplus_refund auth.debit_plan auth.debit_policy charged in
      let is_plan = authorize-IsPlanOf request (snapshot_from_hash b).view granted in
      let range = charge_bounds auth.debit_plan auth.debit_policy billed is_plan in
      let parts =
        settle_args-SettleParts store request.user_id request.client_request_id content charged
          billed refund args in
      let given = surplus_refund_lem auth.debit_plan auth.debit_policy charged is_plan in
      let back = plan_from_fields-plan_args auth.debit_plan plan in
      let in_money : micros_to_money a.refund_free
            +ℤ micros_to_money a.refund_bonus
            +ℤ micros_to_money a.refund_paid
          ≡ micros_to_money g.plan.free_usd
            +ℤ micros_to_money g.plan.bonus_usd
            +ℤ micros_to_money g.plan.paid_usd
            -ℤ micros_to_money a.billed =
        cc (
          parts.free,
          parts.bonus,
          parts.paid,
          parts.billed,
          given.0,
          clamp_of_range charged (total_usd auth.debit_plan) range.0 range.1,
          ap (λ (p : DebitPlan). p.free_usd) back,
          ap (λ (p : DebitPlan). p.bonus_usd) back,
          ap (λ (p : DebitPlan). p.paid_usd) back,
        ) in
      let moved = λ (f : Field).
        held-settle f a r {g = g} (rw parts.request at) (parts.user ∙ sym user) reply in
      let sum =
        fall (held Field.free a.user_id r) (held Field.bonus a.user_id r)
          (held Field.paid a.user_id r) (held Field.free a.user_id (Redis.settle a r).1)
          (held Field.bonus a.user_id (Redis.settle a r).1)
          (held Field.paid a.user_id (Redis.settle a r).1) g.plan.free_usd g.plan.bonus_usd
          g.plan.paid_usd a.refund_free a.refund_bonus a.refund_paid a.billed (moved Field.free)
          (moved Field.bonus) (moved Field.paid)
          (parts_of_plan g.plan.free_usd g.plan.bonus_usd g.plan.paid_usd a.refund_free
            a.refund_bonus a.refund_paid a.billed in_money) in
      (
        rw (← parts.user) (ap micros_to_money sum ∙ parts.billed),
        rw (← parts.user, ← ap (λ (p : DebitPlan). p.free_requests) back)
            (moved Field.requests ∙ add_none (held Field.requests a.user_id r)),
      )
