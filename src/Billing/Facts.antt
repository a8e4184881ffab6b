-- ===== src/Billing/Facts.antt =====
-- What the outcome of a script tells of the keyspace that it leaves.
use generation_balance_servi.Base.{
  ℕ, ◌≡◌, ◌≢◌, refl, ◌==ℤ◌, ◌==◌, Bool-cases, some, Option-cases, inl, inr, lookup,
  lookup-insert_self, arith,
}
use generation_balance_servi.Redis
use generation_balance_servi.Redis.{
  Redis, Call, exec, Status, GenerationHash, TopUpMarker, ReserveArgs, ReserveReply, SettleArgs,
  RefundArgs, TopUpArgs, settle_by_status, refund_by_status, settle_running, has_surplus,
  new_record,
}
use generation_balance_servi.Store.{
  ReserveOutcome, SettleOutcome, RefundOutcome, TopUpOutcome, reserve_outcome, settle_outcome,
  refund_outcome, top_up_outcome,
}
use generation_balance_servi.Store.Methods.{get_generation}
use generation_balance_servi.Store.Recognises.{HasMarker}

abbrev pub IsDone : ℕ → Redis → Type 0
IsDone id r = (g : GenerationHash) × (lookup id r.generations ≡ some g) × (g.status ≡ Status.done)

abbrev pub NotRunning : ℕ → Redis → Type 0
NotRunning id r =
    (g : GenerationHash) → lookup id r.generations ≡ some g → g.status ≢ Status.running

-- The record of the identifier was reserved with the token.
abbrev pub HasToken : ℕ → ℕ → Redis → Type 0
HasToken id token r =
    (g : GenerationHash) × (lookup id r.generations ≡ some g) × (g.reservation_token ≡ token)

abbrev pub ReserveSays : ℕ → ℕ → ReserveOutcome → Redis → Type 0
ReserveSays token id ReserveOutcome.reserved r = HasToken id token r
ReserveSays token id (ReserveOutcome.duplicate g) r = get_generation id r ≡ some g
ReserveSays token id _ r = Unit

abbrev pub SettleSays : ℕ → SettleOutcome → Redis → Type 0
SettleSays id SettleOutcome.applied r = IsDone id r
SettleSays id SettleOutcome.already_applied r = IsDone id r
SettleSays id SettleOutcome.stale r = NotRunning id r
SettleSays id SettleOutcome.missing r = Unit

abbrev pub RefundSays : ℕ → RefundOutcome → Redis → Type 0
RefundSays id RefundOutcome.applied r = NotRunning id r
RefundSays id RefundOutcome.stale r = NotRunning id r
RefundSays id RefundOutcome.missing r = Unit

abbrev pub TopUpSays : ℕ → TopUpOutcome → Redis → Type 0
TopUpSays id TopUpOutcome.applied r = HasMarker id r
TopUpSays id TopUpOutcome.already_applied r = HasMarker id r
TopUpSays id TopUpOutcome.missing r = Unit

dup-Says :
    (token id : ℕ) (g : GenerationHash) (r : Redis)
    → lookup id r.generations ≡ some g
    → ReserveSays token id (reserve_outcome token (ReserveReply.dup g)) r
unfolding reserve_outcome get_generation
dup-Says token id g r e = elim (Bool-cases (g.reservation_token == token)) [
  | inl own ↦ rw own (g, e, ground arith)
  | inr other ↦ rw other (rw e refl)
]

pub reserve-Says :
    (token : ℕ) (a : ReserveArgs) (r : Redis)
    → a.reservation_token ≡ token
    → ReserveSays token a.client_request_id
        (reserve_outcome token (Redis.reserve a r).0)
        (Redis.reserve a r).1
unfolding Redis.reserve reserve_outcome
reserve-Says token a r own = elim (Option-cases (lookup a.client_request_id r.generations)) [
  | inr (g, e) ↦ rw (e, Redis.reserve) (dup-Says token a.client_request_id g r e)
  | inl e ↦ elim (Option-cases (lookup a.user_id r.balances)) [
    | inl m ↦ rw (e, m, Redis.reserve) tt
    | inr (b, m) ↦ elim (Bool-cases (b.version ==ℤ a.expected_version)) [
      | inr v ↦ rw (e, m, v, Redis.reserve) tt
      | inl v ↦
          rw (e, m, v, Redis.reserve)
            (new_record a, lookup-insert_self a.client_request_id (new_record a) r.generations, own)
    ]
  ]
]

settle_running-Says :
    (a : SettleArgs) (g : GenerationHash) (r : Redis)
    → SettleSays a.client_request_id
        (settle_outcome (settle_running a g r).0)
        (settle_running a g r).1
unfolding settle_running settle_outcome
settle_running-Says a g r =
    let settled = record g {
      status = Status.done;
      content = some a.content;
      billed_cost_usd = some a.billed;
      provider_billed_cost_usd = some a.provider_billed;
      refunded_surplus_usd = some a.refunded_surplus;
      ttl = a.ttl;
    } in
    let at = lookup-insert_self a.client_request_id settled r.generations in
    elim (Bool-cases (has_surplus a)) [
      | inr none_left ↦ rw (none_left, settle_running) (settled, at, refl)
      | inl left ↦ elim (Option-cases (lookup a.user_id r.balances)) [
        | inl m ↦ rw (left, m, settle_running) tt
        | inr (b, m) ↦ rw (left, m, settle_running) (settled, at, refl)
      ]
    ]

settle_by_status-Says :
    (s : Status) (a : SettleArgs) (g : GenerationHash) (r : Redis)
    → g.status ≡ s
    → lookup a.client_request_id r.generations ≡ some g
    → SettleSays a.client_request_id
        (settle_outcome (settle_by_status s a g r).0)
        (settle_by_status s a g r).1
unfolding settle_outcome
settle_by_status-Says Status.done a g r p e = (g, e, p)
settle_by_status-Says Status.failed a g r p e = λ g' e' q. cc
settle_by_status-Says Status.running a g r p e = settle_running-Says a g r

pub settle-Says :
    (a : SettleArgs) (r : Redis)
    → SettleSays a.client_request_id (settle_outcome (Redis.settle a r).0) (Redis.settle a r).1
unfolding Redis.settle settle_outcome
settle-Says a r = elim (Option-cases (lookup a.client_request_id r.generations)) [
  | inl e ↦ rw (e, Redis.settle) (λ g' e' q. cc)
  | inr (g, e) ↦ rw (e, Redis.settle) (settle_by_status-Says g.status a g r refl e)
]

refund_by_status-Says :
    (s : Status) (a : RefundArgs) (g : GenerationHash) (r : Redis)
    → g.status ≡ s
    → lookup a.client_request_id r.generations ≡ some g
    → RefundSays a.client_request_id
        (refund_outcome (refund_by_status s a g r).0)
        (refund_by_status s a g r).1
unfolding refund_outcome
refund_by_status-Says Status.done a g r p e = λ g' e' q. cc
refund_by_status-Says Status.failed a g r p e = λ g' e' q. cc
refund_by_status-Says Status.running a g r p e = elim (Option-cases (lookup a.user_id r.balances)) [
  | inl m ↦ rw (m, refund_by_status) tt
  | inr (b, m) ↦
      let failed = record g { status = Status.failed; error = some a.error; ttl = a.ttl } in
      let at = lookup-insert_self a.client_request_id failed r.generations in
      rw (m, refund_by_status) (λ g' e' q. cc)
]

pub refund-Says :
    (a : RefundArgs) (r : Redis)
    → RefundSays a.client_request_id (refund_outcome (Redis.refund a r).0) (Redis.refund a r).1
unfolding Redis.refund refund_outcome
refund-Says a r = elim (Option-cases (lookup a.client_request_id r.generations)) [
  | inl e ↦ rw (e, Redis.refund) (λ g' e' q. cc)
  | inr (g, e) ↦ rw (e, Redis.refund) (refund_by_status-Says g.status a g r refl e)
]

pub top_up-Says :
    (a : TopUpArgs) (r : Redis)
    → TopUpSays a.operation_id (top_up_outcome (Redis.top_up a r).0) (Redis.top_up a r).1
unfolding Redis.top_up top_up_outcome
top_up-Says a r = elim (Option-cases (lookup a.operation_id r.top_ups)) [
  | inr (t, e) ↦ rw (e, Redis.top_up) (t, e)
  | inl e ↦ elim (Option-cases (lookup a.user_id r.balances)) [
    | inl m ↦ rw (e, m, Redis.top_up) tt
    | inr (b, m) ↦
        let marker : TopUpMarker = record { user_id = a.user_id; ttl = a.ttl } in
        rw (e, m, Redis.top_up) (marker, lookup-insert_self a.operation_id marker r.top_ups)
  ]
]
