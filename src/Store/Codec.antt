-- ===== src/Store/Codec.antt =====
-- Between the service's values and the fields and arguments of Redis.
use generation_balance_servi.Base.{ℕ, ℤ, if◌then◌else◌, ◌==◌, String, str_eq, Option, none, some}
use generation_balance_servi.Errors.{Result, ok, ◌>>=◌}
use generation_balance_servi.Money.{Decimal, money_to_micros, micros_to_money}
use generation_balance_servi.Policy.{DebitPlan}
use generation_balance_servi.Redis.{
  BalanceHash, Amounts, GenerationHash, ReserveReply, SettleReply, RefundReply, TopUpReply,
}
use generation_balance_servi.Store.Types.{
  BalanceSnapshot, GenerationRecord, ReserveOutcome, SettleOutcome, RefundOutcome, TopUpOutcome,
}

-- `_snapshot_args` and the version behind them
unfoldable pub snapshot_args : BalanceSnapshot → Result BalanceHash
snapshot_args s = do
  free ← money_to_micros s.free_usd
  bonus ← money_to_micros s.bonus_usd
  paid ← money_to_micros s.paid_usd
  ok (record {
    free_usd = free;
    bonus_usd = bonus;
    paid_usd = paid;
    free_requests = s.free_requests;
    version = s.version;
  })

-- `_plan_args`
unfoldable pub plan_args : DebitPlan → Result Amounts
plan_args plan = do
  free ← money_to_micros plan.free_usd
  bonus ← money_to_micros plan.bonus_usd
  paid ← money_to_micros plan.paid_usd
  ok (record {
    free_usd = free;
    bonus_usd = bonus;
    paid_usd = paid;
    free_requests = plan.free_requests;
  })

-- `_snapshot_from_hash` and `_snapshot_from_conflict`
unfoldable pub snapshot_from_hash : BalanceHash → BalanceSnapshot
snapshot_from_hash b = record {
  view = record {
    free_usd = micros_to_money b.free_usd;
    bonus_usd = micros_to_money b.bonus_usd;
    paid_usd = micros_to_money b.paid_usd;
    free_requests = b.free_requests;
  };
  version = b.version;
}

unfoldable pub plan_from_fields : Amounts → DebitPlan
plan_from_fields p = record {
  free_usd = micros_to_money p.free_usd;
  bonus_usd = micros_to_money p.bonus_usd;
  paid_usd = micros_to_money p.paid_usd;
  free_requests = p.free_requests;
}

-- `text or None`
abbrev pub non_empty : Option String → Option String
non_empty none = none
non_empty (some text) = if str_eq text "" then none else some text

-- `_optional_micros`. The decimal string of a number is never empty, so zero stays.
abbrev pub optional_micros : Option ℤ → Option Decimal
optional_micros none = none
optional_micros (some micros) = some (micros_to_money micros)

-- `_record_from_fields`
unfoldable pub record_from_fields : GenerationHash → GenerationRecord
unfolding plan_from_fields
record_from_fields g = record {
  status = g.status;
  user_id = g.user_id;
  dialog_id = g.dialog_id;
  model_name = g.model_name;
  plan = plan_from_fields g.plan;
  authorized_cost_usd = micros_to_money g.authorized_cost_usd;
  started_at = g.started_at;
  content = non_empty g.content;
  billed_cost_usd = optional_micros g.billed_cost_usd;
  provider_billed_cost_usd = g.provider_billed_cost_usd;
  refunded_surplus_usd = optional_micros g.refunded_surplus_usd;
  error = non_empty g.error;
}

-- The `match reply[0]` of `reserve`: a duplicate with the caller's token is its own landed call.
unfoldable pub reserve_outcome : ℕ → ReserveReply → ReserveOutcome
unfolding snapshot_from_hash record_from_fields
reserve_outcome token (ReserveReply.ok version) = ReserveOutcome.reserved
reserve_outcome token (ReserveReply.conflict b) = ReserveOutcome.conflict (snapshot_from_hash b)
reserve_outcome token ReserveReply.missing = ReserveOutcome.missing
reserve_outcome token (ReserveReply.dup g) =
    if g.reservation_token == token
    then ReserveOutcome.reserved
    else ReserveOutcome.duplicate (record_from_fields g)

unfoldable pub settle_outcome : SettleReply → SettleOutcome
settle_outcome SettleReply.ok = SettleOutcome.applied
settle_outcome SettleReply.done = SettleOutcome.already_applied
settle_outcome SettleReply.missing = SettleOutcome.missing
settle_outcome SettleReply.stale = SettleOutcome.stale

unfoldable pub refund_outcome : RefundReply → RefundOutcome
refund_outcome RefundReply.ok = RefundOutcome.applied
refund_outcome RefundReply.missing = RefundOutcome.missing
refund_outcome RefundReply.stale = RefundOutcome.stale

unfoldable pub top_up_outcome : TopUpReply → TopUpOutcome
top_up_outcome TopUpReply.ok = TopUpOutcome.applied
top_up_outcome TopUpReply.missing = TopUpOutcome.missing
top_up_outcome TopUpReply.dup = TopUpOutcome.already_applied
