-- ===== src/Redis/Scripts.antt =====
-- The Lua scripts, one function each: the reply and the new keyspace.
use generation_balance_servi.Base.{
  ℕ, Bool, true, false, ◌==◌, ◌||◌, not, if◌then◌else◌, ℤ, pos, ◌+ℤ◌, ◌-ℤ◌, ◌==ℤ◌, String, none,
  some, lookup, insert, erase,
}
use generation_balance_servi.Redis.State.{
  Status, BalanceHash, Amounts, GenerationHash, Redis, sadd, srem,
}

pub data ReserveReply : Type 0 where
  dup : GenerationHash → ReserveReply
  missing : ReserveReply
  conflict : BalanceHash → ReserveReply
  ok : ℤ → ReserveReply

pub record ReserveArgs : Type 0 where
  pub expected_version : ℤ
  pub user_id : ℕ
  pub dialog_id : ℕ
  pub model_name : String
  pub plan : Amounts
  pub authorized_cost : ℤ
  pub started_at : ℤ
  pub ttl : ℕ
  pub client_request_id : ℕ
  pub reservation_token : ℕ

-- The four `HINCRBY` with a negated amount, and the one on `version`. `neg` makes a number of an
-- amount that is not negative, as those of an authorized plan are.
abbrev pub debit : Amounts → BalanceHash → BalanceHash
debit plan b = record {
  free_usd = b.free_usd -ℤ plan.free_usd;
  bonus_usd = b.bonus_usd -ℤ plan.bonus_usd;
  paid_usd = b.paid_usd -ℤ plan.paid_usd;
  free_requests = b.free_requests -ℤ plan.free_requests;
  version = b.version +ℤ pos 1;
}

-- The `HINCRBY` of SETTLE, REFUND and TOP_UP; one that a script leaves out adds zero.
abbrev pub credit : Amounts → BalanceHash → BalanceHash
credit plan b = record {
  free_usd = b.free_usd +ℤ plan.free_usd;
  bonus_usd = b.bonus_usd +ℤ plan.bonus_usd;
  paid_usd = b.paid_usd +ℤ plan.paid_usd;
  free_requests = b.free_requests +ℤ plan.free_requests;
  version = b.version +ℤ pos 1;
}

abbrev pub new_record : ReserveArgs → GenerationHash
new_record a = record {
  status = Status.running;
  user_id = a.user_id;
  dialog_id = a.dialog_id;
  model_name = a.model_name;
  plan = a.plan;
  authorized_cost_usd = a.authorized_cost;
  started_at = a.started_at;
  reservation_token = a.reservation_token;
  content = none;
  billed_cost_usd = none;
  provider_billed_cost_usd = none;
  refunded_surplus_usd = none;
  error = none;
  ttl = a.ttl;
}

-- RESERVE
unfoldable pub reserve : ReserveArgs → Redis → ReserveReply × Redis
reserve a r = elim (lookup a.client_request_id r.generations) [
  | some g ↦ (ReserveReply.dup g, r)
  | none ↦ elim (lookup a.user_id r.balances) [
    | none ↦ (ReserveReply.missing, r)
    | some b ↦
        if b.version ==ℤ a.expected_version
        then (
          ReserveReply.ok (b.version +ℤ pos 1),
          record r {
            balances = insert a.user_id (debit a.plan b) r.balances;
            generations = insert a.client_request_id (new_record a) r.generations;
            inflight = insert a.client_request_id a.started_at r.inflight;
            dirty = sadd a.user_id r.dirty;
          },
        )
        else (ReserveReply.conflict b, r)
  ]
]

pub data SettleReply : Type 0 where
  done stale missing ok : SettleReply

pub record SettleArgs : Type 0 where
  pub content : String
  pub billed : ℤ
  pub provider_billed : ℤ
  pub ttl : ℕ
  pub client_request_id : ℕ
  pub user_id : ℕ
  pub refund_free : ℤ
  pub refund_bonus : ℤ
  pub refund_paid : ℤ
  pub refunded_surplus : ℤ

abbrev pub surplus : SettleArgs → Amounts
surplus a = record {
  free_usd = a.refund_free;
  bonus_usd = a.refund_bonus;
  paid_usd = a.refund_paid;
  free_requests = pos 0;
}

abbrev pub has_surplus : SettleArgs → Bool
has_surplus a =
    not (a.refund_free ==ℤ pos 0) || not (a.refund_bonus ==ℤ pos 0) || not (a.refund_paid ==ℤ pos 0)

-- The `HSET`, `EXPIRE` and `ZREM` that end SETTLE.
abbrev pub mark_done : SettleArgs → GenerationHash → Redis → Redis
mark_done a g r = record r {
  generations =
      insert a.client_request_id
        (record g {
          status = Status.done;
          content = some a.content;
          billed_cost_usd = some a.billed;
          provider_billed_cost_usd = some a.provider_billed;
          refunded_surplus_usd = some a.refunded_surplus;
          ttl = a.ttl;
        })
        r.generations;
  inflight = erase a.client_request_id r.inflight;
}

-- SETTLE of a record that is running.
unfoldable pub settle_running : SettleArgs → GenerationHash → Redis → SettleReply × Redis
settle_running a g r =
    if has_surplus a
    then elim (lookup a.user_id r.balances) [
      | none ↦ (SettleReply.missing, r)
      | some b ↦ (
        SettleReply.ok,
        mark_done a g (record r {
          balances = insert a.user_id (credit (surplus a) b) r.balances;
          dirty = sadd a.user_id r.dirty;
        }),
      )
    ]
    else (SettleReply.ok, mark_done a g r)

abbrev pub settle_by_status : Status → SettleArgs → GenerationHash → Redis → SettleReply × Redis
settle_by_status Status.done a g r = (SettleReply.done, r)
settle_by_status Status.failed a g r = (SettleReply.stale, r)
settle_by_status Status.running a g r = settle_running a g r

-- SETTLE
unfoldable pub settle : SettleArgs → Redis → SettleReply × Redis
unfolding settle_running
settle a r = elim (lookup a.client_request_id r.generations) [
  | none ↦ (SettleReply.stale, r)
  | some g ↦ settle_by_status g.status a g r
]

pub data RefundReply : Type 0 where
  stale missing ok : RefundReply

pub record RefundArgs : Type 0 where
  pub user_id : ℕ
  pub error : String
  pub ttl : ℕ
  pub client_request_id : ℕ
  pub plan : Amounts

abbrev pub refund_by_status : Status → RefundArgs → GenerationHash → Redis → RefundReply × Redis
refund_by_status Status.done a g r = (RefundReply.stale, r)
refund_by_status Status.failed a g r = (RefundReply.stale, r)
refund_by_status Status.running a g r = elim (lookup a.user_id r.balances) [
  | none ↦ (RefundReply.missing, r)
  | some b ↦ (
    RefundReply.ok,
    record r {
      balances = insert a.user_id (credit a.plan b) r.balances;
      generations =
          insert a.client_request_id
            (record g { status = Status.failed; error = some a.error; ttl = a.ttl }) r.generations;
      inflight = erase a.client_request_id r.inflight;
      dirty = sadd a.user_id r.dirty;
    },
  )
]

-- REFUND
unfoldable pub refund : RefundArgs → Redis → RefundReply × Redis
refund a r = elim (lookup a.client_request_id r.generations) [
  | none ↦ (RefundReply.stale, r)
  | some g ↦ refund_by_status g.status a g r
]

pub data TopUpReply : Type 0 where
  dup missing ok : TopUpReply

pub record TopUpArgs : Type 0 where
  pub operation_id : ℕ
  pub user_id : ℕ
  pub ttl : ℕ
  pub paid : ℤ
  pub bonus : ℤ
  pub free_requests : ℤ

abbrev pub topped : TopUpArgs → Amounts
topped a = record {
  free_usd = pos 0;
  bonus_usd = a.bonus;
  paid_usd = a.paid;
  free_requests = a.free_requests;
}

-- TOP_UP
unfoldable pub top_up : TopUpArgs → Redis → TopUpReply × Redis
top_up a r = elim (lookup a.operation_id r.top_ups) [
  | some _ ↦ (TopUpReply.dup, r)
  | none ↦ elim (lookup a.user_id r.balances) [
    | none ↦ (TopUpReply.missing, r)
    | some b ↦ (
      TopUpReply.ok,
      record r {
        balances = insert a.user_id (credit (topped a) b) r.balances;
        top_ups = insert a.operation_id (record { user_id = a.user_id; ttl = a.ttl }) r.top_ups;
        dirty = sadd a.user_id r.dirty;
      },
    )
  ]
]

-- SEED_IF_ABSENT
unfoldable pub seed_if_absent : ℕ → BalanceHash → Redis → Bool × Redis
seed_if_absent user_id b r = elim (lookup user_id r.balances) [
  | some _ ↦ (false, r)
  | none ↦ (true, record r { balances = insert user_id b r.balances })
]

-- ADVANCE_VERSION
unfoldable pub advance_version : ℕ → ℤ → ℤ → Redis → Bool × Redis
advance_version user_id expected to r = elim (lookup user_id r.balances) [
  | none ↦ (false, r)
  | some b ↦
      if b.version ==ℤ expected
      then (
        true,
        record r {
          balances = insert user_id (record b { version = to }) r.balances;
          dirty = sadd user_id r.dirty;
        },
      )
      else (false, r)
]

-- RELEASE_LOAD_LOCK
unfoldable pub release_load_lock : ℕ → ℕ → Redis → Bool × Redis
release_load_lock user_id token r = elim (lookup user_id r.load_locks) [
  | none ↦ (false, r)
  | some l ↦
      if l.token == token
      then (true, record r { load_locks = erase user_id r.load_locks })
      else (false, r)
]

-- CLEAR_DIRTY
unfoldable pub clear_dirty : ℕ → ℤ → Redis → Bool × Redis
clear_dirty user_id version r =
    let cleared : Bool × Redis = (true, record r { dirty = srem user_id r.dirty }) in
    elim (lookup user_id r.balances) [
      | none ↦ cleared
      | some b ↦ if b.version ==ℤ version then cleared else (false, r)
    ]
