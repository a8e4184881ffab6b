-- ===== src/Store/Recognises.antt =====
-- RESERVE, SETTLE, REFUND and TOP_UP recognise their own landed calls. ADVANCE_VERSION and the ZREM
-- of forget_inflight, which the adapter retries too, are not treated here.
use generation_balance_servi.Base.{
  ℕ, ◌≡◌, ◌≢◌, refl, ◌⊎◌, inl, inr, Bool-cases, ◌==ℤ◌, Option, none, some, Option-cases, ◌==◌, Dict,
  lookup, insert, lookup-insert, lookup-insert_self, lookup-erase, arith,
}
use generation_balance_servi.Redis.{
  Redis, Call, exec, Status, GenerationHash, TopUpMarker, ReserveArgs, SettleArgs, RefundArgs,
  TopUpArgs, reserve, settle, refund, has_surplus, new_record, settle_by_status, refund_by_status,
  top_up, seed_if_absent, advance_version, release_load_lock, clear_dirty, acquire_load_lock,
  forget_inflight,
}
use generation_balance_servi.Redis.Generations.{Progress, Keeps, exec-Progress}
use generation_balance_servi.Redis.Credits.{KeepsMarker}
use generation_balance_servi.Store.Retry.{RecognisesItself}

-- A record stands under the identifier.
abbrev pub HasRecord : ℕ → Redis → Type 0
HasRecord id r = (g : GenerationHash) × (lookup id r.generations ≡ some g)

-- A record stands under the identifier, and has left `running`.
abbrev pub IsFinished : ℕ → Redis → Type 0
IsFinished id r =
    (g : GenerationHash) × (lookup id r.generations ≡ some g) × (g.status ≢ Status.running)

HasRecord-Progress :
    (o o' : Option GenerationHash) (g : GenerationHash)
    → Progress o o'
    → o ≡ some g
    → (g' : GenerationHash) × (o' ≡ some g')
HasRecord-Progress none o' g p e = cc
HasRecord-Progress (some g₀) none g p e = absurd p
HasRecord-Progress (some g₀) (some g') g p e = (g', refl)

pub HasRecord-stable :
    (id : ℕ) (c : Call) (r : Redis) → Keeps id c → HasRecord id r → HasRecord id (exec c r)
HasRecord-stable id c r k (g, e) = HasRecord-Progress _ _ g (exec-Progress id c r k) e

IsFinished-Progress :
    (o o' : Option GenerationHash) (g : GenerationHash)
    → Progress o o'
    → o ≡ some g
    → g.status ≢ Status.running
    → (g' : GenerationHash) × (o' ≡ some g') × (g'.status ≢ Status.running)
IsFinished-Progress none o' g p e h = cc
IsFinished-Progress (some g₀) none g p e h = absurd p
IsFinished-Progress (some g₀) (some g') g p e h =
    (g', refl, elim p.1 [ inl same ↦ λ q. h cc | inr moved ↦ moved.1 ])

pub IsFinished-stable :
    (id : ℕ) (c : Call) (r : Redis) → Keeps id c → IsFinished id r → IsFinished id (exec c r)
IsFinished-stable id c r k (g, e, h) = IsFinished-Progress _ _ g (exec-Progress id c r k) e h

reserve_lands :
    (a : ReserveArgs) (r : Redis)
    → ((reserve a r).1 ≡ r) ⊎ HasRecord a.client_request_id (reserve a r).1
unfolding reserve
reserve_lands a r = elim (Option-cases (lookup a.client_request_id r.generations)) [
  | inr (g, e) ↦ inl (ground arith)
  | inl e ↦ elim (Option-cases (lookup a.user_id r.balances)) [
    | inl m ↦ inl (ground arith)
    | inr (b, m) ↦ elim (Bool-cases (b.version ==ℤ a.expected_version)) [
      | inr v ↦ inl (ground arith)
      | inl v ↦ inr (
        new_record a,
        ground (arith, lookup-insert_self a.client_request_id (new_record a) r.generations),
      )
    ]
  ]
]

settle_lands :
    (a : SettleArgs) (r : Redis)
    → ((settle a r).1 ≡ r) ⊎ IsFinished a.client_request_id (settle a r).1
unfolding settle
settle_lands a r = elim (Option-cases (lookup a.client_request_id r.generations)) [
  | inl e ↦ inl (ground arith)
  | inr (g, e) ↦ rw (e, settle) (by_status g.status g)
]
  where
    settled : GenerationHash → GenerationHash
    settled g = record g {
      status = Status.done;
      content = some a.content;
      billed_cost_usd = some a.billed;
      provider_billed_cost_usd = some a.provider_billed;
      refunded_surplus_usd = some a.refunded_surplus;
      ttl = a.ttl;
    }

    by_status :
        (s : Status) (g : GenerationHash)
        → ((settle_by_status s a g r).1 ≡ r)
          ⊎ IsFinished a.client_request_id (settle_by_status s a g r).1
    by_status Status.done g = inl refl
    by_status Status.failed g = inl refl
    by_status Status.running g = elim (Bool-cases (has_surplus a)) [
      | inr none_left ↦ inr (
        settled g,
        ground (arith, lookup-insert_self a.client_request_id (settled g) r.generations),
        λ q. cc,
      )
      | inl left ↦ elim (Option-cases (lookup a.user_id r.balances)) [
        | inl m ↦ inl (ground arith)
        | inr (b, m) ↦ inr (
          settled g,
          ground (arith, lookup-insert_self a.client_request_id (settled g) r.generations),
          λ q. cc,
        )
      ]
    ]

refund_lands :
    (a : RefundArgs) (r : Redis)
    → ((refund a r).1 ≡ r) ⊎ IsFinished a.client_request_id (refund a r).1
unfolding refund
refund_lands a r = elim (Option-cases (lookup a.client_request_id r.generations)) [
  | inl e ↦ inl (ground arith)
  | inr (g, e) ↦ rw (e, refund) (by_status g.status g)
]
  where
    failed : GenerationHash → GenerationHash
    failed g = record g { status = Status.failed; error = some a.error; ttl = a.ttl }

    by_status :
        (s : Status) (g : GenerationHash)
        → ((refund_by_status s a g r).1 ≡ r)
          ⊎ IsFinished a.client_request_id (refund_by_status s a g r).1
    by_status Status.done g = inl refl
    by_status Status.failed g = inl refl
    by_status Status.running g = elim (Option-cases (lookup a.user_id r.balances)) [
      | inl m ↦ inl (ground arith)
      | inr (b, m) ↦ inr (
        failed g,
        ground (arith, lookup-insert_self a.client_request_id (failed g) r.generations),
        λ q. cc,
      )
    ]

-- RESERVE changes nothing or leaves a record under its identifier; with a record there it changes
-- nothing; and the record stays under every command except its own expiry.
pub reserve-RecognisesItself :
    (a : ReserveArgs)
    → RecognisesItself (reserve a) (HasRecord a.client_request_id) (Keeps a.client_request_id)
unfolding reserve
reserve-RecognisesItself a = record {
  lands = reserve_lands a;
  absorbs = λ r l. let (g, e) = l in ground arith;
  stable = HasRecord-stable a.client_request_id;
}

-- SETTLE changes nothing or leaves the record finished; on a finished record it changes nothing;
-- and a finished record stays finished under every command except the record's own expiry.
pub settle-RecognisesItself :
    (a : SettleArgs)
    → RecognisesItself (settle a) (IsFinished a.client_request_id) (Keeps a.client_request_id)
unfolding settle
settle-RecognisesItself a = record {
  lands = settle_lands a;
  absorbs = λ r l. let (g, e, h) = l in ground arith;
  stable = IsFinished-stable a.client_request_id;
}

-- REFUND changes nothing or leaves the record finished; on a finished record it changes nothing;
-- and a finished record stays finished under every command except the record's own expiry.
pub refund-RecognisesItself :
    (a : RefundArgs)
    → RecognisesItself (refund a) (IsFinished a.client_request_id) (Keeps a.client_request_id)
unfolding refund
refund-RecognisesItself a = record {
  lands = refund_lands a;
  absorbs = λ r l. let (g, e, h) = l in ground arith;
  stable = IsFinished-stable a.client_request_id;
}

-- TOP_UP knows its call by the marker.
abbrev pub HasMarker : ℕ → Redis → Type 0
HasMarker id r = (t : TopUpMarker) × (lookup id r.top_ups ≡ some t)

top_up_lands :
    (a : TopUpArgs) (r : Redis) → ((top_up a r).1 ≡ r) ⊎ HasMarker a.operation_id (top_up a r).1
unfolding top_up
top_up_lands a r = elim (Option-cases (lookup a.operation_id r.top_ups)) [
  | inr (t, e) ↦ inl (ground arith)
  | inl e ↦ elim (Option-cases (lookup a.user_id r.balances)) [
    | inl m ↦ inl (ground arith)
    | inr (b, m) ↦
        let marker : TopUpMarker = record { user_id = a.user_id; ttl = a.ttl } in
        inr (marker, ground (arith, lookup-insert_self a.operation_id marker r.top_ups))
  ]
]

HasMarker-insert :
    (id k : ℕ) (t t' : TopUpMarker) (d : Dict TopUpMarker)
    → lookup id d ≡ some t
    → (t'' : TopUpMarker) × (lookup id (insert k t' d) ≡ some t'')
HasMarker-insert id k t t' d e = elim (Bool-cases (id == k)) [
  | inl here ↦ (t', ground (arith, lookup-insert id k t' d))
  | inr apart ↦ (t, ground (arith, lookup-insert id k t' d))
]

top_up_keeps : (id : ℕ) (a : TopUpArgs) (r : Redis) → HasMarker id r → HasMarker id (top_up a r).1
unfolding top_up
top_up_keeps id a r (t, e) = elim (Option-cases (lookup a.operation_id r.top_ups)) [
  | inr (t', e') ↦ (t, ground arith)
  | inl e' ↦ elim (Option-cases (lookup a.user_id r.balances)) [
    | inl m ↦ (t, ground arith)
    | inr (b, m) ↦
        let marker : TopUpMarker = record { user_id = a.user_id; ttl = a.ttl } in
        let (t', l) = HasMarker-insert id a.operation_id t marker r.top_ups e in (t', ground arith)
  ]
]

HasMarker-stable :
    (id : ℕ) (c : Call) (r : Redis) → KeepsMarker id c → HasMarker id r → HasMarker id (exec c r)
unfolding exec reserve settle refund seed_if_absent advance_version acquire_load_lock
    release_load_lock clear_dirty forget_inflight
HasMarker-stable id (Call.reserve a) r k (t, e) = (t, ground arith)
HasMarker-stable id (Call.settle a) r k (t, e) = (t, ground arith)
HasMarker-stable id (Call.refund a) r k (t, e) = (t, ground arith)
HasMarker-stable id (Call.top_up a) r k h = top_up_keeps id a r h
HasMarker-stable id (Call.seed_if_absent u b) r k (t, e) = (t, ground arith)
HasMarker-stable id (Call.advance_version u expected to) r k (t, e) = (t, ground arith)
HasMarker-stable id (Call.acquire_load_lock u token ttl) r k (t, e) = (t, ground arith)
HasMarker-stable id (Call.release_load_lock u token) r k (t, e) = (t, ground arith)
HasMarker-stable id (Call.clear_dirty u version) r k (t, e) = (t, ground arith)
HasMarker-stable id (Call.forget_inflight other) r k h = h
HasMarker-stable id (Call.expire_generation other) r k h = h
HasMarker-stable id (Call.expire_top_up other) r k (t, e) =
    (t, ground (arith, lookup-erase id other r.top_ups))
HasMarker-stable id (Call.expire_load_lock u) r k h = h

-- TOP_UP changes nothing or leaves the marker of its operation; with the marker there it changes
-- nothing; and the marker stays under every command except its own expiry.
pub top_up-RecognisesItself :
    (a : TopUpArgs)
    → RecognisesItself (top_up a) (HasMarker a.operation_id) (KeepsMarker a.operation_id)
unfolding top_up
top_up-RecognisesItself a = record {
  lands = top_up_lands a;
  absorbs = λ r l. let (t, e) = l in ground arith;
  stable = HasMarker-stable a.operation_id;
}
