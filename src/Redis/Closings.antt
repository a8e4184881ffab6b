-- ===== src/Redis/Closings.antt =====
-- How often a generation is reserved, and how often its reservation is settled or refunded.
use generation_balance_servi.Base.{
  ℕ, ◌+◌, ◌≡◌, ◌≢◌, ◌≤◌, inl, inr, ◌==◌, ◌==ℤ◌, Bool-cases, if◌then◌else◌, Option, none, some,
  Option-cases, refl, List, [], ◌∷◌, Dict, insert, Bool, lookup, lookup-insert, lookup-erase, arith,
}
use generation_balance_servi.Redis.State.{Redis, Status, GenerationHash}
use generation_balance_servi.Redis.Scripts.{
  ReserveArgs, ReserveReply, SettleArgs, SettleReply, RefundArgs, RefundReply, new_record,
  has_surplus, reserve, settle, settle_running, settle_by_status, refund, refund_by_status, top_up,
  seed_if_absent, advance_version, release_load_lock, clear_dirty,
}
use generation_balance_servi.Redis.CallData.{Call}
use generation_balance_servi.Redis.Calls.{exec, run, acquire_load_lock, forget_inflight}
use generation_balance_servi.Redis.Versions.{All}
use generation_balance_servi.Redis.Generations.{Keeps}

abbrev reserve_ok : ReserveReply → ℕ
reserve_ok (ReserveReply.ok version) = 1
reserve_ok (ReserveReply.conflict b) = 0
reserve_ok ReserveReply.missing = 0
reserve_ok (ReserveReply.dup g) = 0

abbrev settle_ok : SettleReply → ℕ
settle_ok SettleReply.ok = 1
settle_ok SettleReply.done = 0
settle_ok SettleReply.stale = 0
settle_ok SettleReply.missing = 0

abbrev refund_ok : RefundReply → ℕ
refund_ok RefundReply.ok = 1
refund_ok RefundReply.stale = 0
refund_ok RefundReply.missing = 0

-- Whether a command is a RESERVE of the generation that replies OK.
abbrev pub opens : ℕ → Call → Redis → ℕ
opens id (Call.reserve a) r = if id == a.client_request_id then reserve_ok (reserve a r).0 else 0
opens id _ r = 0

-- Whether a command is a SETTLE or a REFUND of the generation that replies OK.
abbrev pub closes : ℕ → Call → Redis → ℕ
closes id (Call.settle a) r = if id == a.client_request_id then settle_ok (settle a r).0 else 0
closes id (Call.refund a) r = if id == a.client_request_id then refund_ok (refund a r).0 else 0
closes id _ r = 0

abbrev pub opened : ℕ → List Call → Redis → ℕ
opened id [] r = 0
opened id (c ∷ calls) r = opens id c r + opened id calls (exec c r)

abbrev pub closed : ℕ → List Call → Redis → ℕ
closed id [] r = 0
closed id (c ∷ calls) r = closes id c r + closed id calls (exec c r)

abbrev count_record : Option GenerationHash → ℕ
count_record none = 0
count_record (some g) = 1

abbrev count_status : Status → ℕ
count_status Status.running = 0
count_status Status.done = 1
count_status Status.failed = 1

abbrev count_finished : Option GenerationHash → ℕ
count_finished none = 0
count_finished (some g) = count_status g.status

-- One if the generation has a record, and one if that has left `running`; zero otherwise.
abbrev pub recorded : ℕ → Redis → ℕ
recorded id r = count_record (lookup id r.generations)

abbrev pub finished : ℕ → Redis → ℕ
finished id r = count_finished (lookup id r.generations)

abbrev Tally : ℕ → Call → Redis → Redis → Type 0
Tally id c r r' =
    (recorded id r' ≡ recorded id r + opens id c r)
    × (finished id r' ≡ finished id r + closes id c r)

reserve-Tally : (id : ℕ) (a : ReserveArgs) (r : Redis) → Tally id (Call.reserve a) r (reserve a r).1
unfolding reserve
reserve-Tally id a r = elim (Option-cases (lookup a.client_request_id r.generations)) [
  | inr (g, e) ↦ (ground arith, ground arith)
  | inl e ↦ elim (Option-cases (lookup a.user_id r.balances)) [
    | inl m ↦ (ground arith, ground arith)
    | inr (b, m) ↦ elim (Bool-cases (b.version ==ℤ a.expected_version)) [
      | inr v ↦ (ground arith, ground arith)
      | inl v ↦
          let new = lookup-insert id a.client_request_id (new_record a) r.generations in
          (ground (arith, new), ground (arith, new))
    ]
  ]
]

-- A running record that is finished.
finish-Tally :
    (id k : ℕ) (g g' : GenerationHash) (d : Dict GenerationHash)
    → lookup k d ≡ some g
    → g.status ≡ Status.running
    → count_status g'.status ≡ 1
    → (count_record (lookup id (insert k g' d)) ≡ count_record (lookup id d) + 0)
      × (count_finished (lookup id (insert k g' d))
          ≡ count_finished (lookup id d) + (if id == k then 1 else 0))
finish-Tally id k g g' d e running done = elim (Bool-cases (id == k)) [
  | inl here ↦
      let same : id ≡ k = ground arith in
      let at : lookup id d ≡ some g = rw same e in
      rw (lookup-insert id k g' d, here, at, running, done) (refl, refl)
  | inr apart ↦ rw (lookup-insert id k g' d, apart) (omega arith, omega arith)
]

-- A call that changes nothing and does not reply OK.
same-Tally : (x : Bool) (m n : ℕ) → (m ≡ m + 0) × (n ≡ n + (if x then 0 else 0))
same-Tally x m n = (omega arith, ground arith)

settle-Tally : (id : ℕ) (a : SettleArgs) (r : Redis) → Tally id (Call.settle a) r (settle a r).1
unfolding settle settle_running
settle-Tally id a r = elim (Option-cases (lookup a.client_request_id r.generations)) [
  | inl e ↦ rw (e, settle) (same-Tally (id == a.client_request_id) _ _)
  | inr (g, e) ↦ rw (e, settle) (by_status g.status g e refl)
]
  where
    by_status :
        (s : Status) (g : GenerationHash)
        → lookup a.client_request_id r.generations ≡ some g
        → g.status ≡ s
        → let x = settle_by_status s a g r in
          (recorded id x.1 ≡ recorded id r + 0)
          × (finished id x.1
              ≡ finished id r + (if id == a.client_request_id then settle_ok x.0 else 0))
    by_status Status.done g e st = same-Tally (id == a.client_request_id) _ _
    by_status Status.failed g e st = same-Tally (id == a.client_request_id) _ _
    by_status Status.running g e st = elim (Bool-cases (has_surplus a)) [
      | inr none_left ↦
          rw (none_left, settle_running)
            (finish-Tally id a.client_request_id g _ r.generations e st refl)
      | inl some_left ↦ elim (Option-cases (lookup a.user_id r.balances)) [
        | inl m ↦ rw (some_left, settle_running, m) (same-Tally (id == a.client_request_id) _ _)
        | inr (b, m) ↦
            rw (some_left, settle_running, m)
              (finish-Tally id a.client_request_id g _ r.generations e st refl)
      ]
    ]

refund-Tally : (id : ℕ) (a : RefundArgs) (r : Redis) → Tally id (Call.refund a) r (refund a r).1
unfolding refund
refund-Tally id a r = elim (Option-cases (lookup a.client_request_id r.generations)) [
  | inl e ↦ rw (e, refund) (same-Tally (id == a.client_request_id) _ _)
  | inr (g, e) ↦ rw (e, refund) (by_status g.status g e refl)
]
  where
    by_status :
        (s : Status) (g : GenerationHash)
        → lookup a.client_request_id r.generations ≡ some g
        → g.status ≡ s
        → let x = refund_by_status s a g r in
          (recorded id x.1 ≡ recorded id r + 0)
          × (finished id x.1
              ≡ finished id r + (if id == a.client_request_id then refund_ok x.0 else 0))
    by_status Status.done g e st = same-Tally (id == a.client_request_id) _ _
    by_status Status.failed g e st = same-Tally (id == a.client_request_id) _ _
    by_status Status.running g e st = elim (Option-cases (lookup a.user_id r.balances)) [
      | inl m ↦ rw (m, refund_by_status) (same-Tally (id == a.client_request_id) _ _)
      | inr (b, m) ↦
          rw (m, refund_by_status) (finish-Tally id a.client_request_id g _ r.generations e st refl)
    ]

exec-Tally : (id : ℕ) (c : Call) (r : Redis) → Keeps id c → Tally id c r (exec c r)
unfolding exec top_up seed_if_absent advance_version acquire_load_lock release_load_lock clear_dirty
    forget_inflight
exec-Tally id (Call.reserve a) r k = reserve-Tally id a r
exec-Tally id (Call.settle a) r k = settle-Tally id a r
exec-Tally id (Call.refund a) r k = refund-Tally id a r
exec-Tally id (Call.top_up a) r k = (ground arith, ground arith)
exec-Tally id (Call.seed_if_absent u b) r k = (ground arith, ground arith)
exec-Tally id (Call.advance_version u expected to) r k = (ground arith, ground arith)
exec-Tally id (Call.acquire_load_lock u token ttl) r k = (ground arith, ground arith)
exec-Tally id (Call.release_load_lock u token) r k = (ground arith, ground arith)
exec-Tally id (Call.clear_dirty u version) r k = (ground arith, ground arith)
exec-Tally id (Call.forget_inflight other) r k = (omega arith, omega arith)
exec-Tally id (Call.expire_generation other) r k =
    let e = lookup-erase id other r.generations in (ground (arith, e), ground (arith, e))
exec-Tally id (Call.expire_top_up other) r k = (omega arith, omega arith)
exec-Tally id (Call.expire_load_lock u) r k = (omega arith, omega arith)

-- Along any commands, short of its own expiry, a generation is reserved so often as its record came
-- up, and settled or refunded so often as its record left `running`: at most once each.
pub run-tally :
    (id : ℕ) (calls : List Call) (r : Redis)
    → All (Keeps id) calls
    → (recorded id (run calls r) ≡ recorded id r + opened id calls r)
      × (finished id (run calls r) ≡ finished id r + closed id calls r)
unfolding run
run-tally id [] r h = (omega arith, omega arith)
run-tally id (c ∷ calls) r (k, h) =
    let (o, f) = exec-Tally id c r k in
    let (o', f') = run-tally id calls (exec c r) h in (omega (arith, o, o'), omega (arith, f, f'))

finished_bound : (id : ℕ) (r : Redis) → (recorded id r ≤ 1) × (finished id r ≤ recorded id r)
finished_bound id r = elim (Option-cases (lookup id r.generations)) [
  | inl e ↦ (ground arith, ground arith)
  | inr (g, e) ↦ (ground arith, by_status g.status g refl e)
]
  where
    by_status :
        (s : Status) (g : GenerationHash)
        → g.status ≡ s
        → lookup id r.generations ≡ some g
        → finished id r ≤ recorded id r
    by_status Status.running g st e = rw (e, st) (omega arith)
    by_status Status.done g st e = rw (e, st) (omega arith)
    by_status Status.failed g st e = rw (e, st) (omega arith)

-- Along any commands, short of its own expiry, a generation is reserved at most once, counting a
-- record at the start, and its reservation is settled or refunded at most once, and never before it
-- is reserved, counting a finished record at the start.
pub closes_once :
    (id : ℕ) (calls : List Call) (r : Redis)
    → All (Keeps id) calls
    → (recorded id r + opened id calls r ≤ 1)
      × (finished id r + closed id calls r ≤ recorded id r + opened id calls r)
closes_once id calls r h =
    let (o, f) = run-tally id calls r h in
    let (b, l) = finished_bound id (run calls r) in (omega (arith, o, b), omega (arith, o, f, l))

-- What a finished record counts.
pub finished_counts :
    (id : ℕ) (r : Redis) (g : GenerationHash)
    → lookup id r.generations ≡ some g
    → g.status ≢ Status.running
    → (recorded id r ≡ 1) × (finished id r ≡ 1)
finished_counts id r g e n = (ground arith, by_status g.status g refl e n)
  where
    by_status :
        (s : Status) (g : GenerationHash)
        → g.status ≡ s
        → lookup id r.generations ≡ some g
        → g.status ≢ Status.running
        → finished id r ≡ 1
    by_status Status.running g st e n = absurd (n st)
    by_status Status.done g st e n = rw (e, st) refl
    by_status Status.failed g st e n = rw (e, st) refl
