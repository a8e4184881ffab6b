-- ===== src/Redis/Generations.antt =====
-- The life of a generation record: running, then done or failed, and nothing after that.
use generation_balance_servi.Base.{
  ℕ, ◌≡◌, ◌≢◌, refl, ◌⊎◌, inl, inr, Bool-cases, ◌==◌, ◌==ℤ◌, Option, none, some, Option-cases, List,
  [], ◌∷◌, Dict, lookup, insert, lookup-insert, lookup-erase, arith,
}
use generation_balance_servi.Redis.State.{Status, Redis, GenerationHash}
use generation_balance_servi.Redis.Scripts.{
  ReserveArgs, SettleArgs, RefundArgs, new_record, has_surplus, reserve, settle_by_status, settle,
  refund_by_status, refund, top_up, seed_if_absent, advance_version, release_load_lock, clear_dirty,
}
use generation_balance_servi.Redis.CallData.{Call}
use generation_balance_servi.Redis.Calls.{exec, run, acquire_load_lock, forget_inflight}
use generation_balance_servi.Redis.Versions.{All}

-- The fields that RESERVE writes and nothing overwrites.
pub record SameReservation (g g' : GenerationHash) : Type 0 where
  pub user : g'.user_id ≡ g.user_id
  pub dialog : g'.dialog_id ≡ g.dialog_id
  pub model : g'.model_name ≡ g.model_name
  pub plan : g'.plan ≡ g.plan
  pub cost : g'.authorized_cost_usd ≡ g.authorized_cost_usd
  pub started : g'.started_at ≡ g.started_at
  pub token : g'.reservation_token ≡ g.reservation_token

-- A record stays, keeps its reservation, and changes at most by leaving `running`.
abbrev pub Progress : Option GenerationHash → Option GenerationHash → Type 0
Progress none o = Unit
Progress (some g) none = ⊥
Progress (some g) (some g') =
    SameReservation g g' × ((g' ≡ g) ⊎ ((g.status ≡ Status.running) × (g'.status ≢ Status.running)))

SameReservation-refl : (g : GenerationHash) → SameReservation g g
SameReservation-refl g = record {
  user = refl;
  dialog = refl;
  model = refl;
  plan = refl;
  cost = refl;
  started = refl;
  token = refl;
}

pub Progress-refl : (o : Option GenerationHash) → Progress o o
Progress-refl none = tt
Progress-refl (some g) = (SameReservation-refl g, inl refl)

status_trans :
    (g g' g'' : GenerationHash)
    → (g' ≡ g) ⊎ ((g.status ≡ Status.running) × (g'.status ≢ Status.running))
    → (g'' ≡ g') ⊎ ((g'.status ≡ Status.running) × (g''.status ≢ Status.running))
    → (g'' ≡ g) ⊎ ((g.status ≡ Status.running) × (g''.status ≢ Status.running))
status_trans g g' g'' (inl e) (inl f) = inl cc
status_trans g g' g'' (inl e) (inr (p, q)) = inr (cc, q)
status_trans g g' g'' (inr (p, q)) (inl f) = inr (p, λ h. q cc)
status_trans g g' g'' (inr (p, q)) (inr (p', q')) = absurd (q p')

pub Progress-trans : (o p q : Option GenerationHash) → Progress o p → Progress p q → Progress o q
Progress-trans none p q x y = tt
Progress-trans (some g) none q x y = absurd x
Progress-trans (some g) (some g') none x y = absurd y
Progress-trans (some g) (some g') (some g'') (s, x) (t, y) = (
  record {
    user = cc (s.user, t.user);
    dialog = cc (s.dialog, t.dialog);
    model = cc (s.model, t.model);
    plan = cc (s.plan, t.plan);
    cost = cc (s.cost, t.cost);
    started = cc (s.started, t.started);
    token = cc (s.token, t.token);
  },
  status_trans g g' g'' x y,
)

-- What one command does to the records.
data Change (d d' : Dict GenerationHash) : Type 0 where
  same : d' ≡ d → Change d d'
  new : (k : ℕ) (g : GenerationHash) → lookup k d ≡ none → d' ≡ insert k g d → Change d d'
  finish :
      (k : ℕ) (g g' : GenerationHash)
      → lookup k d ≡ some g
      → SameReservation g g'
      → g.status ≡ Status.running
      → g'.status ≢ Status.running
      → d' ≡ insert k g' d
      → Change d d'

reserve-Change : (a : ReserveArgs) (r : Redis) → Change r.generations (reserve a r).1.generations
unfolding reserve
reserve-Change a r = elim (Option-cases (lookup a.client_request_id r.generations)) [
  | inr (g, e) ↦ same (ground arith)
  | inl e ↦ elim (Option-cases (lookup a.user_id r.balances)) [
    | inl m ↦ same (ground arith)
    | inr (b, m) ↦ elim (Bool-cases (b.version ==ℤ a.expected_version)) [
      | inl v ↦ new a.client_request_id (new_record a) e (ground arith)
      | inr v ↦ same (ground arith)
    ]
  ]
]

settle-Change : (a : SettleArgs) (r : Redis) → Change r.generations (settle a r).1.generations
unfolding settle
settle-Change a r = elim (Option-cases (lookup a.client_request_id r.generations)) [
  | inl e ↦ same (ground arith)
  | inr (g, e) ↦ rw (e, settle) (by_status g.status g refl e)
]
  where
    settled : GenerationHash → GenerationHash
    settled g = record g {
      status = Status.done;
      content = some a.content;
      billed_cost_usd = some a.billed;
      provider_billed_cost_usd = some a.provider_billed;
      refunded_surplus_usd = some a.refunded_surplus;
      ttl = a.ttl;
    }

    keeps : (g : GenerationHash) → SameReservation g (settled g)
    keeps g = record {
      user = refl;
      dialog = refl;
      model = refl;
      plan = refl;
      cost = refl;
      started = refl;
      token = refl;
    }

    by_status :
        (s : Status) (g : GenerationHash)
        → g.status ≡ s
        → lookup a.client_request_id r.generations ≡ some g
        → Change r.generations (settle_by_status s a g r).1.generations
    by_status Status.done g p e = same refl
    by_status Status.failed g p e = same refl
    by_status Status.running g p e = elim (Bool-cases (has_surplus a)) [
      | inr none_left ↦
          finish a.client_request_id g (settled g) e (keeps g) p (λ q. cc) (ground arith)
      | inl left ↦ elim (Option-cases (lookup a.user_id r.balances)) [
        | inl m ↦ same (ground arith)
        | inr (b, m) ↦
            finish a.client_request_id g (settled g) e (keeps g) p (λ q. cc) (ground arith)
      ]
    ]

refund-Change : (a : RefundArgs) (r : Redis) → Change r.generations (refund a r).1.generations
unfolding refund
refund-Change a r = elim (Option-cases (lookup a.client_request_id r.generations)) [
  | inl e ↦ same (ground arith)
  | inr (g, e) ↦ rw (e, refund) (by_status g.status g refl e)
]
  where
    failed : GenerationHash → GenerationHash
    failed g = record g { status = Status.failed; error = some a.error; ttl = a.ttl }

    by_status :
        (s : Status) (g : GenerationHash)
        → g.status ≡ s
        → lookup a.client_request_id r.generations ≡ some g
        → Change r.generations (refund_by_status s a g r).1.generations
    by_status Status.done g p e = same refl
    by_status Status.failed g p e = same refl
    by_status Status.running g p e = elim (Option-cases (lookup a.user_id r.balances)) [
      | inl m ↦ same (ground arith)
      | inr (b, m) ↦
          finish a.client_request_id g (failed g) e
            (record {
              user = refl;
              dialog = refl;
              model = refl;
              plan = refl;
              cost = refl;
              started = refl;
              token = refl;
            })
            p (λ q. cc) (ground arith)
    ]

-- The commands that do not end the record's time to live.
abbrev pub Keeps : ℕ → Call → Type 0
Keeps id (Call.expire_generation other) = id ≢ other
Keeps id _ = Unit

Change-Progress :
    (id : ℕ) (d d' : Dict GenerationHash) → Change d d' → Progress (lookup id d) (lookup id d')
Change-Progress id d d' (same e) = rw e (Progress-refl (lookup id d))
Change-Progress id d d' (new k g l e) =
    rw (e, lookup-insert id k g d)
      (elim (Bool-cases (id == k)) [
        | inl here ↦ let at : lookup id d ≡ none = ground arith in rw here (rw at tt)
        | inr other ↦ rw other (Progress-refl (lookup id d))
      ])
Change-Progress id d d' (finish k g g' l s p q e) =
    rw (e, lookup-insert id k g' d)
      (elim (Bool-cases (id == k)) [
        | inl here ↦ let at : lookup id d ≡ some g = ground arith in rw here (rw at (s, inr (p, q)))
        | inr other ↦ rw other (Progress-refl (lookup id d))
      ])

pub exec-Progress :
    (id : ℕ) (c : Call) (r : Redis)
    → Keeps id c
    → Progress (lookup id r.generations) (lookup id (exec c r).generations)
unfolding exec top_up seed_if_absent advance_version acquire_load_lock release_load_lock clear_dirty
    forget_inflight
exec-Progress id (Call.reserve a) r k = Change-Progress id _ _ (reserve-Change a r)
exec-Progress id (Call.settle a) r k = Change-Progress id _ _ (settle-Change a r)
exec-Progress id (Call.refund a) r k = Change-Progress id _ _ (refund-Change a r)
exec-Progress id (Call.top_up a) r k = Change-Progress id _ _ (same (ground arith))
exec-Progress id (Call.seed_if_absent u b) r k = Change-Progress id _ _ (same (ground arith))
exec-Progress id (Call.advance_version u expected to) r k =
    Change-Progress id _ _ (same (ground arith))
exec-Progress id (Call.acquire_load_lock u token ttl) r k =
    Change-Progress id _ _ (same (ground arith))
exec-Progress id (Call.release_load_lock u token) r k = Change-Progress id _ _ (same (ground arith))
exec-Progress id (Call.clear_dirty u version) r k = Change-Progress id _ _ (same (ground arith))
exec-Progress id (Call.forget_inflight other) r k = Progress-refl _
exec-Progress id (Call.expire_generation other) r k =
    rw (lookup-erase id other r.generations) (elim (Bool-cases (id == other)) [
      | inl here ↦ absurd (k (ground arith))
      | inr apart ↦ rw apart (Progress-refl _)
    ])
exec-Progress id (Call.expire_top_up other) r k = Progress-refl _
exec-Progress id (Call.expire_load_lock u) r k = Progress-refl _

-- Along any commands, short of its own expiry, a generation record is never lost, keeps what its
-- reservation wrote, changes at most by leaving the status running, and does not change once it
-- has left it.
pub run-Progress :
    (id : ℕ) (calls : List Call) (r : Redis)
    → All (Keeps id) calls
    → Progress (lookup id r.generations) (lookup id (run calls r).generations)
unfolding run
run-Progress id [] r k = Progress-refl _
run-Progress id (c ∷ calls) r k =
    Progress-trans _ (lookup id (exec c r).generations) _ (exec-Progress id c r k.0)
      (run-Progress id calls (exec c r) k.1)
