-- ===== src/Billing/Steps.antt =====
-- Each call of a service on the store goes through commands of its own and of the others.
use generation_balance_servi.Base.{
  ap, [], ◌∷◌, ℕ, suc, ◌≡◌, refl, ℤ, if◌then◌else◌, none, some, Option-cases, inl, inr, List,
  lookup, lookup-insert_self, arith,
}
use generation_balance_servi.Errors.{Result, ok, raise}
use generation_balance_servi.Redis
use generation_balance_servi.Redis.{
  Redis, Call, exec, BalanceHash, ReserveArgs, SettleArgs, RefundArgs, TopUpArgs,
}
use generation_balance_servi.Redis.Traces.{Ran, Ran-refl, Ran-exec, HasBalance}
use generation_balance_servi.Store.{BalanceSnapshot, StoreConfig, Attempt, retrying, snapshot_args}
use generation_balance_servi.Store.Methods
use generation_balance_servi.Store.Running.{retrying-Ran, retrying-Answered}
use generation_balance_servi.Machine.{Machine, proceed, on_redis, pure}
use generation_balance_servi.Machine.Rules.{
  Setting, IsCalm, IsSchedule, Advance, Goes, Goes-after, Goes-map, proceed-Goes, Advance-refl,
  on_redis-Goes,
}
use generation_balance_servi.Billing.Remote.{
  reading, load, seed_if_absent, try_acquire_load_lock, release_load_lock, get_generation,
  stale_inflight, forget_inflight,
}
use generation_balance_servi.Billing.Calm.{
  with_args-IsCalm, map_result-IsCalm, retrying-IsCalm, snapshot_args-IsCalm,
}

-- The commands that the services give have the property.
pub record Admits (P : Call → Type 0) : Type 0 where
  pub reserve : (a : ReserveArgs) → P (Call.reserve a)
  pub settle : (a : SettleArgs) → P (Call.settle a)
  pub refund : (a : RefundArgs) → P (Call.refund a)
  pub top_up : (a : TopUpArgs) → P (Call.top_up a)
  pub seed_if_absent : (u : ℕ) (b : BalanceHash) → P (Call.seed_if_absent u b)
  pub acquire_load_lock : (u token ttl : ℕ) → P (Call.acquire_load_lock u token ttl)
  pub release_load_lock : (u token : ℕ) → P (Call.release_load_lock u token)
  pub forget_inflight : (id : ℕ) → P (Call.forget_inflight id)

module _ (c : Setting) where
  open c use {allowed}

  with_args-Ran {ℓ κ} :
      {A : Type ℓ} {B : Type κ} (x : Result A) (call : A → Redis → Result B × Redis) (r : Redis)
      → ((a : A) → Ran allowed r (call a r).1)
      → Ran allowed r (Methods.with_args x call r).1
  with_args-Ran (ok a) call r h = h a
  with_args-Ran (raise e) call r h = Ran-refl

  -- What is read is read from the keyspace that the call leaves.
  reading-Goes :
      {A : Type 0} (m : Machine) (f : Redis → A)
      → IsSchedule allowed m.schedule
      → Goes c m
          (λ a m'. (a ≡ f m'.world.redis) × (m'.history ≡ m'.world.redis ∷ m.history))
          (on_redis (reading f) m)
  reading-Goes m f s =
      on_redis-Goes c m _ (reading f) s (λ wire r w. retrying-Ran _ (λ r. Ran-refl) 1 wire r w)
        (λ wire r. retrying-IsCalm 1 wire (λ s. (f s, s)) r)
        (λ wire m' a r w h unmoved e.
          let (r', _, p, q) =
            retrying-Answered (λ r. (f r, r)) (λ r. Ran-refl) 1 wire m'.world.redis w e in
          (cc, ap (λ t. r ∷ t) unmoved))

  pub load-Goes :
      (u : ℕ) (m : Machine)
      → IsSchedule allowed m.schedule
      → Goes c m
          (λ s m'. (s ≡ Methods.load u m'.world.redis) × (m'.history ≡ m'.world.redis ∷ m.history))
          (load u m)
  unfolding load
  load-Goes u m s = reading-Goes m (Methods.load u) s

  pub get_generation-Goes :
      (id : ℕ) (m : Machine)
      → IsSchedule allowed m.schedule
      → Goes c m (λ g m'. g ≡ Methods.get_generation id m'.world.redis) (get_generation id m)
  unfolding get_generation
  get_generation-Goes id m s =
      Goes-map c m _ _ _ (reading-Goes m (Methods.get_generation id) s) (λ g m' h says. says.0)

  pub stale_inflight-Goes :
      (older_than : ℤ) (limit : ℕ) (m : Machine)
      → IsSchedule allowed m.schedule
      → Goes c m
          (λ ids m'.
            (ids ≡ Methods.stale_inflight older_than limit m'.world.redis)
            × (m'.history ≡ m'.world.redis ∷ m.history))
          (stale_inflight older_than limit m)
  unfolding stale_inflight
  stale_inflight-Goes older_than limit m s =
      reading-Goes m (Methods.stale_inflight older_than limit) s

  with_args-answer {ℓ κ} :
      {A : Type ℓ} {B : Type κ} (x : Result A) (call : A → Redis → Result B × Redis) (r : Redis)
      {b : B} {r' : Redis}
      → Methods.with_args x call r ≡ (ok b, r')
      → (a : A) × (x ≡ ok a) × (call a r ≡ (ok b, r'))
  with_args-answer (ok a) call r e = (a, refl, e)
  with_args-answer (raise e') call r e = absurd (ground arith)

  seed_if_absent-HasBalance :
      (u : ℕ) (b : BalanceHash) (r : Redis) → HasBalance u (Redis.seed_if_absent u b r).1
  unfolding Redis.seed_if_absent
  seed_if_absent-HasBalance u b r = elim (Option-cases (lookup u r.balances)) [
    | inl m ↦ (b, ground (arith, lookup-insert_self u b r.balances))
    | inr (b', m) ↦ (b', ground arith)
  ]

  mapped-answer {ℓ κ} :
      {A : Type ℓ} {B : Type κ} (f : A → B) (x : Result A × Redis) {b : B} {r' : Redis}
      → ◌≡◌ {A = Result B × Redis} (Methods.map_result f x.0, x.1) (ok b, r')
      → (a : A) × (x ≡ (ok a, r')) × (b ≡ f a)
  mapped-answer f (ok a, r) e = (a, ground arith, ground arith)
  mapped-answer f (raise e', r) e = absurd (ground arith)

  -- A retried method: what its script says of any state that it meets, the method says of the state
  -- that it leaves.
  pub retried-Goes :
      {A B C : Type 0} (m : Machine) (Q : C → Redis → Type 0) (limit : ℕ) (args : Result A)
      (script : A → Redis → B × Redis) (f : B → C)
      → IsSchedule allowed m.schedule
      → IsCalm args
      → ((a : A) (r : Redis) → Ran allowed r (script a r).1)
      → ((a : A) (r : Redis) → args ≡ ok a → Q (f (script a r).0) (script a r).1)
      → Goes c m
          (λ c m'. Q c m'.world.redis)
          (on_redis
            (λ wire.
              Methods.with_args args (λ a r.
                let x = retrying limit wire (script a) r in (Methods.map_result f x.0, x.1)))
            m)
  retried-Goes m Q limit args script f s calm runs post =
      on_redis-Goes c m _ _ s
        (λ wire r w. with_args-Ran args _ r (λ a. retrying-Ran (script a) (runs a) limit wire r w))
        (λ wire r.
          with_args-IsCalm args _ r calm
            (λ a. map_result-IsCalm f _ (retrying-IsCalm limit wire (script a) r)))
        (λ wire m' v r w h unmoved e.
          let (a, is_a, e₁) = with_args-answer args _ m'.world.redis e in
          let (b, e₂, is_v) = mapped-answer f (retrying limit wire (script a) m'.world.redis) e₁ in
          let (r', _, p, q) = retrying-Answered (script a) (runs a) limit wire _ w e₂ in
          rw (is_v, p, q) (post a r' is_a))

  pub token_taken :
      (m : Machine)
      → IsSchedule allowed m.schedule
      → Advance allowed m (record m { next_token = suc m.next_token })
  token_taken m s = record {
    clock = omega arith;
    tokens = omega arith;
    ran = Ran-refl;
    schedule = s;
    history = ([], refl);
  }

  module _ (own : Admits allowed) where
    pub seed_if_absent-Goes :
        (u : ℕ) (snapshot : BalanceSnapshot) (m : Machine)
        → IsSchedule allowed m.schedule
        → Goes c m (λ seeded m'. HasBalance u m'.world.redis) (seed_if_absent u snapshot m)
    unfolding seed_if_absent exec
    seed_if_absent-Goes u snapshot m s =
        let runs = λ (b : BalanceHash) (r : Redis).
          Ran-exec (Call.seed_if_absent u b) r (own.seed_if_absent u b) in
        on_redis-Goes c m _ _ s
          (λ wire r w.
            with_args-Ran (snapshot_args snapshot) _ r
              (λ b. retrying-Ran (Redis.seed_if_absent u b) (runs b) 1 wire r w))
          (λ wire r.
            with_args-IsCalm (snapshot_args snapshot) _ r (snapshot_args-IsCalm snapshot)
              (λ b. retrying-IsCalm 1 wire (Redis.seed_if_absent u b) r))
          (λ wire m' a r w h unmoved e.
            let (b, _, e₁) = with_args-answer (snapshot_args snapshot) _ m'.world.redis e in
            let (s', _, _, q) =
              retrying-Answered (Redis.seed_if_absent u b) (runs b) 1 wire _ w e₁ in
            rw q (seed_if_absent-HasBalance u b s'))

    pub try_acquire_load_lock-Goes :
        (store : StoreConfig) (u : ℕ) (m : Machine)
        → IsSchedule allowed m.schedule
        → Goes c m (λ token m'. Unit {0}) (try_acquire_load_lock store u m)
    unfolding try_acquire_load_lock exec
    try_acquire_load_lock-Goes store u m s =
        let m₁ = record m { next_token = suc m.next_token } in
        let acquire =
          λ (r : Redis). Redis.acquire_load_lock u m.next_token store.load_lock_ttl_ms r in
        let call = λ (wire : List Attempt). retrying 1 wire acquire in
        Goes-after c m m₁ (λ token m'. Unit {0})
          (proceed (on_redis call m₁)
            (λ acquired. pure (if acquired then some m.next_token else none)))
          (token_taken m s)
          (proceed-Goes c m₁ (λ acquired m'. Unit {0}) (λ token m'. Unit {0}) (on_redis call m₁) _
            (on_redis-Goes c m₁ _ call s
              (λ wire r w.
                retrying-Ran acquire
                  (λ r.
                    Ran-exec (Call.acquire_load_lock u m.next_token store.load_lock_ttl_ms) r
                      (own.acquire_load_lock u m.next_token store.load_lock_ttl_ms))
                  1 wire r w)
              (λ wire r. retrying-IsCalm 1 wire acquire r) (λ wire m' a r w h unmoved e. tt))
            (λ acquired m' h q. (Advance-refl allowed m' h.schedule, tt)))

    pub release_load_lock-Goes :
        (u token : ℕ) (m : Machine)
        → IsSchedule allowed m.schedule
        → Goes c m (λ released m'. Unit {0}) (release_load_lock u token m)
    unfolding release_load_lock exec
    release_load_lock-Goes u token m s =
        on_redis-Goes c m _ _ s
          (λ wire r w.
            retrying-Ran (Redis.release_load_lock u token)
              (λ r. Ran-exec (Call.release_load_lock u token) r (own.release_load_lock u token)) 1
              wire r w)
          (λ wire r. retrying-IsCalm 1 wire (Redis.release_load_lock u token) r)
          (λ wire m' a r w h unmoved e. tt)

    pub forget_inflight-Goes :
        (store : StoreConfig) (id : ℕ) (m : Machine)
        → IsSchedule allowed m.schedule
        → Goes c m (λ done m'. Unit {0}) (forget_inflight store id m)
    unfolding forget_inflight exec
    forget_inflight-Goes store id m s =
        on_redis-Goes c m _ _ s
          (λ wire r w.
            retrying-Ran (λ r. (tt {0}, Redis.forget_inflight id r))
              (λ r. Ran-exec (Call.forget_inflight id) r (own.forget_inflight id))
              store.retry_attempts wire r w)
          (λ wire r.
            retrying-IsCalm store.retry_attempts wire (λ r. (tt {0}, Redis.forget_inflight id r)) r)
          (λ wire m' a r w h unmoved e. tt)
