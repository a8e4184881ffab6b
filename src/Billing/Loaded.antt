-- ===== src/Billing/Loaded.antt =====
-- Loading a balance ends, and what is returned was the balance in Redis.
use generation_balance_servi.Base.{
  sym, subst, List, ◌∷◌, ℕ, zero, suc, ◌+◌, ◌≤◌, ◌≡◌, refl, ◌⊎◌, Bool-cases, inl, inr, ltb, Option,
  Option-cases, none, some, lookup, arith,
}
use generation_balance_servi.Errors.{balance_contention}
use generation_balance_servi.Redis.{Redis, Call}
use generation_balance_servi.Redis.Traces.{Ran, Ran-refl, Ran-trans, HasBalance, Ran-HasBalance}
use generation_balance_servi.Store.{BalanceSnapshot, snapshot_from_hash}
use generation_balance_servi.Store.Methods
use generation_balance_servi.Machine.{Machine, M, ended, sleep}
use generation_balance_servi.Machine.Rules.{
  Setting, IsSchedule, Met, Met-Grown, Advance, Advance-refl, Goes, Goes-map, proceed-Goes,
  finally-Goes, next-Advance, sleep-Goes,
}
use generation_balance_servi.Billing.Configs.{Config}
use generation_balance_servi.Billing.Remote.{
  load, seed_if_absent, try_acquire_load_lock, release_load_lock,
}
use generation_balance_servi.Billing.Loader.{
  load_from_db, seed_unless_loaded, load_or_seed, return_or, with_lock, load_turn, load_turns,
  ensure_loaded,
}
use generation_balance_servi.Billing.Steps.{
  Admits, load-Goes, seed_if_absent-Goes, try_acquire_load_lock-Goes, release_load_lock-Goes,
}

-- The snapshot was the user's balance in a keyspace of the history, from which this one comes.
abbrev pub WasLoaded : (Call → Type 0) → ℕ → BalanceSnapshot → Machine → Type 0
WasLoaded P u s m' =
    (r : Redis) × Met r m'.history × (some s ≡ Methods.load u r) × Ran P r m'.world.redis

-- What a load answers, and that its keyspace is in the history.
abbrev JustLoaded : ℕ → Option BalanceSnapshot → Machine → Type 0
JustLoaded u o m = (o ≡ Methods.load u m.world.redis) × Met m.world.redis m.history

load-JustLoaded :
    (u : ℕ) (o : Option BalanceSnapshot) (m : Machine) {h : List Redis}
    → (o ≡ Methods.load u m.world.redis) × (m.history ≡ m.world.redis ∷ h)
    → JustLoaded u o m
load-JustLoaded u o m (e, now) = (e, subst (Met m.world.redis) (sym now) (inl refl))

load-HasBalance :
    (u : ℕ) (r : Redis) {s : BalanceSnapshot} → some s ≡ Methods.load u r → HasBalance u r
unfolding Methods.load
load-HasBalance u r e = elim (Option-cases (lookup u r.balances)) [
  | inl m ↦ cc (rw m at e)
  | inr found ↦ found
]

not_missing : {o : Option BalanceSnapshot} {s : BalanceSnapshot} → none ≡ o → o ≡ some s → ⊥
not_missing e f = cc

load-some :
    (u : ℕ) (r : Redis) → HasBalance u r → (s : BalanceSnapshot) × (Methods.load u r ≡ some s)
unfolding Methods.load
load-some u r (b, e) = (snapshot_from_hash b, rw e refl)

module _ (c : Setting) where
  open c use {allowed}

  pub WasLoaded-HasBalance :
      (u : ℕ) (s : BalanceSnapshot) (m : Machine)
      → WasLoaded allowed u s m
      → HasBalance u m.world.redis
  WasLoaded-HasBalance u s m (r₀, met, e, x) =
      Ran-HasBalance u r₀ m.world.redis x (load-HasBalance u r₀ e)

  abbrev LoadedOrSeeded : ℕ → Option BalanceSnapshot → Machine → Type 0
  LoadedOrSeeded u none m = HasBalance u m.world.redis
  LoadedOrSeeded u (some s) m = WasLoaded allowed u s m

  LoadedOrSeeded-later :
      (u : ℕ) (o : Option BalanceSnapshot) (m m' : Machine)
      → Advance allowed m m'
      → LoadedOrSeeded u o m
      → LoadedOrSeeded u o m'
  LoadedOrSeeded-later u none m m' h b = Ran-HasBalance u m.world.redis m'.world.redis h.ran b
  LoadedOrSeeded-later u (some s) m m' h (r₀, met, e, y) =
      (r₀, Met-Grown r₀ m.history m'.history h.history met, e, Ran-trans y h.ran)

  load_from_db-Goes :
      (u : ℕ) (m : Machine)
      → IsSchedule allowed m.schedule
      → Goes c m (λ row m'. Unit {0}) (load_from_db u m)
  unfolding load_from_db
  load_from_db-Goes u m s = ((next-Advance allowed m s).0, tt)

  load_now-Goes :
      (u : ℕ) (m : Machine) → IsSchedule allowed m.schedule → Goes c m (JustLoaded u) (load u m)
  load_now-Goes u m s =
      Goes-map c m _ (JustLoaded u) (load u m) (load-Goes c u m s)
        (λ o m' h says. load-JustLoaded u o m' says)

  module _ (own : Admits allowed) (config : Config) (u : ℕ) where
    seed_unless_loaded-Goes :
        (o : Option BalanceSnapshot) (m : Machine)
        → IsSchedule allowed m.schedule
        → JustLoaded u o m
        → Goes c m (λ o' m'. LoadedOrSeeded u o' m') (seed_unless_loaded u o m)
    seed_unless_loaded-Goes (some snapshot) m s e =
        (Advance-refl allowed m s, (m.world.redis, e.1, e.0, Ran-refl))
    seed_unless_loaded-Goes none m s e =
        proceed-Goes c m (λ row m'. Unit {0}) (λ o' m'. LoadedOrSeeded u o' m') (load_from_db u m) _
          (load_from_db-Goes u m s)
          (λ row m₁ h₁ t.
            proceed-Goes c m₁ (λ seeded m'. HasBalance u m'.world.redis)
              (λ o' m'. LoadedOrSeeded u o' m') (seed_if_absent u row m₁) _
              (seed_if_absent-Goes c own u row m₁ h₁.schedule)
              (λ seeded m₂ h₂ b. (Advance-refl allowed m₂ h₂.schedule, b)))

    load_or_seed-Goes :
        (m : Machine)
        → IsSchedule allowed m.schedule
        → Goes c m (λ o m'. LoadedOrSeeded u o m') (load_or_seed u m)
    load_or_seed-Goes m s =
        proceed-Goes c m (JustLoaded u) (λ o m'. LoadedOrSeeded u o m') (load u m)
          (seed_unless_loaded u) (load_now-Goes u m s)
          (λ o m₁ h₁ e. seed_unless_loaded-Goes o m₁ h₁.schedule e)

    -- What a turn needs of the next: at once if the balance is there, and else with ten milliseconds
    -- gone by before the deadline.
    abbrev NextTurn : ℕ → Machine → M BalanceSnapshot → Type 0
    NextTurn deadline m again =
        (m' : Machine)
        → IsSchedule allowed m'.schedule
        → HasBalance u m'.world.redis ⊎ ((m.clock + 10 ≤ m'.clock) × (m.clock ≤ deadline))
        → Goes c m' (λ s m''. WasLoaded allowed u s m'') (again m')

    return_or-Goes :
        (again : M BalanceSnapshot) (o : Option BalanceSnapshot) (m : Machine)
        → IsSchedule allowed m.schedule
        → ((m' : Machine)
            → IsSchedule allowed m'.schedule
            → HasBalance u m'.world.redis
            → Goes c m' (λ s m''. WasLoaded allowed u s m'') (again m'))
        → LoadedOrSeeded u o m
        → Goes c m (λ s m'. WasLoaded allowed u s m') (return_or again o m)
    return_or-Goes again none m s k h = k m s h
    return_or-Goes again (some snapshot) m s k h = (Advance-refl allowed m s, h)

    with_lock-Goes :
        (deadline : ℕ) (again : M BalanceSnapshot) (token : Option ℕ) (m : Machine)
        → IsSchedule allowed m.schedule
        → NextTurn deadline m again
        → Goes c m (λ s m'. WasLoaded allowed u s m') (with_lock u deadline again token m)
    with_lock-Goes deadline again (some token) m s k =
        proceed-Goes c m (λ o m'. LoadedOrSeeded u o m') (λ s m'. WasLoaded allowed u s m')
          (ended (load_or_seed u m).0 (release_load_lock u token (load_or_seed u m).1))
          (return_or again)
          (finally-Goes c m (λ o m'. LoadedOrSeeded u o m') (λ o m'. LoadedOrSeeded u o m')
            (load_or_seed u m) (release_load_lock u token) (load_or_seed-Goes m s)
            (λ m' h.
              Goes-map c m' (λ released m''. Unit {0}) (λ released m''. Advance allowed m' m'')
                (release_load_lock u token m') (release_load_lock-Goes c own u token m' h.schedule)
                (λ released m'' h' t. h'))
            (λ o m' m'' h. LoadedOrSeeded-later u o m' m'' h))
          (λ o m' h l. return_or-Goes again o m' h.schedule (λ m'' s' b. k m'' s' (inl b)) l)
    with_lock-Goes deadline again none m s k = elim (Bool-cases (ltb deadline m.clock)) [
      | inl over ↦ rw over (
        Advance-refl allowed m s,
        c.harmless (balance_contention "balance load timed out") m.world.redis refl,
      )
      | inr time ↦ rw time (
          proceed-Goes c m (λ slept m'. m.clock + 10 ≤ m'.clock) (λ s m'. WasLoaded allowed u s m')
            (sleep 10 m) _ (sleep-Goes c m 10 s)
            (λ slept m' h later. k m' h.schedule (inr (later, ground arith))))
    ]

    load_turn-Goes :
        (deadline : ℕ) (again : M BalanceSnapshot) (o : Option BalanceSnapshot) (m : Machine)
        → IsSchedule allowed m.schedule
        → NextTurn deadline m again
        → JustLoaded u o m
        → Goes c m (λ s m'. WasLoaded allowed u s m') (load_turn config u deadline again o m)
    load_turn-Goes deadline again (some snapshot) m s k e =
        (Advance-refl allowed m s, (m.world.redis, e.1, e.0, Ran-refl))
    load_turn-Goes deadline again none m s k e =
        proceed-Goes c m (λ token m'. Unit {0}) (λ s m'. WasLoaded allowed u s m')
          (try_acquire_load_lock config.store u m) (with_lock u deadline again)
          (try_acquire_load_lock-Goes c own config.store u m s)
          (λ token m' h t. with_lock-Goes deadline again token m' h.schedule (λ m'' s' p.
            k m'' s' (elim p [
              | inl b ↦ inl b
              | inr q ↦ inr (omega (arith, h.clock, q.0), omega (arith, h.clock, q.1))
            ])))

    loaded_turn-Goes :
        (deadline : ℕ) (again : M BalanceSnapshot) (o : Option BalanceSnapshot) (m : Machine)
        → IsSchedule allowed m.schedule
        → HasBalance u m.world.redis
        → JustLoaded u o m
        → Goes c m (λ s m'. WasLoaded allowed u s m') (load_turn config u deadline again o m)
    loaded_turn-Goes deadline again (some snapshot) m s b e =
        (Advance-refl allowed m s, (m.world.redis, e.1, e.0, Ran-refl))
    loaded_turn-Goes deadline again none m s b e =
        let (snapshot, found) = load-some u m.world.redis b in absurd (not_missing e.0 found)

    load_turns-Goes :
        (turns deadline : ℕ) (m : Machine)
        → IsSchedule allowed m.schedule
        → HasBalance u m.world.redis × (1 ≤ turns) ⊎ (2 ≤ turns) × (deadline + 3 ≤ turns + m.clock)
        → Goes c m (λ s m'. WasLoaded allowed u s m') (load_turns config turns u deadline m)
    unfolding load_turns
    load_turns-Goes zero deadline m s h = absurd (omega arith)
    load_turns-Goes (suc turns) deadline m s h =
        let again = λ (m' : Machine). load_turns config turns u deadline m' in
        proceed-Goes c m (JustLoaded u) (λ s m'. WasLoaded allowed u s m') (load u m)
          (load_turn config u deadline again) (load_now-Goes u m s)
          (λ o m₁ h₁ e. elim h [
            | inl b ↦
                loaded_turn-Goes deadline again o m₁ h₁.schedule
                  (Ran-HasBalance u m.world.redis m₁.world.redis h₁.ran b.0) e
            | inr t ↦
                load_turn-Goes deadline again o m₁ h₁.schedule
                  (λ m₂ s₂ p. load_turns-Goes turns deadline m₂ s₂ (elim p [
                    | inl b ↦ inl (b, omega (arith, t.0))
                    | inr q ↦
                        inr (omega (arith, t.1, h₁.clock, q.1), omega (arith, t.1, h₁.clock, q.0))
                  ]))
                  e
          ])

    -- Loading ends within its turns.
    pub ensure_loaded-Goes :
        (m : Machine)
        → IsSchedule allowed m.schedule
        → Goes c m (λ s m'. WasLoaded allowed u s m') (ensure_loaded config u m)
    unfolding ensure_loaded
    ensure_loaded-Goes m s =
        load_turns-Goes (config.billing.load_wait_timeout + 3)
          (m.clock + config.billing.load_wait_timeout) m s (inr (omega arith, omega arith))
