-- ===== src/Machine/Rules.antt =====
-- How a computation goes on: its clock does not run back, its tokens are given out once, and Redis has gone through commands.
use generation_balance_servi.Base.{
  ℕ, ◌+◌, ◌≤◌, ◌≡◌, ◌⊎◌, inr, refl, sym, ap, subst, ◌∙◌, ◌++◌, Bool, true, false, List, [], ◌∷◌,
  arith,
}
use generation_balance_servi.Errors.{Error, Result, ok, raise, generation_failed, cancelled}
use generation_balance_servi.Redis.{Redis, Call}
use generation_balance_servi.Redis.Traces.{Ran, Ran-refl, Ran-trans, Ran-exec}
use generation_balance_servi.Store.{Attempt}
use generation_balance_servi.Store.Running.{IsWire}
use generation_balance_servi.World.{World, Event, command, write, happen, happen_all}
use generation_balance_servi.Machine.{
  Moment, Machine, Reply, returned, raised, waiting, M, proceed, ended, next, take_moment, answer,
  on_redis, sleep, lift, left_by,
}

-- Every command that the others give has the property.
abbrev pub AreEvents : (Call → Type 0) → List Event → Type 0
AreEvents P [] = Unit
AreEvents P (command c ∷ events) = P c × AreEvents P events
AreEvents P (write rows ∷ events) = AreEvents P events

abbrev pub IsSchedule : (Call → Type 0) → List Moment → Type 0
IsSchedule P [] = Unit
IsSchedule P (x ∷ schedule) = AreEvents P x.events × IsWire P x.wire × IsSchedule P schedule

-- The second history goes on from the first.
abbrev pub Grown : List Redis → List Redis → Type 0
Grown h h' = (later : List Redis) × (h' ≡ later ++ h)

append_assoc : (x y z : List Redis) → x ++ (y ++ z) ≡ (x ++ y) ++ z
append_assoc [] y z = refl
append_assoc (r ∷ x) y z = ap (λ rest. r ∷ rest) (append_assoc x y z)

Grown-trans : (h h' h'' : List Redis) → Grown h h' → Grown h' h'' → Grown h h''
Grown-trans h h' h'' (x, e) (y, f) = (y ++ x, f ∙ ap (λ t. y ++ t) e ∙ append_assoc y x h)

-- The keyspace is one of the history.
abbrev pub Met : Redis → List Redis → Type 0
Met r [] = ⊥
Met r (x ∷ h) = (x ≡ r) ⊎ Met r h

Met-behind : (r : Redis) (later h : List Redis) → Met r h → Met r (later ++ h)
Met-behind r [] h m = m
Met-behind r (x ∷ later) h m = inr (Met-behind r later h m)

pub Met-Grown : (r : Redis) (h h' : List Redis) → Grown h h' → Met r h → Met r h'
Met-Grown r h h' (later, e) m = subst (Met r) (sym e) (Met-behind r later h m)

pub record Advance (P : Call → Type 0) (m m' : Machine) : Type 0 where
  pub clock : m.clock ≤ m'.clock
  pub tokens : m.next_token ≤ m'.next_token
  pub ran : Ran P m.world.redis m'.world.redis
  pub schedule : IsSchedule P m'.schedule
  pub history : Grown m.history m'.history

-- What holds when the computation returns or raises; it does one or the other.
abbrev pub Outcome {ℓ} :
    {A : Type ℓ} → (A → Machine → Type 0) → (Error → Machine → Type 0) → Reply A × Machine → Type 0
Outcome Q R (returned a, m) = Q a m
Outcome Q R (raised e, m) = R e m
Outcome Q R (waiting, m) = ⊥

-- The errors that say how a generation ended.
abbrev pub is_failure : Error → Bool
is_failure (generation_failed _) = true
is_failure cancelled = true
is_failure _ = false

-- What the commands have in common, and what an error says of the keyspace. An error that is no
-- failure says nothing, and what an error says stays true.
pub record Setting : Type 1 where
  pub allowed : Call → Type 0
  pub on_error : Error → Redis → Type 0
  pub harmless : (e : Error) (r : Redis) → is_failure e ≡ false → on_error e r
  pub stable : (e : Error) (r r' : Redis) → Ran allowed r r' → on_error e r → on_error e r'

-- A call that raises no failure.
abbrev pub IsCalm {ℓ} : {A : Type ℓ} → Result A → Type 0
IsCalm (ok a) = Unit
IsCalm (raise e) = is_failure e ≡ false

-- From the machine, the computation ends, and the machine has advanced. A value that is returned has
-- the property, and an error says of the keyspace what it is to say.
abbrev pub Goes {ℓ} :
    {A : Type ℓ} → Setting → Machine → (A → Machine → Type 0) → Reply A × Machine → Type 0
Goes c m Q x =
    Outcome (λ a m'. Advance c.allowed m m' × Q a m')
      (λ e m'. Advance c.allowed m m' × c.on_error e m'.world.redis) x

module _ (P : Call → Type 0) where
  pub Advance-refl : (m : Machine) → IsSchedule P m.schedule → Advance P m m
  Advance-refl m h = record {
    clock = omega arith;
    tokens = omega arith;
    ran = Ran-refl;
    schedule = h;
    history = ([], refl);
  }

  pub Advance-trans : (m m' m'' : Machine) → Advance P m m' → Advance P m' m'' → Advance P m m''
  Advance-trans m m' m'' x y = record {
    clock = omega (arith, x.clock, y.clock);
    tokens = omega (arith, x.tokens, y.tokens);
    ran = Ran-trans x.ran y.ran;
    schedule = y.schedule;
    history = Grown-trans m.history m'.history m''.history x.history y.history;
  }

  happen_all-Ran :
      (events : List Event) (w : World)
      → AreEvents P events
      → Ran P w.redis (happen_all events w).redis
  happen_all-Ran [] w h = Ran-refl
  happen_all-Ran (command c ∷ events) w (p, h) =
      Ran-trans (Ran-exec c w.redis p) (happen_all-Ran events (happen (command c) w) h)
  happen_all-Ran (write rows ∷ events) w h = happen_all-Ran events (happen (write rows) w) h

  take_moment-Advance :
      (schedule : List Moment) (m : Machine)
      → IsSchedule P schedule
      → let x = take_moment schedule m in (schedule ≡ m.schedule → Advance P m x.1) × IsWire P x.0
  take_moment-Advance [] m h = (λ e. Advance-refl m (rw (← e) tt), tt)
  take_moment-Advance (x ∷ schedule) m (e, w, h) = (
    λ e'. record {
      clock = omega arith;
      tokens = omega arith;
      ran = happen_all-Ran x.events m.world e;
      schedule = h;
      history = ([], refl);
    },
    w,
  )

  pub next-Advance :
      (m : Machine) → IsSchedule P m.schedule → Advance P m (next m).1 × IsWire P (next m).0
  unfolding next
  next-Advance m h = let (a, w) = take_moment-Advance m.schedule m h in (a refl, w)

take_moment-history :
    (schedule : List Moment) (m : Machine) → (take_moment schedule m).1.history ≡ m.history
take_moment-history [] m = refl
take_moment-history (x ∷ schedule) m = refl

next-history : (m : Machine) → (next m).1.history ≡ m.history
unfolding next
next-history m = take_moment-history m.schedule m

module _ (c : Setting) where
  open c use {allowed, on_error}

  pub Goes-after {ℓ} :
      {A : Type ℓ} (m m' : Machine) (Q : A → Machine → Type 0) (x : Reply A × Machine)
      → Advance allowed m m'
      → Goes c m' Q x
      → Goes c m Q x
  Goes-after m m' Q (returned a, m'') h (g, q) = (Advance-trans allowed m m' m'' h g, q)
  Goes-after m m' Q (raised e, m'') h (g, o) = (Advance-trans allowed m m' m'' h g, o)
  Goes-after m m' Q (waiting, m'') h g = g

  pub Goes-map {ℓ} :
      {A : Type ℓ} (m : Machine) (Q R : A → Machine → Type 0) (x : Reply A × Machine)
      → Goes c m Q x
      → ((a : A) (m' : Machine) → Advance allowed m m' → Q a m' → R a m')
      → Goes c m R x
  Goes-map m Q R (returned a, m') (h, q) k = (h, k a m' h q)
  Goes-map m Q R (raised e, m') h k = h
  Goes-map m Q R (waiting, m') h k = h

  pub proceed-Goes {ℓ κ} :
      {A : Type ℓ} {B : Type κ} (m : Machine) (Q : A → Machine → Type 0) (R : B → Machine → Type 0)
      (x : Reply A × Machine) (f : A → M B)
      → Goes c m Q x
      → ((a : A) (m' : Machine) → Advance allowed m m' → Q a m' → Goes c m' R (f a m'))
      → Goes c m R (proceed x f)
  proceed-Goes m Q R (returned a, m') f (h, q) k = Goes-after m m' R (f a m') h (k a m' h q)
  proceed-Goes m Q R (raised e, m') f h k = h
  proceed-Goes m Q R (waiting, m') f h k = h

  ended-Goes {ℓ κ} :
      {A : Type ℓ} {B : Type κ} (m m' : Machine) (Q : A → Machine → Type 0) (a : A)
      (y : Reply B × Machine)
      → Advance allowed m m'
      → Goes c m' (λ b m''. Q a m'') y
      → Goes c m Q (ended (returned a) y)
  ended-Goes m m' Q a (returned b, m'') h (g, q) = (Advance-trans allowed m m' m'' h g, q)
  ended-Goes m m' Q a (raised e, m'') h (g, o) = (Advance-trans allowed m m' m'' h g, o)
  ended-Goes m m' Q a (waiting, m'') h g = g

  ended_raised-Goes {ℓ κ} :
      {A : Type ℓ} {B : Type κ} (m m' : Machine) (Q : A → Machine → Type 0) (e : Error)
      (R : B → Machine → Type 0) (y : Reply B × Machine)
      → Advance allowed m m' × on_error e m'.world.redis
      → Goes c m' R y
      → Goes c m Q (ended (raised e) y)
  ended_raised-Goes m m' Q e R (returned b, m'') (h, o) (g, q) =
      (Advance-trans allowed m m' m'' h g, c.stable e m'.world.redis m''.world.redis g.ran o)
  ended_raised-Goes m m' Q e R (raised e', m'') (h, o) (g, o') =
      (Advance-trans allowed m m' m'' h g, o')
  ended_raised-Goes m m' Q e R (waiting, m'') h g = g

  pub finally-Goes {ℓ κ} :
      {A : Type ℓ} {B : Type κ} (m : Machine) (Q : A → Machine → Type 0) (R : A → Machine → Type 0)
      (x : Reply A × Machine) (y : M B)
      → Goes c m Q x
      → ((m' : Machine) → Advance allowed m m' → Goes c m' (λ b m''. Advance allowed m' m'') (y m'))
      → ((a : A) (m' m'' : Machine) → Advance allowed m' m'' → Q a m' → R a m'')
      → Goes c m R (ended x.0 (y x.1))
  finally-Goes m Q R (returned a, m') y (h, q) k later = ended-Goes m m' R a (y m') h (
      Goes-map m' (λ b m''. Advance allowed m' m'') (λ b m''. R a m'') (y m') (k m' h)
        (λ b m'' g h'. later a m' m'' h' q))
  finally-Goes m Q R (raised e, m') y (h, o) k later =
      ended_raised-Goes m m' R e (λ b m''. Advance allowed m' m'') (y m') (h, o) (k m' h)
  finally-Goes m Q R (waiting, m') y h k later = absurd h

  answer-Goes {ℓ} :
      {A : Type ℓ} (m : Machine) (Q : A → Machine → Type 0) (x : Result A × Redis)
      → IsSchedule allowed m.schedule
      → Ran allowed m.world.redis x.1
      → IsCalm x.0
      → ((a : A) (r : Redis) → x ≡ (ok a, r) → Q a (left_by m r))
      → Goes c m Q (answer m x)
  answer-Goes m Q (ok a, r) s h calm q = (
    record {
      clock = omega arith;
      tokens = omega arith;
      ran = h;
      schedule = s;
      history = (r ∷ [], refl);
    },
    q a r refl,
  )
  answer-Goes m Q (raise e, r) s h calm q = (
    record {
      clock = omega arith;
      tokens = omega arith;
      ran = h;
      schedule = s;
      history = (r ∷ [], refl);
    },
    c.harmless e r calm,
  )

  -- A call on Redis: `Q` is what its answer says of the machine that it leaves.
  pub on_redis-Goes {ℓ} :
      {A : Type ℓ} (m : Machine) (Q : A → Machine → Type 0)
      (call : List Attempt → Redis → Result A × Redis)
      → IsSchedule allowed m.schedule
      → ((wire : List Attempt) (r : Redis) → IsWire allowed wire → Ran allowed r (call wire r).1)
      → ((wire : List Attempt) (r : Redis) → IsCalm (call wire r).0)
      → ((wire : List Attempt) (m' : Machine) (a : A) (r : Redis)
          → IsWire allowed wire
          → Advance allowed m m'
          → m'.history ≡ m.history
          → call wire m'.world.redis ≡ (ok a, r)
          → Q a (left_by m' r))
      → Goes c m Q (on_redis call m)
  unfolding on_redis
  on_redis-Goes m Q call s runs calm q =
      let (a, w) = next-Advance allowed m s in
      let m' = (next m).1 in
      let wire = (next m).0 in
      Goes-after m m' Q (answer m' (call wire m'.world.redis)) a (
        answer-Goes m' Q (call wire m'.world.redis) a.schedule (runs wire m'.world.redis w)
          (calm wire m'.world.redis) (λ x r e. q wire m' x r w a (next-history m) e))

  pub lift-Goes :
      {A : Type 0} (x : Result A) (m : Machine)
      → IsCalm x
      → IsSchedule allowed m.schedule
      → Goes c m (λ a m'. x ≡ ok a) (lift x m)
  lift-Goes (ok a) m calm s = (Advance-refl allowed m s, refl)
  lift-Goes (raise e) m calm s = (Advance-refl allowed m s, c.harmless e m.world.redis calm)

  pub sleep-Goes :
      (m : Machine) (time : ℕ)
      → IsSchedule allowed m.schedule
      → Goes c m (λ u m'. m.clock + time ≤ m'.clock) (sleep time m)
  unfolding sleep
  sleep-Goes m time s =
      let (a, w) = next-Advance allowed m s in
      (
        record {
          clock = omega (arith, a.clock);
          tokens = a.tokens;
          ran = a.ran;
          schedule = a.schedule;
          history = a.history;
        },
        omega (arith, a.clock),
      )
