-- ===== src/Billing/Settings.antt =====
-- The settings that the promises of the services are made in.
use generation_balance_servi.Base.{ℕ, ◌≡◌, true, false, List, [], ◌∷◌}
use generation_balance_servi.Errors.{Error}
use generation_balance_servi.Redis.{Redis, Call}
use generation_balance_servi.Redis.Generations.{Keeps}
use generation_balance_servi.Redis.Versions.{All, IsForward}
use generation_balance_servi.Redis.Credits.{KeepsMarker}
use generation_balance_servi.Redis.Traces.{Ran, Ran-stable}
use generation_balance_servi.Store.{Attempt}
use generation_balance_servi.Store.Running.{IsWire}
use generation_balance_servi.World.{Event}
use generation_balance_servi.Store.Recognises.{IsFinished, IsFinished-stable}
use generation_balance_servi.Machine.{Moment, Machine, Reply, returned, raised, waiting}
use generation_balance_servi.Machine.Rules.{
  Setting, is_failure, AreEvents, IsSchedule, Advance, Outcome, Goes,
}
use generation_balance_servi.Billing.Steps.{Admits}
use generation_balance_servi.Billing.Following.{Follows}

-- An outcome without what led to it.
pub Outcome-of-Goes {ℓ} :
    {A : Type ℓ} (c : Setting) (m : Machine) (Q R : A → Machine → Type 0)
    (E : Error → Machine → Type 0) (x : Reply A × Machine)
    → Goes c m Q x
    → ((a : A) (m' : Machine) → Advance c.allowed m m' → Q a m' → R a m')
    → ((e : Error) (m' : Machine) → c.on_error e m'.world.redis → E e m')
    → Outcome R E x
Outcome-of-Goes c m Q R E (returned a, m') (h, q) k l = k a m' h q
Outcome-of-Goes c m Q R E (raised e, m') (h, o) k l = l e m' o
Outcome-of-Goes c m Q R E (waiting, m') h k l = h

-- An error says nothing.
abbrev pub plain : (Call → Type 0) → Setting
plain P = record {
  allowed = P;
  on_error = λ e r. Unit {0};
  harmless = λ e r h. tt;
  stable = λ e r r' x o. tt;
}

-- A failure says that the record is finished.
pub failure-stable :
    (id : ℕ) (e : Error) (r r' : Redis)
    → Ran (Keeps id) r r'
    → (is_failure e ≡ true → IsFinished id r)
    → is_failure e ≡ true
    → IsFinished id r'
failure-stable id e r r' x o f =
    Ran-stable (IsFinished id) r r' (λ call r p. IsFinished-stable id call r p) x (o f)

pub failure-harmless :
    (id : ℕ) (e : Error) (r : Redis) → is_failure e ≡ false → is_failure e ≡ true → IsFinished id r
failure-harmless id e r h f = cc

abbrev pub following : ℕ → Setting
following id = record {
  allowed = Keeps id;
  on_error = λ e r. is_failure e ≡ true → IsFinished id r;
  harmless = failure-harmless id;
  stable = failure-stable id;
}

pub Admits-Keeps : (id : ℕ) → Admits (Keeps id)
Admits-Keeps id = record {
  reserve = λ a. tt;
  settle = λ a. tt;
  refund = λ a. tt;
  top_up = λ a. tt;
  seed_if_absent = λ u b. tt;
  acquire_load_lock = λ u token ttl. tt;
  release_load_lock = λ u token. tt;
  forget_inflight = λ id. tt;
}

pub Admits-IsForward : Admits IsForward
Admits-IsForward = record {
  reserve = λ a. tt;
  settle = λ a. tt;
  refund = λ a. tt;
  top_up = λ a. tt;
  seed_if_absent = λ u b. tt;
  acquire_load_lock = λ u token ttl. tt;
  release_load_lock = λ u token. tt;
  forget_inflight = λ id. tt;
}

pub Admits-KeepsMarker : (id : ℕ) → Admits (KeepsMarker id)
Admits-KeepsMarker id = record {
  reserve = λ a. tt;
  settle = λ a. tt;
  refund = λ a. tt;
  top_up = λ a. tt;
  seed_if_absent = λ u b. tt;
  acquire_load_lock = λ u token ttl. tt;
  release_load_lock = λ u token. tt;
  forget_inflight = λ other. tt;
}

pub Follows-following : (id : ℕ) → Follows id (following id)
Follows-following id = record { keeps = λ call p. p; finished = λ e r h f. h }

-- Any command.
abbrev pub Any : Call → Type 0
Any call = Unit {0}

IsWire-Any : (wire : List Attempt) → IsWire Any wire
IsWire-Any [] = tt
IsWire-Any (w ∷ wire) = (All-Any w.before, IsWire-Any wire)
  where
    All-Any : (calls : List Call) → All Any calls
    All-Any [] = tt
    All-Any (c ∷ calls) = (tt, All-Any calls)

AreEvents-Any : (events : List Event) → AreEvents Any events
AreEvents-Any [] = tt
AreEvents-Any (Event.command c ∷ events) = (tt, AreEvents-Any events)
AreEvents-Any (Event.write rows ∷ events) = AreEvents-Any events

pub IsSchedule-Any : (schedule : List Moment) → IsSchedule Any schedule
IsSchedule-Any [] = tt
IsSchedule-Any (x ∷ schedule) = (AreEvents-Any x.events, IsWire-Any x.wire, IsSchedule-Any schedule)

pub Admits-Any : Admits Any
Admits-Any = record {
  reserve = λ a. tt;
  settle = λ a. tt;
  refund = λ a. tt;
  top_up = λ a. tt;
  seed_if_absent = λ u b. tt;
  acquire_load_lock = λ u token ttl. tt;
  release_load_lock = λ u token. tt;
  forget_inflight = λ id. tt;
}
