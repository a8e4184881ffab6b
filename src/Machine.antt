-- ===== src/Machine.antt =====
-- One coroutine of the service among other processes. At each `await` the next moment of the
-- schedule comes: what the others do until the call is made, how the connection to Redis behaves,
-- and how long it takes. When the schedule is over, nothing happens any more. Times are natural
-- numbers of milliseconds, and `time` and `monotonic` read one clock.
pub mod Rules
use generation_balance_servi.Base.{
  ℕ, suc, ◌+◌, Bool, true, false, String, Option, none, some, List, [], ◌∷◌,
}
use generation_balance_servi.Errors.{Error, Result, ok, raise}
use generation_balance_servi.Redis.{Redis}
use generation_balance_servi.Store.{Attempt}
use generation_balance_servi.World.{World, Event, happen_all}

pub record Moment : Type 0 where
  pub events : List Event
  pub wire : List Attempt
  pub elapsed : ℕ

-- `next_token` is what `uuid4` gives next. `history` are the keyspaces that the calls on Redis have
-- left, the latest first; it is kept for what is said of a computation, and no computation reads it.
pub record Machine : Type 0 where
  pub world : World
  pub clock : ℕ
  pub next_token : ℕ
  pub schedule : List Moment
  pub history : List Redis

-- `waiting` is a loop that was followed no further.
pub data Reply {ℓ} (A : Type ℓ) : Type ℓ where
  returned : A → Reply A
  raised : Error → Reply A
  waiting : Reply A

abbrev pub M {ℓ} : Type ℓ → Type ℓ
M A = Machine → Reply A × Machine

abbrev pub proceed {ℓ κ} :
    {A : Type ℓ} {B : Type κ} → Reply A × Machine → (A → M B) → Reply B × Machine
proceed (returned a, m) f = f a m
proceed (raised e, m) f = (raised e, m)
proceed (waiting, m) f = (waiting, m)

infixl 5 ◌>>=◌ ◌>>◌
abbrev pub ◌>>=◌ {ℓ κ} : {A : Type ℓ} {B : Type κ} → M A → (A → M B) → M B
◌>>=◌ x f m = proceed (x m) f

abbrev pub ◌>>◌ {ℓ κ} : {A : Type ℓ} {B : Type κ} → M A → M B → M B
x >> y = x >>= λ _. y

abbrev pub pure {ℓ} : {A : Type ℓ} → A → M A
pure a m = (returned a, m)

abbrev pub throw {ℓ} : {A : Type ℓ} → Error → M A
throw e m = (raised e, m)

abbrev pub unfinished {ℓ} : {A : Type ℓ} → M A
unfinished m = (waiting, m)

abbrev pub lift {ℓ} : {A : Type ℓ} → Result A → M A
lift (ok a) = pure a
lift (raise e) = throw e

-- `try: x finally: y`. An exception of `y` takes the place of what `x` did.
abbrev pub ended {ℓ κ} : {A : Type ℓ} {B : Type κ} → Reply A → Reply B × Machine → Reply A × Machine
ended r (returned b, m) = (r, m)
ended r (raised e, m) = (raised e, m)
ended r (waiting, m) = (waiting, m)

abbrev pub finally {ℓ κ} : {A : Type ℓ} {B : Type κ} → M A → M B → M A
finally x y m = ended (x m).0 (y (x m).1)

-- The next moment: its wire, and the machine as the call meets it.
abbrev pub take_moment : List Moment → Machine → List Attempt × Machine
take_moment [] m = ([], m)
take_moment (x ∷ schedule) m = (
  x.wire,
  record m {
    world = happen_all x.events m.world;
    clock = m.clock + x.elapsed;
    schedule = schedule;
  },
)

unfoldable pub next : Machine → List Attempt × Machine
next m = take_moment m.schedule m

-- The machine after a call on Redis that left the keyspace.
abbrev pub left_by : Machine → Redis → Machine
left_by m r = record m { world = record m.world { redis = r }; history = r ∷ m.history }

-- A call on Redis that answers or raises.
abbrev pub answer {ℓ} : {A : Type ℓ} → Machine → Result A × Redis → Reply A × Machine
answer m (ok a, r) = (returned a, left_by m r)
answer m (raise e, r) = (raised e, left_by m r)

unfoldable pub on_redis {ℓ} : {A : Type ℓ} → (List Attempt → Redis → Result A × Redis) → M A
on_redis call m = let (wire, m') = next m in answer m' (call wire m'.world.redis)

-- `asyncio.sleep`, for at least the given time.
unfoldable pub sleep : ℕ → M (Unit {0})
sleep time m = let m' = (next m).1 in (returned tt, record m' { clock = m'.clock + time })

abbrev pub monotonic : M ℕ
monotonic m = (returned m.clock, m)

-- `uuid4().hex`
abbrev pub uuid4 : M ℕ
uuid4 m = (returned m.next_token, record m { next_token = suc m.next_token })
