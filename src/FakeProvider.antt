-- ===== src/FakeProvider.antt =====
-- The provider of the tests, shared by several processes: FakeGenerationProvider of
-- backend/domain/generation.py. Every block under the lock is one step, and calls overlap. How long
-- a call sleeps is left out.
pub mod Counted
pub mod Charges
use generation_balance_servi.Base.{
  ℕ, zero, suc, ◌+◌, Bool, true, false, if◌then◌else◌, ℤ, pos, ◌+ℤ◌, ◌-ℤ◌, max_ℤ, String,
  str_append, Option, none, some, List, [], ◌∷◌, Dict, lookup, insert,
}
use generation_balance_servi.Money.{Decimal}
use generation_balance_servi.Policy.{GenerationRequest}
use generation_balance_servi.Billing.{Answer, answered, failed, cancelled_with}

-- `delay_seconds` in milliseconds.
pub record ProviderScenario : Type 0 where
  pub delay : ℕ
  pub fail : Bool

abbrev pub default_scenario : ProviderScenario
default_scenario = record { delay = 100; fail = false }

pub record ProviderStats : Type 0 where
  pub calls : Dict ℕ
  pub active_calls : ℤ
  pub max_active_calls : ℤ

pub record SharedProviderState : Type 0 where
  pub scenarios : Dict ProviderScenario
  pub calls : Dict ℕ
  pub active_calls : ℤ
  pub max_active_calls : ℤ

abbrev pub create_shared_provider_state : SharedProviderState
create_shared_provider_state = record {
  scenarios = [];
  calls = [];
  active_calls = pos 0;
  max_active_calls = pos 0;
}

abbrev pub set_scenario : ℕ → ProviderScenario → SharedProviderState → SharedProviderState
set_scenario id scenario s = record s { scenarios = insert id scenario s.scenarios }

unfoldable pub get_stats : SharedProviderState → ProviderStats
get_stats s = record {
  calls = s.calls;
  active_calls = s.active_calls;
  max_active_calls = s.max_active_calls;
}

-- `d.get(key, other)`
abbrev pub get_or {ℓ} : {A : Type ℓ} → Option A → A → A
get_or none other = other
get_or (some a) other = a

-- `generate` up to its sleep: the scenario that it reads, and the block under the lock.
abbrev pub scenario_of : ProviderScenario → ℕ → SharedProviderState → ProviderScenario
scenario_of default id s = get_or (lookup id s.scenarios) default

unfoldable pub enter : ℕ → SharedProviderState → SharedProviderState
enter id s =
    let active_calls = s.active_calls +ℤ pos 1 in
    record s {
      calls = insert id (get_or (lookup id s.calls) 0 + 1) s.calls;
      active_calls = active_calls;
      max_active_calls = max_ℤ s.max_active_calls active_calls;
    }

-- Its `finally`.
unfoldable pub leave : SharedProviderState → SharedProviderState
leave s = record s { active_calls = s.active_calls -ℤ pos 1 }

-- What it returns or raises after its sleep, the call being cancelled or not.
unfoldable pub outcome : GenerationRequest → Decimal → ProviderScenario → Bool → Answer
outcome request authorized_cost_usd scenario true = cancelled_with "" "CancelledError"
outcome request authorized_cost_usd scenario false =
    if scenario.fail
    then failed "generation failed" "RuntimeError"
    else answered (record {
      client_request_id = request.client_request_id;
      content = str_append "generated:" request.model_name;
      billed_cost_usd = authorized_cost_usd;
    })

-- A call of `generate`, with the scenario that it read.
pub record Pending : Type 0 where
  pub request : GenerationRequest
  pub authorized_cost_usd : Decimal
  pub scenario : ProviderScenario

-- The calls that have read their scenario, and those that have entered and sleep.
pub record State : Type 0 where
  pub shared : SharedProviderState
  pub looked : List Pending
  pub asleep : List Pending

-- The call at a position, and the others.
abbrev pub take_at {ℓ} : {A : Type ℓ} → ℕ → List A → Option (A × List A)
take_at k [] = none
take_at zero (x ∷ xs) = some (x, xs)
take_at (suc k) (x ∷ xs) = elim (take_at k xs) [ none ↦ none | some (y, ys) ↦ some (y, x ∷ ys) ]

-- What the processes do. A position beyond the calls that there are does nothing.
pub data Event : Type 0 where
  set : ℕ → ProviderScenario → Event
  look : GenerationRequest → Decimal → Event
  begin : ℕ → Event
  end : ℕ → Bool → Event

abbrev pub began : State → Option (Pending × List Pending) → State
began s none = s
began s (some (call, looked)) = record {
  shared = enter call.request.client_request_id s.shared;
  looked = looked;
  asleep = call ∷ s.asleep;
}

abbrev pub ended : State → Bool → Option (Pending × List Pending) → Option Answer × State
ended s cancelled none = (none, s)
ended s cancelled (some (call, asleep)) = (
  some (outcome call.request call.authorized_cost_usd call.scenario cancelled),
  record s { shared = leave s.shared; asleep = asleep },
)

abbrev pub step : ProviderScenario → Event → State → Option Answer × State
step default (set id scenario) s = (none, record s { shared = set_scenario id scenario s.shared })
step default (look request authorized_cost_usd) s = (
  none,
  record s {
    looked =
        (record {
          request = request;
          authorized_cost_usd = authorized_cost_usd;
          scenario = scenario_of default request.client_request_id s.shared;
        })
        ∷ s.looked;
  },
)
step default (begin k) s = (none, began s (take_at k s.looked))
step default (end k cancelled) s = ended s cancelled (take_at k s.asleep)

unfoldable pub run : ProviderScenario → List Event → State → State
run default [] s = s
run default (e ∷ events) s = run default events (step default e s).1

abbrev pub fresh : State
fresh = record { shared = create_shared_provider_state; looked = []; asleep = [] }
