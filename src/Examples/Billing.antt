-- ===== src/Examples/Billing.antt =====
-- The services on a small machine: a generation, a load, a top-up and a reaping, with a lossy wire
-- and other processes at work.
use generation_balance_servi.Base.{
  ◌≡◌, ◌≤◌, refl, true, pos, ◌+ℤ◌, ◌-ℤ◌, some, scale, min_ℤ, max_ℤ, insert, List, [], ◌∷◌, arith,
}
use generation_balance_servi.Errors.{ok}
use generation_balance_servi.Money.{cents, micros_to_money, money_to_micros, quantize_money}
use generation_balance_servi.Policy.{authorize, models, build_plan, fill, total_usd}
use generation_balance_servi.Surplus.{surplus_refund}
use generation_balance_servi.TopUp.{validate}
use generation_balance_servi.Redis
use generation_balance_servi.Redis.{Redis, Call, SettleArgs, Status, GenerationHash, new_record}
use generation_balance_servi.Redis.Ledger.{Field, held}
use generation_balance_servi.Store.{
  default_store_config, reply_lost, request_lost, snapshot_from_hash, plan_args,
}
use generation_balance_servi.Store.Methods.{settle_args}
use generation_balance_servi.Store.Recognises.{IsFinished, HasMarker}
use generation_balance_servi.World.{command}
use generation_balance_servi.Machine.{Moment, Machine, returned}
use generation_balance_servi.Machine.Rules.{Outcome, is_failure}
use generation_balance_servi.Billing.{
  Config, default_billing_config, Provider, answered, charge, execute_generation, ensure_loaded,
  apply_top_up,
}
use generation_balance_servi.Billing.Executed.{IsAnswer}
use generation_balance_servi.Billing.Converted.{settle_args_total}
use generation_balance_servi.Billing.Charged.{money_held, settle_charges}
use generation_balance_servi.Billing.Promises.{
  IsRecent, began, execute_generation_ends, ensure_loaded_ends, apply_top_up_ends,
}
use generation_balance_servi.Billing.Credited.{Credited, apply_top_up_once}
use generation_balance_servi.Billing.Once.{Tallied, ExactlyOnce, EndedBy, execute_generation_once}
use generation_balance_servi.Billing.Redelivered.{IsRepeated, redelivery_repeats}
use generation_balance_servi.Examples.Policy.{premium_request, premium_authorization}
use generation_balance_servi.Examples.Redis.{
  one_user, one_running, dollar_hash, reserve_twenty, settle_fifteen, top_up_dollar,
}
use generation_balance_servi.Examples.TopUp.{gift}

-- What the services compute with.
program : Unit {0}
unfolding execute_generation generation_balance_servi.Billing.reserve_generation
    generation_balance_servi.Billing.load_turns generation_balance_servi.Billing.load
    generation_balance_servi.Machine.on_redis generation_balance_servi.Store.retrying
    generation_balance_servi.Machine.next generation_balance_servi.Store.Methods.load
    generation_balance_servi.Billing.reserve_attempts authorize snapshot_from_hash micros_to_money
    scale build_plan fill ◌-ℤ◌ min_ℤ insert ◌+ℤ◌ ensure_loaded
    generation_balance_servi.Billing.reserve generation_balance_servi.Machine.sleep money_to_micros
    generation_balance_servi.Store.Methods.reserve plan_args
    generation_balance_servi.Store.reserve_outcome Redis.reserve models
    generation_balance_servi.Redis.exec generation_balance_servi.Redis.run Redis.top_up
    generation_balance_servi.Billing.generate generation_balance_servi.Billing.settle_generation
    generation_balance_servi.Billing.settle_attempts generation_balance_servi.Billing.settle charge
    generation_balance_servi.Store.Methods.settle generation_balance_servi.Store.settle_outcome
    Redis.settle quantize_money total_usd surplus_refund max_ℤ
program = tt

abbrev config : Config
config = record { billing = default_billing_config; store = default_store_config }

-- A provider that bills fifteen cents.
abbrev fifteen : Provider
fifteen request cost = answered (record {
  client_request_id = request.client_request_id;
  content = "text";
  billed_cost_usd = cents 15;
})

-- Someone tops the balance up before the reservation, and its first reply is lost.
abbrev busy : List Moment
busy =
    record { events = []; wire = []; elapsed = 2 }
    ∷ record {
      events = command (Call.top_up top_up_dollar) ∷ [];
      wire = record { before = []; fault = reply_lost } ∷ [];
      elapsed = 3;
    }
    ∷ []

abbrev machine : Machine
machine = record {
  world = record { redis = one_user; table = [] };
  clock = 1000;
  next_token = 6;
  schedule = busy;
  history = [];
}

-- The generation is delivered, and charged what the provider billed.
delivered_test :
    (execute_generation config fifteen premium_request machine).0
    ≡ returned (record { client_request_id = 42; content = "text"; billed_cost_usd = cents 15 })
unfolding program
delivered_test = refl

execute_generation_ends_example :
    Outcome
      (λ res m'. IsAnswer fifteen premium_request 6 res m'.world.redis)
      (λ e m'. is_failure e ≡ true → IsFinished 42 m'.world.redis)
      (execute_generation config fifteen premium_request machine)
execute_generation_ends_example =
    execute_generation_ends config fifteen premium_request machine (omega arith)
      (tt, tt, ((tt, tt), (tt, tt), tt))

execute_generation_once_example :
    Outcome
      (λ res m'. Tallied 42 ExactlyOnce one_user m'.world.redis)
      (λ e m'. Tallied 42 (EndedBy (is_failure e)) one_user m'.world.redis)
      (execute_generation config fifteen premium_request machine)
execute_generation_once_example =
    execute_generation_once config fifteen premium_request machine (omega arith)
      (tt, tt, ((tt, tt), (tt, tt), tt))

-- The keyspace after the generation, and its record.
abbrev settled : Machine
settled = record machine {
  world = record { redis = (Redis.settle settle_fifteen one_running).1; table = [] };
}

abbrev settled_record : GenerationHash
settled_record = record (new_record reserve_twenty) {
  status = Status.done;
  content = some "text";
  billed_cost_usd = some (pos 150000);
  provider_billed_cost_usd = some (pos 150000);
  refunded_surplus_usd = some (pos 50000);
}

redelivery_repeats_example :
    Outcome
      (λ res m'. IsRepeated premium_request settled_record res m'.world.redis)
      (λ e m'. is_failure e ≡ true → IsFinished 42 m'.world.redis)
      (execute_generation config fifteen premium_request settled)
unfolding program Redis.reserve
redelivery_repeats_example =
    redelivery_repeats config fifteen premium_request settled_record settled (omega arith)
      (tt, tt, ((tt, tt), (tt, tt), tt)) refl (omega arith)

-- A provider that answers differently.
abbrev twenty : Provider
twenty request cost = answered (record {
  client_request_id = request.client_request_id;
  content = "other text";
  billed_cost_usd = cents 20;
})

-- Delivered again, the request gets the text and the charge of the first delivery.
redelivered_test :
    (execute_generation config twenty premium_request settled).0
    ≡ returned (record { client_request_id = 42; content = "text"; billed_cost_usd = cents 15 })
unfolding program Redis.reserve generation_balance_servi.Billing.resolve_duplicate
    generation_balance_servi.Billing.resolve_turns
redelivered_test = refl

-- The keyspace after a generation that was charged nothing.
abbrev settled_free : Machine
settled_free = record machine {
  world = record {
    redis =
        (Redis.settle
          (record settle_fifteen {
            billed = pos 0;
            refund_paid = pos 200000;
            refunded_surplus = pos 200000;
          })
          one_running).1;
    table = [];
  };
}

-- Delivered again, the request that was charged nothing is told the authorized cost.
free_charge_test :
    (execute_generation config twenty premium_request settled_free).0
    ≡ returned (record { client_request_id = 42; content = "text"; billed_cost_usd = cents 20 })
unfolding program Redis.reserve generation_balance_servi.Billing.resolve_duplicate
    generation_balance_servi.Billing.resolve_turns
free_charge_test = refl

-- A user of whom Redis has no balance yet.
ensure_loaded_ends_example :
    Outcome (IsRecent 8) (λ e m'. Unit {0}) (ensure_loaded config 8 (began machine))
ensure_loaded_ends_example = ensure_loaded_ends config 8 machine (tt, tt, ((tt, tt), (tt, tt), tt))

apply_top_up_ends_example :
    Outcome
      (λ done m'. (validate gift ≡ ok tt) × HasMarker 11 m'.world.redis)
      (λ e m'. Unit {0})
      (apply_top_up config gift machine)
apply_top_up_ends_example = apply_top_up_ends config gift machine

-- Another process credits the same operation meanwhile.
apply_top_up_once_example :
    Outcome
      (λ done m'. Credited 11 (λ n. n ≡ 1) one_user m'.world.redis)
      (λ e m'. Credited 11 (λ n. n ≤ 1) one_user m'.world.redis)
      (apply_top_up config gift machine)
apply_top_up_once_example = apply_top_up_once config gift machine (tt, tt, ((tt, tt), (tt, tt), tt))

abbrev later : Machine
later = record machine { world = record { redis = one_running; table = [] }; schedule = [] }

settle_args_total_example :
    (a : SettleArgs) × (settle_args default_store_config 7 42 "text"
        (charge premium_authorization.debit_plan (cents 15))
        (cents 15)
        (surplus_refund premium_authorization.debit_plan premium_authorization.debit_policy
          (charge premium_authorization.debit_plan (cents 15)))
      ≡ ok a)
unfolding authorize models snapshot_from_hash micros_to_money scale build_plan fill ◌-ℤ◌ min_ℤ
settle_args_total_example =
    settle_args_total default_store_config premium_request dollar_hash
      {auth = premium_authorization} refl "text" (cents 15)

abbrev settle_billed : SettleArgs
settle_billed = record settle_fifteen { provider_billed = cents 15 }

settle_charges_example :
    (micros_to_money
        (money_held 7 one_running -ℤ money_held 7 (Redis.settle settle_billed one_running).1)
      ≡ charge premium_authorization.debit_plan (cents 15))
    × (held Field.requests 7 (Redis.settle settle_billed one_running).1 +ℤ pos 0
        ≡ held Field.requests 7 one_running)
unfolding authorize models snapshot_from_hash micros_to_money scale build_plan fill ◌-ℤ◌ min_ℤ
    plan_args money_to_micros charge quantize_money total_usd surplus_refund Redis.reserve
    Redis.settle insert ◌+ℤ◌ max_ℤ
settle_charges_example =
    settle_charges default_store_config premium_request dollar_hash {auth = premium_authorization}
      refl "text" (cents 15) one_running {g = new_record reserve_twenty} {a = settle_billed} refl
      refl refl refl refl
