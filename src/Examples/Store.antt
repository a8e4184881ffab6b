-- ===== src/Examples/Store.antt =====
-- The store's methods against a wire that loses replies, and a reservation from a snapshot.
use generation_balance_servi.Base.{
  ℕ, ◌≡◌, refl, ℤ, pos, ◌≤ℤ◌, Option, none, some, List, [], ◌∷◌, lookup, arith,
}
use generation_balance_servi.Errors.{ok}
use generation_balance_servi.Money.{cents, money_to_micros, micros_to_money}
use generation_balance_servi.Policy.{authorize, build_plan, fill, models}
use generation_balance_servi.Redis.{
  Call, exec, run, ReserveArgs, debit, reserve, settle, refund, top_up,
}
use generation_balance_servi.Redis.Generations.{Keeps}
use generation_balance_servi.Store.{ReserveOutcome, StoreConfig, default_store_config}
use generation_balance_servi.Store.{
  Fault, delivered, request_lost, reply_lost, Attempt, retrying, retrying_from,
}
use generation_balance_servi.Store.{snapshot_args, plan_args, snapshot_from_hash, plan_from_fields}
use generation_balance_servi.Store.Methods
use generation_balance_servi.Store.Methods.{reserve_args}
use generation_balance_servi.Store.Retry.{RecognisesItself, Linearised, retrying-Linearised}
use generation_balance_servi.Redis.Credits.{KeepsMarker}
use generation_balance_servi.Store.Recognises.{
  HasRecord, IsFinished, HasMarker, reserve-RecognisesItself, settle-RecognisesItself,
  refund-RecognisesItself, top_up-RecognisesItself,
}
use generation_balance_servi.Store.RoundTrip.{
  snapshot_args-snapshot_from_hash, plan_from_fields-plan_args,
}
use generation_balance_servi.Store.Reservation.{IsSolvent, reserve_args_total, reserve_on_snapshot}
use generation_balance_servi.Examples.Policy.{premium_request, premium_authorization}
use generation_balance_servi.Examples.Redis.{
  one_user, dollar_hash, twenty_cents, reserve_twenty, settle_fifteen, refund_twenty, top_up_dollar,
}

-- The first reply is lost; before the second attempt someone tops the balance up.
abbrev lossy : List Attempt
lossy =
    record { before = []; fault = reply_lost }
    ∷ record { before = Call.top_up top_up_dollar ∷ []; fault = request_lost }
    ∷ []

retry_test :
    (Methods.reserve default_store_config 5 lossy premium_request
      (pos 4)
      premium_authorization.debit_plan
      (cents 20)
      (pos 100)
      one_user).0
    ≡ ok ReserveOutcome.reserved
unfolding Methods.reserve plan_args money_to_micros retrying
    generation_balance_servi.Store.reserve_outcome reserve run exec top_up
    generation_balance_servi.Base.insert
retry_test = refl

retrying-Linearised_example :
    Linearised
      (reserve reserve_twenty)
      (Call.top_up top_up_dollar ∷ [])
      one_user
      (retrying 3 lossy (reserve reserve_twenty) one_user).0
      (retrying 3 lossy (reserve reserve_twenty) one_user).1
retrying-Linearised_example =
    retrying-Linearised (reserve-RecognisesItself reserve_twenty) 3 lossy one_user (tt, tt)

reserve-RecognisesItself_example :
    RecognisesItself (reserve reserve_twenty) (HasRecord 42) (Keeps 42)
reserve-RecognisesItself_example = reserve-RecognisesItself reserve_twenty

settle-RecognisesItself_example :
    RecognisesItself (settle settle_fifteen) (IsFinished 42) (Keeps 42)
settle-RecognisesItself_example = settle-RecognisesItself settle_fifteen

refund-RecognisesItself_example : RecognisesItself (refund refund_twenty) (IsFinished 42) (Keeps 42)
refund-RecognisesItself_example = refund-RecognisesItself refund_twenty

top_up-RecognisesItself_example :
    RecognisesItself (top_up top_up_dollar) (HasMarker 11) (KeepsMarker 11)
top_up-RecognisesItself_example = top_up-RecognisesItself top_up_dollar

snapshot_args-snapshot_from_hash_example :
    snapshot_args (snapshot_from_hash dollar_hash) ≡ ok dollar_hash
snapshot_args-snapshot_from_hash_example = snapshot_args-snapshot_from_hash dollar_hash

plan_from_fields-plan_args_example :
    plan_from_fields twenty_cents ≡ premium_authorization.debit_plan
unfolding plan_args money_to_micros
plan_from_fields-plan_args_example =
    plan_from_fields-plan_args premium_authorization.debit_plan {p = twenty_cents} refl

reserve_args_total_example :
    (a : ReserveArgs) × (reserve_args default_store_config 5 premium_request
        (pos 4)
        premium_authorization.debit_plan
        (cents 20)
        (pos 100)
      ≡ ok a)
unfolding authorize models snapshot_from_hash micros_to_money generation_balance_servi.Base.scale
    build_plan fill generation_balance_servi.Base.◌-ℤ◌ generation_balance_servi.Base.min_ℤ
reserve_args_total_example =
    reserve_args_total default_store_config 5 premium_request dollar_hash
      {auth = premium_authorization} (pos 100) refl

reserve_on_snapshot_example :
    (lookup 7 (run (Call.expire_load_lock 7 ∷ []) one_user).balances ≡ some dollar_hash)
    × (lookup 7 (reserve reserve_twenty (run (Call.expire_load_lock 7 ∷ []) one_user)).1.balances
        ≡ some (debit twenty_cents dollar_hash))
    × IsSolvent (debit twenty_cents dollar_hash)
unfolding authorize models snapshot_from_hash micros_to_money generation_balance_servi.Base.scale
    build_plan fill generation_balance_servi.Base.◌-ℤ◌ generation_balance_servi.Base.min_ℤ plan_args
    money_to_micros reserve run exec generation_balance_servi.Base.◌+ℤ◌
reserve_on_snapshot_example =
    reserve_on_snapshot default_store_config 5 premium_request dollar_hash
      {auth = premium_authorization} (pos 100) refl (Call.expire_load_lock 7 ∷ []) one_user
      {a = reserve_twenty} {v = pos 5} refl (tt, tt) refl refl
