-- ===== src/Examples/Redis.antt =====
-- The scripts and sequences of commands on a small keyspace.
use generation_balance_servi.Base.{
  ◌≡◌, ◌≤◌, ◌+◌, refl, pos, ◌+ℤ◌, ◌-ℤ◌, some, List, [], ◌∷◌, lookup, insert,
}
use generation_balance_servi.Redis.{
  Redis, Call, exec, run, BalanceHash, Amounts, ReserveArgs, ReserveReply, SettleArgs, RefundArgs,
  TopUpArgs, reserve, settle, refund, top_up, new_record,
}
use generation_balance_servi.Redis.Versions.{Later, run-Later}
use generation_balance_servi.Redis.Generations.{Progress, run-Progress}
use generation_balance_servi.Redis.Ledger.{Field, held, held-reserve, held-top_up}
use generation_balance_servi.Redis.Closings.{recorded, finished, opened, closed, closes_once}
use generation_balance_servi.Redis.Returns.{held-refund, held-settle}

abbrev pub empty : Redis
empty = record {
  balances = [];
  generations = [];
  dirty = [];
  inflight = [];
  top_ups = [];
  load_locks = [];
}

-- One dollar of paid funds, in micro-dollars.
abbrev pub dollar_hash : BalanceHash
dollar_hash = record {
  free_usd = pos 0;
  bonus_usd = pos 0;
  paid_usd = pos 1000000;
  free_requests = pos 0;
  version = pos 4;
}

abbrev pub one_user : Redis
one_user = record empty { balances = (7, dollar_hash) ∷ [] }

-- Twenty cents of paid funds.
abbrev pub twenty_cents : Amounts
twenty_cents = record {
  free_usd = pos 0;
  bonus_usd = pos 0;
  paid_usd = pos 200000;
  free_requests = pos 0;
}

abbrev pub reserve_twenty : ReserveArgs
reserve_twenty = record {
  expected_version = pos 4;
  user_id = 7;
  dialog_id = 3;
  model_name = "premium";
  plan = twenty_cents;
  authorized_cost = pos 200000;
  started_at = pos 100;
  ttl = 86400;
  client_request_id = 42;
  reservation_token = 5;
}

-- The generation is billed fifteen cents, and five go back.
abbrev pub settle_fifteen : SettleArgs
settle_fifteen = record {
  content = "text";
  billed = pos 150000;
  provider_billed = pos 150000;
  ttl = 86400;
  client_request_id = 42;
  user_id = 7;
  refund_free = pos 0;
  refund_bonus = pos 0;
  refund_paid = pos 50000;
  refunded_surplus = pos 50000;
}

abbrev pub refund_twenty : RefundArgs
refund_twenty = record {
  user_id = 7;
  error = "timeout";
  ttl = 86400;
  client_request_id = 42;
  plan = twenty_cents;
}

abbrev pub top_up_dollar : TopUpArgs
top_up_dollar = record {
  operation_id = 11;
  user_id = 7;
  ttl = 86400;
  paid = pos 1000000;
  bonus = pos 0;
  free_requests = pos 1;
}

-- The keyspace while the generation runs.
abbrev pub one_running : Redis
one_running = (reserve reserve_twenty one_user).1

abbrev pub life : List Call
life =
    Call.reserve reserve_twenty
    ∷ Call.settle settle_fifteen
    ∷ Call.refund refund_twenty
    ∷ Call.top_up top_up_dollar
    ∷ []

reserve_test : (reserve reserve_twenty one_user).0 ≡ ReserveReply.ok (pos 5)
unfolding reserve ◌+ℤ◌
reserve_test = refl

reserve_again_test :
    (reserve reserve_twenty one_running).0 ≡ ReserveReply.dup (new_record reserve_twenty)
unfolding reserve insert
reserve_again_test = refl

life_test :
    lookup 7 (run life one_user).balances
    ≡ some (record {
      free_usd = pos 0;
      bonus_usd = pos 0;
      paid_usd = pos 1850000;
      free_requests = pos 1;
      version = pos 7;
    })
unfolding run exec top_up refund settle reserve insert ◌+ℤ◌ ◌-ℤ◌
life_test = refl

run-Later_example : Later (some dollar_hash) (lookup 7 (run life one_user).balances)
run-Later_example = run-Later life one_user 7 (tt, (tt, (tt, (tt, tt))))

run-Progress_example :
    Progress (lookup 42 one_running.generations) (lookup 42 (run life one_running).generations)
run-Progress_example = run-Progress 42 life one_running (tt, (tt, (tt, (tt, tt))))

closes_once_example :
    (recorded 42 one_user + opened 42 life one_user ≤ 1)
    × (finished 42 one_user + closed 42 life one_user
        ≤ recorded 42 one_user + opened 42 life one_user)
closes_once_example = closes_once 42 life one_user (tt, (tt, (tt, (tt, tt))))

held-reserve_example : held Field.paid 7 one_running ≡ held Field.paid 7 one_user
held-reserve_example = held-reserve Field.paid 7 reserve_twenty one_user

held-refund_example :
    held Field.paid 7 (refund refund_twenty one_running).1 ≡ held Field.paid 7 one_running
unfolding reserve insert
held-refund_example =
    held-refund Field.paid 7 refund_twenty one_running {g = new_record reserve_twenty} refl refl
      refl

held-top_up_example :
    held Field.paid 7 (top_up top_up_dollar one_user).1 ≡ held Field.paid 7 one_user +ℤ pos 1000000
unfolding ◌+ℤ◌ top_up
held-top_up_example = held-top_up Field.paid top_up_dollar one_user

held-settle_example :
    held Field.paid 7 (settle settle_fifteen one_running).1 +ℤ pos 200000
    ≡ held Field.paid 7 one_running +ℤ pos 50000
unfolding reserve insert settle
held-settle_example =
    held-settle Field.paid settle_fifteen one_running {g = new_record reserve_twenty} refl refl refl
