-- ===== src/Lib.antt =====
-- A billing service for generations. A user's balance (free, bonus and paid dollars, and free
-- requests) is hot in Redis and written behind to PostgreSQL. A generation is reserved against the
-- balance under a policy, run by a provider, and then settled or refunded; several processes do
-- this at once, and the connection to Redis may lose a request or a reply.
--
-- Files:
--   Base      names of the library, integers over the native naturals, dictionaries
--   Errors    backend/app/errors.py, and the access errors of backend/domain/generation.py
--   Money     backend/app/shared/ports/billing/balance_store.py: quantize_money, money_to_micros,
--             micros_to_money
--   Policy    backend/domain/generation.py: DebitPolicyService.authorize, _build_plan
--             (build_plan), its loop over the buckets (fill), _validate_balance, MODELS (models)
--   Surplus   backend/app/shared/ports/billing/balance_store.py: surplus_refund
--   Redis     backend/infra/database/redis/scripts.py: one function for each Lua script, from its
--             arguments and the keyspace to its reply and the new keyspace; `Call` is any command
--             that writes, `run` a sequence of them
--   Store     backend/infra/database/redis/adapters/balance_store.py: the codec, _retrying, and
--             the methods of ImplRedisBalanceStore
--   Table     backend/infra/database/psql/repos/balance.py, and the entity of
--             backend/domain/entities/balance.py
--   Flusher   backend/app/billing/flusher.py: flush_once and _repair_regressed; Dirty to Flush are
--             about flushes among other processes, Views to Converges about quiet ones
--   TopUp     backend/app/billing/balance.py: _validate
--   World     Redis and the table together, and what other processes do to them
--   Machine   a computation that waits: the world, a clock, the next token, and the schedule of
--             what happens at each `await`, and a history of the keyspaces that its calls
--             left, which only the theorems read; Machine/Rules says how a computation goes on
--   Billing   backend/app/billing, one method a computation of the machine:
--     Configs     config.py: BillingConfig, and the store's own configuration beside it
--     Remote      the store's methods as calls that wait
--     Loader      balance_loader.py: ensure_loaded, _load_from_db
--     Refunder    refund.py: ReservationRefunder.refund
--     Reaper      reaper.py: reap_once
--     Generation  generation.py: execute_generation, _reserve, _denied_or_duplicate,
--                 _resolve_duplicate, _settle
--     Balances    balance.py: apply_top_up, get_balance
--     the others  what these computations do: Calm and Denials which errors they raise, Steps and
--                 Outcomes a single call, Loaded to Reaped one method each, Charged and Converted
--                 a settlement, Answers what a result has to do with the record, and Promises,
--                 Redelivered, Once and Credited the services for their callers
--   FakeProvider  backend/domain/generation.py: FakeGenerationProvider and its shared state, with
--             overlapping calls of several processes as steps
--   Examples  tests, and the theorems at concrete inputs
--
-- How they interact: the policy reads a snapshot of a balance and returns a plan; the adapter
-- converts the plan to micro-dollars and calls RESERVE with the snapshot's version; the scripts
-- make every later change of the balance and of the generation's record. The flusher copies dirty
-- balances to the table, and takes the mark off those whose version has not moved. Redis runs one
-- script at a time, so what other processes do is a list of commands, before each attempt of a call
-- and between two calls; for the flusher these steps include the writes of other flushers. The
-- services sit on top: each `await` takes the next moment of the machine's schedule, in which others
-- act, time passes, and the wire of the call loses requests or replies. An exhausted schedule goes on
-- with nobody else and a wire that delivers. GenerationService calls BalanceLoader, the store, the
-- provider and ReservationRefunder in this way, and BalanceService and ReservationReaper likewise.
--
-- Conventions and bounds:
--   - A Decimal is a whole number of units of 10^-28 dollars. More than 28 places, NaN, the
--     infinities and the rounding of Python's decimal context to 28 significant digits are left
--     out.
--   - UUIDs and tokens are natural numbers, since the code compares and sorts them only. Times are
--     integers.
--   - Numbers that Redis keeps as decimal strings are integers. HINCRBY fails beyond 64 bits; the
--     model has no such bound. RESERVE negates an amount as text, which is a number only for an
--     amount that is not negative, as those of an authorized plan are.
--   - A key's time to live is a field, and its end a command of its own (`Call.expire_generation`).
--     A balance has no time to live. An eviction or a restart of Redis is not modelled.
--   - `_retrying` recurs on the list of what happens to each attempt; attempts beyond the list are
--     delivered, so the recursion is structural and needs no fuel. Loops over a batch or over a
--     number of attempts recur on the list or on the number.
--   - The two loops of the services that run until a deadline, the load of a balance and the wait
--     for an earlier delivery, take turns as fuel: the wait in milliseconds and a few turns more. A
--     turn that does not end the loop sleeps for a millisecond at least, so the deadline passes
--     first; a computation that runs out of turns would be `waiting`, which the theorems exclude.
--   - Times of the services are in milliseconds, by one clock for the wall and the event loop; a
--     schedule never turns it back. A random token is the next number that was not given out, so
--     that two reservations never share one. The random part of a sleep is zero or more time that
--     passes in the schedule.
--   - The provider is an argument, a function from the request and the authorized cost to an
--     answer, a failure or a cancellation; it is given up when its moment takes longer than the
--     timeout. A cancellation of the caller elsewhere is not modelled.
--   - An upsert is a fold over its rows. The flusher's transaction is one step: the upsert keeps the
--     rows that it met locked until the commit, the rejected ones included.
--   - The random choice of dirty_users is an argument. The text of keys, money_to_str and
--     str_to_money, the adapter's sleeps between retries, and logging are left out.
--
-- Not modelled: the loop of the flusher's `run`, which calls flush_once and reap_once in turn;
-- sessions and errors of PostgreSQL; how long the provider of the tests sleeps; reading the
-- configuration, wiring and entry points; logging.
pub mod Base
pub mod Errors
pub mod Money
pub mod Policy
pub mod Surplus
pub mod Redis
pub mod Store
pub mod Table
pub mod World
pub mod Machine
pub mod Billing
pub mod Flusher
pub mod TopUp
pub mod FakeProvider
pub mod Examples
