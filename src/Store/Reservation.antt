-- ===== src/Store/Reservation.antt =====
-- A reservation that Redis accepts was computed by the policy on the very balance that it debits.
use generation_balance_servi.Base.{
  ℕ, ◌≡◌, refl, sym, subst, ◌∙◌, inl, inr, Bool-cases, ℤ, pos, ◌-ℤ◌, ◌≤ℤ◌, ◌==ℤ◌, ==ℤ→eq, Option,
  none, some, Option-cases, List, lookup, lookup-insert_self, int_laws, arith,
}
use generation_balance_servi.Errors.{ok, >>=-eq-ok}
use generation_balance_servi.Money.{money_to_micros}
use generation_balance_servi.Policy.{
  GenerationRequest, Authorization, DebitPlan, available, authorize,
}
use generation_balance_servi.Policy.Access.{authorize-IsAuthorized}
use generation_balance_servi.Policy.Plan.{IsCovered}
use generation_balance_servi.Policy.Exact.{IsExact-converts, AllExact, authorize-AllExact}
use generation_balance_servi.Redis
use generation_balance_servi.Redis.{
  Redis, Call, run, BalanceHash, Amounts, ReserveArgs, ReserveReply, debit, new_record,
}
use generation_balance_servi.Redis.Versions.{All, IsForward, Later, run-Later}
use generation_balance_servi.Store.Types.{StoreConfig}
use generation_balance_servi.Store.Codec.{snapshot_from_hash, plan_args, plan_from_fields}
use generation_balance_servi.Store.RoundTrip.{plan_from_fields-plan_args, micros_le}
use generation_balance_servi.Store.Methods.{reserve_args}

-- No field of a balance is negative.
pub record IsSolvent (b : BalanceHash) : Type 0 where
  pub free : pos 0 ≤ℤ b.free_usd
  pub bonus : pos 0 ≤ℤ b.bonus_usd
  pub paid : pos 0 ≤ℤ b.paid_usd
  pub requests : pos 0 ≤ℤ b.free_requests

-- RESERVE accepts only the version that it was given, and debits that balance.
reserve_ok :
    (a : ReserveArgs) (r : Redis) {v : ℤ}
    → (Redis.reserve a r).0 ≡ ReserveReply.ok v
    → (b : BalanceHash) × (lookup a.user_id r.balances ≡ some b)
      × (b.version ≡ a.expected_version)
      × (lookup a.user_id (Redis.reserve a r).1.balances ≡ some (debit a.plan b))
unfolding Redis.reserve
reserve_ok a r {v} h = elim (Option-cases (lookup a.client_request_id r.generations)) [
  | inr (g, e) ↦ absurd (ground arith)
  | inl e ↦ elim (Option-cases (lookup a.user_id r.balances)) [
    | inl m ↦ absurd (ground arith)
    | inr (b, m) ↦ elim (Bool-cases (b.version ==ℤ a.expected_version)) [
      | inr q ↦ absurd (ground arith)
      | inl q ↦ (
        b,
        m,
        ==ℤ→eq _ _ q,
        ground (arith, lookup-insert_self a.user_id (debit a.plan b) r.balances),
      )
    ]
  ]
]

-- With the version unchanged, a later balance is the earlier one.
same_version :
    (o o' : Option BalanceHash) (b b' : BalanceHash)
    → Later o o'
    → o ≡ some b
    → o' ≡ some b'
    → b'.version ≡ b.version
    → b' ≡ b
same_version none o' b b' l e e' v = cc
same_version (some x) none b b' l e e' v = cc
same_version (some x) (some x') b b' l e e' v = ground arith

sub_nonneg : (x y : ℤ) → y ≤ℤ x → pos 0 ≤ℤ x -ℤ y
sub_nonneg x y h = omega int_laws

covered_debit :
    (b : BalanceHash) (p : Amounts)
    → IsCovered (plan_from_fields p) (snapshot_from_hash b).view
    → p.free_requests ≤ℤ b.free_requests
    → IsSolvent (debit p b)
unfolding plan_from_fields snapshot_from_hash
covered_debit b p c q = record {
  free = sub_nonneg _ _ (micros_le _ _ c.free_le);
  bonus = sub_nonneg _ _ (micros_le _ _ c.bonus_le);
  paid = sub_nonneg _ _ (micros_le _ _ c.paid_le);
  requests = sub_nonneg _ _ q;
}

granted_requests :
    (b : BalanceHash) (p : Amounts) {plan : DebitPlan}
    → plan_from_fields p ≡ plan
    → plan.free_requests ≤ℤ (snapshot_from_hash b).free_requests
    → p.free_requests ≤ℤ b.free_requests
unfolding plan_from_fields snapshot_from_hash
granted_requests b p e h = subst (λ (q : DebitPlan). q.free_requests ≤ℤ b.free_requests) (sym e) h

reserve_args-parts :
    (config : StoreConfig) (token : ℕ) (request : GenerationRequest) (version : ℤ)
    (auth : Authorization) (started : ℤ) {a : ReserveArgs}
    → reserve_args config token request version auth.debit_plan auth.estimated_cost_usd started
      ≡ ok a
    → (plan_args auth.debit_plan ≡ ok a.plan)
      × (a.user_id ≡ request.user_id)
      × (a.expected_version ≡ version)
reserve_args-parts config token request version auth started e =
    let (p, ep, e₁) = >>=-eq-ok (plan_args auth.debit_plan) _ e in
    let (c, ec, e₂) = >>=-eq-ok (money_to_micros auth.estimated_cost_usd) _ e₁ in (cc, cc, cc)

module _ (config : StoreConfig) (token : ℕ) (request : GenerationRequest) (b : BalanceHash)
    {auth : Authorization} (started : ℤ)
    (granted : authorize request (snapshot_from_hash b).view ≡ ok auth) where
  -- What the policy authorizes on a snapshot read from Redis always converts to the arguments of
  -- RESERVE: no amount is finer than a micro-dollar.
  pub reserve_args_total :
      (a : ReserveArgs) × (reserve_args config token request b.version auth.debit_plan
          auth.estimated_cost_usd started
        ≡ ok a)
  unfolding snapshot_from_hash plan_args
  reserve_args_total =
      let exact : AllExact (available (snapshot_from_hash b).view) = record {
        free = (b.free_usd, refl);
        bonus = (b.bonus_usd, refl);
        paid = (b.paid_usd, refl);
      } in
      let (plan, cost) = authorize-AllExact request (snapshot_from_hash b).view exact granted in
      let (f, ef) = IsExact-converts plan.free in
      let (q, eq) = IsExact-converts plan.bonus in
      let (p, ep) = IsExact-converts plan.paid in
      let (c, ec) = IsExact-converts cost in
      (
        record {
          expected_version = b.version;
          user_id = request.user_id;
          dialog_id = request.dialog_id;
          model_name = request.model_name;
          plan = record {
            free_usd = f;
            bonus_usd = q;
            paid_usd = p;
            free_requests = auth.debit_plan.free_requests;
          };
          authorized_cost = c;
          started_at = started;
          ttl = config.generation_record_ttl_seconds;
          client_request_id = request.client_request_id;
          reservation_token = token;
        },
        rw (ef, eq, ep, ec) refl,
      )

  -- Suppose the policy authorizes a request on the snapshot of a balance that Redis holds, other
  -- processes then make any calls whose ADVANCE_VERSION go forward, and RESERVE is called with
  -- the snapshot's version and the authorized plan. If RESERVE replies OK, the user's balance at
  -- that moment is still the one that the policy saw, exactly the plan is debited from it, and no
  -- field of the debited balance is negative.
  pub reserve_on_snapshot :
      (calls : List Call) (r : Redis) {a : ReserveArgs} {v : ℤ}
      → lookup request.user_id r.balances ≡ some b
      → All IsForward calls
      → reserve_args config token request b.version auth.debit_plan auth.estimated_cost_usd started
        ≡ ok a
      → (Redis.reserve a (run calls r)).0 ≡ ReserveReply.ok v
      → (lookup request.user_id (run calls r).balances ≡ some b)
        × (lookup request.user_id (Redis.reserve a (run calls r)).1.balances
            ≡ some (debit a.plan b))
        × IsSolvent (debit a.plan b)
  reserve_on_snapshot calls r {a} {v} at forward args accepted =
      let (p, u, version) = reserve_args-parts config token request b.version auth started args in
      let (b', m, w, m') = reserve_ok a (run calls r) accepted in
      let m₁ : lookup request.user_id (run calls r).balances ≡ some b' = rw (← u) m in
      let same : b' ≡ b =
        same_version _ _ b b' (run-Later calls r request.user_id forward) at m₁ (w ∙ version) in
      let ok_auth = authorize-IsAuthorized request (snapshot_from_hash b).view granted in
      let plan = plan_from_fields-plan_args auth.debit_plan p in
      (
        rw (← same) m₁,
        rw (← u, ← same) m',
        covered_debit b a.plan (rw plan ok_auth.covered)
            (granted_requests b a.plan plan ok_auth.requests_le),
      )
