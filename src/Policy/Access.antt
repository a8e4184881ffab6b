-- ===== src/Policy/Access.antt =====
-- Whom `authorize` admits, at what price, and with which error it refuses.
use generation_balance_servi.Base.{
  ◌≡◌, refl, sym, ◌∙◌, ◌↔◌, ◌⊎◌, Bool, true, false, inl, inr, ℤ, pos, ltb_ℤ, leb_ℤ, ◌&&◌,
  if◌then◌else◌, ◌≤ℤ◌, ◌<ℤ◌, Option, some, arith, String,
}
use generation_balance_servi.Errors.{
  Error, ◌>>=◌, ◌>>◌, >>=-eq-ok, ok, raise, insufficient_balance, free_requests_exhausted,
  conditional_free_access_denied,
}
use generation_balance_servi.Money.{Decimal}
use generation_balance_servi.Policy.Types.{
  AccessType, BalanceView, DebitPlan, total_usd, DebitPolicy, GenerationModel, models,
  GenerationRequest, Authorization,
}
use generation_balance_servi.Policy.Authorize.{
  build_plan, available, int, Terms, find_model, validate_balance, terms_by_access, authorize,
}
use generation_balance_servi.Policy.Fill.{IsNonneg}
use generation_balance_servi.Policy.Plan.{IsCovered, build_plan_sound}

-- A balance that `_validate_balance` accepts.
pub record IsValid (b : BalanceView) : Type 0 where
  pub funds : IsNonneg (available b)
  pub free_requests : pos 0 ≤ℤ b.free_requests

-- Every model has positive prices.
pub models_pos :
    (name : String) {m : GenerationModel}
    → models name ≡ some m
    → (pos 0 <ℤ m.free_cost_usd) × (pos 0 <ℤ m.paid_cost_usd)
unfolding models
models_pos name e = ground arith

if_cases {ℓ} :
    {A : Type ℓ} (c : Bool) (e : Error) (x : A)
    → ((if c then raise e else ok x) ≡ raise e) ⊎ ((y : A) × ((if c then raise e else ok x) ≡ ok y))
if_cases true e x = inl refl
if_cases false e x = inr (x, refl)

pub build_plan_cases :
    (b : BalanceView) (amount : Decimal) (policy : DebitPolicy) (consumes : Bool)
    → (build_plan b amount policy consumes ≡ raise insufficient_balance)
      ⊎ ((plan : DebitPlan) × (build_plan b amount policy consumes ≡ ok plan))
unfolding build_plan
build_plan_cases b amount policy consumes = if_cases _ insufficient_balance _

-- The balance that `authorize` accepts is valid, and the model is one of the table.
pub record IsAuthorized (request : GenerationRequest) (b : BalanceView) (a : Authorization)
    : Type 0 where
  pub valid : IsValid b
  pub known : models request.model_name ≡ some a.model
  pub priced : pos 0 <ℤ a.estimated_cost_usd
  pub total : total_usd a.debit_plan ≡ a.estimated_cost_usd
  pub covered : IsCovered a.debit_plan b
  pub requests_nonneg : pos 0 ≤ℤ a.debit_plan.free_requests
  pub requests_le : a.debit_plan.free_requests ≤ℤ b.free_requests

validate_balance-IsValid : (b : BalanceView) {u : Unit {0}} → validate_balance b ≡ ok u → IsValid b
unfolding validate_balance
validate_balance-IsValid b h = ground arith

-- The steps that a successful call went through.
pub record Steps (request : GenerationRequest) (b : BalanceView) (a : Authorization) (t : Terms)
    : Type 0 where
  pub valid : IsValid b
  pub known : models request.model_name ≡ some a.model
  pub terms :
      terms_by_access a.model.access_type a.model request.conditional_free_eligible b
        (ltb_ℤ (pos 0) b.paid_usd)
      ≡ ok t
  pub granted : (t.consumes_free_request && leb_ℤ b.free_requests (pos 0)) ≡ false
  pub plan :
      build_plan b t.estimated_cost_usd t.debit_policy t.consumes_free_request ≡ ok a.debit_plan
  pub cost : a.estimated_cost_usd ≡ t.estimated_cost_usd
  pub policy : a.debit_policy ≡ t.debit_policy

guard_passed :
    (c : Bool) (e : Error) {u : Unit {0}} → (if c then raise e else ok tt) ≡ ok u → c ≡ false
guard_passed true e h = cc
guard_passed false e h = refl

find_model-ok :
    (o : Option GenerationModel) {m : GenerationModel} → find_model o ≡ ok m → o ≡ some m
find_model-ok o h = ground arith

int_nonneg : (c : Bool) → pos 0 ≤ℤ int c
int_nonneg true = omega arith
int_nonneg false = omega arith

int_le : (c : Bool) (r : ℤ) → pos 0 ≤ℤ r → (c && leb_ℤ r (pos 0)) ≡ false → int c ≤ℤ r
int_le true r h e = ground arith
int_le false r h e = omega arith

pub terms_price :
    {t : Terms} (m : GenerationModel) (eligible : Bool) (b : BalanceView) (has_paid : Bool)
    → terms_by_access m.access_type m eligible b has_paid ≡ ok t
    → pos 0 <ℤ m.free_cost_usd
    → pos 0 <ℤ m.paid_cost_usd
    → pos 0 <ℤ t.estimated_cost_usd
unfolding terms_by_access
terms_price m eligible b has_paid e f p = ground arith

validate_balance-ok : {b : BalanceView} → IsValid b → validate_balance b ≡ ok tt
unfolding validate_balance
validate_balance-ok v = ground arith

module _ (request : GenerationRequest) (b : BalanceView) where
  pub authorize-Steps :
      {a : Authorization} → authorize request b ≡ ok a → (t : Terms) × Steps request b a t
  unfolding authorize
  authorize-Steps {a} e =
      let (model, em, e₁) = >>=-eq-ok (find_model (models request.model_name)) _ e in
      let (u, ev, e₂) = >>=-eq-ok (validate_balance b) _ e₁ in
      let (t, et, e₃) =
        >>=-eq-ok
          (terms_by_access model.access_type model request.conditional_free_eligible b
            (ltb_ℤ (pos 0) b.paid_usd))
          _ e₂ in
      let (v, eg, e₄) =
        >>=-eq-ok
          (if t.consumes_free_request && leb_ℤ b.free_requests (pos 0)
            then raise free_requests_exhausted
            else ok tt)
          _ e₃ in
      let (p, ep, e₅) =
        >>=-eq-ok (build_plan b t.estimated_cost_usd t.debit_policy t.consumes_free_request) _ e₄ in
      let known : models request.model_name ≡ some model = find_model-ok _ em in
      let same : a.model ≡ model = cc in
      (
        t,
        record {
          valid = validate_balance-IsValid b ev;
          known = cc;
          terms = rw same et;
          granted = guard_passed _ _ eg;
          plan = cc;
          cost = cc;
          policy = cc;
        },
      )

  -- A request that is authorized names a known model, on a balance without a negative value; the
  -- plan comes to exactly the positive authorized cost, takes no negative amount and no more than
  -- the balance holds from any bucket, and takes no more free requests than there are.
  pub authorize-IsAuthorized :
      {a : Authorization} → authorize request b ≡ ok a → IsAuthorized request b a
  unfolding terms_by_access
  authorize-IsAuthorized {a} e =
      let (t, s) = authorize-Steps e in
      let price = models_pos request.model_name s.known in
      let cost : pos 0 <ℤ t.estimated_cost_usd = terms_price _ _ _ _ s.terms price.0 price.1 in
      let sound =
        build_plan_sound b t.estimated_cost_usd t.debit_policy t.consumes_free_request s.valid.funds
          (omega arith) s.plan in
      record {
        valid = s.valid;
        known = s.known;
        priced = rw s.cost cost;
        total = sound.0 ∙ sym s.cost;
        covered = sound.1;
        requests_nonneg = rw sound.2 (int_nonneg t.consumes_free_request);
        requests_le = rw sound.2 (int_le _ _ s.valid.free_requests s.granted);
      }

module _ (request : GenerationRequest) (b : BalanceView) {m : GenerationModel}
    (known : models request.model_name ≡ some m) (valid : IsValid b) where
  unfolded : authorize request b ≡ (do
    t ←
        terms_by_access m.access_type m request.conditional_free_eligible b
          (ltb_ℤ (pos 0) b.paid_usd)
    (if t.consumes_free_request && leb_ℤ b.free_requests (pos 0)
        then raise free_requests_exhausted
        else ok tt)
    plan ← build_plan b t.estimated_cost_usd t.debit_policy t.consumes_free_request
    ok (record {
      model = m;
      debit_policy = t.debit_policy;
      estimated_cost_usd = t.estimated_cost_usd;
      debit_plan = plan;
    }))
  unfolding authorize
  unfolded = rw (known) (rw (validate_balance-ok valid) refl)

  -- For a known model and a valid balance, authorize raises ConditionalFreeAccessDeniedError
  -- exactly when the model is the conditional one, the user is not eligible, and the paid funds
  -- are below its paid price.
  pub authorize_denied_iff : (authorize request b ≡ raise conditional_free_access_denied) ↔ (
      (m.access_type ≡ AccessType.conditional_free)
      × (request.conditional_free_eligible ≡ false)
      × (b.paid_usd <ℤ m.paid_cost_usd))
  unfolding terms_by_access
  authorize_denied_iff = (
    λ e. ground (
      arith,
      unfolded,
      models_pos request.model_name known,
      build_plan_cases b m.paid_cost_usd DebitPolicy.paid_only false,
      build_plan_cases b m.paid_cost_usd DebitPolicy.default false,
      build_plan_cases b m.free_cost_usd DebitPolicy.default true,
      build_plan_cases b m.free_cost_usd DebitPolicy.paid_then_free_then_bonus true,
    ),
    λ e. ground (arith, unfolded, models_pos request.model_name known),
  )

  -- For a known model and a valid balance, authorize raises FreeRequestsExhaustedError exactly
  -- when no free request is left and the call needs one: a free model without paid funds, or the
  -- conditional model for an eligible user whose paid funds are below its paid price.
  pub authorize_exhausted_iff : (authorize request b ≡ raise free_requests_exhausted) ↔ (
      (b.free_requests ≤ℤ pos 0)
      × (((m.access_type ≡ AccessType.free) × (b.paid_usd ≤ℤ pos 0))
          ⊎ ((m.access_type ≡ AccessType.conditional_free)
              × (request.conditional_free_eligible ≡ true)
              × (b.paid_usd <ℤ m.paid_cost_usd))))
  unfolding terms_by_access
  authorize_exhausted_iff = (
    λ e. ground (
      arith,
      unfolded,
      models_pos request.model_name known,
      build_plan_cases b m.paid_cost_usd DebitPolicy.paid_only false,
      build_plan_cases b m.paid_cost_usd DebitPolicy.default false,
      build_plan_cases b m.free_cost_usd DebitPolicy.default true,
      build_plan_cases b m.free_cost_usd DebitPolicy.paid_then_free_then_bonus true,
    ),
    λ e. ground (arith, unfolded, models_pos request.model_name known),
  )
