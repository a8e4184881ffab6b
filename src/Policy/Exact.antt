-- ===== src/Policy/Exact.antt =====
-- Plans over a balance in whole micro-dollars are in whole micro-dollars, so the store can convert
-- them without a `ValueError`.
use generation_balance_servi.Base.{
  ◌≡◌, refl, subst, inl, inr, ◌⊎◌, ℕ, ◌*◌, scale, ℤ, pos, ◌-ℤ◌, min_ℤ, min_ℤ_cases, Bool, true,
  false, if◌then◌else◌, List, [], ◌∷◌, some, int_laws, arith, String,
}
use generation_balance_servi.Errors.{Error, ok, raise, insufficient_balance}
use generation_balance_servi.Money.{Decimal, cents, money_to_micros, micros_to_money}
use generation_balance_servi.Money.Conversion.{
  micros_to_money_parts, money_to_micros-micros_to_money,
}
use generation_balance_servi.Policy.Types.{
  Bucket, Buckets, get, put, no_money, charge_order, funds, AccessType, GenerationRequest,
  Authorization, models, basic, premium, conditional, GenerationModel, BalanceView, DebitPlan,
  DebitPolicy,
}
use generation_balance_servi.Policy.Authorize.{
  fill, build_plan, available, authorize, Terms, terms_by_access,
}
use generation_balance_servi.Policy.Access.{authorize-Steps}

-- A whole number of micro-dollars.
abbrev pub IsExact : Decimal → Type 0
IsExact d = (m : ℤ) × (micros_to_money m ≡ d)

pub IsExact-converts : {d : Decimal} → IsExact d → (m : ℤ) × (money_to_micros d ≡ ok m)
IsExact-converts e = (e.0, rw (← e.1) (money_to_micros-micros_to_money e.0))

pub record AllExact (b : Buckets) : Type 0 where
  pub free : IsExact b.free
  pub bonus : IsExact b.bonus
  pub paid : IsExact b.paid

pub IsExact-zero : IsExact (pos 0)
IsExact-zero = (pos 0, omega (int_laws, micros_to_money_parts (pos 0)))

micros_to_money-sub : (a b : ℤ) → micros_to_money (a -ℤ b) ≡ micros_to_money a -ℤ micros_to_money b
micros_to_money-sub a b =
    omega
      (int_laws, micros_to_money_parts a, micros_to_money_parts b, micros_to_money_parts (a -ℤ b))

pub IsExact-sub : {c d : Decimal} → IsExact c → IsExact d → IsExact (c -ℤ d)
IsExact-sub {c} {d} x y = (x.0 -ℤ y.0, rw (micros_to_money-sub x.0 y.0, x.1, y.1) refl)

pub IsExact-min : {c d : Decimal} → IsExact c → IsExact d → IsExact (min_ℤ c d)
IsExact-min {c} {d} x y = elim (min_ℤ_cases c d) [ inl e ↦ rw e.0 x | inr e ↦ rw e.0 y ]

get-IsExact : (k : Bucket) {b : Buckets} → AllExact b → IsExact (get b k)
get-IsExact Bucket.free a = a.free
get-IsExact Bucket.bonus a = a.bonus
get-IsExact Bucket.paid a = a.paid

put-AllExact :
    (k : Bucket) {b : Buckets} {d : Decimal} → AllExact b → IsExact d → AllExact (put b k d)
put-AllExact Bucket.free a e = record { free = e; bonus = a.bonus; paid = a.paid }
put-AllExact Bucket.bonus a e = record { free = a.free; bonus = e; paid = a.paid }
put-AllExact Bucket.paid a e = record { free = a.free; bonus = a.bonus; paid = e }

if_AllExact :
    (c : Bool) (p q : Buckets × Decimal)
    → AllExact p.0
    → AllExact q.0
    → AllExact (if c then p else q).0
if_AllExact true p q a b = a
if_AllExact false p q a b = b

pub fill-AllExact :
    (stock : Buckets) (order : List Bucket) (used : Buckets) (remaining : Decimal)
    → AllExact stock
    → AllExact used
    → IsExact remaining
    → AllExact (fill stock order used remaining).0
unfolding fill
fill-AllExact stock [] used remaining s u r = u
fill-AllExact stock (k ∷ order) used remaining s u r =
    let taken = min_ℤ (get stock k) remaining in
    let t : IsExact taken = IsExact-min (get-IsExact k s) r in
    let u' = put-AllExact k u t in
    if_AllExact _ _ _ u'
      (fill-AllExact stock order (put used k taken) (remaining -ℤ taken) s u' (IsExact-sub r t))

IsExact-cents : (c : ℕ) → IsExact (cents c)
unfolding micros_to_money scale
IsExact-cents c = (pos (c * 10000), ground arith)

models_cases :
    (name : String) {m : GenerationModel}
    → models name ≡ some m
    → (m ≡ basic) ⊎ (m ≡ premium) ⊎ (m ≡ conditional)
unfolding models
models_cases name e = ground arith

-- Every price is in whole micro-dollars.
pub models-IsExact :
    (name : String) {m : GenerationModel}
    → models name ≡ some m
    → IsExact m.free_cost_usd × IsExact m.paid_cost_usd
models-IsExact name {m} e = elim (models_cases name e) [
  | inl h ↦ rw h (IsExact-cents 5, IsExact-cents 8)
  | inr (inl h) ↦ rw h (IsExact-cents 20, IsExact-cents 20)
  | inr (inr h) ↦ rw h (IsExact-cents 7, IsExact-cents 12)
]

eq_of_if_ok :
    (c : Bool) (e : Error) (x : DebitPlan) {y : DebitPlan}
    → (if c then raise e else ok x) ≡ ok y
    → x ≡ y
eq_of_if_ok true e x h = cc
eq_of_if_ok false e x h = cc

build_plan-AllExact :
    (b : BalanceView) (amount : Decimal) (policy : DebitPolicy) (consumes : Bool) {plan : DebitPlan}
    → AllExact (available b)
    → IsExact amount
    → build_plan b amount policy consumes ≡ ok plan
    → AllExact (funds plan)
unfolding build_plan
build_plan-AllExact b amount policy consumes {plan} s a e =
    let f =
      fill-AllExact (available b) (charge_order policy) no_money amount s
        (record { free = IsExact-zero; bonus = IsExact-zero; paid = IsExact-zero }) a in
    subst (λ p. AllExact (funds p)) (eq_of_if_ok _ insufficient_balance _ e) f

terms-IsExact :
    {t : Terms} (m : GenerationModel) (access : AccessType) (eligible : Bool) (b : BalanceView)
    (has_paid : Bool)
    → terms_by_access access m eligible b has_paid ≡ ok t
    → (t.estimated_cost_usd ≡ m.free_cost_usd) ⊎ (t.estimated_cost_usd ≡ m.paid_cost_usd)
unfolding terms_by_access
terms-IsExact m access eligible b has_paid e = ground arith

-- The plan and the price that are authorized on such a balance convert to micro-dollars.
pub authorize-AllExact :
    (request : GenerationRequest) (b : BalanceView) {a : Authorization}
    → AllExact (available b)
    → authorize request b ≡ ok a
    → AllExact (funds a.debit_plan) × IsExact a.estimated_cost_usd
authorize-AllExact request b {a} exact e =
    let (t, s) = authorize-Steps request b e in
    let prices = models-IsExact request.model_name s.known in
    let cost : IsExact t.estimated_cost_usd = elim (terms-IsExact a.model _ _ b _ s.terms) [
      | inl h ↦ rw h prices.0
      | inr h ↦ rw h prices.1
    ] in
    (build_plan-AllExact b _ _ _ exact cost s.plan, rw s.cost cost)
