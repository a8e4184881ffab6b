-- ===== src/Policy/Types.antt =====
-- The data of the policy: models, requests, top-ups, plans and authorizations.
use generation_balance_servi.Base.{
  ℕ, Bool, ℤ, pos, ◌+ℤ◌, String, str_eq, if◌then◌else◌, Option, none, some, List, [], ◌∷◌,
}
use generation_balance_servi.Money.{Decimal, cents}

pub data AccessType : Type 0 where
  free paid_only conditional_free : AccessType

pub data DebitPolicy : Type 0 where
  default paid_only paid_then_free_then_bonus : DebitPolicy

pub record BalanceView : Type 0 where
  pub free_usd : Decimal
  pub bonus_usd : Decimal
  pub paid_usd : Decimal
  pub free_requests : ℤ

pub record GenerationModel : Type 0 where
  pub name : String
  pub access_type : AccessType
  pub free_cost_usd : Decimal
  pub paid_cost_usd : Decimal

abbrev pub basic : GenerationModel
basic = record {
  name = "basic";
  access_type = AccessType.free;
  free_cost_usd = cents 5;
  paid_cost_usd = cents 8;
}

abbrev pub premium : GenerationModel
premium = record {
  name = "premium";
  access_type = AccessType.paid_only;
  free_cost_usd = cents 20;
  paid_cost_usd = cents 20;
}

abbrev pub conditional : GenerationModel
conditional = record {
  name = "conditional";
  access_type = AccessType.conditional_free;
  free_cost_usd = cents 7;
  paid_cost_usd = cents 12;
}

-- `MODELS.get(name)`; `none` where `MODELS[name]` raises `KeyError`.
unfoldable pub models : String → Option GenerationModel
models name =
    if str_eq name "basic"
    then some basic
    else if str_eq name "premium"
    then some premium
    else if str_eq name "conditional"
    then some conditional
    else none

pub record GenerationRequest : Type 0 where
  pub user_id : ℕ
  pub dialog_id : ℕ
  pub client_request_id : ℕ
  pub model_name : String
  pub conditional_free_eligible : Bool

pub record BalanceTopUp : Type 0 where
  pub operation_id : ℕ
  pub user_id : ℕ
  pub paid_usd : Decimal
  pub bonus_usd : Decimal
  pub free_requests : ℤ

pub record DebitPlan : Type 0 where
  pub free_usd : Decimal
  pub bonus_usd : Decimal
  pub paid_usd : Decimal
  pub free_requests : ℤ

-- `DebitPlan.total_usd`
unfoldable pub total_usd : DebitPlan → Decimal
total_usd plan = plan.free_usd +ℤ plan.bonus_usd +ℤ plan.paid_usd

pub record Authorization : Type 0 where
  pub model : GenerationModel
  pub debit_policy : DebitPolicy
  pub estimated_cost_usd : Decimal
  pub debit_plan : DebitPlan

pub record GenerationResult : Type 0 where
  pub client_request_id : ℕ
  pub content : String
  pub billed_cost_usd : Decimal

-- The keys of the dicts `available`, `used`, `charged` and `refund`, and such a dict.
pub data Bucket : Type 0 where
  free bonus paid : Bucket

pub record Buckets : Type 0 where
  pub free : Decimal
  pub bonus : Decimal
  pub paid : Decimal

abbrev pub get : Buckets → Bucket → Decimal
get d Bucket.free = d.free
get d Bucket.bonus = d.bonus
get d Bucket.paid = d.paid

abbrev pub put : Buckets → Bucket → Decimal → Buckets
put d Bucket.free v = record d { free = v }
put d Bucket.bonus v = record d { bonus = v }
put d Bucket.paid v = record d { paid = v }

abbrev pub no_money : Buckets
no_money = record { free = pos 0; bonus = pos 0; paid = pos 0 }

-- The order in which a policy charges the buckets.
unfoldable pub charge_order : DebitPolicy → List Bucket
charge_order DebitPolicy.paid_only = Bucket.paid ∷ []
charge_order DebitPolicy.paid_then_free_then_bonus = Bucket.paid ∷ Bucket.free ∷ Bucket.bonus ∷ []
charge_order DebitPolicy.default = Bucket.free ∷ Bucket.bonus ∷ Bucket.paid ∷ []

-- The money of a plan, by bucket.
abbrev pub funds : DebitPlan → Buckets
funds plan = record { free = plan.free_usd; bonus = plan.bonus_usd; paid = plan.paid_usd }
