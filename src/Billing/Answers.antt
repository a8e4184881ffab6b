-- ===== src/Billing/Answers.antt =====
-- What an answer has to do with the record and with the bill, said without the service's functions.
use generation_balance_servi.Base.{
  ◌≡◌, ◌≢◌, ◌⊎◌, refl, sym, ap, subst, ◌∙◌, pos_part, neg_part, eq_of_parts, scale, inl, inr, ℤ,
  pos, ◌+ℤ◌, ◌≤ℤ◌, ◌<ℤ◌, ◌==ℤ◌, ==ℤ→eq, ◌==◌, ◌&&◌, Bool, Bool-cases, true, false, String, str_eq,
  eq_iff, Option, none, some, lookup, arith, max_ℤ-IsMax, min_ℤ,
}
use generation_balance_servi.Money.{Decimal, micros_to_money, money_quantum}
use generation_balance_servi.Money.Conversion.{quantize_money_bounds, micros_to_money_parts}
use generation_balance_servi.Policy.{GenerationRequest, GenerationResult, DebitPlan, total_usd}
use generation_balance_servi.Policy.Exact.{IsExact}
use generation_balance_servi.Redis.{Redis, Status, GenerationHash}
use generation_balance_servi.Store.{record_from_fields, non_empty, optional_micros}
use generation_balance_servi.Surplus.Lifo.{clamp}
use generation_balance_servi.Billing.Generation.{
  charge, same_payload, cached_result, some_or, amount_or,
}
use generation_balance_servi.Billing.Converted.{quantize-IsExact}
use generation_balance_servi.Billing.Redelivery.{Cached}

-- The text that the record keeps, the empty one if it keeps none.
abbrev pub HasContent : Option String → String → Type 0
HasContent none text = text ≡ ""
HasContent (some kept) text = text ≡ kept

-- The charge that the record keeps, in dollars. If it keeps none, or keeps zero, it is the
-- authorized cost: the code takes a charge of zero for a missing one, though the README promises the
-- sum that was really charged.
abbrev pub HasBill : Option ℤ → ℤ → Decimal → Type 0
HasBill none authorized bill = bill ≡ micros_to_money authorized
HasBill (some charged) authorized bill =
    ((charged ≢ pos 0) × (bill ≡ micros_to_money charged))
    ⊎ ((charged ≡ pos 0) × (bill ≡ micros_to_money authorized))

-- The record is done, belongs to the user, the dialog and the model of the request, and keeps the
-- answer.
pub record Answers (request : GenerationRequest) (h : GenerationHash) (res : GenerationResult)
    : Type 0 where
  pub done : h.status ≡ Status.done
  pub user : h.user_id ≡ request.user_id
  pub dialog : h.dialog_id ≡ request.dialog_id
  pub model : h.model_name ≡ request.model_name
  pub identifier : res.client_request_id ≡ request.client_request_id
  pub content : HasContent h.content res.content
  pub bill : HasBill h.billed_cost_usd h.authorized_cost_usd res.billed_cost_usd

abbrev pub IsKept : GenerationRequest → GenerationResult → Redis → Type 0
IsKept request res r =
    (h : GenerationHash) × (lookup request.client_request_id r.generations ≡ some h)
    × Answers request h res

-- The bill brought between zero and the total of the plan, and rounded down to whole micro-dollars.
pub record IsCharge (plan : DebitPlan) (billed : Decimal) (charged : Decimal) : Type 0 where
  pub exact : IsExact charged
  pub not_above : charged ≤ℤ clamp billed (total_usd plan)
  pub near : clamp billed (total_usd plan) <ℤ charged +ℤ pos money_quantum

pub charge-IsCharge :
    (plan : DebitPlan) (billed : Decimal) → IsCharge plan billed (charge plan billed)
unfolding charge
charge-IsCharge plan billed =
    let (low, high, near) =
      quantize_money_bounds (clamp billed (total_usd plan))
        (max_ℤ-IsMax (pos 0) (min_ℤ billed (total_usd plan))).0 in
    record {
      exact = quantize-IsExact (clamp billed (total_usd plan));
      not_above = high;
      near = near;
    }

content_of : (o : Option String) → HasContent o (some_or (non_empty o) "")
content_of none = refl
content_of (some text) = elim (Bool-cases (str_eq text "")) [
  | inl empty ↦ rw empty (sym ((eq_iff text "").0 empty))
  | inr full ↦ rw full (rw full refl)
]

zero_micros : (m : ℤ) → micros_to_money m ==ℤ pos 0 ≡ true → m ≡ pos 0
zero_micros m h =
    let zero : micros_to_money m ≡ pos 0 = ==ℤ→eq _ _ h in
    eq_of_parts m (pos 0)
      (omega (arith, micros_to_money_parts m, ap pos_part zero, ap neg_part zero))

micros_zero : micros_to_money (pos 0) ==ℤ pos 0 ≡ true
unfolding micros_to_money scale
micros_zero = refl

not_zero : (m : ℤ) → micros_to_money m ==ℤ pos 0 ≡ false → m ≢ pos 0
not_zero m more e =
    let zero : micros_to_money (pos 0) ==ℤ pos 0 ≡ false = rw e at more in cc (zero, micros_zero)

bill_of :
    (o : Option ℤ) (authorized : ℤ)
    → HasBill o authorized (amount_or (optional_micros o) (micros_to_money authorized))
bill_of none authorized = refl
bill_of (some charged) authorized = elim (Bool-cases (micros_to_money charged ==ℤ pos 0)) [
  | inl zero ↦ rw zero (inr (zero_micros charged zero, refl))
  | inr more ↦ rw more (inl (not_zero charged more, refl))
]

all_same : (x y z : Bool) → (x && y && z) ≡ true → (x ≡ true) × (y ≡ true) × (z ≡ true)
all_same x y z h = ground arith

cached_result-Answers :
    (request : GenerationRequest) (h : GenerationHash)
    → h.status ≡ Status.done
    → same_payload request (record_from_fields h) ≡ true
    → Answers request h (cached_result request (record_from_fields h))
unfolding record_from_fields
cached_result-Answers request h done same =
    let (user, dialog, model) =
      all_same (h.user_id == request.user_id) (h.dialog_id == request.dialog_id)
        (str_eq h.model_name request.model_name) same in
    record {
      done = done;
      user = ground arith;
      dialog = ground arith;
      model = (eq_iff h.model_name request.model_name).0 model;
      identifier = refl;
      content = content_of h.content;
      bill = bill_of h.billed_cost_usd h.authorized_cost_usd;
    }

pub Cached-IsKept :
    (request : GenerationRequest) (res : GenerationResult) (r : Redis)
    → Cached request res r
    → IsKept request res r
unfolding record_from_fields
Cached-IsKept request res r (g, (h, at, of_h), done, same, is) =
    let is_h : res ≡ cached_result request (record_from_fields h) =
      is ∙ ap (cached_result request) of_h in
    let done_h : h.status ≡ Status.done = sym (ap (λ x. x.status) of_h) ∙ done in
    let same_h : same_payload request (record_from_fields h) ≡ true =
      sym (ap (same_payload request) of_h) ∙ same in
    (h, at, subst (Answers request h) (sym is_h) (cached_result-Answers request h done_h same_h))
