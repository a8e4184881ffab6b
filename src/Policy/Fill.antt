-- ===== src/Policy/Fill.antt =====
-- The loop of `_build_plan` and `surplus_refund` without its early `break`.
use generation_balance_servi.Base.{
  ◌≡◌, refl, Bool-cases, inl, inr, pos, ◌-ℤ◌, ◌≤ℤ◌, ◌==ℤ◌, min_ℤ, min_ℤ_cases, ==ℤ→eq, List, [],
  ◌∷◌, int_laws, sym,
}
use generation_balance_servi.Money.{Decimal}
use generation_balance_servi.Policy.Types.{
  Bucket, Buckets, get, put, no_money, charge_order, DebitPolicy,
}
use generation_balance_servi.Policy.Authorize.{fill}

pub record IsNonneg (b : Buckets) : Type 0 where
  pub free : pos 0 ≤ℤ b.free
  pub bonus : pos 0 ≤ℤ b.bonus
  pub paid : pos 0 ≤ℤ b.paid

-- Takes from every bucket in turn, to the end of the order.
unfoldable pub fill_all : Buckets → List Bucket → Buckets → Decimal → Buckets × Decimal
fill_all available [] used remaining = (used, remaining)
fill_all available (bucket ∷ order) used remaining =
    let taken = min_ℤ (get available bucket) remaining in
    fill_all available order (put used bucket taken) (remaining -ℤ taken)

-- Nothing has been taken yet from the buckets of an order, none of which stands there twice.
abbrev pub IsFresh : Buckets → List Bucket → Type 0
IsFresh used [] = Unit
IsFresh used (bucket ∷ order) =
    (get used bucket ≡ pos 0) × ((v : Decimal) → IsFresh (put used bucket v) order)

pub charge_order-IsFresh : (policy : DebitPolicy) → IsFresh no_money (charge_order policy)
unfolding charge_order
charge_order-IsFresh DebitPolicy.paid_only = (refl, λ v. tt)
charge_order-IsFresh DebitPolicy.default = (refl, λ v. (refl, λ w. (refl, λ x. tt)))
charge_order-IsFresh DebitPolicy.paid_then_free_then_bonus =
    (refl, λ v. (refl, λ w. (refl, λ x. tt)))

get_nonneg : (b : Bucket) {d : Buckets} → IsNonneg d → pos 0 ≤ℤ get d b
get_nonneg Bucket.free n = n.free
get_nonneg Bucket.bonus n = n.bonus
get_nonneg Bucket.paid n = n.paid

put-get_zero : (b : Bucket) (d : Buckets) → get d b ≡ pos 0 → put d b (pos 0) ≡ d
put-get_zero Bucket.free d e = cc
put-get_zero Bucket.bonus d e = cc
put-get_zero Bucket.paid d e = cc

-- Once nothing remains, nothing more is taken.
min_exhausted : (v : Decimal) → pos 0 ≤ℤ v → min_ℤ v (pos 0) ≡ pos 0
min_exhausted v h = grind (int_laws, min_ℤ_cases v (pos 0))

fill_all_exhausted :
    (available : Buckets) (order : List Bucket) (used : Buckets)
    → IsNonneg available
    → IsFresh used order
    → fill_all available order used (pos 0) ≡ (used, pos 0)
unfolding fill_all ◌-ℤ◌
fill_all_exhausted available [] used n fresh = refl
fill_all_exhausted available (bucket ∷ order) used n fresh =
    rw (min_exhausted (get available bucket) (get_nonneg bucket n)) (
      rw (put-get_zero bucket used fresh.0) (
        fill_all_exhausted available order used n
          (rw (put-get_zero bucket used fresh.0) at (fresh.1 (pos 0)))))

pub fill-eq-fill_all :
    (available : Buckets) (order : List Bucket) (used : Buckets) (remaining : Decimal)
    → IsNonneg available
    → IsFresh used order
    → fill available order used remaining ≡ fill_all available order used remaining
unfolding fill fill_all
fill-eq-fill_all available [] used remaining n fresh = refl
fill-eq-fill_all available (bucket ∷ order) used remaining n fresh =
    let taken = min_ℤ (get available bucket) remaining in
    let ih =
      fill-eq-fill_all available order (put used bucket taken) (remaining -ℤ taken) n
        (fresh.1 taken) in
    elim (Bool-cases ((remaining -ℤ taken) ==ℤ pos 0)) [
      | inl done ↦
          let zero : remaining -ℤ taken ≡ pos 0 = ==ℤ→eq (remaining -ℤ taken) (pos 0) done in
          rw (zero)
            (sym (fill_all_exhausted available order (put used bucket taken) n (fresh.1 taken)))
      | inr more ↦ rw more ih
    ]
