-- ===== src/Examples/TopUp.antt =====
-- Top-ups that pass the check, and one that does not.
use generation_balance_servi.Base.{◌≡◌, refl, ◌↔◌, pos, ◌≤ℤ◌}
use generation_balance_servi.Errors.{ok, raise, invalid_input}
use generation_balance_servi.Money.{cents}
use generation_balance_servi.Policy.{BalanceTopUp}
use generation_balance_servi.Redis.{TopUpArgs}
use generation_balance_servi.Store.{default_store_config}
use generation_balance_servi.Store.Methods.{top_up_args}
use generation_balance_servi.TopUp.{validate, validate_amount, quantize, half_even}
use generation_balance_servi.TopUp.Accepted.{validate_accepts_iff}

abbrev pub gift : BalanceTopUp
gift = record {
  operation_id = 11;
  user_id = 7;
  paid_usd = cents 100;
  bonus_usd = cents 5;
  free_requests = pos 3;
}

accepted_test : validate gift ≡ ok tt
unfolding validate validate_amount quantize half_even
accepted_test = refl

too_fine_test :
    validate (record gift { bonus_usd = pos 1 })
    ≡ raise (invalid_input "bonus_usd must have at most 6 decimal places")
unfolding validate validate_amount quantize half_even
too_fine_test = refl

validate_accepts_iff_example : (validate gift ≡ ok tt) ↔ (
    (pos 0 ≤ℤ gift.paid_usd)
    × (pos 0 ≤ℤ gift.bonus_usd)
    × (pos 0 ≤ℤ gift.free_requests)
    × ((a : TopUpArgs) × (top_up_args default_store_config gift ≡ ok a)))
validate_accepts_iff_example = validate_accepts_iff default_store_config gift
