-- ===== src/Money.antt =====
-- Decimal amounts and their conversion to integer micro-dollars, and the banker's view of a bill:
-- backend/app/shared/ports/billing/balance_store.py, lines 15 to 44.
-- A `Decimal` is counted in units of 10^-28 dollars, so one micro-dollar is 10^22 units. Decimals
-- with more than 28 places, NaN and the infinities, and the rounding of a result to the 28
-- significant digits of Python's default context are left out.
pub mod Conversion
use generation_balance_servi.Base.{
  ℕ, ◌+◌, ◌-◌, ◌*◌, ◌/◌, ◌%◌, ◌^◌, Bool, ◌&&◌, ◌==◌, if◌then◌else◌, ℤ, pos, pos_part, neg_part,
  sub_ℕ, scale,
}
use generation_balance_servi.Errors.{Result, ok, raise, value_error}

abbrev pub Decimal : Type 0
Decimal = ℤ

-- `MONEY_QUANTUM`, Decimal("0.000001"), in units.
abbrev pub money_quantum : ℕ
money_quantum = 10000000000000000000000

-- `Decimal("0.cc")` for a whole number of cents.
abbrev pub cents : ℕ → Decimal
cents c = pos (c * 100000000000000000000000000)

-- Rounds toward zero to six decimals (`ROUND_DOWN`).
unfoldable pub quantize_money : Decimal → Decimal
quantize_money amount =
    sub_ℕ (pos_part amount / money_quantum * money_quantum)
      (neg_part amount / money_quantum * money_quantum)

-- The sign of a decimal is kept apart from its digits, so both parts are tested and scaled.
unfoldable pub money_to_micros : Decimal → Result ℤ
money_to_micros amount =
    if (pos_part amount % money_quantum == 0) && (neg_part amount % money_quantum == 0)
    then ok (sub_ℕ (pos_part amount / money_quantum) (neg_part amount / money_quantum))
    else raise value_error

unfoldable pub micros_to_money : ℤ → Decimal
micros_to_money micros = scale money_quantum micros
