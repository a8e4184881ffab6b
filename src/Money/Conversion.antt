-- ===== src/Money/Conversion.antt =====
-- What the conversions between decimals and micro-dollars keep.
use generation_balance_servi.Base.{
  ◌+◌, ◌*◌, ◌≡◌, ℤ, pos, negsuc, suc, sub_ℕ, ◌/◌, pos_part, neg_part, ◌≤ℤ◌, ◌<ℤ◌, ◌+ℤ◌, scale,
  arith,
}
use generation_balance_servi.Errors.{ok}
use generation_balance_servi.Money.{
  Decimal, money_quantum, quantize_money, money_to_micros, micros_to_money,
}

-- Micro-dollars read back as money and converted again are unchanged.
pub money_to_micros-micros_to_money : (m : ℤ) → money_to_micros (micros_to_money m) ≡ ok m
unfolding money_to_micros micros_to_money scale
money_to_micros-micros_to_money m = ground arith

-- The parts of the money value of an amount in micro-dollars.
pub micros_to_money_parts :
    (m : ℤ)
    → pos_part (micros_to_money m) + neg_part m * money_quantum
      ≡ neg_part (micros_to_money m) + pos_part m * money_quantum
unfolding micros_to_money scale
micros_to_money_parts m = ground arith

-- `money_to_micros` returns a value exactly for a whole number of micro-dollars, and loses nothing.
pub micros_to_money-money_to_micros :
    (d : Decimal) {m : ℤ} → money_to_micros d ≡ ok m → micros_to_money m ≡ d
unfolding money_to_micros micros_to_money scale
micros_to_money-money_to_micros d h = ground arith

-- A non-negative amount quantized is not negative, is at most the amount, and is less than a
-- micro-dollar below it.
pub quantize_money_bounds :
    (d : Decimal)
    → pos 0 ≤ℤ d
    → (pos 0 ≤ℤ quantize_money d)
      × (quantize_money d ≤ℤ d)
      × (d <ℤ quantize_money d +ℤ pos money_quantum)
unfolding quantize_money ◌+ℤ◌
quantize_money_bounds d h = ground arith

pub quantize_money-IsExact : (d : Decimal) → (m : ℤ) × (money_to_micros (quantize_money d) ≡ ok m)
unfolding quantize_money money_to_micros
quantize_money-IsExact (pos n) = (pos (n / money_quantum), ground arith)
quantize_money-IsExact (negsuc n) = (sub_ℕ 0 (suc n / money_quantum), ground arith)
