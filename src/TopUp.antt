-- ===== src/TopUp.antt =====
-- The check of a top-up before it reaches the store: backend/app/billing/balance.py, `_validate`.
pub mod Accepted
use generation_balance_servi.Base.{
  ℕ, ◌+◌, ◌*◌, ◌/◌, ◌%◌, ltb, ◌==◌, if◌then◌else◌, pos, pos_part, neg_part, sub_ℕ, ltb_ℤ, ◌==ℤ◌,
  not, String,
}
use generation_balance_servi.Errors.{Result, ok, raise, invalid_input, ◌>>=◌, ◌>>◌}
use generation_balance_servi.Money.{Decimal, money_quantum}
use generation_balance_servi.Policy.{BalanceTopUp}

-- Rounds to the nearest micro-dollar, a tie to the even one (`ROUND_HALF_EVEN`, the default).
unfoldable pub half_even : ℕ → ℕ
half_even n =
    let k = n / money_quantum in
    let rest = n % money_quantum in
    if ltb (2 * rest) money_quantum
    then k * money_quantum
    else if ltb money_quantum (2 * rest)
    then (k + 1) * money_quantum
    else if k % 2 == 0
    then k * money_quantum
    else (k + 1) * money_quantum

-- `amount.quantize(MONEY_QUANTUM)`
unfoldable pub quantize : Decimal → Decimal
quantize amount = sub_ℕ (half_even (pos_part amount)) (half_even (neg_part amount))

-- The body of the loop over the two amounts, with the messages of the one in turn.
unfoldable pub validate_amount : String → String → Decimal → Result (Unit {0})
validate_amount negative too_fine amount =
    if ltb_ℤ amount (pos 0)
    then raise (invalid_input negative)
    else if not (amount ==ℤ quantize amount)
    then raise (invalid_input too_fine)
    else ok tt

-- `_validate`
unfoldable pub validate : BalanceTopUp → Result (Unit {0})
validate command = do
  validate_amount "paid_usd must be non-negative" "paid_usd must have at most 6 decimal places"
      command.paid_usd
  validate_amount "bonus_usd must be non-negative" "bonus_usd must have at most 6 decimal places"
      command.bonus_usd
  (if ltb_ℤ command.free_requests (pos 0)
      then raise (invalid_input "free_requests must be non-negative")
      else ok tt)
