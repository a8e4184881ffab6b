-- ===== src/TopUp/Accepted.antt =====
-- What the check accepts, the store can take.
use generation_balance_servi.Base.{
  ℕ, ◌/◌, ◌%◌, if◌then◌else◌, ◌≡◌, refl, ◌↔◌, ℤ, pos, negsuc, ltb_ℤ, ◌≤ℤ◌, String, arith, int_laws,
}
use generation_balance_servi.Errors.{ok, raise, invalid_input, >>=-eq-ok}
use generation_balance_servi.Money.{Decimal, money_quantum, money_to_micros}
use generation_balance_servi.Policy.{BalanceTopUp}
use generation_balance_servi.Redis.{TopUpArgs}
use generation_balance_servi.Store.{StoreConfig}
use generation_balance_servi.Store.Methods.{top_up_args}
use generation_balance_servi.TopUp.{half_even, quantize, validate_amount, validate}

half_even_multiple : (n : ℕ) → half_even n % money_quantum ≡ 0
unfolding half_even
half_even_multiple n = ground arith

half_even_exact : (n : ℕ) → n % money_quantum ≡ 0 → half_even n ≡ n
unfolding half_even
half_even_exact n h = ground arith

validate_amount-converts :
    (negative too_fine : String) (d : Decimal) {u : Unit {0}}
    → validate_amount negative too_fine d ≡ ok u
    → (pos 0 ≤ℤ d) × ((m : ℤ) × (money_to_micros d ≡ ok m))
unfolding validate_amount money_to_micros quantize
validate_amount-converts negative too_fine (pos n) e = (
  ground arith,
  (pos (n / money_quantum), ground (arith, half_even_multiple n, half_even_multiple 0)),
)
validate_amount-converts negative too_fine (negsuc n) e = absurd (ground arith)

validate_amount-accepts :
    (negative too_fine : String) (d : Decimal) {m : ℤ}
    → pos 0 ≤ℤ d
    → money_to_micros d ≡ ok m
    → validate_amount negative too_fine d ≡ ok tt
unfolding validate_amount money_to_micros quantize
validate_amount-accepts negative too_fine (pos n) h e =
    let exact : n % money_quantum ≡ 0 = ground arith in
    ground (arith, half_even_exact n exact, half_even_exact 0 refl)
validate_amount-accepts negative too_fine (negsuc n) h e = absurd (omega int_laws)

accepted_requests :
    (n : ℤ) (message : String) {u : Unit {0}}
    → (if ltb_ℤ n (pos 0) then raise (invalid_input message) else ok tt) ≡ ok u
    → pos 0 ≤ℤ n
accepted_requests n message e = ground arith

-- The check of a top-up accepts it exactly when neither amount nor the number of free requests is
-- negative and the amounts convert to the arguments of TOP_UP, so that an accepted top-up never
-- fails on its conversion.
pub validate_accepts_iff :
    (config : StoreConfig) (command : BalanceTopUp)
    → (validate command ≡ ok tt) ↔ (
        (pos 0 ≤ℤ command.paid_usd)
        × (pos 0 ≤ℤ command.bonus_usd)
        × (pos 0 ≤ℤ command.free_requests)
        × ((a : TopUpArgs) × (top_up_args config command ≡ ok a)))
unfolding validate
validate_accepts_iff config command = (accepts, sends)
  where
    accepts :
        validate command ≡ ok tt
        → (pos 0 ≤ℤ command.paid_usd)
          × (pos 0 ≤ℤ command.bonus_usd)
          × (pos 0 ≤ℤ command.free_requests)
          × ((a : TopUpArgs) × (top_up_args config command ≡ ok a))
    accepts e =
        let (u, e₁, e₂) =
          >>=-eq-ok
            (validate_amount "paid_usd must be non-negative"
              "paid_usd must have at most 6 decimal places" command.paid_usd)
            _ e in
        let (v, e₃, e₄) =
          >>=-eq-ok
            (validate_amount "bonus_usd must be non-negative"
              "bonus_usd must have at most 6 decimal places" command.bonus_usd)
            _ e₂ in
        let (h, (p, ep)) = validate_amount-converts _ _ command.paid_usd e₁ in
        let (k, (b, eb)) = validate_amount-converts _ _ command.bonus_usd e₃ in
        (
          h,
          k,
          accepted_requests command.free_requests _ e₄,
          (
            record {
              operation_id = command.operation_id;
              user_id = command.user_id;
              ttl = config.top_up_record_ttl_seconds;
              paid = p;
              bonus = b;
              free_requests = command.free_requests;
            },
            rw (ep, eb) refl,
          ),
        )

    sends :
        (pos 0 ≤ℤ command.paid_usd)
          × (pos 0 ≤ℤ command.bonus_usd)
          × (pos 0 ≤ℤ command.free_requests)
          × ((a : TopUpArgs) × (top_up_args config command ≡ ok a))
        → validate command ≡ ok tt
    sends (h, k, l, (a, e)) =
        let (p, ep, e₁) = >>=-eq-ok (money_to_micros command.paid_usd) _ e in
        let (b, eb, e₂) = >>=-eq-ok (money_to_micros command.bonus_usd) _ e₁ in
        rw
          (validate_amount-accepts "paid_usd must be non-negative"
            "paid_usd must have at most 6 decimal places" command.paid_usd h ep)
          (rw
            (validate_amount-accepts "bonus_usd must be non-negative"
              "bonus_usd must have at most 6 decimal places" command.bonus_usd k eb)
            (ground (arith, l)))
