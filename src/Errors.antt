-- ===== src/Errors.antt =====
-- The exceptions that the billing code raises, and a call that may raise one:
-- backend/app/errors.py and the access errors of backend/domain/generation.py.
use generation_balance_servi.Base.{◌⊎◌, inl, inr, String, ◌≡◌, refl}

-- The constructors without a message are Python's own, a connection error or timeout of the Redis
-- client, and the domain's access errors; the others are subclasses of `DetailedError` with the
-- message that the raising code gives.
pub data Error : Type 0 where
  value_error key_error transport_error cancelled : Error
  insufficient_balance free_requests_exhausted conditional_free_access_denied : Error
  invalid_input : String → Error
  generation_failed : String → Error
  generation_in_progress : String → Error
  balance_contention : String → Error

pub data Result {ℓ} (A : Type ℓ) : Type ℓ where
  ok : A → Result A
  raise : Error → Result A

infixl 5 ◌>>=◌
abbrev pub ◌>>=◌ {ℓ κ} : {X : Type ℓ} {Y : Type κ} → Result X → (X → Result Y) → Result Y
raise error >>= next = raise error
ok value >>= next = next value

module _ {ℓ κ} {X : Type ℓ} {Y : Type κ} where
  -- Inversion of a call that returned.
  pub >>=-eq-ok :
      (first : Result X) (next : X → Result Y) {y : Y}
      → (first >>= next) ≡ ok y
      → (x : X) × (first ≡ ok x) × (next x ≡ ok y)
  >>=-eq-ok (raise error) next h = cc
  >>=-eq-ok (ok value) next h = (value, refl, h)

infixl 5 ◌>>◌
abbrev pub ◌>>◌ {ℓ} : {Y : Type ℓ} → Result (Unit {0}) → Result Y → Result Y
check >> body = check >>= λ _. body

pub Result-cases {ℓ} :
    {X : Type ℓ} (r : Result X) → ((x : X) × (r ≡ ok x)) ⊎ ((e : Error) × (r ≡ raise e))
Result-cases (ok value) = inl (value, refl)
Result-cases (raise error) = inr (error, refl)
