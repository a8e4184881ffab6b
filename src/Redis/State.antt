-- ===== src/Redis/State.antt =====
-- The keyspace: `bal:*`, `gen:*`, `topup:*` and `bal:load:*` by the identifier in the key,
-- `bal:dirty` and `gen:inflight`.
use generation_balance_servi.Base.{
  ℕ, Bool, false, ◌==◌, ◌||◌, if◌then◌else◌, ◌≡◌, ℤ, String, Option, List, [], ◌∷◌, Dict, arith,
}

pub data Status : Type 0 where
  running done failed : Status

-- `bal:{user_id}`, in micro-dollars.
pub record BalanceHash : Type 0 where
  pub free_usd : ℤ
  pub bonus_usd : ℤ
  pub paid_usd : ℤ
  pub free_requests : ℤ
  pub version : ℤ

-- The four `plan_*` fields and arguments.
pub record Amounts : Type 0 where
  pub free_usd : ℤ
  pub bonus_usd : ℤ
  pub paid_usd : ℤ
  pub free_requests : ℤ

-- `gen:{client_request_id}`. A field that a script has not written yet is `none`.
pub record GenerationHash : Type 0 where
  pub status : Status
  pub user_id : ℕ
  pub dialog_id : ℕ
  pub model_name : String
  pub plan : Amounts
  pub authorized_cost_usd : ℤ
  pub started_at : ℤ
  pub reservation_token : ℕ
  pub content : Option String
  pub billed_cost_usd : Option ℤ
  pub provider_billed_cost_usd : Option ℤ
  pub refunded_surplus_usd : Option ℤ
  pub error : Option String
  pub ttl : ℕ

-- `topup:{operation_id}`
pub record TopUpMarker : Type 0 where
  pub user_id : ℕ
  pub ttl : ℕ

-- `bal:load:{user_id}`
pub record LoadLock : Type 0 where
  pub token : ℕ
  pub ttl_ms : ℕ

pub record Redis : Type 0 where
  pub balances : Dict BalanceHash
  pub generations : Dict GenerationHash
  pub dirty : List ℕ
  pub inflight : Dict ℤ
  pub top_ups : Dict TopUpMarker
  pub load_locks : Dict LoadLock

abbrev pub contains : ℕ → List ℕ → Bool
contains x [] = false
contains x (y ∷ s) = (x == y) || contains x s

-- SADD
unfoldable pub sadd : ℕ → List ℕ → List ℕ
sadd x s = if contains x s then s else x ∷ s

-- SREM
unfoldable pub srem : ℕ → List ℕ → List ℕ
srem x [] = []
srem x (y ∷ s) = let rest = srem x s in if x == y then rest else y ∷ rest

pub contains-sadd : (x y : ℕ) (s : List ℕ) → contains x (sadd y s) ≡ (x == y) || contains x s
unfolding sadd
contains-sadd x y s = ground arith

pub contains-srem :
    (x y : ℕ) (s : List ℕ) → contains x (srem y s) ≡ (if x == y then false else contains x s)
unfolding srem
contains-srem x y [] = ground arith
contains-srem x y (z ∷ s) = ground (arith, contains-srem x y s)
