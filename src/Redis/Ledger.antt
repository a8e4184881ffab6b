-- ===== src/Redis/Ledger.antt =====
-- Where a user's money is: in the balance, or reserved by the running generations.
use generation_balance_servi.Base.{
  ℕ, Bool, true, false, ◌≡◌, refl, inl, inr, Bool-cases, ◌==◌, ◌&&◌, ◌==ℤ◌, if◌then◌else◌, ℤ, pos,
  ◌+ℤ◌, ◌-ℤ◌, Option, none, some, Option-cases, lookup, lookup-insert, sum_by, sum_by-insert_new,
  int_laws, arith,
}
use generation_balance_servi.Redis.State.{Status, Amounts, Redis, BalanceHash, GenerationHash}
use generation_balance_servi.Redis.Scripts.{
  ReserveArgs, new_record, debit, credit, reserve, TopUpArgs, TopUpReply, topped, top_up,
}

pub data Field : Type 0 where
  free bonus paid requests : Field

abbrev pub amount : Field → Amounts → ℤ
amount Field.free a = a.free_usd
amount Field.bonus a = a.bonus_usd
amount Field.paid a = a.paid_usd
amount Field.requests a = a.free_requests

abbrev pub balance_of : Field → BalanceHash → ℤ
balance_of Field.free b = b.free_usd
balance_of Field.bonus b = b.bonus_usd
balance_of Field.paid b = b.paid_usd
balance_of Field.requests b = b.free_requests

abbrev pub available_or_zero : Field → Option BalanceHash → ℤ
available_or_zero f none = pos 0
available_or_zero f (some b) = balance_of f b

abbrev pub is_running : Status → Bool
is_running Status.running = true
is_running _ = false

-- What a record holds back from a user's balance.
abbrev pub reserved : Field → ℕ → GenerationHash → ℤ
reserved f u g = if is_running g.status && g.user_id == u then amount f g.plan else pos 0

unfoldable pub held : Field → ℕ → Redis → ℤ
held f u r = available_or_zero f (lookup u r.balances) +ℤ sum_by (reserved f u) r.generations

balance_of-debit :
    (f : Field) (a : Amounts) (b : BalanceHash)
    → balance_of f (debit a b) ≡ balance_of f b -ℤ amount f a
balance_of-debit Field.free a b = refl
balance_of-debit Field.bonus a b = refl
balance_of-debit Field.paid a b = refl
balance_of-debit Field.requests a b = refl

pub balance_of-credit :
    (f : Field) (a : Amounts) (b : BalanceHash)
    → balance_of f (credit a b) ≡ balance_of f b +ℤ amount f a
balance_of-credit Field.free a b = refl
balance_of-credit Field.bonus a b = refl
balance_of-credit Field.paid a b = refl
balance_of-credit Field.requests a b = refl

-- RESERVE, whatever it replies, leaves what every user has in the balance and in running
-- reservations as it was, in each of the four fields.
pub held-reserve :
    (f : Field) (u : ℕ) (a : ReserveArgs) (r : Redis) → held f u (reserve a r).1 ≡ held f u r
unfolding held reserve
held-reserve f u a r = elim (Option-cases (lookup a.client_request_id r.generations)) [
  | inr (g, e) ↦ ground arith
  | inl e ↦ elim (Option-cases (lookup a.user_id r.balances)) [
    | inl m ↦ ground arith
    | inr (b, m) ↦ elim (Bool-cases (b.version ==ℤ a.expected_version)) [
      | inr v ↦ ground arith
      | inl v ↦ elim (Bool-cases (u == a.user_id)) [
        | inl here ↦ grind (
          int_laws,
          lookup-insert u a.user_id (debit a.plan b) r.balances,
          sum_by-insert_new (reserved f u) a.client_request_id (new_record a) r.generations e,
          balance_of-debit f a.plan b,
        )
        | inr other ↦ grind (
          int_laws,
          lookup-insert u a.user_id (debit a.plan b) r.balances,
          sum_by-insert_new (reserved f u) a.client_request_id (new_record a) r.generations e,
        )
      ]
    ]
  ]
]

-- TOP_UP adds its amounts to what its user has in the balance and in running reservations if it
-- replies OK, and nothing if it replies anything else.
pub held-top_up :
    (f : Field) (a : TopUpArgs) (r : Redis)
    → held f a.user_id (top_up a r).1 ≡ (elim (top_up a r).0 [
      | TopUpReply.ok ↦ held f a.user_id r +ℤ amount f (topped a)
      | _ ↦ held f a.user_id r
    ])
unfolding held top_up
held-top_up f a r = elim (Option-cases (lookup a.operation_id r.top_ups)) [
  | inr (t, e) ↦ ground arith
  | inl e ↦ elim (Option-cases (lookup a.user_id r.balances)) [
    | inl m ↦ ground arith
    | inr (b, m) ↦ grind (
      int_laws,
      lookup-insert a.user_id a.user_id (credit (topped a) b) r.balances,
      balance_of-credit f (topped a) b,
    )
  ]
]
