-- ===== src/Redis/Returns.antt =====
-- What REFUND and SETTLE do to where a user's money is.
use generation_balance_servi.Base.{
  ℕ, false, ◌≡◌, ◌≢◌, refl, ◌∙◌, inl, inr, Bool-cases, ◌==◌, ℤ, pos, ◌+ℤ◌, some, Option-cases, Dict,
  lookup, insert, erase, lookup-insert, lookup-insert_ne, sum_by, sum_by-insert, int_laws, arith,
}
use generation_balance_servi.Redis.State.{Status, Amounts, Redis, BalanceHash, GenerationHash, sadd}
use generation_balance_servi.Redis.Scripts.{
  RefundArgs, RefundReply, credit, refund, refund_by_status, SettleArgs, SettleReply, surplus,
  has_surplus, settle, settle_by_status, settle_running, mark_done,
}
use generation_balance_servi.Redis.Ledger.{
  Field, amount, balance_of, available_or_zero, reserved, held, balance_of-credit,
}

credited_sum : (x p s s' : ℤ) → s' +ℤ p ≡ s +ℤ pos 0 → x +ℤ p +ℤ s' ≡ x +ℤ s
credited_sum x p s s' h = grind (int_laws, h)

settled_sum : (x q p s s' : ℤ) → s' +ℤ p ≡ s +ℤ pos 0 → x +ℤ q +ℤ s' +ℤ p ≡ x +ℤ s +ℤ q
settled_sum x q p s s' h = grind (int_laws, h)

plain_sum : (x p s s' : ℤ) → s' +ℤ p ≡ s +ℤ pos 0 → x +ℤ s' +ℤ p ≡ x +ℤ s +ℤ pos 0
plain_sum x p s s' h = grind (int_laws, h)

same_sum : (x s s' : ℤ) → s' +ℤ pos 0 ≡ s +ℤ pos 0 → x +ℤ s' ≡ x +ℤ s
same_sum x s s' h = grind (int_laws, h)

reserved_running :
    (f : Field) (u : ℕ) (g : GenerationHash)
    → g.status ≡ Status.running
    → u ≡ g.user_id
    → reserved f u g ≡ amount f g.plan
reserved_running f u g h e = ground arith

available-credit :
    (f : Field) (u k : ℕ) (a : Amounts) (b : BalanceHash) (d : Dict BalanceHash)
    → u ≡ k
    → available_or_zero f (lookup u (insert k (credit a b) d)) ≡ balance_of f b +ℤ amount f a
available-credit f u k a b d e =
    ground (arith, lookup-insert u k (credit a b) d, balance_of-credit f a b)

available_at :
    (f : Field) (u k : ℕ) (b : BalanceHash) (d : Dict BalanceHash)
    → u ≡ k
    → lookup k d ≡ some b
    → available_or_zero f (lookup u d) ≡ balance_of f b
available_at f u k b d e m = ground arith

-- A REFUND of the plan and the user that a record holds, whatever it replies, leaves what every
-- user has in the balance and in running reservations as it was, in each of the four fields.
pub held-refund :
    (f : Field) (u : ℕ) (a : RefundArgs) (r : Redis) {g : GenerationHash}
    → lookup a.client_request_id r.generations ≡ some g
    → a.plan ≡ g.plan
    → a.user_id ≡ g.user_id
    → held f u (refund a r).1 ≡ held f u r
unfolding held refund
held-refund f u a r {g} e same_plan same_user = elim (Option-cases (lookup a.user_id r.balances)) [
  | inl m ↦ ground arith
  | inr (b, m) ↦ rw (e, refund) (by_status g.status refl b m)
]
  where
    failed : GenerationHash
    failed = record g { status = Status.failed; error = some a.error; ttl = a.ttl }

    by_status :
        (s : Status)
        → g.status ≡ s
        → (b : BalanceHash) → lookup a.user_id r.balances ≡ some b
        → held f u (refund_by_status s a g r).1 ≡ held f u r
    by_status Status.done p b m = refl
    by_status Status.failed p b m = refl
    by_status Status.running p b m = elim (Bool-cases (u == a.user_id)) [
      | inl here ↦
          let at : u ≡ a.user_id = ground arith in
          let held_back : reserved f u g ≡ amount f a.plan =
            rw same_plan (reserved_running f u g p (at ∙ same_user)) in
          let done : refund_by_status Status.running a g r ≡ (
            RefundReply.ok,
            record r {
              balances = insert a.user_id (credit a.plan b) r.balances;
              generations = insert a.client_request_id failed r.generations;
              inflight = erase a.client_request_id r.inflight;
              dirty = sadd a.user_id r.dirty;
            },
          ) =
            ground arith in
          rw
            (
              done,
              available-credit f u a.user_id a.plan b r.balances at,
              available_at f u a.user_id b r.balances at m,
            )
            (credited_sum (balance_of f b) (amount f a.plan) (sum_by (reserved f u) r.generations)
              (sum_by (reserved f u) (insert a.client_request_id failed r.generations))
              (rw held_back at
                (sum_by-insert (reserved f u) a.client_request_id failed g r.generations e)))
      | inr other ↦
          let apart : u ≢ a.user_id = ground arith in
          let none_held : reserved f u g ≡ pos 0 = ground arith in
          let done : refund_by_status Status.running a g r ≡ (
            RefundReply.ok,
            record r {
              balances = insert a.user_id (credit a.plan b) r.balances;
              generations = insert a.client_request_id failed r.generations;
              inflight = erase a.client_request_id r.inflight;
              dirty = sadd a.user_id r.dirty;
            },
          ) =
            ground arith in
          rw (done, lookup-insert_ne u a.user_id (credit a.plan b) r.balances apart)
            (same_sum (available_or_zero f (lookup u r.balances))
              (sum_by (reserved f u) r.generations)
              (sum_by (reserved f u) (insert a.client_request_id failed r.generations))
              (rw none_held at
                (sum_by-insert (reserved f u) a.client_request_id failed g r.generations e)))
    ]

no_surplus : (f : Field) (a : SettleArgs) → has_surplus a ≡ false → amount f (surplus a) ≡ pos 0
no_surplus Field.free a h = ground arith
no_surplus Field.bonus a h = ground arith
no_surplus Field.paid a h = ground arith
no_surplus Field.requests a h = refl

-- When SETTLE replies OK for a record of its own user, what the user has in the balance and in
-- running reservations falls by the record's plan less the surplus that SETTLE was given, in each
-- of the four fields.
pub held-settle :
    (f : Field) (a : SettleArgs) (r : Redis) {g : GenerationHash}
    → lookup a.client_request_id r.generations ≡ some g
    → a.user_id ≡ g.user_id
    → (settle a r).0 ≡ SettleReply.ok
    → held f a.user_id (settle a r).1 +ℤ amount f g.plan
      ≡ held f a.user_id r +ℤ amount f (surplus a)
unfolding held settle
held-settle f a r {g} e same_user h = rw (e, settle) (by_status g.status refl (rw (e, settle) at h))
  where
    settled : GenerationHash
    settled = record g {
      status = Status.done;
      content = some a.content;
      billed_cost_usd = some a.billed;
      provider_billed_cost_usd = some a.provider_billed;
      refunded_surplus_usd = some a.refunded_surplus;
      ttl = a.ttl;
    }

    by_status :
        (s : Status)
        → g.status ≡ s
        → (settle_by_status s a g r).0 ≡ SettleReply.ok
        → held f a.user_id (settle_by_status s a g r).1 +ℤ amount f g.plan
          ≡ held f a.user_id r +ℤ amount f (surplus a)
    by_status Status.done p h = cc
    by_status Status.failed p h = cc
    by_status Status.running p h = elim (Bool-cases (has_surplus a)) [
      | inr none_left ↦
          let u = a.user_id in
          let sums = λ (d : Dict GenerationHash). sum_by (reserved f u) d in
          let done : settle_running a g r ≡ (SettleReply.ok, mark_done a g r) = ground arith in
          rw (done, no_surplus f a none_left)
            (plain_sum (available_or_zero f (lookup u r.balances)) (amount f g.plan)
              (sums r.generations) (sums (insert a.client_request_id settled r.generations))
              (rw (reserved_running f u g p same_user) at
                (sum_by-insert (reserved f u) a.client_request_id settled g r.generations e)))
      | inl left ↦ elim (Option-cases (lookup a.user_id r.balances)) [
        | inl m ↦ ground arith
        | inr (b, m) ↦
            let u = a.user_id in
            let sums = λ (d : Dict GenerationHash). sum_by (reserved f u) d in
            let done : settle_running a g r ≡ (
              SettleReply.ok,
              mark_done a g (record r {
                balances = insert u (credit (surplus a) b) r.balances;
                dirty = sadd u r.dirty;
              }),
            ) =
              ground arith in
            rw
              (
                done,
                available-credit f u u (surplus a) b r.balances refl,
                available_at f u u b r.balances refl m,
              )
              (settled_sum (balance_of f b) (amount f (surplus a)) (amount f g.plan)
                (sums r.generations) (sums (insert a.client_request_id settled r.generations))
                (rw (reserved_running f u g p same_user) at
                  (sum_by-insert (reserved f u) a.client_request_id settled g r.generations e)))
      ]
    ]
