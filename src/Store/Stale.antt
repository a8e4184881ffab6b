-- ===== src/Store/Stale.antt =====
-- The batch of stale reservations, by the index of running ones.
use generation_balance_servi.Base.{
  length, ℕ, zero, suc, ◌+◌, ◌≡◌, ◌≤◌, ◌⊎◌, refl, inl, inr, ◌==◌, true, Bool-cases, if◌then◌else◌,
  ltb_ℤ, leb_ℤ, ℤ, ◌≤ℤ◌, some, [], ◌∷◌, Dict, lookup, arith,
}
use generation_balance_servi.Redis.{Redis, contains}
use generation_balance_servi.Store.Methods.{insert_by_score, up_to_score, take_keys, stale_inflight}

-- How many entries have at most the score.
abbrev pub count_to : ℤ → Dict ℤ → ℕ
count_to v [] = 0
count_to v (x ∷ d) = (if leb_ℤ x.1 v then 1 else 0) + count_to v d

-- The reservation is in the index since the cutoff or before, and with those that are not younger it
-- fits into the batch.
abbrev pub IsStale : ℕ → ℤ → ℕ → Dict ℤ → Type 0
IsStale id cutoff limit index =
    (started : ℤ) × (lookup id index ≡ some started)
    × (started ≤ℤ cutoff)
    × (count_to started index ≤ limit)

-- The entry is in the list.
abbrev HasEntry : ℕ → ℤ → Dict ℤ → Type 0
HasEntry id v [] = ⊥
HasEntry id v (x ∷ d) = ((x.0 ≡ id) × (x.1 ≡ v)) ⊎ HasEntry id v d

-- No entry has a score below the value.
abbrev AreAbove : ℤ → Dict ℤ → Type 0
AreAbove v [] = Unit
AreAbove v (x ∷ d) = (v ≤ℤ x.1) × AreAbove v d

abbrev IsSorted : Dict ℤ → Type 0
IsSorted [] = Unit
IsSorted (x ∷ d) = AreAbove x.1 d × IsSorted d

AreAbove-lower : (v w : ℤ) (d : Dict ℤ) → v ≤ℤ w → AreAbove w d → AreAbove v d
AreAbove-lower v w [] h a = tt
AreAbove-lower v w (x ∷ d) h (b, a) = (omega (arith, h, b), AreAbove-lower v w d h a)

AreAbove-insert :
    (v : ℤ) (e : ℕ × ℤ) (d : Dict ℤ) → v ≤ℤ e.1 → AreAbove v d → AreAbove v (insert_by_score e d)
AreAbove-insert v e [] h a = (h, tt)
AreAbove-insert v e (x ∷ d) h (b, a) = elim (Bool-cases (ltb_ℤ x.1 e.1)) [
  | inl less ↦ rw less (b, AreAbove-insert v e d h a)
  | inr more ↦ rw more (h, (b, a))
]

IsSorted-insert : (e : ℕ × ℤ) (d : Dict ℤ) → IsSorted d → IsSorted (insert_by_score e d)
IsSorted-insert e [] s = (tt, tt)
IsSorted-insert e (x ∷ d) (a, s) = elim (Bool-cases (ltb_ℤ x.1 e.1)) [
  | inl less ↦ rw less (AreAbove-insert x.1 e d (ground arith) a, IsSorted-insert e d s)
  | inr more ↦
      let le : e.1 ≤ℤ x.1 = ground arith in rw more ((le, AreAbove-lower e.1 x.1 d le a), (a, s))
]

HasEntry-insert :
    (id : ℕ) (v : ℤ) (e : ℕ × ℤ) (d : Dict ℤ)
    → ((e.0 ≡ id) × (e.1 ≡ v)) ⊎ HasEntry id v d
    → HasEntry id v (insert_by_score e d)
HasEntry-insert id v e [] h = h
HasEntry-insert id v e (x ∷ d) h = elim (Bool-cases (ltb_ℤ x.1 e.1)) [
  | inr more ↦ rw more h
  | inl less ↦ rw less (elim h [
    | inl here ↦ inr (HasEntry-insert id v e d (inl here))
    | inr (inl there) ↦ inl there
    | inr (inr behind) ↦ inr (HasEntry-insert id v e d (inr behind))
  ])
]

count_to-insert :
    (v : ℤ) (e : ℕ × ℤ) (d : Dict ℤ)
    → count_to v (insert_by_score e d) ≡ (if leb_ℤ e.1 v then 1 else 0) + count_to v d
count_to-insert v e [] = refl
count_to-insert v e (x ∷ d) = elim (Bool-cases (ltb_ℤ x.1 e.1)) [
  | inl less ↦ rw less (omega (arith, count_to-insert v e d))
  | inr more ↦ rw more refl
]

length-insert : (e : ℕ × ℤ) (d : Dict ℤ) → length (insert_by_score e d) ≡ suc (length d)
length-insert e [] = refl
length-insert e (x ∷ d) = elim (Bool-cases (ltb_ℤ x.1 e.1)) [
  | inl less ↦ rw less (omega (arith, length-insert e d))
  | inr more ↦ rw more refl
]

up_to_score-IsSorted : (cutoff : ℤ) (d : Dict ℤ) → IsSorted (up_to_score cutoff d)
unfolding up_to_score
up_to_score-IsSorted cutoff [] = tt
up_to_score-IsSorted cutoff (x ∷ d) = elim (Bool-cases (leb_ℤ x.1 cutoff)) [
  | inl old ↦ rw old (IsSorted-insert x (up_to_score cutoff d) (up_to_score-IsSorted cutoff d))
  | inr young ↦ rw young (up_to_score-IsSorted cutoff d)
]

-- An entry that is found by its key and is old enough is kept.
up_to_score-HasEntry :
    (id : ℕ) (v cutoff : ℤ) (d : Dict ℤ)
    → lookup id d ≡ some v
    → v ≤ℤ cutoff
    → HasEntry id v (up_to_score cutoff d)
unfolding up_to_score
up_to_score-HasEntry id v cutoff [] e h = cc
up_to_score-HasEntry id v cutoff (x ∷ d) e h = elim (Bool-cases (id == x.0)) [
  | inl here ↦
      let key : x.0 ≡ id = ground arith in
      let score : x.1 ≡ v = cc (rw here at e) in
      let old : leb_ℤ x.1 cutoff ≡ true = ground arith in
      rw old (HasEntry-insert id v x (up_to_score cutoff d) (inl (key, score)))
  | inr apart ↦
      let rest = up_to_score-HasEntry id v cutoff d (rw apart at e) h in
      elim (Bool-cases (leb_ℤ x.1 cutoff)) [
        | inl old ↦ rw old (HasEntry-insert id v x (up_to_score cutoff d) (inr rest))
        | inr young ↦ rw young rest
      ]
]

up_to_score-count_to :
    (v cutoff : ℤ) (d : Dict ℤ) → count_to v (up_to_score cutoff d) ≤ count_to v d
unfolding up_to_score
up_to_score-count_to v cutoff [] = omega arith
up_to_score-count_to v cutoff (x ∷ d) = elim (Bool-cases (leb_ℤ x.1 cutoff)) [
  | inl old ↦
      rw old
        (omega (arith, count_to-insert v x (up_to_score cutoff d), up_to_score-count_to v cutoff d))
  | inr young ↦ rw young (omega (arith, up_to_score-count_to v cutoff d))
]

up_to_score-length : (cutoff : ℤ) (d : Dict ℤ) → length (up_to_score cutoff d) ≡ count_to cutoff d
unfolding up_to_score
up_to_score-length cutoff [] = refl
up_to_score-length cutoff (x ∷ d) = elim (Bool-cases (leb_ℤ x.1 cutoff)) [
  | inl old ↦
      rw old (omega (arith, length-insert x (up_to_score cutoff d), up_to_score-length cutoff d))
  | inr young ↦ rw young (omega (arith, up_to_score-length cutoff d))
]

HasEntry-count_to : (id : ℕ) (v : ℤ) (d : Dict ℤ) → HasEntry id v d → 1 ≤ count_to v d
HasEntry-count_to id v [] h = absurd h
HasEntry-count_to id v (x ∷ d) (inl (key, score)) =
    let old : leb_ℤ x.1 v ≡ true = rw score (ground arith) in rw old (omega arith)
HasEntry-count_to id v (x ∷ d) (inr there) = omega (arith, HasEntry-count_to id v d there)

HasEntry-above : (id : ℕ) (v w : ℤ) (d : Dict ℤ) → AreAbove w d → HasEntry id v d → w ≤ℤ v
HasEntry-above id v w [] a h = absurd h
HasEntry-above id v w (x ∷ d) (le, a) (inl (key, score)) = rw (← score) le
HasEntry-above id v w (x ∷ d) (le, a) (inr there) = HasEntry-above id v w d a there

take_keys-contains :
    (id : ℕ) (v : ℤ) (n : ℕ) (d : Dict ℤ)
    → IsSorted d
    → HasEntry id v d
    → count_to v d ≤ n
    → contains id (take_keys n d) ≡ true
unfolding take_keys
take_keys-contains id v zero d s h k = absurd (omega (arith, HasEntry-count_to id v d h, k))
take_keys-contains id v (suc n) [] s h k = absurd h
take_keys-contains id v (suc n) (x ∷ d) s (inl (key, score)) k = ground arith
take_keys-contains id v (suc n) (x ∷ d) (a, s) (inr there) k =
    let first : leb_ℤ x.1 v ≡ true = let le = HasEntry-above id v x.1 d a there in ground arith in
    let fits : 1 + count_to v d ≤ suc n = rw first at k in
    let rest = take_keys-contains id v n d s there (omega (arith, fits)) in ground (arith, rest)

take_keys-length :
    (n : ℕ) (d : Dict ℤ) → (length (take_keys n d) ≤ n) × (length (take_keys n d) ≤ length d)
unfolding take_keys
take_keys-length zero d = (omega arith, omega arith)
take_keys-length (suc n) [] = (omega arith, omega arith)
take_keys-length (suc n) (x ∷ d) =
    let (a, b) = take_keys-length n d in (omega (arith, a), omega (arith, b))

pub stale_inflight-contains :
    (id : ℕ) (cutoff : ℤ) (limit : ℕ) (r : Redis)
    → IsStale id cutoff limit r.inflight
    → contains id (stale_inflight cutoff limit r) ≡ true
unfolding stale_inflight
stale_inflight-contains id cutoff limit r (started, at, old, fits) =
    take_keys-contains id started limit (up_to_score cutoff r.inflight)
      (up_to_score-IsSorted cutoff r.inflight)
      (up_to_score-HasEntry id started cutoff r.inflight at old)
      (omega (arith, up_to_score-count_to started cutoff r.inflight, fits))

-- The batch has no more reservations than its limit, and no more than are stale.
pub stale_inflight_bounds :
    (cutoff : ℤ) (limit : ℕ) (r : Redis)
    → (length (stale_inflight cutoff limit r) ≤ limit)
      × (length (stale_inflight cutoff limit r) ≤ count_to cutoff r.inflight)
unfolding stale_inflight
stale_inflight_bounds cutoff limit r =
    let (a, b) = take_keys-length limit (up_to_score cutoff r.inflight) in
    (a, omega (arith, b, up_to_score-length cutoff r.inflight))
