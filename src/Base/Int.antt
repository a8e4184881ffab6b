-- ===== src/Base/Int.antt =====
-- Python's unbounded integers over the native numbers. Sums and orders go through the two parts
-- of an integer, which are numbers that `omega` reads.
use Prim.Native.Nat.{ℕ, suc, ◌+◌, ◌-◌, ◌*◌, ◌≤◌, ◌<◌}
use mathlib.Core.Path.{◌≡◌}
use mathlib.Core.Logic.{◌⊎◌}
use mathlib.Core.Bool.{Bool, true}
use native.Mathlib.Omega.{arith}
use generation_balance_servi.Base.Logic.{ltb, leb, ◌==◌, if◌then◌else◌}

-- `negsuc n` is -(n + 1).
pub data ℤ : Type 0 where
  pos : ℕ → ℤ
  negsuc : ℕ → ℤ

abbrev pub pos_part : ℤ → ℕ
pos_part (pos n) = n
pos_part (negsuc n) = 0

abbrev pub neg_part : ℤ → ℕ
neg_part (pos n) = 0
neg_part (negsuc n) = suc n

-- a - b, as an integer.
abbrev pub sub_ℕ : ℕ → ℕ → ℤ
sub_ℕ a b = if leb b a then pos (a - b) else negsuc (b - a - 1)

infixl 65 ◌+ℤ◌ ◌-ℤ◌
infix 50 ◌≤ℤ◌ ◌<ℤ◌ ◌==ℤ◌
unfoldable pub ◌+ℤ◌ : ℤ → ℤ → ℤ
a +ℤ b = sub_ℕ (pos_part a + pos_part b) (neg_part a + neg_part b)

unfoldable pub ◌-ℤ◌ : ℤ → ℤ → ℤ
a -ℤ b = sub_ℕ (pos_part a + neg_part b) (neg_part a + pos_part b)

-- The product with a natural number.
unfoldable pub scale : ℕ → ℤ → ℤ
scale k a = sub_ℕ (pos_part a * k) (neg_part a * k)

abbrev pub ◌≤ℤ◌ : ℤ → ℤ → Type 0
a ≤ℤ b = pos_part a + neg_part b ≤ pos_part b + neg_part a

abbrev pub ◌<ℤ◌ : ℤ → ℤ → Type 0
a <ℤ b = pos_part a + neg_part b < pos_part b + neg_part a

abbrev pub ltb_ℤ : ℤ → ℤ → Bool
ltb_ℤ a b = ltb (pos_part a + neg_part b) (pos_part b + neg_part a)

abbrev pub leb_ℤ : ℤ → ℤ → Bool
leb_ℤ a b = leb (pos_part a + neg_part b) (pos_part b + neg_part a)

abbrev pub ◌==ℤ◌ : ℤ → ℤ → Bool
a ==ℤ b = (pos_part a + neg_part b) == (pos_part b + neg_part a)

-- Python's `min(a, b)` and `max(a, b)`: the first argument, unless the second is strictly better.
unfoldable pub min_ℤ : ℤ → ℤ → ℤ
min_ℤ a b = if ltb_ℤ b a then b else a

unfoldable pub max_ℤ : ℤ → ℤ → ℤ
max_ℤ a b = if ltb_ℤ a b then b else a

pub +ℤ_parts :
    (a b : ℤ)
    → pos_part (a +ℤ b) + neg_part a + neg_part b ≡ neg_part (a +ℤ b) + pos_part a + pos_part b
unfolding ◌+ℤ◌
+ℤ_parts a b = ground arith

pub -ℤ_parts :
    (a b : ℤ)
    → pos_part (a -ℤ b) + neg_part a + pos_part b ≡ neg_part (a -ℤ b) + pos_part a + neg_part b
unfolding ◌-ℤ◌
-ℤ_parts a b = ground arith

pub eq_of_parts : (a b : ℤ) → pos_part a + neg_part b ≡ pos_part b + neg_part a → a ≡ b
eq_of_parts a b h = ground arith

pub ruleset int_laws = (arith, +ℤ_parts, -ℤ_parts, eq_of_parts)

-- The smaller of two, as `omega` reads it.
pub min_ℤ_cases : (a b : ℤ) → ((min_ℤ a b ≡ a) × (a ≤ℤ b)) ⊎ ((min_ℤ a b ≡ b) × (b ≤ℤ a))
unfolding min_ℤ
min_ℤ_cases a b = ground arith

pub max_ℤ_cases : (a b : ℤ) → ((max_ℤ a b ≡ a) × (b ≤ℤ a)) ⊎ ((max_ℤ a b ≡ b) × (a ≤ℤ b))
unfolding max_ℤ
max_ℤ_cases a b = ground arith

-- The same in the order alone, which `omega` reads.
abbrev pub IsMin : ℤ → ℤ → ℤ → Type 0
IsMin m x y = (m ≤ℤ x) × (m ≤ℤ y) × ((x ≤ℤ m) ⊎ (y ≤ℤ m))

abbrev pub IsMax : ℤ → ℤ → ℤ → Type 0
IsMax m x y = (x ≤ℤ m) × (y ≤ℤ m) × ((m ≤ℤ x) ⊎ (m ≤ℤ y))

pub min_ℤ-IsMin : (a b : ℤ) → IsMin (min_ℤ a b) a b
unfolding min_ℤ
min_ℤ-IsMin a b = ground arith

pub max_ℤ-IsMax : (a b : ℤ) → IsMax (max_ℤ a b) a b
unfolding max_ℤ
max_ℤ-IsMax a b = ground arith

pub ==ℤ→eq : (a b : ℤ) → (a ==ℤ b) ≡ true → a ≡ b
==ℤ→eq a b h = ground arith

pub eq→==ℤ : (a b : ℤ) → a ≡ b → (a ==ℤ b) ≡ true
eq→==ℤ a b h = ground arith

pub ltb_ℤ→<ℤ : (a b : ℤ) → ltb_ℤ a b ≡ true → a <ℤ b
ltb_ℤ→<ℤ a b h = ground arith
