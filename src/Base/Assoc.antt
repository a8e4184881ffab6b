-- ===== src/Base/Assoc.antt =====
-- A Python dict and a Redis keyspace with numbers for keys, as an association list in insertion
-- order.
use Prim.Native.Nat.{ℕ}
use mathlib.Core.Path.{◌≡◌}
use mathlib.Core.Logic.{◌≢◌}
use mathlib.Core.Option.{Option, none, some}
use mathlib.Core.List.{List, [], ◌∷◌}
use native.Mathlib.Omega.{arith}
use generation_balance_servi.Base.Logic.{◌==◌, if◌then◌else◌}
use generation_balance_servi.Base.Int.{ℤ, pos, ◌+ℤ◌, int_laws}

abbrev pub Dict {ℓ} : Type ℓ → Type ℓ
Dict V = List (ℕ × V)

module _ {ℓ} {V : Type ℓ} where
  abbrev pub lookup : ℕ → Dict V → Option V
  lookup k [] = none
  lookup k (e ∷ d) = if k == e.0 then some e.1 else lookup k d

  -- Overwrites in place, or appends.
  unfoldable pub insert : ℕ → V → Dict V → Dict V
  insert k v [] = (k, v) ∷ []
  insert k v (e ∷ d) = if k == e.0 then (k, v) ∷ d else e ∷ insert k v d

  pub lookup-insert :
      (j k : ℕ) (v : V) (d : Dict V)
      → lookup j (insert k v d) ≡ (if j == k then some v else lookup j d)
  unfolding insert
  lookup-insert j k v [] = ground arith
  lookup-insert j k v (e ∷ d) = ground (arith, lookup-insert j k v d)

  pub lookup-insert_self : (k : ℕ) (v : V) (d : Dict V) → lookup k (insert k v d) ≡ some v
  lookup-insert_self k v d = ground (arith, lookup-insert k k v d)

  pub lookup-insert_ne :
      (j k : ℕ) (v : V) (d : Dict V) → j ≢ k → lookup j (insert k v d) ≡ lookup j d
  lookup-insert_ne j k v d h = ground (arith, lookup-insert j k v d)

  -- Removes every entry of the key.
  unfoldable pub erase : ℕ → Dict V → Dict V
  erase k [] = []
  erase k (e ∷ d) = let rest = erase k d in if k == e.0 then rest else e ∷ rest

  pub lookup-erase :
      (j k : ℕ) (d : Dict V) → lookup j (erase k d) ≡ (if j == k then none else lookup j d)
  unfolding erase
  lookup-erase j k [] = ground arith
  lookup-erase j k (e ∷ d) = ground (arith, lookup-erase j k d)

  -- The sum of a number that each entry carries.
  abbrev pub sum_by : (V → ℤ) → Dict V → ℤ
  sum_by f [] = pos 0
  sum_by f (e ∷ d) = f e.1 +ℤ sum_by f d

  pub sum_by-insert :
      (f : V → ℤ) (k : ℕ) (v old : V) (d : Dict V)
      → lookup k d ≡ some old
      → sum_by f (insert k v d) +ℤ f old ≡ sum_by f d +ℤ f v
  unfolding insert
  sum_by-insert f k v old [] e = ground arith
  sum_by-insert f k v old (x ∷ d) e = grind (int_laws, sum_by-insert f k v old d)

  pub sum_by-insert_new :
      (f : V → ℤ) (k : ℕ) (v : V) (d : Dict V)
      → lookup k d ≡ none
      → sum_by f (insert k v d) ≡ sum_by f d +ℤ f v
  unfolding insert
  sum_by-insert_new f k v [] e = omega int_laws
  sum_by-insert_new f k v (x ∷ d) e = grind (int_laws, sum_by-insert_new f k v d)
