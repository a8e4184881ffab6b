-- ===== src/Store/Running.antt =====
-- A retried command is a sequence of commands, its own and those of the others.
use generation_balance_servi.Base.{ℕ, ◌+◌, leb, ◌≡◌, refl, Bool, true, false, List, [], ◌∷◌, arith}
use generation_balance_servi.Errors.{Result, ok}
use generation_balance_servi.Redis.{Redis, Call, run}
use generation_balance_servi.Redis.Versions.{All}
use generation_balance_servi.Redis.Traces.{Ran, Ran-refl, Ran-trans}
use generation_balance_servi.Store.Retrying.{
  Fault, delivered, request_lost, reply_lost, Attempt, after_fault, retrying_from, retrying,
}

-- The commands before each attempt have the property.
abbrev pub IsWire : (Call → Type 0) → List Attempt → Type 0
IsWire P wire = All (λ (w : Attempt). All P w.before) wire

module _ {ℓ} {A : Type ℓ} {P : Call → Type 0} (script : Redis → A × Redis)
    (runs : (r : Redis) → Ran P r (script r).1) where
  after_fault-Ran :
      (f : Fault) (last : Bool) (start : Redis) (again : Redis → Result A × Redis)
      → ((r : Redis) → Ran P r (again r).1)
      → Ran P start (after_fault f last start (script start) again).1
  after_fault-Ran delivered last start again ih = runs start
  after_fault-Ran request_lost true start again ih = Ran-refl
  after_fault-Ran request_lost false start again ih = ih start
  after_fault-Ran reply_lost true start again ih = runs start
  after_fault-Ran reply_lost false start again ih = Ran-trans (runs start) (ih _)

  retrying_from-Ran :
      (limit attempt : ℕ) (wire : List Attempt) (r : Redis)
      → IsWire P wire
      → Ran P r (retrying_from limit attempt wire script r).1
  unfolding retrying_from
  retrying_from-Ran limit attempt [] r h = runs r
  retrying_from-Ran limit attempt (w ∷ wire) r (h, rest) =
      Ran-trans (record { calls = w.before; all = h; ends = refl })
        (after_fault-Ran w.fault (leb limit attempt) (run w.before r)
          (λ s. retrying_from limit (attempt + 1) wire script s)
          (λ s. retrying_from-Ran limit (attempt + 1) wire s rest))

  pub retrying-Ran :
      (limit : ℕ) (wire : List Attempt) (r : Redis)
      → IsWire P wire
      → Ran P r (retrying limit wire script r).1
  unfolding retrying
  retrying-Ran limit wire r h = retrying_from-Ran limit 1 wire r h

  -- The state that the attempt which was answered met, and what the script made of it.
  abbrev pub Answered : Redis → A → Redis → Type ℓ
  Answered r a r' = (s : Redis) × Ran P r s × (a ≡ (script s).0) × (r' ≡ (script s).1)

  after_fault-Answered :
      (f : Fault) (last : Bool) (r start : Redis) (again : Redis → Result A × Redis) {a : A}
      {r' : Redis}
      → Ran P r start
      → ((s : Redis) → Ran P r s → again s ≡ (ok a, r') → Answered r a r')
      → after_fault f last start (script start) again ≡ (ok a, r')
      → Answered r a r'
  after_fault-Answered delivered last r start again h ih e = (start, h, ground arith, ground arith)
  after_fault-Answered request_lost true r start again h ih e = absurd (ground arith)
  after_fault-Answered request_lost false r start again h ih e = ih start h e
  after_fault-Answered reply_lost true r start again h ih e = absurd (ground arith)
  after_fault-Answered reply_lost false r start again h ih e =
      ih (script start).1 (Ran-trans h (runs start)) e

  retrying_from-Answered :
      (limit attempt : ℕ) (wire : List Attempt) (r₀ r : Redis) {a : A} {r' : Redis}
      → Ran P r₀ r
      → IsWire P wire
      → retrying_from limit attempt wire script r ≡ (ok a, r')
      → Answered r₀ a r'
  unfolding retrying_from
  retrying_from-Answered limit attempt [] r₀ r h w e = (r, h, cc, cc)
  retrying_from-Answered limit attempt (w ∷ wire) r₀ r h (p, rest) e =
      after_fault-Answered w.fault (leb limit attempt) r₀ (run w.before r)
        (λ s. retrying_from limit (attempt + 1) wire script s)
        (Ran-trans h (record { calls = w.before; all = p; ends = refl }))
        (λ s k e'. retrying_from-Answered limit (attempt + 1) wire r₀ s k rest e') e

  -- A call that returns ran the script on the state that its last attempt met, and leaves what
  -- that run made of it.
  pub retrying-Answered :
      (limit : ℕ) (wire : List Attempt) (r : Redis) {a : A} {r' : Redis}
      → IsWire P wire
      → retrying limit wire script r ≡ (ok a, r')
      → Answered r a r'
  unfolding retrying
  retrying-Answered limit wire r h e = retrying_from-Answered limit 1 wire r r Ran-refl h e
