-- ===== src/Billing/Following.antt =====
-- Following the record of one generation.
use generation_balance_servi.Base.{ℕ, ◌≤◌, ◌≡◌, refl, ap, Option, none, some, lookup, List, [], ◌∷◌}
use generation_balance_servi.Errors.{Error}
use generation_balance_servi.Redis.{Redis, Call, GenerationHash}
use generation_balance_servi.Redis.Generations.{Keeps, Progress, run-Progress}
use generation_balance_servi.Redis.Versions.{All}
use generation_balance_servi.Redis.Traces.{Ran, Ran-stable}
use generation_balance_servi.Store.Recognises.{
  HasRecord, IsFinished, HasRecord-stable, IsFinished-stable,
}
use generation_balance_servi.Machine.Rules.{Setting}
use generation_balance_servi.Billing.Facts.{NotRunning}

All-map :
    (P Q : Call → Type 0) (calls : List Call)
    → ((call : Call) → P call → Q call)
    → All P calls
    → All Q calls
All-map P Q [] f h = tt
All-map P Q (c ∷ calls) f (p, h) = (f c p, All-map P Q calls f h)

-- The commands keep the record of the identifier, and a failure may be told once it is finished.
pub record Follows (id : ℕ) (c : Setting) : Type 0 where
  pub keeps : (call : Call) → c.allowed call → Keeps id call
  pub finished : (e : Error) (r : Redis) → IsFinished id r → c.on_error e r

-- The record of the identifier was reserved with a token given out from the start on.
abbrev pub IsOwn : ℕ → ℕ → Redis → Type 0
IsOwn id start r =
    (g : GenerationHash) × (lookup id r.generations ≡ some g) × (start ≤ g.reservation_token)

pub HasRecord-of-IsOwn : (id start : ℕ) (r : Redis) → IsOwn id start r → HasRecord id r
HasRecord-of-IsOwn id start r (g, e, h) = (g, e)

own_token : (g₀ g : GenerationHash) → some g₀ ≡ some g → g₀.reservation_token ≡ g.reservation_token
own_token g₀ g e = let is : g₀ ≡ g = cc in ap (λ (x : GenerationHash). x.reservation_token) is

module _ (c : Setting) (id : ℕ) (follows : Follows id c) where
  pub Ran-HasRecord : (r r' : Redis) → Ran c.allowed r r' → HasRecord id r → HasRecord id r'
  Ran-HasRecord r r' x h =
      Ran-stable (HasRecord id) r r' (λ call r p. HasRecord-stable id call r (follows.keeps call p))
        x h

  pub Ran-Progress :
      (r r' : Redis)
      → Ran c.allowed r r'
      → Progress (lookup id r.generations) (lookup id r'.generations)
  Ran-Progress r r' x =
      rw x.ends
        (run-Progress id x.calls r (All-map c.allowed (Keeps id) x.calls follows.keeps x.all))

  pub Ran-IsFinished : (r r' : Redis) → Ran c.allowed r r' → IsFinished id r → IsFinished id r'
  Ran-IsFinished r r' x h =
      Ran-stable (IsFinished id) r r'
        (λ call r p. IsFinished-stable id call r (follows.keeps call p)) x h

  own-Progress :
      (start : ℕ) (o o' : Option GenerationHash) (g : GenerationHash)
      → Progress o o'
      → o ≡ some g
      → start ≤ g.reservation_token
      → (g' : GenerationHash) × (o' ≡ some g') × (start ≤ g'.reservation_token)
  own-Progress start none o' g p e h = cc
  own-Progress start (some g₀) none g p e h = absurd p
  own-Progress start (some g₀) (some g') g (same, change) e h =
      (g', refl, rw (same.token) (rw (own_token g₀ g e) h))

  pub Ran-IsOwn :
      (start : ℕ) (r r' : Redis) → Ran c.allowed r r' → IsOwn id start r → IsOwn id start r'
  Ran-IsOwn start r r' x (g, e, h) = own-Progress start _ _ g (Ran-Progress r r' x) e h

pub IsFinished-of-NotRunning :
    (id : ℕ) (r : Redis) → HasRecord id r → NotRunning id r → IsFinished id r
IsFinished-of-NotRunning id r (g, e) h = (g, e, h g e)
