-- ===== src/FakeProvider/Counted.antt =====
-- The counters tell what the calls did.
use generation_balance_servi.Base.{
  length, ℕ, zero, suc, ◌+◌, ◌≡◌, ◌≤ℤ◌, refl, ◌∙◌, inl, inr, Bool, ◌==◌, if◌then◌else◌, ℤ, pos,
  ◌+ℤ◌, ◌-ℤ◌, max_ℤ, max_ℤ_cases, max_ℤ-IsMax, eq_of_parts, sym, ap, Option, none, some, List, [],
  ◌∷◌, lookup, lookup-insert, arith,
}
use generation_balance_servi.FakeProvider.{
  ProviderScenario, Pending, State, Event, set, look, begin, end, step, run, fresh, began, ended,
  enter, leave, get_stats, take_at, get_or,
}

-- The greatest number of calls that sleep at once, from a state on.
abbrev pub peak : ProviderScenario → List Event → State → ℤ
peak default [] s = pos (length s.asleep)
peak default (e ∷ events) s =
    max_ℤ (pos (length s.asleep)) (peak default events (step default e s).1)

-- Whether a step enters a call of the request.
abbrev enters : ℕ → Option (Pending × List Pending) → ℕ
enters id none = 0
enters id (some (call, looked)) = if id == call.request.client_request_id then 1 else 0

abbrev entered : ℕ → Event → State → ℕ
entered id (begin k) s = enters id (take_at k s.looked)
entered id (set k scenario) s = 0
entered id (look request cost) s = 0
entered id (end k cancelled) s = 0

-- How often calls of the request enter.
abbrev pub entries : ProviderScenario → ℕ → List Event → State → ℕ
entries default id [] s = 0
entries default id (e ∷ events) s = entered id e s + entries default id events (step default e s).1

abbrev Shrinks {ℓ} : {A : Type ℓ} → List A → Option (A × List A) → Type 0
Shrinks xs none = Unit
Shrinks xs (some (y, ys)) = length xs ≡ suc (length ys)

Shrinks-behind {ℓ} :
    {A : Type ℓ} (x : A) (xs : List A) (o : Option (A × List A))
    → Shrinks xs o
    → Shrinks (x ∷ xs) (elim o [ none ↦ none | some (y, ys) ↦ some (y, x ∷ ys) ])
Shrinks-behind x xs none h = tt
Shrinks-behind x xs (some (y, ys)) h = cc

take_at-Shrinks {ℓ} : {A : Type ℓ} (k : ℕ) (xs : List A) → Shrinks xs (take_at k xs)
take_at-Shrinks k [] = tt
take_at-Shrinks zero (x ∷ xs) = refl
take_at-Shrinks (suc k) (x ∷ xs) = Shrinks-behind x xs (take_at k xs) (take_at-Shrinks k xs)

-- The counter of sleeping calls is right, and its maximum is not below it.
abbrev IsCounted : State → Type 0
IsCounted s =
    (s.shared.active_calls ≡ pos (length s.asleep))
    × (pos (length s.asleep) ≤ℤ s.shared.max_active_calls)

abbrev calls_of : ℕ → State → ℕ
calls_of id s = get_or (lookup id s.shared.calls) 0

-- What a step that enters so many calls of the request does to the counters.
abbrev Counts : ℕ → ℕ → State → State → Type 0
Counts id entered s s' =
    IsCounted s'
    × (s'.shared.max_active_calls ≡ max_ℤ s.shared.max_active_calls (pos (length s'.asleep)))
    × (calls_of id s' ≡ calls_of id s + entered)

unchanged : (m n : ℤ) → n ≤ℤ m → m ≡ max_ℤ m n
unchanged m n h = elim (max_ℤ_cases m n) [
  | inl (e, le) ↦ sym e
  | inr (e, le) ↦ eq_of_parts m n (omega (arith, h, le)) ∙ sym e
]

next_number : (n : ℕ) → pos n +ℤ pos 1 ≡ pos (suc n)
unfolding ◌+ℤ◌
next_number n = ground arith

previous_number : (n : ℕ) → pos (suc n) -ℤ pos 1 ≡ pos n
unfolding ◌-ℤ◌
previous_number n = ground arith

Counts-refl : (id : ℕ) (s : State) → IsCounted s → Counts id 0 s s
Counts-refl id s (a, m) = ((a, m), unchanged _ _ m, omega arith)

began-Counts :
    (id : ℕ) (s : State) (o : Option (Pending × List Pending))
    → IsCounted s
    → Counts id (enters id o) s (began s o)
unfolding enter
began-Counts id s none h = Counts-refl id s h
began-Counts id s (some (call, looked)) (a, m) =
    let rid = call.request.client_request_id in
    let active : s.shared.active_calls +ℤ pos 1 ≡ pos (suc (length s.asleep)) =
      ap (λ x. x +ℤ pos 1) a ∙ next_number (length s.asleep) in
    let max = max_ℤ-IsMax s.shared.max_active_calls (pos (suc (length s.asleep))) in
    (
      (active, rw active max.1),
      rw active refl,
      ground
          (arith, lookup-insert id rid (get_or (lookup rid s.shared.calls) 0 + 1) s.shared.calls),
    )

ended-Counts :
    (id : ℕ) (s : State) (cancelled : Bool) (o : Option (Pending × List Pending))
    → Shrinks s.asleep o
    → IsCounted s
    → Counts id 0 s (ended s cancelled o).1
unfolding leave
ended-Counts id s cancelled none h c = Counts-refl id s c
ended-Counts id s cancelled (some (call, asleep)) h (a, m) =
    let fewer : pos (length asleep) ≤ℤ s.shared.max_active_calls = omega (arith, h, m) in
    (
      (
        ap (λ x. x -ℤ pos 1) a ∙ ap (λ n. pos n -ℤ pos 1) h ∙ previous_number (length asleep),
        fewer,
      ),
      unchanged _ _ fewer,
      omega arith,
    )

step-Counts :
    (default : ProviderScenario) (id : ℕ) (e : Event) (s : State)
    → IsCounted s
    → Counts id (entered id e s) s (step default e s).1
step-Counts default id (set k scenario) s (a, m) = ((a, m), unchanged _ _ m, omega arith)
step-Counts default id (look request cost) s (a, m) = ((a, m), unchanged _ _ m, omega arith)
step-Counts default id (begin k) s h = began-Counts id s (take_at k s.looked) h
step-Counts default id (end k cancelled) s h =
    ended-Counts id s cancelled (take_at k s.asleep) (take_at-Shrinks k s.asleep) h

peak_first :
    (default : ProviderScenario) (events : List Event) (s : State)
    → pos (length s.asleep) ≤ℤ peak default events s
peak_first default [] s = omega arith
peak_first default (e ∷ events) s =
    (max_ℤ-IsMax (pos (length s.asleep)) (peak default events (step default e s).1)).0

max_step : (m n n₁ p : ℤ) → n ≤ℤ m → n₁ ≤ℤ p → max_ℤ (max_ℤ m n₁) p ≡ max_ℤ m (max_ℤ n p)
max_step m n n₁ p h k = eq_of_parts _ _ (
    omega (
      arith,
      h,
      k,
      max_ℤ-IsMax m n₁,
      max_ℤ-IsMax n p,
      max_ℤ-IsMax (max_ℤ m n₁) p,
      max_ℤ-IsMax m (max_ℤ n p),
    ))

max_above : (m n : ℤ) → m ≤ℤ n → max_ℤ m n ≡ n
max_above m n h = eq_of_parts _ _ (omega (arith, h, max_ℤ-IsMax m n))

run-Counts :
    (default : ProviderScenario) (id : ℕ) (events : List Event) (s : State)
    → IsCounted s
    → let s' = run default events s in
      (s'.shared.active_calls ≡ pos (length s'.asleep))
      × (s'.shared.max_active_calls ≡ max_ℤ s.shared.max_active_calls (peak default events s))
      × (calls_of id s' ≡ calls_of id s + entries default id events s)
unfolding run
run-Counts default id [] s (a, m) = (a, unchanged _ _ m, omega arith)
run-Counts default id (e ∷ events) s (a, m) =
    let s₁ = (step default e s).1 in
    let (c₁, max₁, calls₁) = step-Counts default id e s (a, m) in
    let (active, max, calls) = run-Counts default id events s₁ c₁ in
    (
      active,
      max
          ∙ ap (λ x. max_ℤ x (peak default events s₁)) max₁
          ∙ max_step _ _ _ _ m (peak_first default events s₁),
      omega (arith, calls, calls₁),
    )

-- After whatever the processes do from the start on, `get_stats` tells how many calls sleep, the
-- greatest number of calls that slept at once, and how often calls of each request entered, whether
-- they returned, failed or were cancelled.
pub get_stats_lem :
    (default : ProviderScenario) (id : ℕ) (events : List Event)
    → let s = run default events fresh in
      let stats = get_stats s.shared in
      (stats.active_calls ≡ pos (length s.asleep))
      × (stats.max_active_calls ≡ peak default events fresh)
      × (get_or (lookup id stats.calls) 0 ≡ entries default id events fresh)
unfolding get_stats
get_stats_lem default id events =
    let (active, max, calls) = run-Counts default id events fresh (refl, omega arith) in
    (active, max ∙ max_above (pos 0) _ (peak_first default events fresh), omega (arith, calls))
