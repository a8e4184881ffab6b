-- ===== src/Store/Retry.antt =====
-- A retried call has its effect at most once among whatever else reaches Redis meanwhile, and
-- exactly once if it returns.
use generation_balance_servi.Base.{
  ℕ, ◌+◌, leb, ◌≡◌, refl, ap, ◌∙◌, ◌⊎◌, inl, inr, Bool, true, false, List, [], ◌∷◌, ◌++◌,
}
use mathlib.Core.List.{append_assoc}
use generation_balance_servi.Errors.{Result, ok, raise, transport_error}
use generation_balance_servi.Redis.{Redis, Call, exec, run}
use generation_balance_servi.Redis.Versions.{All}
use generation_balance_servi.Store.Retrying.{
  Fault, delivered, request_lost, reply_lost, Attempt, after_fault, retrying_from, retrying,
}

-- A script that recognises its own call: once it has landed, it changes nothing, for as long as
-- the others make only the calls that `Allowed` admits.
pub record RecognisesItself {ℓ} {A : Type ℓ} (script : Redis → A × Redis) (Landed : Redis → Type 0)
    (Allowed : Call → Type 0) : Type ℓ where
  pub lands : (r : Redis) → ((script r).1 ≡ r) ⊎ Landed (script r).1
  pub absorbs : (r : Redis) → Landed r → (script r).1 ≡ r
  pub stable : (c : Call) (r : Redis) → Allowed c → Landed r → Landed (exec c r)

-- All that the others do during the call.
abbrev pub meanwhile : List Attempt → List Call
meanwhile [] = []
meanwhile (w ∷ wire) = w.before ++ meanwhile wire

-- The state after the call is the state after some first commands of the others, in order, with
-- at most one run of the script among them. A call that returned ran the script, and returns the
-- reply of that run, or the reply that the script gives again to the state that is left.
pub data Linearised {ℓ} {A : Type ℓ} (script : Redis → A × Redis) (others : List Call) (r : Redis)
    (x : Result A) (r' : Redis) : Type ℓ where
  once :
      (pre post rest : List Call)
      → pre ++ (post ++ rest) ≡ others
      → r' ≡ run post (script (run pre r)).1
      → ((a : A) → x ≡ ok a → (a ≡ (script (run pre r)).0) ⊎ (a ≡ (script r').0))
      → Linearised script others r x r'
  never :
      (pre rest : List Call)
      → pre ++ rest ≡ others
      → r' ≡ run pre r
      → x ≡ raise transport_error
      → Linearised script others r x r'

-- The same from a state where the script has run.
data Replayed {ℓ} {A : Type ℓ} (script : Redis → A × Redis) (others : List Call) (r : Redis)
    (x : Result A) (r' : Redis) : Type ℓ where
  replay :
      (post rest : List Call)
      → post ++ rest ≡ others
      → r' ≡ run post r
      → ((a : A) → x ≡ ok a → a ≡ (script r').0)
      → Replayed script others r x r'

run-append : (xs ys : List Call) (r : Redis) → run (xs ++ ys) r ≡ run ys (run xs r)
unfolding run
run-append [] ys r = refl
run-append (x ∷ xs) ys r = run-append xs ys (exec x r)

All-append-left {κ} : (P : Call → Type κ) (xs ys : List Call) → All P (xs ++ ys) → All P xs
All-append-left P [] ys h = tt
All-append-left P (x ∷ xs) ys h = (h.0, All-append-left P xs ys h.1)

All-append-right {κ} : (P : Call → Type κ) (xs ys : List Call) → All P (xs ++ ys) → All P ys
All-append-right P [] ys h = h
All-append-right P (x ∷ xs) ys h = All-append-right P xs ys h.1

module _ {ℓ} {A : Type ℓ} {script : Redis → A × Redis} {Landed : Redis → Type 0}
    {Allowed : Call → Type 0} (law : RecognisesItself script Landed Allowed) where
  run-Landed : (calls : List Call) (r : Redis) → All Allowed calls → Landed r → Landed (run calls r)
  unfolding run
  run-Landed [] r a l = l
  run-Landed (c ∷ calls) r a l = run-Landed calls (exec c r) a.1 (law.stable c r a.0 l)

  after_before :
      (calls others : List Call) (r : Redis) (x : Result A) (s : Redis)
      → Linearised script others (run calls r) x s
      → Linearised script (calls ++ others) r x s
  after_before calls others r x s (once pre post rest o e v) =
      once (calls ++ pre) post rest (append_assoc calls pre (post ++ rest) ∙ ap (◌++◌ calls) o)
        (rw (run-append calls pre r) e) (rw (run-append calls pre r) v)
  after_before calls others r x s (never pre rest o e v) =
      never (calls ++ pre) rest (append_assoc calls pre rest ∙ ap (◌++◌ calls) o)
        (rw (run-append calls pre r) e) v

  replay_before :
      (calls others : List Call) (r : Redis) (x : Result A) (s : Redis)
      → Replayed script others (run calls r) x s
      → Replayed script (calls ++ others) r x s
  replay_before calls others r x s (replay post rest o e v) =
      replay (calls ++ post) rest (append_assoc calls post rest ∙ ap (◌++◌ calls) o)
        (rw (run-append calls post r) e) v

  -- The run of the script that starts a replay is the one of the whole call.
  of_replay :
      (others : List Call) (r : Redis) (x : Result A) (s : Redis)
      → Replayed script others (script r).1 x s
      → Linearised script others r x s
  unfolding run
  of_replay others r x s (replay post rest o e v) = once [] post rest o e (λ a h. inr (v a h))

  -- One attempt on a state where the call has landed already.
  landed_fault :
      (f : Fault) (last : Bool) (others : List Call) (start : Redis) (landed : A × Redis)
      (again : Redis → Result A × Redis)
      → landed ≡ script start
      → landed.1 ≡ start
      → Replayed script others start (again start).0 (again start).1
      → let x = after_fault f last start landed again in Replayed script others start x.0 x.1
  unfolding run
  landed_fault delivered last others start landed again d e ih =
      replay [] others refl e (λ a h. rw e (cc (ap (λ (p : A × Redis). p.0) d)))
  landed_fault request_lost true others start landed again d e ih =
      replay [] others refl refl (λ a h. cc)
  landed_fault request_lost false others start landed again d e ih = ih
  landed_fault reply_lost true others start landed again d e ih =
      replay [] others refl e (λ a h. cc)
  landed_fault reply_lost false others start landed again d e ih = rw e ih

  -- One attempt on a state where it may not have landed.
  first_fault :
      (f : Fault) (last : Bool) (others : List Call) (start : Redis)
      (again : Redis → Result A × Redis)
      → Linearised script others start (again start).0 (again start).1
      → (Landed (script start).1
          → let x = again (script start).1 in Replayed script others (script start).1 x.0 x.1)
      → let x = after_fault f last start (script start) again in
        Linearised script others start x.0 x.1
  unfolding run
  first_fault delivered last others start again ih done =
      once [] [] others refl refl (λ a h. inl cc)
  first_fault request_lost true others start again ih done = never [] others refl refl refl
  first_fault request_lost false others start again ih done = ih
  first_fault reply_lost true others start again ih done = once [] [] others refl refl (λ a h. cc)
  first_fault reply_lost false others start again ih done = elim (law.lands start) [
    | inl same ↦ rw same ih
    | inr landed ↦ of_replay others start _ _ (done landed)
  ]

  module _ (limit : ℕ) where
    -- Once the call has landed, only the others change anything.
    landed_phase :
        (attempt : ℕ) (wire : List Attempt) (r : Redis)
        → All Allowed (meanwhile wire)
        → Landed r
        → let x = retrying_from limit attempt wire script r in
          Replayed script (meanwhile wire) r x.0 x.1
    unfolding retrying_from run
    landed_phase attempt [] r a l =
        replay [] [] refl (law.absorbs r l) (λ x h. rw (law.absorbs r l) cc)
    landed_phase attempt (w ∷ wire) r a l =
        let start = run w.before r in
        let others = meanwhile wire in
        let landed = run-Landed w.before r (All-append-left Allowed w.before others a) l in
        replay_before w.before others r _ _ (
          landed_fault w.fault (leb limit attempt) others start (script start)
            (λ s. retrying_from limit (attempt + 1) wire script s) refl (law.absorbs start landed)
            (landed_phase (attempt + 1) wire start (All-append-right Allowed w.before others a)
              landed))

    retrying_from-Linearised :
        (attempt : ℕ) (wire : List Attempt) (r : Redis)
        → All Allowed (meanwhile wire)
        → let x = retrying_from limit attempt wire script r in
          Linearised script (meanwhile wire) r x.0 x.1
    unfolding retrying_from run
    retrying_from-Linearised attempt [] r a = once [] [] [] refl refl (λ x h. inl cc)
    retrying_from-Linearised attempt (w ∷ wire) r a =
        let others = meanwhile wire in
        let later = All-append-right Allowed w.before others a in
        let start = run w.before r in
        after_before w.before others r _ _ (
          first_fault w.fault (leb limit attempt) others start
            (λ s. retrying_from limit (attempt + 1) wire script s)
            (retrying_from-Linearised (attempt + 1) wire start later)
            (λ landed. landed_phase (attempt + 1) wire (script start).1 later landed))

    -- For a script that recognises its own landed call and whose landing the other processes'
    -- calls keep, a retried call over any wire that loses requests or replies ends in the state
    -- of some first commands of the others with at most one run of the script among them. If it
    -- returns, the script has run, and the value is the reply of that run or the reply that the
    -- script gives again to the final state; if the script has not run, the call raises a
    -- transport error.
    pub retrying-Linearised :
        (wire : List Attempt) (r : Redis)
        → All Allowed (meanwhile wire)
        → let x = retrying limit wire script r in Linearised script (meanwhile wire) r x.0 x.1
    unfolding retrying
    retrying-Linearised wire r a = retrying_from-Linearised 1 wire r a
