-- ===== src/Realtime/Session/Returns.antt =====
-- A session given one input after another, and how what holds of one input holds of them all.
use fermix_linux.Base.{
  ◌≡◌, List, [], ◌∷◌, ◌++◌, Option, none, some, ◌>>=◌, Option-cases, All, inl, inr,
}
use fermix_linux.Base.Floats.{Floats}
use fermix_linux.Realtime.Session.Data.{Effect, Input}
use fermix_linux.Realtime.Session.State.{Session, Outcome}
use fermix_linux.Realtime.Session.{apply}

module _ (fl : Floats) where
  -- What holds of every outcome; a failed assertion has none.
  abbrev pub Returns : (Outcome fl → Type 0) → Option (Outcome fl) → Type 0
  Returns P none = Unit
  Returns P (some o) = P o

  pub of_Returns :
      (P : Outcome fl → Type 0) {r : Option (Outcome fl)} {o : Outcome fl}
      → Returns P r
      → r ≡ some o
      → P o
  of_Returns P {r} {o} p h = let q : Returns P (some o) = rw h at p in q

  -- The session and the effects after a list of inputs, oldest first.
  unfoldable pub run_from : Session fl → List Effect → List (Input fl) → Option (Outcome fl)
  run_from s es [] = some (s, es)
  run_from s es (i ∷ is) = do o ← apply fl s i; run_from o.0 (es ++ o.1) is

  unfoldable pub run : Session fl → List (Input fl) → Option (Outcome fl)
  unfolding run_from
  run s is = run_from s [] is

  module _ (Q : Input fl → Type 0) (P : Session fl → List Effect → Type 0)
      (keep : (s : Session fl) (es : List Effect) (i : Input fl) (o : Outcome fl)
        → Q i
        → P s es
        → apply fl s i ≡ some o
        → P o.0 (es ++ o.1)) where
    run_from_inv :
        (s : Session fl) (es : List Effect) (is : List (Input fl)) {o : Outcome fl}
        → All Q is
        → P s es
        → run_from s es is ≡ some o
        → P o.0 o.1
    unfolding run_from
    run_from_inv s es [] q p h = of_Returns (λ o. P o.0 o.1) {r = some (s, es)} p h
    run_from_inv s es (i ∷ is) q p h = elim (Option-cases (apply fl s i)) [
      | inl e ↦ absurd (let n : none ≡ some _ = rw (e, ◌>>=◌) at h in cc)
      | inr (a, e) ↦
          run_from_inv a.0 (es ++ a.1) is q.1 (keep s es i a q.0 p e) (rw (e, ◌>>=◌) at h)
    ]

    -- An invariant of the session and of the effects so far, under inputs of a kind.
    pub run_inv_of :
        (s : Session fl) (is : List (Input fl)) {o : Outcome fl}
        → All Q is
        → P s []
        → run s is ≡ some o
        → P o.0 o.1
    unfolding run
    run_inv_of s is q p h = run_from_inv s [] is q p h

  All-any : (is : List (Input fl)) → All (λ _. Unit {0}) is
  All-any [] = tt
  All-any (i ∷ is) = (tt, All-any is)

  -- An invariant of the session and of the effects so far.
  pub run_inv :
      (P : Session fl → List Effect → Type 0)
      → ((s : Session fl) (es : List Effect) (i : Input fl) (o : Outcome fl)
          → P s es
          → apply fl s i ≡ some o
          → P o.0 (es ++ o.1))
      → (s : Session fl) (is : List (Input fl)) {o : Outcome fl} → P s []
      → run s is ≡ some o
      → P o.0 o.1
  run_inv P keep s is p h =
      run_inv_of (λ _. Unit {0}) P (λ s es i o _ p e. keep s es i o p e) s is (All-any is) p h

  -- A run that does not fail, one input at a time.
  pub run_from-cons :
      (s : Session fl) (es : List Effect) (i : Input fl) (is : List (Input fl)) {a : Outcome fl}
      → apply fl s i ≡ some a
      → run_from s es (i ∷ is) ≡ run_from a.0 (es ++ a.1) is
  unfolding run_from
  run_from-cons s es i is e = rw (e, ◌>>=◌)
