-- ===== src/Realtime/PlaybackIds/Ledger.antt =====
-- The account of every sample queued under a playback id: what the accounts say is queued is what
-- the runs of the queue owe them.
use fermix_linux.Base.{
  ℕ, suc, ◌+◌, ◌≤◌, ◌<◌, ◌≡◌, refl, ◌∙◌, Bool, false, List, [], ◌∷◌, Option, none, some, String,
  str_eq, arith, length, if◌then◌else◌, ◌==◌,
}
use fermix_linux.Realtime.PlaybackIds.{Account, Run, PlaybackIds, extend, same_account}

abbrev pub owns : ℕ → Option ℕ → Bool
owns i none = false
owns i (some j) = i == j

-- the samples of the queue that are under an account
abbrev pub owed : ℕ → List Run → ℕ
owed i [] = 0
owed i (r ∷ runs) = (if owns i r.account then r.samples else 0) + owed i runs

abbrev pub total : List Run → ℕ
total [] = 0
total (r ∷ runs) = r.samples + total runs

-- The accounts, of which the first has index `k`, have queued what the runs owe them.
abbrev pub Owes : ℕ → List Account → List Run → Type 0
Owes k [] runs = Unit
Owes k (a ∷ accounts) runs = (a.queued ≡ owed k runs) × Owes (suc k) accounts runs

abbrev pub InRange : ℕ → Option ℕ → Type 0
InRange n none = Unit
InRange n (some i) = i < n

abbrev pub Known : ℕ → List Run → Type 0
Known n [] = Unit
Known n (r ∷ runs) = InRange n r.account × Known n runs

pub record IsLedger (s : PlaybackIds) : Type 0 where
  pub owes : Owes 0 s.accounts s.runs
  pub known : Known (length s.accounts) s.runs

-- every sample that arrived under an id: queued, played or dropped
abbrev pub sent : String → List Account → ℕ
sent id [] = 0
sent id (a ∷ accounts) =
    (if str_eq a.id id then a.queued + a.played + a.dropped else 0) + sent id accounts

-- every sample that played under an id
abbrev pub heard : String → List Account → ℕ
heard id [] = 0
heard id (a ∷ accounts) = (if str_eq a.id id then a.played else 0) + heard id accounts

pub Owes-ext :
    (k : ℕ) (accounts : List Account) (runs runs' : List Run)
    → ((j : ℕ) → k ≤ j → owed j runs ≡ owed j runs')
    → Owes k accounts runs
    → Owes k accounts runs'
Owes-ext k [] runs runs' h o = tt
Owes-ext k (a ∷ accounts) runs runs' h (e, o) =
    (e ∙ h k (omega arith), Owes-ext (suc k) accounts runs runs' (λ j l. h j (omega arith)) o)

pub Known-weaken : (n m : ℕ) (runs : List Run) → n ≤ m → Known n runs → Known m runs
Known-weaken n m [] h k = tt
Known-weaken n m (r ∷ runs) h (i, k) = (range r.account i, Known-weaken n m runs h k)
  where
    range : (o : Option ℕ) → InRange n o → InRange m o
    range none _ = tt
    range (some i) l = omega arith

pub owed_of_Known : (n m : ℕ) (runs : List Run) → n ≤ m → Known n runs → owed m runs ≡ 0
owed_of_Known n m [] h k = refl
owed_of_Known n m (r ∷ runs) h (i, k) = foreign r.account i (owed_of_Known n m runs h k)
  where
    foreign :
        (o : Option ℕ)
        → InRange n o
        → owed m runs ≡ 0
        → (if owns m o then r.samples else 0) + owed m runs ≡ 0
    foreign none _ e = ground arith
    foreign (some j) l e = ground arith

pub owed-extend :
    (j : ℕ) (runs : List Run) (account : Option ℕ) (n : ℕ)
    → owed j (extend runs account n) ≡ owed j runs + (if owns j account then n else 0)
unfolding extend
owed-extend j [] account n = omega arith
owed-extend j (last ∷ []) account n = same last.account account
  where
    same :
        (o o' : Option ℕ)
        → owed j (
            if same_account o o'
            then record { account = o; samples = last.samples + n } ∷ []
            else record { account = o; samples = last.samples }
              ∷ record { account = o'; samples = n }
              ∷ [])
          ≡ owed j (record { account = o; samples = last.samples } ∷ [])
            + (if owns j o' then n else 0)
    same none none = ground arith
    same none (some i) = ground arith
    same (some i) none = ground arith
    same (some i) (some i') = ground arith
owed-extend j (run ∷ next ∷ runs) account n = omega (arith, owed-extend j (next ∷ runs) account n)

pub total-extend :
    (runs : List Run) (account : Option ℕ) (n : ℕ) → total (extend runs account n) ≡ total runs + n
unfolding extend
total-extend [] account n = omega arith
total-extend (last ∷ []) account n = ground arith
total-extend (run ∷ next ∷ runs) account n = omega (arith, total-extend (next ∷ runs) account n)

pub Known-extend :
    (m : ℕ) (runs : List Run) (account : Option ℕ) (n : ℕ)
    → InRange m account
    → Known m runs
    → Known m (extend runs account n)
unfolding extend
Known-extend m [] account n i k = (i, tt)
Known-extend m (last ∷ []) account n i k = ground arith
Known-extend m (run ∷ next ∷ runs) account n i k =
    (k.0, Known-extend m (next ∷ runs) account n i k.1)
