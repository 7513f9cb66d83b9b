-- ===== src/Realtime/PlaybackIds/Played.antt =====
-- What leaves the front of the queue is credited to the accounts that it came under.
use fermix_linux.Base.{
  ℕ, zero, suc, ◌+◌, ◌-◌, ◌≤◌, ◌<◌, ◌≡◌, refl, ap, ◌∙◌, List, [], ◌∷◌, Option, none, some, String,
  arith, length, ◌==◌, ◌>>=◌, min, Bool-cases, inl, inr,
}
use fermix_linux.Realtime.PlaybackIds.{
  Account, Run, PlaybackIds, credit, credit_run, played_loop, played,
}
use fermix_linux.Realtime.PlaybackIds.Ledger.{
  owed, total, Owes, InRange, Known, IsLedger, sent, Owes-ext,
}

abbrev run_of : Option ℕ → ℕ → Run
run_of account samples = record { account = account; samples = samples }

-- Accounts that took over from others: as many, and as much sent under each id.
pub record SameSent (before after : List Account) : Type 0 where
  pub as_many : length after ≡ length before
  pub same : (id : String) → sent id after ≡ sent id before

SameSent-refl : (accounts : List Account) → SameSent accounts accounts
SameSent-refl accounts = record { as_many = refl; same = λ id. refl }

SameSent-trans : {a b c : List Account} → SameSent a b → SameSent b c → SameSent a c
SameSent-trans p q = record { as_many = q.as_many ∙ p.as_many; same = λ id. q.same id ∙ p.same id }

owed-other :
    (j i s s' : ℕ) (runs : List Run)
    → i < j
    → owed j (run_of (some i) s ∷ runs) ≡ owed j (run_of (some i) s' ∷ runs)
owed-other j i s s' runs h = ground arith

-- The account of a run gives up what is taken from the run.
credit_lem :
    (k j i taken s : ℕ) (accounts : List Account) (runs : List Run)
    → j ≡ k + i
    → i < length accounts
    → taken ≤ s
    → Owes k accounts (run_of (some j) s ∷ runs)
    → (later : List Account) × (credit accounts i taken ≡ some later)
      × Owes k later (run_of (some j) (s - taken) ∷ runs)
      × SameSent accounts later
unfolding credit
credit_lem k j i taken s [] runs e l t o = absurd (omega arith)
credit_lem k j zero taken s (a ∷ accounts) runs e l t (q, o) = (
  record a { queued = a.queued - taken; played = a.played + taken } ∷ accounts,
  ground arith,
  (
    ground arith,
    Owes-ext (suc k) accounts (run_of (some j) s ∷ runs) (run_of (some j) (s - taken) ∷ runs)
        (λ m h. owed-other m j s (s - taken) runs (omega arith)) o,
  ),
  record { as_many = refl; same = λ id. ground arith },
)
credit_lem k j (suc i) taken s (a ∷ accounts) runs e l t (q, o) =
    let (later, c, o', st) =
      credit_lem (suc k) j i taken s accounts runs (omega arith) (omega arith) t o in
    (
      a ∷ later,
      rw (c, ◌>>=◌) refl,
      (ground arith, o'),
      record { as_many = ap suc st.as_many; same = λ id. ground (arith, st.same id) },
    )

credit_run_lem :
    (account : Option ℕ) (taken s : ℕ) (accounts : List Account) (runs : List Run)
    → InRange (length accounts) account
    → taken ≤ s
    → Owes 0 accounts (run_of account s ∷ runs)
    → (later : List Account) × (credit_run accounts account taken ≡ some later)
      × Owes 0 later (run_of account (s - taken) ∷ runs)
      × SameSent accounts later
unfolding credit_run
credit_run_lem none taken s accounts runs i t o = (
  accounts,
  refl,
  Owes-ext 0 accounts (run_of none s ∷ runs) (run_of none (s - taken) ∷ runs) (λ j h. refl) o,
  SameSent-refl accounts,
)
credit_run_lem (some i) taken s accounts runs l t o =
    credit_lem 0 i i taken s accounts runs (omega arith) l t o

-- What the loop leaves, having taken `left` samples.
pub record Taken (accounts : List Account) (runs : List Run) (left : ℕ) (s : PlaybackIds)
    : Type 0 where
  pub ledger : IsLedger s
  pub fewer : total s.runs + left ≡ total runs
  pub kept : SameSent accounts s.accounts

played_loop_lem :
    (accounts : List Account) (runs : List Run) (left : ℕ)
    → Owes 0 accounts runs
    → Known (length accounts) runs
    → left ≤ total runs
    → (s : PlaybackIds) × (played_loop accounts runs left ≡ some (s, 0))
      × Taken accounts runs left s
unfolding played_loop
played_loop_lem accounts [] left o k h = (
  record { accounts = accounts; runs = [] },
  ap (λ (n : ℕ). some (record { accounts = accounts; runs = [] }, n)) (omega arith),
  record {
    ledger = record { owes = o; known = k };
    fewer = omega arith;
    kept = SameSent-refl accounts;
  },
)
played_loop_lem accounts (r ∷ runs) left o k h =
    let taken = min left r.samples in
    let (later, c, o', st) =
      credit_run_lem r.account taken r.samples accounts runs k.0 (omega arith) o in
    let k' : Known (length later) runs = rw st.as_many k.1 in
    elim (Bool-cases (left == 0)) [
      | inl done ↦ (
        record { accounts = accounts; runs = r ∷ runs },
        rw done refl,
        record {
          ledger = record { owes = o; known = k };
          fewer = ground arith;
          kept = SameSent-refl accounts;
        },
      )
      | inr more ↦ elim (Bool-cases (r.samples - taken == 0)) [
        | inl gone ↦
            let (s, e, t) =
              played_loop_lem later runs (left - taken)
                (Owes-ext 0 later (run_of r.account (r.samples - taken) ∷ runs) runs
                  (λ j _. ground arith) o')
                k' (ground arith) in
            (
              s,
              rw more (rw (c, ◌>>=◌) (rw gone e)),
              record {
                ledger = t.ledger;
                fewer = ground (arith, t.fewer);
                kept = SameSent-trans st t.kept;
              },
            )
        | inr stays ↦ (
          record { accounts = later; runs = run_of r.account (r.samples - taken) ∷ runs },
          rw more (
              rw (c, ◌>>=◌)
                (rw stays (
                  ap
                    (λ (n : ℕ). some (
                      record {
                        accounts = later;
                        runs = run_of r.account (r.samples - taken) ∷ runs;
                      },
                      n,
                    ))
                    (ground arith)))),
          record {
            ledger = record { owes = o'; known = (rw st.as_many k.0, k') };
            fewer = ground arith;
            kept = st;
          },
        )
      ]
    ]

-- Taking samples that the queue holds returns, with nothing left over: the accounts stay in step
-- with the runs, as many samples fewer are queued, and as much was sent under each id.
pub played_lem :
    (s : PlaybackIds) (samples : ℕ)
    → IsLedger s
    → samples ≤ total s.runs
    → (s' : PlaybackIds) × (played s samples ≡ some (s', 0)) × Taken s.accounts s.runs samples s'
unfolding played
played_lem s samples l h = played_loop_lem s.accounts s.runs samples l.owes l.known h
