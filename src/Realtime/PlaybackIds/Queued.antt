-- ===== src/Realtime/PlaybackIds/Queued.antt =====
-- What arrives at the back of the queue is charged to the account of its id, and what a stop
-- flushes is charged as dropped.
use fermix_linux.Base.{
  ℕ, zero, suc, ◌+◌, ◌≤◌, ◌<◌, ◌≡◌, refl, sym, ap, ◌∙◌, Bool, false, List, [], ◌∷◌, ◌++◌, Option,
  none, some, String, str_eq, str_eq_iff, arith, length, length-append, if◌then◌else◌, ◌==◌, ◌>>=◌,
  Bool-cases, inl, inr, Option-cases, map,
}
use fermix_linux.Realtime.PlaybackIds.{
  Account, Run, PlaybackIds, last_of, open_account, enqueue, extend, queued, flush_account, flushed,
}
use fermix_linux.Realtime.PlaybackIds.Ledger.{
  owed, total, Owes, Known, IsLedger, sent, Owes-ext, Known-weaken, owed_of_Known, owed-extend,
  total-extend, Known-extend,
}

abbrev id_at : List Account → ℕ → Option String
id_at [] i = none
id_at (a ∷ accounts) zero = some a.id
id_at (a ∷ accounts) (suc i) = id_at accounts i

-- whether what arrived under an optional id counts for an id
abbrev pub is_under : Option String → String → Bool
is_under none other = false
is_under (some id) other = str_eq id other

last_of_lem :
    (id : String) (accounts : List Account) {i : ℕ}
    → last_of id accounts ≡ some i
    → (i < length accounts) × (id_at accounts i ≡ some id)
unfolding last_of
last_of_lem id [] h = cc
last_of_lem id (a ∷ accounts) {i} h = elim (Option-cases (last_of id accounts)) [
  | inr (m, e) ↦ let (l, q) = last_of_lem id accounts e in ground (arith, e)
  | inl e ↦ ground (arith, e, str_eq_iff a.id id)
]

Owes-append :
    (k : ℕ) (accounts : List Account) (a : Account) (runs : List Run)
    → a.queued ≡ 0
    → ((j : ℕ) → k + length accounts ≤ j → owed j runs ≡ 0)
    → Owes k accounts runs
    → Owes k (accounts ++ a ∷ []) runs
Owes-append k [] a runs z h o = (z ∙ sym (h k (omega arith)), tt)
Owes-append k (b ∷ accounts) a runs z h (q, o) =
    (q, Owes-append (suc k) accounts a runs z (λ j l. h j (omega arith)) o)

sent-append :
    (id : String) (accounts : List Account) (a : Account)
    → a.queued + a.played + a.dropped ≡ 0
    → sent id (accounts ++ a ∷ []) ≡ sent id accounts
sent-append id [] a z = ground arith
sent-append id (b ∷ accounts) a z = ground (arith, sent-append id accounts a z)

id_at-append :
    (accounts : List Account) (a : Account)
    → id_at (accounts ++ a ∷ []) (length accounts) ≡ some a.id
id_at-append [] a = refl
id_at-append (b ∷ accounts) a = id_at-append accounts a

record Opened (id : String) (accounts : List Account) (runs : List Run) (o : List Account × ℕ)
    : Type 0 where
  named : id_at o.0 o.1 ≡ some id
  inside : o.1 < length o.0
  same : (other : String) → sent other o.0 ≡ sent other accounts
  owes : Owes 0 o.0 runs
  known : Known (length o.0) runs

open_account_lem :
    (id : String) (accounts : List Account) (runs : List Run)
    → Owes 0 accounts runs
    → Known (length accounts) runs
    → Opened id accounts runs (open_account id accounts)
unfolding open_account
open_account_lem id accounts runs o k = elim (Option-cases (last_of id accounts)) [
  | inr (i, e) ↦
      let (l, q) = last_of_lem id accounts e in
      rw (e, open_account)
        (record { named = q; inside = l; same = λ other. refl; owes = o; known = k })
  | inl e ↦
      let fresh : Account = record {
        id = id;
        queued = 0;
        played = 0;
        dropped = 0;
        reported = none;
      } in
      let size = length-append accounts (fresh ∷ []) in
      rw (e, open_account)
        (record {
          named = id_at-append accounts fresh;
          inside = omega (arith, size);
          same = λ other. sent-append other accounts fresh refl;
          owes =
              Owes-append 0 accounts fresh runs refl
                (λ j l. owed_of_Known (length accounts) j runs (omega arith) k) o;
          known =
              Known-weaken (length accounts) (length (accounts ++ fresh ∷ [])) runs
                (omega (arith, size)) k;
        })
]

enqueue_lem :
    (k j i n : ℕ) (id : String) (accounts : List Account) (runs runs' : List Run)
    → j ≡ k + i
    → id_at accounts i ≡ some id
    → ((m : ℕ) → owed m runs' ≡ owed m runs + (if m == j then n else 0))
    → Owes k accounts runs
    → (later : List Account) × (enqueue accounts i n ≡ some later)
      × Owes k later runs'
      × (length later ≡ length accounts)
      × ((other : String)
          → sent other later ≡ sent other accounts + (if str_eq id other then n else 0))
unfolding enqueue
enqueue_lem k j i n id [] runs runs' e q g o = absurd (cc)
enqueue_lem k j zero n id (a ∷ accounts) runs runs' e q g (b, o) = (
  record a { queued = a.queued + n } ∷ accounts,
  refl,
  (ground (arith, g k), Owes-ext (suc k) accounts runs runs' (λ m l. ground (arith, g m)) o),
  refl,
  λ other. ground arith,
)
enqueue_lem k j (suc i) n id (a ∷ accounts) runs runs' e q g (b, o) =
    let (later, c, o', size, st) =
      enqueue_lem (suc k) j i n id accounts runs runs' (omega arith) q g o in
    (
      a ∷ later,
      rw (c, ◌>>=◌) refl,
      (ground (arith, g k), o'),
      ap suc size,
      λ other. ground (arith, st other),
    )

-- Samples that arrive return: the accounts stay in step with the runs, the queue grows by them,
-- and they are charged to their id and to no other.
pub queued_lem :
    (s : PlaybackIds) (id : Option String) (n : ℕ)
    → IsLedger s
    → (s' : PlaybackIds) × (queued s id n ≡ some s')
      × IsLedger s'
      × (total s'.runs ≡ total s.runs + n)
      × ((other : String)
          → sent other s'.accounts ≡ sent other s.accounts + (if is_under id other then n else 0))
unfolding queued
queued_lem s none n l = elim (Bool-cases (n == 0)) [
  | inl z ↦ (s, rw z refl, l, ground arith, λ other. omega arith)
  | inr p ↦ (
    record s { runs = extend s.runs none n },
    rw p refl,
    record {
      owes =
          Owes-ext 0 s.accounts s.runs (extend s.runs none n)
            (λ j _. omega (arith, owed-extend j s.runs none n)) l.owes;
      known = Known-extend (length s.accounts) s.runs none n tt l.known;
    },
    total-extend s.runs none n,
    λ other. omega arith,
  )
]
queued_lem s (some id) n l = elim (Bool-cases (n == 0)) [
  | inl z ↦ (s, rw z refl, l, ground arith, λ other. ground arith)
  | inr p ↦
      let (opened, i) = open_account id s.accounts in
      let o : Opened id s.accounts s.runs (opened, i) =
        open_account_lem id s.accounts s.runs l.owes l.known in
      let (later, c, owes, size, st) =
        enqueue_lem 0 i i n id opened s.runs (extend s.runs (some i) n) (omega arith) o.named
          (λ m. owed-extend m s.runs (some i) n) o.owes in
      (
        record { accounts = later; runs = extend s.runs (some i) n },
        rw p (rw (c, ◌>>=◌) refl),
        record {
          owes = owes;
          known = rw size (Known-extend (length opened) s.runs (some i) n o.inside o.known);
        },
        total-extend s.runs (some i) n,
        λ other. ground (arith, st other, o.same other),
      )
]

flush_lem : (k : ℕ) (accounts : List Account) → Owes k (map flush_account accounts) []
unfolding flush_account
flush_lem k [] = tt
flush_lem k (a ∷ accounts) = (refl, flush_lem (suc k) accounts)

sent-flush :
    (id : String) (accounts : List Account)
    → sent id (map flush_account accounts) ≡ sent id accounts
unfolding flush_account
sent-flush id [] = refl
sent-flush id (a ∷ accounts) = ground (arith, sent-flush id accounts)

-- A stop leaves nothing queued, and as much sent under each id.
pub flushed_lem :
    (s : PlaybackIds)
    → IsLedger (flushed s)
      × (total (flushed s).runs ≡ 0)
      × ((id : String) → sent id (flushed s).accounts ≡ sent id s.accounts)
unfolding flushed
flushed_lem s =
    (record { owes = flush_lem 0 s.accounts; known = tt }, refl, λ id. sent-flush id s.accounts)
