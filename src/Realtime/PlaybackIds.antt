-- ===== src/Realtime/PlaybackIds.antt =====
-- What has played of each playback id (desktop/core/src/realtime/playback_ids.rs). A method that
-- changes `self` returns the new value; `none` stands for a panic, an index out of bounds or a
-- subtraction below zero. Counts of samples are u64s that 24 million years of audio would fill.
pub mod Ledger
pub mod Played
pub mod Queued
pub mod Report
use fermix_linux.Base.{
  ℕ, zero, suc, ◌+◌, ◌-◌, ◌/◌, min, Bool, true, false, ◌&&◌, List, [], ◌∷◌, ◌++◌, Option, none,
  some, String, str_eq, ltb, ◌==◌, length, if◌then◌else◌, ◌>>=◌, map,
}
use fermix_linux.Realtime.Protocol.{Progress}
use fermix_linux.Realtime.Level.{samples_per_ms}

pub record Account : Type 0 where
  pub id : String
  pub queued : ℕ
  pub played : ℕ
  pub dropped : ℕ
  pub reported : Option (ℕ × Bool)

pub progress : Account → ℕ × Bool
progress a = (a.played / samples_per_ms, a.queued == 0 && a.dropped == 0)

-- A stretch of the queue under one account, by its index, or under none.
pub record Run : Type 0 where
  pub account : Option ℕ
  pub samples : ℕ

pub record PlaybackIds : Type 0 where
  pub accounts : List Account
  pub runs : List Run

-- `PlaybackIds::default()`
abbrev pub empty : PlaybackIds
empty = record { accounts = []; runs = [] }

-- `rposition` of the account of an id
pub last_of : String → List Account → Option ℕ
last_of id [] = none
last_of id (a ∷ accounts) = elim (last_of id accounts) [
  | some i ↦ some (suc i)
  | none ↦ if str_eq a.id id then some 0 else none
]

-- The method `account`: the accounts, and the index of the id's.
pub open_account : String → List Account → List Account × ℕ
open_account id accounts = elim (last_of id accounts) [
  | some i ↦ (accounts, i)
  | none ↦ (
    accounts ++ record { id = id; queued = 0; played = 0; dropped = 0; reported = none } ∷ [],
    length accounts,
  )
]

-- `accounts[index].queued += samples`
pub enqueue : List Account → ℕ → ℕ → Option (List Account)
enqueue [] i samples = none
enqueue (a ∷ accounts) zero samples = some (record a { queued = a.queued + samples } ∷ accounts)
enqueue (a ∷ accounts) (suc i) samples = do later ← enqueue accounts i samples; some (a ∷ later)

-- the accounts after `accounts[index].queued -= taken` and `.played += taken`
pub credit : List Account → ℕ → ℕ → Option (List Account)
credit [] i taken = none
credit (a ∷ accounts) zero taken =
    if ltb a.queued taken
    then none
    else some (record a { queued = a.queued - taken; played = a.played + taken } ∷ accounts)
credit (a ∷ accounts) (suc i) taken = do later ← credit accounts i taken; some (a ∷ later)

-- the derived `==` of the accounts of two runs
abbrev same_account : Option ℕ → Option ℕ → Bool
same_account none none = true
same_account (some i) (some j) = i == j
same_account _ _ = false

-- `back_mut`, and `push_back` where the last run is another account's
pub extend : List Run → Option ℕ → ℕ → List Run
extend [] account samples = record { account = account; samples = samples } ∷ []
extend (last ∷ []) account samples =
    if same_account last.account account
    then record last { samples = last.samples + samples } ∷ []
    else last ∷ record { account = account; samples = samples } ∷ []
extend (run ∷ next ∷ runs) account samples = run ∷ extend (next ∷ runs) account samples

pub queued : PlaybackIds → Option String → ℕ → Option PlaybackIds
unfolding open_account
queued s none samples =
    if samples == 0 then some s else some (record s { runs = extend s.runs none samples })
queued s (some id) samples =
    let (opened, i) = open_account id s.accounts in
    if samples == 0 then some s else do
      accounts ← enqueue opened i samples
      some (record { accounts = accounts; runs = extend s.runs (some i) samples })

-- the end of one round of the loop of `played`
credit_run : List Account → Option ℕ → ℕ → Option (List Account)
credit_run accounts none taken = some accounts
credit_run accounts (some i) taken = credit accounts i taken

-- The loop of `played`: what is left to take, and the runs, front first. A round that leaves its
-- run at the front has taken all that was left, so it is the last.
played_loop : List Account → List Run → ℕ → Option (PlaybackIds × ℕ)
unfolding credit_run
played_loop accounts [] left = some (record { accounts = accounts; runs = [] }, left)
played_loop accounts (front ∷ runs) left =
    let taken = min left front.samples in
    let rest = front.samples - taken in
    if left == 0
    then some (record { accounts = accounts; runs = front ∷ runs }, 0)
    else (credit_run accounts front.account taken >>= λ later. elim (rest == 0) [
      | true ↦ played_loop later runs (left - taken)
      | false ↦
          some (
            record { accounts = later; runs = record front { samples = rest } ∷ runs },
            left - taken,
          )
    ])

-- Beside the ids, the samples that were left over: a debug build asserts that there are none.
pub played : PlaybackIds → ℕ → Option (PlaybackIds × ℕ)
unfolding played_loop
played s samples = played_loop s.accounts s.runs samples

flush_account : Account → Account
flush_account a = record a { dropped = a.dropped + a.queued; queued = 0 }

pub flushed : PlaybackIds → PlaybackIds
flushed s = record { accounts = map flush_account s.accounts; runs = [] }

-- `account.reported == Some(now)`
abbrev is_reported : Option (ℕ × Bool) → ℕ × Bool → Bool
is_reported none now = false
is_reported (some (ms, true)) (ms', drained) = ms == ms' && drained
is_reported (some (ms, false)) (ms', true) = false
is_reported (some (ms, false)) (ms', false) = ms == ms'

-- the loop of `report`: the accounts, and what changed
pub report_all : List Account → List Account × List Progress
unfolding progress
report_all [] = ([], [])
report_all (a ∷ accounts) =
    let (later, changed) = report_all accounts in
    let now = progress a in
    let line : Progress = record { playback_id = a.id; played_ms = now.0; drained = now.1 } in
    if is_reported a.reported now
    then (a ∷ later, changed)
    else (record a { reported = some now } ∷ later, line ∷ changed)

pub report : PlaybackIds → PlaybackIds × List Progress
unfolding report_all
report s =
    let (accounts, changed) = report_all s.accounts in (record s { accounts = accounts }, changed)
