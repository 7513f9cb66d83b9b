-- ===== src/Realtime/PlaybackIds/Report.antt =====
-- What is reported of the playback ids.
use fermix_linux.Base.{
  ℕ, suc, ◌≡◌, refl, Bool, true, false, List, [], ◌∷◌, some, String, arith, length, Bool-cases, inl,
  inr,
}
use fermix_linux.Realtime.PlaybackIds.{
  Account, Run, PlaybackIds, progress, is_reported, report_all, report,
}
use fermix_linux.Realtime.PlaybackIds.Ledger.{Owes, IsLedger, sent}

is_reported_self : (now : ℕ × Bool) → is_reported (some now) now ≡ true
is_reported_self (ms, true) = ground arith
is_reported_self (ms, false) = ground arith

report_all-quiet :
    (accounts : List Account) → report_all (report_all accounts).0 ≡ ((report_all accounts).0, [])
unfolding report_all
report_all-quiet [] = refl
report_all-quiet (a ∷ accounts) = elim (Bool-cases (is_reported a.reported (progress a))) [
  | inl old ↦ ground (arith, report_all-quiet accounts)
  | inr new ↦ ground (arith, report_all-quiet accounts, is_reported_self (progress a))
]

-- A report made again at once says nothing, and changes nothing.
pub report-quiet : (s : PlaybackIds) → report (report s).0 ≡ ((report s).0, [])
unfolding report
report-quiet s = ground (arith, report_all-quiet s.accounts)

Owes-report :
    (k : ℕ) (accounts : List Account) (runs : List Run)
    → Owes k accounts runs
    → Owes k (report_all accounts).0 runs
unfolding report_all
Owes-report k [] runs o = tt
Owes-report k (a ∷ accounts) runs (q, o) =
    let later = Owes-report (suc k) accounts runs o in
    elim (Bool-cases (is_reported a.reported (progress a))) [
      | inl old ↦ rw old (q, later)
      | inr new ↦ rw new (q, later)
    ]

length-report : (accounts : List Account) → length (report_all accounts).0 ≡ length accounts
unfolding report_all
length-report [] = refl
length-report (a ∷ accounts) = ground (arith, length-report accounts)

sent-report :
    (id : String) (accounts : List Account) → sent id (report_all accounts).0 ≡ sent id accounts
unfolding report_all
sent-report id [] = refl
sent-report id (a ∷ accounts) = ground (arith, sent-report id accounts)

pub report-IsLedger : (s : PlaybackIds) → IsLedger s → IsLedger (report s).0
unfolding report
report-IsLedger s l = record {
  owes = Owes-report 0 s.accounts s.runs l.owes;
  known = rw length-report l.known;
}

pub runs-report : (s : PlaybackIds) → (report s).0.runs ≡ s.runs
unfolding report
runs-report s = refl
