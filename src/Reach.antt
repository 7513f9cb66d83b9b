-- ===== src/Reach.antt =====
-- How the reach line is followed (desktop/core/src/reach.rs). A method returns the new follow,
-- beside its result; waits are in milliseconds.
pub mod Followed
pub mod Line
mod Tests
use fermix_linux.Base.{
  ℕ, ◌+◌, ◌*◌, ◌^◌, min, Bool, Option, none, some, leb, ltb, ◌==◌, if◌then◌else◌,
}

abbrev pub polls : ℕ
polls = 300

abbrev pub poll_ms : ℕ
poll_ms = 1000

abbrev pub backoff_ms : ℕ
backoff_ms = 30000

pub record Follow : Type 0 where
  pub reads : ℕ
  pub refusals : ℕ

-- `Follow::default()`
abbrev pub fresh : Follow
fresh = record { reads = 0; refusals = 0 }

unfoldable pub exhausted : Follow → Bool
exhausted f = leb polls f.reads

-- `u64::saturating_mul`
abbrev pub saturating_mul : ℕ → ℕ → ℕ
saturating_mul a b = min (a * b) 18446744073709551615

unfoldable pub wait_ms : Follow → ℕ
wait_ms f = min (saturating_mul poll_ms (2 ^ min f.refusals 16)) backoff_ms

unfoldable pub answered : Follow → Follow × Option ℕ
answered f = (
  record f { reads = f.reads + 1; refusals = 0 },
  if ltb 0 f.refusals then some f.refusals else none,
)

unfoldable pub refused : Follow → Follow × Bool
refused f = (record f { reads = f.reads + 1; refusals = f.refusals + 1 }, f.refusals + 1 == 1)
