-- ===== src/Job.antt =====
-- A job's state, and how long it may be polled (desktop/core/src/job.rs, and the job of
-- desktop/core/src/model.rs). A result is a JSON object, a type that is a parameter.
pub mod Adopted
mod Tests
use fermix_linux.Base.{
  ℕ, ◌+◌, ◌/◌, ◌%◌, Bool, true, false, not, ◌&&◌, List, [], ◌∷◌, Option, none, some, String, str_eq,
  str_mem, is_blank, ltb, leb, ◌==◌, max_u64, if◌then◌else◌, ◌>>=◌,
}

abbrev pub margin_polls : ℕ
margin_polls = 10

pub data JobStatus : Type 0 where
  running completed failed cancelled timed_out : JobStatus

pub record JobFailure : Type 0 where
  pub code : String
  pub sentence : String

pub record JobView {ℓ} (J : Type ℓ) : Type ℓ where
  pub job_id : String
  pub kind : String
  pub status : JobStatus
  pub phase : Option String
  pub budget_ms : ℕ
  pub result : Option J
  pub failure : Option JobFailure

pub data Outcome : Type 0 where
  running : Option String → Outcome
  completed : Outcome
  failed : String → Outcome
  cancelled : Outcome

-- The failure that a failed job carries: `none` where it carries none, which is a failed `expect`.
abbrev pub failed_with : Option JobFailure → Option Outcome
failed_with none = none
failed_with (some failure) = some (Outcome.failed failure.sentence)

abbrev pub is_running : JobStatus → Bool
is_running JobStatus.running = true
is_running _ = false

-- `checked_add`, as a build that checks for overflow adds
abbrev pub checked_add : ℕ → ℕ → Option ℕ
checked_add a b = if leb (a + b) max_u64 then some (a + b) else none

-- `u64::div_ceil` by a number that is not 0
abbrev pub div_ceil : ℕ → ℕ → ℕ
div_ceil a b = if ltb 0 (a % b) then a / b + 1 else a / b

-- A failed assertion or an overflow is `none`.
unfoldable pub poll_cap : ℕ → ℕ → Option ℕ
poll_cap budget_ms interval_ms =
    if interval_ms == 0 then none else checked_add (div_ceil budget_ms interval_ms) margin_polls

-- `Iterator::next` of a filter: the first that passes, and what is left.
unfoldable pub next {ℓ} : {A : Type ℓ} → (A → Bool) → List A → Option (A × List A)
next test [] = none
next test (x ∷ xs) = let rest = next test xs in if test x then some (x, xs) else rest

module _ {ℓ} {J : Type ℓ} where
  unfoldable pub outcome : JobView J → Option Outcome
  outcome job = elim job.status [
    | JobStatus.running ↦ some (Outcome.running job.phase)
    | JobStatus.completed ↦ some Outcome.completed
    | JobStatus.cancelled ↦ some Outcome.cancelled
    | JobStatus.failed ↦ failed_with job.failure
    | JobStatus.timed_out ↦ failed_with job.failure
  ]

  -- `text_of` is what a result has under "model_warning", where that is a text.
  unfoldable pub model_warning : (J → Option String) → JobView J → Option String
  model_warning text_of job =
      job.result >>= text_of >>= λ warning. if is_blank warning then none else some warning

  -- A sign-in that runs and that the app does not follow.
  abbrev pub is_unknown : List String → JobView J → Bool
  is_unknown followed job =
      str_eq job.kind "auth" && is_running job.status && not (str_mem job.job_id followed)

  -- The first sign-in found, where there is no second.
  abbrev pub unless_other : JobView J → Option (JobView J × List (JobView J)) → Option (JobView J)
  unless_other only none = some only
  unless_other only (some _) = none

  unfoldable pub adopted : List String → Option (JobView J × List (JobView J)) → Option (JobView J)
  unfolding next
  adopted followed none = none
  adopted followed (some (only, rest)) = unless_other only (next (is_unknown followed) rest)

  unfoldable pub adoptable_sign_in : List (JobView J) → List String → Option (JobView J)
  unfolding next adopted
  adoptable_sign_in jobs followed = adopted followed (next (is_unknown followed) jobs)
