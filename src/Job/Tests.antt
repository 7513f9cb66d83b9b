-- ===== src/Job/Tests.antt =====
-- Jobs at concrete values.
use fermix_linux.Base.{◌≡◌, refl, List, [], ◌∷◌, none, some, String, str_mem, is_blank}
use fermix_linux.Job.{JobStatus, JobView, outcome, model_warning, poll_cap, adoptable_sign_in}

abbrev job_of : String → String → JobStatus → JobView String
job_of id kind status = record {
  job_id = id;
  kind = kind;
  status = status;
  phase = none;
  budget_ms = 1000;
  result = some "  ";
  failure = none;
}

abbrev jobs : List (JobView String)
jobs =
    job_of "a" "auth" JobStatus.running
    ∷ job_of "b" "auth" JobStatus.running
    ∷ job_of "c" "scan" JobStatus.running
    ∷ []

known_jobs :
    (adoptable_sign_in jobs [] ≡ none)
    × (adoptable_sign_in jobs ("a" ∷ []) ≡ some (job_of "b" "auth" JobStatus.running))
    × (outcome (job_of "a" "auth" JobStatus.failed) ≡ none)
    × (model_warning (λ s. some s) (job_of "a" "auth" JobStatus.completed) ≡ none)
    × (poll_cap 1001 250 ≡ some 15)
unfolding adoptable_sign_in outcome model_warning poll_cap str_mem is_blank
known_jobs = (refl, refl, refl, refl, refl)
