-- ===== src/Reach/Followed.antt =====
-- What a follow has counted, and how long it waits.
use fermix_linux.Base.{
  ℕ, zero, suc, ◌*◌, ◌^◌, ◌≤◌, ◌≡◌, refl, ap, ◌∙◌, min, Bool, true, false, List, [], ◌∷◌, length,
  arith, leb, Bool-cases, inl, inr, if◌then◌else◌,
}
use native.Mathlib.Nat.{pow-succ'}
use fermix_linux.Reach.{
  Follow, fresh, polls, poll_ms, backoff_ms, saturating_mul, exhausted, wait_ms, answered, refused,
}

-- The follow after a daemon's answers, the newest first: `true` for an answer, `false` for a
-- refusal. It reads only while it is not exhausted.
unfoldable pub follow : List Bool → Follow
follow [] = fresh
follow (answer ∷ earlier) =
    let before = follow earlier in
    if exhausted before then before else if answer then (answered before).0 else (refused before).0

-- The refusals since the last answer.
pub in_a_row : List Bool → ℕ
in_a_row [] = 0
in_a_row (true ∷ earlier) = 0
in_a_row (false ∷ earlier) = suc (in_a_row earlier)

follow_lem :
    (answers : List Bool)
    → length answers ≤ polls
    → ((follow answers).reads ≡ length answers) × ((follow answers).refusals ≡ in_a_row answers)
unfolding follow in_a_row exhausted answered refused
follow_lem [] h = (refl, refl)
follow_lem (true ∷ earlier) h = ground (arith, follow_lem earlier)
follow_lem (false ∷ earlier) h = ground (arith, follow_lem earlier)

-- However many answers the daemon has, a follow makes no more than polls reads.
pub reads_le : (answers : List Bool) → (follow answers).reads ≤ polls
unfolding follow exhausted answered refused
reads_le [] = ground arith
reads_le (true ∷ earlier) = ground (arith, reads_le earlier)
reads_le (false ∷ earlier) = ground (arith, reads_le earlier)

pow_pos : (n : ℕ) → 1 ≤ 2 ^ n
pow_pos zero = ground arith
pow_pos (suc n) = ground (arith, pow_pos n, pow-succ' 2 n)

pow_ge : (n : ℕ) → 5 ≤ n → 32 ≤ 2 ^ n
pow_ge zero h = ground arith
pow_ge (suc zero) h = ground arith
pow_ge (suc (suc zero)) h = ground arith
pow_ge (suc (suc (suc zero))) h = ground arith
pow_ge (suc (suc (suc (suc zero)))) h = ground arith
pow_ge (suc (suc (suc (suc (suc n))))) h = ground (
  arith,
  pow_pos n,
  pow-succ' 2 n,
  pow-succ' 2 (suc n),
  pow-succ' 2 (suc (suc n)),
  pow-succ' 2 (suc (suc (suc n))),
  pow-succ' 2 (suc (suc (suc (suc n)))),
)

wait_of :
    (n : ℕ)
    → min (saturating_mul poll_ms (2 ^ min n 16)) backoff_ms ≡ min (poll_ms * 2 ^ n) backoff_ms
wait_of n = elim (Bool-cases (leb n 16)) [
  | inl few ↦ let e : min n 16 ≡ n = ground arith in rw (e) (ground arith)
  | inr many ↦
      let e : min n 16 ≡ 16 = ground arith in rw (e) (ground (arith, pow_ge n (ground arith)))
]

-- After as many of the daemon's answers as a follow reads, the wait is the cadence doubled for
-- each refusal since the last answer, and never more than the longest wait.
pub wait_ms_lem :
    (answers : List Bool)
    → length answers ≤ polls
    → wait_ms (follow answers) ≡ min (poll_ms * 2 ^ in_a_row answers) backoff_ms
unfolding wait_ms
wait_ms_lem answers h =
    ap (λ n. min (saturating_mul poll_ms (2 ^ min n 16)) backoff_ms) (follow_lem answers h).1
    ∙ wait_of (in_a_row answers)
