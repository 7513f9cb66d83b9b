-- ===== src/Update/Version/Trips.antt =====
-- A version's text reads as the version.
use fermix_linux.Base.{
  ℕ, zero, suc, ◌+◌, ◌-◌, ◌*◌, ◌/◌, ◌%◌, ◌^◌, ◌≤◌, ◌<◌, ◌≡◌, refl, ap, ◌∙◌, Bool, true, false, not,
  ◌&&◌, List, [], ◌∷◌, ◌++◌, none, some, arith, leb, ◌==◌, if◌then◌else◌, all, length, is_empty,
  is_digit, number_of, max_u64, ◌>>=◌, Bool-cases, inl, inr,
}
use fermix_linux.Update.Version.{Version, Installed}
use fermix_linux.Update.Version.Texts.{
  starts_zero, number, split_dots, of_parts, parse, digits_on, digits, print, split_plus,
  starts_dev, parse_installed,
}

all-snoc : (xs : List ℕ) (b : ℕ) → all is_digit (xs ++ b ∷ []) ≡ (all is_digit xs && is_digit b)
all-snoc [] b = ground arith
all-snoc (x ∷ xs) b = ground (arith, all-snoc xs b)

digits_on-digits : (fuel n : ℕ) → all is_digit (digits_on fuel n) ≡ true
unfolding digits_on
digits_on-digits zero n = refl
digits_on-digits (suc fuel) n =
    ground (arith, all-snoc (digits_on fuel (n / 10)) (48 + n % 10), digits_on-digits fuel (n / 10))

number_of-snoc :
    (xs : List ℕ) (b n : ℕ) → number_of (xs ++ b ∷ []) n ≡ number_of xs n * 10 + (b - 48)
unfolding number_of
number_of-snoc [] b n = refl
number_of-snoc (x ∷ xs) b n = number_of-snoc xs b (n * 10 + (x - 48))

number_of-digits_on : (fuel n : ℕ) → n < 10 ^ fuel → number_of (digits_on fuel n) 0 ≡ n
unfolding digits_on number_of
number_of-digits_on zero n h = omega (arith, h)
number_of-digits_on (suc fuel) n h = ground (
  arith,
  h,
  number_of-snoc (digits_on fuel (n / 10)) (48 + n % 10) 0,
  number_of-digits_on fuel (n / 10) (omega (arith, h)),
)

-- No number but zero starts with a zero.
starts_zero-snoc :
    (xs : List ℕ) (b : ℕ) → is_empty xs ≡ false → starts_zero (xs ++ b ∷ []) ≡ starts_zero xs
starts_zero-snoc [] b h = cc
starts_zero-snoc (x ∷ xs) b h = refl

is_empty-snoc : (xs : List ℕ) (b : ℕ) → is_empty (xs ++ b ∷ []) ≡ false
is_empty-snoc [] b = refl
is_empty-snoc (x ∷ xs) b = refl

is_empty-digits_on : (fuel n : ℕ) → is_empty (digits_on (suc fuel) n) ≡ false
unfolding digits_on
is_empty-digits_on fuel n = ground (arith, is_empty-snoc (digits_on fuel (n / 10)) (48 + n % 10))

starts_zero-digits_on :
    (fuel n : ℕ) → 0 < n → n < 10 ^ suc fuel → starts_zero (digits_on (suc fuel) n) ≡ false
unfolding digits_on
starts_zero-digits_on zero n h small = ground (arith, h, small)
starts_zero-digits_on (suc fuel) n h small = elim (Bool-cases (leb 10 n)) [
  | inl more ↦ ground (
    arith,
    more,
    starts_zero-snoc (digits_on (suc fuel) (n / 10)) (48 + n % 10)
        (is_empty-digits_on fuel (n / 10)),
    starts_zero-digits_on fuel (n / 10) (ground (arith, more)) (omega (arith, small)),
  )
  | inr one ↦ ground (arith, one, h)
]

one_digit : (n : ℕ) → n < 10 → length (digits n) ≡ 1
unfolding digits_on
one_digit n h = ground (arith, h)

zero_digits : (leb 2 (length (digits 0)) && starts_zero (digits 0)) ≡ false
unfolding digits_on
zero_digits = refl

no_leading_zero :
    (n : ℕ) → n ≤ max_u64 → (leb 2 (length (digits n)) && starts_zero (digits n)) ≡ false
no_leading_zero zero h = zero_digits
no_leading_zero (suc n) h =
    ground (arith, starts_zero-digits_on 19 (suc n) (omega arith) (omega (arith, h)))

number-digits : (n : ℕ) → n ≤ max_u64 → number (digits n) ≡ some n
unfolding number
number-digits n h = ground (
  arith,
  h,
  digits_on-digits 20 n,
  is_empty-digits_on 19 n,
  no_leading_zero n h,
  number_of-digits_on 20 n (omega (arith, h)),
)

-- Digits up to a dot are one part.
split_dots-dot :
    (xs ys : List ℕ) → all is_digit xs ≡ true → split_dots (xs ++ 46 ∷ ys) ≡ xs ∷ split_dots ys
unfolding split_dots
split_dots-dot [] ys h = refl
split_dots-dot (x ∷ xs) ys h = ground (arith, h, split_dots-dot xs ys)

split_dots-digits : (xs : List ℕ) → all is_digit xs ≡ true → split_dots xs ≡ xs ∷ []
unfolding split_dots
split_dots-digits [] h = refl
split_dots-digits (x ∷ xs) h = ground (arith, h, split_dots-digits xs)

split_dots-print :
    (v : Version) → split_dots (print v) ≡ digits v.major ∷ digits v.minor ∷ digits v.patch ∷ []
split_dots-print v =
    split_dots-dot (digits v.major) (digits v.minor ++ 46 ∷ digits v.patch)
      (digits_on-digits 20 v.major)
    ∙ ap (λ rest. digits v.major ∷ rest)
        (split_dots-dot (digits v.minor) (digits v.patch) (digits_on-digits 20 v.minor)
          ∙ ap (λ rest. digits v.minor ∷ rest)
              (split_dots-digits (digits v.patch) (digits_on-digits 20 v.patch)))

-- The numbers of a version are of 64 bits.
abbrev pub IsVersion : Version → Type 0
IsVersion v = (v.major ≤ max_u64) × (v.minor ≤ max_u64) × (v.patch ≤ max_u64)

parse-print : (v : Version) → IsVersion v → parse (print v) ≡ some v
unfolding parse of_parts
parse-print v h =
    rw
      (
        split_dots-print v,
        number-digits v.major h.0,
        number-digits v.minor h.1,
        number-digits v.patch h.2,
      )
      refl

-- A text of digits, dots and no plus sign, and what follows a plus sign.
abbrev no_plus : List ℕ → Bool
no_plus text = all (λ b. not (b == 43)) text

no_plus-digits : (xs : List ℕ) → all is_digit xs ≡ true → no_plus xs ≡ true
no_plus-digits [] h = refl
no_plus-digits (x ∷ xs) h = ground (arith, h, no_plus-digits xs)

no_plus-append : (xs ys : List ℕ) → no_plus (xs ++ ys) ≡ (no_plus xs && no_plus ys)
no_plus-append [] ys = refl
no_plus-append (x ∷ xs) ys = ground (arith, no_plus-append xs ys)

no_plus-print : (v : Version) → no_plus (print v) ≡ true
no_plus-print v = ground (
  arith,
  no_plus-append (digits v.major) (46 ∷ (digits v.minor ++ 46 ∷ digits v.patch)),
  no_plus-append (digits v.minor) (46 ∷ digits v.patch),
  no_plus-digits (digits v.major) (digits_on-digits 20 v.major),
  no_plus-digits (digits v.minor) (digits_on-digits 20 v.minor),
  no_plus-digits (digits v.patch) (digits_on-digits 20 v.patch),
)

split_plus-none : (xs : List ℕ) → no_plus xs ≡ true → split_plus xs ≡ none
unfolding split_plus
split_plus-none [] h = refl
split_plus-none (x ∷ xs) h = ground (arith, h, split_plus-none xs)

split_plus-some : (xs ys : List ℕ) → no_plus xs ≡ true → split_plus (xs ++ 43 ∷ ys) ≡ some (xs, ys)
unfolding split_plus
split_plus-some [] ys h = refl
split_plus-some (x ∷ xs) ys h = ground (arith, h, split_plus-some xs ys)

parse_installed-release :
    (text : List ℕ)
    → split_plus text ≡ none
    → parse_installed text ≡ (parse text >>= λ v. some (Installed.release v))
unfolding parse_installed
parse_installed-release text e = rw (parse_installed, e) refl

parse_installed-build :
    (text base build : List ℕ)
    → split_plus text ≡ some (base, build)
    → parse_installed text
      ≡ (if starts_dev build then (parse base >>= λ v. some (Installed.development v)) else none)
unfolding parse_installed
parse_installed-build text base build e = rw (parse_installed, e) refl

-- The text of a version reads as that version where its numbers are of 64 bits, and as the
-- package of that release; with a plus sign and a build after it, as a development build of it
-- where the build starts with "dev", and as nothing where it does not.
pub parse_installed-print :
    (v : Version) (build : List ℕ)
    → IsVersion v
    → (parse (print v) ≡ some v)
      × (parse_installed (print v) ≡ some (Installed.release v))
      × (parse_installed (print v ++ 43 ∷ build)
          ≡ (if starts_dev build then some (Installed.development v) else none))
parse_installed-print v build h =
    let known = parse-print v h in
    (
      known,
      parse_installed-release (print v) (split_plus-none (print v) (no_plus-print v))
          ∙ ap (λ o. o >>= λ v. some (Installed.release v)) known,
      parse_installed-build (print v ++ 43 ∷ build) (print v) build
            (split_plus-some (print v) build (no_plus-print v))
          ∙ ap (λ o. if starts_dev build then (o >>= λ v. some (Installed.development v)) else none)
              known,
    )
