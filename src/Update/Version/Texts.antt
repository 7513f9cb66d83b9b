-- ===== src/Update/Version/Texts.antt =====
-- The texts of versions (desktop/core/src/update/version.rs), as their bytes: a dot or a plus sign
-- is one byte in UTF-8 and stands in no other character.
use fermix_linux.Base.{
  ℕ, zero, suc, ◌+◌, ◌/◌, ◌%◌, Bool, false, not, ◌&&◌, ◌||◌, List, [], ◌∷◌, ◌++◌, Option, none,
  some, leb, ◌==◌, if◌then◌else◌, all, length, is_empty, is_digit, number_of, max_u64, ◌>>=◌,
}
use fermix_linux.Update.Version.{Version, Installed}

-- `part.starts_with('0')`
abbrev pub starts_zero : List ℕ → Bool
starts_zero [] = false
starts_zero (b ∷ _) = b == 48

-- `u64::from_str` of digits
abbrev pub u64_of : List ℕ → Option ℕ
u64_of part = if leb (number_of part 0) max_u64 then some (number_of part 0) else none

unfoldable pub number : List ℕ → Option ℕ
number part =
    let digits = not (is_empty part) && all is_digit part in
    let leading_zero = leb 2 (length part) && starts_zero part in
    if not digits || leading_zero then none else u64_of part

-- A byte before the first part.
abbrev pub onto : ℕ → List (List ℕ) → List (List ℕ)
onto b [] = (b ∷ []) ∷ []
onto b (part ∷ parts) = (b ∷ part) ∷ parts

-- `str::split('.')`
unfoldable pub split_dots : List ℕ → List (List ℕ)
split_dots [] = [] ∷ []
split_dots (b ∷ bytes) = let rest = split_dots bytes in if b == 46 then [] ∷ rest else onto b rest

-- The version of three parts, and of no other number of them.
unfoldable pub of_parts : List (List ℕ) → Option Version
unfolding number
of_parts (first ∷ second ∷ third ∷ []) = do
  major ← number first
  minor ← number second
  patch ← number third
  some (record { major = major; minor = minor; patch = patch })
of_parts _ = none

-- `Version::parse`
unfoldable pub parse : List ℕ → Option Version
unfolding split_dots of_parts
parse text = of_parts (split_dots text)

-- The digits of a number: no more of them than the fuel, of which 20 is enough for 64 bits.
unfoldable pub digits_on : ℕ → ℕ → List ℕ
digits_on zero n = []
digits_on (suc fuel) n =
    let front = digits_on fuel (n / 10) in
    if leb 10 n then front ++ (48 + n % 10) ∷ [] else (48 + n) ∷ []

abbrev pub digits : ℕ → List ℕ
digits n = digits_on 20 n

-- `Display` of a version
abbrev pub print : Version → List ℕ
print v = digits v.major ++ 46 ∷ (digits v.minor ++ 46 ∷ digits v.patch)

-- `str::split_once('+')`
unfoldable pub split_plus : List ℕ → Option (List ℕ × List ℕ)
split_plus [] = none
split_plus (b ∷ bytes) =
    let later = split_plus bytes in
    if b == 43 then some ([], bytes) else (later >>= λ (front, back). some (b ∷ front, back))

-- `build.starts_with("dev")`
abbrev pub starts_dev : List ℕ → Bool
starts_dev (d ∷ e ∷ v ∷ _) = (d == 100) && (e == 101) && (v == 118)
starts_dev _ = false

-- `Installed::parse`
unfoldable pub parse_installed : List ℕ → Option Installed
unfolding parse split_plus
parse_installed text = elim (split_plus text) [
  | none ↦ parse text >>= λ v. some (Installed.release v)
  | some (base, build) ↦
      if starts_dev build then (parse base >>= λ v. some (Installed.development v)) else none
]

-- `Installed::version`
unfoldable pub version_of : Installed → Version
version_of (Installed.release v) = v
version_of (Installed.development v) = v
