-- ===== src/Chat/Clock.antt =====
-- A timestamp as Unix seconds (desktop/core/src/phone.rs), over the text's bytes: a place in it
-- that is no boundary of a character holds no digit, and so reads as nothing either way.
use fermix_linux.Base.{
  ◌≡◌, refl, ℕ, ◌+◌, ◌-◌, ◌*◌, ◌/◌, ◌%◌, Bool, false, ◌&&◌, ◌||◌, List, [], ◌∷◌, Option, none, some,
  String, ltb, leb, ◌==◌, ◌>>=◌, if◌then◌else◌, length, take, drop, get_elem?, all, bytes_of,
  is_digit, number_of,
}
use fermix_linux.Base.Int.{ℤ, pos, neg, add, mul, minus, div_euclid}

-- `bytes[index] == byte`
abbrev is_at : List ℕ → ℕ → ℕ → Bool
is_at bytes index byte = elim (get_elem? bytes index) [ some b ↦ b == byte | none ↦ false ]

-- `field(from..to)`
field : List ℕ → ℕ → ℕ → Option ℕ
field bytes from to =
    let part = take (to - from) (drop from bytes) in
    if all is_digit part then some (number_of part 0) else none

-- `str::split_once(':')`
split_colon : List ℕ → Option (List ℕ × List ℕ)
split_colon [] = none
split_colon (b ∷ bytes) =
    let later = split_colon bytes in
    if b == 58 then some ([], bytes) else (later >>= λ (front, back). some (b ∷ front, back))

-- `trim_start_matches(is_ascii_digit)`
skip_digits : List ℕ → List ℕ
skip_digits [] = []
skip_digits (b ∷ bytes) = let rest = skip_digits bytes in if is_digit b then rest else b ∷ bytes

abbrev are_two_digits : List ℕ → Bool
are_two_digits bytes = (length bytes == 2) && all is_digit bytes

-- The offset past its sign.
clock_offset : List ℕ → Option ℕ
unfolding split_colon
clock_offset rest = split_colon rest >>= λ (hours, minutes).
    if are_two_digits hours && are_two_digits minutes
    then some (number_of hours 0 * 3600 + number_of minutes 0 * 60)
    else none

-- What follows the fractions.
abbrev after_fraction : List ℕ → List ℕ
after_fraction [] = []
after_fraction (b ∷ bytes) = if b == 46 then skip_digits bytes else b ∷ bytes

zone_offset : List ℕ → Option ℤ
unfolding clock_offset
zone_offset [] = none
zone_offset (b ∷ rest) =
    if (b == 90 || b == 122) && (length rest == 0)
    then some (pos 0)
    else if b == 43
    then (clock_offset rest >>= λ n. some (pos n))
    else if b == 45
    then (clock_offset rest >>= λ n. some (neg (pos n)))
    else none

offset_seconds : List ℕ → Option ℤ
unfolding zone_offset skip_digits
offset_seconds rest = zone_offset (after_fraction rest)

-- The year of an era is not negative.
day_of_era : ℤ → ℕ → ℤ
day_of_era (ℤ.pos y) day_of_year = pos (y * 365 + y / 4 - y / 100 + day_of_year)
day_of_era (ℤ.negsuc _) day_of_year = pos 0

days_from_civil : ℕ → ℕ → ℕ → ℤ
unfolding day_of_era
days_from_civil year month day =
    let shifted_year = if leb month 2 then minus year 1 else pos year in
    let era = div_euclid shifted_year 400 in
    let year_of_era = add shifted_year (neg (mul era 400)) in
    let shifted_month = (month + 9) % 12 in
    let day_of_year = (153 * shifted_month + 2) / 5 + day - 1 in
    add (add (mul era 146097) (day_of_era year_of_era day_of_year)) (neg (pos 719468))

is_shaped : List ℕ → Bool
is_shaped bytes =
    leb 20 (length bytes)
    && is_at bytes 4 45
    && is_at bytes 7 45
    && is_at bytes 10 84
    && is_at bytes 13 58
    && is_at bytes 16 58

-- The local time on a day.
local_seconds : ℕ → ℕ → ℕ → ℕ → ℕ → ℕ → Option ℤ
unfolding days_from_civil
local_seconds year month day hour minute second =
    if leb 1 month
      && leb month 12
      && leb 1 day
      && leb day 31
      && ltb hour 24
      && ltb minute 60
      && ltb second 61
    then some
        (add (mul_day (days_from_civil year month day)) (pos (hour * 3600 + minute * 60 + second)))
    else none
  where
    mul_day : ℤ → ℤ
    mul_day days = mul days 86400

-- The fields of a text of the right shape.
shaped_seconds : List ℕ → Option ℤ
unfolding field local_seconds offset_seconds
shaped_seconds bytes = do
  year ← field bytes 0 4
  month ← field bytes 5 7
  day ← field bytes 8 10
  hour ← field bytes 11 13
  minute ← field bytes 14 16
  second ← field bytes 17 19
  local ← local_seconds year month day hour minute second
  offset ← offset_seconds (drop 19 bytes)
  some (add local (neg offset))

unfoldable pub unix_seconds : String → Option ℤ
unfolding is_shaped shaped_seconds
unix_seconds text = if is_shaped (bytes_of text) then shaped_seconds (bytes_of text) else none

-- With fractions and an offset, and a time before the epoch.
known_times :
    (unix_seconds "2026-09-26T12:04:40Z" ≡ some (pos 1790424280))
    × (unix_seconds "2026-09-26T14:04:40.125+02:00" ≡ some (pos 1790424280))
    × (unix_seconds "1969-12-31T23:59:59Z" ≡ some (ℤ.negsuc 0))
    × (unix_seconds "2026-09-26 12:04:40Z" ≡ none)
unfolding unix_seconds bytes_of number_of split_colon skip_digits
known_times = (refl, refl, refl, refl)
