-- ===== src/Base/Texts.antt =====
-- Texts: what the program does with `str`, over the native strings.
use Prim.Native.Nat.{ℕ, zero, suc, ◌+◌, ◌-◌, ◌*◌, ◌/◌, ◌%◌}
use Prim.Native.Char.{code}
use Prim.Native.String.{String, ◌++◌}
use mathlib.Core.Bool.{Bool, true, false, ◌&&◌, ◌||◌}
use mathlib.Core.List.{List, [], ◌∷◌, ◌++◌ as list_append}
use mathlib.Core.Option.{Option, none, some}
use text.Mathlib.Text.{◌==◌}
use fermix_linux.Base.Tests.{leb, ltb, ◌==◌ as nat_eq, if◌then◌else◌}

-- `format!` and `push_str`
infixr 65 ◌+++◌
abbrev pub ◌+++◌ : String → String → String
s +++ t = s ++ t

-- The code points of a text: its bytes, where it is ASCII.
abbrev pub codes : String → List ℕ
codes String.[] = []
codes (String.◌∷◌ c s) = code c ∷ codes s

-- `char::is_whitespace`: Unicode's White_Space property
pub is_whitespace : ℕ → Bool
is_whitespace c =
    (leb 9 c && leb c 13)
    || nat_eq c 32
    || nat_eq c 133
    || nat_eq c 160
    || nat_eq c 5760
    || (leb 8192 c && leb c 8202)
    || nat_eq c 8232
    || nat_eq c 8233
    || nat_eq c 8239
    || nat_eq c 8287
    || nat_eq c 12288

-- `text.trim().is_empty()`
unfoldable pub is_blank : String → Bool
unfolding is_whitespace
is_blank String.[] = true
is_blank (String.◌∷◌ c s) = is_whitespace (code c) && is_blank s

-- `str::is_empty`
abbrev pub str_is_empty : String → Bool
str_is_empty String.[] = true
str_is_empty (String.◌∷◌ c s) = false

-- `[&str]::contains`
unfoldable pub str_mem : String → List String → Bool
str_mem s [] = false
str_mem s (t ∷ ts) = (s == t) || str_mem s ts

-- `text.strip_prefix(head)`
unfoldable pub strip_prefix : String → String → Option String
strip_prefix text String.[] = some text
strip_prefix String.[] (String.◌∷◌ d head) = none
strip_prefix (String.◌∷◌ c text) (String.◌∷◌ d head) =
    if nat_eq (code c) (code d) then strip_prefix text head else none

digit : ℕ → String
digit d =
    if nat_eq d 0
    then "0"
    else if nat_eq d 1
    then "1"
    else if nat_eq d 2
    then "2"
    else if nat_eq d 3
    then "3"
    else if nat_eq d 4
    then "4"
    else if nat_eq d 5
    then "5"
    else if nat_eq d 6
    then "6"
    else if nat_eq d 7
    then "7"
    else if nat_eq d 8
    then "8"
    else "9"

-- The fuel bounds the number of digits; `n` has no more than `n + 1`.
decimal_on : ℕ → ℕ → String
decimal_on zero n = ""
decimal_on (suc fuel) n =
    let front = decimal_on fuel (n / 10) in if leb 10 n then front +++ digit (n % 10) else digit n

-- A number as `Display` prints it: 20 digits are enough for 64 bits.
pub decimal : ℕ → String
decimal n = decimal_on 20 n

-- A code point in UTF-8.
abbrev pub utf8 : ℕ → List ℕ
utf8 c =
    if ltb c 128
    then c ∷ []
    else if ltb c 2048
    then (192 + c / 64) ∷ (128 + c % 64) ∷ []
    else if ltb c 65536
    then (224 + c / 4096) ∷ (128 + c / 64 % 64) ∷ (128 + c % 64) ∷ []
    else (240 + c / 262144) ∷ (128 + c / 4096 % 64) ∷ (128 + c / 64 % 64) ∷ (128 + c % 64) ∷ []

-- `text.as_bytes()`
unfoldable pub bytes_of : String → List ℕ
bytes_of String.[] = []
bytes_of (String.◌∷◌ c s) = list_append (utf8 (code c)) (bytes_of s)

-- `u8::is_ascii_digit`
abbrev pub is_digit : ℕ → Bool
is_digit b = leb 48 b && leb b 57

-- The number that digits write.
unfoldable pub number_of : List ℕ → ℕ → ℕ
number_of [] n = n
number_of (b ∷ bytes) n = number_of bytes (n * 10 + (b - 48))

-- `str::trim_start`
unfoldable pub trim_start : String → String
unfolding is_whitespace
trim_start String.[] = ""
trim_start (String.◌∷◌ c s) =
    let rest = trim_start s in if is_whitespace (code c) then rest else String.◌∷◌ c s

-- `str::trim_end`
unfoldable pub trim_end : String → String
unfolding is_whitespace
trim_end String.[] = ""
trim_end (String.◌∷◌ c s) =
    let rest = trim_end s in
    if is_whitespace (code c) && str_is_empty rest then "" else String.◌∷◌ c rest

-- `str::trim`
abbrev pub trim : String → String
trim s = trim_end (trim_start s)

-- `str::split_once(' ')`
unfoldable pub split_space : String → Option (String × String)
split_space String.[] = none
split_space (String.◌∷◌ c s) =
    let later = split_space s in
    if nat_eq (code c) 32
    then some ("", s)
    else elim later [ none ↦ none | some (front, back) ↦ some (String.◌∷◌ c front, back) ]
