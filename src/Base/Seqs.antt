-- ===== src/Base/Seqs.antt =====
-- Sets of sequence numbers (`BTreeSet<u64>`): ascending lists, each number once.
use Prim.Native.Nat.{ℕ, ◌+◌, ◌-◌, ◌^◌, min}
use mathlib.Core.Bool.{Bool, false, ◌&&◌, ◌||◌}
use mathlib.Core.List.{List, [], ◌∷◌}
use mathlib.Core.Option.{Option, none, some}
use fermix_linux.Base.Tests.{leb, ltb, ◌==◌, if◌then◌else◌}

-- `u64::MAX`
abbrev pub max_u64 : ℕ
max_u64 = 2 ^ 64 - 1

-- `u64::saturating_add`
abbrev pub saturating_add : ℕ → ℕ → ℕ
saturating_add a b = min (a + b) max_u64

unfoldable pub has_seq : ℕ → List ℕ → Bool
has_seq n [] = false
has_seq n (x ∷ xs) = (n == x) || has_seq n xs

unfoldable pub insert_seq : ℕ → List ℕ → List ℕ
insert_seq n [] = n ∷ []
insert_seq n (x ∷ xs) =
    let rest = insert_seq n xs in
    if ltb n x then n ∷ x ∷ xs else if n == x then x ∷ xs else x ∷ rest

-- `BTreeSet::extend`
unfoldable pub extend_seqs : List ℕ → List ℕ → List ℕ
extend_seqs set [] = set
extend_seqs set (x ∷ xs) = extend_seqs (insert_seq x set) xs

-- `BTreeSet::retain`, and the sets of those kept
unfoldable pub retain : (ℕ → Bool) → List ℕ → List ℕ
retain test [] = []
retain test (x ∷ xs) = let rest = retain test xs in if test x then x ∷ rest else rest

-- `BTreeSet::first`
abbrev pub first_seq : List ℕ → Option ℕ
first_seq [] = none
first_seq (x ∷ xs) = some x

-- `BTreeSet::last`
unfoldable pub last_seq : List ℕ → Option ℕ
last_seq [] = none
last_seq (x ∷ []) = some x
last_seq (x ∷ y ∷ xs) = last_seq (y ∷ xs)

-- The numbers from the first to the last, both of them included: `BTreeSet::range`.
abbrev pub range_seqs : ℕ → ℕ → List ℕ → List ℕ
range_seqs low high set = retain (λ n. leb low n && leb n high) set
