-- ===== src/Base/Ascending.antt =====
-- What the operations on sets of sequence numbers keep.
use Prim.Native.Nat.{ℕ, ◌≤◌, ◌<◌}
use mathlib.Core.Path.{◌≡◌, refl}
use mathlib.Core.Logic.{inl, inr}
use mathlib.Core.Bool.{Bool, true, ◌&&◌}
use mathlib.Core.List.{List, [], ◌∷◌, ◌++◌}
use mathlib.Core.Option.{none, some}
use native.Mathlib.Omega.{arith}
use fermix_linux.Base.Tests.{leb, ltb, Bool-cases, Option-cases}
use fermix_linux.Base.Seqs.{insert_seq, extend_seqs, retain, last_seq}

-- Every number is at most the bound.
unfoldable pub all_le : ℕ → List ℕ → Bool
all_le n [] = true
all_le n (x ∷ xs) = leb x n && all_le n xs

-- Every number is more than the bound.
unfoldable pub all_gt : ℕ → List ℕ → Bool
all_gt n [] = true
all_gt n (x ∷ xs) = ltb n x && all_gt n xs

unfoldable pub ascends : List ℕ → Bool
ascends [] = true
ascends (x ∷ xs) = all_gt x xs && ascends xs

pub all_le_mono : (m n : ℕ) (xs : List ℕ) → m ≤ n → all_le m xs ≡ true → all_le n xs ≡ true
unfolding all_le
all_le_mono m n [] h k = refl
all_le_mono m n (x ∷ xs) h k = ground (arith, all_le_mono m n xs h, k)

pub all_gt_mono : (m n : ℕ) (xs : List ℕ) → m ≤ n → all_gt n xs ≡ true → all_gt m xs ≡ true
unfolding all_gt
all_gt_mono m n [] h k = refl
all_gt_mono m n (x ∷ xs) h k = ground (arith, all_gt_mono m n xs h, k)

pub all_le-insert : (n x : ℕ) (xs : List ℕ) → all_le n (insert_seq x xs) ≡ (leb x n && all_le n xs)
unfolding all_le insert_seq
all_le-insert n x [] = refl
all_le-insert n x (y ∷ xs) = ground (arith, all_le-insert n x xs)

pub all_gt-insert : (n x : ℕ) (xs : List ℕ) → all_gt n (insert_seq x xs) ≡ (ltb n x && all_gt n xs)
unfolding all_gt insert_seq
all_gt-insert n x [] = refl
all_gt-insert n x (y ∷ xs) = ground (arith, all_gt-insert n x xs)

pub all_le-extend :
    (n : ℕ) (xs ys : List ℕ) → all_le n (extend_seqs xs ys) ≡ (all_le n xs && all_le n ys)
unfolding all_le extend_seqs
all_le-extend n xs [] = ground arith
all_le-extend n xs (y ∷ ys) =
    ground (arith, all_le-extend n (insert_seq y xs) ys, all_le-insert n y xs)

pub all_le-retain :
    (n : ℕ) (test : ℕ → Bool) (xs : List ℕ) → all_le n xs ≡ true → all_le n (retain test xs) ≡ true
unfolding all_le retain
all_le-retain n test [] h = refl
all_le-retain n test (x ∷ xs) h = ground (arith, all_le-retain n test xs, h)

pub ascends-insert : (x : ℕ) (xs : List ℕ) → ascends xs ≡ true → ascends (insert_seq x xs) ≡ true
unfolding ascends insert_seq all_gt
ascends-insert x [] h = refl
ascends-insert x (y ∷ xs) h =
    ground (arith, h, ascends-insert x xs, all_gt-insert y x xs, all_gt_mono x y xs)

pub ascends-extend : (xs ys : List ℕ) → ascends xs ≡ true → ascends (extend_seqs xs ys) ≡ true
unfolding extend_seqs
ascends-extend xs [] h = h
ascends-extend xs (y ∷ ys) h = ascends-extend (insert_seq y xs) ys (ascends-insert y xs h)

all_gt-append : (n x : ℕ) (xs : List ℕ) → all_gt n (xs ++ x ∷ []) ≡ (all_gt n xs && ltb n x)
unfolding all_gt
all_gt-append n x [] = ground arith
all_gt-append n x (y ∷ xs) = ground (arith, all_gt-append n x xs)

pub ascends-append :
    (n x : ℕ) (xs : List ℕ)
    → ascends xs ≡ true
    → all_le n xs ≡ true
    → n < x
    → ascends (xs ++ x ∷ []) ≡ true
unfolding ascends all_le all_gt
ascends-append n x [] h k l = refl
ascends-append n x (y ∷ xs) h k l =
    ground (arith, h, k, ascends-append n x xs, all_gt-append y x xs)

pub all_le-append : (n x : ℕ) (xs : List ℕ) → all_le n (xs ++ x ∷ []) ≡ (all_le n xs && leb x n)
unfolding all_le
all_le-append n x [] = ground arith
all_le-append n x (y ∷ xs) = ground (arith, all_le-append n x xs)

-- The last of an ascending list is its greatest.
pub last_seq-all_le :
    (xs : List ℕ) (last : ℕ) → ascends xs ≡ true → last_seq xs ≡ some last → all_le last xs ≡ true
unfolding ascends all_le last_seq all_gt
last_seq-all_le [] last h e = cc
last_seq-all_le (x ∷ []) last h e = ground (arith, e)
last_seq-all_le (x ∷ y ∷ xs) last h e = ground (arith, h, last_seq-all_le (y ∷ xs) last)

-- The last of a list passes what all of it passes.
pub last_seq-none : (xs : List ℕ) → last_seq xs ≡ none → xs ≡ []
unfolding last_seq
last_seq-none [] e = refl
last_seq-none (x ∷ []) e = cc
last_seq-none (x ∷ y ∷ xs) e = cc (last_seq-none (y ∷ xs) e)

last_seq-cons :
    (x : ℕ) (xs : List ℕ)
    → last_seq (x ∷ xs) ≡ elim (last_seq xs) [ none ↦ some x | some last ↦ some last ]
unfolding last_seq
last_seq-cons x [] = refl
last_seq-cons x (y ∷ []) = refl
last_seq-cons x (y ∷ z ∷ xs) = elim (Option-cases (last_seq (z ∷ xs))) [
  | inl e ↦ absurd (cons_not_nil (last_seq-none (z ∷ xs) e))
  | inr (last, e) ↦ rw (e) refl
]
  where
    cons_not_nil : {n : ℕ} {ns : List ℕ} → (n ∷ ns ≡ []) → ⊥
    cons_not_nil h = cc

-- What is kept passes the test, the last of it too.
pub last_seq-retain :
    (test : ℕ → Bool) (xs : List ℕ) (last : ℕ)
    → last_seq (retain test xs) ≡ some last
    → test last ≡ true
unfolding retain last_seq
last_seq-retain test [] last e = cc
last_seq-retain test (x ∷ xs) last e = elim (Bool-cases (test x)) [
  | inl passes ↦ elim (Option-cases (last_seq (retain test xs))) [
    | inl f ↦ ground (arith, e, passes, f, last_seq-cons x (retain test xs))
    | inr (l, f) ↦
        ground (arith, e, passes, f, last_seq-cons x (retain test xs), last_seq-retain test xs l f)
  ]
  | inr fails ↦ last_seq-retain test xs last (ground (arith, e, fails))
]

pub ascends_nil : ascends [] ≡ true
unfolding ascends
ascends_nil = refl
