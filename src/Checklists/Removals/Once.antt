-- ===== src/Checklists/Removals/Once.antt =====
-- The tokens of the removals that are kept (desktop/core/src/checklists/removals.rs).
use Prim.{tt}
use fermix_linux.Base.{
  ℕ, suc, ◌+◌, ◌≤◌, ◌<◌, ◌≡◌, refl, subst, Bool, List, [], ◌∷◌, ◌++◌, none, some, arith, ◌==◌,
  length, filter, drop, Bool-cases, Option-cases, inl, inr,
}
use fermix_linux.Checklists.Removals.{Removal, take_token}

-- The tokens ascend, past one and up to another.
unfoldable pub Between : ℕ → ℕ → List Removal → Type 0
Between low high [] = Unit
Between low high (r ∷ kept) = ((low < r.token) × (r.token ≤ high)) × Between r.token high kept

Between-lower :
    (low lower high : ℕ) (kept : List Removal)
    → lower ≤ low
    → Between low high kept
    → Between lower high kept
unfolding Between
Between-lower low lower high [] h k = tt
Between-lower low lower high (r ∷ kept) h k = ground (arith, h, k)

pub Between-filter :
    (low high : ℕ) (test : Removal → Bool) (kept : List Removal)
    → Between low high kept
    → Between low high (filter test kept)
unfolding Between filter
Between-filter low high test [] k = tt
Between-filter low high test (r ∷ kept) k = elim (Bool-cases (test r)) [
  | inl e ↦ ground (arith, e, k, Between-filter r.token high test kept k.1)
  | inr e ↦ ground (
    arith,
    e,
    Between-lower r.token low high (filter test kept) (ground (arith, k))
        (Between-filter r.token high test kept k.1),
  )
]

pub Between-append :
    (low high : ℕ) (kept : List Removal) (r : Removal)
    → low ≤ high
    → r.token ≡ high + 1
    → Between low high kept
    → Between low (high + 1) (kept ++ r ∷ [])
unfolding Between
Between-append low high [] r h t k = ground (arith, h, t)
Between-append low high (other ∷ kept) r h t k =
    ground (arith, k, Between-append other.token high kept r k.0.1 t k.1)

pub Between-drop :
    (low high : ℕ) (kept : List Removal) → Between low high kept → Between low high (drop 1 kept)
unfolding Between
Between-drop low high [] k = tt
Between-drop low high (r ∷ kept) k = Between-lower r.token low high kept (ground (arith, k)) k.1

-- No token past the last one is among those that follow it.
take_token-past :
    (low high token : ℕ) (kept : List Removal)
    → token ≤ low
    → Between low high kept
    → take_token token kept ≡ none
unfolding Between take_token
take_token-past low high token [] h k = refl
take_token-past low high token (r ∷ kept) h k =
    ground (arith, h, k, take_token-past r.token high token kept (ground (arith, h, k)) k.1)

-- What is taken back is no longer kept, and the others are, in their order.
pub take_token-some :
    (low high token : ℕ) (kept : List Removal) (out : Removal × List Removal)
    → take_token token kept ≡ some out
    → Between low high kept
    → (Between low high out.1 × (take_token token out.1 ≡ none))
      × ((out.0.token ≡ token) × ((token ≤ high) × (length out.1 ≤ length kept)))
unfolding Between take_token
take_token-some low high token [] out h k = ground (arith, h)
take_token-some low high token (r ∷ kept) out h k = elim (Bool-cases (r.token == token)) [
  | inl e ↦
      let same : (r, kept) ≡ out = ground (arith, e, h) in
      subst
        (λ t.
          (Between low high t.1 × (take_token token t.1 ≡ none))
          × ((t.0.token ≡ token) × ((token ≤ high) × (length t.1 ≤ suc (length kept)))))
        same
        (
          (
            Between-lower r.token low high kept (ground (arith, k)) k.1,
            take_token-past r.token high token kept (ground (arith, e)) k.1,
          ),
          (ground (arith, e), (ground (arith, e, k), ground arith)),
        )
  | inr e ↦ elim (Option-cases (take_token token kept)) [
    | inl n ↦ ground (arith, e, n, h)
    | inr (later, n) ↦
        let same : (later.0, r ∷ later.1) ≡ out = ground (arith, e, n, h) in
        let rest = take_token-some r.token high token kept later n k.1 in
        subst
          (λ t.
            (Between low high t.1 × (take_token token t.1 ≡ none))
            × ((t.0.token ≡ token) × ((token ≤ high) × (length t.1 ≤ suc (length kept)))))
          same (ground (arith, e, k, rest))
  ]
]

-- A token gone stays gone.
pub take_token-filter :
    (token : ℕ) (test : Removal → Bool) (kept : List Removal)
    → take_token token kept ≡ none
    → take_token token (filter test kept) ≡ none
unfolding take_token filter
take_token-filter token test [] h = refl
take_token-filter token test (r ∷ kept) h = elim (Option-cases (take_token token kept)) [
  | inl n ↦ ground (arith, h, n, take_token-filter token test kept n)
  | inr (out, n) ↦ ground (arith, h, n)
]

pub take_token-append :
    (token : ℕ) (kept : List Removal) (r : Removal)
    → take_token token kept ≡ none
    → token < r.token
    → take_token token (kept ++ r ∷ []) ≡ none
unfolding take_token
take_token-append token [] r h t = ground (arith, t)
take_token-append token (other ∷ kept) r h t = elim (Option-cases (take_token token kept)) [
  | inl n ↦ ground (arith, h, n, take_token-append token kept r n t)
  | inr (out, n) ↦ ground (arith, h, n)
]

pub take_token-drop :
    (token : ℕ) (kept : List Removal)
    → take_token token kept ≡ none
    → take_token token (drop 1 kept) ≡ none
unfolding take_token
take_token-drop token [] h = refl
take_token-drop token (r ∷ kept) h = elim (Option-cases (take_token token kept)) [
  | inl n ↦ n
  | inr (out, n) ↦ ground (arith, h, n)
]

pub take_token-others :
    (token other : ℕ) (kept : List Removal) (out : Removal × List Removal)
    → take_token token kept ≡ none
    → take_token other kept ≡ some out
    → take_token token out.1 ≡ none
unfolding take_token
take_token-others token other [] out h k = ground (arith, k)
take_token-others token other (r ∷ kept) out h k = elim (Option-cases (take_token token kept)) [
  | inr (found, n) ↦ ground (arith, h, n)
  | inl n ↦ elim (Bool-cases (r.token == other)) [
    | inl e ↦
        let same : (r, kept) ≡ out = ground (arith, e, k) in
        subst (λ t. take_token token t.1 ≡ none) same n
    | inr e ↦ elim (Option-cases (take_token other kept)) [
      | inl m ↦ ground (arith, e, m, k)
      | inr (later, m) ↦
          let same : (later.0, r ∷ later.1) ≡ out = ground (arith, e, m, k) in
          subst (λ t. take_token token t.1 ≡ none) same
            (ground (arith, h, n, take_token-others token other kept later n m))
    ]
  ]
]
