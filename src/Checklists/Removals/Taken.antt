-- ===== src/Checklists/Removals/Taken.antt =====
-- A removal taken back is gone (desktop/core/src/checklists/removals.rs).
use Prim.{tt}
use fermix_linux.Base.{
  ℕ, ◌+◌, ◌≤◌, ◌≡◌, refl, ap, not, [], ◌∷◌, ◌++◌, Option, none, some, String, arith, length,
  length-append, length-drop, filter, Option-cases, inl, inr,
}
use fermix_linux.Checklists.Bounds.{length-filter}
use fermix_linux.Checklists.Removals.{
  Removal, Removals, default, drop_first, is_of, made, max_kept, removal_of, take_back, take_token,
}
use fermix_linux.Checklists.Removals.Once.{
  Between, Between-filter, Between-append, Between-drop, take_token-some, take_token-filter,
  take_token-append, take_token-drop, take_token-others,
}

-- At most 20 removals are kept, and their tokens ascend up to the last one given.
abbrev pub AreRemovals : Removals → Type 0
AreRemovals rs = (length rs.kept ≤ max_kept) × Between 0 rs.made rs.kept

-- A token that was given and is no longer kept.
abbrev pub IsGone : ℕ → Removals → Type 0
IsGone token rs = (take_token token rs.kept ≡ none) × (token ≤ rs.made)

pub default-AreRemovals : AreRemovals default
unfolding Between
default-AreRemovals = (ground arith, tt)

pub made-AreRemovals :
    (rs : Removals) (list_id : String) (row_id : Option String) (text : String)
    → AreRemovals rs
    → AreRemovals (made rs list_id row_id text).0
unfolding made drop_first
made-AreRemovals rs list_id row_id text k =
    let left = filter (λ r. not (is_of list_id row_id r)) rs.kept in
    let new = removal_of (rs.made + 1) list_id row_id text in
    let all_ =
      Between-append 0 rs.made left new (ground arith) refl
        (Between-filter 0 rs.made (λ r. not (is_of list_id row_id r)) rs.kept k.1) in
    ground (
      arith,
      k,
      all_,
      Between-drop 0 (rs.made + 1) (left ++ new ∷ []) all_,
      length-filter (λ r. not (is_of list_id row_id r)) rs.kept,
      length-append left (new ∷ []),
      length-drop 1 (left ++ new ∷ []),
    )

pub made-IsGone :
    (rs : Removals) (list_id : String) (row_id : Option String) (text : String) (token : ℕ)
    → IsGone token rs
    → IsGone token (made rs list_id row_id text).0
unfolding made drop_first
made-IsGone rs list_id row_id text token k =
    let left = filter (λ r. not (is_of list_id row_id r)) rs.kept in
    let new = removal_of (rs.made + 1) list_id row_id text in
    let gone =
      take_token-append token left new
        (take_token-filter token (λ r. not (is_of list_id row_id r)) rs.kept k.0)
        (ground (arith, k)) in
    ground (arith, k, gone, take_token-drop token (left ++ new ∷ []) gone)

pub take_back-AreRemovals :
    (rs : Removals) (token : ℕ) → AreRemovals rs → AreRemovals (take_back rs token).0
unfolding take_back
take_back-AreRemovals rs token k = elim (Option-cases (take_token token rs.kept)) [
  | inl e ↦ ground (arith, e, k)
  | inr (out, e) ↦ ground (arith, e, k, take_token-some 0 rs.made token rs.kept out e k.1)
]

pub take_back-IsGone :
    (rs : Removals) (token other : ℕ) → IsGone token rs → IsGone token (take_back rs other).0
unfolding take_back
take_back-IsGone rs token other k = elim (Option-cases (take_token other rs.kept)) [
  | inl e ↦ ground (arith, e, k)
  | inr (out, e) ↦ ground (arith, e, k, take_token-others token other rs.kept out k.0 e)
]

-- Once taken back a token is gone.
pub take_back-some :
    (rs : Removals) (token : ℕ) (removal : Removal)
    → AreRemovals rs
    → (take_back rs token).1 ≡ some removal
    → (removal.token ≡ token) × IsGone token (take_back rs token).0
unfolding take_back
take_back-some rs token removal k h = elim (Option-cases (take_token token rs.kept)) [
  | inl e ↦ ground (arith, e, h)
  | inr (out, e) ↦
      let facts = take_token-some 0 rs.made token rs.kept out e k.1 in
      let same : out.0 ≡ removal = ground (arith, e, h) in
      ground (arith, e, ap (λ r. r.token) same, facts)
]

-- And taken back again it answers nothing.
pub take_back-gone : (rs : Removals) (token : ℕ) → IsGone token rs → take_back rs token ≡ (rs, none)
unfolding take_back
take_back-gone rs token k = ground (arith, k)
