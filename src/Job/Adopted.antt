-- ===== src/Job/Adopted.antt =====
-- Which sign-in is adopted.
use fermix_linux.Base.{
  ◌≡◌, refl, sym, ap, ◌∙◌, Bool, List, [], ◌∷◌, Option, none, some, String, filter, Bool-cases, inl,
  inr,
}
use fermix_linux.Job.{JobView, next, is_unknown, unless_other, adopted, adoptable_sign_in}

-- The one of a list that has no other.
abbrev pub the_only {ℓ} : {A : Type ℓ} → List A → Option A
the_only [] = none
the_only (x ∷ []) = some x
the_only (_ ∷ _ ∷ _) = none

abbrev with_rest {ℓ} : {A : Type ℓ} → (A → Bool) → Option (A × List A) → List A
with_rest test none = []
with_rest test (some (x, xs)) = x ∷ filter test xs

filter-next {ℓ} :
    {A : Type ℓ} → (test : A → Bool) (xs : List A) → filter test xs ≡ with_rest test (next test xs)
unfolding filter next
filter-next test [] = refl
filter-next test (x ∷ xs) = elim (Bool-cases (test x)) [
  | inl passes ↦ rw (passes) refl
  | inr fails ↦ rw (fails) (filter-next test xs)
]

module _ {ℓ} {J : Type ℓ} where
  unless_other_lem :
      (only : JobView J) (test : JobView J → Bool) (o : Option (JobView J × List (JobView J)))
      → unless_other only o ≡ the_only (only ∷ with_rest test o)
  unless_other_lem only test none = refl
  unless_other_lem only test (some (other, rest)) = refl

  adopted_lem :
      (followed : List String) (o : Option (JobView J × List (JobView J)))
      → adopted followed o ≡ the_only (with_rest (is_unknown followed) o)
  unfolding adopted
  adopted_lem followed none = refl
  adopted_lem followed (some (only, rest)) =
      unless_other_lem only (is_unknown followed) (next (is_unknown followed) rest)
      ∙ ap (λ jobs. the_only (only ∷ jobs)) (sym (filter-next (is_unknown followed) rest))

  -- A sign-in is adopted where it is the only one that runs and is not followed, and none is
  -- where there are none of those or several.
  pub adoptable_sign_in_lem :
      (jobs : List (JobView J)) (followed : List String)
      → adoptable_sign_in jobs followed ≡ the_only (filter (is_unknown followed) jobs)
  unfolding adoptable_sign_in
  adoptable_sign_in_lem jobs followed =
      adopted_lem followed (next (is_unknown followed) jobs)
      ∙ ap the_only (sym (filter-next (is_unknown followed) jobs))
