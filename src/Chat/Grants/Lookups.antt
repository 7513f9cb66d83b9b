-- ===== src/Chat/Grants/Lookups.antt =====
-- What each operation on the reads' map does to the uses of a ref.
use fermix_linux.Base.{
  ◌≡◌, refl, not, ◌&&◌, List, [], ◌∷◌, Option, none, some, arith, String, str_eq, str_eq_iff,
  str_mem, filter, if◌then◌else◌,
}
use fermix_linux.Chat.Grants.{Uses, uses_of, put_uses, remove_uses, forget_answers}

pub uses_of-put :
    (r ref : String) (uses : Uses) (map : List (String × Uses))
    → uses_of r (put_uses ref uses map) ≡ (if str_eq r ref then some uses else uses_of r map)
unfolding uses_of put_uses
uses_of-put r ref uses [] = refl
uses_of-put r ref uses ((other, held) ∷ map) =
    ground (
      arith,
      uses_of-put r ref uses map,
      str_eq_iff r ref,
      str_eq_iff ref other,
      str_eq_iff r other,
    )

pub uses_of-remove :
    (r ref : String) (map : List (String × Uses))
    → uses_of r (remove_uses ref map) ≡ (if str_eq r ref then none else uses_of r map)
unfolding uses_of remove_uses
uses_of-remove r ref [] = ground arith
uses_of-remove r ref ((other, uses) ∷ map) =
    ground
      (arith, uses_of-remove r ref map, str_eq_iff r ref, str_eq_iff ref other, str_eq_iff r other)

pub str_mem-filter :
    (r ref : String) (refs : List String)
    → str_mem r (filter (λ other. not (str_eq other ref)) refs)
      ≡ (not (str_eq r ref) && str_mem r refs)
unfolding str_mem filter
str_mem-filter r ref [] = ground arith
str_mem-filter r ref (other ∷ refs) =
    ground
      (arith, str_mem-filter r ref refs, str_eq_iff r ref, str_eq_iff other ref, str_eq_iff r other)

-- The uses of a ref without their answer.
abbrev pub no_answer : Option Uses → Option Uses
no_answer none = none
no_answer (some uses) = some (record uses { answer = none })

pub uses_of-forget_answers :
    (r : String) (map : List (String × Uses))
    → uses_of r (forget_answers map) ≡ no_answer (uses_of r map)
unfolding uses_of forget_answers
uses_of-forget_answers r [] = refl
uses_of-forget_answers r ((other, uses) ∷ map) = ground (arith, uses_of-forget_answers r map)
