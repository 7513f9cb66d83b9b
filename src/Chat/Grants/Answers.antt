-- ===== src/Chat/Grants/Answers.antt =====
-- The daemon's answers keep what it holds read.
use fermix_linux.Base.{
  ◌≡◌, refl, Bool, true, false, not, ◌&&◌, ◌||◌, [], Option, none, some, arith, String, str_eq,
  str_eq_iff, str_mem, Bool-cases, inl, inr, sym, subst,
}
use fermix_linux.Chat.Wire.Events.{ServerEvent, ServerError, Unreadable}
use fermix_linux.Chat.Grants.{
  Grants, Uses, Outcome, uses_of, answered_uses, without_asked, is_granted, named, answer_of,
  is_grant, answered_ref, answered_named, unreadable_answer, refused_answer,
}
use fermix_linux.Chat.Grants.Lookups.{uses_of-put, str_mem-filter}
use fermix_linux.Chat.Grants.Calls.{Call, events_of, lets_go, grants_ref, held_after, IsHeld}

answered_uses-IsHeld :
    (r ref : String) (g : Grants) (grants : Bool) (outcome : Outcome) (held : Bool)
    (uses : Option Uses)
    → uses_of ref g.uses ≡ uses
    → str_mem ref g.asked ≡ true
    → (is_granted (some outcome) ≡ true → grants ≡ true)
    → IsHeld r g held
    → let came =
        answered_uses (without_asked g ref) grants ref outcome (str_mem ref g.asked) uses in
      IsHeld r came.0 ((grants && str_eq r ref || held) && not (lets_go r came.1.events))
unfolding answered_uses
answered_uses-IsHeld r ref g grants outcome held none e a b k =
    ground (arith, e, a, b, k, str_eq_iff r ref, str_mem-filter r ref g.asked)
answered_uses-IsHeld r ref g grants outcome held (some uses) e a b k = ground (
  arith,
  e,
  a,
  b,
  k,
  str_eq_iff r ref,
  str_mem-filter r ref g.asked,
  uses_of-put r ref (record uses { answer = some outcome; waiting = [] }) g.uses,
)

-- The ref and the outcome of an event, beside whether the daemon holds the ref once it sent it.
abbrev Fits : String → ServerEvent → Option (String × Outcome) → Type 0
Fits r e none = grants_ref r e ≡ false
Fits r e (some (ref, outcome)) =
    (grants_ref r e ≡ (is_grant e && str_eq r ref))
    × (is_granted (some outcome) ≡ true → is_grant e ≡ true)

named-Fits :
    (r : String) (u : Unreadable) (ref : Option String)
    → u.ref ≡ ref
    → Fits r (ServerEvent.unreadable u) (named ref (Outcome.failed unreadable_answer))
unfolding grants_ref is_grant
named-Fits r u none e = ground (arith, e)
named-Fits r u (some ref) e = (ground (arith, e), λ h. cc h)

error-Fits :
    (r : String) (e : ServerError) (ref : Option String)
    → Fits r (ServerEvent.error e) (named ref (Outcome.failed refused_answer))
unfolding grants_ref is_grant
error-Fits r e none = refl
error-Fits r e (some ref) = (refl, λ h. cc h)

pub answer_of-Fits : (r : String) (g : Grants) (e : ServerEvent) → Fits r e (answer_of g e)
unfolding answer_of grants_ref is_grant
answer_of-Fits r g (ServerEvent.media_path grant) = (refl, λ h. refl)
answer_of-Fits r g (ServerEvent.media_missing ref) = (refl, λ h. cc h)
answer_of-Fits r g (ServerEvent.error e) = elim (Bool-cases (str_eq e.reason "request_failed")) [
  | inl failed ↦ rw (failed) (error-Fits r e e.ref)
  | inr other ↦ rw (other) refl
]
answer_of-Fits r g (ServerEvent.unreadable u) = named-Fits r u u.ref refl
answer_of-Fits r g _ = refl

pub answered_named-IsHeld :
    (r : String) (g : Grants) (e : ServerEvent) (held : Bool) (o : Option (String × Outcome))
    → Fits r e o
    → ((ref : String) → (outcome : Outcome) → o ≡ some (ref, outcome) → str_mem ref g.asked ≡ true)
    → IsHeld r g held
    → let came = answered_named g (is_grant e) o in
      IsHeld r came.0 (held_after r held (Call.event e) (events_of came.1))
unfolding answered_named answered_ref held_after
answered_named-IsHeld r g e held none f a k = ground (arith, f, k)
answered_named-IsHeld r g e held (some (ref, outcome)) f a k =
    subst
      (λ b.
        IsHeld r (answered_ref g (is_grant e) ref outcome).0
          ((b || held) && not (lets_go r (answered_ref g (is_grant e) ref outcome).1.events)))
      (sym f.0)
      (answered_uses-IsHeld r ref g (is_grant e) outcome held (uses_of ref g.uses) refl
        (a ref outcome refl) f.1 k)
