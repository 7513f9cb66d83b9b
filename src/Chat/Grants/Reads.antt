-- ===== src/Chat/Grants/Reads.antt =====
-- Reads that begin and end keep what the daemon holds read.
use fermix_linux.Base.{
  ℕ, ◌-◌, ◌≤◌, ◌≡◌, refl, Bool, true, false, not, ◌&&◌, List, [], ◌∷◌, ◌++◌, Option, none, some,
  arith, ◌==◌, String, str_eq_iff, str_mem, filter, Bool-cases, inl, inr, sym, subst,
}
use fermix_linux.Chat.Wire.Requests.{ClientEvent}
use fermix_linux.Chat.Grants.{
  numbered, counted, Answer, Grants, Uses, Outcome, uses_of, or_default, fetch, hold_uses, hold,
  forget_uses, release_uses,
}
use fermix_linux.Chat.Grants.Paths.{is_media_ref}
use fermix_linux.Chat.Grants.Lookups.{uses_of-put, uses_of-remove}
use fermix_linux.Chat.Grants.Calls.{lets_go, IsHeld}

pub release_uses-IsHeld :
    (r ref : String) (g : Grants) (held : Bool) (uses : Option Uses)
    → uses_of ref g.uses ≡ uses
    → IsHeld r g held
    → IsHeld r (release_uses g ref uses).0 (held && not (lets_go r (release_uses g ref uses).1))
unfolding release_uses
release_uses-IsHeld r ref g held none e k = ground (arith, k)
release_uses-IsHeld r ref g held (some uses) e k = ground (
  arith,
  e,
  k,
  str_eq_iff r ref,
  uses_of-put r ref (record uses { count = uses.count - 1 }) g.uses,
  uses_of-remove r ref g.uses,
)

pub forget_uses-IsHeld :
    (r ref : String) (g : Grants) (ticket : ℕ) (held : Bool) (uses : Option Uses)
    → uses_of ref g.uses ≡ uses
    → IsHeld r g held
    → IsHeld r (forget_uses g ticket ref uses) held
unfolding forget_uses
forget_uses-IsHeld r ref g ticket held none e k = k
forget_uses-IsHeld r ref g ticket held (some uses) e k = ground (
  arith,
  e,
  k,
  str_eq_iff r ref,
  uses_of-put r ref (record uses { waiting = filter (λ n. not (n == ticket)) uses.waiting }) g.uses,
)

hold_uses-IsHeld :
    (r ref : String) (g : Grants) (held : Bool) (uses : Uses) (answer : Option Outcome)
    → (or_default (uses_of ref g.uses)).answer ≡ answer
    → uses.answer ≡ answer
    → 1 ≤ uses.count
    → IsHeld r g held
    → IsHeld r (hold_uses g ref uses answer).0 held
unfolding hold_uses fetch str_mem
hold_uses-IsHeld r ref g held uses (some known) f e c k =
    ground (arith, e, f, c, k, str_eq_iff r ref, uses_of-put r ref uses g.uses)
hold_uses-IsHeld r ref g held uses none f e c k = ground (
  arith,
  e,
  f,
  c,
  k,
  str_eq_iff r ref,
  uses_of-put r ref (record uses { waiting = uses.waiting ++ g.tickets ∷ [] }) g.uses,
)

hold_uses-lets_go :
    (r ref : String) (g : Grants) (uses : Uses) (answer : Option Outcome)
    → lets_go r (hold_uses g ref uses answer).1.1 ≡ false
unfolding hold_uses fetch
hold_uses-lets_go r ref g uses none = ground arith
hold_uses-lets_go r ref g uses (some known) = refl

hold-ref :
    (g : Grants) (ref : String)
    → is_media_ref ref ≡ true
    → hold g ref
      ≡ hold_uses
          (numbered g)
          ref
          (counted (or_default (uses_of ref g.uses)))
          (or_default (uses_of ref g.uses)).answer
unfolding hold
hold-ref g ref e = rw (hold, e) refl

hold-other :
    (g : Grants) (ref : String)
    → is_media_ref ref ≡ false
    → hold g ref ≡ (numbered g, (Answer.now Outcome.missing, []))
unfolding hold
hold-other g ref e = rw (hold, e) refl

pub hold-IsHeld :
    (r ref : String) (g : Grants) (held : Bool)
    → IsHeld r g held
    → IsHeld r (hold g ref).0 (held && not (lets_go r (hold g ref).1.1))
hold-IsHeld r ref g held k =
    let P : Grants × (Answer × List ClientEvent) → Type 0 =
      λ s. IsHeld r s.0 (held && not (lets_go r s.1.1)) in
    let uses = or_default (uses_of ref g.uses) in
    elim (Bool-cases (is_media_ref ref)) [
      | inl is ↦ subst P (sym (hold-ref g ref is)) (
          ground (
            arith,
            hold_uses-lets_go r ref (numbered g) (counted uses) uses.answer,
            hold_uses-IsHeld r ref (numbered g) held (counted uses) uses.answer refl refl
                (ground arith) k,
          ))
      | inr other ↦ subst P (sym (hold-other g ref other)) (ground (arith, k))
    ]
