-- ===== src/Update/Policy/Order.antt =====
-- What the order of a feed's releases gives.
use fermix_linux.Base.{
  ◌≡◌, refl, subst, Bool, true, false, not, List, [], ◌∷◌, arith, all, filter, Bool-cases, inl, inr,
}
use fermix_linux.Update.Version.{Version, lt}
use fermix_linux.Update.Policy.{Release, ordered, is_newer}

pub lt_trans : (a b c : Version) → lt a b ≡ true → lt b c ≡ true → lt a c ≡ true
unfolding lt
lt_trans a b c h k = ground (arith, h, k)

pub lt_irrefl : (a : Version) → lt a a ≡ false
unfolding lt
lt_irrefl a = ground arith

-- No release of the list is newer than the version.
unfoldable pub none_past : Version → List Release → Bool
none_past v rs = all (λ r. not (lt v r.version)) rs

-- What is not past a newer version is not past an older one.
not_past : (v a b : Version) → lt v b ≡ false → lt a b ≡ true → lt v a ≡ false
unfolding lt
not_past v a b h k = ground (arith, h, k)

-- What is older is not past.
not_past_older : (v a b : Version) → lt v a ≡ true → lt v b ≡ false → lt a b ≡ false
unfolding lt
not_past_older v a b h k = ground (arith, h, k)

pub ordered_tail : (r : Release) (rs : List Release) → ordered (r ∷ rs) ≡ true → ordered rs ≡ true
unfolding ordered
ordered_tail r [] o = refl
ordered_tail r (s ∷ rs) o = ground (arith, o)

ordered_head :
    (r s : Release) (rs : List Release)
    → ordered (r ∷ s ∷ rs) ≡ true
    → lt s.version r.version ≡ true
unfolding ordered
ordered_head r s rs o = ground (arith, o)

pub none_past_cons :
    (v : Version) (r : Release) (rs : List Release)
    → lt v r.version ≡ false
    → none_past v rs ≡ true
    → none_past v (r ∷ rs) ≡ true
unfolding none_past
none_past_cons v r rs h k = rw (h) k

pub none_past_head :
    (r : Release) (rs : List Release)
    → ordered (r ∷ rs) ≡ true
    → (v : Version) → lt v r.version ≡ false
    → none_past v rs ≡ true
unfolding none_past
none_past_head r [] o v h = refl
none_past_head r (s ∷ rs) o v h =
    let below = not_past v s.version r.version h (ordered_head r s rs o) in
    none_past_cons v s rs below (none_past_head s rs (ordered_tail r (s ∷ rs) o) v below)

pub filter-head :
    (test : Release → Bool) (rs : List Release) (first : Release) (rest : List Release)
    → filter test rs ≡ first ∷ rest
    → test first ≡ true
unfolding filter
filter-head test [] first rest h = cc
filter-head test (r ∷ rs) first rest h = elim (Bool-cases (test r)) [
  | inl passes ↦ ground (arith, h, passes)
  | inr fails ↦ filter-head test rs first rest (ground (arith, h, fails))
]

-- The first of the releases past a version is the newest of all.
pub newest :
    (current : Version) (rs : List Release)
    → ordered rs ≡ true
    → (latest : Release) (older : List Release) → filter (is_newer current) rs ≡ latest ∷ older
    → none_past latest.version rs ≡ true
unfolding filter
newest current [] o latest older h = cc
newest current (r ∷ rs) o latest older h = elim (Bool-cases (lt current r.version)) [
  | inl passes ↦
      let e : r ≡ latest = ground (arith, h, passes) in
      subst (λ x. none_past x.version (r ∷ rs) ≡ true) e
        (none_past_cons r.version r rs (lt_irrefl r.version)
          (none_past_head r rs o r.version (lt_irrefl r.version)))
  | inr past ↦
      let h' : filter (is_newer current) rs ≡ latest ∷ older = ground (arith, h, past) in
      none_past_cons latest.version r rs
        (not_past_older current latest.version r.version
          (filter-head (is_newer current) rs latest older h') past)
        (newest current rs (ordered_tail r rs o) latest older h')
]

not_past_both : (v a b : Version) → lt v a ≡ false → lt a b ≡ false → lt v b ≡ false
unfolding lt
not_past_both v a b h k = ground (arith, h, k)

pub none_past_weaken :
    (v latest : Version) (rs : List Release)
    → lt v latest ≡ false
    → none_past latest rs ≡ true
    → none_past v rs ≡ true
unfolding none_past
none_past_weaken v latest [] h k = refl
none_past_weaken v latest (r ∷ rs) h k =
    ground (arith, k, not_past_both v latest r.version h, none_past_weaken v latest rs h)
