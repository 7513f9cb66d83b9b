-- ===== src/Update/Policy/Offered.antt =====
-- What the policy makes of a feed.
use fermix_linux.Base.{
  ◌≡◌, refl, sym, subst, ◌∙◌, Bool, true, false, not, ◌&&◌, List, [], ◌∷◌, none, some, arith, all,
  any, filter, find, Bool-cases, inl, inr, ◌⊎◌,
}
use fermix_linux.Update.Version.{Version, lt}
use fermix_linux.Update.Policy.{Release, ordered, is_newer, is_installable}
use fermix_linux.Update.Policy.Order.{
  lt_irrefl, none_past, ordered_tail, none_past_cons, none_past_head,
}

-- A release newer than the current version, whose minimum this version is not older than.
abbrev pub is_offerable : Version → Release → Bool
is_offerable current r =
    lt current r.version
    && elim r.minimum_installed_version [ none ↦ true | some minimum ↦ not (lt current minimum) ]

-- No release past the version can be offered.
unfoldable pub none_better : Version → Version → List Release → Bool
none_better current v rs = all (λ r. not (lt v r.version && is_offerable current r)) rs

-- The release is one of the list.
unfoldable pub Has : Release → List Release → Type 0
Has r [] = ⊥
Has r (x ∷ rs) = (r ≡ x) ⊎ Has r rs

-- The first release that can be offered is the newest such.
unfoldable pub Best : Version → List Release → Release → Type 0
Best current rs r =
    Has r rs × (is_offerable current r ≡ true) × (none_better current r.version rs ≡ true)

none_past-none_better :
    (current v : Version) (rs : List Release)
    → none_past v rs ≡ true
    → none_better current v rs ≡ true
unfolding none_past none_better
none_past-none_better current v [] h = refl
none_past-none_better current v (r ∷ rs) h = ground (arith, h, none_past-none_better current v rs)

none_better_cons :
    (current v : Version) (x : Release) (rs : List Release)
    → is_offerable current x ≡ false
    → none_better current v rs ≡ true
    → none_better current v (x ∷ rs) ≡ true
unfolding none_better
none_better_cons current v x rs e h = ground (arith, e, h)

-- A release that cannot be offered is passed over.
find_skip :
    (current : Version) (x : Release) (rs : List Release)
    → is_offerable current x ≡ false
    → find (is_installable current) (filter (is_newer current) (x ∷ rs))
      ≡ find (is_installable current) (filter (is_newer current) rs)
unfolding find filter
find_skip current x rs e = elim (Bool-cases (lt current x.version)) [
  | inl past ↦ elim (Bool-cases (is_installable current x)) [
    | inl fits ↦ ground (arith, e, past, fits)
    | inr needs ↦ rw (past, needs) refl
  ]
  | inr before ↦ rw (before) refl
]

find_take :
    (current : Version) (x : Release) (rs : List Release)
    → is_offerable current x ≡ true
    → find (is_installable current) (filter (is_newer current) (x ∷ rs)) ≡ some x
unfolding find filter
find_take current x rs e = elim (Bool-cases (lt current x.version)) [
  | inl past ↦ elim (Bool-cases (is_installable current x)) [
    | inl fits ↦ rw (past, fits) refl
    | inr needs ↦ ground (arith, e, past, needs)
  ]
  | inr before ↦ ground (arith, e, before)
]

pub find-Best :
    (current : Version) (rs : List Release)
    → ordered rs ≡ true
    → (r : Release) → find (is_installable current) (filter (is_newer current) rs) ≡ some r
    → Best current rs r
unfolding find filter Best none_better Has
find-Best current [] o r h = cc
find-Best current (x ∷ rs) o r h = elim (Bool-cases (is_offerable current x)) [
  | inl passes ↦
      let taken : some x ≡ some r = sym (find_take current x rs passes) ∙ h in
      let e : x ≡ r = cc in
      let same = lt_irrefl x.version in
      let past = none_past_cons x.version x rs same (none_past_head x rs o x.version same) in
      subst (Best current (x ∷ rs)) e
        (inl refl, passes, none_past-none_better current x.version (x ∷ rs) past)
  | inr fails ↦
      let best : Best current rs r =
        find-Best current rs (ordered_tail x rs o) r (sym (find_skip current x rs fails) ∙ h) in
      (inr best.0, best.1, none_better_cons current r.version x rs fails best.2)
]

pub find_nothing :
    (current : Version) (rs : List Release)
    → find (is_installable current) (filter (is_newer current) rs) ≡ none
    → all (λ r. not (is_offerable current r)) rs ≡ true
unfolding find filter
find_nothing current [] h = refl
find_nothing current (x ∷ rs) h = elim (Bool-cases (is_offerable current x)) [
  | inl passes ↦ cc (find_take current x rs passes, h)
  | inr fails ↦
      let rest = find_nothing current rs (sym (find_skip current x rs fails) ∙ h) in rw (fails) rest
]

pub filter_nothing :
    (current : Version) (rs : List Release)
    → filter (is_newer current) rs ≡ []
    → none_past current rs ≡ true
unfolding filter none_past
filter_nothing current [] h = refl
filter_nothing current (x ∷ rs) h = elim (Bool-cases (lt current x.version)) [
  | inl past ↦ let n : x ∷ filter (is_newer current) rs ≡ [] = rw (past) at h in cc
  | inr before ↦
      let k : filter (is_newer current) rs ≡ [] = rw (before) at h in
      rw (before) (filter_nothing current rs k)
]

pub any-filter :
    (test keeps : Release → Bool) (rs : List Release)
    → any test (filter keeps rs) ≡ any (λ r. keeps r && test r) rs
unfolding filter
any-filter test keeps [] = refl
any-filter test keeps (x ∷ rs) = elim (Bool-cases (keeps x)) [
  | inl kept ↦ rw (kept, any-filter test keeps rs) refl
  | inr dropped ↦ rw (dropped, any-filter test keeps rs) refl
]
