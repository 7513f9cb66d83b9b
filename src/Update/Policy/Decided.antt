-- ===== src/Update/Policy/Decided.antt =====
-- The rules that a decision keeps.
use fermix_linux.Base.{
  ◌≡◌, refl, sym, subst, ap, ◌∙◌, Bool, true, not, ◌&&◌, List, [], ◌∷◌, Option, none, some, all,
  any, arith, filter, find, Bool-cases, Option-cases, inl, inr, if◌then◌else◌,
}
use fermix_linux.Update.Version.{Version, lt, le, Installed}
use fermix_linux.Update.Policy.{
  Release, Feed, ordered, Offer, Outcome, is_newer, is_installable, is_skipped, offer,
  decide_release, decide,
}
use fermix_linux.Update.Policy.Order.{none_past, none_past_weaken, newest, filter-head}
use fermix_linux.Update.Policy.Offered.{
  is_offerable, Has, Best, find-Best, find_nothing, filter_nothing, any-filter,
}

-- A release of the list has the version.
HasVersion : Version → List Release → Type 0
HasVersion v rs = (r : Release) × (Has r rs × (r.version ≡ v))

-- What an offer says of the newest release, where that is newer than it.
IsHeldBack : Version → List Release → Option Version → Type 0
IsHeldBack v rs none = none_past v rs ≡ true
IsHeldBack v rs (some latest) =
    HasVersion latest rs × (lt v latest ≡ true) × (none_past latest rs ≡ true)

-- Whether a critical release lies past the installed version, up to the offered one.
critical_up_to : Version → Version → List Release → Bool
critical_up_to current v rs = any (λ r. lt current r.version && (r.critical && le r.version v)) rs

-- What an offer is.
pub IsOffer : Version → List Release → Option Version → Offer → Type 0
unfolding IsHeldBack critical_up_to
IsOffer current rs skipped o =
    Best current rs o.release
    × (o.critical ≡ critical_up_to current o.release.version rs)
    × IsHeldBack o.release.version rs o.held_back
    × (o.skipped ≡ (not o.critical && is_skipped skipped o.release.version))

-- What is decided at a released version.
pub Rules : Version → List Release → Option Version → Outcome → Type 0
Rules current rs skipped Outcome.development = ⊥
Rules current rs skipped Outcome.up_to_date = none_past current rs ≡ true
Rules current rs skipped (Outcome.available o) = IsOffer current rs skipped o
Rules current rs skipped (Outcome.stranded latest) =
    HasVersion latest rs
    × (lt current latest ≡ true)
    × (none_past latest rs ≡ true)
    × (all (λ r. not (is_offerable current r)) rs ≡ true)

IsHeldBack-offer :
    (v : Version) (rs : List Release) (latest : Version)
    → HasVersion latest rs
    → none_past latest rs ≡ true
    → IsHeldBack v rs (if lt v latest then some latest else none)
unfolding IsHeldBack
IsHeldBack-offer v rs latest has h = elim (Bool-cases (lt v latest)) [
  | inl past ↦ rw (past) (has, past, h)
  | inr same ↦ rw (same) (none_past_weaken v latest rs same h)
]

-- The first release that a test keeps is one of the list.
filter-Has :
    (test : Release → Bool) (rs : List Release) (first : Release) (rest : List Release)
    → filter test rs ≡ first ∷ rest
    → Has first rs
unfolding filter Has
filter-Has test [] first rest h = cc
filter-Has test (r ∷ rs) first rest h = elim (Bool-cases (test r)) [
  | inl passes ↦ inl (ground (arith, h, passes))
  | inr fails ↦ inr (filter-Has test rs first rest (ground (arith, h, fails)))
]

decide_release-none :
    (latest : Release) (older : List Release) (current : Version) (skipped : Option Version)
    → find (is_installable current) (latest ∷ older) ≡ none
    → decide_release (latest ∷ older) current skipped ≡ Outcome.stranded latest.version
unfolding decide_release
decide_release-none latest older current skipped f = rw (decide_release, f) refl

decide_release-some :
    (latest : Release) (older : List Release) (current : Version) (skipped : Option Version)
    → (r : Release) → find (is_installable current) (latest ∷ older) ≡ some r
    → decide_release (latest ∷ older) current skipped
      ≡ Outcome.available (offer (latest ∷ older) latest r skipped)
unfolding decide_release
decide_release-some latest older current skipped r f = rw (decide_release, f) refl

decide_release_lem :
    (rs : List Release) (current : Version) (skipped : Option Version)
    → ordered rs ≡ true
    → (newer : List Release) → filter (is_newer current) rs ≡ newer
    → Rules current rs skipped (decide_release newer current skipped)
unfolding decide_release Rules IsOffer critical_up_to HasVersion
decide_release_lem rs current skipped o [] e = filter_nothing current rs e
decide_release_lem rs current skipped o (latest ∷ older) e =
    let top = newest current rs o latest older e in
    let has : HasVersion latest.version rs =
      (latest, (filter-Has (is_newer current) rs latest older e, refl)) in
    elim (Option-cases (find (is_installable current) (latest ∷ older))) [
      | inl f ↦
          subst (Rules current rs skipped)
            (sym (decide_release-none latest older current skipped f))
            (
              has,
              filter-head (is_newer current) rs latest older e,
              top,
              find_nothing current rs (ap (find (is_installable current)) e ∙ f),
            )
      | inr (r, f) ↦
          subst (Rules current rs skipped)
            (sym (decide_release-some latest older current skipped r f))
            (
              find-Best current rs o r (ap (find (is_installable current)) e ∙ f),
              critical_lem current r.version rs (latest ∷ older) e,
              IsHeldBack-offer r.version rs latest.version has top,
              refl,
            )
    ]
  where
    critical_lem :
        (current v : Version) (rs newer : List Release)
        → filter (is_newer current) rs ≡ newer
        → any (λ r. r.critical && le r.version v) newer ≡ critical_up_to current v rs
    critical_lem current v rs newer e =
        ap (any (λ r. r.critical && le r.version v)) (sym e)
        ∙ any-filter (λ r. r.critical && le r.version v) (is_newer current) rs

-- The decision at a released version, for a feed in its order: nothing where no release is newer,
-- the newest release that can be installed over this version where there is one, critical where
-- one past this version and up to it is, with the version of the newest release of the feed where
-- that is newer, and where none can be installed the version of the feed's newest release alone,
-- which is newer than this one.
pub decide_lem :
    (feed : Feed) (current : Version) (skipped : Option Version)
    → ordered feed.releases ≡ true
    → Rules current feed.releases skipped (decide feed (Installed.release current) skipped)
unfolding decide
decide_lem feed current skipped o =
    decide_release_lem feed.releases current skipped o (filter (is_newer current) feed.releases)
      refl
