-- ===== src/Update/Policy.antt =====
-- Which release a feed offers (desktop/core/src/update/policy.rs), with the part of a release it
-- reads and the feed's own order (feed.rs beside it).
pub mod Order
pub mod Offered
mod Decided
mod Tests
use fermix_linux.Base.{
  ℕ, Bool, true, false, not, ◌&&◌, ◌||◌, List, [], ◌∷◌, Option, none, some, String, leb, any,
  filter, find, if◌then◌else◌,
}
use fermix_linux.Update.Version.{Version, lt, le, version_eq, Installed}

-- The engine and the packages of a release are not read here.
pub record Release : Type 0 where
  pub version : Version
  pub published_at : ℕ
  pub critical : Bool
  pub minimum_installed_version : Option Version
  pub notes : List String

pub record Feed : Type 0 where
  pub generated_at : ℕ
  pub releases : List Release

-- `releases.windows(2).all(|p| p[0].version > p[1].version)`, which a feed must pass
unfoldable pub ordered : List Release → Bool
ordered [] = true
ordered (r ∷ []) = true
ordered (r ∷ s ∷ rs) = lt s.version r.version && ordered (s ∷ rs)

pub record Offer : Type 0 where
  pub release : Release
  pub critical : Bool
  pub held_back : Option Version
  pub skipped : Bool

pub data Outcome : Type 0 where
  development up_to_date : Outcome
  available : Offer → Outcome
  stranded : Version → Outcome

-- A feed as old as the accepted one is the same feed again.
unfoldable pub fresh : ℕ → Option ℕ → Bool
fresh generated_at none = true
fresh generated_at (some accepted) = leb accepted generated_at

abbrev pub is_newer : Version → Release → Bool
is_newer current r = lt current r.version

-- `minimum_installed_version.is_none_or(|m| m <= current)`
abbrev pub is_installable : Version → Release → Bool
is_installable current r = elim r.minimum_installed_version [ none ↦ true | some m ↦ le m current ]

-- `skipped == Some(version)`
abbrev pub is_skipped : Option Version → Version → Bool
is_skipped none version = false
is_skipped (some v) version = version_eq v version

-- The offer of a release, `latest` being the newest and `newer` all past the installed one.
abbrev pub offer : List Release → Release → Release → Option Version → Offer
offer newer latest release skipped =
    let critical = any (λ r. r.critical && le r.version release.version) newer in
    record {
      release = release;
      critical = critical;
      held_back = if lt release.version latest.version then some latest.version else none;
      skipped = not critical && is_skipped skipped release.version;
    }

unfoldable pub decide_release : List Release → Version → Option Version → Outcome
decide_release [] current skipped = Outcome.up_to_date
decide_release (latest ∷ older) current skipped =
    elim (find (is_installable current) (latest ∷ older)) [
      | none ↦ Outcome.stranded latest.version
      | some release ↦ Outcome.available (offer (latest ∷ older) latest release skipped)
    ]

unfoldable pub decide : Feed → Installed → Option Version → Outcome
decide feed (Installed.development _) skipped = Outcome.development
decide feed (Installed.release current) skipped =
    decide_release (filter (is_newer current) feed.releases) current skipped
