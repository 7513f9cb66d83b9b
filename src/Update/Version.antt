-- ===== src/Update/Version.antt =====
-- Versions as values (desktop/core/src/update/version.rs), and below their texts.
pub mod Texts
pub mod Trips
use fermix_linux.Base.{ℕ, Bool, not, ◌&&◌, ◌||◌, ltb, ◌==◌ as nat_eq}

pub record Version : Type 0 where
  pub major : ℕ
  pub minor : ℕ
  pub patch : ℕ

-- The derived `Ord`: `lt a b` where `a` is the older, by major, minor and patch in turn.
unfoldable pub lt : Version → Version → Bool
lt a b =
    ltb a.major b.major
    || nat_eq a.major b.major
      && (ltb a.minor b.minor || nat_eq a.minor b.minor && ltb a.patch b.patch)

abbrev pub le : Version → Version → Bool
le a b = not (lt b a)

-- The derived `PartialEq`
abbrev pub version_eq : Version → Version → Bool
version_eq a b = nat_eq a.major b.major && nat_eq a.minor b.minor && nat_eq a.patch b.patch

pub data Installed : Type 0 where
  release development : Version → Installed
