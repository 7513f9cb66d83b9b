-- ===== src/Update/Policy/Tests.antt =====
-- The policy's theorem at a concrete feed.
use fermix_linux.Base.{refl, true, false, [], ◌∷◌, none, some}
use fermix_linux.Update.Version.{Version, lt, Installed}
use fermix_linux.Update.Policy.{Feed, ordered, decide}
use fermix_linux.Update.Policy.Decided.{Rules, decide_lem}

-- 2.0.0 needs 1.2.0 installed first; 1.2.0 is critical.
abbrev feed : Feed
feed = record {
  generated_at = 5;
  releases =
      record {
        version = record { major = 2; minor = 0; patch = 0 };
        published_at = 4;
        critical = false;
        minimum_installed_version = some (record { major = 1; minor = 2; patch = 0 });
        notes = [];
      }
      ∷ record {
        version = record { major = 1; minor = 2; patch = 0 };
        published_at = 3;
        critical = true;
        minimum_installed_version = none;
        notes = [];
      }
      ∷ [];
}

abbrev current : Version
current = record { major = 1; minor = 1; patch = 9 }

decide_lem_example : Rules current feed.releases none (decide feed (Installed.release current) none)
unfolding ordered lt
decide_lem_example = decide_lem feed current none refl
