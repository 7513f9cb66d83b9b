-- ===== src/Update/Tests.antt =====
-- The theorems on restarts at concrete inputs.
use fermix_linux.Base.{
  ℕ, List, [], ◌∷◌, ◌++◌, arith, bytes_of, number_of, ◌≡◌, refl, true, false, not, ◌&&◌, none, some,
}
use fermix_linux.Update.Version.{Version, Installed}
use fermix_linux.Update.Version.Texts.{
  number, split_dots, of_parts, parse, print, split_plus, parse_installed,
}
use fermix_linux.Update.Version.Trips.{IsVersion, parse_installed-print}
use fermix_linux.Update.Identity.{
  EngineIdentity, engine_alignment, engine_needs_restart, is_packaged,
}
use fermix_linux.Update.State.{Format, installation, Installation}
use fermix_linux.Update.Restarts.{differ, agree, needs_restart_lem}

abbrev on_disk : EngineIdentity
on_disk = record {
  build_id = some "b2";
  architecture = some "x86_64";
  distribution_identity = some "linux_package";
}

abbrev answering : EngineIdentity
answering = record on_disk { build_id = some "b1" }

needs_restart_lem_example :
    engine_needs_restart (engine_alignment (some on_disk) (some answering)) ≡ (
      is_packaged answering.distribution_identity
      && not (differ on_disk.architecture answering.architecture)
      && not (agree on_disk.build_id answering.build_id))
needs_restart_lem_example = needs_restart_lem (some on_disk) answering

abbrev version : Version
version = record { major = 1; minor = 20; patch = 0 }

version-IsVersion : IsVersion version
version-IsVersion = (ground arith, ground arith, ground arith)

-- "dev.5"
abbrev build : List ℕ
build = 100 ∷ 101 ∷ 118 ∷ 46 ∷ 53 ∷ []

parse_installed-print_example :
    (parse (print version) ≡ some version)
    × (parse_installed (print version) ≡ some (Installed.release version))
    × (parse_installed (print version ++ 43 ∷ build) ≡ some (Installed.development version))
parse_installed-print_example = parse_installed-print version build version-IsVersion

known_installations :
    (installation true none none "1.20.0" ≡ Installation.from_package version none)
    × (installation true (some Format.deb) (some "1.20.0+dev.7.ab") "1.20.0"
        ≡ Installation.development "1.20.0+dev.7.ab")
    × (installation true (some Format.deb) (some "1.020.0") "1.20.0"
        ≡ Installation.unknown "1.020.0")
    × (installation false none none "x" ≡ Installation.development "x")
unfolding installation parse_installed parse split_plus split_dots of_parts number bytes_of
    number_of
known_installations = (refl, refl, refl, refl)
