-- ===== src/Update/State.antt =====
-- What the window knows of an update under way, and when a restart may start
-- (desktop/core/src/update/state.rs). The memory of earlier runs and the machine, which nothing
-- here reads, are left out of the state.
use fermix_linux.Base.{
  ℕ, Bool, true, false, ◌||◌, Option, none, some, String, bytes_of, if◌then◌else◌,
}
use fermix_linux.Update.Version.{Version, Installed}
use fermix_linux.Update.Version.Texts.{parse_installed}
use fermix_linux.Update.Policy.{Offer, Outcome}

pub data Format : Type 0 where
  deb rpm : Format

pub data Installation : Type 0 where
  from_package : Version → Option Format → Installation
  development unknown : String → Installation

-- Which text says what is installed.
abbrev pub version_text : Option Format → Option String → String → String
version_text none package_version own_version = own_version
version_text (some _) none own_version = own_version
version_text (some _) (some package_version) own_version = package_version

abbrev pub installed_as : Option Format → String → Option Installed → Installation
installed_as format text (some (Installed.release v)) = Installation.from_package v format
installed_as format text (some (Installed.development _)) = Installation.development text
installed_as format text none = Installation.unknown text

-- `packaged`, `format`, `package_version`, `own_version`
unfoldable pub installation : Bool → Option Format → Option String → String → Installation
installation packaged format package_version own_version =
    let text = version_text format package_version own_version in
    if packaged
    then installed_as format text (parse_installed (bytes_of text))
    else Installation.development own_version

pub data Waiting : Type 0 where
  lock password : Waiting

pub data Stage : Type 0 where
  download install restart : Stage

pub data Manual : Type 0 where
  -- `command`, `file`
  command : String → String → Manual
  link : String → Manual
  reopen : Manual

pub record Failure : Type 0 where
  pub stage : Stage
  pub sentence : String
  pub manual : Manual

pub data Step : Type 0 where
  downloading : ℕ → ℕ → Step
  verifying asking : Step
  installing : Option ℕ → Option Waiting → Step
  restarting : Step
  failed : Failure → Step

pub record Updates : Type 0 where
  pub installation : Option Installation
  pub checking : Bool
  pub found : Option Outcome
  pub failure : Option String
  pub restart_pending : Bool
  pub step : Option Step

unfoldable pub offer_of : Updates → Option Offer
offer_of u = elim u.found [ some (Outcome.available o) ↦ some o | _ ↦ none ]

unfoldable pub announced : Updates → Option Offer
unfolding offer_of
announced u = elim (offer_of u) [ some o ↦ (if o.skipped then none else some o) | none ↦ none ]

unfoldable pub format : Updates → Option Format
format u = elim u.installation [ some (Installation.from_package version f) ↦ f | _ ↦ none ]

unfoldable pub busy : Updates → Bool
busy u = elim u.step [ none ↦ false | some (Step.failed f) ↦ false | some _ ↦ true ]

pub data Restart : Type 0 where
  after_install asked : Restart

abbrev pub is_package : Option Installation → Bool
is_package (some (Installation.from_package version f)) = true
is_package _ = false

abbrev pub is_restart : Stage → Bool
is_restart Stage.restart = true
is_restart _ = false

-- The match on the step and what starts the restart.
abbrev pub step_allows : Option Step → Restart → Bool → Bool
step_allows (some Step.asking) Restart.after_install pending = true
step_allows (some (Step.installing percent waiting)) Restart.after_install pending = true
step_allows (some (Step.failed f)) Restart.asked pending = is_restart f.stage || pending
step_allows none Restart.asked pending = pending
step_allows _ _ pending = false

unfoldable pub may_restart : Updates → Restart → Bool
may_restart u why =
    if is_package u.installation then step_allows u.step why u.restart_pending else false
