-- ===== src/Update/Identity.antt =====
-- Whether Fermix runs what is installed (desktop/core/src/update/identity.rs), with what it reads
-- of an engine's identity (model.rs).
use fermix_linux.Base.{Bool, true, false, Option, none, some, String, str_eq, ◌+++◌, if◌then◌else◌}

pub record EngineIdentity : Type 0 where
  pub build_id : Option String
  pub architecture : Option String
  pub distribution_identity : Option String

pub data Alignment : Type 0 where
  aligned pending_restart not_running unknown : Alignment
  ownership_conflict : String → Alignment

abbrev pub packaged : String
packaged = "linux_package"

abbrev pub unwrap_or : Option String → String → String
unwrap_or none other = other
unwrap_or (some s) other = s

-- The match on the build ids, at the end.
unfoldable pub by_build : Option String → Option String → Alignment
by_build (some on_disk) (some answering) =
    if str_eq on_disk answering then Alignment.aligned else Alignment.pending_restart
by_build _ _ = Alignment.unknown

-- The test of the machines, and what follows it.
unfoldable pub by_machine :
    EngineIdentity → EngineIdentity → Option String → Option String → Alignment
by_machine installed running (some on_disk) (some answering) =
    if str_eq on_disk answering
    then by_build installed.build_id running.build_id
    else Alignment.ownership_conflict
        ("the running engine is for " +++ answering +++ ", the installed one for " +++ on_disk)
by_machine installed running _ _ = by_build installed.build_id running.build_id

-- `distribution_identity.as_deref() == Some(PACKAGED)`
abbrev pub is_packaged : Option String → Bool
is_packaged none = false
is_packaged (some kind) = str_eq kind packaged

unfoldable pub engine_alignment : Option EngineIdentity → Option EngineIdentity → Alignment
engine_alignment _ none = Alignment.not_running
engine_alignment none (some running) = Alignment.unknown
engine_alignment (some installed) (some running) =
    if is_packaged running.distribution_identity
    then by_machine installed running installed.architecture running.architecture
    else Alignment.ownership_conflict (
        "the running engine is a "
        +++ unwrap_or running.distribution_identity "unnamed"
        +++ " build")

unfoldable pub restart_pending : Alignment → Bool → Bool
restart_pending engine window_replaced = elim engine [
  | Alignment.pending_restart ↦ true
  | _ ↦ window_replaced
]

-- `engine_needs_restart` of state.rs
unfoldable pub engine_needs_restart : Alignment → Bool
engine_needs_restart Alignment.pending_restart = true
engine_needs_restart Alignment.unknown = true
engine_needs_restart _ = false
