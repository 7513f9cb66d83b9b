-- ===== src/Update/Restarts.antt =====
-- When a restart is asked for, and when it may start.
use fermix_linux.Base.{
  ◌≡◌, refl, Bool, true, false, not, ◌&&◌, Option, none, some, String, str_eq, arith,
}
use fermix_linux.Update.Identity.{
  EngineIdentity, is_packaged, by_build, by_machine, engine_alignment, engine_needs_restart,
}
use fermix_linux.Update.State.{Updates, busy, Restart, is_package, may_restart}

-- What starts the restart is an install that was confirmed.
abbrev pub is_after_install : Restart → Bool
is_after_install Restart.after_install = true
is_after_install Restart.asked = false

-- A restart that may start is of a packaged window. One that is asked for starts while no
-- download, install or restart is under way, and one after an install while that install is.
pub may_restart-busy :
    (u : Updates) (why : Restart)
    → may_restart u why ≡ true
    → (is_package u.installation ≡ true) × (busy u ≡ is_after_install why)
unfolding may_restart busy
may_restart-busy u Restart.asked h = ground arith
may_restart-busy u Restart.after_install h = ground arith

-- Two texts that are both there and are not the same; and two that are the same.
abbrev pub differ : Option String → Option String → Bool
differ (some s) (some t) = not (str_eq s t)
differ _ _ = false

abbrev pub agree : Option String → Option String → Bool
agree (some s) (some t) = str_eq s t
agree _ _ = false

-- An engine that answers is to be restarted where the installed one cannot be read, or where it is
-- the package's, not of another machine than the installed one, and not known to be its build.
pub needs_restart_lem :
    (installed : Option EngineIdentity) (running : EngineIdentity)
    → engine_needs_restart (engine_alignment installed (some running)) ≡ elim installed [
      | none ↦ true
      | some i ↦
          is_packaged running.distribution_identity
          && not (differ i.architecture running.architecture)
          && not (agree i.build_id running.build_id)
    ]
unfolding engine_needs_restart engine_alignment by_machine by_build
needs_restart_lem none running = refl
needs_restart_lem (some i) running = ground arith
