-- ===== src/Signals/Examples.antt =====
-- The handlers are hooked up, and a SIGINT comes.
use s4_lib_lite.Prelude.{◌≡◌, [], ◌∷◌, some, true, false}
use s4_lib_lite.Signals.Handler.{sigint, Process, new_process, comes, hooks, run_events}
use s4_lib_lite.Signals.Catching.{heard_hup, heard_int, hookup_handler-catches}

hookup_handler-catches_example :
    (t : Process) × (run_events (hooks true true ∷ comes sigint ∷ []) new_process ≡ some t)
    × (t.got_sighup ≡ heard_hup false (comes sigint ∷ []))
    × (t.got_sigint ≡ heard_int false (comes sigint ∷ []))
hookup_handler-catches_example = hookup_handler-catches (comes sigint ∷ []) tt
