-- ===== src/Signals/Handler.antt =====
-- include/common/s4signalhandle.h and source/common/s4signalhandle.cpp, as built for POSIX: the flags of
-- `signalhandler_t` and what the process does with its signals.
use s4_lib_lite.Prelude.{List, [], ◌∷◌, Option, none, some, Bool, true, false, if◌then◌else◌}

pub data Signal : Type 0 where
  sighup sigint other : Signal

-- What is set for a signal: `SIG_DFL`, with which SIGHUP and SIGINT end the process, or
-- `handle_signal`.
pub data Action : Type 0 where
  standard ours : Action

pub record Process : Type 0 where
  pub got_sighup : Bool
  pub got_sigint : Bool
  pub already_hooked_up : Bool
  pub on_sighup : Action
  pub on_sigint : Action

abbrev pub new_process : Process
new_process = record {
  got_sighup = false;
  got_sigint = false;
  already_hooked_up = false;
  on_sighup = standard;
  on_sigint = standard;
}

-- What a `sigaction` that succeeds sets; one that fails is logged and changes nothing.
unfoldable pub set_action : Bool → Action → Action → Action
set_action ok new old = if ok then new else old

-- The arguments say whether the two calls of `sigaction` succeed.
unfoldable pub hookup_handler : Bool → Bool → Process → Process
unfolding set_action
hookup_handler hup_ok int_ok s = record s {
  already_hooked_up = true;
  on_sighup = set_action hup_ok ours s.on_sighup;
  on_sigint = set_action int_ok ours s.on_sigint;
}

unfoldable pub unhook_handler : Bool → Bool → Process → Process
unfolding set_action
unhook_handler hup_ok int_ok s =
    if s.already_hooked_up
    then record s {
      already_hooked_up = false;
      on_sighup = set_action hup_ok standard s.on_sighup;
      on_sigint = set_action int_ok standard s.on_sigint;
    }
    else s

unfoldable pub handle_signal : Signal → Process → Process
handle_signal sighup s = record s { got_sighup = true }
handle_signal sigint s = record s { got_sigint = true }
handle_signal other s = s

unfoldable pub dummy_int : Process → Process
dummy_int s = record s { got_sigint = true; got_sighup = true }

-- What is set for a signal that comes; nothing is the end of the process.
unfoldable pub act : Action → Signal → Process → Option Process
unfolding handle_signal
act standard g s = none
act ours g s = some (handle_signal g s)

-- A signal comes. Those that are no concern of the code do nothing.
unfoldable pub deliver : Signal → Process → Option Process
unfolding act
deliver sighup s = act s.on_sighup sighup s
deliver sigint s = act s.on_sigint sigint s
deliver other s = some s

pub data Event : Type 0 where
  comes : Signal → Event
  hooks unhooks : Bool → Bool → Event
  dummies : Event

unfoldable pub on_event : Event → Process → Option Process
unfolding deliver hookup_handler unhook_handler dummy_int
on_event (comes g) s = deliver g s
on_event (hooks a b) s = some (hookup_handler a b s)
on_event (unhooks a b) s = some (unhook_handler a b s)
on_event dummies s = some (dummy_int s)

unfoldable pub run_events : List Event → Process → Option Process
unfolding on_event
run_events [] s = some s
run_events (e ∷ es) s = elim (on_event e s) [ none ↦ none | some t ↦ run_events es t ]
