-- ===== src/Signals/Catching.antt =====
-- While the handlers are hooked up, no SIGHUP and no SIGINT is lost.
use s4_lib_lite.Prelude.{◌≡◌, refl, ◌∙◌, List, [], ◌∷◌, some, Bool, true, false}
use s4_lib_lite.Signals.Handler.{
  Signal, sighup, sigint, other, Action, standard, ours, Process, new_process, set_action,
  hookup_handler, handle_signal, act, Event, comes, hooks, unhooks, dummies, on_event, run_events,
}

-- Nobody unhooks the handlers.
abbrev pub StaysHooked : List Event → Type 0
StaysHooked [] = Unit {0}
StaysHooked (unhooks a b ∷ es) = ⊥
StaysHooked (e ∷ es) = StaysHooked es

-- The flag was set, or a SIGHUP came, or `dummyInt` was called.
abbrev pub heard_hup : Bool → List Event → Bool
heard_hup b [] = b
heard_hup b (comes sighup ∷ es) = heard_hup true es
heard_hup b (dummies ∷ es) = heard_hup true es
heard_hup b (e ∷ es) = heard_hup b es

abbrev pub heard_int : Bool → List Event → Bool
heard_int b [] = b
heard_int b (comes sigint ∷ es) = heard_int true es
heard_int b (dummies ∷ es) = heard_int true es
heard_int b (e ∷ es) = heard_int b es

record IsHooked (s : Process) : Type 0 where
  hup : s.on_sighup ≡ ours
  int : s.on_sigint ≡ ours

acts : (o : Action) (g : Signal) (s : Process) → o ≡ ours → act o g s ≡ some (handle_signal g s)
unfolding act
acts standard g s e = cc
acts ours g s e = refl

run_step :
    (e : Event) (es : List Event) (s t : Process)
    → on_event e s ≡ some t
    → run_events (e ∷ es) s ≡ run_events es t
unfolding run_events
run_step e es s t h = rw (h, run_events) refl

set_ours : (ok : Bool) (o : Action) → o ≡ ours → set_action ok ours o ≡ ours
unfolding set_action
set_ours true o e = refl
set_ours false o e = e

caught :
    (es : List Event) (s : Process)
    → IsHooked s
    → StaysHooked es
    → (t : Process) × (run_events es s ≡ some t)
      × (t.got_sighup ≡ heard_hup s.got_sighup es)
      × (t.got_sigint ≡ heard_int s.got_sigint es)
unfolding run_events
caught [] s h f = (s, refl, refl, refl)
caught (comes sighup ∷ es) s h f =
    let (t, e, a, b) =
      caught es (record s { got_sighup = true }) (record { hup = h.hup; int = h.int }) f in
    (
      t,
      run_step (comes sighup) es s (record s { got_sighup = true })
            (acts s.on_sighup sighup s h.hup)
          ∙ e,
      a,
      b,
    )
caught (comes sigint ∷ es) s h f =
    let (t, e, a, b) =
      caught es (record s { got_sigint = true }) (record { hup = h.hup; int = h.int }) f in
    (
      t,
      run_step (comes sigint) es s (record s { got_sigint = true })
            (acts s.on_sigint sigint s h.int)
          ∙ e,
      a,
      b,
    )
caught (comes other ∷ es) s h f = caught es s h f
caught (hooks x y ∷ es) s h f =
    caught es (hookup_handler x y s)
      (record { hup = set_ours x s.on_sighup h.hup; int = set_ours y s.on_sigint h.int }) f
caught (dummies ∷ es) s h f =
    caught es (record s { got_sigint = true; got_sighup = true })
      (record { hup = h.hup; int = h.int }) f
caught (unhooks x y ∷ es) s h f = absurd f

-- When both handlers were hooked up and nobody unhooks them, whatever else happens, the process
-- goes on; and `getSighup` and `getSigint` then say exactly whether such a signal came or `dummyInt`
-- was called.
pub hookup_handler-catches :
    (es : List Event)
    → StaysHooked es
    → (t : Process) × (run_events (hooks true true ∷ es) new_process ≡ some t)
      × (t.got_sighup ≡ heard_hup false es)
      × (t.got_sigint ≡ heard_int false es)
unfolding run_events
hookup_handler-catches es f =
    caught es (hookup_handler true true new_process) (record { hup = refl; int = refl }) f
