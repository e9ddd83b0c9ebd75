-- ===== src/L2/Bounds.antt =====
-- The loop over a datagram on any bytes: it ends, and it counts and forwards nothing that is not
-- wholly in the datagram.
use s4_lib_lite.Prelude.{
  ℕ, zero, suc, ◌+◌, ◌-◌, ◌≤◌, ◌<◌, ◌≡◌, ◌≢◌, refl, List, [], ◌∷◌, Option, none, some, Bool, true,
  false, ltb, arith, inl, inr, Bool-cases, Option-cases,
}
use s4_lib_lite.L2.Stats.{Kind, instrument_snap, heartbeat}
use s4_lib_lite.L2.Wire.{
  Memory, security_id_source, msg_type, msg_len, kind_of, accepts, Outcome, done, crashed, stuck,
  ◌>>=◌, LiveCmd,
}
use s4_lib_lite.L2.Receiver.{
  Event, received, timed_out, empty, failed, Sink, Receiver, sent, live_trans, accept, frame_loop,
  on_received, proc_cmd_q, report_stats, on_event, recv_thread,
}

-- A message that passes the test of its case has from 24 to 360 bytes, and lies wholly in the `len`
-- bytes that are left.
pub accepts_bounds :
    (kind : Kind) (src n len : ℕ) → accepts kind src n len ≡ true → (24 ≤ n) × (n ≤ 360) × (n ≤ len)
unfolding accepts
accepts_bounds instrument_snap src n len h = ground arith
accepts_bounds _ src n len h = ground arith

-- A datagram that `recv` returns with a positive length.
abbrev pub IsEvent : Event → Type 0
IsEvent (received buf len now) = 0 < len
IsEvent (timed_out now cmds) = Unit {0}
IsEvent empty = Unit {0}
IsEvent failed = Unit {0}

abbrev pub AllEvents : List Event → Type 0
AllEvents [] = Unit {0}
AllEvents (e ∷ es) = IsEvent e × AllEvents es

module _ {k : Sink} where
  sent-ends : (r : Receiver k) (q : Option k.Queue) → sent r q ≢ stuck
  sent-ends r none e = cc
  sent-ends r (some q) e = cc

  live_trans-ends : (buf : Memory) (p : ℕ) (r : Receiver k) → live_trans buf p r ≢ stuck
  unfolding live_trans
  live_trans-ends buf p r = ground arith

  accept-ends : (kind : Kind) (buf : Memory) (p : ℕ) (r : Receiver k) → accept kind buf p r ≢ stuck
  unfolding accept
  accept-ends heartbeat buf p r = λ e. cc
  accept-ends instrument_snap buf p r = ground (arith, live_trans-ends buf p)
  accept-ends _ buf p r = ground (arith, live_trans-ends buf p)

  >>=-ends :
      (o : Outcome (Receiver k)) (f : Receiver k → Outcome (Receiver k))
      → o ≢ stuck
      → ((r : Receiver k) → f r ≢ stuck)
      → (o >>= f) ≢ stuck
  >>=-ends (done r) f n h = h r
  >>=-ends crashed f n h = λ e. cc
  >>=-ends stuck f n h = λ e. n refl

  -- Whatever the buffer holds, the loop over a datagram ends within as many rounds as bytes.
  pub frame_loop-ends :
      (fuel : ℕ) (buf : Memory) (p len : ℕ) (r : Receiver k)
      → 0 < len
      → len ≤ fuel
      → frame_loop fuel buf p len r ≢ stuck
  unfolding frame_loop
  frame_loop-ends zero buf p len r h l = absurd (omega arith)
  frame_loop-ends (suc fuel) buf p len r h l = elim (Option-cases (kind_of (msg_type buf p))) [
    | inl e ↦ rw (e, frame_loop) (λ x. cc)
    | inr (kind, e) ↦
        let src = security_id_source buf p in
        let n = msg_len buf p in
        elim (Bool-cases (accepts kind src n len)) [
          | inl a ↦
              rw (e, frame_loop)
                (rw (a, frame_loop)
                  (>>=-ends (accept kind buf p r) _ (accept-ends kind buf p r) (λ t.
                    elim (Bool-cases (ltb 0 (len - n))) [
                      | inl more ↦ rw more (
                          frame_loop-ends fuel buf (p + n) (len - n) t (ground arith)
                            (omega (arith, accepts_bounds kind src n len a)))
                      | inr last ↦ rw last (λ x. cc)
                    ])))
          | inr b ↦ rw (e, frame_loop) (rw (b, frame_loop) (λ x. cc))
        ]
  ]

  report_stats-ends : (force : Bool) (now : ℕ) (r : Receiver k) → report_stats force now r ≢ stuck
  unfolding report_stats
  report_stats-ends force now r = ground arith

  proc_cmd_q-ends : (cmds : Option (List LiveCmd)) (r : Receiver k) → proc_cmd_q cmds r ≢ stuck
  unfolding proc_cmd_q
  proc_cmd_q-ends none r e = cc
  proc_cmd_q-ends (some []) r e = cc
  proc_cmd_q-ends (some (c ∷ cs)) r e = cc

  on_event-ends : (e : Event) (r : Receiver k) → IsEvent e → on_event e r ≢ stuck
  unfolding on_event on_received
  on_event-ends (received buf len now) r h = frame_loop-ends len buf 0 len _ h (omega arith)
  on_event-ends (timed_out now cmds) r h =
      >>=-ends (report_stats false now r) _ (report_stats-ends false now r)
        (λ t. proc_cmd_q-ends cmds t)
  on_event-ends empty r h = λ x. cc
  on_event-ends failed r h = λ x. cc

  -- After any events whose datagrams are not empty, whatever these hold, the receiving thread comes
  -- to its end within its rounds: the fuel of no loop runs out.
  pub recv_thread-ends :
      (es : List Event) (end : ℕ) (r : Receiver k) → AllEvents es → recv_thread es end r ≢ stuck
  unfolding recv_thread
  recv_thread-ends [] end r h = report_stats-ends true end r
  recv_thread-ends (received buf len now ∷ es) end r h =
      >>=-ends _ _ (on_event-ends (received buf len now) r h.0) (λ t. recv_thread-ends es end t h.1)
  recv_thread-ends (timed_out now cmds ∷ es) end r h =
      >>=-ends _ _ (on_event-ends (timed_out now cmds) r h.0) (λ t. recv_thread-ends es end t h.1)
  recv_thread-ends (empty ∷ es) end r h =
      >>=-ends _ _ (on_event-ends empty r h.0) (λ t. recv_thread-ends es end t h.1)
  recv_thread-ends (failed ∷ es) end r h = report_stats-ends true end r
