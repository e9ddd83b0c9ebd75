-- ===== src/L2/Receiver.antt =====
-- `L2_udp_recver_th` and `L2_udp_recver_th_native`: the receiving thread. Its buffer is a function
-- from the offset to the byte, past the datagram too; the producer's side of the frame queue is a
-- parameter, which `L2.Queue` fills with the queue of `SimpleQ`.
use s4_lib_lite.Prelude.{
  ℕ, zero, suc, ◌+◌, ◌-◌, ◌%◌, ◌^◌, Bool, true, false, not, ◌&&◌, List, [], ◌∷◌, Option, none, some,
  length, ltb, if◌then◌else◌,
}
use s4_lib_lite.L2.Stats.{Stats, Kind, heartbeat, add64, count_recv, count_live, count_unknown}
use s4_lib_lite.L2.Wire.{
  Payload, market_data, stats_data, Info, LiveCmd, Outcome, done, crashed, stuck, ◌>>=◌, contains,
  Memory, security_id_source, msg_type, msg_len, read_bytes, buffer_size, kind_of, accepts,
  live_code, bool_count, run_cmds,
}

-- What `recv` comes back with, and the time: a datagram, nothing but an end of the wait (-1),
-- an empty datagram (0), or another error.
pub data Event : Type 0 where
  received : Memory → ℕ → ℕ → Event
  timed_out : ℕ → Option (List LiveCmd) → Event
  empty failed : Event

-- The producer's side of the queue: `P_get_tryBest`, the writing of the frame, and its end. No
-- state is an exception, or the null pointer that the callers do not test for.
pub record Sink : Type 1 where
  pub Queue : Type 0
  pub send : Info → Payload → Queue → Option Queue

module _ (k : Sink) where
  pub record Receiver : Type 0 where
    pub stats : Stats
    pub live_list : List ℕ
    pub report_interval_ms : ℕ
    pub last_report_time_ms : ℕ
    pub queue : k.Queue

module _ {k : Sink} where
  -- The frame that is sent, or the crash.
  abbrev pub sent : Receiver k → Option k.Queue → Outcome (Receiver k)
  sent r none = crashed
  sent r (some q) = done (record r { queue = q })

  -- `liveTrans`, and whether it forwarded the message.
  unfoldable pub live_trans : Memory → ℕ → Receiver k → Outcome (Bool × Receiver k)
  unfolding live_code
  live_trans buf p r =
      if contains r.live_list
        (live_code (security_id_source buf p) (read_bytes buf (p + 4) buffer_size))
      then (do
        t ← sent r (
            k.send (record { data_len = msg_len buf p; local_time_ms = r.stats.last_frame_time_ms })
              (market_data (read_bytes buf p (msg_len buf p))) r.queue)
        done (true, t))
      else done (false, r)

  -- The body of a case whose test holds.
  unfoldable pub accept : Kind → Memory → ℕ → Receiver k → Outcome (Receiver k)
  unfolding live_trans count_recv count_live
  accept heartbeat buf p r = done (record r { stats = count_recv heartbeat r.stats })
  accept kind buf p r = do
    let counted : Receiver k = record r { stats = count_recv kind r.stats }
    trans ← live_trans buf p counted
    done (record (trans.1) { stats = count_live kind (bool_count trans.0) trans.1.stats })

  abbrev pub refuse : Receiver k → Receiver k
  refuse r = record r { stats = count_unknown r.stats }

  -- The `do … while (len > 0)` over the messages of a datagram, from the offset `p` on. Each
  -- message is at least as long as a header, so `len` rounds suffice.
  unfoldable pub frame_loop : ℕ → Memory → ℕ → ℕ → Receiver k → Outcome (Receiver k)
  unfolding kind_of accepts accept count_unknown
  frame_loop zero buf p len r = stuck
  frame_loop (suc fuel) buf p len r = elim (kind_of (msg_type buf p)) [
    | none ↦ done (refuse r)
    | some kind ↦ elim (accepts kind (security_id_source buf p) (msg_len buf p) len) [
      | false ↦ done (refuse r)
      | true ↦ accept kind buf p r >>= λ t. elim (ltb 0 (len - msg_len buf p)) [
        | true ↦ frame_loop fuel buf (p + msg_len buf p) (len - msg_len buf p) t
        | false ↦ done t
      ]
    ]
  ]

  -- `report_stats` at the time `now`; a Stats is 25 numbers of 8 bytes.
  unfoldable pub report_stats : Bool → ℕ → Receiver k → Outcome (Receiver k)
  report_stats force now r =
      if not force && ltb now ((r.last_report_time_ms + r.report_interval_ms) % 2 ^ 64)
      then done r
      else (do
        t ←
            sent r
              (k.send (record { data_len = 200; local_time_ms = now }) (stats_data r.stats) r.queue)
        done (record t { last_report_time_ms = now }))

  -- `proc_cmdQ`: no batch is a queue that is missing or looks empty; else the batch is what
  -- `try_dequeue_bulk` gave, at most eight commands. The loop reads the first of its eight
  -- pointers even if none was given, and that one is null.
  unfoldable pub proc_cmd_q : Option (List LiveCmd) → Receiver k → Outcome (Receiver k)
  unfolding run_cmds
  proc_cmd_q none r = done r
  proc_cmd_q (some []) r = crashed
  proc_cmd_q (some (c ∷ cs)) r =
      let live = run_cmds (c ∷ cs) r.live_list in
      done (record r { live_list = live; stats = record (r.stats) { live_code_nb = length live } })

  unfoldable pub set_report_interval : ℕ → Receiver k → Receiver k
  set_report_interval ms r = record r { report_interval_ms = ms }

  unfoldable pub get_report_interval : Receiver k → ℕ
  get_report_interval r = r.report_interval_ms

  -- A datagram of `len` bytes, at most the size of the buffer.
  unfoldable pub on_received : Memory → ℕ → ℕ → Receiver k → Outcome (Receiver k)
  unfolding frame_loop
  on_received buf len now r = frame_loop len buf 0 len (record r {
    stats = record (r.stats) {
      recv_frame_cnt = add64 r.stats.recv_frame_cnt 1;
      last_frame_time_ms = now;
    };
  })

  -- One round of the loop of `recv_thread`.
  unfoldable pub on_event : Event → Receiver k → Outcome (Receiver k)
  unfolding on_received report_stats proc_cmd_q
  on_event (received buf len now) r = on_received buf len now r
  on_event (timed_out now cmds) r = do t ← report_stats false now r; proc_cmd_q cmds t
  on_event empty r = done r
  on_event failed r = done r

  -- `recv_thread`: the events up to the moment when `_stop` is seen; the last report is at `end`.
  unfoldable pub recv_thread : List Event → ℕ → Receiver k → Outcome (Receiver k)
  unfolding on_event
  recv_thread [] end r = report_stats true end r
  recv_thread (failed ∷ es) end r = report_stats true end r
  recv_thread (e ∷ es) end r = on_event e r >>= λ t. recv_thread es end t
