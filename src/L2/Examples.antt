-- ===== src/L2/Examples.antt =====
-- A datagram of an order of Shenzhen and a heartbeat, received by a thread that forwards into a list
-- and by one that forwards into the queue of `SimpleQ`.
use s4_lib_lite.Prelude.{
  ℕ, zero, suc, ◌+◌, ◌%◌, ◌^◌, ◌≤◌, ◌≡◌, ◌≢◌, refl, ap, ◌∙◌, List, [], ◌∷◌, ◌++◌, some, Bytes, true,
  false, length, arith, if◌then◌else◌, inr, ◌⊎◌, codes, ◌==◌,
}
use native.Mathlib.Nat.{le_refl}
use s4_lib_lite.Prelude.Decimal.{print_padded}
use s4_lib_lite.MktCode.Convert.{ok, pure_code_int_to_mkt_code_int}
use s4_lib_lite.SimpleQ.Platform.{one_if}
use s4_lib_lite.SimpleQ.Pool.{handle, to_ptoc, Pool, P_get_try_best, destroy, write_frame}
use s4_lib_lite.SimpleQ.ListPlatform.{lists, lists-IsLawful}
use s4_lib_lite.L2.Layout.{source_ssz, replicate}
use s4_lib_lite.L2.Stats.{no_stats, order, heartbeat}
use s4_lib_lite.L2.Wire.{
  Info, Payload, stats_data, market_data, LiveCmd, done, stuck, crashed, contains, Memory, accepts,
  live_code, read_bytes,
}
use s4_lib_lite.L2.Receiver.{
  Event, received, timed_out, Sink, Receiver, frame_loop, on_received, report_stats, proc_cmd_q,
  recv_thread,
}
use s4_lib_lite.L2.Datagram.{ssz, IsAt, Message, encode, encode_all, IsMessage, deliver_all}
use s4_lib_lite.L2.Refinement.{frame_loop-deliver_all}
use s4_lib_lite.L2.Counting.{recv_count, count_kind, on_received-counts}
use s4_lib_lite.L2.Bounds.{accepts_bounds, recv_thread-ends}
use s4_lib_lite.L2.Commands.{wanted, Once, proc_cmd_q_lem}
use s4_lib_lite.L2.Codes.{live_code-mkt_code}
use s4_lib_lite.L2.Queue.{Frame, send_frame, send_frame_lem}

-- The frames that were sent, in their order.
abbrev ledger : Sink
ledger = record { Queue = List (Info × Payload); send = λ i v q. some (q ++ (i, v) ∷ []) }

abbrev order_message : Message
order_message = record {
  kind = order;
  exchange = ssz;
  size = 48;
  security_id = codes "000001";
  rest = replicate 37 0;
}

abbrev heartbeat_message : Message
heartbeat_message = record {
  kind = heartbeat;
  exchange = ssz;
  size = 24;
  security_id = codes "000000";
  rest = replicate 13 0;
}

abbrev datagram : List Message
datagram = order_message ∷ heartbeat_message ∷ []

abbrev stored : Bytes → Memory
stored [] i = 0
stored (b ∷ bs) zero = b
stored (b ∷ bs) (suc i) = stored bs i

stored-IsAt :
    (bs : Bytes) (buf : Memory) (p : ℕ) → ((i : ℕ) → buf (p + i) ≡ stored bs i) → IsAt buf p bs
stored-IsAt [] buf p h = tt
stored-IsAt (b ∷ bs) buf p h =
    (ap buf (omega arith) ∙ h 0, stored-IsAt bs buf (p + 1) (λ i. ap buf (omega arith) ∙ h (suc i)))

stored-whole : (bs : Bytes) → IsAt (stored bs) 0 bs
stored-whole bs = stored-IsAt bs (stored bs) 0 (λ i. ap (stored bs) (omega arith))

abbrev ready : Receiver ledger
ready = record {
  stats = no_stats;
  live_list = 3300000001 ∷ [];
  report_interval_ms = 1000;
  last_report_time_ms = 0;
  queue = [];
}

order_message-IsMessage : IsMessage order_message
order_message-IsMessage = record { on_wire = refl; complete = refl }

heartbeat_message-IsMessage : IsMessage heartbeat_message
heartbeat_message-IsMessage = record { on_wire = refl; complete = refl }

frame_loop-deliver_all_example :
    frame_loop 72 (stored (encode_all datagram)) 0 (length (encode_all datagram)) ready
    ≡ deliver_all datagram ready
frame_loop-deliver_all_example =
    frame_loop-deliver_all order_message (heartbeat_message ∷ []) 72 (stored (encode_all datagram))
      0 ready order_message-IsMessage (heartbeat_message-IsMessage, tt)
      (stored-whole (encode_all datagram)) (le_refl _)

datagram-accepted : accepts order source_ssz 48 72 ≡ true
unfolding accepts
datagram-accepted = refl

accepts_bounds_example : (24 ≤ 48) × (48 ≤ 360) × (48 ≤ 72)
accepts_bounds_example = accepts_bounds order source_ssz 48 72 datagram-accepted

abbrev commands : List LiveCmd
commands = record { add = true; code = 1700600000 } ∷ record { add = false; code = 1700600000 } ∷ []

abbrev events : List Event
events = received (stored (encode_all datagram)) 72 5 ∷ timed_out 1005 (some commands) ∷ []

recv_thread-ends_example : recv_thread events 2000 ready ≢ stuck
recv_thread-ends_example = recv_thread-ends events 2000 ready (omega arith, (tt, tt))

proc_cmd_q_lem_example :
    ((commands ≡ []) × (proc_cmd_q (some commands) ready ≡ crashed))
    ⊎ ((t : Receiver ledger) × (proc_cmd_q (some commands) ready ≡ done t)
        × ((c : ℕ) → contains t.live_list c ≡ wanted c commands (contains ready.live_list c))
        × Once t.live_list
        × (t.stats ≡ record (ready.stats) { live_code_nb = length t.live_list })
        × (t.queue ≡ ready.queue))
unfolding contains
proc_cmd_q_lem_example = proc_cmd_q_lem commands ready (refl, tt)

abbrev reported : Receiver ledger
reported = record ready {
  last_report_time_ms = 500;
  queue = (record { data_len = 200; local_time_ms = 500 }, stats_data no_stats) ∷ [];
}

ready-reported : report_stats true 500 ready ≡ done reported
unfolding report_stats
ready-reported = refl

first_code : pure_code_int_to_mkt_code_int 1 ≡ ok 3300000001
unfolding pure_code_int_to_mkt_code_int
first_code = refl

live_code-mkt_code_example : live_code source_ssz (print_padded 6 1 ++ 0 ∷ []) ≡ 3300000001
live_code-mkt_code_example =
    live_code-mkt_code source_ssz 1 3300000001 (inr (refl, omega arith)) first_code

abbrev counted : Receiver ledger
counted = record ready {
  stats = record no_stats {
    recv_frame_cnt = 1;
    recv_order_cnt = 1;
    live_order_cnt = 1;
    recv_heartbeat_cnt = 1;
    last_frame_time_ms = 5;
  };
  queue = (record { data_len = 48; local_time_ms = 5 }, market_data (encode order_message)) ∷ [];
}

datagram-counted : on_received (stored (encode_all datagram)) 72 5 ready ≡ done counted
unfolding on_received contains read_bytes
datagram-counted = refl

on_received-counts_example :
    (recv_count order counted.stats % 2 ^ 64
      ≡ (recv_count order ready.stats + count_kind order datagram) % 2 ^ 64)
    × (counted.stats.recv_frame_cnt ≡ (ready.stats.recv_frame_cnt + 1) % 2 ^ 64)
    × (counted.stats.recv_unknown_cnt ≡ ready.stats.recv_unknown_cnt)
on_received-counts_example =
    on_received-counts order_message (heartbeat_message ∷ []) (stored (encode_all datagram)) 5 ready
      counted order order_message-IsMessage (heartbeat_message-IsMessage, tt)
      (stored-whole (encode_all datagram)) datagram-counted

abbrev hello : Payload
hello = market_data (encode heartbeat_message)

abbrev hello_info : Info
hello_info = record { data_len = 24; local_time_ms = 7 }

-- A pool of two frames, and the same after one is sent.
abbrev idle : Pool lists Frame
idle = record {
  page_size = 4096;
  all_memalign = true;
  depth = 4;
  data_pool = 0 ∷ 1 ∷ [];
  data_ptoc = [];
  buffers = 8192 ∷ 4096 ∷ [];
  frames =
      λ a. record { info = record { data_len = 0; local_time_ms = 0 }; payload = market_data [] };
  mem_hoster = (8192, 4096) ∷ (4096, 4096) ∷ [];
}

abbrev busy : Pool lists Frame
busy = record idle {
  data_pool = 1 ∷ [];
  data_ptoc = 0 ∷ [];
  frames = λ a. if 0 == a then record { info = hello_info; payload = hello } else idle.frames a;
}

hello-sent : send_frame lists hello_info hello idle ≡ some busy
unfolding send_frame P_get_try_best destroy write_frame
hello-sent = refl

send_frame_lem_example :
    (q : Pool lists Frame) × (send_frame lists hello_info hello idle ≡ some q)
    × (a : ℕ) × (q.frames a ≡ record { info = hello_info; payload = hello })
    × ((b : ℕ)
        → lists-IsLawful.holds b q.data_ptoc ≡ lists-IsLawful.holds b idle.data_ptoc + one_if b a)
unfolding P_get_try_best
send_frame_lem_example =
    send_frame_lem lists-IsLawful hello_info hello idle (handle 0 to_ptoc) (λ x c e. cc) refl
      (omega arith)
