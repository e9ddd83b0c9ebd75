-- ===== src/L2/Counting.antt =====
-- What the counters say after a datagram.
use s4_lib_lite.Prelude.{
  ℕ, ◌+◌, ◌%◌, ◌^◌, ◌≡◌, refl, ap, ◌∙◌, sym, List, [], ◌∷◌, Bool, length, arith, subst,
  if◌then◌else◌, ◌==◌,
}
use native.Mathlib.Nat.{le_refl}
use s4_lib_lite.L2.Stats.{
  Stats, Kind, instrument_snap, index_snap, option_snap, fund_snap, order, execution,
  instrument_snapx5, fund_snapx5, index_snapx5, option_snapx5, heartbeat, count_recv, count_live,
  add64,
}
use s4_lib_lite.L2.Wire.{Outcome, done, crashed, stuck, ◌>>=◌, Memory, bool_count}
use s4_lib_lite.L2.Receiver.{Sink, Receiver, on_received}
use s4_lib_lite.L2.Datagram.{
  type_code, Message, encode_all, IsMessage, AllMessages, IsAt, forward, deliver_as, deliver,
  deliver_all,
}
use s4_lib_lite.L2.Refinement.{frame_loop-deliver_all}

-- The counter of the messages of a kind.
abbrev pub recv_count : Kind → Stats → ℕ
recv_count instrument_snap s = s.recv_instrument_snap_cnt
recv_count index_snap s = s.recv_index_snap_cnt
recv_count option_snap s = s.recv_option_snap_cnt
recv_count fund_snap s = s.recv_fund_snap_cnt
recv_count order s = s.recv_order_cnt
recv_count execution s = s.recv_exec_cnt
recv_count instrument_snapx5 s = s.recv_instrument_snapx5_cnt
recv_count fund_snapx5 s = s.recv_fund_snapx5_cnt
recv_count index_snapx5 s = s.recv_index_snapx5_cnt
recv_count option_snapx5 s = s.recv_option_snapx5_cnt
recv_count heartbeat s = s.recv_heartbeat_cnt

-- How many of the messages are of a kind; kinds differ by their type numbers.
abbrev pub count_kind : Kind → List Message → ℕ
count_kind k [] = 0
count_kind k (m ∷ ms) = (if type_code m.kind == type_code k then 1 else 0) + count_kind k ms

-- What a step does to the counters of received messages, and to the rest that it has to keep.
record Counts (k : Kind) (n : ℕ) (s t : Stats) : Type 0 where
  received : recv_count k t % 2 ^ 64 ≡ (recv_count k s + n) % 2 ^ 64
  unknown_same : t.recv_unknown_cnt ≡ s.recv_unknown_cnt
  frames_same : t.recv_frame_cnt ≡ s.recv_frame_cnt

Counts-trans :
    (k : Kind) (m n : ℕ) (s t u : Stats) → Counts k m s t → Counts k n t u → Counts k (m + n) s u
Counts-trans k m n s t u c d = record {
  received = omega (arith, c.received, d.received);
  unknown_same = d.unknown_same ∙ c.unknown_same;
  frames_same = d.frames_same ∙ c.frames_same;
}

count_recv-Counts :
    (j k : Kind) (s : Stats)
    → Counts k (if type_code j == type_code k then 1 else 0) s (count_recv j s)
unfolding count_recv
count_recv-Counts instrument_snap k s = record {
  received = ground arith;
  unknown_same = refl;
  frames_same = refl;
}
count_recv-Counts _ k s = record {
  received = ground arith;
  unknown_same = refl;
  frames_same = refl;
}

count_live-Counts : (j k : Kind) (n : ℕ) (s : Stats) → Counts k 0 s (count_live j n s)
unfolding count_live
count_live-Counts instrument_snap k n s = record {
  received = ground arith;
  unknown_same = refl;
  frames_same = refl;
}
count_live-Counts _ k n s = record {
  received = ground arith;
  unknown_same = refl;
  frames_same = refl;
}

recv_count-frame :
    (k : Kind) (s : Stats) (a b : ℕ)
    → recv_count k (record s { recv_frame_cnt = a; last_frame_time_ms = b }) ≡ recv_count k s
recv_count-frame instrument_snap s a b = refl
recv_count-frame _ s a b = refl

module _ {z : Sink} where
  forward-stats :
      (m : Message) (r : Receiver z) (x : Bool × Receiver z)
      → forward m r ≡ done x
      → x.1.stats ≡ r.stats
  forward-stats m r x e = ground arith

  -- The second count, after the message was forwarded or not.
  counted_again :
      (j k : Kind) (n : ℕ) (s s' : Stats) (t : Receiver z) (o : Outcome (Bool × Receiver z))
      → ((x : Bool × Receiver z) → o ≡ done x → x.1.stats ≡ s')
      → Counts k n s s'
      → (o >>= λ x. done (record (x.1) { stats = count_live j (bool_count x.0) x.1.stats }))
        ≡ done t
      → Counts k n s t.stats
  counted_again j k n s s' t (done x) f c e =
      let same : record (x.1) { stats = count_live j (bool_count x.0) x.1.stats } ≡ t = cc in
      let d = count_live-Counts j k (bool_count x.0) x.1.stats in
      let st = f x refl in
      subst (λ (y : Receiver z). Counts k n s y.stats) same
        (record {
          received = omega (arith, c.received, d.received, ap (recv_count k) st);
          unknown_same =
              d.unknown_same ∙ ap (λ (y : Stats). y.recv_unknown_cnt) st ∙ c.unknown_same;
          frames_same = d.frames_same ∙ ap (λ (y : Stats). y.recv_frame_cnt) st ∙ c.frames_same;
        })
  counted_again j k n s s' t crashed f c e = cc
  counted_again j k n s s' t stuck f c e = cc

  deliver_as-Counts :
      (j k : Kind) (m : Message) (r t : Receiver z)
      → deliver_as j (forward m) r ≡ done t
      → Counts k (if type_code j == type_code k then 1 else 0) r.stats t.stats
  unfolding deliver_as
  deliver_as-Counts heartbeat k m r t e =
      let same : record r { stats = count_recv heartbeat r.stats } ≡ t = cc in
      subst
        (λ (y : Receiver z).
          Counts k (if type_code heartbeat == type_code k then 1 else 0) r.stats y.stats)
        same (count_recv-Counts heartbeat k r.stats)
  deliver_as-Counts instrument_snap k m r t e =
      counted_again instrument_snap k _ r.stats _ t _ (forward-stats m _)
        (count_recv-Counts instrument_snap k r.stats) e
  deliver_as-Counts j k m r t e =
      counted_again j k _ r.stats _ t _ (forward-stats m _) (count_recv-Counts j k r.stats) e

  deliver_all-Counts :
      (k : Kind) (ms : List Message) (r t : Receiver z)
      → deliver_all ms r ≡ done t
      → Counts k (count_kind k ms) r.stats t.stats
  unfolding deliver_all deliver
  deliver_all-Counts k [] r t e =
      let same : r ≡ t = cc in
      subst (λ (y : Receiver z). Counts k 0 r.stats y.stats) same
        (record { received = omega arith; unknown_same = refl; frames_same = refl })
  deliver_all-Counts k (m ∷ ms) r t e =
      bound k m ms r t (deliver m r) refl e (deliver_all-Counts k ms)
    where
      bound :
          (k : Kind) (m : Message) (ms : List Message) (r t : Receiver z) (o : Outcome (Receiver z))
          → deliver m r ≡ o
          → (o >>= λ u. deliver_all ms u) ≡ done t
          → ((u v : Receiver z)
              → deliver_all ms u ≡ done v
              → Counts k (count_kind k ms) u.stats v.stats)
          → Counts k (count_kind k (m ∷ ms)) r.stats t.stats
      bound k m ms r t (done u) d e ih =
          Counts-trans k _ (count_kind k ms) r.stats u.stats t.stats
            (deliver_as-Counts m.kind k m r u d) (ih u t e)
      bound k m ms r t crashed d e ih = cc
      bound k m ms r t stuck d e ih = cc

  -- Whenever the receiver comes through a datagram of at least one message, whatever the buffer holds
  -- behind it, the counter of each kind has grown by the number of its messages of that kind, that of
  -- datagrams by one, each modulo 2 ^ 64, and that of unknown messages has not changed.
  pub on_received-counts :
      (m : Message) (ms : List Message) (buf : Memory) (now : ℕ) (r t : Receiver z) (k : Kind)
      → IsMessage m
      → AllMessages ms
      → IsAt buf 0 (encode_all (m ∷ ms))
      → on_received buf (length (encode_all (m ∷ ms))) now r ≡ done t
      → (recv_count k t.stats % 2 ^ 64 ≡ (recv_count k r.stats + count_kind k (m ∷ ms)) % 2 ^ 64)
        × (t.stats.recv_frame_cnt ≡ (r.stats.recv_frame_cnt + 1) % 2 ^ 64)
        × (t.stats.recv_unknown_cnt ≡ r.stats.recv_unknown_cnt)
  unfolding on_received
  on_received-counts m ms buf now r t k v vs h e =
      let whole = frame_loop-deliver_all m ms _ buf 0 _ v vs h (le_refl _) in
      let c = deliver_all-Counts k (m ∷ ms) _ t (sym whole ∙ e) in
      (
        omega (arith, c.received, recv_count-frame k r.stats (add64 r.stats.recv_frame_cnt 1) now),
        c.frames_same,
        c.unknown_same,
      )
