-- ===== src/L2/Refinement.antt =====
-- The loop of the receiving thread does to a datagram what the receiver owes to its messages.
use s4_lib_lite.Prelude.{
  ℕ, zero, suc, ◌+◌, ◌-◌, ◌/◌, ◌%◌, ◌≤◌, ◌<◌, ◌≡◌, refl, ap, sym, ◌∙◌, ◌++◌, List, [], ◌∷◌, some,
  Bytes, Bool, true, false, length, length-append, ltb, lt→ltb, arith, subst,
}
use mathlib.Core.List.{append_assoc}
use native.Mathlib.Nat.{add-zero}
use s4_lib_lite.Prelude.Atoi.{atoi-nul}
use s4_lib_lite.L2.Stats.{Kind, instrument_snap, heartbeat}
use s4_lib_lite.L2.Wire.{
  Outcome, done, crashed, stuck, ◌>>=◌, Memory, security_id_source, msg_type, msg_len, read_bytes,
  buffer_size, kind_of, accepts, live_code,
}
use s4_lib_lite.L2.Receiver.{Sink, Receiver, live_trans, accept, frame_loop}
use s4_lib_lite.L2.Datagram.{
  Exchange, ssh, source_code, type_code, wire_size, Message, encode, encode_all, IsMessage,
  AllMessages, IsAt, code_of, forward, deliver_as, deliver, deliver_all,
}

IsAt-append :
    (buf : Memory) (p : ℕ) (xs ys : Bytes)
    → IsAt buf p (xs ++ ys)
    → IsAt buf p xs × IsAt buf (p + length xs) ys
IsAt-append buf p [] ys h = (tt, rw add-zero h)
IsAt-append buf p (x ∷ xs) ys h =
    let ih = IsAt-append buf (p + 1) xs ys h.1 in
    ((h.0, ih.0), subst (λ q. IsAt buf q ys) (omega arith) ih.1)

read_bytes-IsAt :
    (buf : Memory) (p : ℕ) (xs : Bytes) → IsAt buf p xs → read_bytes buf p (length xs) ≡ xs
unfolding read_bytes
read_bytes-IsAt buf p [] h = refl
read_bytes-IsAt buf p (x ∷ xs) h = rw (h.0, read_bytes-IsAt buf (p + 1) xs h.1)

-- A read that goes on behind the bytes begins with them.
read_bytes-longer :
    (buf : Memory) (p n : ℕ) (xs : Bytes)
    → IsAt buf p xs
    → length xs ≤ n
    → (more : Bytes) × (read_bytes buf p n ≡ xs ++ more)
unfolding read_bytes
read_bytes-longer buf p n [] h l = (read_bytes buf p n, refl)
read_bytes-longer buf p zero (x ∷ xs) h l = absurd (omega arith)
read_bytes-longer buf p (suc n) (x ∷ xs) h l =
    let (more, e) = read_bytes-longer buf (p + 1) n xs h.1 (omega arith) in (more, rw (h.0, e))

kind_of-type_code : (kind : Kind) → kind_of (type_code kind) ≡ some kind
unfolding kind_of
kind_of-type_code instrument_snap = refl
kind_of-type_code _ = refl

-- The tests of the switch accept every message that an exchange sends.
wire_size-accepts :
    (kind : Kind) (e : Exchange) (n len : ℕ)
    → wire_size kind e ≡ some n
    → n ≤ len
    → accepts kind (source_code e) n len ≡ true
unfolding accepts
wire_size-accepts instrument_snap ssh n len h l = ground arith
wire_size-accepts _ _ n len h l = ground arith

-- Of the fields that the receiver reads, and of the bytes that it forwards.
record Reads (buf : Memory) (p : ℕ) (m : Message) : Type 0 where
  source_is : security_id_source buf p ≡ source_code m.exchange
  type_is : msg_type buf p ≡ type_code m.kind
  len_is : msg_len buf p ≡ m.size
  bytes_are : read_bytes buf p m.size ≡ encode m
  code_is : live_code (source_code m.exchange) (read_bytes buf (p + 4) buffer_size) ≡ code_of m

live_code-nul :
    (src : ℕ) (id more : Bytes) → live_code src (id ++ 0 ∷ more) ≡ live_code src (id ++ 0 ∷ [])
unfolding live_code
live_code-nul src id more = rw (atoi-nul id more)

wire_size-le :
    (kind : Kind) (e : Exchange) (n : ℕ) → wire_size kind e ≡ some n → (24 ≤ n) × (n ≤ 360)
wire_size-le instrument_snap ssh n h = ground arith
wire_size-le _ _ n h = ground arith

-- The bytes of the text of the code, and what follows them.
code-IsAt :
    (buf : Memory) (p : ℕ) (m : Message)
    → IsMessage m
    → IsAt buf (p + 4) (m.security_id ++ 0 ∷ m.rest)
    → live_code (source_code m.exchange) (read_bytes buf (p + 4) buffer_size) ≡ code_of m
code-IsAt buf p m v h =
    let size : m.size ≤ 360 = (wire_size-le m.kind m.exchange m.size v.on_wire).1 in
    let (more, e) =
      read_bytes-longer buf (p + 4) buffer_size (m.security_id ++ 0 ∷ m.rest) h
        (omega (arith, v.complete)) in
    let src = source_code m.exchange in
    ap (live_code src) (e ∙ append_assoc m.security_id (0 ∷ m.rest) more)
    ∙ live_code-nul src m.security_id (m.rest ++ more)

message-Reads :
    (buf : Memory) (p : ℕ) (m : Message) → IsMessage m → IsAt buf p (encode m) → Reads buf p m
message-Reads buf p m v h =
    let low : buf (p + 2) ≡ m.size % 256 =
      subst (λ q. buf q ≡ m.size % 256) (omega arith) h.1.1.0 in
    let high : buf (p + 3) ≡ m.size / 256 =
      subst (λ q. buf q ≡ m.size / 256) (omega arith) h.1.1.1.0 in
    record {
      source_is = h.0;
      type_is = h.1.0;
      len_is = omega (arith, low, high);
      bytes_are = ap (read_bytes buf p) (sym v.complete) ∙ read_bytes-IsAt buf p (encode m) h;
      code_is =
          code-IsAt buf p m v
            (subst (λ q. IsAt buf q (m.security_id ++ 0 ∷ m.rest)) (omega arith) h.1.1.1.1);
    }

module _ {k : Sink} where
  >>=-congr :
      (o : Outcome (Receiver k)) {f g : Receiver k → Outcome (Receiver k)}
      → ((r : Receiver k) → f r ≡ g r)
      → (o >>= f) ≡ (o >>= g)
  >>=-congr (done r) h = h r
  >>=-congr crashed h = refl
  >>=-congr stuck h = refl

  live_trans-forward :
      (buf : Memory) (p : ℕ) (m : Message) (r : Receiver k)
      → Reads buf p m
      → live_trans buf p r ≡ forward m r
  unfolding live_trans
  live_trans-forward buf p m r h = rw (h.source_is, h.code_is, h.len_is, h.bytes_are)

  accept-deliver_as :
      (kind : Kind) (buf : Memory) (p : ℕ) (fwd : Receiver k → Outcome (Bool × Receiver k))
      (r : Receiver k)
      → ((t : Receiver k) → live_trans buf p t ≡ fwd t)
      → accept kind buf p r ≡ deliver_as kind fwd r
  unfolding accept deliver_as
  accept-deliver_as heartbeat buf p fwd r h = refl
  accept-deliver_as instrument_snap buf p fwd r h = rw h
  accept-deliver_as _ buf p fwd r h = rw h

  accept-deliver :
      (buf : Memory) (p : ℕ) (m : Message) (r : Receiver k)
      → Reads buf p m
      → accept m.kind buf p r ≡ deliver m r
  unfolding deliver
  accept-deliver buf p m r h =
      accept-deliver_as m.kind buf p (forward m) r (λ t. live_trans-forward buf p m t h)

  -- What follows a message of `n` bytes.
  abbrev next_round : ℕ → Memory → ℕ → ℕ → ℕ → Receiver k → Outcome (Receiver k)
  next_round fuel buf p len n t = elim (ltb 0 (len - n)) [
    | true ↦ frame_loop fuel buf (p + n) (len - n) t
    | false ↦ done t
  ]

  next_round-last :
      (fuel : ℕ) (buf : Memory) (p len n : ℕ)
      → len ≡ n
      → (t : Receiver k) → next_round fuel buf p len n t ≡ done t
  next_round-last fuel buf p len n e t =
      let over : ltb 0 (len - n) ≡ false = ground arith in rw (over, next_round)

  next_round-more :
      (fuel : ℕ) (buf : Memory) (p len n rest : ℕ) (t : Receiver k)
      → len ≡ n + rest
      → 0 < rest
      → next_round fuel buf p len n t ≡ frame_loop fuel buf (p + n) rest t
  next_round-more fuel buf p len n rest t e h =
      let left : len - n ≡ rest = omega arith in
      rw (left, next_round) (rw (lt→ltb 0 rest h, next_round) (rw left))

  -- One round of the loop over a message that stands at `p`.
  round :
      (fuel : ℕ) (buf : Memory) (p len : ℕ) (m : Message) (r : Receiver k)
      → IsMessage m
      → Reads buf p m
      → m.size ≤ len
      → frame_loop (suc fuel) buf p len r
        ≡ (deliver m r >>= λ t. next_round fuel buf p len m.size t)
  unfolding frame_loop
  round fuel buf p len m r v h l =
      rw (h.type_is, kind_of-type_code m.kind, frame_loop)
        (rw
          (
            h.source_is,
            h.len_is,
            wire_size-accepts m.kind m.exchange m.size len v.on_wire l,
            frame_loop,
          )
          (ap (λ n. accept m.kind buf p r >>= λ t. next_round fuel buf p len n t) h.len_is
            ∙ ap (λ o. o >>= λ t. next_round fuel buf p len m.size t) (accept-deliver buf p m r h)))

  -- With at least as many rounds as bytes, the loop over a datagram of one or more messages, whatever
  -- the buffer holds behind them, does what the receiver owes to those messages one by one.
  pub frame_loop-deliver_all :
      (m : Message) (ms : List Message) (fuel : ℕ) (buf : Memory) (p : ℕ) (r : Receiver k)
      → IsMessage m
      → AllMessages ms
      → IsAt buf p (encode_all (m ∷ ms))
      → length (encode_all (m ∷ ms)) ≤ fuel
      → frame_loop fuel buf p (length (encode_all (m ∷ ms))) r ≡ deliver_all (m ∷ ms) r
  unfolding deliver_all
  frame_loop-deliver_all m ms zero buf p r v vs h l = absurd (omega arith)
  frame_loop-deliver_all m [] (suc fuel) buf p r v vs h l =
      let here = IsAt-append buf p (encode m) [] h in
      let len = length-append (encode m) [] in
      round fuel buf p _ m r v (message-Reads buf p m v here.0) (omega (arith, len, v.complete))
      ∙ >>=-congr (deliver m r)
          (next_round-last fuel buf p _ m.size (omega (arith, len, v.complete)))
  frame_loop-deliver_all m (m' ∷ ms) (suc fuel) buf p r v vs h l =
      let here = IsAt-append buf p (encode m) (encode_all (m' ∷ ms)) h in
      let len = length-append (encode m) (encode_all (m' ∷ ms)) in
      round fuel buf p _ m r v (message-Reads buf p m v here.0) (omega (arith, len, v.complete))
      ∙ >>=-congr (deliver m r) λ t.
        next_round-more fuel buf p _ m.size (length (encode_all (m' ∷ ms))) t
          (omega (arith, len, v.complete)) (omega arith)
        ∙ frame_loop-deliver_all m' ms fuel buf (p + m.size) t vs.0 vs.1
            (subst (λ q. IsAt buf q (encode_all (m' ∷ ms))) (ap (λ n. p + n) v.complete) here.1)
            (omega (arith, len, v.complete))
