-- ===== src/L2/Datagram.antt =====
-- What a sender puts into a datagram, and what the receiver owes to it: the messages one by one, each
-- counted, and forwarded if its code is wanted. The receiver's loop does that.
use s4_lib_lite.Prelude.{
  ℕ, ◌+◌, ◌/◌, ◌%◌, ◌≡◌, ◌++◌, List, [], ◌∷◌, Option, none, some, Bytes, Bool, true, false, length,
  if◌then◌else◌,
}
use s4_lib_lite.L2.Layout.{source_ssh, source_ssz}
use s4_lib_lite.L2.Stats.{
  Kind, instrument_snap, index_snap, option_snap, fund_snap, order, execution, instrument_snapx5,
  fund_snapx5, index_snapx5, option_snapx5, heartbeat, count_recv, count_live,
}
use s4_lib_lite.L2.Wire.{market_data, Outcome, done, ◌>>=◌, contains, Memory, live_code, bool_count}
use s4_lib_lite.L2.Receiver.{Sink, Receiver, sent}

pub data Exchange : Type 0 where
  ssh ssz : Exchange

abbrev pub source_code : Exchange → ℕ
source_code ssh = source_ssh
source_code ssz = source_ssz

-- The type numbers of sbe_ssh.h and sbe_ssz.h.
abbrev pub type_code : Kind → ℕ
type_code instrument_snap = 111
type_code index_snap = 11
type_code option_snap = 13
type_code fund_snap = 12
type_code order = 192
type_code execution = 191
type_code instrument_snapx5 = 2
type_code fund_snapx5 = 4
type_code index_snapx5 = 10
type_code option_snapx5 = 31
type_code heartbeat = 1

-- The length of a message of each kind on each exchange's feed, where that feed has it.
abbrev pub wire_size : Kind → Exchange → Option ℕ
wire_size instrument_snap ssh = some 336
wire_size instrument_snap ssz = some 352
wire_size index_snap ssh = some 88
wire_size index_snap ssz = some 96
wire_size option_snap ssh = none
wire_size option_snap ssz = some 360
wire_size fund_snap ssh = none
wire_size fund_snap ssz = some 352
wire_size order ssh = some 56
wire_size order ssz = some 48
wire_size execution ssh = some 64
wire_size execution ssz = some 64
wire_size instrument_snapx5 ssh = some 200
wire_size instrument_snapx5 ssz = none
wire_size fund_snapx5 ssh = some 208
wire_size fund_snapx5 ssz = none
wire_size index_snapx5 ssh = some 80
wire_size index_snapx5 ssz = none
wire_size option_snapx5 ssh = some 224
wire_size option_snapx5 ssz = none
wire_size heartbeat ssh = some 24
wire_size heartbeat ssz = some 24

-- A message: the security's code as text, and the bytes that follow its terminating NUL.
pub record Message : Type 0 where
  pub kind : Kind
  pub exchange : Exchange
  pub size : ℕ
  pub security_id : Bytes
  pub rest : Bytes

abbrev pub encode : Message → Bytes
encode m =
    source_code m.exchange
    ∷ type_code m.kind
    ∷ m.size % 256
    ∷ m.size / 256
    ∷ (m.security_id ++ 0 ∷ m.rest)

abbrev pub encode_all : List Message → Bytes
encode_all [] = []
encode_all (m ∷ ms) = encode m ++ encode_all ms

-- The exchange sends messages of this kind, and this is their length.
pub record IsMessage (m : Message) : Type 0 where
  pub on_wire : wire_size m.kind m.exchange ≡ some m.size
  pub complete : length (encode m) ≡ m.size

abbrev pub AllMessages : List Message → Type 0
AllMessages [] = Unit {0}
AllMessages (m ∷ ms) = IsMessage m × AllMessages ms

-- The bytes stand in memory from the offset on.
abbrev pub IsAt : Memory → ℕ → Bytes → Type 0
IsAt buf p [] = Unit {0}
IsAt buf p (b ∷ bs) = (buf p ≡ b) × IsAt buf (p + 1) bs

-- The code that the message is about.
abbrev pub code_of : Message → ℕ
code_of m = live_code (source_code m.exchange) (m.security_id ++ 0 ∷ [])

module _ {k : Sink} where
  -- A message is forwarded whole if its code is wanted, with the time of the datagram.
  abbrev pub forward : Message → Receiver k → Outcome (Bool × Receiver k)
  forward m r =
      if contains r.live_list (code_of m)
      then (do
        t ← sent r (
            k.send (record { data_len = m.size; local_time_ms = r.stats.last_frame_time_ms })
              (market_data (encode m)) r.queue)
        done (true, t))
      else done (false, r)

  -- A message is counted, and counted again if it was forwarded; a heartbeat is only counted.
  unfoldable pub deliver_as :
      Kind → (Receiver k → Outcome (Bool × Receiver k)) → Receiver k → Outcome (Receiver k)
  deliver_as heartbeat fwd r = done (record r { stats = count_recv heartbeat r.stats })
  deliver_as kind fwd r = do
    t ← fwd (record r { stats = count_recv kind r.stats })
    done (record (t.1) { stats = count_live kind (bool_count t.0) t.1.stats })

  -- What the receiver owes to one message, and to a row of them.
  unfoldable pub deliver : Message → Receiver k → Outcome (Receiver k)
  unfolding deliver_as
  deliver m r = deliver_as m.kind (forward m) r

  unfoldable pub deliver_all : List Message → Receiver k → Outcome (Receiver k)
  unfolding deliver
  deliver_all [] r = done r
  deliver_all (m ∷ ms) r = deliver m r >>= λ t. deliver_all ms t
