-- ===== src/L2/Wire.antt =====
-- What the receiving thread reads and keeps: the messages of the feed as they stand in memory, the
-- tests of `recv_thread`, the code of `liveTrans`, and the set of codes that are forwarded.
use s4_lib_lite.Prelude.{
  ℕ, zero, suc, ◌+◌, ◌*◌, ◌%◌, Bool, true, false, ◌&&◌, ◌||◌, List, [], ◌∷◌, Option, none, some,
  Bytes, leb, ◌==◌, if◌then◌else◌,
}
use s4_lib_lite.Prelude.Decimal.{u32_mod}
use s4_lib_lite.Prelude.Atoi.{atoi}
use s4_lib_lite.MktCode.Convert.{sh_prb, sz_prb}
use s4_lib_lite.L2.Layout.{
  size_of, source_ssh, source_ssz, ssh_header, ssh_instrument_snap, ssh_index_snap, ssh_ord,
  ssh_exe, ssh_instrument_snapx5, ssh_fund_snapx5, ssh_index_snapx5, ssh_option_snapx5,
  ssz_instrument_snap, ssz_index_snap, ssz_ord, ssz_exe, ssz_option_snap, ssz_fund_snap,
}
use s4_lib_lite.L2.Stats.{
  Stats, Kind, instrument_snap, index_snap, option_snap, fund_snap, order, execution,
  instrument_snapx5, fund_snapx5, index_snapx5, option_snapx5, heartbeat,
}

-- `L2DataInfo_t` with the contents of the frame: a message as it came, or the statistics.
pub data Payload : Type 0 where
  market_data : Bytes → Payload
  stats_data : Stats → Payload

pub record Info : Type 0 where
  pub data_len : ℕ
  pub local_time_ms : ℕ

-- `live_cmd_t`
pub record LiveCmd : Type 0 where
  pub add : Bool
  pub code : ℕ

-- What a call ends with: its value, the end of the process by an exception or a null pointer, or
-- no end within the fuel.
pub data Outcome {ℓ} (A : Type ℓ) : Type ℓ where
  done : A → Outcome A
  crashed stuck : Outcome A

infixl 5 ◌>>=◌
abbrev pub ◌>>=◌ {ℓ κ} : {A : Type ℓ} {B : Type κ} → Outcome A → (A → Outcome B) → Outcome B
done a >>= f = f a
crashed >>= f = crashed
stuck >>= f = stuck

-- `std::set`: the codes, each once.
unfoldable pub contains : List ℕ → ℕ → Bool
contains [] c = false
contains (x ∷ xs) c = x == c || contains xs c

unfoldable pub insert : ℕ → List ℕ → List ℕ
unfolding contains
insert c xs = if contains xs c then xs else c ∷ xs

unfoldable pub erase : ℕ → List ℕ → List ℕ
erase c [] = []
erase c (x ∷ xs) = if x == c then erase c xs else x ∷ erase c xs

-- The fields of `SBE_SSH_header_t` at the offset `p`, little-endian.
abbrev pub Memory : Type 0
Memory = ℕ → ℕ

abbrev pub security_id_source : Memory → ℕ → ℕ
security_id_source buf p = buf p

abbrev pub msg_type : Memory → ℕ → ℕ
msg_type buf p = buf (p + 1)

abbrev pub msg_len : Memory → ℕ → ℕ
msg_len buf p = buf (p + 2) + 256 * buf (p + 3)

unfoldable pub read_bytes : Memory → ℕ → ℕ → Bytes
read_bytes buf p zero = []
read_bytes buf p (suc n) = buf p ∷ read_bytes buf (p + 1) n

abbrev pub buffer_size : ℕ
buffer_size = 4096

-- The labels of the switch.
unfoldable pub kind_of : ℕ → Option Kind
kind_of t =
    if t == 111
    then some instrument_snap
    else if t == 11
    then some index_snap
    else if t == 13
    then some option_snap
    else if t == 12
    then some fund_snap
    else if t == 192
    then some order
    else if t == 191
    then some execution
    else if t == 2
    then some instrument_snapx5
    else if t == 4
    then some fund_snapx5
    else if t == 10
    then some index_snapx5
    else if t == 31
    then some option_snapx5
    else if t == 1
    then some heartbeat
    else none

-- `pH->SecurityIDSource == source && pH->MsgLen == sizeof(T) && len >= (int)sizeof(T)`
abbrev pub fits : ℕ → ℕ → ℕ → ℕ → ℕ → Bool
fits source size src mlen len = src == source && (mlen == size && leb size len)

-- The test of each case.
unfoldable pub accepts : Kind → ℕ → ℕ → ℕ → Bool
unfolding ssh_instrument_snap ssz_instrument_snap ssh_index_snap ssz_index_snap ssz_option_snap
    ssz_fund_snap ssh_ord ssz_ord ssh_exe ssz_exe ssh_instrument_snapx5 ssh_fund_snapx5
    ssh_index_snapx5 ssh_option_snapx5
accepts instrument_snap src mlen len =
    fits source_ssh (size_of ssh_instrument_snap) src mlen len
    || fits source_ssz (size_of ssz_instrument_snap) src mlen len
accepts index_snap src mlen len =
    fits source_ssh (size_of ssh_index_snap) src mlen len
    || fits source_ssz (size_of ssz_index_snap) src mlen len
accepts option_snap src mlen len = fits source_ssz (size_of ssz_option_snap) src mlen len
accepts fund_snap src mlen len = fits source_ssz (size_of ssz_fund_snap) src mlen len
accepts order src mlen len =
    fits source_ssh (size_of ssh_ord) src mlen len || fits source_ssz (size_of ssz_ord) src mlen len
accepts execution src mlen len =
    fits source_ssh (size_of ssh_exe) src mlen len || fits source_ssz (size_of ssz_exe) src mlen len
accepts instrument_snapx5 src mlen len =
    fits source_ssh (size_of ssh_instrument_snapx5) src mlen len
accepts fund_snapx5 src mlen len = fits source_ssh (size_of ssh_fund_snapx5) src mlen len
accepts index_snapx5 src mlen len = fits source_ssh (size_of ssh_index_snapx5) src mlen len
accepts option_snapx5 src mlen len = fits source_ssh (size_of ssh_option_snapx5) src mlen len
accepts heartbeat src mlen len =
    (src == source_ssh || src == source_ssz)
    && (mlen == size_of ssh_header && leb (size_of ssh_header) len)

-- `code` of `liveTrans`, from the source and the bytes from SecurityID on.
unfoldable pub live_code : ℕ → Bytes → ℕ
unfolding atoi
live_code src id =
    if src == source_ssh then (atoi id + sh_prb) % u32_mod else (atoi id + sz_prb) % u32_mod

-- A bool that is added to a counter.
abbrev pub bool_count : Bool → ℕ
bool_count true = 1
bool_count false = 0

-- The loop over the commands taken from the queue.
unfoldable pub run_cmds : List LiveCmd → List ℕ → List ℕ
unfolding insert erase
run_cmds [] live = live
run_cmds (c ∷ cs) live = run_cmds cs (if c.add then insert c.code live else erase c.code live)
