-- ===== src/L2/Control.antt =====
-- `L2_udp_recver_th_native::start` and `stop`, as they are built for Linux. What the calls of SockUtil
-- and of the system came back with is given, and those that succeeded are kept in their order.
use s4_lib_lite.Prelude.{
  ℕ, ◌≡◌, refl, Bool, true, false, not, List, [], ◌∷◌, Bytes, if◌then◌else◌, arith,
}
use s4_lib_lite.L2.Stats.{Stats, no_stats}

-- A socket that is bound or closed, its receive buffer that is set, a group that it joins, and a route
-- that is added or deleted: to the group, by the local address.
pub data NetCall : Type 0 where
  opened closed buffer_set : NetCall
  group_joined : Bytes → NetCall
  route_added route_deleted : Bytes → Bytes → NetCall

-- Whether the calls succeed: `bindUdpSock`, `addRouteViaIP`, `joinMultiAddr` and `setRecvBuf`, and
-- whether `isMulticastAddress` holds of the address. A failure of `setRecvBuf` is only logged.
pub record Answers : Type 0 where
  pub is_multicast : Bool
  pub bound : Bool
  pub routed : Bool
  pub joined : Bool
  pub resized : Bool

-- `_pThread`, whether `_fd` is a socket, `_localIp` and `_multicastIp`, `_stats`, and the calls that
-- succeeded, newest first.
pub record Control : Type 0 where
  pub running : Bool
  pub has_socket : Bool
  pub local_ip : Bytes
  pub multicast_ip : Bytes
  pub stats : Stats
  pub calls : List NetCall

-- The socket is bound, or `_fd` is negative.
abbrev pub bind_socket : Bool → Control → Control
bind_socket true s = record s { has_socket = true; calls = opened ∷ s.calls }
bind_socket false s = record s { has_socket = false }

abbrev pub set_buffer : Bool → List NetCall → List NetCall
set_buffer resized calls = if resized then buffer_set ∷ calls else calls

-- The end of `start`, once there is a socket: the thread is made.
abbrev pub launch : Bool → Bytes → Bytes → Control → Bool × Control
launch resized multicast local s =
    if s.has_socket
    then (
      true,
      record s {
        running = true;
        local_ip = local;
        multicast_ip = multicast;
        calls = set_buffer resized s.calls;
      },
    )
    else (false, s)

-- The part for a multicast address.
abbrev pub join_group : Answers → Bytes → Bytes → Control → Bool × Control
join_group a multicast local s =
    if not s.has_socket
    then (false, s)
    else if not a.routed
    then (false, record s { local_ip = []; multicast_ip = [] })
    else if not a.joined
    then (
      false,
      record s {
        local_ip = local;
        multicast_ip = multicast;
        calls = route_added multicast local ∷ s.calls;
      },
    )
    else launch a.resized multicast local
        (record s { calls = group_joined multicast ∷ route_added multicast local ∷ s.calls })

unfoldable pub start : Answers → Bytes → Bytes → Control → Bool × Control
start a multicast local s =
    if s.running
    then (false, s)
    else (let bound =
          bind_socket a.bound (record s { stats = no_stats; local_ip = []; multicast_ip = [] }) in
        if a.is_multicast
        then join_group a multicast local bound
        else launch a.resized multicast local bound)

-- The route that `stop` asks to delete, unless there is no address. A failure is only logged.
abbrev pub drop_route : Bool → Bytes → Bytes → List NetCall → List NetCall
drop_route deleted [] local calls = calls
drop_route deleted (b ∷ bs) local calls =
    if deleted then route_deleted (b ∷ bs) local ∷ calls else calls

-- `stop`, which always returns true, with whether `delRouteViaIP` succeeds; the thread closes the socket
-- before it is joined.
unfoldable pub stop : Bool → Control → Control
stop deleted s =
    if s.running
    then record s {
      running = false;
      has_socket = false;
      calls = drop_route deleted s.multicast_ip s.local_ip (closed ∷ s.calls);
    }
    else s

-- From a state without a thread, when a route is added to a multicast address and the group then
-- cannot be joined, `start` returns false, and after a `stop` the socket is still bound and the route
-- still added.
start-refused :
    (a : Answers) (deleted : Bool) (multicast local : Bytes) (s : Control)
    → s.running ≡ false
    → a.is_multicast ≡ true
    → a.bound ≡ true
    → a.routed ≡ true
    → a.joined ≡ false
    → ((start a multicast local s).0 ≡ false)
      × ((stop deleted (start a multicast local s).1).calls
          ≡ route_added multicast local ∷ opened ∷ s.calls)
unfolding start stop
start-refused a deleted multicast local s idle multi bound routed joined =
    rw (idle, multi, bound, routed, joined) (refl, refl)

-- From a state without a thread, for an address that is neither empty nor multicast, whenever `start`
-- returns true and the buffer is not set, the calls of it and of a `stop` after it are: bind the
-- socket, close the socket, and, if that succeeds, delete a route that was not added.
start-stop_unicast :
    (a : Answers) (b : ℕ) (bs local : Bytes) (s t : Control)
    → s.running ≡ false
    → a.is_multicast ≡ false
    → a.resized ≡ false
    → start a (b ∷ bs) local s ≡ (true, t)
    → (stop true t).calls ≡ route_deleted (b ∷ bs) local ∷ closed ∷ opened ∷ s.calls
unfolding start stop
start-stop_unicast a b bs local s t idle multi no_buffer e =
    ground (arith, idle, multi, no_buffer, e)
