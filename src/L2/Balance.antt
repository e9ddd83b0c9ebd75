-- ===== src/L2/Balance.antt =====
-- A receiver that is started and stopped again and again: the sockets and routes of
-- `L2_udp_recver_th_native::start` and `stop`.
use s4_lib_lite.Prelude.{
  ℕ, ◌+◌, ◌≡◌, ◌≢◌, refl, sym, subst, Bool, true, false, ◌&&◌, List, [], ◌∷◌, Bytes, same_bytes,
  if◌then◌else◌, arith, inl, inr, Bool-cases,
}
use s4_lib_lite.L2.Stats.{no_stats}
use s4_lib_lite.L2.Control.{
  NetCall, opened, closed, buffer_set, group_joined, route_added, route_deleted, Answers, Control,
  start, stop,
}

-- A call of `start` with what the system answers, or one of `stop` with whether the route is deleted.
pub data Command : Type 0 where
  starts : Answers → Bytes → Bytes → Command
  stops : Bool → Command

unfoldable pub obey : Command → Control → Control
unfolding start stop
obey (starts a multicast local) s = (start a multicast local s).1
obey (stops deleted) s = stop deleted s

unfoldable pub obey_all : List Command → Control → Control
unfolding obey
obey_all [] s = s
obey_all (c ∷ cs) s = obey_all cs (obey c s)

abbrev pub new_receiver : Control
new_receiver = record {
  running = false;
  has_socket = false;
  local_ip = [];
  multicast_ip = [];
  stats = no_stats;
  calls = [];
}

-- The commands are for multicast addresses; a start fails at once or not at all, where a failure of
-- `setRecvBuf` is none, and each stop deletes its route.
pub data IsCareful : List Command → Type 0 where
  done : IsCareful []
  start_then :
      {a : Answers} {b : ℕ} {bs local : Bytes} {cs : List Command}
      → a.is_multicast ≡ true
      → a.routed ≡ true
      → a.joined ≡ true
      → IsCareful cs
      → IsCareful (starts a (b ∷ bs) local ∷ cs)
  stop_then : {cs : List Command} → IsCareful cs → IsCareful (stops true ∷ cs)

abbrev pub opened_in : List NetCall → ℕ
opened_in [] = 0
opened_in (opened ∷ cs) = opened_in cs + 1
opened_in (closed ∷ cs) = opened_in cs
opened_in (buffer_set ∷ cs) = opened_in cs
opened_in (group_joined g ∷ cs) = opened_in cs
opened_in (route_added g l ∷ cs) = opened_in cs
opened_in (route_deleted g l ∷ cs) = opened_in cs

abbrev pub closed_in : List NetCall → ℕ
closed_in [] = 0
closed_in (opened ∷ cs) = closed_in cs
closed_in (closed ∷ cs) = closed_in cs + 1
closed_in (buffer_set ∷ cs) = closed_in cs
closed_in (group_joined g ∷ cs) = closed_in cs
closed_in (route_added g l ∷ cs) = closed_in cs
closed_in (route_deleted g l ∷ cs) = closed_in cs

abbrev pub is_route : Bytes → Bytes → Bytes → Bytes → Bool
is_route g l group local = same_bytes g group && same_bytes l local

abbrev pub added_in : Bytes → Bytes → List NetCall → ℕ
added_in g l [] = 0
added_in g l (opened ∷ cs) = added_in g l cs
added_in g l (closed ∷ cs) = added_in g l cs
added_in g l (buffer_set ∷ cs) = added_in g l cs
added_in g l (group_joined h ∷ cs) = added_in g l cs
added_in g l (route_added h m ∷ cs) = (if is_route g l h m then 1 else 0) + added_in g l cs
added_in g l (route_deleted h m ∷ cs) = added_in g l cs

abbrev pub deleted_in : Bytes → Bytes → List NetCall → ℕ
deleted_in g l [] = 0
deleted_in g l (opened ∷ cs) = deleted_in g l cs
deleted_in g l (closed ∷ cs) = deleted_in g l cs
deleted_in g l (buffer_set ∷ cs) = deleted_in g l cs
deleted_in g l (group_joined h ∷ cs) = deleted_in g l cs
deleted_in g l (route_added h m ∷ cs) = deleted_in g l cs
deleted_in g l (route_deleted h m ∷ cs) = (if is_route g l h m then 1 else 0) + deleted_in g l cs

-- One socket is open and one route is there, its own, where the thread runs, and none otherwise.
record IsBalanced (s : Control) : Type 0 where
  sockets : opened_in s.calls ≡ closed_in s.calls + (if s.running then 1 else 0)
  routes :
      (g l : Bytes)
      → added_in g l s.calls
        ≡ deleted_in g l s.calls
          + (if s.running then (if is_route g l s.multicast_ip s.local_ip then 1 else 0) else 0)
  addressed : s.running ≡ true → s.multicast_ip ≢ []

start-IsBalanced :
    (a : Answers) (b : ℕ) (bs local : Bytes) (s : Control)
    → a.is_multicast ≡ true
    → a.routed ≡ true
    → a.joined ≡ true
    → IsBalanced s
    → IsBalanced (start a (b ∷ bs) local s).1
unfolding start
start-IsBalanced a b bs local s multi routed joined v = elim (Bool-cases s.running) [
  | inl on ↦
      let same : (start a (b ∷ bs) local s).1 ≡ s = ground (arith, on) in
      subst IsBalanced (sym same) v
  | inr off ↦ elim (Bool-cases a.bound) [
    | inr gone ↦
        rw (off, multi, gone, start)
          (record {
            sockets = ground (arith, v.sockets, off);
            routes = λ g l. ground (arith, v.routes g l, off);
            addressed = λ e. cc;
          })
    | inl bound ↦ elim (Bool-cases a.resized) [
      | inl big ↦
          rw (off, multi, bound, routed, joined, big, start)
            (record {
              sockets = ground (arith, v.sockets, off);
              routes = λ g l. ground (arith, v.routes g l, off);
              addressed = λ e f. cc;
            })
      | inr small ↦
          rw (off, multi, bound, routed, joined, small, start)
            (record {
              sockets = ground (arith, v.sockets, off);
              routes = λ g l. ground (arith, v.routes g l, off);
              addressed = λ e f. cc;
            })
    ]
  ]
]

-- A stop that deletes the route of its receiver.
stopped-IsBalanced :
    (s : Control) (g : Bytes)
    → s.multicast_ip ≡ g
    → s.running ≡ true
    → IsBalanced s
    → IsBalanced (stop true s)
unfolding stop
stopped-IsBalanced s [] at_g on v = absurd (v.addressed on at_g)
stopped-IsBalanced s (b ∷ bs) at_g on v =
    rw (on, at_g, stop)
      (record {
        sockets = ground (arith, v.sockets, on);
        routes = λ g l. ground (arith, v.routes g l, on, at_g);
        addressed = λ e. cc;
      })

stop-IsBalanced : (s : Control) → IsBalanced s → IsBalanced (stop true s)
unfolding stop
stop-IsBalanced s v = elim (Bool-cases s.running) [
  | inl on ↦ stopped-IsBalanced s s.multicast_ip refl on v
  | inr off ↦ let same : stop true s ≡ s = ground (arith, off) in subst IsBalanced (sym same) v
]

obey_all-IsBalanced :
    (cs : List Command) (s : Control) → IsCareful cs → IsBalanced s → IsBalanced (obey_all cs s)
unfolding obey_all
obey_all-IsBalanced [] s done v = v
obey_all-IsBalanced (starts a (b ∷ bs) local ∷ cs) s (start_then multi routed joined rest) v =
    obey_all-IsBalanced cs _ rest (start-IsBalanced a b bs local s multi routed joined v)
obey_all-IsBalanced (starts a [] local ∷ cs) s h v = elim h [ ]
obey_all-IsBalanced (stops false ∷ cs) s h v = elim h [ ]
obey_all-IsBalanced (stops true ∷ cs) s (stop_then rest) v =
    obey_all-IsBalanced cs _ rest (stop-IsBalanced s v)

-- After any calls of `start` and `stop` of a new receiver, in any order, for addresses that are multicast
-- and not empty, where no call of the system but `bindUdpSock` and `setRecvBuf` fails: as many
-- sockets were closed as were bound, and one more was bound while the thread runs; and every route was
-- deleted as often as it was added, where that of a running receiver was added once more.
pub obey_all-balanced :
    (cs : List Command) (g l : Bytes)
    → IsCareful cs
    → let t = obey_all cs new_receiver in
      (opened_in t.calls ≡ closed_in t.calls + (if t.running then 1 else 0))
      × (added_in g l t.calls
          ≡ deleted_in g l t.calls
            + (if t.running then (if is_route g l t.multicast_ip t.local_ip then 1 else 0) else 0))
obey_all-balanced cs g l h =
    let v =
      obey_all-IsBalanced cs new_receiver h
        (record { sockets = refl; routes = λ g l. refl; addressed = λ e. cc }) in
    (v.sockets, v.routes g l)
