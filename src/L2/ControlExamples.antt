-- ===== src/L2/ControlExamples.antt =====
-- Receivers that are started and stopped.
use s4_lib_lite.Prelude.{◌+◌, ◌≡◌, refl, [], ◌∷◌, List, Bytes, true, false, codes, if◌then◌else◌}
use s4_lib_lite.L2.Stats.{no_stats}
use s4_lib_lite.L2.Control.{
  Answers, Control, opened, closed, buffer_set, group_joined, route_added, route_deleted, start,
  stop,
}
use s4_lib_lite.L2.Balance.{
  Command, starts, stops, obey_all, new_receiver, start_then, stop_then, done, opened_in, closed_in,
  is_route, added_in, deleted_in, obey_all-balanced,
}

-- 239.1.1.1, by 10.0.0.2.
abbrev group : Bytes
group = codes "239.1.1.1"

abbrev nic : Bytes
nic = codes "10.0.0.2"

abbrev all_well : Answers
all_well = record {
  is_multicast = true;
  bound = true;
  routed = true;
  joined = true;
  resized = true;
}

abbrev unbound : Answers
unbound = record all_well { bound = false }

abbrev at_work : Control
at_work = record {
  running = true;
  has_socket = true;
  local_ip = nic;
  multicast_ip = group;
  stats = no_stats;
  calls = buffer_set ∷ group_joined group ∷ route_added group nic ∷ opened ∷ [];
}

new-started : start all_well group nic new_receiver ≡ (true, at_work)
unfolding start
new-started = refl

work-stopped :
    (stop true at_work).calls
    ≡ route_deleted group nic
      ∷ closed
      ∷ buffer_set
      ∷ group_joined group
      ∷ route_added group nic
      ∷ opened
      ∷ []
unfolding stop
work-stopped = refl

-- A start that cannot bind, one that succeeds, one too many, and a stop and a start.
abbrev commands : List Command
commands =
    starts unbound group nic
    ∷ starts all_well group nic
    ∷ starts all_well group nic
    ∷ stops true
    ∷ starts all_well group nic
    ∷ []

obey_all-balanced_example :
    (opened_in (obey_all commands new_receiver).calls
      ≡ closed_in (obey_all commands new_receiver).calls
        + (if (obey_all commands new_receiver).running then 1 else 0))
    × (added_in group nic (obey_all commands new_receiver).calls
        ≡ deleted_in group nic (obey_all commands new_receiver).calls
          + (if (obey_all commands new_receiver).running
              then (if is_route group nic
                    (obey_all commands new_receiver).multicast_ip
                    (obey_all commands new_receiver).local_ip
                  then 1
                  else 0)
              else 0))
obey_all-balanced_example = obey_all-balanced commands group nic (
    start_then refl refl refl (
      start_then refl refl refl
        (start_then refl refl refl (stop_then (start_then refl refl refl done)))))

abbrev one_host : Answers
one_host = record {
  is_multicast = false;
  bound = true;
  routed = false;
  joined = false;
  resized = true;
}

abbrev one_host_work : Control
one_host_work = record at_work { multicast_ip = codes "10.0.0.9"; calls = buffer_set ∷ opened ∷ [] }

one_host-started : start one_host (codes "10.0.0.9") nic new_receiver ≡ (true, one_host_work)
unfolding start
one_host-started = refl
