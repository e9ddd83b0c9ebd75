-- ===== src/Logger/Examples.antt =====
-- A logger that is set up twice, over a registry that is a list.
use s4_lib_lite.Prelude.{
  ℕ, ◌≡◌, ◌≢◌, refl, ◌++◌, [], ◌∷◌, Option, none, some, true, false, Bytes, codes, arith,
  ne_of_same_bytes,
}
use s4_lib_lite.Prelude.Decimal.{print}
use s4_lib_lite.Logger.Sinks.{
  Folder, Sink, Logger, Config, sink_name, join_path, find_sink, init_with,
}
use s4_lib_lite.Logger.Reopening.{inits, new_logger, default_config}
use s4_lib_lite.Logger.Redirect.{inits-redirected}
use s4_lib_lite.Logger.Messages.{
  error, info, warn, trace, critical, formats, says, flushes, exits, log_info, log_warn, log_trace,
  log_err, log_fatal,
}
use s4_lib_lite.Logger.Routing.{each, common_names, error_names, flushed_names, log-routed}
use s4_lib_lite.Logger.ListRegistry.{listed, listed-IsLawful}

abbrev plain_config : Config listed
unfolding default_config
plain_config = default_config listed

abbrev with_files : Config listed
with_files = record plain_config { enable_file_all = true; enable_file_err_pure = false }

abbrev elsewhere : Config listed
elsewhere = record with_files { save_path = codes "./old" }

abbrev at_start : Bytes
at_start = codes "2026_01_01__00_00_00"

abbrev folder : Folder
folder = record { exists = true; is_directory = true; creates = false }

abbrev or_else : Option (Logger listed) → Logger listed → Logger listed
or_else none l = l
or_else (some q) l = q

abbrev first_logger : Logger listed
unfolding new_logger
first_logger = new_logger listed at_start []

abbrev once : Logger listed
unfolding inits
once = or_else (inits ((plain_config, folder) ∷ []) first_logger) first_logger

abbrev twice : Logger listed
unfolding init_with
twice = or_else (init_with with_files folder once) once

once-set : inits ((plain_config, folder) ∷ []) (new_logger listed at_start []) ≡ some once
unfolding once new_logger
once-set = refl

twice-set : init_with with_files folder once ≡ some twice
unfolding twice once first_logger
twice-set = refl

-- The file of all messages, which the second configuration opened.
abbrev all_name : Bytes
all_name = sink_name (codes "S4") at_start false false

twice-set_first :
    inits ((plain_config, folder) ∷ (with_files, folder) ∷ []) (new_logger listed at_start [])
    ≡ some twice
unfolding twice once first_logger inits
twice-set_first = refl

abbrev all_sink : Sink listed
unfolding join_path
all_sink = record {
  name = all_name;
  path = join_path (codes "./logs") (all_name ++ codes ".log");
  pattern = codes "[%Y-%m-%d %H:%M:%S.%e] [%l] %^%v%$";
  level = 2;
}

all_open :
    find_sink (sink_name (codes "S4") twice.time_base false false) twice.file_loggers
    ≡ some all_sink
unfolding twice once first_logger all_sink find_sink
all_open = refl

other_path :
    all_sink.path
    ≢ join_path (codes "./old") (sink_name (codes "S4") twice.time_base false false ++ codes ".log")
unfolding twice once first_logger all_sink join_path
other_path e = ne_of_same_bytes _ _ refl e

inits-redirected_example : init_with elsewhere folder twice ≡ none
unfolding plain_config
inits-redirected_example =
    inits-redirected listed-IsLawful at_start []
      ((plain_config, folder) ∷ (with_files, folder) ∷ []) elsewhere folder twice all_sink
      (omega arith) twice-set_first refl all_open other_path

abbrev seven : ℕ
seven = 7

log-routed_example :
    (log_info (codes "[fs] ") (codes "done") seven twice
      ≡ each
          (λ n. formats n info (codes "[fs] " ++ codes "done") seven ∷ [])
          (common_names with_files twice.time_base))
    × (log_warn (codes "[fs] ") (codes "done") seven twice
        ≡ each
            (λ n. formats n warn (codes "[fs] " ++ codes "done") seven ∷ [])
            (common_names with_files twice.time_base))
    × (log_trace (codes "[fs] ") (codes "done") seven twice
        ≡ each
            (λ n. formats n trace (codes "[fs] " ++ codes "done") seven ∷ [])
            (common_names with_files twice.time_base))
    × (log_err (codes "[fs] ") (codes "done") seven twice
        ≡ each
            (λ n. formats n error (codes "[fs] " ++ codes "done") seven ∷ [])
            (error_names with_files twice.time_base))
    × (log_fatal (codes "[fs] ") (codes "a.cpp") 12 (codes "done") seven twice
        ≡ each
            (λ n.
              formats n critical (codes "[fs] " ++ codes "done") 7
              ∷ says n critical (codes "    " ++ (codes "a.cpp" ++ (codes ":" ++ print 12)))
              ∷ [])
            (error_names with_files twice.time_base)
          ++ (each (λ n. flushes n ∷ []) (flushed_names with_files twice.time_base) ++ exits ∷ []))
log-routed_example =
    log-routed listed-IsLawful at_start [] ((plain_config, folder) ∷ []) with_files folder once
      twice (codes "[fs] ") (codes "done") (codes "a.cpp") 12 seven (omega arith) once-set twice-set
