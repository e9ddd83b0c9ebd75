-- ===== src/Logger/Messages.antt =====
-- include/common/s4logger.h: `err`, `info`, `warn`, `trace`, `fatal` and `flush`, and the macros.
use s4_lib_lite.Prelude.{
  ℕ, List, [], ◌∷◌, ◌++◌, Option, none, some, Bool, true, false, Bytes, codes, if◌then◌else◌,
}
use s4_lib_lite.Prelude.Decimal.{print}
use s4_lib_lite.Prelude.Int.{ℤ, pos, ◌-ℤ◌, leb_ℤ}
use s4_lib_lite.Logger.Platform.{Spdlog}
use s4_lib_lite.Logger.Sinks.{Sink, Logger}

pub data Severity : Type 0 where
  trace info warn error critical : Severity

-- A call of a logger of spdlog: a message with its format, a text as it is, or a flush; and the end of
-- the process. `A` are the arguments of a format.
pub data Output (A : Type 0) : Type 0 where
  formats : Bytes → Severity → Bytes → A → Output A
  says : Bytes → Severity → Bytes → Output A
  flushes : Bytes → Output A
  exits : Output A

module _ {k : Spdlog} {A : Type 0} where
  -- `if (sink) { … }`
  unfoldable pub if_there : Option (Sink k) → (Bytes → List (Output A)) → List (Output A)
  if_there none f = []
  if_there (some s) f = f s.name

  -- A call on every logger that takes errors.
  unfoldable pub to_all : (Bytes → List (Output A)) → Logger k → List (Output A)
  unfolding if_there
  to_all f l =
      if_there l.file_all f
      ++ (if_there l.file_all_pure f
          ++ (if_there l.file_err f ++ (if_there l.file_err_pure f ++ if_there l.console f)))

  -- A call on the loggers that take every message.
  unfoldable pub to_common : (Bytes → List (Output A)) → Logger k → List (Output A)
  unfolding if_there
  to_common f l = if_there l.file_all f ++ (if_there l.file_all_pure f ++ if_there l.console f)

  unfoldable pub flush : Logger k → List (Output A)
  unfolding if_there
  flush l =
      let f = λ (n : Bytes). flushes n ∷ [] in
      if_there l.file_all f
      ++ (if_there l.file_err f ++ (if_there l.file_all_pure f ++ if_there l.file_err_pure f))

  unfoldable pub log_err : Bytes → Bytes → A → Logger k → List (Output A)
  unfolding to_all
  log_err preamble fmt args l = to_all (λ n. formats n error (preamble ++ fmt) args ∷ []) l

  unfoldable pub log_info : Bytes → Bytes → A → Logger k → List (Output A)
  unfolding to_common
  log_info preamble fmt args l = to_common (λ n. formats n info (preamble ++ fmt) args ∷ []) l

  unfoldable pub log_warn : Bytes → Bytes → A → Logger k → List (Output A)
  unfolding to_common
  log_warn preamble fmt args l = to_common (λ n. formats n warn (preamble ++ fmt) args ∷ []) l

  unfoldable pub log_trace : Bytes → Bytes → A → Logger k → List (Output A)
  unfolding to_common
  log_trace preamble fmt args l = to_common (λ n. formats n trace (preamble ++ fmt) args ∷ []) l

  unfoldable pub log_fatal : Bytes → Bytes → ℕ → Bytes → A → Logger k → List (Output A)
  unfolding to_all flush
  log_fatal preamble file line fmt args l =
      let file_info = codes "    " ++ (file ++ (codes ":" ++ print line)) in
      to_all (λ n. formats n critical (preamble ++ fmt) args ∷ says n critical file_info ∷ []) l
      ++ (flush l ++ exits ∷ [])

  -- `LCL_WARN` and `LCL_ERR`, and with "[global]" for the preamble `WARN` and `ERR`.
  unfoldable pub lcl_warn : Bytes → Bytes → A → Logger k → List (Output A)
  unfolding log_warn flush
  lcl_warn preamble fmt args l = log_warn preamble fmt args l ++ flush l

  unfoldable pub lcl_err : Bytes → Bytes → A → Logger k → List (Output A)
  unfolding log_err flush
  lcl_err preamble fmt args l = log_err preamble fmt args l ++ flush l

-- `err_handler` at the time `now`, where `last` is `last_err_time_`: does it throw, and the new time.
unfoldable pub err_handler : ℤ → ℤ → Bool × ℤ
err_handler now last = if leb_ℤ (now -ℤ last) (pos 59) then (false, last) else (true, now)
