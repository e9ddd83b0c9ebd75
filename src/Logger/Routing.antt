-- ===== src/Logger/Routing.antt =====
-- Where the messages go after `init`.
use mathlib.Core.List.{append-nil, append_assoc}
use s4_lib_lite.Prelude.{
  sym, ℕ, ◌≤◌, ◌≡◌, refl, List, [], ◌∷◌, ◌++◌, Option, none, some, Bool, true, false, Bytes, codes,
  length, if◌then◌else◌,
}
use s4_lib_lite.Prelude.Decimal.{print}
use s4_lib_lite.Logger.Platform.{Spdlog, IsLawful}
use s4_lib_lite.Logger.Sinks.{Folder, Sink, Logger, Config, console_name, sink_name, init_with}
use s4_lib_lite.Logger.Opening.{IsOpened}
use s4_lib_lite.Logger.Reopening.{inits, new_logger, inits-IsOpened}
use s4_lib_lite.Logger.Messages.{
  error, info, warn, trace, critical, Output, formats, says, flushes, exits, if_there, to_all,
  to_common, flush, log_err, log_info, log_warn, log_trace, log_fatal,
}

abbrev pub name_if : Bool → Bytes → List Bytes
name_if on n = if on then n ∷ [] else []

module _ {k : Spdlog} where
  -- The loggers that a configuration wants for every message, and for the errors, in the order in which
  -- they are called.
  abbrev pub common_names : Config k → Bytes → List Bytes
  common_names p t =
      name_if p.enable_file_all (sink_name p.file_preamble t false false)
      ++ (name_if p.enable_file_all_pure (sink_name p.file_preamble t true false)
          ++ name_if p.enable_console console_name)

  abbrev pub error_names : Config k → Bytes → List Bytes
  error_names p t =
      name_if p.enable_file_all (sink_name p.file_preamble t false false)
      ++ (name_if p.enable_file_all_pure (sink_name p.file_preamble t true false)
          ++ (name_if p.enable_file_err (sink_name p.file_preamble t false true)
              ++ (name_if p.enable_file_err_pure (sink_name p.file_preamble t true true)
                  ++ name_if p.enable_console console_name)))

  -- The files that `flush` writes out, in its order.
  abbrev pub flushed_names : Config k → Bytes → List Bytes
  flushed_names p t =
      name_if p.enable_file_all (sink_name p.file_preamble t false false)
      ++ (name_if p.enable_file_err (sink_name p.file_preamble t false true)
          ++ (name_if p.enable_file_all_pure (sink_name p.file_preamble t true false)
              ++ name_if p.enable_file_err_pure (sink_name p.file_preamble t true true)))

-- What `f` gives for each of the names, in their order.
abbrev pub each {ℓ} : {B : Type ℓ} → (Bytes → List B) → List Bytes → List B
each f [] = []
each f (n ∷ ns) = f n ++ each f ns

each-append {ℓ} :
    {B : Type ℓ} (f : Bytes → List B) (xs ys : List Bytes)
    → each f (xs ++ ys) ≡ each f xs ++ each f ys
each-append f [] ys = refl
each-append f (n ∷ xs) ys =
    rw (each-append f xs ys) (sym (append_assoc (f n) (each f xs) (each f ys)))

module _ {k : Spdlog} {A : Type 0} where
  -- A logger that is there exactly if it is wanted.
  if_wanted :
      (on : Bool) (s : Sink k) (o : Option (Sink k)) (f : Bytes → List (Output A))
      → o ≡ (if on then some s else none)
      → if_there o f ≡ each f (name_if on s.name)
  unfolding if_there
  if_wanted true s o f e = rw e (sym (append-nil (f s.name)))
  if_wanted false s o f e = rw e refl

  module _ (p : Config k) (q : Logger k) (opened : IsOpened p q) (f : Bytes → List (Output A)) where
    at_all :
        if_there q.file_all f
        ≡ each f (name_if p.enable_file_all (sink_name p.file_preamble q.time_base false false))
    at_all = if_wanted p.enable_file_all _ q.file_all f opened.all

    at_all_pure :
        if_there q.file_all_pure f
        ≡ each f (name_if p.enable_file_all_pure (sink_name p.file_preamble q.time_base true false))
    at_all_pure = if_wanted p.enable_file_all_pure _ q.file_all_pure f opened.all_pure

    at_err :
        if_there q.file_err f
        ≡ each f (name_if p.enable_file_err (sink_name p.file_preamble q.time_base false true))
    at_err = if_wanted p.enable_file_err _ q.file_err f opened.err

    at_err_pure :
        if_there q.file_err_pure f
        ≡ each f (name_if p.enable_file_err_pure (sink_name p.file_preamble q.time_base true true))
    at_err_pure = if_wanted p.enable_file_err_pure _ q.file_err_pure f opened.err_pure

    on_console : if_there q.console f ≡ each f (name_if p.enable_console console_name)
    on_console = if_wanted p.enable_console _ q.console f opened.at_console

    to_common_lem : to_common f q ≡ each f (common_names p q.time_base)
    unfolding to_common
    to_common_lem = simp (at_all, at_all_pure, on_console, each-append)

    to_all_lem : to_all f q ≡ each f (error_names p q.time_base)
    unfolding to_all
    to_all_lem = simp (at_all, at_all_pure, at_err, at_err_pure, on_console, each-append)

  flush_lem :
      (p : Config k) (q : Logger k)
      → IsOpened p q
      → flush {A = A} q ≡ each (λ n. flushes n ∷ []) (flushed_names p q.time_base)
  unfolding flush
  flush_lem p q opened =
      let f : Bytes → List (Output A) = λ n. flushes n ∷ [] in
      simp (
        at_all p q opened f,
        at_err p q opened f,
        at_all_pure p q opened f,
        at_err_pure p q opened f,
        each-append,
      )

-- After any configurations of a logger, where the time in the names has at least 8 bytes and every
-- `init` returned, the calls of spdlog that one call of `s4logger` makes: for a message, a warning or a
-- trace one call with its level on each logger of the console and of the files of all messages that the
-- last configuration enables, and on no other; for an error on those of the errors too; each with
-- the preamble in front of the format. A fatal error adds the call that says its place behind
-- each, and then the flushes of the files and the end of the process. Which of these calls write
-- anything is up to spdlog and the level of the logger.
pub log-routed :
    {k : Spdlog} (laws : IsLawful k) {A : Type 0} (time : Bytes) (r : k.Registry)
    (ps : List (Config k × Folder)) (p : Config k) (a : Folder) (l q : Logger k)
    (preamble fmt file : Bytes) (line : ℕ) (args : A)
    → 8 ≤ length time
    → inits ps (new_logger k time r) ≡ some l
    → init_with p a l ≡ some q
    → (log_info preamble fmt args q
        ≡ each (λ n. formats n info (preamble ++ fmt) args ∷ []) (common_names p q.time_base))
      × (log_warn preamble fmt args q
          ≡ each (λ n. formats n warn (preamble ++ fmt) args ∷ []) (common_names p q.time_base))
      × (log_trace preamble fmt args q
          ≡ each (λ n. formats n trace (preamble ++ fmt) args ∷ []) (common_names p q.time_base))
      × (log_err preamble fmt args q
          ≡ each (λ n. formats n error (preamble ++ fmt) args ∷ []) (error_names p q.time_base))
      × (log_fatal preamble file line fmt args q
          ≡ each
              (λ n.
                formats n critical (preamble ++ fmt) args
                ∷ says n critical (codes "    " ++ (file ++ (codes ":" ++ print line)))
                ∷ [])
              (error_names p q.time_base)
            ++ (each (λ n. flushes n ∷ []) (flushed_names p q.time_base) ++ exits ∷ []))
unfolding log_info log_warn log_trace log_err log_fatal
log-routed laws time r ps p a l q preamble fmt file line args h e f =
    let opened = inits-IsOpened laws time r ps p a l q h e f in
    (
      to_common_lem p q opened _,
      to_common_lem p q opened _,
      to_common_lem p q opened _,
      to_all_lem p q opened _,
      rw (to_all_lem p q opened _, flush_lem p q opened) refl,
    )
