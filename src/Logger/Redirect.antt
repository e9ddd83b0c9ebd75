-- ===== src/Logger/Redirect.antt =====
-- `init` with another folder for a file that is open.
use s4_lib_lite.Prelude.{
  ◌≡◌, ◌≢◌, refl, sym, ap, ◌∙◌, subst, List, ◌++◌, none, some, true, false, ◌≤◌, Bytes, codes,
  length, Option-cases, inl, inr,
}
use s4_lib_lite.Logger.Platform.{Spdlog, IsLawful}
use s4_lib_lite.Logger.Sinks.{
  Folder, Sink, Logger, Config, sink_name, join_path, find_sink, init_console, init_file_folder,
  init_file, init_files_all, init, init_with,
}
use s4_lib_lite.Logger.Maps.{IsConsistent}
use s4_lib_lite.Logger.Files.{init_file-redirected}
use s4_lib_lite.Logger.Opening.{IsSound}
use s4_lib_lite.Logger.Console.{init_console_lem, init_file_folder_lem}
use s4_lib_lite.Logger.Reopening.{inits, new_logger, inits-IsSound, new_logger-IsSound}

module _ {k : Spdlog} (laws : IsLawful k) where
  -- The logger with which `init` comes to the files.
  record AtFiles (p : Config k) (l c : Logger k) : Type 0 where
    param : c.param ≡ p
    time : c.time_base ≡ l.time_base
    folder : c.file_folder ≡ p.save_path
    sinks : c.file_loggers ≡ l.file_loggers
    files : IsConsistent c

  none_opened :
      (p : Config k) (l c : Logger k) (s : Sink k)
      → AtFiles p l c
      → let n = sink_name p.file_preamble l.time_base false false in
        p.enable_file_all ≡ true
        → find_sink n l.file_loggers ≡ some s
        → s.path ≢ join_path p.save_path (n ++ codes ".log")
        → init_files_all c ≡ none
  unfolding init_files_all
  none_opened p l c s v on at_n other =
      let pre = c.param.file_preamble in
      let at_c : find_sink (sink_name pre c.time_base false false) c.file_loggers ≡ some s =
        ap (find_sink (sink_name pre c.time_base false false)) v.sinks
        ∙ (ap (λ t. find_sink (sink_name pre t false false) l.file_loggers) v.time
            ∙ (ap
                  (λ (x : Config k).
                    find_sink (sink_name x.file_preamble l.time_base false false) l.file_loggers)
                  v.param
                ∙ at_n)) in
      let same_path : join_path c.file_folder
            (sink_name pre c.time_base false false ++ codes ".log")
          ≡ join_path p.save_path
              (sink_name p.file_preamble l.time_base false false ++ codes ".log") =
        ap (λ f. join_path f (sink_name pre c.time_base false false ++ codes ".log")) v.folder
        ∙ (ap (λ t. join_path p.save_path (sink_name pre t false false ++ codes ".log")) v.time
            ∙ ap
                (λ (x : Config k).
                  join_path p.save_path
                    (sink_name x.file_preamble l.time_base false false ++ codes ".log"))
                v.param) in
      let gone : init_file pre c.param.enable_file_all false false c ≡ none =
        ap (λ b. init_file pre b false false c)
          (ap (λ (x : Config k). x.enable_file_all) v.param ∙ on)
        ∙ init_file-redirected laws pre false false c s v.files at_c (λ q. other (q ∙ same_path)) in
      rw gone refl

  init-redirected :
      (p : Config k) (a : Folder) (l : Logger k) (s : Sink k)
      → IsSound l
      → let n = sink_name p.file_preamble l.time_base false false in
        p.enable_file_all ≡ true
        → find_sink n l.file_loggers ≡ some s
        → s.path ≢ join_path p.save_path (n ++ codes ".log")
        → init_with p a l ≡ none
  unfolding init_with init
  init-redirected p a l s v on at_n other =
      let start : Logger k = record l { param = p } in
      let sound : IsSound start = record {
        files = record { agrees = v.files.agrees };
        long = v.long;
        named = v.named;
        console_made = v.console_made;
      } in
      elim (Option-cases (init_console start)) [
        | inl gone ↦ rw gone refl
        | inr (b, b_is) ↦ elim (Option-cases (init_file_folder a b)) [
          | inl gone ↦ rw (b_is, gone) refl
          | inr (c, c_is) ↦
              let at_console = init_console_lem laws start b b_is sound in
              let at_folder = init_file_folder_lem laws a b c c_is in
              let gone =
                none_opened p l c s
                  (record {
                    param = ap (λ (x : Logger k). x.param) at_folder ∙ at_console.param;
                    time = ap (λ (x : Logger k). x.time_base) at_folder ∙ at_console.time;
                    folder =
                        ap (λ (x : Logger k). x.file_folder) at_folder
                        ∙ ap (λ (x : Config k). x.save_path) at_console.param;
                    sinks = ap (λ (x : Logger k). x.file_loggers) at_folder ∙ at_console.sinks;
                    files =
                        subst IsConsistent (sym at_folder)
                          (record { agrees = at_console.sound.files.agrees });
                  })
                  on at_n other in
              rw (b_is, c_is, gone) refl
        ]
      ]

  -- Whatever configurations a logger went through: where the time in the names has at least 8 bytes, a
  -- configuration that wants the file of all messages, while that file is open under another path,
  -- has `init` throw in its `noexcept`.
  pub inits-redirected :
      (time : Bytes) (r : k.Registry) (ps : List (Config k × Folder)) (p : Config k) (a : Folder)
      (l : Logger k) (s : Sink k)
      → 8 ≤ length time
      → inits ps (new_logger k time r) ≡ some l
      → p.enable_file_all ≡ true
      → find_sink (sink_name p.file_preamble l.time_base false false) l.file_loggers ≡ some s
      → s.path
        ≢ join_path p.save_path (sink_name p.file_preamble l.time_base false false ++ codes ".log")
      → init_with p a l ≡ none
  inits-redirected time r ps p a l s h e on at_n other =
      init-redirected p a l s (inits-IsSound laws ps _ l e (new_logger-IsSound laws time r h)) on
        at_n other
