-- ===== src/Logger/Reopening.antt =====
-- `init` and its calls one after the other: which loggers are open afterwards.
use s4_lib_lite.Prelude.{
  ◌≤◌, ◌≡◌, sym, ap, ◌∙◌, subst, List, [], ◌∷◌, Option, none, some, Bool, true, false, Bytes, codes,
  length,
}
use s4_lib_lite.Logger.Platform.{Spdlog, IsLawful}
use s4_lib_lite.Logger.Sinks.{
  Folder, ◌>>=◌, Logger, Config, find_sink, init_console, init_file_folder, init_files_all, init,
  init_with,
}
use s4_lib_lite.Logger.Opening.{>>=-eq-some, wanted, IsOpened, IsSound}
use s4_lib_lite.Logger.Console.{init_console_lem, init_file_folder_lem}
use s4_lib_lite.Logger.Halves.{init_files_all_lem, init_files_err_lem}

-- The calls of `init(p)` one after the other.
unfoldable pub inits : {k : Spdlog} → List (Config k × Folder) → Logger k → Option (Logger k)
unfolding init_with
inits [] l = some l
inits ((p, a) ∷ rest) l = do q ← init_with p a l; inits rest q

-- What `cfg_t` says without a configuration file.
unfoldable pub default_config : (k : Spdlog) → Config k
default_config k = record {
  enable_console = true;
  enable_file_all = false;
  enable_file_all_pure = true;
  enable_file_err = false;
  enable_file_err_pure = true;
  level = k.info_level;
  max_file_size_mb = 9999;
  max_files = 10;
  save_path = codes "./logs";
  file_preamble = codes "S4";
}

-- A logger that `init` was not yet called for.
unfoldable pub new_logger : (k : Spdlog) → Bytes → k.Registry → Logger k
unfolding default_config
new_logger k time r = record {
  param = default_config k;
  file_all = none;
  file_all_pure = none;
  file_err = none;
  file_err_pure = none;
  file_loggers = [];
  console = none;
  time_base = time;
  file_folder = codes ".";
  registry = r;
}

module _ {k : Spdlog} (laws : IsLawful k) where
  pub init_with_lem :
      (p : Config k) (a : Folder) (l q : Logger k)
      → init_with p a l ≡ some q
      → IsSound l
      → IsOpened p q × IsSound q
  unfolding init_with init
  init_with_lem p a l q e v =
      let start : Logger k = record l { param = p } in
      let sound : IsSound start = record {
        files = record { agrees = v.files.agrees };
        long = v.long;
        named = v.named;
        console_made = v.console_made;
      } in
      let (b, b_is, e₁) = >>=-eq-some (init_console start) _ e in
      let (c, c_is, e₂) = >>=-eq-some (init_file_folder a b) _ e₁ in
      let (d, d_is, e₃) = >>=-eq-some (init_files_all c) _ e₂ in
      let at_console = init_console_lem laws start b b_is sound in
      let at_folder = init_file_folder_lem laws a b c c_is in
      let at_b : Logger k = record b { file_folder = b.param.save_path } in
      let b_ok = at_console.sound in
      let at_b_sound : IsSound at_b = record {
        files = record { agrees = b_ok.files.agrees };
        long = b_ok.long;
        named = b_ok.named;
        console_made = b_ok.console_made;
      } in
      let all =
        init_files_all_lem laws p l.time_base c d
          (ap (λ (x : Logger k). x.param) at_folder ∙ at_console.param)
          (ap (λ (x : Logger k). x.time_base) at_folder ∙ at_console.time)
          (ap (λ (x : Logger k). x.file_folder) at_folder
            ∙ ap (λ (x : Config k). x.save_path) at_console.param)
          d_is (subst IsSound (sym at_folder) at_b_sound) in
      let err = init_files_err_lem laws p l.time_base d q all.3 all.4 all.5 e₃ all.6 in
      let for_time = λ (on pure error : Bool). ap (λ t. wanted p t on pure error) (sym err.5) in
      (
        record {
          all = err.3 ∙ (all.0 ∙ for_time p.enable_file_all false false);
          all_pure = err.4 ∙ (all.1 ∙ for_time p.enable_file_all_pure true false);
          err = err.0 ∙ for_time p.enable_file_err false true;
          err_pure = err.1 ∙ for_time p.enable_file_err_pure true true;
          at_console =
              err.2 ∙ (all.2 ∙ (ap (λ (x : Logger k). x.console) at_folder ∙ at_console.console));
        },
        err.6,
      )

  pub inits-IsSound :
      (ps : List (Config k × Folder)) (l q : Logger k) → inits ps l ≡ some q → IsSound l → IsSound q
  unfolding inits
  inits-IsSound [] l q e v = let is : l ≡ q = cc in subst IsSound is v
  inits-IsSound ((p, a) ∷ ps) l q e v =
      let (m, m_is, f) = >>=-eq-some (init_with p a l) _ e in
      inits-IsSound ps m q f (init_with_lem p a l m m_is v).1

  pub new_logger-IsSound :
      (time : Bytes) (r : k.Registry) → 8 ≤ length time → IsSound (new_logger k time r)
  unfolding new_logger find_sink
  new_logger-IsSound time r h = record {
    files = record { agrees = λ n s e. cc };
    long = h;
    named = λ n s e. cc;
    console_made = λ s e. cc;
  }

  pub inits-IsOpened :
      (time : Bytes) (r : k.Registry) (ps : List (Config k × Folder)) (p : Config k) (a : Folder)
      (l q : Logger k)
      → 8 ≤ length time
      → inits ps (new_logger k time r) ≡ some l
      → init_with p a l ≡ some q
      → IsOpened p q
  inits-IsOpened time r ps p a l q h e f =
      (init_with_lem p a l q f (inits-IsSound ps _ l e (new_logger-IsSound time r h))).0
