-- ===== src/Logger/Console.antt =====
-- What `init_console` and `init_file_folder` do.
use s4_lib_lite.Prelude.{
  ◌≡◌, ◌≢◌, refl, ◌∙◌, subst, [], Option, none, some, Bool, true, false, arith, Bytes,
  if◌then◌else◌,
}
use s4_lib_lite.Logger.Platform.{Spdlog, IsLawful}
use s4_lib_lite.Logger.Sinks.{
  Folder, Sink, SinkMap, Logger, Config, stamped, console_name, init_console, set_console,
  init_file_folder,
}
use s4_lib_lite.Logger.Opening.{>>=-eq-some, IsSound}

module _ {k : Spdlog} where
  -- The console's logger is set, and only its entry of the registry is touched.
  console_set :
      (now : Option (Sink k)) (r : k.Registry) (l : Logger k)
      → ((m : Bytes) → m ≢ console_name → k.file_of m r ≡ k.file_of m l.registry)
      → ((s : Sink k)
          → now ≡ some s
          → (s.name ≡ console_name) × (s.path ≡ []) × (s.pattern ≡ stamped))
      → IsSound l
      → IsSound (record l { console = now; registry = r })
  console_set now r l others made v = record {
    files = record {
      agrees = λ n s e. let old = v.files.agrees n s e in (old.0, others n (v.named n s e) ∙ old.1);
    };
    long = v.long;
    named = v.named;
    console_made = made;
  }

  -- What `init_console` leaves.
  pub record IsConsoled (p : Config k) (t : Bytes) (m : SinkMap k) (on : Bool) (q : Logger k)
      : Type 0 where
    pub console : q.console ≡ (
        if on
        then some (record { name = console_name; path = []; pattern = stamped; level = p.level })
        else none)
    pub param : q.param ≡ p
    pub time : q.time_base ≡ t
    pub sinks : q.file_loggers ≡ m
    pub sound : IsSound q

module _ {k : Spdlog} (laws : IsLawful k) where
  set_console_lem :
      (on : Bool) (c : Option (Sink k)) (l q : Logger k)
      → l.console ≡ c
      → set_console on c l ≡ some q
      → IsSound l
      → IsConsoled l.param l.time_base l.file_loggers on q
  unfolding set_console
  set_console_lem true (some s) l q at_c e v =
      let made = v.console_made s at_c in
      let again : Sink k = record s { level = l.param.level } in
      let u : Logger k = record l { console = some again } in
      let is : u ≡ q = cc in
      subst (IsConsoled l.param l.time_base l.file_loggers true) is (record {
        console = cc;
        param = refl;
        time = refl;
        sinks = refl;
        sound =
            console_set (some again) l.registry l (λ m h. refl)
              (λ x f.
                let same : again ≡ x = cc in
                subst
                  (λ (y : Sink k). (y.name ≡ console_name) × (y.path ≡ []) × (y.pattern ≡ stamped))
                  same made)
              v;
      })
  set_console_lem true none l q at_c e v =
      let (r, made, f) = >>=-eq-some (k.create_console console_name l.registry) _ e in
      let new : Sink k = record {
        name = console_name;
        path = [];
        pattern = stamped;
        level = l.param.level;
      } in
      let u : Logger k = record l { console = some new; registry = r } in
      let is : u ≡ q = cc in
      subst (IsConsoled l.param l.time_base l.file_loggers true) is (record {
        console = refl;
        param = refl;
        time = refl;
        sinks = refl;
        sound =
            console_set (some new) r l
              (λ m h. laws.console-others console_name m l.registry r made h)
              (λ x f.
                let same : new ≡ x = cc in
                subst
                  (λ (y : Sink k). (y.name ≡ console_name) × (y.path ≡ []) × (y.pattern ≡ stamped))
                  same (refl, refl, refl))
              v;
      })
  set_console_lem false (some s) l q at_c e v =
      let u : Logger k = record l { console = none; registry = k.drop console_name l.registry } in
      let is : u ≡ q = cc in
      subst (IsConsoled l.param l.time_base l.file_loggers false) is (record {
        console = refl;
        param = refl;
        time = refl;
        sinks = refl;
        sound =
            console_set none (k.drop console_name l.registry) l
              (λ m h. laws.drop-others console_name m l.registry h) (λ x f. cc) v;
      })
  set_console_lem false none l q at_c e v =
      let is : l ≡ q = cc in
      subst (IsConsoled l.param l.time_base l.file_loggers false) is
        (record { console = at_c; param = refl; time = refl; sinks = refl; sound = v })

  pub init_console_lem :
      (l q : Logger k)
      → init_console l ≡ some q
      → IsSound l
      → IsConsoled l.param l.time_base l.file_loggers l.param.enable_console q
  unfolding init_console
  init_console_lem l q e v = set_console_lem l.param.enable_console l.console l q refl e v

  -- The folder of the files becomes the one of the configuration.
  pub init_file_folder_lem :
      (a : Folder) (l q : Logger k)
      → init_file_folder a l ≡ some q
      → q ≡ record l { file_folder = l.param.save_path }
  unfolding init_file_folder
  init_file_folder_lem a l q e = ground arith
