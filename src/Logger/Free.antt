-- ===== src/Logger/Free.antt =====
-- `init_file` returns, where spdlog can make every logger whose name is free and the folder of the files
-- stays the same.
use s4_lib_lite.Prelude.{
  subst, ℕ, ◌*◌, ◌%◌, ◌^◌, ◌≤◌, ◌≡◌, ◌≢◌, refl, sym, ap, ◌∙◌, [], ◌++◌, Option, none, some, Bool,
  true, false, arith, Bytes, codes, length, same_bytes, same_bytes-eq, same_bytes_refl,
  ne_of_same_bytes, if◌then◌else◌, Bool-cases, Option-cases, inl, inr,
}
use s4_lib_lite.Logger.Platform.{Spdlog, IsLawful}
use s4_lib_lite.Logger.Sinks.{
  Config, Sink, Logger, console_name, sink_name, join_path, find_sink, dress_sink, erase_sink,
  create_sink, reuse_sink, init_file,
}
use s4_lib_lite.Logger.Maps.{Sets, dressed}
use s4_lib_lite.Logger.Files.{init_file-Sets}
use s4_lib_lite.Logger.Opening.{IsSound, Sets-IsSound, not_console, length-sink_name}

-- What a rotating file needs: spdlog throws for files of no size and for more than 200000 of them.
pub record CanRotate {k : Spdlog} (p : Config k) : Type 0 where
  pub sized : (p.max_file_size_mb * 1048576) % 2 ^ 64 ≢ 0
  pub few : p.max_files ≤ 200000

-- `has` tells which names spdlog's registry has. A logger whose name is free can be made, where its
-- files can rotate (the disk lets them be opened), other names stay as they are, and a dropped name is
-- free again.
pub record CanCreate (k : Spdlog) (has : Bytes → k.Registry → Bool) : Type 0 where
  pub create-free :
      (n f : Bytes) (size files : ℕ) (r : k.Registry)
      → has n r ≡ false
      → size ≢ 0
      → files ≤ 200000
      → (q : k.Registry) × (k.create n f size files r ≡ some q)
  pub console-free :
      (n : Bytes) (r : k.Registry)
      → has n r ≡ false
      → (q : k.Registry) × (k.create_console n r ≡ some q)
  pub create-has :
      (n f m : Bytes) (size files : ℕ) (r q : k.Registry)
      → k.create n f size files r ≡ some q
      → m ≢ n
      → has m q ≡ has m r
  pub console-has :
      (n m : Bytes) (r q : k.Registry) → k.create_console n r ≡ some q → m ≢ n → has m q ≡ has m r
  pub drop-has : (n m : Bytes) (r : k.Registry) → m ≢ n → has m (k.drop n r) ≡ has m r
  pub drop-self : (n : Bytes) (r : k.Registry) → has n (k.drop n r) ≡ false

module _ {k : Spdlog} {has : Bytes → k.Registry → Bool} (laws : IsLawful k)
    (can : CanCreate k has) where
  -- Every open file is in one folder under the name of its logger, and a long name without a logger is free.
  pub record InPlace (folder : Bytes) (l : Logger k) : Type 0 where
    pub at_path :
        (n : Bytes) (s : Sink k)
        → find_sink n l.file_loggers ≡ some s
        → s.path ≡ join_path folder (n ++ codes ".log")
    pub free :
        (n : Bytes) → 8 ≤ length n → find_sink n l.file_loggers ≡ none → has n l.registry ≡ false
    pub free_console : l.console ≡ none → has console_name l.registry ≡ false

  -- A step that sets the logger of one file keeps the others in place.
  Sets-InPlace :
      (folder n : Bytes) (now : Option (Sink k)) (l q : Logger k)
      → Sets n now l q
      → n ≢ console_name
      → ((s : Sink k) → now ≡ some s → s.path ≡ join_path folder (n ++ codes ".log"))
      → ((m : Bytes) → m ≢ n → has m q.registry ≡ has m l.registry)
      → (now ≡ none → has n q.registry ≡ false)
      → InPlace folder l
      → InPlace folder q
  Sets-InPlace folder n now l q c apart here others self v = record {
    at_path = λ m s e. elim (Bool-cases (same_bytes m n)) [
      | inl at_n ↦
          let is : n ≡ m = sym (same_bytes-eq m n at_n) in
          let found : now ≡ some s = sym c.there ∙ (ap (λ x. find_sink x q.file_loggers) is ∙ e) in
          here s found ∙ ap (λ x. join_path folder (x ++ codes ".log")) is
      | inr other ↦ v.at_path m s (sym (c.elsewhere m (ne_of_same_bytes m n other)) ∙ e)
    ];
    free = λ m h e. elim (Bool-cases (same_bytes m n)) [
      | inl at_n ↦
          let is : m ≡ n = same_bytes-eq m n at_n in
          ap (λ x. has x q.registry) is
          ∙ self (sym c.there ∙ (ap (λ x. find_sink x q.file_loggers) (sym is) ∙ e))
      | inr other ↦
          let m_n = ne_of_same_bytes m n other in
          others m m_n ∙ v.free m h (sym (c.elsewhere m m_n) ∙ e)
    ];
    free_console =
        λ e. others console_name (λ x. apart (sym x)) ∙ v.free_console (sym c.same_console ∙ e);
  }

  -- What `init` needs to open a file.
  pub record Ready (folder : Bytes) (l : Logger k) : Type 0 where
    pub sound : IsSound l
    pub in_place : InPlace folder l
    pub here : l.file_folder ≡ folder
    pub rotates : CanRotate l.param

  -- A result of `init_file` and what it does to the names of the registry.
  record Opens (n : Bytes) (on : Bool) (l : Logger k) (got : Option (Logger k)) : Type 0 where
    next : Logger k
    is : got ≡ some next
    others : (m : Bytes) → m ≢ n → has m next.registry ≡ has m l.registry
    self : on ≡ false → has n next.registry ≡ false

  create_sink-Opens :
      (n path : Bytes) (pure error : Bool) (l : Logger k)
      → has n l.registry ≡ false
      → CanRotate l.param
      → Opens n true l (create_sink n path pure error l)
  unfolding create_sink dress_sink
  create_sink-Opens n path pure error l free rotates =
      let size = (l.param.max_file_size_mb * 1048576) % 2 ^ 64 in
      let (r, made) =
        can.create-free n path size l.param.max_files l.registry free rotates.sized rotates.few in
      record {
        next =
            dress_sink n pure error
              (record { name = n; path = path; pattern = []; level = l.param.level })
              (record l { registry = r });
        is = rw made refl;
        others = λ m h. can.create-has n path m size l.param.max_files l.registry r made h;
        self = λ e. cc;
      }

  reuse_sink-Opens :
      (n path : Bytes) (pure error : Bool) (s : Sink k) (l : Logger k)
      → k.file_of n l.registry ≡ some path
      → Opens n true l (reuse_sink n path pure error s l)
  unfolding reuse_sink dress_sink
  reuse_sink-Opens n path pure error s l file = record {
    next = dress_sink n pure error s l;
    is = rw (file, reuse_sink, same_bytes_refl path) refl;
    others = λ m h. refl;
    self = λ e. cc;
  }

  init_file-Opens :
      (preamble folder : Bytes) (on pure error : Bool) (l : Logger k)
      → Ready folder l
      → let n = sink_name preamble l.time_base pure error in
        8 ≤ length n → Opens n on l (init_file preamble on pure error l)
  unfolding init_file
  init_file-Opens preamble folder true pure error l v long =
      let n = sink_name preamble l.time_base pure error in
      let path = join_path l.file_folder (n ++ codes ".log") in
      elim (Option-cases (find_sink n l.file_loggers)) [
        | inl absent ↦
            rw (absent, init_file)
              (create_sink-Opens n path pure error l (v.in_place.free n long absent) v.rotates)
        | inr (s, there) ↦
            let at_folder = ap (λ f. join_path f (n ++ codes ".log")) (sym v.here) in
            rw (there, init_file)
              (reuse_sink-Opens n path pure error s l (
                (v.sound.files.agrees n s there).1
                ∙ ap some (v.in_place.at_path n s there ∙ at_folder)))
      ]
  init_file-Opens preamble folder false pure error l v long =
      let n = sink_name preamble l.time_base pure error in
      elim (Option-cases (find_sink n l.file_loggers)) [
        | inl absent ↦
            rw (absent, init_file)
              (record {
                next = l;
                is = refl;
                others = λ m h. refl;
                self = λ e. v.in_place.free n long absent;
              })
        | inr (s, there) ↦
            rw (there, init_file)
              (record {
                next = record l {
                  registry = k.drop n l.registry;
                  file_loggers = erase_sink n l.file_loggers;
                };
                is = refl;
                others = λ m h. can.drop-has n m l.registry h;
                self = λ e. can.drop-self n l.registry;
              })
      ]

  -- `init_file` opens or closes its file and leaves everything ready for the next one.
  pub init_file-returns :
      (preamble folder : Bytes) (on pure error : Bool) (l : Logger k)
      → Ready folder l
      → (q : Logger k) × (init_file preamble on pure error l ≡ some q) × Ready folder q
  init_file-returns preamble folder on pure error l v =
      let n = sink_name preamble l.time_base pure error in
      let long : 8 ≤ length n =
        omega (arith, v.sound.long, length-sink_name preamble l.time_base pure error) in
      let apart = not_console n long in
      let got = init_file-Opens preamble folder on pure error l v long in
      let c = init_file-Sets laws preamble on pure error l got.next got.is v.sound.files in
      let made : Bool → Option (Sink k) = λ b.
        if b
        then some (dressed n (join_path l.file_folder (n ++ codes ".log")) pure error l.param)
        else none in
      let at_folder : (b : Bool) (s : Sink k)
          → made b ≡ some s
          → s.path ≡ join_path folder (n ++ codes ".log") =
        λ b s e. elim (Bool-cases b) [
          | inl y ↦
              let is : ◌≡◌ {A = Option (Sink k)}
                  (some
                    (dressed n (join_path l.file_folder (n ++ codes ".log")) pure error l.param))
                  (some s) =
                ap made (sym y) ∙ e in
              let path : join_path l.file_folder (n ++ codes ".log") ≡ s.path = cc in
              sym path ∙ ap (λ f. join_path f (n ++ codes ".log")) v.here
          | inr y ↦ let is : ◌≡◌ {A = Option (Sink k)} none (some s) = ap made (sym y) ∙ e in cc
        ] in
      let off : (b : Bool) → made b ≡ none → b ≡ false = λ b e. elim (Bool-cases b) [
        | inl y ↦
            let is : ◌≡◌ {A = Option (Sink k)}
                (some (dressed n (join_path l.file_folder (n ++ codes ".log")) pure error l.param))
                none =
              ap made (sym y) ∙ e in
            cc
        | inr y ↦ y
      ] in
      (
        got.next,
        got.is,
        record {
          sound = Sets-IsSound l got.next c long v.sound;
          in_place =
              Sets-InPlace folder n (made on) l got.next c apart (at_folder on) got.others
                (λ e. got.self (off on e)) v.in_place;
          here = c.same_folder ∙ v.here;
          rotates = subst CanRotate (sym c.same_param) v.rotates;
        },
      )
