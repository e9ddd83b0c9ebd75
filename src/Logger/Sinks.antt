-- ===== src/Logger/Sinks.antt =====
-- include/common/s4logger.h and source/common/s4logger.cpp: the state of `s4logger` and its `init`.
use s4_lib_lite.Prelude.{
  ℕ, ◌*◌, ◌%◌, ◌^◌, List, [], ◌∷◌, ◌++◌, Option, none, some, Bool, true, false, ◌==◌, Bytes, codes,
  same_bytes, if◌then◌else◌,
}
use s4_lib_lite.Logger.Platform.{Spdlog}

-- The folder as `std::filesystem` finds it: is there something, is it a folder, and does the call that
-- is to create it say that it did?
pub record Folder : Type 0 where
  pub exists : Bool
  pub is_directory : Bool
  pub creates : Bool

infixl 5 ◌>>=◌
abbrev pub ◌>>=◌ {ℓ κ} : {A : Type ℓ} {B : Type κ} → Option A → (A → Option B) → Option B
none >>= f = none
some a >>= f = f a

-- The separator that `/` puts behind a folder.
unfoldable pub slash_behind : Bytes → Bytes
slash_behind [] = []
slash_behind (c ∷ []) = if c == b'/' then [] else b'/' ∷ []
slash_behind (c ∷ d ∷ rest) = slash_behind (d ∷ rest)

-- `folder / name` on POSIX.
unfoldable pub join_path : Bytes → Bytes → Bytes
unfolding slash_behind
join_path folder [] = folder ++ slash_behind folder
join_path folder (c ∷ rest) =
    if c == b'/' then c ∷ rest else folder ++ (slash_behind folder ++ c ∷ rest)

module _ (k : Spdlog) where
  pub record Config : Type 0 where
    pub enable_console : Bool
    pub enable_file_all : Bool
    pub enable_file_all_pure : Bool
    pub enable_file_err : Bool
    pub enable_file_err_pure : Bool
    pub level : k.Level
    pub max_file_size_mb : ℕ
    pub max_files : ℕ
    pub save_path : Bytes
    pub file_preamble : Bytes

  -- `spdlog::logger`, as far as the code sets it up.
  pub record Sink : Type 0 where
    pub name : Bytes
    pub path : Bytes
    pub pattern : Bytes
    pub level : k.Level

  -- The loggers of `_file_loggers`, by their names.
  abbrev pub SinkMap : Type 0
  SinkMap = List (Bytes × Sink)

  pub record Logger : Type 0 where
    pub param : Config
    pub file_all : Option Sink
    pub file_all_pure : Option Sink
    pub file_err : Option Sink
    pub file_err_pure : Option Sink
    pub file_loggers : SinkMap
    pub console : Option Sink
    pub time_base : Bytes
    pub file_folder : Bytes
    pub registry : k.Registry

abbrev pub console_name : Bytes
console_name = codes "console"

abbrev pub stamped : Bytes
stamped = codes "[%Y-%m-%d %H:%M:%S.%e] [%l] %^%v%$"

abbrev pub unstamped : Bytes
unstamped = codes "[%l] %^%v%$"

-- The name of a file's logger.
abbrev pub sink_name : Bytes → Bytes → Bool → Bool → Bytes
sink_name preamble time_base pure error =
    ((preamble ++ time_base) ++ (if error then codes "_err" else []))
    ++ (if pure then codes "_pure" else [])

module _ {k : Spdlog} where
  unfoldable pub find_sink : Bytes → SinkMap k → Option (Sink k)
  find_sink n [] = none
  find_sink n ((m, s) ∷ rest) = if same_bytes m n then some s else find_sink n rest

  unfoldable pub erase_sink : Bytes → SinkMap k → SinkMap k
  erase_sink n [] = []
  erase_sink n ((m, s) ∷ rest) =
      let others = erase_sink n rest in if same_bytes m n then others else (m, s) ∷ others

  unfoldable pub put_sink : Bytes → Sink k → SinkMap k → SinkMap k
  unfolding erase_sink
  put_sink n s sinks = (n, s) ∷ erase_sink n sinks

  -- `init_console`, where the console is enabled or not and there is a logger for it or not.
  unfoldable pub set_console : Bool → Option (Sink k) → Logger k → Option (Logger k)
  set_console true (some s) l =
      some (record l { console = some (record s { level = l.param.level }) })
  set_console true none l = do
    r ← k.create_console console_name l.registry
    some (record l {
      console =
          some
            (record { name = console_name; path = []; pattern = stamped; level = l.param.level });
      registry = r;
    })
  set_console false (some s) l =
      some (record l { console = none; registry = k.drop console_name l.registry })
  set_console false none l = some l

  unfoldable pub init_console : Logger k → Option (Logger k)
  unfolding set_console
  init_console l = set_console l.param.enable_console l.console l

  unfoldable pub init_file_folder : Folder → Logger k → Option (Logger k)
  init_file_folder a l =
      let there = record l { file_folder = l.param.save_path } in
      if a.exists
      then if a.is_directory then some there else if a.creates then some there else none
      else if a.creates
      then some there
      else none

  -- The end of `init_file`: the pattern and the level of a logger that is in the map under `n`.
  unfoldable pub dress_sink : Bytes → Bool → Bool → Sink k → Logger k → Logger k
  unfolding put_sink
  dress_sink n pure error s l = record l {
    file_loggers =
        put_sink n
          (record s {
            pattern = if pure then unstamped else stamped;
            level = if error then k.err_level else l.param.level;
          })
          l.file_loggers;
  }

  unfoldable pub create_sink : Bytes → Bytes → Bool → Bool → Logger k → Option (Logger k)
  unfolding dress_sink
  create_sink n path pure error l = do
    r ← k.create n path ((l.param.max_file_size_mb * 1048576) % 2 ^ 64) l.param.max_files l.registry
    some (
        dress_sink n pure error
          (record { name = n; path = path; pattern = []; level = l.param.level })
          (record l { registry = r }))

  -- Where the name is in the map. A logger that spdlog does not have is a null pointer.
  unfoldable pub reuse_sink : Bytes → Bytes → Bool → Bool → Sink k → Logger k → Option (Logger k)
  unfolding dress_sink create_sink erase_sink
  reuse_sink n path pure error s l = elim (k.file_of n l.registry) [
    | none ↦ none
    | some f ↦
        if same_bytes f path
        then some (dress_sink n pure error s l)
        else create_sink n path pure error (record l { file_loggers = erase_sink n l.file_loggers })
  ]

  unfoldable pub init_file : Bytes → Bool → Bool → Bool → Logger k → Option (Logger k)
  unfolding find_sink erase_sink reuse_sink create_sink join_path
  init_file preamble enable pure error l =
      let n = sink_name preamble l.time_base pure error in
      let path = join_path l.file_folder (n ++ codes ".log") in
      if enable
      then elim (find_sink n l.file_loggers) [
        | none ↦ create_sink n path pure error l
        | some s ↦ reuse_sink n path pure error s l
      ]
      else elim (find_sink n l.file_loggers) [
        | none ↦ some l
        | some s ↦ some (record l {
          registry = k.drop n l.registry;
          file_loggers = erase_sink n l.file_loggers;
        })
      ]

  unfoldable pub init_files_all : Logger k → Option (Logger k)
  unfolding init_file
  init_files_all l = do
    a ← init_file l.param.file_preamble l.param.enable_file_all false false l
    b ← init_file a.param.file_preamble a.param.enable_file_all_pure true false a
    some (record b {
      file_all = find_sink (b.param.file_preamble ++ b.time_base) b.file_loggers;
      file_all_pure =
          find_sink ((b.param.file_preamble ++ b.time_base) ++ codes "_pure") b.file_loggers;
    })

  unfoldable pub init_files_err : Logger k → Option (Logger k)
  unfolding init_file
  init_files_err l = do
    a ← init_file l.param.file_preamble l.param.enable_file_err false true l
    b ← init_file a.param.file_preamble a.param.enable_file_err_pure true true a
    some (record b {
      file_err = find_sink ((b.param.file_preamble ++ b.time_base) ++ codes "_err") b.file_loggers;
      file_err_pure =
          find_sink ((b.param.file_preamble ++ b.time_base) ++ codes "_err_pure") b.file_loggers;
    })

  -- `init()`; nothing is an exception.
  unfoldable pub init : Folder → Logger k → Option (Logger k)
  unfolding init_console init_file_folder init_files_all init_files_err
  init a l = do b ← init_console l; c ← init_file_folder a b; d ← init_files_all c; init_files_err d

  -- `init(p)`, which is noexcept: nothing is the end of the process.
  unfoldable pub init_with : Config k → Folder → Logger k → Option (Logger k)
  unfolding init
  init_with p a l = init a (record l { param = p })
