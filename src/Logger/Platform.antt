-- ===== src/Logger/Platform.antt =====
-- What the logger takes from spdlog: its registry of loggers. A logger is a name, and one that was made
-- for a file has the path of that file.
use s4_lib_lite.Prelude.{ℕ, ◌≡◌, ◌≢◌, Option, none, some, Bytes}

-- `create` and `create_console` give nothing where they throw: the file cannot be opened, or the name
-- is taken. `file_of` is the path of the file of a logger of the registry.
pub record Spdlog : Type 1 where
  pub Registry : Type 0
  pub Level : Type 0
  pub info_level : Level
  pub err_level : Level
  pub create : Bytes → Bytes → ℕ → ℕ → Registry → Option Registry
  pub create_console : Bytes → Registry → Option Registry
  pub drop : Bytes → Registry → Registry
  pub file_of : Bytes → Registry → Option Bytes

-- What the code relies on: a new logger writes to the file it was made for, making or dropping a
-- logger does nothing to those of other names, and a name that a logger has cannot be given to
-- another.
pub record IsLawful (k : Spdlog) : Type 0 where
  pub create-file :
      (n f : Bytes) (size files : ℕ) (r q : k.Registry)
      → k.create n f size files r ≡ some q
      → k.file_of n q ≡ some f
  pub create-others :
      (n f m : Bytes) (size files : ℕ) (r q : k.Registry)
      → k.create n f size files r ≡ some q
      → m ≢ n
      → k.file_of m q ≡ k.file_of m r
  pub console-others :
      (n m : Bytes) (r q : k.Registry)
      → k.create_console n r ≡ some q
      → m ≢ n
      → k.file_of m q ≡ k.file_of m r
  pub drop-others :
      (n m : Bytes) (r : k.Registry) → m ≢ n → k.file_of m (k.drop n r) ≡ k.file_of m r
  pub create-taken :
      (n f g : Bytes) (size files : ℕ) (r : k.Registry)
      → k.file_of n r ≡ some g
      → k.create n f size files r ≡ none
