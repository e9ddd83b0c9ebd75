-- ===== src/Logger/Returning.antt =====
-- `init` returns, as long as the configurations keep the folder of the files.
use s4_lib_lite.Prelude.{◌≡◌, List, [], ◌∷◌, true, Bytes}
use s4_lib_lite.Logger.Platform.{Spdlog}
use s4_lib_lite.Logger.Sinks.{Folder, Logger, Config}
use s4_lib_lite.Logger.Free.{CanRotate}
use s4_lib_lite.Logger.ReturningParts.{is_usable}

-- All configurations keep their files in one folder, which can be used, and their files can rotate.
pub data AllIn {k : Spdlog} (folder : Bytes) : List (Config k × Folder) → Type 0 where
  done : AllIn folder []
  keeps :
      {p : Config k} {a : Folder} {ps : List (Config k × Folder)}
      → p.save_path ≡ folder
      → is_usable a ≡ true
      → CanRotate p
      → AllIn folder ps
      → AllIn folder ((p, a) ∷ ps)
