-- ===== src/Logger/ReturningParts.antt =====
-- The parts of `init` return, as long as the folder of the files stays the same.
use s4_lib_lite.Prelude.{
  subst, ◌≡◌, refl, sym, ap, ◌∙◌, arith, [], ◌++◌, codes, Option, none, some, Bool, true, false,
  Bytes, if◌then◌else◌,
}
use s4_lib_lite.Logger.Platform.{Spdlog, IsLawful}
use s4_lib_lite.Logger.Sinks.{
  Folder, ◌>>=◌, Sink, Logger, Config, stamped, console_name, find_sink, set_console,
  init_file_folder, init_files_all, init_files_err, init_file,
}
use s4_lib_lite.Logger.Opening.{not_console, IsSound}
use s4_lib_lite.Logger.Free.{CanRotate, CanCreate, InPlace, Ready, init_file-returns}

-- There is a folder, or the call that is to create it says that it did.
abbrev pub is_usable : Folder → Bool
is_usable a = if a.exists then (if a.is_directory then true else a.creates) else a.creates

pub >>=-some {ℓ κ} :
    {A : Type ℓ} {B : Type κ} {m : Option A} {a : A} {b : B} (f : A → Option B)
    → m ≡ some a
    → f a ≡ some b
    → (m >>= f) ≡ some b
>>=-some f e g = rw e g

module _ {k : Spdlog} {has : Bytes → k.Registry → Bool} (laws : IsLawful k)
    (can : CanCreate k has) where
  pub set_console-returns :
      (folder : Bytes) (on : Bool) (c : Option (Sink k)) (l : Logger k)
      → l.console ≡ c
      → IsSound l
      → InPlace laws can folder l
      → (q : Logger k) × (set_console on c l ≡ some q) × InPlace laws can folder q
  unfolding set_console
  set_console-returns folder true (some s) l e w v = (
    record l { console = some (record s { level = l.param.level }) },
    refl,
    record { at_path = v.at_path; free = v.free; free_console = λ f. cc },
  )
  set_console-returns folder true none l e w v =
      let (r, made) = can.console-free console_name l.registry (v.free_console e) in
      (
        record l {
          console =
              some (record {
                name = console_name;
                path = [];
                pattern = stamped;
                level = l.param.level;
              });
          registry = r;
        },
        rw made refl,
        record {
          at_path = v.at_path;
          free = λ n h f.
              can.console-has console_name n l.registry r made (not_console n h) ∙ v.free n h f;
          free_console = λ f. cc;
        },
      )
  set_console-returns folder false (some s) l e w v = (
    record l { console = none; registry = k.drop console_name l.registry },
    refl,
    record {
      at_path = v.at_path;
      free = λ n h f. can.drop-has console_name n l.registry (not_console n h) ∙ v.free n h f;
      free_console = λ f. can.drop-self console_name l.registry;
    },
  )
  set_console-returns folder false none l e w v = (l, refl, v)

  -- A logger with other pointers to its files is as ready as before.
  same-Ready :
      (folder : Bytes) (l q : Logger k)
      → q.file_loggers ≡ l.file_loggers
      → q.registry ≡ l.registry
      → q.console ≡ l.console
      → q.time_base ≡ l.time_base
      → q.file_folder ≡ l.file_folder
      → q.param ≡ l.param
      → Ready laws can folder l
      → Ready laws can folder q
  same-Ready folder l q m r c t f o v = record {
    sound = record {
      files = record {
        agrees = λ n s e.
            let old = v.sound.files.agrees n s (ap (find_sink n) (sym m) ∙ e) in
            (old.0, ap (k.file_of n) r ∙ old.1);
      };
      long = rw t v.sound.long;
      named = λ n s e. v.sound.named n s (ap (find_sink n) (sym m) ∙ e);
      console_made = λ s e. v.sound.console_made s (sym c ∙ e);
    };
    in_place = record {
      at_path = λ n s e. v.in_place.at_path n s (ap (find_sink n) (sym m) ∙ e);
      free = λ n h e. ap (has n) r ∙ v.in_place.free n h (ap (find_sink n) (sym m) ∙ e);
      free_console = λ e. ap (has console_name) r ∙ v.in_place.free_console (sym c ∙ e);
    };
    here = f ∙ v.here;
    rotates = subst CanRotate (sym o) v.rotates;
  }

  -- Two files, and what `finish` makes of the logger.
  two_returned :
      (folder : Bytes) (error : Bool) (on on_pure : Config k → Bool) (finish : Logger k → Logger k)
      → ((b : Logger k) → Ready laws can folder b → Ready laws can folder (finish b))
      → (l : Logger k) → Ready laws can folder l
      → (q : Logger k) × ((do
        a ← init_file l.param.file_preamble (on l.param) false error l
        b ← init_file a.param.file_preamble (on_pure a.param) true error a
        some (finish b))
          ≡ some q)
        × Ready laws can folder q
  two_returned folder error on on_pure finish keep l v =
      let (a, a_is, a_ok) =
        init_file-returns laws can l.param.file_preamble folder (on l.param) false error l v in
      let (b, b_is, b_ok) =
        init_file-returns laws can a.param.file_preamble folder (on_pure a.param) true error a
          a_ok in
      (finish b, >>=-some _ a_is (>>=-some _ b_is refl), keep b b_ok)

  pub init_files_all-returns :
      (folder : Bytes) (l : Logger k)
      → Ready laws can folder l
      → (q : Logger k) × (init_files_all l ≡ some q) × Ready laws can folder q
  unfolding init_files_all
  init_files_all-returns folder l v =
      two_returned folder false (λ p. p.enable_file_all) (λ p. p.enable_file_all_pure)
        (λ b. record b {
          file_all = find_sink (b.param.file_preamble ++ b.time_base) b.file_loggers;
          file_all_pure =
              find_sink ((b.param.file_preamble ++ b.time_base) ++ codes "_pure") b.file_loggers;
        })
        (λ b w. same-Ready folder b _ refl refl refl refl refl refl w) l v

  pub init_files_err-returns :
      (folder : Bytes) (l : Logger k)
      → Ready laws can folder l
      → (q : Logger k) × (init_files_err l ≡ some q) × Ready laws can folder q
  unfolding init_files_err
  init_files_err-returns folder l v =
      two_returned folder true (λ p. p.enable_file_err) (λ p. p.enable_file_err_pure)
        (λ b. record b {
          file_err =
              find_sink ((b.param.file_preamble ++ b.time_base) ++ codes "_err") b.file_loggers;
          file_err_pure =
              find_sink ((b.param.file_preamble ++ b.time_base) ++ codes "_err_pure")
                b.file_loggers;
        })
        (λ b w. same-Ready folder b _ refl refl refl refl refl refl w) l v

  pub init_file_folder-returns :
      (a : Folder) (l : Logger k)
      → is_usable a ≡ true
      → init_file_folder a l ≡ some (record l { file_folder = l.param.save_path })
  unfolding init_file_folder
  init_file_folder-returns a l h = ground arith
