-- ===== src/Logger/Files.antt =====
-- What `init_file` does to the loggers of the files.
use s4_lib_lite.Prelude.{
  ◌*◌, ◌%◌, ◌^◌, ◌≡◌, ◌≢◌, refl, sym, ap, ◌∙◌, subst, [], ◌++◌, Option, none, some, Bool, true,
  false, Bytes, codes, same_bytes, same_bytes-eq, same_bytes-ne, ne_of_same_bytes, if◌then◌else◌,
  Bool-cases, Option-cases, inl, inr,
}
use s4_lib_lite.Logger.Platform.{Spdlog, IsLawful}
use s4_lib_lite.Logger.Sinks.{
  Sink, Logger, sink_name, join_path, find_sink, erase_sink, dress_sink, create_sink, reuse_sink,
  init_file,
}
use s4_lib_lite.Logger.Maps.{
  find-erase_other, find-erase_self, IsConsistent, dressed, Sets, dress_sink-Sets, kept-Sets,
}

module _ {k : Spdlog} (laws : IsLawful k) where
  dropped-Sets :
      (n : Bytes) (l : Logger k)
      → IsConsistent l
      → Sets n none l
          (record l { registry = k.drop n l.registry; file_loggers = erase_sink n l.file_loggers })
  dropped-Sets n l v = record {
    there = find-erase_self n l.file_loggers;
    elsewhere = λ m h. find-erase_other m n l.file_loggers h;
    consistent = record {
      agrees = λ m t e.
          let apart : m ≢ n = λ q.
            let gone : find_sink m (erase_sink n l.file_loggers) ≡ none =
              rw q (find-erase_self n l.file_loggers) in
            cc in
          let old = v.agrees m t (sym (find-erase_other m n l.file_loggers apart) ∙ e) in
          (old.0, laws.drop-others n m l.registry apart ∙ old.1);
    };
    same_param = refl;
    same_time = refl;
    same_folder = refl;
    same_console = refl;
    same_all = refl;
    same_all_pure = refl;
  }

  create_sink-Sets :
      (n path : Bytes) (pure error : Bool) (l q : Logger k)
      → create_sink n path pure error l ≡ some q
      → IsConsistent l
      → Sets n (some (dressed n path pure error l.param)) l q
  unfolding create_sink
  create_sink-Sets n path pure error l q e v =
      let size = (l.param.max_file_size_mb * 1048576) % 2 ^ 64 in
      let files = l.param.max_files in
      elim (Option-cases (k.create n path size files l.registry)) [
        | inl none_made ↦
            let stuck : ◌≡◌ {A = Option (Logger k)} none (some q) =
              rw (none_made, create_sink) at e in
            cc
        | inr (r, made) ↦
            let s : Sink k = record {
              name = n;
              path = path;
              pattern = [];
              level = l.param.level;
            } in
            let is : dress_sink n pure error s (record l { registry = r }) ≡ q =
              let got : ◌≡◌ {A = Option (Logger k)}
                  (some (dress_sink n pure error s (record l { registry = r }))) (some q) =
                rw (made, create_sink) at e in
              cc in
            subst (Sets n (some (dressed n path pure error l.param)) l) is (
              dress_sink-Sets n path pure error s l r refl refl
                (laws.create-file n path size files l.registry r made)
                (λ m h. laws.create-others n path m size files l.registry r made h) v)
      ]

  -- A logger that is open at another path cannot be made again.
  redirected_none :
      (n path f : Bytes) (pure error : Bool) (s : Sink k) (l : Logger k)
      → k.file_of n l.registry ≡ some f
      → f ≢ path
      → reuse_sink n path pure error s l ≡ none
  unfolding reuse_sink create_sink
  redirected_none n path f pure error s l e h =
      rw (e, reuse_sink, same_bytes-ne f path h, create_sink)
        (rw
          (laws.create-taken n path f ((l.param.max_file_size_mb * 1048576) % 2 ^ 64)
            l.param.max_files l.registry e)
          refl)

  reuse_sink-Sets :
      (n path : Bytes) (pure error : Bool) (s : Sink k) (l q : Logger k)
      → find_sink n l.file_loggers ≡ some s
      → reuse_sink n path pure error s l ≡ some q
      → IsConsistent l
      → Sets n (some (dressed n path pure error l.param)) l q
  unfolding reuse_sink
  reuse_sink-Sets n path pure error s l q at_n e v =
      let old = v.agrees n s at_n in
      elim (Bool-cases (same_bytes s.path path)) [
        | inl same ↦
            let here = same_bytes-eq s.path path same in
            let is : dress_sink n pure error s l ≡ q =
              let got : ◌≡◌ {A = Option (Logger k)} (some (dress_sink n pure error s l)) (some q) =
                rw (old.1, reuse_sink, same) at e in
              cc in
            subst (Sets n (some (dressed n path pure error l.param)) l) is (
              dress_sink-Sets n path pure error s l l.registry old.0 here (old.1 ∙ ap some here)
                (λ m h. refl) v)
        | inr other ↦
            let gone =
              redirected_none n path s.path pure error s l old.1
                (ne_of_same_bytes s.path path other) in
            let none_is : ◌≡◌ {A = Option (Logger k)} none (some q) = sym gone ∙ e in cc
      ]

  pub init_file-Sets :
      (preamble : Bytes) (enable pure error : Bool) (l q : Logger k)
      → init_file preamble enable pure error l ≡ some q
      → IsConsistent l
      → let n = sink_name preamble l.time_base pure error in
        Sets n
          (if enable
            then some (dressed n (join_path l.file_folder (n ++ codes ".log")) pure error l.param)
            else none)
          l
          q
  unfolding init_file
  init_file-Sets preamble true pure error l q e v =
      let n = sink_name preamble l.time_base pure error in
      let path = join_path l.file_folder (n ++ codes ".log") in
      elim (Option-cases (find_sink n l.file_loggers)) [
        | inl absent ↦ create_sink-Sets n path pure error l q (rw (absent, init_file) at e) v
        | inr (s, there) ↦
            reuse_sink-Sets n path pure error s l q there (rw (there, init_file) at e) v
      ]
  init_file-Sets preamble false pure error l q e v =
      let n = sink_name preamble l.time_base pure error in
      elim (Option-cases (find_sink n l.file_loggers)) [
        | inl absent ↦
            let got : ◌≡◌ {A = Option (Logger k)} (some l) (some q) = rw (absent, init_file) at e in
            let same : l ≡ q = cc in subst (Sets n none l) same (kept-Sets n l absent v)
        | inr (s, there) ↦
            let dropped : Logger k = record l {
              registry = k.drop n l.registry;
              file_loggers = erase_sink n l.file_loggers;
            } in
            let got : ◌≡◌ {A = Option (Logger k)} (some dropped) (some q) =
              rw (there, init_file) at e in
            let same : dropped ≡ q = cc in subst (Sets n none l) same (dropped-Sets n l v)
      ]

  -- A file that is to be opened at another path than before cannot be opened.
  pub init_file-redirected :
      (preamble : Bytes) (pure error : Bool) (l : Logger k) (s : Sink k)
      → IsConsistent l
      → let n = sink_name preamble l.time_base pure error in
        find_sink n l.file_loggers ≡ some s
        → s.path ≢ join_path l.file_folder (n ++ codes ".log")
        → init_file preamble true pure error l ≡ none
  unfolding init_file
  init_file-redirected preamble pure error l s v at_n other =
      let n = sink_name preamble l.time_base pure error in
      rw (at_n, init_file)
        (redirected_none n (join_path l.file_folder (n ++ codes ".log")) s.path pure error s l
          (v.agrees n s at_n).1 other)
