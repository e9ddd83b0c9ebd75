-- ===== src/Logger/Halves.antt =====
-- The two halves of `init` that open files.
use mathlib.Core.List.{append-nil, append_assoc}
use s4_lib_lite.Prelude.{
  ◌≡◌, sym, ap, ◌∙◌, subst, ◌++◌, Option, some, Bool, true, false, Bytes, codes,
}
use s4_lib_lite.Logger.Platform.{Spdlog, IsLawful}
use s4_lib_lite.Logger.Sinks.{
  ◌>>=◌, Sink, Logger, Config, sink_name, find_sink, init_file, init_files_all, init_files_err,
}
use s4_lib_lite.Logger.Opening.{>>=-eq-some, wanted, IsSound, IsKept, init_file-wanted, two_files}

plain_name : (p t : Bytes) → sink_name p t false false ≡ p ++ t
plain_name p t = append-nil _ ∙ append-nil _

pure_name : (p t : Bytes) → sink_name p t true false ≡ (p ++ t) ++ codes "_pure"
pure_name p t = ap (λ x. x ++ codes "_pure") (append-nil _)

err_name : (p t : Bytes) → sink_name p t false true ≡ (p ++ t) ++ codes "_err"
err_name p t = append-nil _

err_pure_name : (p t : Bytes) → sink_name p t true true ≡ (p ++ t) ++ codes "_err_pure"
err_pure_name p t = append_assoc (p ++ t) (codes "_err") (codes "_pure")

module _ {k : Spdlog} where
  -- What a call finds under a name that it spells in its own way.
  found_as :
      {n : Bytes} (t : Bytes) (b : Logger k) (p : Config k) {want : Option (Sink k)}
      → b.param ≡ p
      → b.time_base ≡ t
      → (spell : Bytes → Bytes) → n ≡ spell (p.file_preamble ++ t)
      → find_sink n b.file_loggers ≡ want
      → find_sink (spell (b.param.file_preamble ++ b.time_base)) b.file_loggers ≡ want
  found_as {n} t b p same_p same_t spell named there =
      ap (λ x. find_sink (spell x) b.file_loggers)
        (ap (λ x. x ++ b.time_base) (ap (λ (c : Config k). c.file_preamble) same_p)
          ∙ ap (λ x. p.file_preamble ++ x) same_t)
      ∙ (ap (λ x. find_sink x b.file_loggers) (sym named) ∙ there)

module _ {k : Spdlog} (laws : IsLawful k) where
  -- Half of `init`: two files, and what `finish` makes of the logger.
  two_opened :
      (p : Config k) (t : Bytes) (error : Bool) (on on_pure : Config k → Bool)
      (finish : Logger k → Logger k) (l q : Logger k)
      → l.param ≡ p
      → l.time_base ≡ t
      → l.file_folder ≡ p.save_path
      → (do
        a ← init_file l.param.file_preamble (on l.param) false error l
        b ← init_file a.param.file_preamble (on_pure a.param) true error a
        some (finish b))
        ≡ some q
      → IsSound l
      → (b : Logger k) × (finish b ≡ q)
        × (find_sink (sink_name p.file_preamble t false error) b.file_loggers
            ≡ wanted p t (on p) false error)
        × (find_sink (sink_name p.file_preamble t true error) b.file_loggers
            ≡ wanted p t (on_pure p) true error)
        × IsKept l b
        × IsSound b
  two_opened p t error on on_pure finish l q same_p same_t at_path e v =
      let (a, a_is, e₁) =
        >>=-eq-some (init_file l.param.file_preamble (on l.param) false error l) _ e in
      let (b, b_is, e₂) =
        >>=-eq-some (init_file a.param.file_preamble (on_pure a.param) true error a) _ e₁ in
      let a_of : init_file p.file_preamble (on p) false error l ≡ some a =
        subst (λ (c : Config k). init_file c.file_preamble (on c) false error l ≡ some a) same_p
          a_is in
      let first =
        init_file-wanted laws p t (on p) false error l a same_p same_t at_path a_of v.files in
      let b_of : init_file p.file_preamble (on_pure p) true error a ≡ some b =
        subst (λ (c : Config k). init_file c.file_preamble (on_pure c) true error a ≡ some b)
          (first.same_param ∙ same_p) b_is in
      let files =
        two_files laws p t error (on p) (on_pure p) l a b same_p same_t at_path a_of b_of v in
      let is : finish b ≡ q = cc in (b, is, files.0, files.1, files.2, files.3)

  pub init_files_all_lem :
      (p : Config k) (t : Bytes) (l q : Logger k)
      → l.param ≡ p
      → l.time_base ≡ t
      → l.file_folder ≡ p.save_path
      → init_files_all l ≡ some q
      → IsSound l
      → (q.file_all ≡ wanted p t p.enable_file_all false false)
        × (q.file_all_pure ≡ wanted p t p.enable_file_all_pure true false)
        × (q.console ≡ l.console)
        × (q.param ≡ p)
        × (q.time_base ≡ t)
        × (q.file_folder ≡ p.save_path)
        × IsSound q
  unfolding init_files_all
  init_files_all_lem p t l q same_p same_t at_path e v =
      let finish : Logger k → Logger k = λ b. record b {
        file_all = find_sink (b.param.file_preamble ++ b.time_base) b.file_loggers;
        file_all_pure =
            find_sink ((b.param.file_preamble ++ b.time_base) ++ codes "_pure") b.file_loggers;
      } in
      let (b, is, plain, pure, kept, sound) =
        two_opened p t false (λ c. c.enable_file_all) (λ c. c.enable_file_all_pure) finish l q
          same_p same_t at_path e v in
      let b_p = kept.param ∙ same_p in
      let b_t = kept.time ∙ same_t in
      subst
        (λ (x : Logger k).
          (x.file_all ≡ wanted p t p.enable_file_all false false)
          × (x.file_all_pure ≡ wanted p t p.enable_file_all_pure true false)
          × (x.console ≡ l.console)
          × (x.param ≡ p)
          × (x.time_base ≡ t)
          × (x.file_folder ≡ p.save_path)
          × IsSound x)
        is
        (
          found_as t b p b_p b_t (λ x. x) (plain_name p.file_preamble t) plain,
          found_as t b p b_p b_t (λ x. x ++ codes "_pure") (pure_name p.file_preamble t) pure,
          kept.console,
          b_p,
          b_t,
          kept.folder ∙ at_path,
          record {
            files = record { agrees = sound.files.agrees };
            long = sound.long;
            named = sound.named;
            console_made = sound.console_made;
          },
        )

  pub init_files_err_lem :
      (p : Config k) (t : Bytes) (l q : Logger k)
      → l.param ≡ p
      → l.time_base ≡ t
      → l.file_folder ≡ p.save_path
      → init_files_err l ≡ some q
      → IsSound l
      → (q.file_err ≡ wanted p t p.enable_file_err false true)
        × (q.file_err_pure ≡ wanted p t p.enable_file_err_pure true true)
        × (q.console ≡ l.console)
        × (q.file_all ≡ l.file_all)
        × (q.file_all_pure ≡ l.file_all_pure)
        × (q.time_base ≡ t)
        × IsSound q
  unfolding init_files_err
  init_files_err_lem p t l q same_p same_t at_path e v =
      let finish : Logger k → Logger k = λ b. record b {
        file_err =
            find_sink ((b.param.file_preamble ++ b.time_base) ++ codes "_err") b.file_loggers;
        file_err_pure =
            find_sink ((b.param.file_preamble ++ b.time_base) ++ codes "_err_pure") b.file_loggers;
      } in
      let (b, is, plain, pure, kept, sound) =
        two_opened p t true (λ c. c.enable_file_err) (λ c. c.enable_file_err_pure) finish l q same_p
          same_t at_path e v in
      let b_p = kept.param ∙ same_p in
      let b_t = kept.time ∙ same_t in
      subst
        (λ (x : Logger k).
          (x.file_err ≡ wanted p t p.enable_file_err false true)
          × (x.file_err_pure ≡ wanted p t p.enable_file_err_pure true true)
          × (x.console ≡ l.console)
          × (x.file_all ≡ l.file_all)
          × (x.file_all_pure ≡ l.file_all_pure)
          × (x.time_base ≡ t)
          × IsSound x)
        is
        (
          found_as t b p b_p b_t (λ x. x ++ codes "_err") (err_name p.file_preamble t) plain,
          found_as t b p b_p b_t (λ x. x ++ codes "_err_pure") (err_pure_name p.file_preamble t)
              pure,
          kept.console,
          kept.all,
          kept.all_pure,
          b_t,
          record {
            files = record { agrees = sound.files.agrees };
            long = sound.long;
            named = sound.named;
            console_made = sound.console_made;
          },
        )
