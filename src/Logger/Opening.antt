-- ===== src/Logger/Opening.antt =====
-- Which loggers `init` leaves open.
use s4_lib_lite.Prelude.{
  ◌+◌, ◌≤◌, ◌≡◌, ◌≢◌, refl, sym, ap, ◌∙◌, subst, [], ◌++◌, Option, none, some, Bool, true, false,
  arith, Bytes, codes, length, length-append, same_bytes, same_bytes-eq, ne_of_same_bytes,
  if◌then◌else◌, Bool-cases, inl, inr,
}
use s4_lib_lite.Logger.Platform.{Spdlog, IsLawful}
use s4_lib_lite.Logger.Sinks.{
  ◌>>=◌, Sink, Logger, Config, stamped, console_name, sink_name, join_path, find_sink, init_file,
}
use s4_lib_lite.Logger.Maps.{IsConsistent, dressed, Sets}
use s4_lib_lite.Logger.Files.{init_file-Sets}

pub >>=-eq-some {ℓ κ} :
    {A : Type ℓ} {B : Type κ} (m : Option A) (f : A → Option B) {b : B}
    → (m >>= f) ≡ some b
    → (a : A) × (m ≡ some a) × (f a ≡ some b)
>>=-eq-some none f e = cc
>>=-eq-some (some a) f e = (a, refl, e)

pub length-sink_name :
    (p t : Bytes) (pure error : Bool)
    → length (sink_name p t pure error)
      ≡ length p + length t + (if error then 4 else 0) + (if pure then 5 else 0)
length-sink_name p t false false =
    omega (arith, length-append p t, length-append (p ++ t) [], length-append ((p ++ t) ++ []) [])
length-sink_name p t true false = omega (
  arith,
  length-append p t,
  length-append (p ++ t) [],
  length-append ((p ++ t) ++ []) (codes "_pure"),
)
length-sink_name p t false true = omega (
  arith,
  length-append p t,
  length-append (p ++ t) (codes "_err"),
  length-append ((p ++ t) ++ codes "_err") [],
)
length-sink_name p t true true = omega (
  arith,
  length-append p t,
  length-append (p ++ t) (codes "_err"),
  length-append ((p ++ t) ++ codes "_err") (codes "_pure"),
)

-- A name that is longer than the console's.
pub not_console : (n : Bytes) → 8 ≤ length n → n ≢ console_name
not_console n h q = let same = ap length q in absurd (omega arith)

module _ {k : Spdlog} where
  -- The logger of a file that a configuration wants, or none.
  abbrev pub wanted : Config k → Bytes → Bool → Bool → Bool → Option (Sink k)
  wanted p t enable pure error =
      let n = sink_name p.file_preamble t pure error in
      if enable
      then some (dressed n (join_path p.save_path (n ++ codes ".log")) pure error p)
      else none

  abbrev pub wanted_console : Config k → Option (Sink k)
  wanted_console p =
      if p.enable_console
      then some (record { name = console_name; path = []; pattern = stamped; level = p.level })
      else none

  -- Exactly the loggers that the configuration enables are there, with the name, the file, the pattern
  -- and the level that it asks for.
  pub record IsOpened (p : Config k) (l : Logger k) : Type 0 where
    pub all : l.file_all ≡ wanted p l.time_base p.enable_file_all false false
    pub all_pure : l.file_all_pure ≡ wanted p l.time_base p.enable_file_all_pure true false
    pub err : l.file_err ≡ wanted p l.time_base p.enable_file_err false true
    pub err_pure : l.file_err_pure ≡ wanted p l.time_base p.enable_file_err_pure true true
    pub at_console : l.console ≡ wanted_console p

  -- What holds between two calls of `init`.
  pub record IsSound (l : Logger k) : Type 0 where
    pub files : IsConsistent l
    pub long : 8 ≤ length l.time_base
    pub named : (n : Bytes) (s : Sink k) → find_sink n l.file_loggers ≡ some s → n ≢ console_name
    pub console_made :
        (s : Sink k)
        → l.console ≡ some s
        → (s.name ≡ console_name) × (s.path ≡ []) × (s.pattern ≡ stamped)

  pub Sets-IsSound :
      {n : Bytes} {now : Option (Sink k)} (l q : Logger k)
      → Sets n now l q
      → 8 ≤ length n
      → IsSound l
      → IsSound q
  Sets-IsSound {n} l q c long v = record {
    files = c.consistent;
    long = rw c.same_time v.long;
    named = λ m s e. elim (Bool-cases (same_bytes m n)) [
      | inl at_n ↦ let is = same_bytes-eq m n at_n in not_console m (rw is long)
      | inr other ↦ v.named m s (sym (c.elsewhere m (ne_of_same_bytes m n other)) ∙ e)
    ];
    console_made = λ s e. v.console_made s (sym c.same_console ∙ e);
  }

  -- What a part of `init` that opens files leaves alone.
  pub record IsKept (l q : Logger k) : Type 0 where
    pub param : q.param ≡ l.param
    pub time : q.time_base ≡ l.time_base
    pub folder : q.file_folder ≡ l.file_folder
    pub console : q.console ≡ l.console
    pub all : q.file_all ≡ l.file_all
    pub all_pure : q.file_all_pure ≡ l.file_all_pure

module _ {k : Spdlog} (laws : IsLawful k) where
  -- `init_file` of a logger whose configuration, time and folder are known.
  pub init_file-wanted :
      (p : Config k) (t : Bytes) (on pure error : Bool) (l q : Logger k)
      → l.param ≡ p
      → l.time_base ≡ t
      → l.file_folder ≡ p.save_path
      → init_file p.file_preamble on pure error l ≡ some q
      → IsConsistent l
      → Sets (sink_name p.file_preamble t pure error) (wanted p t on pure error) l q
  init_file-wanted p t on pure error l q same_p same_t at_path e v =
      let goal : Bytes → Bytes → Config k → Type 0 = λ u folder c.
        let n = sink_name p.file_preamble u pure error in
        Sets n
          (if on
            then some (dressed n (join_path folder (n ++ codes ".log")) pure error c)
            else none)
          l q in
      subst (goal t p.save_path) same_p (
        subst (λ f. goal t f l.param) at_path
          (subst (λ u. goal u l.file_folder l.param) same_t
            (init_file-Sets laws p.file_preamble on pure error l q e v)))

  -- The two files that are opened one after the other.
  pub two_files :
      (p : Config k) (t : Bytes) (error on on_pure : Bool) (l a b : Logger k)
      → l.param ≡ p
      → l.time_base ≡ t
      → l.file_folder ≡ p.save_path
      → init_file p.file_preamble on false error l ≡ some a
      → init_file p.file_preamble on_pure true error a ≡ some b
      → IsSound l
      → (find_sink (sink_name p.file_preamble t false error) b.file_loggers
          ≡ wanted p t on false error)
        × (find_sink (sink_name p.file_preamble t true error) b.file_loggers
            ≡ wanted p t on_pure true error)
        × IsKept l b
        × IsSound b
  two_files p t error on on_pure l a b same_p same_t at_path e f v =
      let n = sink_name p.file_preamble t false error in
      let m = sink_name p.file_preamble t true error in
      let plain = init_file-wanted p t on false error l a same_p same_t at_path e v.files in
      let pure =
        init_file-wanted p t on_pure true error a b (plain.same_param ∙ same_p)
          (plain.same_time ∙ same_t) (plain.same_folder ∙ at_path) f plain.consistent in
      let apart : n ≢ m = λ q.
        let same = ap length q in
        absurd (
          omega (
            arith,
            length-sink_name p.file_preamble t false error,
            length-sink_name p.file_preamble t true error,
            same,
          )) in
      let long = ap length same_t in
      let sound_a =
        Sets-IsSound l a plain
          (omega (arith, long, v.long, length-sink_name p.file_preamble t false error)) v in
      (
        pure.elsewhere n apart ∙ plain.there,
        pure.there,
        record {
          param = pure.same_param ∙ plain.same_param;
          time = pure.same_time ∙ plain.same_time;
          folder = pure.same_folder ∙ plain.same_folder;
          console = pure.same_console ∙ plain.same_console;
          all = pure.same_all ∙ plain.same_all;
          all_pure = pure.same_all_pure ∙ plain.same_all_pure;
        },
        Sets-IsSound a b pure
            (omega (arith, long, v.long, length-sink_name p.file_preamble t true error)) sound_a,
      )
