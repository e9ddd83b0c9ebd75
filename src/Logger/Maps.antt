-- ===== src/Logger/Maps.antt =====
-- The map of the loggers of the files, and its agreement with spdlog's registry.
use s4_lib_lite.Prelude.{
  ◌≡◌, ◌≢◌, refl, sym, ap, ◌∙◌, subst, [], ◌∷◌, Option, none, some, Bool, Bytes, same_bytes,
  same_bytes_refl, same_bytes-eq, same_bytes-ne, ne_of_same_bytes, if◌then◌else◌, Bool-cases, inl,
  inr,
}
use s4_lib_lite.Logger.Platform.{Spdlog}
use s4_lib_lite.Logger.Sinks.{
  Sink, SinkMap, Logger, Config, stamped, unstamped, find_sink, erase_sink, put_sink, dress_sink,
}

module _ {k : Spdlog} where
  pub find-erase_other :
      (m n : Bytes) (sinks : SinkMap k)
      → m ≢ n
      → find_sink m (erase_sink n sinks) ≡ find_sink m sinks
  unfolding find_sink erase_sink
  find-erase_other m n [] h = refl
  find-erase_other m n ((x, s) ∷ rest) h = elim (Bool-cases (same_bytes x n)) [
    | inl e ↦
        let x_is : x ≡ n = same_bytes-eq x n e in
        rw (e, same_bytes-ne x m (λ q. h (sym q ∙ x_is))) (find-erase_other m n rest h)
    | inr e ↦ elim (Bool-cases (same_bytes x m)) [
      | inl f ↦ rw (e, f, find_sink) refl
      | inr f ↦ rw (e, f, find_sink) (find-erase_other m n rest h)
    ]
  ]

  pub find-erase_self : (n : Bytes) (sinks : SinkMap k) → find_sink n (erase_sink n sinks) ≡ none
  unfolding find_sink erase_sink
  find-erase_self n [] = refl
  find-erase_self n ((x, s) ∷ rest) = elim (Bool-cases (same_bytes x n)) [
    | inl e ↦ rw e (find-erase_self n rest)
    | inr e ↦ rw (e, find_sink, e) (find-erase_self n rest)
  ]

  pub find-put_self :
      (n : Bytes) (s : Sink k) (sinks : SinkMap k) → find_sink n (put_sink n s sinks) ≡ some s
  unfolding find_sink put_sink
  find-put_self n s sinks = rw (same_bytes_refl n) refl

  pub find-put_other :
      (m n : Bytes) (s : Sink k) (sinks : SinkMap k)
      → m ≢ n
      → find_sink m (put_sink n s sinks) ≡ find_sink m sinks
  unfolding find_sink put_sink
  find-put_other m n s sinks h =
      rw (same_bytes-ne n m (λ q. h (sym q))) (find-erase_other m n sinks h)

  -- The map and the registry of spdlog agree.
  pub record IsConsistent (l : Logger k) : Type 0 where
    pub agrees :
        (n : Bytes) (s : Sink k)
        → find_sink n l.file_loggers ≡ some s
        → (s.name ≡ n) × (k.file_of n l.registry ≡ some s.path)

  -- The logger that `init_file` sets up.
  abbrev pub dressed : Bytes → Bytes → Bool → Bool → Config k → Sink k
  dressed n path pure error p = record {
    name = n;
    path = path;
    pattern = if pure then unstamped else stamped;
    level = if error then k.err_level else p.level;
  }

  -- What changes under the name `n`, and what stays.
  pub record Sets (n : Bytes) (now : Option (Sink k)) (l q : Logger k) : Type 0 where
    pub there : find_sink n q.file_loggers ≡ now
    pub elsewhere : (m : Bytes) → m ≢ n → find_sink m q.file_loggers ≡ find_sink m l.file_loggers
    pub consistent : IsConsistent q
    pub same_param : q.param ≡ l.param
    pub same_time : q.time_base ≡ l.time_base
    pub same_folder : q.file_folder ≡ l.file_folder
    pub same_console : q.console ≡ l.console
    pub same_all : q.file_all ≡ l.file_all
    pub same_all_pure : q.file_all_pure ≡ l.file_all_pure

  -- A map in which only `n` is set anew, with a registry in which only its file may be.
  consistent_put :
      (n : Bytes) (s : Sink k) (l : Logger k) (sinks : SinkMap k) (r : k.Registry)
      → s.name ≡ n
      → k.file_of n r ≡ some s.path
      → ((m : Bytes) → m ≢ n → find_sink m sinks ≡ find_sink m l.file_loggers)
      → ((m : Bytes) → m ≢ n → k.file_of m r ≡ k.file_of m l.registry)
      → IsConsistent l
      → (m : Bytes) (t : Sink k) → find_sink m (put_sink n s sinks) ≡ some t
      → (t.name ≡ m) × (k.file_of m r ≡ some t.path)
  consistent_put n s l sinks r name file same_map same_files v m t e =
      elim (Bool-cases (same_bytes m n)) [
        | inl at_n ↦
            let m_is : m ≡ n = same_bytes-eq m n at_n in
            let is : s ≡ t =
              let found : find_sink n (put_sink n s sinks) ≡ some t = rw m_is at e in
              let put = find-put_self n s sinks in cc in
            subst (λ x. (x.name ≡ m) × (k.file_of m r ≡ some x.path)) is
              (name ∙ sym m_is, ap (λ x. k.file_of x r) m_is ∙ file)
        | inr other ↦
            let apart : m ≢ n = ne_of_same_bytes m n other in
            let old =
              v.agrees m t
                (sym (same_map m apart) ∙ (sym (find-put_other m n s sinks apart) ∙ e)) in
            (old.0, same_files m apart ∙ old.1)
      ]

  -- The end of `init_file`, after which the logger is in the map.
  pub dress_sink-Sets :
      (n path : Bytes) (pure error : Bool) (s : Sink k) (l : Logger k) (r : k.Registry)
      → s.name ≡ n
      → s.path ≡ path
      → k.file_of n r ≡ some path
      → ((m : Bytes) → m ≢ n → k.file_of m r ≡ k.file_of m l.registry)
      → IsConsistent l
      → Sets n
          (some (dressed n path pure error l.param))
          l
          (dress_sink n pure error s (record l { registry = r }))
  unfolding dress_sink
  dress_sink-Sets n path pure error s l r name at_path file others v =
      let t : Sink k = record s {
        pattern = if pure then unstamped else stamped;
        level = if error then k.err_level else l.param.level;
      } in
      let is : t ≡ dressed n path pure error l.param = cc in
      record {
        there = find-put_self n t l.file_loggers ∙ ap some is;
        elsewhere = λ m h. find-put_other m n t l.file_loggers h;
        consistent = record {
          agrees =
              consistent_put n t l l.file_loggers r name (file ∙ ap some (sym at_path))
                (λ m h. refl) others v;
        };
        same_param = refl;
        same_time = refl;
        same_folder = refl;
        same_console = refl;
        same_all = refl;
        same_all_pure = refl;
      }

  pub kept-Sets :
      (n : Bytes) (l : Logger k)
      → find_sink n l.file_loggers ≡ none
      → IsConsistent l
      → Sets n none l l
  kept-Sets n l e v = record {
    there = e;
    elsewhere = λ m h. refl;
    consistent = v;
    same_param = refl;
    same_time = refl;
    same_folder = refl;
    same_console = refl;
    same_all = refl;
    same_all_pure = refl;
  }
