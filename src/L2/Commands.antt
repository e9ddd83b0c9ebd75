-- ===== src/L2/Commands.antt =====
-- The codes that are forwarded: what a batch of commands makes of the set, and when the set is
-- reported.
use s4_lib_lite.Prelude.{
  ℕ, ◌+◌, ◌^◌, ◌<◌, ◌≡◌, refl, ap, ◌∙◌, List, [], ◌∷◌, some, Bool, true, false, not, ◌&&◌, ◌||◌,
  ◌==◌, if◌then◌else◌, length, arith, Bool-cases, inl, inr, ◌⊎◌, ltb,
}
use s4_lib_lite.L2.Wire.{LiveCmd, contains, insert, erase, run_cmds, done, crashed}
use s4_lib_lite.L2.Receiver.{Sink, Receiver, proc_cmd_q, report_stats}

-- Whether a code is wanted after the commands: the last command about it decides.
unfoldable pub wanted : ℕ → List LiveCmd → Bool → Bool
wanted c [] before = before
wanted c (x ∷ xs) before = wanted c xs (if x.code == c then x.add else before)

contains-insert : (c x : ℕ) (xs : List ℕ) → contains (insert x xs) c ≡ (x == c || contains xs c)
unfolding insert
contains-insert c x xs = elim (Bool-cases (contains xs x)) [
  | inl old ↦ rw old (ground arith)
  | inr new ↦ rw new refl
]

contains-erase : (c x : ℕ) (xs : List ℕ) → contains (erase x xs) c ≡ (not (x == c) && contains xs c)
unfolding contains erase
contains-erase c x [] = ground arith
contains-erase c x (y ∷ ys) = ground (arith, contains-erase c x ys)

-- The set after a batch of commands.
pub run_cmds-wanted :
    (cs : List LiveCmd) (live : List ℕ) (c : ℕ)
    → contains (run_cmds cs live) c ≡ wanted c cs (contains live c)
unfolding run_cmds wanted
run_cmds-wanted [] live c = refl
run_cmds-wanted (x ∷ xs) live c =
    run_cmds-wanted xs (if x.add then insert x.code live else erase x.code live) c
    ∙ ap (wanted c xs) (ground (arith, contains-insert c x.code live, contains-erase c x.code live))

-- Every code stands once in the set.
abbrev pub Once : List ℕ → Type 0
Once [] = Unit {0}
Once (x ∷ xs) = (contains xs x ≡ false) × Once xs

insert-Once : (x : ℕ) (xs : List ℕ) → Once xs → Once (insert x xs)
unfolding insert
insert-Once x xs h = ground arith

erase-Once : (x : ℕ) (xs : List ℕ) → Once xs → Once (erase x xs)
unfolding erase
erase-Once x [] h = tt
erase-Once x (y ∷ ys) h = ground (arith, erase-Once x ys h.1, contains-erase y x ys)

run_cmds-Once : (cs : List LiveCmd) (live : List ℕ) → Once live → Once (run_cmds cs live)
unfolding run_cmds
run_cmds-Once [] live h = h
run_cmds-Once (x ∷ xs) live h =
    run_cmds-Once xs _ (ground (arith, insert-Once x.code live h, erase-Once x.code live h))

module _ {k : Sink} where
  -- From a set in which every code stands once, either the batch is empty and ends the process, or
  -- the call returns with a set in which each code is as the last command about it says, or as before
  -- if there is none; every code stands once in it, its size is in the statistics, which are left
  -- alone otherwise, and the queue is unchanged.
  pub proc_cmd_q_lem :
      (cs : List LiveCmd) (r : Receiver k)
      → Once r.live_list
      → ((cs ≡ []) × (proc_cmd_q (some cs) r ≡ crashed))
        ⊎ ((t : Receiver k) × (proc_cmd_q (some cs) r ≡ done t)
            × ((c : ℕ) → contains t.live_list c ≡ wanted c cs (contains r.live_list c))
            × Once t.live_list
            × (t.stats ≡ record (r.stats) { live_code_nb = length t.live_list })
            × (t.queue ≡ r.queue))
  unfolding proc_cmd_q
  proc_cmd_q_lem [] r h = inl (refl, refl)
  proc_cmd_q_lem (x ∷ xs) r h =
      let live = run_cmds (x ∷ xs) r.live_list in
      let t : Receiver k = record r {
        live_list = live;
        stats = record (r.stats) { live_code_nb = length live };
      } in
      inr (
        t,
        refl,
        run_cmds-wanted (x ∷ xs) r.live_list,
        run_cmds-Once (x ∷ xs) r.live_list h,
        refl,
        refl,
      )

  -- After a forced report at the time `a`, where `a` and the interval stay below 2 ^ 64, an unforced
  -- one at the time `b` does nothing before the end of the interval, and from then on what a forced
  -- one does.
  report_stats-interval :
      (a b : ℕ) (r t : Receiver k)
      → a + r.report_interval_ms < 2 ^ 64
      → report_stats true a r ≡ done t
      → report_stats false b t
        ≡ (if ltb b (a + r.report_interval_ms) then done t else report_stats true b t)
  unfolding report_stats
  report_stats-interval a b r t h e = ground arith
