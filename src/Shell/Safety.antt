-- ===== src/Shell/Safety.antt =====
-- What the main loop of processes-shell/wish3.c never does, whatever it reads.
use ostep_projects_finish.Common.{
  All-append, ℕ, Bool, true, false, ◌&&◌, Option, none, some, List, [], ◌∷◌, ◌++◌, map, length, leb,
  ◌==◌, if◌then◌else◌, All, Bool-cases, inl, inr,
}
use mathlib.Core.Option
use ostep_projects_finish.Common.Text.{Bytes}
use ostep_projects_finish.Shell.{input_fix}
use ostep_projects_finish.Shell.Loop.{
  Command, Event, error_message, wait, Wish, Flow, next, stop, exited, is_redirect, is_parallel,
  pieces, is_skipped, count_byte, note, max_list, System,
}
use ostep_projects_finish.Shell.Line.{
  do_piece, do_pieces, start_part, end_part, do_part, do_parts, child, run_queued, do_line,
  do_lines, main,
}
use ostep_projects_finish.Shell.Pieces.{
  IsFound, IsReady, IsSafe, After, AfterAll, note-IsSafe, either-IsSafe, do_piece-IsSafe,
}

module _ (sys : System) where
  do_pieces-IsSafe : (ps : List Bytes) (s : Wish) → IsSafe sys s → After sys (do_pieces sys ps s)
  unfolding do_pieces
  do_pieces-IsSafe [] s safe = safe
  do_pieces-IsSafe (p ∷ ps) s safe =
      go (do_pieces-IsSafe ps) (do_piece sys p s) (do_piece-IsSafe sys p s safe)
    where
      go :
          ((t : Wish) → IsSafe sys t → After sys (do_pieces sys ps t))
          → (r : Option (Flow × Wish)) → After sys r
          → After sys (elim r [
            | none ↦ none
            | some (flow, s') ↦ elim flow [
              | next ↦ do_pieces sys ps s'
              | stop ↦ some (false, s')
              | exited ↦ some (true, s')
            ]
          ])
      go later none h = tt
      go later (some (next, t)) h = later t h
      go later (some (stop, t)) h = h
      go later (some (exited, t)) h = h

  start_part-IsSafe :
      (fixed : Bytes) (s : Wish) → IsSafe sys s → IsSafe sys (start_part sys fixed s)
  start_part-IsSafe fixed s safe = either-IsSafe sys (count_byte 62 fixed == 0) s _ safe safe

  end_part-IsSafe : (s : Wish) → IsSafe sys s → IsSafe sys (end_part sys s)
  end_part-IsSafe s safe =
      either-IsSafe sys (s.redirect_label && s.count_file == 1) (note error_message s) s
        (note-IsSafe sys error_message s tt safe) safe

  do_part-IsSafe : (part : Bytes) (s : Wish) → IsSafe sys s → After sys (do_part sys part s)
  unfolding do_part
  do_part-IsSafe part s safe = elim (Bool-cases (is_skipped part)) [
    | inl e ↦ rw e safe
    | inr e ↦ rw e (fixes (input_fix sys.before (part ++ (10 ∷ []))))
  ]
    where
      ends :
          (r : Option (Bool × Wish))
          → After sys r
          → After sys (elim r [
            | none ↦ none
            | some (is_exited, s') ↦ some (is_exited, if is_exited then s' else end_part sys s')
          ])
      ends none h = tt
      ends (some (is_exited, t)) h =
          either-IsSafe sys is_exited t (end_part sys t) h (end_part-IsSafe t h)

      fixes :
          (r : Option Bytes)
          → After sys (elim r [
            | none ↦ none
            | some fixed ↦
                if leb 1 (count_byte 62 fixed) && leb max_list (length s.queued)
                then none
                else elim (do_pieces sys ([] ∷ pieces is_redirect fixed) (start_part sys fixed s)) [
                  | none ↦ none
                  | some (is_exited, s') ↦
                      some (is_exited, if is_exited then s' else end_part sys s')
                ]
          ])
      fixes none = tt
      fixes (some fixed) =
          elim (Bool-cases (leb 1 (count_byte 62 fixed) && leb max_list (length s.queued))) [
            | inl e ↦ rw e tt
            | inr e ↦ rw e (
                ends (do_pieces sys ([] ∷ pieces is_redirect fixed) (start_part sys fixed s)) (
                  do_pieces-IsSafe ([] ∷ pieces is_redirect fixed) (start_part sys fixed s)
                    (start_part-IsSafe fixed s safe)))
          ]

  do_parts-IsSafe : (ps : List Bytes) (s : Wish) → IsSafe sys s → After sys (do_parts sys ps s)
  unfolding do_parts
  do_parts-IsSafe [] s safe = safe
  do_parts-IsSafe (p ∷ ps) s safe =
      go (do_parts-IsSafe ps) (do_part sys p s) (do_part-IsSafe p s safe)
    where
      go :
          ((t : Wish) → IsSafe sys t → After sys (do_parts sys ps t))
          → (r : Option (Bool × Wish)) → After sys r
          → After sys (elim r [
            | none ↦ none
            | some (is_exited, s') ↦ if is_exited then some (true, s') else do_parts sys ps s'
          ])
      go later none h = tt
      go later (some (true, t)) h = h
      go later (some (false, t)) h = later t h

  child-IsFound :
      (output : Option Bytes) (cs : List Command)
      → All (IsReady sys) cs
      → All (IsFound sys) (map (child sys output) cs)
  child-IsFound output [] a = tt
  child-IsFound output (c ∷ cs) a = (a.0, child-IsFound output cs a.1)

  run_queued-IsSafe : (s : Wish) → IsSafe sys s → IsSafe sys (run_queued sys s)
  run_queued-IsSafe s safe = (
    All-append (IsFound sys) s.events (map (child sys s.output) s.queued ++ (wait ∷ [])) safe.0 (
        All-append (IsFound sys) (map (child sys s.output) s.queued) (wait ∷ [])
          (child-IsFound s.output s.queued safe.1) (tt, tt)),
    tt,
  )

  do_line-IsSafe : (str : Bytes) (s : Wish) → IsSafe sys s → After sys (do_line sys str s)
  unfolding do_line
  do_line-IsSafe str s safe = fixes (input_fix sys.before str)
    where
      ends :
          (r : Option (Bool × Wish))
          → After sys r
          → After sys (elim r [
            | none ↦ none
            | some (is_exited, s') ↦ some (is_exited, if is_exited then s' else run_queued sys s')
          ])
      ends none h = tt
      ends (some (is_exited, t)) h =
          either-IsSafe sys is_exited t (run_queued sys t) h (run_queued-IsSafe t h)

      fixes :
          (r : Option Bytes)
          → After sys (elim r [
            | none ↦ none
            | some fix_str_origin ↦ elim (do_parts sys ([] ∷ pieces is_parallel fix_str_origin) s) [
              | none ↦ none
              | some (is_exited, s') ↦ some (is_exited, if is_exited then s' else run_queued sys s')
            ]
          ])
      fixes none = tt
      fixes (some fixed) =
          ends (do_parts sys ([] ∷ pieces is_parallel fixed) s)
            (do_parts-IsSafe ([] ∷ pieces is_parallel fixed) s safe)

  do_lines-IsSafe :
      (lines : List Bytes) (s : Wish) → IsSafe sys s → AfterAll sys (do_lines sys lines s)
  unfolding do_lines
  do_lines-IsSafe [] s safe = safe
  do_lines-IsSafe (str ∷ lines) s safe =
      go (do_lines-IsSafe lines) (do_line sys str s) (do_line-IsSafe str s safe)
    where
      go :
          ((t : Wish) → IsSafe sys t → AfterAll sys (do_lines sys lines t))
          → (r : Option (Bool × Wish)) → After sys r
          → AfterAll sys (elim r [
            | none ↦ none
            | some (is_exited, s') ↦ if is_exited then some s' else do_lines sys lines s'
          ])
      go later none h = tt
      go later (some (true, t)) h = h
      go later (some (false, t)) h = later t h

  abbrev pub EventsFound : Option (List Event × ℕ) → Type 0
  EventsFound none = Unit {0}
  EventsFound (some (events, status)) = All (IsFound sys) events

  with_status : (r : Option Wish) → AfterAll sys r → EventsFound (Option.map (λ s. (s.events, 0)) r)
  with_status none h = tt
  with_status (some s) h = h.0

  -- Whatever the shell reads and with whatever arguments it is called, unless an access outside of an
  -- array ends it, it starts only programs that `access` has found.
  pub main-IsFound :
      (stdin : List Bytes) (args : List (Option (List Bytes))) → EventsFound (main sys stdin args)
  unfolding main
  main-IsFound stdin [] = with_status _ (do_lines-IsSafe stdin _ (tt, tt))
  main-IsFound stdin (none ∷ []) = (tt, tt)
  main-IsFound stdin (some lines ∷ []) = with_status _ (do_lines-IsSafe lines _ (tt, tt))
  main-IsFound stdin (a ∷ b ∷ args) = (tt, tt)
