-- ===== src/Shell/Plain.antt =====
-- A line of programs joined by '&', in the main loop of processes-shell/wish3.c.
use ostep_projects_finish.Common.{
  ◌+◌, ◌≤◌, ◌≡◌, refl, sym, ap, ◌∙◌, Bool, true, false, Option, some, List, [], ◌∷◌, ◌++◌,
  append_assoc, append-nil, map, length, length-append, str_eq, arith,
}
use ostep_projects_finish.Common.Text.{Bytes}
use ostep_projects_finish.Shell.{input_fix}
use ostep_projects_finish.Shell.Loop.{
  Command, Event, run, wait, Wish, is_parallel, pieces, is_skipped, max_list, System,
}
use ostep_projects_finish.Shell.Line.{do_part, do_parts, child, run_queued, do_line}
use ostep_projects_finish.Shell.Part.{newline, counted, IsPlain, queue_of, do_part-plain}

-- The shell between two lines: no redirection is under way, and the lists are reset.
abbrev pub idle : List Bytes → Bytes → Option Bytes → Bytes → List Event → Wish
idle path fold output temp events = counted 0 path fold output temp [] events

module _ (sys : System) where
  -- Parts that are skipped or start a program, with the programs and their parameters.
  pub data AllPlain (path : List Bytes) : List Bytes → List (Bytes × List Bytes) → Type 0 where
    no_part : AllPlain path [] []
    skipped :
        {p : Bytes} {ps : List Bytes} {cs : List (Bytes × List Bytes)}
        → is_skipped p ≡ true
        → AllPlain path ps cs
        → AllPlain path (p ∷ ps) cs
    plain :
        {p name : Bytes} {parameter : List Bytes} {ps : List Bytes} {cs : List (Bytes × List Bytes)}
        → IsPlain sys path p name parameter
        → AllPlain path ps cs
        → AllPlain path (p ∷ ps) ((name, parameter) ∷ cs)

  commands : List (Bytes × List Bytes) → List Command
  commands cs = map (λ c. queue_of sys c.0 c.1) cs

  do_parts-skipped :
      (p : Bytes) (ps : List Bytes) (s : Wish)
      → is_skipped p ≡ true
      → do_parts sys (p ∷ ps) s ≡ do_parts sys ps s
  unfolding do_parts do_part
  do_parts-skipped p ps s h = rw (do_parts, do_part, h) refl

  do_parts-next :
      (p : Bytes) (ps : List Bytes) (s t : Wish)
      → do_part sys p s ≡ some (false, t)
      → do_parts sys (p ∷ ps) s ≡ do_parts sys ps t
  unfolding do_parts
  do_parts-next p ps s t h = rw (do_parts, h) refl

  do_parts-plain :
      (path : List Bytes) (fold : Bytes) (output : Option Bytes) (temp : Bytes) (q : List Command)
      (e : List Event) (ps : List Bytes) (cs : List (Bytes × List Bytes))
      → AllPlain path ps cs
      → length q + length cs ≤ max_list
      → (temp' : Bytes) × (do_parts sys ps (counted 0 path fold output temp q e)
          ≡ some (false, counted 0 path fold output temp' (q ++ commands cs) e))
  unfolding do_parts commands
  do_parts-plain path fold output temp q e [] [] no_part h =
      (temp, ap (λ r. some (false, counted 0 path fold output temp r e)) (sym (append-nil q)))
  do_parts-plain path fold output temp q e [] (c ∷ cs) a h = elim a [ ]
  do_parts-plain path fold output temp q e (p ∷ ps) cs (skipped k a) h =
      let later = do_parts-plain path fold output temp q e ps cs a h in
      (later.0, do_parts-skipped p ps (counted 0 path fold output temp q e) k ∙ later.1)
  do_parts-plain path fold output temp q e (p ∷ ps) ((name, parameter) ∷ cs) (plain o a) h =
      let c = queue_of sys name parameter in
      let room = length-append q (c ∷ []) in
      let later =
        do_parts-plain path fold output (o.text ++ newline) (q ++ (c ∷ [])) e ps cs a
          (omega arith) in
      (
        later.0,
        do_parts-next p ps (counted 0 path fold output temp q e) _
              (do_part-plain sys path fold output p name parameter temp q e o (omega arith))
            ∙ later.1
            ∙ ap (λ r. some (false, counted 0 path fold output later.0 r e))
                (append_assoc q (c ∷ []) (commands cs)),
      )

  -- The programs of a line, started with the standard output of the shell, and with its environment if
  -- `environment` holds.
  abbrev pub runs_of : Bool → Option Bytes → List (Bytes × List Bytes) → List Event
  runs_of environment output cs = map (λ c. run c.0 c.1 output environment) cs

  -- They are all started before the shell waits for them.
  abbrev pub line_of : Bool → Option Bytes → List (Bytes × List Bytes) → List Event
  line_of environment output cs = runs_of environment output cs ++ (wait ∷ [])

  children :
      (output : Option Bytes) (cs : List (Bytes × List Bytes))
      → map (child sys output) (commands cs) ≡ runs_of true output cs
  unfolding commands
  children output [] = refl
  children output ((name, parameter) ∷ cs) =
      ap (λ es. run name parameter output true ∷ es) (children output cs)

  end_line :
      (str fixed : Bytes) (s t : Wish)
      → input_fix sys.before str ≡ some fixed
      → do_parts sys ([] ∷ pieces is_parallel fixed) s ≡ some (false, t)
      → do_line sys str s ≡ some (false, run_queued sys t)
  unfolding do_line
  end_line str fixed s t f d = rw (do_line, f, d) refl

  pub nothing : is_skipped [] ≡ true
  unfolding str_eq
  nothing = refl

  -- A line whose parts between '&' each start a program that is found, at most 100 of them and with at
  -- most four arguments each: the shell
  -- starts them all, in their order, with their parameters, its own standard output and environment,
  -- then waits for them all, and is ready for the next line.
  pub do_line-plain :
      (path : List Bytes) (fold : Bytes) (output : Option Bytes) (temp : Bytes) (e : List Event)
      (str fixed : Bytes) (cs : List (Bytes × List Bytes))
      → input_fix sys.before str ≡ some fixed
      → AllPlain path (pieces is_parallel fixed) cs
      → length cs ≤ max_list
      → (temp' : Bytes) × (do_line sys str (idle path fold output temp e)
          ≡ some (false, idle path fold output temp' (e ++ line_of true output cs)))
  do_line-plain path fold output temp e str fixed cs f a h =
      let parts =
        do_parts-plain path fold output temp [] e ([] ∷ pieces is_parallel fixed) cs
          (skipped nothing a) (omega arith) in
      (
        parts.0,
        end_line str fixed (idle path fold output temp e) _ f parts.1
            ∙ ap (λ es. some (false, idle path fold output parts.0 (e ++ (es ++ (wait ∷ [])))))
                (children output cs),
      )
