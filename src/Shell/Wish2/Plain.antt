-- ===== src/Shell/Wish2/Plain.antt =====
-- A line of programs joined by '&', in the main loop of processes-shell/wish2.c, and that wish3.c does the
-- same with it.
use ostep_projects_finish.Common.{
  ℕ, ◌≤◌, ◌≡◌, Bool, refl, sym, ap, ◌∙◌, true, false, Option, none, some, List, [], ◌∷◌, ◌++◌,
  append_assoc, append-nil, length, str_eq, codes,
}
use mathlib.Core.Option
use ostep_projects_finish.Common.Text.{Bytes}
use ostep_projects_finish.Shell.{input_fix}
use ostep_projects_finish.Shell.Loop.{
  Event, run, wait, next, is_newline, is_parallel, strsep, pieces, is_skipped, max_list, System,
  near_fold, Wish,
}
use ostep_projects_finish.Shell.Line
use ostep_projects_finish.Shell.Part.{newline, IsPlain, pieces-one, count-newline}
use ostep_projects_finish.Shell.Plain.{
  idle, AllPlain, no_part, skipped, plain, runs_of, line_of, nothing,
  do_line-plain as queued_line-plain,
}
use ostep_projects_finish.Shell.Wish2.{
  Locals, start_program, execute, finish_round, do_piece, do_pieces, do_part, do_parts, do_line,
  do_lines, main,
}

-- The shell between two parts of a line, or, when `n` is 1, behind the program of a part.
abbrev counted : ℕ → List Bytes → Bytes → Option Bytes → Bytes → List Event → Locals
counted n path fold output temp events = record {
  command_path = path;
  fold = fold;
  output = output;
  redirect = 0;
  redirect_label = false;
  count_file = n;
  temp = temp;
  events = events;
}

module _ (sys : System) where
  module _ (path : List Bytes) (fold : Bytes) (output : Option Bytes) where
    do_piece_empty :
        (n : ℕ) (temp : Bytes) (e : List Event)
        → do_piece sys [] (counted n path fold output temp e)
          ≡ some (next, counted n path fold output temp e)
    unfolding do_piece str_eq
    do_piece_empty n temp e = refl

    start_program-plain :
        (part name : Bytes) (ps : List Bytes) (temp : Bytes) (e : List Event)
        → (p : IsPlain sys path part name ps)
        → start_program sys p.token (strsep is_newline p.rest).0 (counted 0 path fold output temp e)
          ≡ some (counted 0 path fold output temp (e ++ (run name ps output false ∷ [])))
    unfolding start_program
    start_program-plain part name ps temp e p =
        rw (start_program, p.fits, p.parses, p.found, p.ends) refl

    execute-plain :
        (part name : Bytes) (ps : List Bytes) (temp : Bytes) (e : List Event)
        → (p : IsPlain sys path part name ps)
        → execute sys (p.text ++ newline) (counted 0 path fold output temp e)
          ≡ some (next, counted 0 path fold output temp (e ++ (run name ps output false ∷ [])))
    unfolding execute
    execute-plain part name ps temp e p =
        rw
          (
            execute,
            p.splits,
            p.splits,
            p.not_exit,
            p.not_cd,
            p.not_path,
            start_program-plain part name ps temp e p,
          )
          refl

    do_piece-plain :
        (part name : Bytes) (ps : List Bytes) (temp : Bytes) (e : List Event)
        → (p : IsPlain sys path part name ps)
        → do_piece sys p.text (counted 0 path fold output temp e)
          ≡ some (
            next,
            counted 1 path fold output (p.text ++ newline) (e ++ (run name ps output false ∷ [])),
          )
    unfolding finish_round do_piece
    do_piece-plain part name ps temp e p =
        rw (do_piece, p.some_text, execute-plain part name ps (p.text ++ newline) e p) refl

    do_pieces-plain :
        (part name : Bytes) (ps : List Bytes) (temp : Bytes) (e : List Event)
        → (p : IsPlain sys path part name ps)
        → do_pieces sys ([] ∷ p.text ∷ [] ∷ []) (counted 0 path fold output temp e)
          ≡ some (
            false,
            counted 1 path fold output (p.text ++ newline) (e ++ (run name ps output false ∷ [])),
          )
    unfolding do_pieces
    do_pieces-plain part name ps temp e p =
        rw
          (
            do_pieces,
            do_piece_empty 0 temp e,
            do_piece-plain part name ps temp e p,
            do_piece_empty 1 (p.text ++ newline) (e ++ (run name ps output false ∷ [])),
          )
          refl

    do_part-plain :
        (part name : Bytes) (ps : List Bytes) (temp : Bytes) (e : List Event)
        → (p : IsPlain sys path part name ps)
        → do_part sys part (counted 0 path fold output temp e)
          ≡ some (
            false,
            counted 0 path fold output (p.text ++ newline) (e ++ (run name ps output false ∷ [])),
          )
    unfolding do_part
    do_part-plain part name ps temp e p =
        rw
          (
            do_part,
            p.kept,
            p.fixes,
            count-newline p.text,
            p.no_redirect,
            pieces-one p.text p.no_redirect p.one_line,
            do_pieces-plain part name ps temp e p,
          )
          refl

    do_parts-next :
        (part : Bytes) (ps : List Bytes) (s t : Locals)
        → do_part sys part s ≡ some (false, t)
        → do_parts sys (part ∷ ps) s ≡ do_parts sys ps t
    unfolding do_parts
    do_parts-next part ps s t h = rw (do_parts, h) refl

    do_part_skipped :
        (part : Bytes) (s : Locals) → is_skipped part ≡ true → do_part sys part s ≡ some (false, s)
    unfolding do_part
    do_part_skipped part s h = rw (do_part, h) refl

    empty :
        (temp : Bytes) (e : List Event)
        → do_parts sys [] (counted 0 path fold output temp e)
          ≡ some (false, counted 0 path fold output temp e)
    unfolding do_parts
    empty temp e = refl

    do_parts-plain :
        (temp : Bytes) (e : List Event) (ps : List Bytes) (cs : List (Bytes × List Bytes))
        → AllPlain sys path ps cs
        → (temp' : Bytes) × (do_parts sys ps (counted 0 path fold output temp e)
            ≡ some (false, counted 0 path fold output temp' (e ++ runs_of sys false output cs)))
    do_parts-plain temp e [] [] no_part = (
      temp,
      empty temp e ∙ ap (λ r. some (false, counted 0 path fold output temp r)) (sym (append-nil e)),
    )
    do_parts-plain temp e [] (c ∷ cs) a = elim a [ ]
    do_parts-plain temp e (p ∷ ps) cs (skipped k a) =
        let later = do_parts-plain temp e ps cs a in
        (
          later.0,
          do_parts-next p ps (counted 0 path fold output temp e) _
                (do_part_skipped p (counted 0 path fold output temp e) k)
              ∙ later.1,
        )
    do_parts-plain temp e (p ∷ ps) ((name, parameter) ∷ cs) (plain o a) =
        let later =
          do_parts-plain (o.text ++ newline) (e ++ (run name parameter output false ∷ [])) ps cs
            a in
        (
          later.0,
          do_parts-next p ps (counted 0 path fold output temp e) _
                (do_part-plain p name parameter temp e o)
              ∙ later.1
              ∙ ap (λ r. some (false, counted 0 path fold output later.0 r))
                  (append_assoc e (run name parameter output false ∷ [])
                    (runs_of sys false output cs)),
        )

    -- A line whose parts between '&' each start a program that is found.
    do_line-plain :
        (temp : Bytes) (e : List Event) (str fixed : Bytes) (cs : List (Bytes × List Bytes))
        → input_fix sys.before str ≡ some fixed
        → AllPlain sys path (pieces is_parallel fixed) cs
        → (temp' : Bytes) × (do_line sys str (counted 0 path fold output temp e)
            ≡ some (false, counted 0 path fold output temp' (e ++ line_of sys false output cs)))
    unfolding do_line
    do_line-plain temp e str fixed cs f a =
        let parts =
          do_parts-plain temp e ([] ∷ pieces is_parallel fixed) cs (skipped (nothing sys) a) in
        (
          parts.0,
          rw (do_line, f, parts.1)
              (ap (λ r. some (false, counted 0 path fold output parts.0 r))
                (append_assoc e (runs_of sys false output cs) (wait ∷ []))),
        )

  -- Lines whose parts each start a program that is found, at most 100 in a line, with these programs.
  pub data AllLines (path : List Bytes)
      : List Bytes → List (List (Bytes × List Bytes)) → Type 0 where
    no_line : AllLines path [] []
    plain_line :
        {str fixed : Bytes} {lines : List Bytes} {cs : List (Bytes × List Bytes)}
        {css : List (List (Bytes × List Bytes))}
        → input_fix sys.before str ≡ some fixed
        → AllPlain sys path (pieces is_parallel fixed) cs
        → length cs ≤ max_list
        → AllLines path lines css
        → AllLines path (str ∷ lines) (cs ∷ css)

  abbrev pub runs_of_lines : Bool → Option Bytes → List (List (Bytes × List Bytes)) → List Event
  runs_of_lines environment output [] = []
  runs_of_lines environment output (cs ∷ css) =
      line_of sys environment output cs ++ runs_of_lines environment output css

  next_line :
      (str : Bytes) (lines : List Bytes) (s t : Locals)
      → do_line sys str s ≡ some (false, t)
      → do_lines sys (str ∷ lines) s ≡ do_lines sys lines t
  unfolding do_lines
  next_line str lines s t h = rw (do_lines, h) refl

  next_queued_line :
      (str : Bytes) (lines : List Bytes) (s t : Wish)
      → Line.do_line sys str s ≡ some (false, t)
      → Line.do_lines sys (str ∷ lines) s ≡ Line.do_lines sys lines t
  unfolding Line.do_lines
  next_queued_line str lines s t h = rw (Line.do_lines, h) refl

  module _ (path : List Bytes) (fold : Bytes) (output : Option Bytes) where
    do_lines-plain :
        (temp : Bytes) (e : List Event) (lines : List Bytes)
        (css : List (List (Bytes × List Bytes)))
        → AllLines path lines css
        → Option.map (λ s. s.events) (do_lines sys lines (counted 0 path fold output temp e))
          ≡ some (e ++ runs_of_lines false output css)
    do_lines-plain temp e [] [] no_line = unfold do_lines in ap some (sym (append-nil e))
    do_lines-plain temp e [] (cs ∷ css) a = elim a [ ]
    do_lines-plain temp e (str ∷ lines) [] a = elim a [ ]
    do_lines-plain temp e (str ∷ lines) (cs ∷ css) (plain_line f o h a) =
        let line = do_line-plain path fold output temp e str _ cs f o in
        ap (Option.map (λ s. s.events))
          (next_line str lines (counted 0 path fold output temp e) _ line.1)
        ∙ do_lines-plain (line.0) (e ++ line_of sys false output cs) lines css a
        ∙ ap some (append_assoc e (line_of sys false output cs) (runs_of_lines false output css))

    queued_lines-plain :
        (temp : Bytes) (e : List Event) (lines : List Bytes)
        (css : List (List (Bytes × List Bytes)))
        → AllLines path lines css
        → Option.map (λ s. s.events) (Line.do_lines sys lines (idle path fold output temp e))
          ≡ some (e ++ runs_of_lines true output css)
    queued_lines-plain temp e [] [] no_line = unfold Line.do_lines in ap some (sym (append-nil e))
    queued_lines-plain temp e [] (cs ∷ css) a = elim a [ ]
    queued_lines-plain temp e (str ∷ lines) [] a = elim a [ ]
    queued_lines-plain temp e (str ∷ lines) (cs ∷ css) (plain_line f o h a) =
        let line = queued_line-plain sys path fold output temp e str _ cs f o h in
        ap (Option.map (λ s. s.events))
          (next_queued_line str lines (idle path fold output temp e) _ line.1)
        ∙ queued_lines-plain (line.0) (e ++ line_of sys true output cs) lines css a
        ∙ ap some (append_assoc e (line_of sys true output cs) (runs_of_lines true output css))

  abbrev pub bin : List Bytes
  bin = (codes "/bin" ++ (47 ∷ [])) ∷ []

  -- What `main` returns of the state behind the lines.
  abbrev with_status : Option (List Event) → Option (List Event × ℕ)
  with_status e = Option.map (λ es. (es, 0)) e

  ended :
      (s : Option Locals)
      → Option.map {B = List Event × ℕ} (λ t. (t.events, 0)) s
        ≡ with_status (Option.map (λ t. t.events) s)
  ended none = refl
  ended (some t) = refl

  queued_ended :
      (s : Option Wish)
      → Option.map {B = List Event × ℕ} (λ t. (t.events, 0)) s
        ≡ with_status (Option.map (λ t. t.events) s)
  queued_ended none = refl
  queued_ended (some t) = refl

  -- On lines whose parts between '&' each start a program that is found in /bin, with at most four
  -- arguments and at most 100 in a line, wish2 and wish3 both start the programs of a line, in their order
  -- and with these arguments, before they wait for them all, whether they read the lines from the terminal
  -- or from a file, and end with the status 0; but wish3 hands its environment on to the programs, and
  -- wish2 starts them with an empty one.
  pub main-wish3 :
      (stdin lines : List Bytes) (css : List (List (Bytes × List Bytes)))
      → AllLines bin lines css
      → (main sys lines [] ≡ some (runs_of_lines false none css, 0))
        × (main sys stdin (some lines ∷ []) ≡ some (runs_of_lines false none css, 0))
        × (Line.main sys lines [] ≡ some (runs_of_lines true none css, 0))
        × (Line.main sys stdin (some lines ∷ []) ≡ some (runs_of_lines true none css, 0))
  unfolding main Line.main
  main-wish3 stdin lines css a = (
    ended (do_lines sys lines (counted 0 bin (near_fold sys []) none [] []))
        ∙ ap with_status (do_lines-plain bin (near_fold sys []) none [] [] lines css a),
    ended (do_lines sys lines (counted 0 bin [] none [] []))
        ∙ ap with_status (do_lines-plain bin [] none [] [] lines css a),
    queued_ended (Line.do_lines sys lines (idle bin (near_fold sys []) none [] []))
        ∙ ap with_status (queued_lines-plain bin (near_fold sys []) none [] [] lines css a),
    queued_ended (Line.do_lines sys lines (idle bin [] none [] []))
        ∙ ap with_status (queued_lines-plain bin [] none [] [] lines css a),
  )
