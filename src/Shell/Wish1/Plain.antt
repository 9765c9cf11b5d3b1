-- ===== src/Shell/Wish1/Plain.antt =====
-- A line of programs joined by '&', in the main loop of processes-shell/wish.c, and that wish2.c does the
-- same with it.
use ostep_projects_finish.Common.{
  ℕ, ◌≤◌, ◌≡◌, refl, sym, ap, ◌∙◌, Bool, true, false, Option, none, some, List, [], ◌∷◌, ◌++◌,
  append_assoc, append-nil, length, str_eq, arith, codes, ◌==◌, if◌then◌else◌, Bool-cases, inl, inr,
}
use mathlib.Core.Bool.{false≢true}
use mathlib.Core.Option
use ostep_projects_finish.Common.Text.{Bytes}
use ostep_projects_finish.Shell.{input_fix}
use ostep_projects_finish.Shell
use ostep_projects_finish.Shell.Loop.{
  Event, run, wait, next, is_newline, is_parallel, strsep, pieces, is_skipped, count_byte, max_list,
  System, near_fold,
}
use ostep_projects_finish.Shell.Part.{newline, IsPlain, count-newline}
use ostep_projects_finish.Shell.Plain.{AllPlain, no_part, skipped, plain, nothing}
use ostep_projects_finish.Shell.Wish2
use ostep_projects_finish.Shell.Wish2.Plain.{
  AllLines, no_line, plain_line, runs_of_lines, bin, main-wish3,
}
use ostep_projects_finish.Shell.Wish1.{
  Locals, find_command, parameters, begins_redirect, pieces_left, start_program, execute, do_part,
  do_parts, run_parts, finish_round, skip_piece, do_piece, do_pieces, do_line, do_lines, main,
}

-- The shell between two parts of a line, or two lines.
abbrev state : ℕ → ℕ → List Bytes → Bytes → Option Bytes → Bytes → List Event → Locals
state n pro path fold output temp events = record {
  command_path = path;
  fold = fold;
  output = output;
  redirect = false;
  count_file = n;
  count_file_pro = pro;
  temp = temp;
  events = events;
}

pieces_left-one :
    (text : Bytes)
    → count_byte 62 text ≡ 0
    → count_byte 10 text ≡ 0
    → pieces_left (text ++ newline) ≡ (text, some []) ∷ ([], none) ∷ []
unfolding pieces_left
pieces_left-one [] h k = refl
pieces_left-one (c ∷ text) h k = elim (Bool-cases (c == 62)) [
  | inl e ↦ absurd (omega (arith, rw e at h))
  | inr e ↦ elim (Bool-cases (c == 10)) [
    | inl f ↦ absurd (omega (arith, rw f at k))
    | inr f ↦
        rw (e, f, pieces_left-one text (omega (arith, rw e at h)) (omega (arith, rw f at k))) refl
  ]
]

begins_redirect-line :
    (text : Bytes) → count_byte 62 text ≡ 0 → begins_redirect (some (text ++ newline)) ≡ false
unfolding begins_redirect
begins_redirect-line [] h = refl
begins_redirect-line (c ∷ text) h = elim (Bool-cases (c == 62)) [
  | inl e ↦ absurd (omega (arith, rw e at h))
  | inr e ↦ e
]

-- What `exec_zx` gives, of a name and its parameters.
abbrev named : Bytes → List Bytes → Bytes × List Bytes
named name parameter = (name, parameter)

some_parameters :
    (b : Bool) (name : Bytes) (parameter : List Bytes)
    → (if b then some (named name parameter) else none)
      ≡ Option.map (named name) (if b then some parameter else none)
some_parameters true name parameter = refl
some_parameters false name parameter = refl

exec_zx-parameters :
    (access : Bytes → Bool) (token para : Bytes) (path : List Bytes)
    → Shell.exec_zx access token para path
      ≡ Option.map (named (Shell.find_command access token path)) (parameters token para)
unfolding Shell.exec_zx parameters
exec_zx-parameters access token [] path = refl
exec_zx-parameters access token (c ∷ para) path =
    some_parameters _ (Shell.find_command access token path) _

map-some :
    (m : Option (List Bytes)) (found name : Bytes) (ps : List Bytes)
    → Option.map (named found) m ≡ some (named name ps)
    → (found ≡ name) × (m ≡ some ps)
map-some none found name ps e = ground arith
map-some (some qs) found name ps e = ground arith

found-one :
    (access : Bytes → Bool) (token path name : Bytes)
    → access [] ≡ false
    → Shell.find_command access token (path ∷ []) ≡ name
    → access name ≡ true
    → path ++ token ≡ name
unfolding Shell.find_command
found-one access token path name no_name e found = elim (Bool-cases (access (path ++ token))) [
  | inl there ↦ sym (rw there refl) ∙ e
  | inr not_there ↦
      absurd (false≢true (sym no_name ∙ ap access (sym (rw not_there refl) ∙ e) ∙ found))
]

-- With one directory in the search path, the name that is tried is the one that the later versions find.
find_command-one :
    (access : Bytes → Bool) (token path name para : Bytes) (ps : List Bytes)
    → access [] ≡ false
    → Shell.exec_zx access token para (path ∷ []) ≡ some (name, ps)
    → access name ≡ true
    → (find_command access token (path ∷ []) ≡ some name) × (parameters token para ≡ some ps)
unfolding find_command
find_command-one access token path name para ps no_name e found =
    let (f, p) =
      map-some (parameters token para) (Shell.find_command access token (path ∷ [])) name ps
        (sym (exec_zx-parameters access token para (path ∷ [])) ∙ e) in
    (ap some (found-one access token path name no_name f found), p)

-- The programs of a line, each started with an empty environment when the one before has ended.
abbrev pub one_by_one : Option Bytes → List (Bytes × List Bytes) → List Event
one_by_one output [] = []
one_by_one output (c ∷ cs) = run c.0 c.1 output false ∷ wait ∷ one_by_one output cs

abbrev pub one_by_one_lines : Option Bytes → List (List (Bytes × List Bytes)) → List Event
one_by_one_lines output [] = []
one_by_one_lines output (cs ∷ css) = one_by_one output cs ++ one_by_one_lines output css

module _ (sys : System) (no_name : sys.access [] ≡ false) where
  module _ (dir fold : Bytes) (output : Option Bytes) (n pro : ℕ) (temp : Bytes) where
    -- The shell behind the events `e`.
    abbrev after : List Event → Locals
    after e = state n pro (dir ∷ []) fold output temp e

    start_program-plain :
        (part name : Bytes) (ps : List Bytes) (e : List Event)
        → (p : IsPlain sys (dir ∷ []) part name ps)
        → start_program sys p.token (strsep is_newline p.rest).0 (after e)
          ≡ some (after (e ++ (run name ps output false ∷ wait ∷ [])))
    unfolding start_program
    start_program-plain part name ps e p =
        let (f, q) =
          find_command-one sys.access p.token dir name (strsep is_newline p.rest).0 ps no_name
            p.parses p.found in
        rw (start_program, p.fits, f, q, p.found, p.ends) refl

    execute-plain :
        (part name : Bytes) (ps : List Bytes) (e : List Event)
        → (p : IsPlain sys (dir ∷ []) part name ps)
        → execute sys (p.text ++ newline) (after e)
          ≡ some (next, after (e ++ (run name ps output false ∷ wait ∷ [])))
    unfolding execute
    execute-plain part name ps e p =
        rw
          (
            execute,
            p.splits,
            p.splits,
            p.not_exit,
            p.not_cd,
            p.not_path,
            start_program-plain part name ps e p,
          )
          refl

    do_part-plain :
        (part name : Bytes) (ps : List Bytes) (e : List Event)
        → (p : IsPlain sys (dir ∷ []) part name ps)
        → do_part sys part (after e)
          ≡ some (next, after (e ++ (run name ps output false ∷ wait ∷ [])))
    unfolding do_part
    do_part-plain part name ps e p =
        rw (do_part, p.kept, p.fixes, execute-plain part name ps e p) refl

    do_part_skipped :
        (part : Bytes) (s : Locals) → is_skipped part ≡ true → do_part sys part s ≡ some (next, s)
    unfolding do_part
    do_part_skipped part s h = rw (do_part, h) refl

    do_parts-next :
        (part : Bytes) (ps : List Bytes) (s t : Locals)
        → do_part sys part s ≡ some (next, t)
        → do_parts sys (part ∷ ps) s ≡ do_parts sys ps t
    unfolding do_parts
    do_parts-next part ps s t h = rw (do_parts, h) refl

    do_parts-plain :
        (e : List Event) (ps : List Bytes) (cs : List (Bytes × List Bytes))
        → AllPlain sys (dir ∷ []) ps cs
        → do_parts sys ps (after e) ≡ some (false, after (e ++ one_by_one output cs))
    do_parts-plain e [] [] no_part =
        unfold do_parts in ap (λ r. some (false, after r)) (sym (append-nil e))
    do_parts-plain e [] (c ∷ cs) a = elim a [ ]
    do_parts-plain e (p ∷ ps) cs (skipped k a) =
        do_parts-next p ps (after e) (after e) (do_part_skipped p (after e) k)
        ∙ do_parts-plain e ps cs a
    do_parts-plain e (p ∷ ps) ((name, parameter) ∷ cs) (plain o a) =
        do_parts-next p ps (after e) (after (e ++ (run name parameter output false ∷ wait ∷ [])))
          (do_part-plain p name parameter e o)
        ∙ do_parts-plain (e ++ (run name parameter output false ∷ wait ∷ [])) ps cs a
        ∙ ap (λ r. some (false, after r))
            (append_assoc e (run name parameter output false ∷ wait ∷ []) (one_by_one output cs))

  -- A line of text in front of its newline, with no '>' in it and not empty.
  pub record IsOneLine (text : Bytes) : Type 0 where
    pub no_redirect : count_byte 62 text ≡ 0
    pub one_line : count_byte 10 text ≡ 0
    pub some_text : is_skipped text ≡ false

  module _ (dir fold : Bytes) (output : Option Bytes) where
    run_parts-plain :
        (pro : ℕ) (text : Bytes) (e : List Event) (cs : List (Bytes × List Bytes))
        → AllPlain sys (dir ∷ []) (pieces is_parallel (text ++ newline)) cs
        → run_parts sys (state 0 pro (dir ∷ []) fold output (text ++ newline) e)
          ≡ some (
            false,
            state 0 pro
                (dir ∷ [])
                fold
                output
                (strsep is_parallel (text ++ newline)).0
                (e ++ one_by_one output cs),
          )
    unfolding run_parts
    run_parts-plain pro text e cs a =
        rw
          (
            run_parts,
            do_parts-plain dir fold output 0 pro (text ++ newline) e
                ([] ∷ pieces is_parallel (text ++ newline)) cs (skipped (nothing sys) a),
          )
          refl

    first_piece :
        (pro : ℕ) (temp text : Bytes) (e : List Event)
        → count_byte 62 text ≡ 0
        → do_piece sys ([], some (text ++ newline)) (state 0 pro (dir ∷ []) fold output temp e)
          ≡ some (next, state 0 0 (dir ∷ []) fold output temp e)
    unfolding do_piece skip_piece
    first_piece pro temp text e h = rw (do_piece, begins_redirect-line text h, nothing sys) refl

    second_piece :
        (temp text : Bytes) (e : List Event) (cs : List (Bytes × List Bytes))
        → is_skipped text ≡ false
        → AllPlain sys (dir ∷ []) (pieces is_parallel (text ++ newline)) cs
        → do_piece sys (text, some []) (state 0 0 (dir ∷ []) fold output temp e)
          ≡ some (
            next,
            state 1 0
                (dir ∷ [])
                fold
                output
                (strsep is_parallel (text ++ newline)).0
                (e ++ one_by_one output cs),
          )
    unfolding do_piece begins_redirect finish_round
    second_piece temp text e cs h a = rw (do_piece, h, run_parts-plain 0 text e cs a) refl

    last_piece :
        (temp : Bytes) (e : List Event)
        → do_piece sys ([], none) (state 1 0 (dir ∷ []) fold output temp e)
          ≡ some (next, state 1 1 (dir ∷ []) fold output temp e)
    unfolding do_piece begins_redirect skip_piece str_eq
    last_piece temp e = refl

    do_pieces-next :
        (p : Bytes × Option Bytes) (ps : List (Bytes × Option Bytes)) (s t : Locals)
        → do_piece sys p s ≡ some (next, t)
        → do_pieces sys (p ∷ ps) s ≡ do_pieces sys ps t
    unfolding do_pieces
    do_pieces-next p ps s t h = rw (do_pieces, h) refl

    do_pieces-plain :
        (pro : ℕ) (temp text : Bytes) (e : List Event) (cs : List (Bytes × List Bytes))
        → IsOneLine text
        → AllPlain sys (dir ∷ []) (pieces is_parallel (text ++ newline)) cs
        → do_pieces sys
            (([], some (text ++ newline)) ∷ (text, some []) ∷ ([], none) ∷ [])
            (state 0 pro (dir ∷ []) fold output temp e)
          ≡ some (
            false,
            state 1 1
                (dir ∷ [])
                fold
                output
                (strsep is_parallel (text ++ newline)).0
                (e ++ one_by_one output cs),
          )
    do_pieces-plain pro temp text e cs o a =
        do_pieces-next ([], some (text ++ newline)) ((text, some []) ∷ ([], none) ∷ [])
          (state 0 pro (dir ∷ []) fold output temp e) _ (first_piece pro temp text e o.no_redirect)
        ∙ do_pieces-next (text, some []) (([], none) ∷ []) (state 0 0 (dir ∷ []) fold output temp e)
            _ (second_piece temp text e cs o.some_text a)
        ∙ do_pieces-next ([], none) []
            (state 1 0 (dir ∷ []) fold output (strsep is_parallel (text ++ newline)).0
              (e ++ one_by_one output cs))
            _ (last_piece (strsep is_parallel (text ++ newline)).0 (e ++ one_by_one output cs))
        ∙ (unfold do_pieces in refl)

    do_line-plain :
        (pro : ℕ) (temp str text : Bytes) (e : List Event) (cs : List (Bytes × List Bytes))
        → input_fix sys.before str ≡ some (text ++ newline)
        → IsOneLine text
        → AllPlain sys (dir ∷ []) (pieces is_parallel (text ++ newline)) cs
        → do_line sys str (state 0 pro (dir ∷ []) fold output temp e)
          ≡ some (
            false,
            state 0 1
                (dir ∷ [])
                fold
                output
                (strsep is_parallel (text ++ newline)).0
                (e ++ one_by_one output cs),
          )
    unfolding do_line
    do_line-plain pro temp str text e cs f o a =
        rw
          (
            do_line,
            f,
            count-newline text,
            o.no_redirect,
            pieces_left-one text o.no_redirect o.one_line,
            do_pieces-plain pro temp text e cs o a,
          )
          refl

  -- Lines of text whose parts each start a program that is found, at most 100 in a line.
  pub data OneLines : List Bytes → List (List (Bytes × List Bytes)) → Type 0 where
    no_text : OneLines [] []
    text_line :
        {str text : Bytes} {lines : List Bytes} {cs : List (Bytes × List Bytes)}
        {css : List (List (Bytes × List Bytes))}
        → input_fix sys.before str ≡ some (text ++ newline)
        → IsOneLine text
        → AllPlain sys (bin sys) (pieces is_parallel (text ++ newline)) cs
        → length cs ≤ max_list
        → OneLines lines css
        → OneLines (str ∷ lines) (cs ∷ css)

  OneLines-AllLines :
      (lines : List Bytes) (css : List (List (Bytes × List Bytes)))
      → OneLines lines css
      → AllLines sys (bin sys) lines css
  OneLines-AllLines [] [] no_text = no_line
  OneLines-AllLines [] (cs ∷ css) a = elim a [ ]
  OneLines-AllLines (str ∷ lines) [] a = elim a [ ]
  OneLines-AllLines (str ∷ lines) (cs ∷ css) (text_line f o a h l) =
      plain_line f a h (OneLines-AllLines lines css l)

  next_line :
      (str : Bytes) (lines : List Bytes) (s t : Locals)
      → do_line sys str s ≡ some (false, t)
      → do_lines sys (str ∷ lines) s ≡ do_lines sys lines t
  unfolding do_lines
  next_line str lines s t h = rw (do_lines, h) refl

  do_lines-plain :
      (fold : Bytes) (pro : ℕ) (temp : Bytes) (e : List Event) (lines : List Bytes)
      (css : List (List (Bytes × List Bytes)))
      → OneLines lines css
      → Option.map (λ s. s.events) (do_lines sys lines (state 0 pro (bin sys) fold none temp e))
        ≡ some (e ++ one_by_one_lines none css)
  do_lines-plain fold pro temp e [] [] no_text = unfold do_lines in ap some (sym (append-nil e))
  do_lines-plain fold pro temp e [] (cs ∷ css) a = elim a [ ]
  do_lines-plain fold pro temp e (str ∷ lines) [] a = elim a [ ]
  do_lines-plain fold pro temp e (str ∷ lines) (cs ∷ css) (text_line f o a h l) =
      ap (Option.map (λ s. s.events)) (
        next_line str lines (state 0 pro (bin sys) fold none temp e) _
          (do_line-plain (codes "/bin/") fold none pro temp str _ e cs f o a))
      ∙ do_lines-plain fold 1 _ (e ++ one_by_one none cs) lines css l
      ∙ ap some (append_assoc e (one_by_one none cs) (one_by_one_lines none css))

  -- What `main` returns of the state behind the lines.
  ended :
      (s : Option Locals) (e : List Event)
      → Option.map (λ t. t.events) s ≡ some e
      → Option.map {B = List Event × ℕ} (λ t. (t.events, 0)) s ≡ some (e, 0)
  ended none e h = cc
  ended (some t) e h = cc

  -- On lines of text without '>' whose parts between '&' each start a program that is found in /bin, with
  -- at most four arguments and at most 100 in a line, the first version of the shell starts the programs
  -- that wish2 starts, in the same order and with the same arguments, whether it reads the lines from the
  -- terminal or from a file, if the empty name is not one of a file; but it waits for each before it
  -- starts the next, and wish2 waits at the end of a line.
  pub main-wish2 :
      (stdin lines : List Bytes) (css : List (List (Bytes × List Bytes)))
      → OneLines lines css
      → (main sys lines [] ≡ some (one_by_one_lines none css, 0))
        × (main sys stdin (some lines ∷ []) ≡ some (one_by_one_lines none css, 0))
        × (Wish2.main sys lines [] ≡ some (runs_of_lines sys false none css, 0))
        × (Wish2.main sys stdin (some lines ∷ []) ≡ some (runs_of_lines sys false none css, 0))
  unfolding main
  main-wish2 stdin lines css a =
      let later = main-wish3 sys stdin lines css (OneLines-AllLines lines css a) in
      (
        ended (do_lines sys lines (state 0 0 (bin sys) (near_fold sys []) none [] []))
            (one_by_one_lines none css) (do_lines-plain (near_fold sys []) 0 [] [] lines css a),
        ended (do_lines sys lines (state 0 0 (bin sys) [] none [] [])) (one_by_one_lines none css)
            (do_lines-plain [] 0 [] [] lines css a),
        later.0,
        later.1,
      )
