-- ===== src/Shell/Wish1/Tests.antt =====
-- Runs of the first version of the shell beside wish2.
use ostep_projects_finish.Common.{
  ◌≡◌, refl, true, false, none, some, List, [], ◌∷◌, ◌++◌, codes, str_eq, arith,
}
use ostep_projects_finish.Common.Text.{Bytes}
use ostep_projects_finish.Shell.{input_fix, squeeze, exec_zx, strsep_all, path_zx, names_fit}
use ostep_projects_finish.Shell
use ostep_projects_finish.Shell.Loop.{wait, run, open_file, strsep, pieces, System}
use ostep_projects_finish.Shell.Part.{newline, IsPlain}
use ostep_projects_finish.Shell.Plain.{plain, skipped, no_part}
use ostep_projects_finish.Shell.Wish2
use ostep_projects_finish.Shell.Wish2.Plain.{bin, runs_of_lines}
use ostep_projects_finish.Shell.Wish1.{
  main, do_lines, do_line, do_parts, do_part, do_pieces, do_piece, run_parts, finish_round,
  redirected, skip_piece, execute, start_program, find_command, parameters, begins_redirect,
  pieces_left,
}
use ostep_projects_finish.Shell.Wish1.Plain.{
  OneLines, no_text, text_line, IsOneLine, one_by_one_lines, main-wish2,
}

-- A system with the program /bin/ls, where every file can be created.
abbrev system : System
system = record {
  access = λ name. str_eq name (codes "/bin/ls");
  opens = λ name. true;
  chdir = λ events path. false;
  getcwd = λ events. codes "/home/x/y";
  before = 0;
}

abbrev twice : Bytes
twice = codes "ls&ls" ++ newline

ls-IsPlain : IsPlain system (bin system) (codes "ls") (codes "/bin/ls") (codes "ls" ∷ [])
unfolding input_fix squeeze strsep exec_zx Shell.find_command names_fit str_eq
ls-IsPlain = record {
  text = codes "ls";
  token = codes "ls";
  rest = [];
  kept = refl;
  fixes = refl;
  no_redirect = refl;
  one_line = refl;
  some_text = refl;
  splits = refl;
  not_exit = refl;
  not_cd = refl;
  not_path = refl;
  parses = refl;
  found = refl;
  fits = refl;
  ends = refl;
}

abbrev ls : Bytes × List Bytes
ls = (codes "/bin/ls", codes "ls" ∷ [])

no_name : system.access [] ≡ false
unfolding str_eq
no_name = refl

twice_fixed : input_fix 0 twice ≡ some twice
unfolding input_fix squeeze
twice_fixed = refl

twice-IsOneLine : IsOneLine system no_name (codes "ls&ls")
twice-IsOneLine = record { no_redirect = refl; one_line = refl; some_text = unfold str_eq in refl }

lines : OneLines system no_name (twice ∷ []) ((ls ∷ ls ∷ []) ∷ [])
unfolding pieces str_eq
lines =
    text_line twice_fixed twice-IsOneLine
      (plain ls-IsPlain (plain ls-IsPlain (skipped refl no_part))) (omega arith) no_text

main-wish2_example :
    (main system (twice ∷ []) [] ≡ some (one_by_one_lines none ((ls ∷ ls ∷ []) ∷ []), 0))
    × (main system [] (some (twice ∷ []) ∷ [])
        ≡ some (one_by_one_lines none ((ls ∷ ls ∷ []) ∷ []), 0))
    × (Wish2.main system (twice ∷ []) []
        ≡ some (runs_of_lines system false none ((ls ∷ ls ∷ []) ∷ []), 0))
    × (Wish2.main system [] (some (twice ∷ []) ∷ [])
        ≡ some (runs_of_lines system false none ((ls ∷ ls ∷ []) ∷ []), 0))
main-wish2_example = main-wish2 system no_name [] (twice ∷ []) ((ls ∷ ls ∷ []) ∷ []) lines

-- The output of a program goes to the file that a '>' names.
redirected_run :
    main system [] (some ((codes "ls > a" ++ newline) ∷ []) ∷ [])
    ≡ some (
      open_file (codes "a")
          ∷ run (codes "/bin/ls") (codes "ls" ∷ []) (some (codes "a")) false
          ∷ wait
          ∷ [],
      0,
    )
unfolding main do_lines do_line do_parts do_part do_pieces do_piece run_parts finish_round
    redirected skip_piece execute start_program names_fit find_command parameters begins_redirect
    pieces_left pieces strsep strsep_all input_fix squeeze str_eq
redirected_run = refl

-- A program that the first of two directories does not have ends the shell: what is copied next goes to a
-- pointer that has been set to NULL.
second_directory :
    main system []
      (some ((codes "path /usr/bin /bin" ++ newline) ∷ (codes "ls" ++ newline) ∷ []) ∷ [])
    ≡ none
unfolding main do_lines do_line do_parts do_part do_pieces do_piece run_parts finish_round
    redirected skip_piece execute start_program names_fit find_command parameters begins_redirect
    pieces_left pieces strsep strsep_all input_fix squeeze str_eq path_zx
second_directory = refl

-- The shell with the same two directories in the other order finds it.
first_directory :
    main system []
      (some ((codes "path /bin /usr/bin" ++ newline) ∷ (codes "ls" ++ newline) ∷ []) ∷ [])
    ≡ some (run (codes "/bin/ls") (codes "ls" ∷ []) none false ∷ wait ∷ [], 0)
unfolding main do_lines do_line do_parts do_part do_pieces do_piece run_parts finish_round
    redirected skip_piece execute start_program names_fit find_command parameters begins_redirect
    pieces_left pieces strsep strsep_all input_fix squeeze str_eq path_zx
first_directory = refl
