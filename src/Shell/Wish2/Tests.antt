-- ===== src/Shell/Wish2/Tests.antt =====
-- Runs of wish2 beside wish3.
use ostep_projects_finish.Common.{
  ◌≡◌, refl, true, false, none, some, List, [], ◌∷◌, ◌++◌, codes, arith,
}
use ostep_projects_finish.Common.Text.{Bytes}
use ostep_projects_finish.Shell.{input_fix, squeeze, exec_zx, find_command, names_fit}
use ostep_projects_finish.Shell.Loop.{wait, error_message, run, open_file, strsep, pieces, System}
use ostep_projects_finish.Common.{str_eq}
use ostep_projects_finish.Shell.Line
use ostep_projects_finish.Shell.Part.{newline, IsPlain}
use ostep_projects_finish.Shell.Plain.{plain, skipped, no_part}
use ostep_projects_finish.Shell.Wish2.{
  main, do_lines, do_line, do_parts, do_part, do_pieces, do_piece, redirected, finish_round,
  execute, start_program, has_space_inside,
}
use ostep_projects_finish.Shell.Wish2.Plain.{
  AllLines, plain_line, no_line, bin, runs_of_lines, main-wish3,
}

-- A system with the program /bin/ls, where every file can be created.
abbrev system : System
system = record {
  access = λ name. str_eq name (codes "/bin/ls");
  opens = λ name. true;
  chdir = λ events path. false;
  getcwd = λ events. codes "/home/x/y";
  before = 0;
}

abbrev twice : Bytes
twice = codes "ls&ls" ++ newline

ls-IsPlain : IsPlain system (bin system) (codes "ls") (codes "/bin/ls") (codes "ls" ∷ [])
unfolding input_fix squeeze strsep exec_zx find_command names_fit str_eq
ls-IsPlain = record {
  text = codes "ls";
  token = codes "ls";
  rest = [];
  kept = refl;
  fixes = refl;
  no_redirect = refl;
  one_line = refl;
  some_text = refl;
  splits = refl;
  not_exit = refl;
  not_cd = refl;
  not_path = refl;
  parses = refl;
  found = refl;
  fits = refl;
  ends = refl;
}

abbrev ls : Bytes × List Bytes
ls = (codes "/bin/ls", codes "ls" ∷ [])

twice_fixed : input_fix 0 twice ≡ some twice
unfolding input_fix squeeze
twice_fixed = refl

lines : AllLines system (bin system) (twice ∷ []) ((ls ∷ ls ∷ []) ∷ [])
unfolding pieces str_eq input_fix squeeze
lines =
    plain_line twice_fixed (plain ls-IsPlain (plain ls-IsPlain (skipped refl no_part)))
      (omega arith) no_line

main-wish3_example :
    (main system (twice ∷ []) [] ≡ some (runs_of_lines system false none ((ls ∷ ls ∷ []) ∷ []), 0))
    × (main system [] (some (twice ∷ []) ∷ [])
        ≡ some (runs_of_lines system false none ((ls ∷ ls ∷ []) ∷ []), 0))
    × (Line.main system (twice ∷ []) []
        ≡ some (runs_of_lines system true none ((ls ∷ ls ∷ []) ∷ []), 0))
    × (Line.main system [] (some (twice ∷ []) ∷ [])
        ≡ some (runs_of_lines system true none ((ls ∷ ls ∷ []) ∷ []), 0))
main-wish3_example = main-wish3 system [] (twice ∷ []) ((ls ∷ ls ∷ []) ∷ []) lines

-- A program in front of an exit is started, and the name of a file is refused for a space anywhere.
started_program :
    main system [] (some ((codes "ls & exit" ++ newline) ∷ []) ∷ [])
    ≡ some (run (codes "/bin/ls") (codes "ls" ∷ []) none false ∷ [], 0)
unfolding main do_lines do_line do_parts do_part do_pieces do_piece redirected finish_round execute
    start_program names_fit pieces strsep has_space_inside input_fix squeeze exec_zx find_command
    str_eq
started_program = refl

short_name :
    main system [] (some ((codes "ls > a b" ++ newline) ∷ []) ∷ [])
    ≡ some (error_message ∷ wait ∷ [], 0)
unfolding main do_lines do_line do_parts do_part do_pieces do_piece redirected finish_round execute
    start_program names_fit pieces strsep has_space_inside input_fix squeeze exec_zx find_command
    str_eq
short_name = refl

redirected_run :
    main system [] (some ((codes "ls > a" ++ newline) ∷ []) ∷ [])
    ≡ some (
      open_file (codes "a")
          ∷ run (codes "/bin/ls") (codes "ls" ∷ []) (some (codes "a")) false
          ∷ wait
          ∷ [],
      0,
    )
unfolding main do_lines do_line do_parts do_part do_pieces do_piece redirected finish_round execute
    start_program names_fit pieces strsep has_space_inside input_fix squeeze exec_zx find_command
    str_eq
redirected_run = refl
