-- ===== src/Shell/Tests.antt =====
-- Runs of the theorems about the shell, and lines on which it does what its author hardly meant.
use ostep_projects_finish.Common.{
  ◌||◌, refl, none, List, ◌≡◌, ◌≢◌, ◌⊎◌, Bool, true, false, some, [], ◌∷◌, ◌++◌, codes, arith,
  str_eq,
}
use ostep_projects_finish.Common.Text.{Bytes, last_or}
use ostep_projects_finish.Shell.{input_fix, find_command, names_fit, get_near_fold}
use ostep_projects_finish.Shell.Input.{letters, is_tidy, input_fix-is_tidy}
use ostep_projects_finish.Shell.Find.{IsMissing, Found, find_command-Found}
use ostep_projects_finish.Shell.Prompt.{get_near_fold-two}
use ostep_projects_finish.Shell.{squeeze, exec_zx}
use ostep_projects_finish.Shell.Loop.{
  wait, error_message, open_file, run, System, strsep, pieces, is_parallel, has_late_space, enqueue,
  execute,
}
use ostep_projects_finish.Shell.Line.{
  finish_round, redirected, do_piece, do_pieces, do_part, do_parts, do_line, do_lines, main,
}
use ostep_projects_finish.Shell.Safety.{EventsFound, main-IsFound}
use ostep_projects_finish.Shell.Part.{newline, IsPlain}
use ostep_projects_finish.Shell.Plain.{
  idle, AllPlain, plain, skipped, no_part, line_of, do_line-plain,
}

input_fix-is_tidy_example :
    (q : Bytes) × (input_fix 0 (codes " ls  -l " ++ (10 ∷ [])) ≡ some (q ++ (10 ∷ [])))
    × (letters q ≡ letters (codes " ls  -l "))
    × (is_tidy false q ≡ true)
    × (last_or q 0 ≢ 32)
input_fix-is_tidy_example = input_fix-is_tidy 0 (codes " ls  -l ") (omega arith)

abbrev only_ls : Bytes → Bool
only_ls name = str_eq name (codes "/bin/ls")

ls_in_bin :
    Found only_ls (codes "ls") (codes "/usr/" ∷ codes "/bin/" ∷ [])
    ⊎ (IsMissing only_ls (codes "ls") (codes "/usr/" ∷ codes "/bin/" ∷ [])
        × (find_command only_ls (codes "ls") (codes "/usr/" ∷ codes "/bin/" ∷ []) ≡ []))
ls_in_bin = find_command-Found only_ls (codes "ls") (codes "/usr/" ∷ codes "/bin/" ∷ [])

two_folds :
    get_near_fold (codes "/x" ++ (47 ∷ (codes "a" ++ (47 ∷ codes "b")))) 6 2
    ≡ 47 ∷ (codes "a" ++ (47 ∷ codes "b"))
two_folds =
    get_near_fold-two (codes "/x") (codes "a") (codes "b") (omega arith, tt) (omega arith, tt)

-- A system with the programs /bin/ls and /bin/pwd, where every file can be created and every chdir
-- fails.
abbrev system : System
system = record {
  access = λ name. str_eq name (codes "/bin/ls") || str_eq name (codes "/bin/pwd");
  opens = λ name. true;
  chdir = λ events path. false;
  getcwd = λ events. codes "/home/x/y";
  before = 0;
}

main-IsFound_example :
    EventsFound system (main system [] (some ((codes "ls -l & pwd" ++ newline) ∷ []) ∷ []))
main-IsFound_example = main-IsFound system [] (some ((codes "ls -l & pwd" ++ newline) ∷ []) ∷ [])

abbrev bin : List Bytes
bin = codes "/bin/" ∷ []

abbrev programs : List (Bytes × List Bytes)
programs =
    (codes "/bin/ls", codes "ls" ∷ codes "-l" ∷ []) ∷ (codes "/bin/pwd", codes "pwd" ∷ []) ∷ []

ls-IsPlain : IsPlain system bin (codes "ls -l ") (codes "/bin/ls") (codes "ls" ∷ codes "-l" ∷ [])
unfolding input_fix squeeze strsep exec_zx find_command names_fit str_eq
ls-IsPlain = record {
  text = codes "ls -l";
  token = codes "ls";
  rest = codes "-l" ++ newline;
  kept = refl;
  fixes = refl;
  no_redirect = refl;
  one_line = refl;
  some_text = refl;
  splits = refl;
  not_exit = refl;
  not_cd = refl;
  not_path = refl;
  parses = refl;
  found = refl;
  fits = refl;
  ends = refl;
}

pwd-IsPlain : IsPlain system bin (codes " pwd") (codes "/bin/pwd") (codes "pwd" ∷ [])
unfolding input_fix squeeze strsep exec_zx find_command names_fit str_eq
pwd-IsPlain = record {
  text = codes "pwd";
  token = codes "pwd";
  rest = [];
  kept = refl;
  fixes = refl;
  no_redirect = refl;
  one_line = refl;
  some_text = refl;
  splits = refl;
  not_exit = refl;
  not_cd = refl;
  not_path = refl;
  parses = refl;
  found = refl;
  fits = refl;
  ends = refl;
}

abbrev two_programs : Bytes
two_programs = codes "ls -l & pwd" ++ newline

fixed_line : input_fix 0 two_programs ≡ some two_programs
unfolding input_fix squeeze
fixed_line = refl

parts : AllPlain system bin (pieces is_parallel two_programs) programs
unfolding pieces str_eq
parts = plain ls-IsPlain (plain pwd-IsPlain (skipped refl no_part))

do_line-plain_example :
    (temp' : Bytes) × (do_line system two_programs (idle bin [] none [] [])
      ≡ some (false, idle bin [] none temp' ([] ++ line_of system true none programs)))
do_line-plain_example =
    do_line-plain system bin [] none [] [] two_programs two_programs programs fixed_line parts
      (omega arith)

-- The file of a command that is refused is left for the next command of the line.
stale_file :
    main system [] (some ((codes "ls > a bc & pwd" ++ newline) ∷ []) ∷ [])
    ≡ some (
      error_message
          ∷ run (codes "/bin/pwd") (codes "pwd" ∷ []) (some (codes "a bc")) true
          ∷ wait
          ∷ [],
      0,
    )
unfolding main do_lines do_line do_parts do_part do_pieces do_piece redirected finish_round execute
    enqueue names_fit pieces strsep has_late_space input_fix squeeze exec_zx find_command str_eq
stale_file = refl

-- The output stays in the file of an exit that is refused.
lost_output :
    main system [] (some ((codes "exit > f" ++ newline) ∷ (codes "pwd" ++ newline) ∷ []) ∷ [])
    ≡ some (
      open_file (codes "f")
          ∷ error_message
          ∷ error_message
          ∷ wait
          ∷ run (codes "/bin/pwd") (codes "pwd" ∷ []) (some (codes "f")) true
          ∷ wait
          ∷ [],
      0,
    )
unfolding main do_lines do_line do_parts do_part do_pieces do_piece redirected finish_round execute
    enqueue names_fit pieces strsep has_late_space input_fix squeeze exec_zx find_command str_eq
lost_output = refl

-- Two names behind a '>', the second of one byte, are taken for one with a newline.
short_name :
    main system [] (some ((codes "ls > a b" ++ newline) ∷ []) ∷ [])
    ≡ some (
      open_file (codes "a" ++ newline)
          ∷ run (codes "/bin/ls") (codes "ls" ∷ []) (some (codes "a" ++ newline)) true
          ∷ wait
          ∷ [],
      0,
    )
unfolding main do_lines do_line do_parts do_part do_pieces do_piece redirected finish_round execute
    enqueue names_fit pieces strsep has_late_space input_fix squeeze exec_zx find_command str_eq
short_name = refl

-- A program in front of an exit is not started.
dropped_program : main system [] (some ((codes "ls & exit" ++ newline) ∷ []) ∷ []) ≡ some ([], 0)
unfolding main do_lines do_line do_parts do_part do_pieces do_piece redirected finish_round execute
    enqueue names_fit pieces strsep has_late_space input_fix squeeze exec_zx find_command str_eq
dropped_program = refl
