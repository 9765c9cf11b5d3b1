-- ===== src/Shell/Wish2.antt =====
-- processes-shell/wish2.c: its main loop, which starts each program as soon as it has read its part of the
-- line, where Shell.Loop and Shell.Line collect the programs of a line. The helpers are those of Shell; the
-- events, the system and the strings are those of Shell.Loop, and so is what is taken for granted.
pub mod Plain
mod Tests
use ostep_projects_finish.Common.{
  ℕ, ◌+◌, Bool, true, false, not, ◌&&◌, Option, none, some, List, [], ◌∷◌, ◌++◌, length, leb, ltb,
  ◌==◌, if◌then◌else◌, codes, str_eq,
}
use mathlib.Core.Option
use ostep_projects_finish.Common.Text.{Bytes}
use ostep_projects_finish.Shell.{path_zx, input_fix, exec_zx, names_fit, max_parameter}
use ostep_projects_finish.Shell.Loop.{
  Event, error_message, change_dir, open_file, run, wait, Flow, next, stop, exited, is_blank,
  is_newline, is_redirect, is_parallel, strsep, pieces, is_skipped, count_byte, System, near_fold,
}

-- The locals of `main`.
pub record Locals : Type 0 where
  pub command_path : List Bytes
  pub fold : Bytes
  pub output : Option Bytes
  pub redirect : ℕ
  pub redirect_label : Bool
  pub count_file : ℕ
  pub temp : Bytes
  pub events : List Event

abbrev pub note : Event → Locals → Locals
note e s = record s { events = s.events ++ (e ∷ []) }

-- `temp_mr > 0`: there is a space that is not the first byte.
unfoldable pub has_space_inside : Bytes → Bool
has_space_inside [] = false
has_space_inside (c ∷ s) = leb 1 (count_byte 32 s)

module _ (sys : System) where
  -- The branch for what is not built in: a fork with execve.
  unfoldable pub start_program : Bytes → Bytes → Locals → Option Locals
  start_program token para s =
      if names_fit sys.access token s.command_path
      then elim (exec_zx sys.access token para s.command_path) [
        | none ↦ none
        | some (final_command, parameter) ↦
            if not (sys.access final_command)
            then some (note error_message s)
            else if leb max_parameter (length parameter)
            then none
            else some (note (run final_command parameter s.output false) s)
      ]
      else none

  -- The built-in command `cd`.
  unfoldable pub change : Bytes → Locals → Locals
  change path s =
      let tried = note (change_dir path) s in
      let s' = if sys.chdir s.events path then tried else note error_message tried in
      record s' { fold = near_fold sys s'.events }

  -- `if(redirect == 0)`, on `final_str`.
  unfoldable pub execute : Bytes → Locals → Option (Flow × Locals)
  execute final_str s =
      let (token, left) = strsep is_blank final_str in
      elim left [
        | none ↦ none
        | some rest ↦
            if str_eq token (codes "exit")
            then (if length rest == 0 then some (exited, s) else some (stop, note error_message s))
            else if str_eq token (codes "cd")
            then some (next, change (strsep is_blank rest).0 s)
            else if str_eq token (codes "path")
            then elim (path_zx 0 (strsep is_newline rest).0) [
              | none ↦ none
              | some command_path ↦ some (next, record s { command_path = command_path })
            ]
            else elim (start_program token (strsep is_newline rest).0 s) [
              | none ↦ none
              | some s' ↦ some (next, s')
            ]
      ]

  -- The rest of a round that is not left before: `kept` is the standard output that is put back.
  unfoldable pub finish_round : Option Bytes → Option (Flow × Locals) → Option (Flow × Locals)
  finish_round kept none = none
  finish_round kept (some (next, s)) =
      some (next, record s { output = kept; redirect = 0; count_file = s.count_file + 1 })
  finish_round kept (some (stop, s)) = some (stop, s)
  finish_round kept (some (exited, s)) = some (exited, s)

  abbrev pub guarded : Bytes → Locals → Option (Flow × Locals)
  guarded final_str s = if s.redirect == 0 then execute final_str s else some (next, s)

  -- A round for a piece behind a '>', which names the file.
  unfoldable pub redirected : Bytes → Bytes → Locals → Option (Flow × Locals)
  redirected redi_char final_file_str s =
      if has_space_inside redi_char
      then some (stop, s)
      else finish_round s.output (
          guarded s.temp (record (note (open_file final_file_str) s) {
            output = if sys.opens final_file_str then some final_file_str else s.output;
          }))

  -- A round of the loop over the pieces of a part.
  unfoldable pub do_piece : Bytes → Locals → Option (Flow × Locals)
  do_piece redi_char s =
      if ltb 1 s.redirect
      then some (stop, record (note error_message s) { redirect = 0; redirect_label = false })
      else if is_skipped redi_char
      then some (next, s)
      else if s.count_file == 0
      then (let temp = redi_char ++ (10 ∷ []) in
          finish_round s.output (guarded temp (record s { temp = temp })))
      else elim (input_fix sys.before redi_char) [
        | none ↦ none
        | some final_file_str ↦ redirected redi_char final_file_str s
      ]

  -- The loop, and whether the shell has exited.
  unfoldable pub do_pieces : List Bytes → Locals → Option (Bool × Locals)
  do_pieces [] s = some (false, s)
  do_pieces (p ∷ ps) s = elim (do_piece p s) [
    | none ↦ none
    | some (flow, s') ↦ elim flow [
      | next ↦ do_pieces ps s'
      | stop ↦ some (false, s')
      | exited ↦ some (true, s')
    ]
  ]

  -- What stands before and behind this loop.
  abbrev pub start_part : Bytes → Locals → Locals
  start_part fix_command_part s =
      let n = count_byte 62 fix_command_part in
      if n == 0 then s else record s { redirect = s.redirect + n; redirect_label = true }

  abbrev pub end_part : Locals → Locals
  end_part s = record (if s.redirect_label && s.count_file == 1 then note error_message s else s) {
    count_file = 0;
    redirect_label = false;
    redirect = 0;
  }

  -- A round of the loop over the parts of a line.
  unfoldable pub do_part : Bytes → Locals → Option (Bool × Locals)
  do_part command_part s =
      if is_skipped command_part
      then some (false, s)
      else elim (input_fix sys.before (command_part ++ (10 ∷ []))) [
        | none ↦ none
        | some fixed ↦ elim (do_pieces ([] ∷ pieces is_redirect fixed) (start_part fixed s)) [
          | none ↦ none
          | some (is_exited, s') ↦ some (is_exited, if is_exited then s' else end_part s')
        ]
      ]

  unfoldable pub do_parts : List Bytes → Locals → Option (Bool × Locals)
  do_parts [] s = some (false, s)
  do_parts (p ∷ ps) s = elim (do_part p s) [
    | none ↦ none
    | some (is_exited, s') ↦ if is_exited then some (true, s') else do_parts ps s'
  ]

  -- What follows `command_delt`, for a line that `getline` has read.
  unfoldable pub do_line : Bytes → Locals → Option (Bool × Locals)
  do_line str s = elim (input_fix sys.before str) [
    | none ↦ none
    | some fix_str_origin ↦ elim (do_parts ([] ∷ pieces is_parallel fix_str_origin) s) [
      | none ↦ none
      | some (is_exited, s') ↦ some (is_exited, if is_exited then s' else note wait s')
    ]
  ]

  unfoldable pub do_lines : List Bytes → Locals → Option Locals
  do_lines [] s = some s
  do_lines (str ∷ lines) s = elim (do_line str s) [
    | none ↦ none
    | some (is_exited, s') ↦ if is_exited then some s' else do_lines lines s'
  ]

  abbrev pub start_locals : Locals
  start_locals = record {
    command_path = (codes "/bin" ++ (47 ∷ [])) ∷ [];
    fold = [];
    output = none;
    redirect = 0;
    redirect_label = false;
    count_file = 0;
    temp = [];
    events = [];
  }

  -- `main` with the lines of its standard input and its arguments behind the name, of which `none` is a
  -- file that fopen does not open: what it does, and its exit status.
  unfoldable pub main : List Bytes → List (Option (List Bytes)) → Option (List Event × ℕ)
  main stdin [] =
      Option.map (λ s. (s.events, 0))
        (do_lines stdin (record start_locals { fold = near_fold sys [] }))
  main stdin (none ∷ []) = some (error_message ∷ [], 1)
  main stdin (some lines ∷ []) = Option.map (λ s. (s.events, 0)) (do_lines lines start_locals)
  main stdin (a ∷ b ∷ args) = some (error_message ∷ [], 1)
