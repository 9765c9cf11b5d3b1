-- ===== src/Shell/Wish1.antt =====
-- processes-shell/wish.c, the first version of the shell: it looks for '>' in the whole line, and for '&'
-- in what stands in front. The helpers are those of Shell but for `exec_zx`; the events, the system and
-- the strings are those of Shell.Loop, and so is what is taken for granted. The prompt and the file's name,
-- which it prints, are not modelled.
pub mod Plain
mod Tests
use ostep_projects_finish.Common.{
  ℕ, ◌+◌, Bool, true, false, not, ◌&&◌, Option, none, some, List, [], ◌∷◌, ◌++◌, length, leb, ltb,
  ◌==◌, if◌then◌else◌, codes, str_eq,
}
use mathlib.Core.Option
use ostep_projects_finish.Common.Text.{Bytes}
use ostep_projects_finish.Shell.{strsep_all, max_parameter, names_fit, path_zx, input_fix}
use ostep_projects_finish.Shell.Loop.{
  Event, error_message, change_dir, open_file, run, wait, Flow, next, stop, exited, is_blank,
  is_newline, is_redirect, is_parallel, strsep, pieces, is_skipped, count_byte, System, near_fold,
}

-- The locals of `main`.
pub record Locals : Type 0 where
  pub command_path : List Bytes
  pub fold : Bytes
  pub output : Option Bytes
  pub redirect : Bool
  pub count_file : ℕ
  pub count_file_pro : ℕ
  pub temp : Bytes
  pub events : List Event

abbrev pub note : Event → Locals → Locals
note e s = record s { events = s.events ++ (e ∷ []) }

-- The loop of `exec_zx` over the search path: what it leaves in the buffer of its caller. When a name is
-- not found, its own pointer to it is NULL, and `none` is the next round's copy to NULL.
unfoldable pub find_command : (Bytes → Bool) → Bytes → List Bytes → Option Bytes
find_command access command [] = some []
find_command access command (path ∷ []) = some (path ++ command)
find_command access command (path ∷ p ∷ ps) =
    if access (path ++ command) then some (path ++ command) else none

-- The parameters; `none` is a write behind the end of `parameter`.
unfoldable pub parameters : Bytes → Bytes → Option (List Bytes)
parameters command [] = some (command ∷ [])
parameters command (c ∷ para) =
    let parameter = command ∷ strsep_all 32 (c ∷ para) in
    if leb (length parameter) max_parameter then some parameter else none

-- Whether a string that is left begins with '>'.
unfoldable pub begins_redirect : Option Bytes → Bool
begins_redirect none = false
begins_redirect (some []) = false
begins_redirect (some (c ∷ s)) = c == 62

-- The pieces that repeated calls of `strsep` give, each with what is left behind it.
unfoldable pub pieces_left : Bytes → List (Bytes × Option Bytes)
pieces_left [] = ([], none) ∷ []
pieces_left (c ∷ s) =
    let rest = pieces_left s in
    if is_redirect c
    then ([], some s) ∷ rest
    else elim rest [ [] ↦ (c ∷ [], none) ∷ [] | p ∷ ps ↦ (c ∷ p.0, p.1) ∷ ps ]

module _ (sys : System) where
  -- The branch for what is not built in: a fork with execve, and the wait for its end.
  unfoldable pub start_program : Bytes → Bytes → Locals → Option Locals
  start_program token para s =
      if names_fit sys.access token s.command_path
      then elim (find_command sys.access token s.command_path) [
        | none ↦ none
        | some final_command ↦ elim (parameters token para) [
          | none ↦ none
          | some parameter ↦
              if not (sys.access final_command)
              then some (note error_message s)
              else if leb max_parameter (length parameter)
              then none
              else some (record s {
                events = s.events ++ (run final_command parameter s.output false ∷ wait ∷ []);
              })
        ]
      ]
      else none

  -- The built-in command `cd`.
  unfoldable pub change : Bytes → Locals → Locals
  change path s =
      let tried = note (change_dir path) s in
      let s' = if sys.chdir s.events path then tried else note error_message tried in
      record s' { fold = near_fold sys s'.events }

  -- What follows the `input_fix` of a part, on `fix_command_part`.
  unfoldable pub execute : Bytes → Locals → Option (Flow × Locals)
  execute fix_command_part s =
      let (token, left) = strsep is_blank fix_command_part in
      elim left [
        | none ↦ none
        | some rest ↦
            if str_eq token (codes "exit")
            then (if length rest == 0 then some (exited, s) else some (stop, note error_message s))
            else if str_eq token (codes "cd")
            then some (next, change (strsep is_blank rest).0 s)
            else if str_eq token (codes "path")
            then elim (path_zx 0 (strsep is_newline rest).0) [
              | none ↦ none
              | some command_path ↦ some (next, record s { command_path = command_path })
            ]
            else elim (start_program token (strsep is_newline rest).0 s) [
              | none ↦ none
              | some s' ↦ some (next, s')
            ]
      ]

  -- A round of the loop over the parts between '&', and whether the shell exits.
  unfoldable pub do_part : Bytes → Locals → Option (Flow × Locals)
  do_part command_part s =
      if is_skipped command_part
      then some (next, s)
      else elim (input_fix sys.before (command_part ++ (10 ∷ []))) [
        | none ↦ none
        | some fix_command_part ↦ execute fix_command_part s
      ]

  unfoldable pub do_parts : List Bytes → Locals → Option (Bool × Locals)
  do_parts [] s = some (false, s)
  do_parts (p ∷ ps) s = elim (do_part p s) [
    | none ↦ none
    | some (flow, s') ↦ elim flow [
      | next ↦ do_parts ps s'
      | stop ↦ some (false, s')
      | exited ↦ some (true, s')
    ]
  ]

  -- `if(redirect == 0)`. The calls of `strsep` cut the string of `temp` behind its first part.
  unfoldable pub run_parts : Locals → Option (Bool × Locals)
  run_parts s =
      if s.redirect then some (false, s) else elim (do_parts ([] ∷ pieces is_parallel s.temp) s) [
        | none ↦ none
        | some (is_exited, s') ↦
            some (is_exited, record s' { temp = (strsep is_parallel s.temp).0 })
      ]

  -- The rest of a round: `kept` is the standard output that is put back.
  unfoldable pub finish_round : Option Bytes → Option (Bool × Locals) → Option (Flow × Locals)
  finish_round kept none = none
  finish_round kept (some (true, s)) = some (exited, s)
  finish_round kept (some (false, s)) =
      some (next, record s { output = kept; redirect = false; count_file = s.count_file + 1 })

  -- A round for a piece behind a '>', which names the file.
  unfoldable pub redirected : Bytes → Locals → Option (Flow × Locals)
  redirected final_file_str s =
      if leb 1 (count_byte 32 final_file_str)
      then some (stop, note error_message s)
      else finish_round s.output (
          run_parts (record (note (open_file final_file_str) s) {
            output = if sys.opens final_file_str then some final_file_str else s.output;
          }))

  -- A piece that is skipped.
  unfoldable pub skip_piece : Locals → Locals
  skip_piece s =
      record (if ltb 0 s.count_file && s.count_file_pro == s.count_file
        then note error_message s
        else s) { count_file_pro = s.count_file }

  -- A round of the loop over the pieces between '>', with `fix_str_origin`.
  unfoldable pub do_piece : Bytes × Option Bytes → Locals → Option (Flow × Locals)
  do_piece (redi_char, fix_str_origin) s =
      if begins_redirect fix_str_origin
      then some (stop, note error_message s)
      else if is_skipped redi_char
      then some (next, skip_piece s)
      else if s.count_file == 0
      then finish_round s.output (run_parts (record s { temp = redi_char ++ (10 ∷ []) }))
      else elim (input_fix sys.before redi_char) [
        | none ↦ none
        | some final_file_str ↦ redirected final_file_str s
      ]

  unfoldable pub do_pieces : List (Bytes × Option Bytes) → Locals → Option (Bool × Locals)
  do_pieces [] s = some (false, s)
  do_pieces (p ∷ ps) s = elim (do_piece p s) [
    | none ↦ none
    | some (flow, s') ↦ elim flow [
      | next ↦ do_pieces ps s'
      | stop ↦ some (false, s')
      | exited ↦ some (true, s')
    ]
  ]

  -- What stands in front of this loop and behind it.
  abbrev pub start_line : Bytes → Locals → Locals
  start_line fix_str_origin s =
      if leb 1 (count_byte 62 fix_str_origin) then record s { redirect = true } else s

  abbrev pub end_line : Bool × Locals → Bool × Locals
  end_line (is_exited, s) =
      (is_exited, if is_exited then s else record s { redirect = false; count_file = 0 })

  -- What follows `command_delt`, for a line that `getline` has read.
  unfoldable pub do_line : Bytes → Locals → Option (Bool × Locals)
  do_line str s = elim (input_fix sys.before str) [
    | none ↦ none
    | some fix_str_origin ↦ Option.map end_line (
        do_pieces (([], some fix_str_origin) ∷ pieces_left fix_str_origin)
          (start_line fix_str_origin s))
  ]

  unfoldable pub do_lines : List Bytes → Locals → Option Locals
  do_lines [] s = some s
  do_lines (str ∷ lines) s = elim (do_line str s) [
    | none ↦ none
    | some (is_exited, s') ↦ if is_exited then some s' else do_lines lines s'
  ]

  abbrev pub start_locals : Locals
  start_locals = record {
    command_path = (codes "/bin" ++ (47 ∷ [])) ∷ [];
    fold = [];
    output = none;
    redirect = false;
    count_file = 0;
    count_file_pro = 0;
    temp = [];
    events = [];
  }

  -- `main` with the lines of its standard input and its arguments behind the name, of which `none` is a
  -- file that fopen does not open: what it does, and its exit status.
  unfoldable pub main : List Bytes → List (Option (List Bytes)) → Option (List Event × ℕ)
  main stdin [] =
      Option.map (λ s. (s.events, 0))
        (do_lines stdin (record start_locals { fold = near_fold sys [] }))
  main stdin (none ∷ []) = some (error_message ∷ [], 1)
  main stdin (some lines ∷ []) = Option.map (λ s. (s.events, 0)) (do_lines lines start_locals)
  main stdin (a ∷ b ∷ args) = some (error_message ∷ [], 1)
