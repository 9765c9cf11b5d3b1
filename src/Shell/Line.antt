-- ===== src/Shell/Line.antt =====
-- processes-shell/wish3.c: the loops of `main` over a line, its parts between '&' and their pieces between
-- '>', on the state of Shell.Loop.
use ostep_projects_finish.Common.{
  ℕ, ◌+◌, Bool, true, false, ◌&&◌, Option, none, some, List, [], ◌∷◌, ◌++◌, map, length, leb, ltb,
  ◌==◌, if◌then◌else◌, codes,
}
use mathlib.Core.Option
use ostep_projects_finish.Common.Text.{Bytes}
use ostep_projects_finish.Shell.{input_fix}
use ostep_projects_finish.Shell.Loop.{
  Command, Event, error_message, open_file, run, wait, Wish, Flow, next, stop, exited, is_redirect,
  is_parallel, pieces, is_skipped, has_late_space, count_byte, note, max_list, System, near_fold,
  execute,
}

module _ (sys : System) where
  -- The rest of a round that is not left before: `kept` is the standard output that is put back.
  unfoldable pub finish_round : Option Bytes → Option (Flow × Wish) → Option (Flow × Wish)
  finish_round kept none = none
  finish_round kept (some (next, s)) =
      some (next, record s { output = kept; redirect = 0; count_file = s.count_file + 1 })
  finish_round kept (some (stop, s)) = some (stop, s)
  finish_round kept (some (exited, s)) = some (exited, s)

  abbrev pub guarded : Bytes → Wish → Option (Flow × Wish)
  guarded final_str s = if s.redirect == 0 then execute sys final_str s else some (next, s)

  -- A round for a piece behind a '>', which names the file.
  unfoldable pub redirected : Bytes → Wish → Option (Flow × Wish)
  redirected final_file_str s =
      let s' = if s.label then record s { file = some final_file_str } else s in
      if has_late_space final_file_str
      then some (stop, s')
      else finish_round s.output (
          guarded s.temp (record (note (open_file final_file_str) s') {
            output = if sys.opens final_file_str then some final_file_str else s.output;
          }))

  -- A round of the loop over the pieces of a part.
  unfoldable pub do_piece : Bytes → Wish → Option (Flow × Wish)
  do_piece redi_char s =
      if ltb 1 s.redirect
      then some (stop, record (note error_message s) { redirect = 0; redirect_label = false })
      else if is_skipped redi_char
      then some (next, s)
      else if s.count_file == 0
      then (let temp = redi_char ++ (10 ∷ []) in
          finish_round s.output (guarded temp (record s { temp = temp })))
      else elim (input_fix sys.before redi_char) [
        | none ↦ none
        | some final_file_str ↦ redirected final_file_str s
      ]

  -- The loop, and whether the shell has exited.
  unfoldable pub do_pieces : List Bytes → Wish → Option (Bool × Wish)
  do_pieces [] s = some (false, s)
  do_pieces (p ∷ ps) s = elim (do_piece p s) [
    | none ↦ none
    | some (flow, s') ↦ elim flow [
      | next ↦ do_pieces ps s'
      | stop ↦ some (false, s')
      | exited ↦ some (true, s')
    ]
  ]

  -- What stands before and behind this loop.
  abbrev pub start_part : Bytes → Wish → Wish
  start_part fix_command_part s =
      let n = count_byte 62 fix_command_part in
      if n == 0
      then s
      else record s { label = true; redirect = s.redirect + n; redirect_label = true }

  abbrev pub end_part : Wish → Wish
  end_part s = record (if s.redirect_label && s.count_file == 1 then note error_message s else s) {
    count_file = 0;
    redirect_label = false;
    redirect = 0;
  }

  -- A round of the loop over the parts of a line.
  unfoldable pub do_part : Bytes → Wish → Option (Bool × Wish)
  do_part command_part s =
      if is_skipped command_part
      then some (false, s)
      else elim (input_fix sys.before (command_part ++ (10 ∷ []))) [
        | none ↦ none
        | some fixed ↦
            if leb 1 (count_byte 62 fixed) && leb max_list (length s.queued)
            then none
            else elim (do_pieces ([] ∷ pieces is_redirect fixed) (start_part fixed s)) [
              | none ↦ none
              | some (is_exited, s') ↦ some (is_exited, if is_exited then s' else end_part s')
            ]
      ]

  unfoldable pub do_parts : List Bytes → Wish → Option (Bool × Wish)
  do_parts [] s = some (false, s)
  do_parts (p ∷ ps) s = elim (do_part p s) [
    | none ↦ none
    | some (is_exited, s') ↦ if is_exited then some (true, s') else do_parts ps s'
  ]

  -- What a child does with the entries of its command.
  abbrev pub child : Option Bytes → Command → Event
  child output c =
      run c.final_command c.parameter
        (if c.label
          then elim c.file [
            | none ↦ output
            | some name ↦ if sys.opens name then some name else output
          ]
          else output)
        true

  -- The forks, the wait for all of them, and the reset of the lists.
  abbrev pub run_queued : Wish → Wish
  run_queued s = record s {
    label = false;
    file = none;
    queued = [];
    events = s.events ++ (map (child s.output) s.queued ++ (wait ∷ []));
  }

  -- What follows `command_delt`, for a line that `getline` has read.
  unfoldable pub do_line : Bytes → Wish → Option (Bool × Wish)
  do_line str s = elim (input_fix sys.before str) [
    | none ↦ none
    | some fix_str_origin ↦ elim (do_parts ([] ∷ pieces is_parallel fix_str_origin) s) [
      | none ↦ none
      | some (is_exited, s') ↦ some (is_exited, if is_exited then s' else run_queued s')
    ]
  ]

  unfoldable pub do_lines : List Bytes → Wish → Option Wish
  do_lines [] s = some s
  do_lines (str ∷ lines) s = elim (do_line str s) [
    | none ↦ none
    | some (is_exited, s') ↦ if is_exited then some s' else do_lines lines s'
  ]

  abbrev pub start_wish : Wish
  start_wish = record {
    command_path = (codes "/bin" ++ (47 ∷ [])) ∷ [];
    fold = [];
    output = none;
    redirect = 0;
    redirect_label = false;
    count_file = 0;
    temp = [];
    label = false;
    file = none;
    queued = [];
    events = [];
  }

  -- `main` with the lines of its standard input and its arguments behind the name, of which `none` is a
  -- file that fopen does not open: what it does, and its exit status.
  unfoldable pub main : List Bytes → List (Option (List Bytes)) → Option (List Event × ℕ)
  main stdin [] =
      Option.map (λ s. (s.events, 0))
        (do_lines stdin (record start_wish { fold = near_fold sys [] }))
  main stdin (none ∷ []) = some (error_message ∷ [], 1)
  main stdin (some lines ∷ []) = Option.map (λ s. (s.events, 0)) (do_lines lines start_wish)
  main stdin (a ∷ b ∷ args) = some (error_message ∷ [], 1)
