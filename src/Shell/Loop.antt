-- ===== src/Shell/Loop.antt =====
-- processes-shell/wish3.c: what its main loop does with a line. The programs that a line starts are
-- events, in the order in which they are forked; what they do is not modelled. `access`, `chdir`,
-- `open` and `getcwd` are parameters. `none` is an access outside of an array, or one through a NULL,
-- and also a command whose parameters leave no NULL at their end for execv.
-- The byte behind a string that the code ends with a newline alone is taken to be NUL. The prompt is
-- not modelled.
use ostep_projects_finish.Common.{
  ℕ, ◌+◌, Bool, false, not, ◌&&◌, ◌||◌, Option, none, some, List, [], ◌∷◌, ◌++◌, length, leb, ◌==◌,
  if◌then◌else◌, codes, str_eq,
}
use ostep_projects_finish.Common.Text.{Bytes}
use ostep_projects_finish.Shell.{get_near_fold, path_zx, exec_zx, names_fit, max_parameter}

-- An entry of `final_command_list`, `parameter_list`, `label_list` and `file_list`.
pub record Command : Type 0 where
  pub final_command : Bytes
  pub parameter : List Bytes
  pub label : Bool
  pub file : Option Bytes

-- `run` is a fork with execv or execve; the standard output of the program is the file, or that of the
-- terminal where it is `none`, and it has the environment of the shell or an empty one. `wait` ends when
-- no program runs that the shell has started. `open_file` is the parent's.
pub data Event : Type 0 where
  error_message : Event
  change_dir : (path : Bytes) → Event
  open_file : (name : Bytes) → Event
  run :
      (final_command : Bytes) (parameter : List Bytes) (output : Option Bytes) (environment : Bool)
      → Event
  wait : Event

-- The locals of `main`. `label` and `file` are the entries of `label_list` and `file_list` at
-- `command_count`, and `queued` the commands below it.
pub record Wish : Type 0 where
  pub command_path : List Bytes
  pub fold : Bytes
  pub output : Option Bytes
  pub redirect : ℕ
  pub redirect_label : Bool
  pub count_file : ℕ
  pub temp : Bytes
  pub label : Bool
  pub file : Option Bytes
  pub queued : List Command
  pub events : List Event

-- How a round of the inner loop ends: with the next one, with `break`, or with `exit(0)`.
pub data Flow : Type 0 where
  next : Flow
  stop : Flow
  exited : Flow

abbrev pub is_blank : ℕ → Bool
is_blank c = c == 32 || c == 10

abbrev pub is_newline : ℕ → Bool
is_newline c = c == 10

abbrev pub is_redirect : ℕ → Bool
is_redirect c = c == 62 || c == 10

abbrev pub is_parallel : ℕ → Bool
is_parallel c = c == 38 || c == 10

-- `strsep` with the delimiters `is_delim`.
unfoldable pub strsep : (ℕ → Bool) → Bytes → Bytes × Option Bytes
strsep is_delim [] = ([], none)
strsep is_delim (c ∷ s) =
    let (token, left) = strsep is_delim s in if is_delim c then ([], some s) else (c ∷ token, left)

-- The pieces that repeated calls of `strsep` give.
unfoldable pub pieces : (ℕ → Bool) → Bytes → List Bytes
pieces is_delim [] = [] ∷ []
pieces is_delim (c ∷ s) =
    let rest = pieces is_delim s in
    if is_delim c then [] ∷ rest else elim rest [ [] ↦ (c ∷ []) ∷ [] | p ∷ ps ↦ (c ∷ p) ∷ ps ]

-- Whether a piece is "" or " ", which the loops skip.
abbrev pub is_skipped : Bytes → Bool
is_skipped p = str_eq p [] || str_eq p (32 ∷ [])

abbrev pub count_byte : ℕ → Bytes → ℕ
count_byte d [] = 0
count_byte d (c ∷ s) = (if c == d then 1 else 0) + count_byte d s

-- `temp_mr > 0`: the first space is not at the start.
unfoldable pub has_late_space : Bytes → Bool
has_late_space [] = false
has_late_space (c ∷ s) = not (c == 32) && leb 1 (count_byte 32 s)

abbrev pub note : Event → Wish → Wish
note e s = record s { events = s.events ++ (e ∷ []) }

abbrev pub max_list : ℕ
max_list = 100

-- What the system answers. `access`, `open` and `chdir` succeed or fail, `getcwd` fills the buffer; the
-- last two depend on what has happened. `before` is the byte in front of an array from malloc.
pub record System : Type 0 where
  pub access : Bytes → Bool
  pub opens : Bytes → Bool
  pub chdir : List Event → Bytes → Bool
  pub getcwd : List Event → Bytes
  pub before : ℕ

-- `getcwd` and the search for the last two slashes, with MAXPATH and PATH_NUM.
abbrev pub near_fold : System → List Event → Bytes
near_fold sys events = get_near_fold (sys.getcwd events) 128 2

module _ (sys : System) where
  -- What is done with the result of `exec_zx`.
  unfoldable pub enqueue_found : Option (Bytes × List Bytes) → Wish → Option Wish
  enqueue_found none s = none
  enqueue_found (some (final_command, parameter)) s =
      if not (sys.access final_command)
      then some (note error_message s)
      else if leb max_list (length s.queued) || leb max_parameter (length parameter)
      then none
      else some (record s {
        queued =
            s.queued
            ++ (record {
              final_command = final_command;
              parameter = parameter;
              label = s.label;
              file = s.file;
            }
                ∷ []);
        label = false;
        file = none;
      })

  -- The branch for what is not built in.
  unfoldable pub enqueue : Bytes → Bytes → Wish → Option Wish
  unfolding enqueue_found
  enqueue token para s =
      if names_fit sys.access token s.command_path
      then enqueue_found (exec_zx sys.access token para s.command_path) s
      else none

  -- The built-in command `cd`.
  unfoldable pub change : Bytes → Wish → Wish
  change path s =
      let tried = note (change_dir path) s in
      let s' = if sys.chdir s.events path then tried else note error_message tried in
      record s' { fold = near_fold sys s'.events }

  -- `if(redirect == 0)`, on `final_str`.
  unfoldable pub execute : Bytes → Wish → Option (Flow × Wish)
  execute final_str s =
      let (token, left) = strsep is_blank final_str in
      elim left [
        | none ↦ none
        | some rest ↦
            if str_eq token (codes "exit")
            then (if length rest == 0 then some (exited, s) else some (stop, note error_message s))
            else if str_eq token (codes "cd")
            then some (next, change (strsep is_blank rest).0 s)
            else if str_eq token (codes "path")
            then elim (path_zx 0 (strsep is_newline rest).0) [
              | none ↦ none
              | some command_path ↦ some (next, record s { command_path = command_path })
            ]
            else elim (enqueue token (strsep is_newline rest).0 s) [
              | none ↦ none
              | some s' ↦ some (next, s')
            ]
      ]
