-- ===== src/Web/Single.antt =====
-- concurrency-webserver/src: the server before it had threads, whose `main` is in wserver.c. Its
-- request.c is that of src_multi without `file_size` and `request_handle_infor`, and is Web.Request.
-- `getopt`, `atoi`, `chdir` and `open_listen_fd` are those of Options; a connection is the list of the bytes
-- that it still gives, and `accept` is taken to succeed.
pub mod Clients
mod Tests
use ostep_projects_finish.Common.{
  ℕ, Bool, ◌&&◌, Option, none, some, List, [], ◌∷◌, ◌==◌, if◌then◌else◌, codes,
}
use mathlib.Core.Option
use ostep_projects_finish.Common.Text.{Bytes}
use ostep_projects_finish.Web.Request.{Stat, Outcome, request_handle}
use ostep_projects_finish.Web.Options.{ℤ, pos}

pub record Settings : Type 0 where
  pub root_dir : Bytes
  pub port : ℤ

abbrev pub default_settings : Settings
default_settings = record { root_dir = codes "."; port = pos 10000 }

-- `usage` ends with status 1; an assertion in front of the loop fails in `no_server`; or the server
-- did this with the connections, the last of which may have ended it.
pub data End : Type 0 where
  usage : End
  no_server : End
  handled : List Outcome → End

unfoldable pub set_option : (Bytes → ℤ) → ℕ → Bytes → Settings → Option Settings
set_option atoi c optarg s =
    if c == 100
    then some (record s { root_dir = optarg })
    else if c == 112
    then some (record s { port = atoi optarg })
    else none

unfoldable pub get_options : (Bytes → ℤ) → List (ℕ × Bytes) → Settings → Option Settings
get_options atoi [] s = some s
get_options atoi ((c, optarg) ∷ options) s = elim (set_option atoi c optarg s) [
  | none ↦ none
  | some s' ↦ get_options atoi options s'
]

-- What goes on behind an outcome.
abbrev pub onward : Outcome → Option (List Outcome) → Option (List Outcome)
onward Outcome.died rest = some (Outcome.died ∷ [])
onward o none = none
onward o (some rest) = some (o ∷ rest)

-- A connection, with what the arrays in `request_handle` hold when it is called.
abbrev pub Connection : Type 0
Connection = (ℕ → Bytes) × Bytes

module _ (stat : Bytes → Option Stat) (mapped : Bytes → ℕ → Option Bytes) where
  -- The loop, with the connections that it accepts. Each call of `request_handle` has the fuel, and
  -- `none` is a call that is not over.
  unfoldable pub serve : ℕ → List Connection → Option (List Outcome)
  serve fuel [] = some []
  serve fuel ((stale, input) ∷ conns) = elim (request_handle stat mapped fuel stale input) [
    | none ↦ none
    | some o ↦ onward o (serve fuel conns)
  ]

module _ (stat : Bytes → Option Stat) (mapped : Bytes → ℕ → Option Bytes) (atoi : Bytes → ℤ)
    (chdir : Bytes → Bool) (open_listen_fd : ℤ → Bool) where
  unfoldable pub main : ℕ → List (ℕ × Bytes) → List Connection → Option End
  main fuel options conns = elim (get_options atoi options default_settings) [
    | none ↦ some usage
    | some s ↦
        if chdir s.root_dir && open_listen_fd s.port
        then Option.map handled (serve stat mapped fuel conns)
        else some no_server
  ]
