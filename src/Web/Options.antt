-- ===== src/Web/Options.antt =====
-- concurrency-webserver/src_multi/wserver.c: the options of `main`, and what it starts before its loop.
-- What `getopt` returns before its -1 is a list of letters with `optarg`, and `atoi`, `chdir` and
-- `open_listen_fd` are parameters. `pthread_create` is taken to succeed, as its result is not read.
pub mod Last
pub mod Fifo
mod Tests
use ostep_projects_finish.Common.{
  ℕ, zero, suc, ◌+◌, ◌<◌, ◌≡◌, refl, Bool, true, false, ◌&&◌, ◌||◌, Option, none, some, List, [],
  ◌∷◌, length, All, ◌==◌, if◌then◌else◌, codes, str_eq,
}
use ostep_projects_finish.Common.Text.{Bytes}

-- An `int`.
pub data ℤ : Type 0 where
  pos : ℕ → ℤ
  negsuc : ℕ → ℤ

pub record Settings : Type 0 where
  pub root_dir : Bytes
  pub port : ℤ
  pub buffer_num : ℤ
  pub thread_num : ℤ
  pub schedule : Bytes

abbrev pub default_settings : Settings
default_settings = record {
  root_dir = codes ".";
  port = pos 10000;
  buffer_num = pos 16;
  thread_num = pos 8;
  schedule = codes "FIFO";
}

pub data Consumer : Type 0 where
  thread_consumer thread_consumer_sff : Consumer

-- A server in front of its loop, which tests `schedule` in each of its rounds.
pub record Started : Type 0 where
  pub schedule : Bytes
  pub buffer_num : ℕ
  pub threads : List Consumer

-- `usage` ends with status 1, `died` is an assertion that fails, and `no_array` is an array that is
-- declared with no place, which C leaves undefined.
pub data Start : Type 0 where
  usage : Start
  died : Start
  no_array : Start
  started : Started → Start

-- The places of an array whose size is an `int`.
abbrev pub places : ℤ → Option ℕ
places (pos zero) = none
places (pos (suc n)) = some (suc n)
places (negsuc n) = none

-- The loop that creates the threads.
unfoldable pub create_threads : ℕ → Bytes → List Consumer
create_threads zero schedule = []
create_threads (suc n) schedule =
    (if str_eq schedule (codes "SFF") then thread_consumer_sff else thread_consumer)
    ∷ create_threads n schedule

module _ (atoi : Bytes → ℤ) where
  -- The `switch`, of the letters d, p, b, t and s; `none` is its default.
  unfoldable pub set_option : ℕ → Bytes → Settings → Option Settings
  set_option c optarg s =
      if c == 100
      then some (record s { root_dir = optarg })
      else if c == 112
      then some (record s { port = atoi optarg })
      else if c == 98
      then some (record s { buffer_num = atoi optarg })
      else if c == 116
      then some (record s { thread_num = atoi optarg })
      else if c == 115
      then some (record s { schedule = optarg })
      else none

  unfoldable pub get_options : List (ℕ × Bytes) → Settings → Option Settings
  get_options [] s = some s
  get_options ((c, optarg) ∷ options) s = elim (set_option c optarg s) [
    | none ↦ none
    | some s' ↦ get_options options s'
  ]

module _ (atoi : Bytes → ℤ) (chdir : Bytes → Bool) (open_listen_fd : ℤ → Bool) where
  -- What follows the arrays of the buffer.
  unfoldable pub start_threads : ℕ → Settings → Start
  start_threads buffer_num s =
      if chdir s.root_dir
      then elim (places s.thread_num) [
        | none ↦ no_array
        | some thread_num ↦
            if open_listen_fd s.port
            then started (record {
              schedule = s.schedule;
              buffer_num = buffer_num;
              threads = create_threads thread_num s.schedule;
            })
            else died
      ]
      else died

  unfoldable pub start : Settings → Start
  start s = elim (places s.buffer_num) [
    | none ↦ no_array
    | some buffer_num ↦ start_threads buffer_num s
  ]

  -- `main` up to its loop.
  unfoldable pub main : List (ℕ × Bytes) → Start
  main options = elim (get_options atoi options default_settings) [
    | none ↦ usage
    | some s ↦ start s
  ]

-- The argument of the last of the options with a letter.
pub last_of : ℕ → List (ℕ × Bytes) → Option Bytes
last_of c [] = none
last_of c ((d, optarg) ∷ options) = elim (last_of c options) [
  | none ↦ if d == c then some optarg else none
  | some later ↦ some later
]

abbrev pub given {ℓ} : {A : Type ℓ} → (Bytes → A) → Option Bytes → A → A
given f none a = a
given f (some optarg) a = f optarg

abbrev pub is_known : ℕ → Bool
is_known c = c == 100 || c == 112 || c == 98 || c == 116 || c == 115

pub all_known : List (ℕ × Bytes) → Bool
all_known [] = true
all_known ((c, optarg) ∷ options) = is_known c && all_known options
