-- ===== src/Utilities.antt =====
-- initial-utilities/wgrep/wgrep.c and initial-utilities/wcat/wcat.c. A file is the list of its bytes,
-- with no NUL among them; `none` is a file that cannot be opened.
pub mod Search
pub mod Copy
mod Tests
use ostep_projects_finish.Common.{
  ℕ, zero, suc, ◌-◌, Bool, true, false, Option, none, some, List, [], ◌∷◌, ◌++◌, map, length, ◌==◌,
  if◌then◌else◌, codes,
}
use ostep_projects_finish.Common.Text.{Bytes, strstr}

-- What a program prints and whether it calls `exit(1)`.
pub record Run : Type 0 where
  pub printed : Bytes
  pub failed : Bool

-- A call of `fgets` with room for `n` bytes and the NUL, or of `getline` with room for all: what it
-- reads, and what is left.
unfoldable pub fgets : ℕ → Bytes → Bytes × Bytes
fgets zero input = ([], input)
fgets (suc n) [] = ([], [])
fgets (suc n) (c ∷ input) =
    let (l, rest) = fgets n input in if c == 10 then (c ∷ [], input) else (c ∷ l, rest)

-- The lines that repeated calls give until one meets the end. Fuel bounds the calls; `none` is out of
-- fuel.
unfoldable pub read_all : ℕ → ℕ → Bytes → Option (List Bytes)
read_all zero n input = none
read_all (suc fuel) n [] = some []
read_all (suc fuel) n (c ∷ input) =
    let (l, rest) = fgets n (c ∷ input) in
    elim (read_all fuel n rest) [ none ↦ none | some ls ↦ some (l ∷ ls) ]

abbrev pub concat : List Bytes → Bytes
concat [] = []
concat (l ∷ ls) = l ++ concat ls

-- The lines that `wgrep` prints.
unfoldable pub matching : Bytes → List Bytes → Bytes
matching search_word [] = []
matching search_word (str ∷ lines) =
    let rest = matching search_word lines in if strstr str search_word then str ++ rest else rest

-- `fp` is the file or, with `status`, the standard input.
unfoldable pub wgrep : Option Bytes → Bytes → Option Run
wgrep none search_word =
    some (record { printed = codes "wgrep: cannot open file\n"; failed = true })
wgrep (some fp) search_word = elim (read_all (suc (length fp)) (suc (length fp)) fp) [
  | none ↦ none
  | some lines ↦ some (record { printed = matching search_word lines; failed = false })
]

-- `main` calls one of them on each file; the first that cannot be opened ends the program.
unfoldable pub each_file : (Option Bytes → Option Run) → List (Option Bytes) → Option Run
each_file run [] = some (record { printed = []; failed = false })
each_file run (f ∷ files) = elim (run f) [
  | none ↦ none
  | some r ↦ if r.failed then some r else elim (each_file run files) [
    | none ↦ none
    | some rest ↦ some (record { printed = r.printed ++ rest.printed; failed = rest.failed })
  ]
]

-- `main` of wgrep.c: the arguments behind the name, the standard input and the files.
unfoldable pub wgrep_main : List Bytes → Bytes → (Bytes → Option Bytes) → Option Run
unfolding each_file
wgrep_main [] stdin fopen =
    some (record { printed = codes "wgrep: searchterm [file ...]\n"; failed = true })
wgrep_main (word ∷ []) stdin fopen = wgrep (some stdin) word
wgrep_main (word ∷ path ∷ paths) stdin fopen =
    each_file (λ f. wgrep f word) (map fopen (path ∷ paths))

-- `wcat`, with its `buffer` of 4096 bytes.
unfoldable pub wcat : Option Bytes → Option Run
wcat none = some (record { printed = codes "wcat: cannot open file\n"; failed = true })
wcat (some fp) = elim (read_all (suc (length fp)) 4095 fp) [
  | none ↦ none
  | some chunks ↦ some (record { printed = concat chunks; failed = false })
]

unfoldable pub wcat_main : List (Option Bytes) → Option Run
wcat_main files = each_file wcat files
