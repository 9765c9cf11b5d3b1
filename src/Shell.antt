-- ===== src/Shell.antt =====
-- processes-shell/wish3.c: the helpers that its main loop calls on a line, a search path and a command.
-- A C string is the list of the bytes before its NUL.
pub mod Input
pub mod Find
pub mod Prompt
pub mod Loop
pub mod Line
mod Pieces
pub mod Safety
pub mod Part
pub mod Plain
pub mod Wish1
pub mod Wish2
mod Tests
use ostep_projects_finish.Common.{
  ℕ, zero, suc, ◌+◌, ◌-◌, Bool, true, false, not, ◌&&◌, ◌||◌, Option, none, some, List, [], ◌∷◌,
  ◌++◌, map, length, take, drop, get_or, leb, ltb, ◌==◌, if◌then◌else◌, codes,
}
use ostep_projects_finish.Common.Text.{Bytes, last_or}

-- The pieces that repeated calls of `strsep` with one delimiter give.
abbrev pub strsep_all : ℕ → Bytes → List Bytes
strsep_all c [] = [] ∷ []
strsep_all c (x ∷ s) =
    let rest = strsep_all c s in
    if x == c then [] ∷ rest else elim rest [ [] ↦ (x ∷ []) ∷ [] | p ∷ ps ↦ (x ∷ p) ∷ ps ]

-- The index that the loop of `get_near_fold` ends at, from `buf_size + 1` and the slashes to find.
unfoldable pub scan_back : Bytes → ℕ → ℕ → ℕ
scan_back buf zero left = zero
scan_back buf (suc k) zero = suc k
scan_back buf (suc k) (suc left) = scan_back buf k (if get_or buf k 0 == 47 then left else suc left)

-- `buf` after `getcwd`, and what the result points to.
unfoldable pub get_near_fold : Bytes → ℕ → ℕ → Bytes
get_near_fold buf bufsize num = drop (scan_back buf bufsize num) buf

abbrev pub max_command : ℕ
max_command = 10

abbrev pub max_parameter : ℕ
max_parameter = 6

-- An empty piece makes the code look at the byte in front of it, which is `d`.
abbrev pub add_slash : ℕ → Bytes → Bytes
add_slash d token_part = if last_or token_part d == 47 then token_part else token_part ++ (47 ∷ [])

-- `strsep` has put a NUL in front of each piece but the first, which `before` precedes. `none` is a
-- write behind the end of `command_path`.
unfoldable pub path_zx : ℕ → Bytes → Option (List Bytes)
path_zx before [] = some []
path_zx before (c ∷ token) = elim (strsep_all 32 (c ∷ token)) [
  | [] ↦ some []
  | p ∷ ps ↦
      if leb (length (p ∷ ps)) max_command
      then some (add_slash before p ∷ map (add_slash 0) ps)
      else none
]

-- The loop of `input_fix`, from `symbol_his`: what it puts in `fix_input`.
unfoldable pub squeeze : Bool → Bytes → Bytes
squeeze symbol_his [] = []
squeeze symbol_his (c ∷ input) =
    let symbol_flag = not (c == 32) in
    let skipped = squeeze symbol_his input in
    let kept = squeeze symbol_flag input in
    if not symbol_flag && not symbol_his then skipped else c ∷ kept

-- The last byte but one; with fewer than two it is outside of the array, and `d`.
abbrev pub second_last : ℕ → Bytes → ℕ
second_last d [] = d
second_last d (x ∷ []) = d
second_last d (x ∷ y ∷ []) = x
second_last d (x ∷ y ∷ z ∷ s) = second_last d (y ∷ z ∷ s)

-- The bytes that are put in `fix_final`. No NUL is put behind them. `none` is a copy of a negative
-- length, when there are fewer than two bytes and the byte in front of the array is a space.
unfoldable pub input_fix : ℕ → Bytes → Option Bytes
input_fix before input =
    let fix_input = squeeze false input in
    if second_last before fix_input == 32
    then (if leb 2 (length fix_input)
        then some (take (length fix_input - 2) fix_input ++ (10 ∷ []))
        else none)
    else some fix_input

-- The loop of `exec_zx` over the search path; what is left when nothing is found is the empty string.
unfoldable pub find_command : (Bytes → Bool) → Bytes → List Bytes → Bytes
find_command access command [] = []
find_command access command (path ∷ command_path) =
    let rest = find_command access command command_path in
    if access (path ++ command) then path ++ command else rest

-- Whether the names that are tried, each with a NUL, fit the 200 bytes of `final_command`.
unfoldable pub names_fit : (Bytes → Bool) → Bytes → List Bytes → Bool
names_fit access command [] = true
names_fit access command (path ∷ command_path) =
    let rest = names_fit access command command_path in
    ltb (length (path ++ command)) 200 && (access (path ++ command) || rest)

-- The final command and the parameters; `none` is a write behind the end of `parameter`.
unfoldable pub exec_zx : (Bytes → Bool) → Bytes → Bytes → List Bytes → Option (Bytes × List Bytes)
exec_zx access command [] command_path =
    some (find_command access command command_path, command ∷ [])
exec_zx access command (c ∷ para) command_path =
    let parameter = command ∷ strsep_all 32 (c ∷ para) in
    if leb (length parameter) max_parameter
    then some (find_command access command command_path, parameter)
    else none
