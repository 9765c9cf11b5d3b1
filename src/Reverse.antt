-- ===== src/Reverse.antt =====
-- initial-reverse/reverse.c. The input is the list of the bytes of a file without NUL, so `strcat`
-- rebuilds it and its length is `filesize`.
pub mod Lines
pub mod Names
pub mod Program
mod Tests
use ostep_projects_finish.Common.{
  ℕ, zero, suc, ◌+◌, ◌-◌, Bool, true, false, not, List, [], ◌∷◌, ◌++◌, length, get_or, ltb, ◌==◌,
  if◌then◌else◌,
}
use ostep_projects_finish.Common.Text.{Bytes, last_or}

-- `for (j = from; ...; j++) fprintf(fout, "%c", str[j])`, for `n` rounds.
abbrev pub print_chars : Bytes → ℕ → ℕ → Bytes
print_chars str from zero = []
print_chars str from (suc n) = get_or str from 0 ∷ print_chars str (from + 1) n

-- The loop over `i` down to 0, which has `i + 1` rounds left.
unfoldable pub print_lines : Bytes → ℕ → ℕ → Bytes
print_lines str zero line_count = []
print_lines str (suc i) line_count =
    let newline = get_or str i 0 == 10 in
    let left = if newline then 0 else line_count + 1 in
    (if newline then print_chars str (i + 1) (line_count + 1 - 1) ++ (10 ∷ []) else [])
    ++ (if i == 0 then print_chars str (i + 0) left else [])
    ++ print_lines str i left

-- On an empty file the code reads the byte in front of `str`, which is `before`.
unfoldable pub reverse : ℕ → Bytes → Bytes
reverse before str =
    if not (last_or str before == 10)
    then print_lines str (length str) 0
    else print_lines str (length str - 1) 0 ++ (10 ∷ [])

-- What `main` does with two arguments, the first not empty, if the input can be opened: how often it
-- calls `reverse` on them, and whether it ends with
-- the message that the files must differ.
pub record Calls : Type 0 where
  pub reversed : ℕ
  pub refused : Bool

-- The length of what is behind the last '/': the rounds left, then `file_len` so far.
unfoldable pub base_len : Bytes → ℕ → ℕ → ℕ
base_len name zero file_len = file_len
base_len name (suc i) file_len =
    let rest = base_len name i (file_len + 1) in if get_or name i 0 == 47 then file_len else rest

-- The loop over `j` down to 0.
unfoldable pub compare_names : Bytes → Bytes → ℕ → ℕ → ℕ → Calls
compare_names input output zero count reversed = record { reversed = reversed + 1; refused = false }
compare_names input output (suc j) count reversed =
    let in_len = length input in
    let same = get_or input (in_len - 1 - count) 0 == get_or output j 0 in
    let rest =
      compare_names input output j (if same then count + 1 else count)
        (if same then reversed else reversed + 1) in
    if same
    then (if count + 1 == in_len then record { reversed = reversed; refused = true } else rest)
    else rest

unfoldable pub main : Bytes → Bytes → Calls
main input output =
    let shorter = ltb (length output) (base_len input (length input) 0) in
    compare_names input output (length output) 0 (if shorter then 1 else 0)
