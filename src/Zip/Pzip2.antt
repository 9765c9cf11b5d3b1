-- ===== src/Zip/Pzip2.antt =====
-- concurrency-pzip/wzip/pzip2.c: how the files are cut into buffers, what a thread does with a buffer,
-- how the threads claim the buffers, and how the results are printed. A mapped file is the list of its
-- bytes; `buffer_size` is the global `BUFFER_SIZE`.
pub mod Compress
pub mod Output
pub mod Files
pub mod Threads
mod Fair
pub mod Claims
pub mod Program
mod Tests
use ostep_projects_finish.Common.{
  ℕ, zero, suc, ◌+◌, ◌-◌, ◌*◌, ◌/◌, Bool, true, false, not, ◌&&◌, List, [], ◌∷◌, ◌++◌, length, take,
  drop, map, ◌==◌, ltb, if◌then◌else◌,
}
use ostep_projects_finish.Zip.Runs.{Run}
use ostep_projects_finish.Zip.Wzip.{diwrite}

-- `struct resultSet` is a run. Of `struct buffer`, what the producer sets.
pub record Buffer : Type 0 where
  pub size : ℕ
  pub content : List ℕ

abbrev pub is_empty {ℓ} : {A : Type ℓ} → List A → Bool
is_empty [] = true
is_empty (x ∷ xs) = false

-- The loop of `compress` from `current_char` and `char_count` on; the last byte is the one that no
-- other follows.
unfoldable pub compress_from : ℕ → ℕ → List ℕ → List Run
compress_from current_char char_count [] = []
compress_from current_char char_count (x ∷ text) =
    let same = x == current_char in
    let count = if same then char_count + 1 else 1 in
    let rest = compress_from (if same then current_char else x) count text in
    (if not same && ltb 0 char_count then (char_count, current_char) ∷ [] else [])
    ++ ((if is_empty text then (count, x) ∷ [] else []) ++ rest)

unfoldable pub compress : Buffer → List Run
compress b = compress_from 0 0 (take b.size b.content)

-- The locals of `output`, and the bytes that it has put into `outputString`.
pub record Out : Type 0 where
  pub char_temp : ℕ
  pub num_temp : ℕ
  pub written : List ℕ

abbrev pub write : ℕ → ℕ → Out → Out
write n c o = record o { written = o.written ++ diwrite n c }

-- The first `if` of a round: a result at the head of a buffer that is not the first buffer.
abbrev pub flush : Bool → Run → Out → Out
flush at_head (n, c) o =
    if at_head && not (o.char_temp == c)
    then record (write o.num_temp o.char_temp o) { num_temp = 0 }
    else o

-- The rest of a round; `kept` is the test for the last result of a buffer that is not the last buffer.
abbrev pub put_result : Bool → Run → Out → Out
put_result kept (n, c) o =
    if kept
    then record o { num_temp = o.num_temp + n; char_temp = c }
    else if o.char_temp == c
    then record (write (n + o.num_temp) o.char_temp o) { num_temp = 0 }
    else write n c o

-- The inner loop. `at_head` is `i > 0 && j == 0`, and `is_last` is `i == listsize - 1`.
unfoldable pub print_results : Bool → Bool → List Run → Out → Out
print_results at_head is_last [] o = o
print_results at_head is_last (r ∷ rs) o =
    print_results false is_last rs (put_result (is_empty rs && not is_last) r (flush at_head r o))

-- The outer loop, with `i > 0`.
unfoldable pub print_buffers : Bool → List (List Run) → Out → Out
print_buffers later [] o = o
print_buffers later (b ∷ bufferlist) o =
    print_buffers true bufferlist (print_results later (is_empty bufferlist) b o)

-- The contents of the file "a.z".
unfoldable pub output : List (List Run) → List ℕ
output bufferlist =
    (print_buffers false bufferlist (record { char_temp = 0; num_temp = 0; written = [] })).written

module _ (buffer_size : ℕ) where
  -- `size / (double)BUFFER_SIZE > size / BUFFER_SIZE`: the quotient is not whole.
  unfoldable pub num_of_buffer : ℕ → ℕ
  num_of_buffer size =
      (if ltb (size / buffer_size * buffer_size) size then 1 else 0) + size / buffer_size

  unfoldable pub buffer_at : List ℕ → ℕ → Buffer
  buffer_at file j = record {
    size =
        if j == num_of_buffer (length file) - 1 then length file - j * buffer_size else buffer_size;
    content = drop (j * buffer_size) file;
  }

  -- The loop over `j` with the rounds left.
  unfoldable pub buffers_from : List ℕ → ℕ → ℕ → List Buffer
  buffers_from file j zero = []
  buffers_from file j (suc r) = buffer_at file j ∷ buffers_from file (j + 1) r

  -- `bufferlist` after `handleFile`.
  unfoldable pub handle_file : List (List ℕ) → List Buffer
  handle_file [] = []
  handle_file (file ∷ files) =
      buffers_from file 0 (num_of_buffer (length file)) ++ handle_file files
