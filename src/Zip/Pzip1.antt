-- ===== src/Zip/Pzip1.antt =====
-- concurrency-pzip/wzip/pzip.c: how the text of all files is cut for the threads, what a thread does, and
-- how the results are joined and written. The text is the list of its bytes; what stands in the memory
-- behind the copy of a part, which no NUL ends, is a parameter. `none` is an access outside of an array.
pub mod Whole
use ostep_projects_finish.Common.{
  ℕ, ◌+◌, ◌-◌, ◌*◌, ◌/◌, Option, none, some, List, [], ◌∷◌, ◌++◌, length, get_or, set, take, drop,
  ◌==◌, ltb, if◌then◌else◌,
}
use ostep_projects_finish.Common.Text.{cstr}
use ostep_projects_finish.Zip.Runs.{Run}
use ostep_projects_finish.Zip.Wzip.{diwrite}

-- `struct pzip`; a `struct data_zip` is a run.
pub record Pzip : Type 0 where
  pub zip_data : List Run
  pub data_num : ℕ

abbrev pub no_data : Run
no_data = (0, 0)

-- The loop of `datazip` at a byte `c`, and the run behind it.
unfoldable pub zip_from : ℕ → ℕ → List ℕ → List Run
zip_from count c [] = (count, c) ∷ []
zip_from count c (y ∷ text) =
    let longer = zip_from (count + 1) y text in
    let rest = zip_from 1 y text in if c == y then longer else (count, c) ∷ rest

-- `datazip` on the bytes that `strlen` counts. For no bytes the code writes and reads in front of its
-- arrays.
unfoldable pub zip_counted : List ℕ → Option Pzip
zip_counted [] = none
zip_counted (c ∷ text) =
    some (record { zip_data = zip_from 1 c text; data_num = length (zip_from 1 c text) })

-- `behind` is the memory behind the copy.
unfoldable pub datazip : List ℕ → List ℕ → Option Pzip
unfolding zip_counted
datazip behind copy = zip_counted (cstr (copy ++ behind))

-- Thread `i` and those after it.
unfoldable pub datazips : (ℕ → List ℕ) → ℕ → List (List ℕ) → Option (List Pzip)
datazips behind i [] = some []
datazips behind i (d ∷ ds) = elim (datazip (behind i) d) [
  | none ↦ none
  | some z ↦ elim (datazips behind (i + 1) ds) [ none ↦ none | some zs ↦ some (z ∷ zs) ]
]

-- A round of the loop that joins results `i` and `i + 1`.
unfoldable pub join_edge : Pzip → Pzip → Pzip × Pzip
join_edge z w =
    let end = get_or z.zip_data (z.data_num - 1) no_data in
    let begin = get_or w.zip_data 0 no_data in
    if end.1 == begin.1
    then (
      record z { data_num = z.data_num - 1 },
      record w { zip_data = set w.zip_data 0 (begin.0 + end.0, begin.1) },
    )
    else (z, w)

-- fwrite of entries.
unfoldable pub fwrite_runs : List Run → List ℕ
fwrite_runs [] = []
fwrite_runs ((n, c) ∷ rs) = diwrite n c ++ fwrite_runs rs

-- The joining and the writing, from the result `z` on.
unfoldable pub write_from : Pzip → List Pzip → List ℕ
write_from z [] = fwrite_runs (take z.data_num z.zip_data)
write_from z (w ∷ rest) =
    let (z', w') = join_edge z w in fwrite_runs (take z'.data_num z'.zip_data) ++ write_from w' rest

unfoldable pub write_all : List Pzip → List ℕ
write_all [] = []
write_all (z ∷ rest) = write_from z rest

-- `ceil((double) total_len/core_number)`, where `core_number` is 4.
abbrev pub seperate_len : ℕ → ℕ
seperate_len total_len = (total_len + 3) / 4

-- The parts for the four threads; `none` if `final_len` is negative.
unfoldable pub cut : List ℕ → Option (List (List ℕ))
cut buffer =
    let len = seperate_len (length buffer) in
    if ltb (length buffer) (3 * len)
    then none
    else some (
        take len buffer
        ∷ take len (drop len buffer)
        ∷ take len (drop (2 * len) buffer)
        ∷ take (length buffer - 3 * len) (drop (3 * len) buffer)
        ∷ [])

-- The contents of the file "a.z".
unfoldable pub pzip : (ℕ → List ℕ) → List ℕ → Option (List ℕ)
pzip behind buffer = elim (cut buffer) [
  | none ↦ none
  | some parts ↦ elim (datazips behind 0 parts) [ none ↦ none | some zs ↦ some (write_all zs) ]
]
