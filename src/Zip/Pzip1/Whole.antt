-- ===== src/Zip/Pzip1/Whole.antt =====
-- The whole of concurrency-pzip/wzip/pzip.c, by way of what pzip3.c does with the same runs.
use ostep_projects_finish.Common.{ℕ, ◌-◌, ◌*◌, ◌≡◌, ◌≢◌, List, [], ◌∷◌, length, take, drop, All}
use ostep_projects_finish.Zip.Runs.{runs}
use ostep_projects_finish.Zip.Pzip
use ostep_projects_finish.Zip.Pzip.{Output}
use ostep_projects_finish.Zip.Pzip.Compress.{bytes_of, counts_of}
use ostep_projects_finish.Zip.Pzip1.{Pzip}

-- The result that holds the runs of a part.
zipped_part : List ℕ → Pzip
zipped_part p = record { zip_data = runs p; data_num = length (runs p) }

-- Text has no NUL, and one stands behind each copy.
abbrev pub IsText : List ℕ → Type 0
IsText xs = All (λ c. c ≢ 0) xs

abbrev pub IsEnded : (ℕ → List ℕ) → Type 0
IsEnded behind = (i : ℕ) → (rest : List ℕ) × (behind i ≡ 0 ∷ rest)

-- The same result as an output of pzip3.c.
to_output : Pzip → Output
to_output z = record {
  chars = bytes_of z.zip_data;
  count = counts_of z.zip_data;
  size = z.data_num;
}

parts_of : ℕ → List ℕ → List (List ℕ)
parts_of len buffer =
    take len buffer
    ∷ take len (drop len buffer)
    ∷ take len (drop (2 * len) buffer)
    ∷ take (length buffer - 3 * len) (drop (3 * len) buffer)
    ∷ []
