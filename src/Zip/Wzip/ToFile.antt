-- ===== src/Zip/Wzip/ToFile.antt =====
-- concurrency-pzip/wzip/wzip.c: the sequential wzip that pzip is timed against. It writes its records to
-- the file a.z, which can be opened, and its messages and the time to its standard output. Its loops are
-- those of initial-utilities/wzip/wzip.c.
use ostep_projects_finish.Common.{
  ℕ, ◌≡◌, refl, ap, Option, none, some, List, [], ◌∷◌, ◌++◌, append_assoc, codes, ◌==◌,
  if◌then◌else◌,
}
use ostep_projects_finish.Zip.Wzip.{Exit, Zip, diwrite, zip_file, zip_files, fresh, wzip}

-- What the program leaves: the file a.z if it has been opened, what it prints and its exit status.
pub record Left : Type 0 where
  pub written : Option (List ℕ)
  pub printed : List ℕ
  pub status : ℕ

module _ (seconds : List ℕ) where
  -- The `for` over the arguments, and what follows it; `seconds` is the line with the time.
  unfoldable pub zip_to : List (Option (List ℕ)) → Zip → Left
  zip_to [] z = record {
    written = some (z.out ++ diwrite z.count z.last_read);
    printed = seconds;
    status = 0;
  }
  zip_to (none ∷ fs) z = record {
    written = some z.out;
    printed = codes "wzip: cannot open file\n";
    status = 1;
  }
  zip_to (some f ∷ fs) z = zip_to fs (zip_file f z)

  unfoldable pub main : List (Option (List ℕ)) → Left
  main [] = record { written = none; printed = codes "wzip: file1 [file2 ...]\n"; status = 1 }
  main (f ∷ fs) = zip_to (f ∷ fs) fresh

  -- What wzip prints, of what this program leaves.
  abbrev pub on_stdout : Left → Exit
  on_stdout l = record {
    out = elim l.written [
      | none ↦ l.printed
      | some out ↦ if l.status == 0 then out else out ++ l.printed
    ];
    status = l.status;
  }

  zip_files-zip_to :
      (fs : List (Option (List ℕ))) (z : Zip) → zip_files fs z ≡ on_stdout (zip_to fs z)
  unfolding zip_files zip_to
  zip_files-zip_to [] z = refl
  zip_files-zip_to (none ∷ fs) z =
      ap (λ t. record { out = t; status = 1 })
        (append_assoc z.out (codes "wzip: cannot open file") (10 ∷ []))
  zip_files-zip_to (some f ∷ fs) z = zip_files-zip_to fs (zip_file f z)

  -- This program ends with the status of wzip and puts what wzip prints into the file,
  -- but for the message of an error, which it prints.
  pub wzip-main : (fs : List (Option (List ℕ))) → wzip fs ≡ on_stdout (main fs)
  unfolding wzip main
  wzip-main [] = refl
  wzip-main (f ∷ fs) = zip_files-zip_to (f ∷ fs) fresh
