-- ===== src/Zip/Wzip.antt =====
-- initial-utilities/wzip/wzip.c and initial-utilities/wunzip/wunzip.c. Bytes are numbers below 256, a
-- file is the list of its bytes, and `none` is a file that fopen does not open. The two write to
-- stdout only. `int` is 32 bits, little-endian; `fread` and `fwrite` move whole records.
pub mod RoundTrip
pub mod ToFile
use ostep_projects_finish.Common.{
  ℕ, zero, suc, ◌+◌, ◌*◌, ◌/◌, ◌%◌, ◌^◌, Option, none, some, List, [], ◌∷◌, ◌++◌, codes, replicate,
  ◌==◌, ltb, if◌then◌else◌,
}

-- What a program leaves: the bytes of its stdout and its exit status.
pub record Exit : Type 0 where
  pub out : List ℕ
  pub status : ℕ

abbrev newline : List ℕ
newline = 10 ∷ []

unfoldable pub diwrite : ℕ → ℕ → List ℕ
diwrite n c = n % 256 ∷ n / 256 % 256 ∷ n / 65536 % 256 ∷ n / 16777216 % 256 ∷ c ∷ []

-- The locals of `main` that live across its loops.
pub record Zip : Type 0 where
  pub last_read : ℕ
  pub count : ℕ
  pub out : List ℕ

-- One round of the `while`, for the byte that fread gave.
pub zip_byte : Zip → ℕ → Zip
zip_byte z char_read =
    if char_read == z.last_read then record z { count = z.count + 1 } else record {
      last_read = char_read;
      count = 1;
      out = if ltb 0 z.count then z.out ++ diwrite z.count z.last_read else z.out;
    }

pub zip_file : List ℕ → Zip → Zip
zip_file [] z = z
zip_file (x ∷ xs) z = zip_file xs (zip_byte z x)

-- The `for` over the arguments, and the record that is pending at the end.
pub zip_files : List (Option (List ℕ)) → Zip → Exit
zip_files [] z = record { out = z.out ++ diwrite z.count z.last_read; status = 0 }
zip_files (none ∷ fs) z = record {
  out = z.out ++ codes "wzip: cannot open file" ++ newline;
  status = 1;
}
zip_files (some f ∷ fs) z = zip_files fs (zip_file f z)

abbrev pub fresh : Zip
fresh = record { last_read = 0; count = 0; out = [] }

unfoldable pub wzip : List (Option (List ℕ)) → Exit
unfolding zip_files zip_file zip_byte diwrite
wzip [] = record { out = codes "wzip: file1 [file2 ...]" ++ newline; status = 1 }
wzip (f ∷ fs) = zip_files (f ∷ fs) fresh

-- The four bytes that fread puts into `int_read`.
pub int_of : ℕ → ℕ → ℕ → ℕ → ℕ
int_of b0 b1 b2 b3 = b0 + 256 * b1 + 65536 * b2 + 16777216 * b3

-- The rounds of `for (int j = 0; j < int_read; j++)`: none if the int is negative.
pub rounds : ℕ → ℕ
rounds n = if ltb n (2 ^ 31) then n else 0

-- `char_read` keeps its value where the second fread finds the end of the file.
pub record Unzip : Type 0 where
  pub char_read : ℕ
  pub out : List ℕ

pub unzip_file : List ℕ → Unzip → Unzip
unzip_file (b0 ∷ b1 ∷ b2 ∷ b3 ∷ c ∷ rest) u =
    unzip_file rest
      (record { char_read = c; out = u.out ++ replicate (rounds (int_of b0 b1 b2 b3)) c })
unzip_file (b0 ∷ b1 ∷ b2 ∷ b3 ∷ []) u = record u {
  out = u.out ++ replicate (rounds (int_of b0 b1 b2 b3)) u.char_read;
}
unzip_file _ u = u

pub unzip_files : List (Option (List ℕ)) → Unzip → Exit
unzip_files [] u = record { out = u.out; status = 0 }
unzip_files (none ∷ fs) u = record {
  out = u.out ++ codes "wunzip: cannot open file" ++ newline;
  status = 1;
}
unzip_files (some f ∷ fs) u = unzip_files fs (unzip_file f u)

-- `garbage` is what `char_read` holds before anything is read into it.
unfoldable pub wunzip : ℕ → List (Option (List ℕ)) → Exit
unfolding unzip_files unzip_file rounds int_of
wunzip garbage [] = record { out = codes "wunzip: file1 [file2 ...]" ++ newline; status = 1 }
wunzip garbage (f ∷ fs) = unzip_files (f ∷ fs) (record { char_read = garbage; out = [] })
