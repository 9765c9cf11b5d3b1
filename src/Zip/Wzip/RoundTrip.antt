-- ===== src/Zip/Wzip/RoundTrip.antt =====
-- wzip writes the canonical encoding of all its input, and wunzip reads it back.
use ostep_projects_finish.Common.{
  ℕ, suc, ◌+◌, ◌*◌, ◌/◌, ◌%◌, ◌^◌, ◌<◌, ◌≡◌, refl, sym, ap, ◌∙◌, some, List, [], ◌∷◌, ◌++◌,
  append_assoc, append-nil, map, arith, length, replicate, replicate-snoc, All, ◌==◌, lt→ltb, false,
  Bool-cases, ==→eq, ==→ne, inl, inr,
}
use ostep_projects_finish.Zip.Runs.{
  Run, expand, runs, runs-replicate, expand-runs, IsShort, runs-IsShort,
}
use ostep_projects_finish.Zip.Wzip.{
  diwrite, Zip, zip_byte, zip_file, zip_files, fresh, wzip, int_of, rounds, Unzip, unzip_file,
  wunzip,
}

-- The records of an encoding, in the format of `diwrite`.
abbrev pub records : List Run → List ℕ
records [] = []
records ((n, c) ∷ rs) = diwrite n c ++ records rs

abbrev pub concat : List (List ℕ) → List ℕ
concat [] = []
concat (f ∷ fs) = f ++ concat fs

-- The output once the pending record is written.
abbrev finish : Zip → List ℕ
finish z = z.out ++ diwrite z.count z.last_read

abbrev zip_of : ℕ → ℕ → List ℕ → Zip
zip_of n c out = record { last_read = c; count = n; out = out }

zip_byte_same : (n c : ℕ) (out : List ℕ) → zip_byte (zip_of n c out) c ≡ zip_of (suc n) c out
unfolding zip_byte
zip_byte_same n c out = ground arith

zip_byte_other :
    (n c x : ℕ) (out : List ℕ)
    → (x == c) ≡ false
    → zip_byte (zip_of (suc n) c out) x ≡ zip_of 1 x (out ++ diwrite (suc n) c)
unfolding zip_byte
zip_byte_other n c x out e = ground arith

finish-zip_file :
    (xs : List ℕ) (n c : ℕ) (out : List ℕ)
    → finish (zip_file xs (zip_of (suc n) c out))
      ≡ out ++ records (runs (replicate (suc n) c ++ xs))
unfolding zip_file
finish-zip_file [] n c out =
    rw (runs-replicate n c [] tt) (ap (λ t. out ++ t) (sym (append-nil (diwrite (suc n) c))))
finish-zip_file (x ∷ xs) n c out = elim (Bool-cases (x == c)) [
  | inl e ↦
      rw (==→eq x c e, replicate-snoc n c xs)
        (ap (λ z. finish (zip_file xs z)) (zip_byte_same (suc n) c out)
          ∙ finish-zip_file xs (suc n) c out)
  | inr e ↦
      ap (λ z. finish (zip_file xs z)) (zip_byte_other n c x out e)
      ∙ finish-zip_file xs 0 x (out ++ diwrite (suc n) c)
      ∙ append_assoc out (diwrite (suc n) c) (records (runs (x ∷ xs)))
      ∙ ap (λ t. out ++ records t) (sym (runs-replicate n c (x ∷ xs) (λ q. ==→ne x c e (sym q))))
]

zip_byte_first : (x : ℕ) → zip_byte fresh x ≡ zip_of 1 x []
unfolding zip_byte
zip_byte_first x = ground arith

zip_file-append : (xs ys : List ℕ) (z : Zip) → zip_file (xs ++ ys) z ≡ zip_file ys (zip_file xs z)
unfolding zip_file
zip_file-append [] ys z = refl
zip_file-append (x ∷ xs) ys z = zip_file-append xs ys (zip_byte z x)

zip_files-concat :
    (fs : List (List ℕ)) (z : Zip)
    → zip_files (map some fs) z ≡ record { out = finish (zip_file (concat fs) z); status = 0 }
unfolding zip_files
zip_files-concat [] z = unfold zip_file in refl
zip_files-concat (f ∷ fs) z =
    zip_files-concat fs (zip_file f z)
    ∙ ap (λ t. record { out = finish t; status = 0 }) (sym (zip_file-append f (concat fs) z))

-- What wzip writes for the bytes `xs`: one empty record if there are none.
abbrev pub zipped : List ℕ → List ℕ
zipped [] = diwrite 0 0
zipped (x ∷ xs) = records (runs (x ∷ xs))

finish-zipped : (xs : List ℕ) → finish (zip_file xs fresh) ≡ zipped xs
finish-zipped [] = unfold zip_file in refl
finish-zipped (x ∷ xs) =
    unfold zip_file in
    ap (λ z. finish (zip_file xs z)) (zip_byte_first x) ∙ finish-zip_file xs 0 x []

pub wzip-eq-zipped :
    (f : List ℕ) (fs : List (List ℕ))
    → wzip (map some (f ∷ fs)) ≡ record { out = zipped (concat (f ∷ fs)); status = 0 }
unfolding wzip
wzip-eq-zipped f fs =
    zip_files-concat (f ∷ fs) fresh
    ∙ ap (λ t. record { out = t; status = 0 }) (finish-zipped (concat (f ∷ fs)))

int_of_bytes :
    (n : ℕ)
    → n < 2 ^ 31
    → rounds (int_of (n % 256) (n / 256 % 256) (n / 65536 % 256) (n / 16777216 % 256)) ≡ n
unfolding rounds int_of
int_of_bytes n h =
    let e : n % 256
          + 256 * (n / 256 % 256)
          + 65536 * (n / 65536 % 256)
          + 16777216 * (n / 16777216 % 256)
        ≡ n =
      omega arith in
    rw (e, lt→ltb n (2 ^ 31) h)

unzip_file-records :
    (rs : List Run) (u : Unzip)
    → All (λ r. r.0 < 2 ^ 31) rs
    → (unzip_file (records rs) u).out ≡ u.out ++ expand rs
unfolding unzip_file diwrite
unzip_file-records [] u a = sym (append-nil u.out)
unzip_file-records ((n, c) ∷ rs) u a =
    unzip_file-records rs _ a.1
    ∙ rw (int_of_bytes n a.0) (append_assoc u.out (replicate n c) (expand rs))

runs-IsU31 : (xs : List ℕ) → length xs < 2 ^ 31 → All (λ r. r.0 < 2 ^ 31) (runs xs)
runs-IsU31 xs h = go (runs xs) (runs-IsShort xs)
  where
    go : (rs : List Run) → All (IsShort (length xs)) rs → All (λ r. r.0 < 2 ^ 31) rs
    go [] a = tt
    go (r ∷ rs) a = (omega (arith, a.0), go rs a.1)

unzip_file-zipped :
    (xs : List ℕ) (u : Unzip) → length xs < 2 ^ 31 → (unzip_file (zipped xs) u).out ≡ u.out ++ xs
unzip_file-zipped [] u h = unfold unzip_file diwrite rounds int_of in refl
unzip_file-zipped (x ∷ xs) u h =
    unzip_file-records (runs (x ∷ xs)) u (runs-IsU31 (x ∷ xs) h)
    ∙ ap (λ t. u.out ++ t) (expand-runs (x ∷ xs))

-- wunzip, run on one file that holds what wzip writes for files that open and hold fewer than 2 ^ 31
-- bytes together, exits with 0 and writes those files' bytes in a row, whatever its uninitialised
-- `char_read` holds.
pub wunzip-wzip :
    (garbage : ℕ) (f : List ℕ) (fs : List (List ℕ))
    → length (concat (f ∷ fs)) < 2 ^ 31
    → wunzip garbage (some (wzip (map some (f ∷ fs))).out ∷ [])
      ≡ record { out = concat (f ∷ fs); status = 0 }
unfolding wunzip
wunzip-wzip garbage f fs h = rw (wzip-eq-zipped f fs) (
    ap (λ t. record { out = t; status = 0 })
      (unzip_file-zipped (concat (f ∷ fs)) (record { char_read = garbage; out = [] }) h))
