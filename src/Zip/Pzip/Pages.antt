-- ===== src/Zip/Pzip/Pages.antt =====
-- The producer's pages: put in a row they are the files, and each has a place of its own in `out`.
use ostep_projects_finish.Common.{
  ℕ, suc, ◌+◌, ◌*◌, ◌<◌, ◌≡◌, refl, sym, ap, ap₂, ◌∙◌, subst, List, [], ◌∷◌, ◌++◌, append_assoc,
  map, some, arith, length, drop, All, All-append,
}
use mathlib.Core.List.{map-append}
use ostep_projects_finish.Zip.Runs.{runs}
use ostep_projects_finish.Zip.Wzip.{wzip}
use ostep_projects_finish.Zip.Wzip.RoundTrip.{records, concat, zipped, wzip-eq-zipped}
use ostep_projects_finish.Zip.Pzip.{
  Buffer, rle_compress, compress_bytes, print_output, pages_in_file, buffers_from, producer,
}
use ostep_projects_finish.Zip.Pzip.Join.{IsPage, print_output-records}
use ostep_projects_finish.Zip.Pzip.Cut.{
  page_of, HasBytes, concat-buffers_from, buffers_from-IsPage, producer-cons, producer_empty,
}

-- What wzip writes for files that are not all empty.
pub records-wzip :
    (f : List ℕ) (fs : List (List ℕ))
    → HasBytes (concat (f ∷ fs))
    → records (runs (concat (f ∷ fs))) ≡ (wzip (map some (f ∷ fs))).out
records-wzip f fs h = go (concat (f ∷ fs)) h ∙ ap (λ e. e.out) (sym (wzip-eq-zipped f fs))
  where
    go : (xs : List ℕ) → HasBytes xs → records (runs xs) ≡ zipped xs
    go [] p = absurd (omega arith)
    go (x ∷ xs) p = refl

module _ (page_size : ℕ) (some_size : 0 < page_size) where
  concat_append : (ps qs : List (List ℕ)) → concat (ps ++ qs) ≡ concat ps ++ concat qs
  concat_append [] qs = refl
  concat_append (p ∷ ps) qs =
      ap (λ t. p ++ t) (concat_append ps qs) ∙ sym (append_assoc p (concat ps) (concat qs))

  -- The pages that the producer puts, in a row, are the bytes of all the files.
  pub concat-producer :
      (i : ℕ) (files : List (List ℕ))
      → concat (map page_of (producer page_size i files)) ≡ concat files
  concat-producer i [] = unfold producer in refl
  concat-producer i ([] ∷ files) =
      ap (λ t. concat (map page_of t)) (producer_empty page_size i files)
      ∙ concat-producer (i + 1) files
  concat-producer i ((x ∷ xs) ∷ files) =
      ap (λ t. concat (map page_of t)) (producer-cons page_size i x xs files)
      ∙ ap concat (map-append page_of own (producer page_size (i + 1) files))
      ∙ concat_append (map page_of own) (map page_of (producer page_size (i + 1) files))
      ∙ ap₂ ◌++◌
          (concat-buffers_from page_size some_size i (x ∷ xs) 0
              (pages_in_file page_size (suc (length xs))) (omega arith) (omega arith)
            ∙ ap (λ k. drop k (x ∷ xs)) (let z : 0 * page_size ≡ 0 = omega arith in z))
          (concat-producer (i + 1) files)
    where
      own : List Buffer
      own = buffers_from page_size i (x ∷ xs) 0 (pages_in_file page_size (suc (length xs)))

  pub producer-IsPage :
      (i : ℕ) (files : List (List ℕ)) → All IsPage (map page_of (producer page_size i files))
  producer-IsPage i [] = unfold producer in tt
  producer-IsPage i ([] ∷ files) =
      subst (λ t. All IsPage (map page_of t)) (sym (producer_empty page_size i files))
        (producer-IsPage (i + 1) files)
  producer-IsPage i ((x ∷ xs) ∷ files) =
      subst (λ t. All IsPage (map page_of t)) (sym (producer-cons page_size i x xs files))
        (subst (All IsPage) (sym (map-append page_of _ (producer page_size (i + 1) files))) (
          All-append IsPage _ _
            (buffers_from-IsPage page_size some_size i (x ∷ xs) 0
              (pages_in_file page_size (suc (length xs))) (omega arith) (omega arith))
            (producer-IsPage (i + 1) files)))

  map-rle_compress : (bs : List Buffer) → map rle_compress bs ≡ map compress_bytes (map page_of bs)
  unfolding rle_compress
  map-rle_compress [] = refl
  map-rle_compress (b ∷ bs) = ap (λ t. compress_bytes (page_of b) ∷ t) (map-rle_compress bs)

  -- For files that are not all empty, the outputs of all pages, compressed one by one and printed in
  -- order, are what the sequential wzip writes for the same files.
  pub pzip-eq-wzip :
      (f : List ℕ) (fs : List (List ℕ))
      → HasBytes (concat (f ∷ fs))
      → print_output (map rle_compress (producer page_size 0 (f ∷ fs)))
        ≡ (wzip (map some (f ∷ fs))).out
  pzip-eq-wzip f fs h =
      ap print_output (map-rle_compress (producer page_size 0 (f ∷ fs)))
      ∙ print_output-records (map page_of (producer page_size 0 (f ∷ fs)))
          (producer-IsPage 0 (f ∷ fs))
      ∙ ap (λ t. records (runs t)) (concat-producer 0 (f ∷ fs))
      ∙ records-wzip f fs h
