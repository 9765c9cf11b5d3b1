-- ===== src/Zip/Pzip2/Files.antt =====
-- `handleFile` of concurrency-pzip/wzip/pzip2.c cuts the files as the producer of pzip3.c does, so the
-- whole of pzip2 compresses as wzip.
use ostep_projects_finish.Common.{
  ℕ, zero, suc, ◌+◌, ◌-◌, ◌*◌, ◌/◌, ◌<◌, ◌≡◌, refl, sym, ap, ap₂, ◌∙◌, List, [], ◌∷◌, ◌++◌, map,
  some, length, take, drop, arith, ◌==◌, ltb, if◌then◌else◌, Bool-cases, ==→eq, ==→ne, eq→==, ne→==,
  inl, inr,
}
use mathlib.Core.List.{map-append}
use native.Mathlib.Nat.{zero-div}
use ostep_projects_finish.Zip.Runs.{runs}
use ostep_projects_finish.Zip.Wzip.{wzip}
use ostep_projects_finish.Zip.Wzip.RoundTrip.{records, concat}
use ostep_projects_finish.Zip.Pzip
use ostep_projects_finish.Zip.Pzip.{is_cut, pages_in_file, size_of_last, producer}
use ostep_projects_finish.Zip.Pzip.Cut.{page_of, HasBytes, pages_fit, producer-cons, producer_empty}
use ostep_projects_finish.Zip.Pzip.Pages.{concat-producer, producer-IsPage, records-wzip}
use ostep_projects_finish.Zip.Pzip2.{
  Buffer, compress, output, num_of_buffer, buffer_at, buffers_from, handle_file,
}
use ostep_projects_finish.Zip.Pzip2.Compress.{compress-runs}
use ostep_projects_finish.Zip.Pzip2.Output.{output-records}

-- The bytes that `compress` reads.
abbrev text_of : Buffer → List ℕ
text_of b = take b.size b.content

module _ (b : ℕ) (some_size : 0 < b) where
  num_of_buffer-pages : (st : ℕ) → num_of_buffer b st ≡ pages_in_file b st
  unfolding num_of_buffer pages_in_file is_cut
  num_of_buffer-pages st = ground arith

  last_size : (p l st j : ℕ) → 0 < p → (p - 1) * b + l ≡ st → j ≡ p - 1 → st - j * b ≡ l
  last_size p l st j h e q = rw q (omega arith)

  text_of-page_of :
      (i : ℕ) (file : List ℕ) (j : ℕ)
      → 0 < length file
      → text_of (buffer_at b file j) ≡ page_of (Pzip.buffer_at b i file j)
  unfolding buffer_at Pzip.buffer_at
  text_of-page_of i file j h =
      let st = length file in
      let p = pages_in_file b st in
      let f = pages_fit b some_size st h in
      ap (λ n. take n (drop (j * b) file))
        (rw (num_of_buffer-pages st) (elim (Bool-cases (j + 1 == p)) [
          | inl e ↦
              let q : j ≡ p - 1 = omega (arith, ==→eq (j + 1) p e) in
              rw (e, eq→== j (p - 1) q) (last_size p (size_of_last b st) st j f.0 f.1 q)
          | inr e ↦
              let q = ==→ne (j + 1) p e in rw (e, ne→== j (p - 1) (λ z. omega (arith, q, f.0))) refl
        ]))

  text_of-buffers_from :
      (i : ℕ) (file : List ℕ) (j r : ℕ)
      → 0 < length file
      → map text_of (buffers_from b file j r) ≡ map page_of (Pzip.buffers_from b i file j r)
  unfolding buffers_from Pzip.buffers_from
  text_of-buffers_from i file j zero h = refl
  text_of-buffers_from i file j (suc r) h =
      ap₂ ◌∷◌ (text_of-page_of i file j h) (text_of-buffers_from i file (j + 1) r h)

  no_buffer : num_of_buffer b 0 ≡ 0
  no_buffer = num_of_buffer-pages 0 ∙ unfold pages_in_file is_cut in no_pages
    where
      no_pages : (if ltb (0 / b * b) 0 then 0 / b + 1 else 0 / b) ≡ 0
      no_pages = let q : 0 * b ≡ 0 = omega arith in rw (zero-div b, q) refl

  no_rounds : buffers_from b [] 0 0 ≡ []
  unfolding buffers_from
  no_rounds = refl

  handle_cons :
      (f : List ℕ) (fs : List (List ℕ))
      → handle_file b (f ∷ fs) ≡ buffers_from b f 0 (num_of_buffer b (length f)) ++ handle_file b fs
  handle_cons f fs = unfold handle_file in refl

  text_of-handle_file :
      (i : ℕ) (files : List (List ℕ))
      → map text_of (handle_file b files) ≡ map page_of (producer b i files)
  text_of-handle_file i [] = unfold handle_file producer in refl
  text_of-handle_file i ([] ∷ files) =
      ap (map text_of) (
        handle_cons [] files
        ∙ ap (λ n. buffers_from b [] 0 n ++ handle_file b files) no_buffer
        ∙ ap (λ t. t ++ handle_file b files) no_rounds)
      ∙ text_of-handle_file (i + 1) files
      ∙ ap (map page_of) (sym (producer_empty b i files))
  text_of-handle_file i ((x ∷ xs) ∷ files) =
      let n = pages_in_file b (length (x ∷ xs)) in
      ap (map text_of) (
        handle_cons (x ∷ xs) files
        ∙ ap (λ k. buffers_from b (x ∷ xs) 0 k ++ handle_file b files)
            (num_of_buffer-pages (length (x ∷ xs))))
      ∙ map-append text_of (buffers_from b (x ∷ xs) 0 n) (handle_file b files)
      ∙ ap₂ ◌++◌ (text_of-buffers_from i (x ∷ xs) 0 n (omega arith))
          (text_of-handle_file (i + 1) files)
      ∙ sym (map-append page_of (Pzip.buffers_from b i (x ∷ xs) 0 n) (producer b (i + 1) files))
      ∙ ap (map page_of) (sym (producer-cons b i x xs files))

  map-compress : (bs : List Buffer) → map compress bs ≡ map runs (map text_of bs)
  map-compress [] = refl
  map-compress (x ∷ bs) = ap₂ ◌∷◌ (compress-runs x) (map-compress bs)

  -- For files that are not all empty, the buffers of all files, compressed one by one and printed in
  -- order, are what the sequential wzip writes for the same files.
  pub pzip2-eq-wzip :
      (f : List ℕ) (fs : List (List ℕ))
      → HasBytes (concat (f ∷ fs))
      → output (map compress (handle_file b (f ∷ fs))) ≡ (wzip (map some (f ∷ fs))).out
  pzip2-eq-wzip f fs h =
      ap output
        (map-compress (handle_file b (f ∷ fs)) ∙ ap (map runs) (text_of-handle_file 0 (f ∷ fs)))
      ∙ output-records (map page_of (producer b 0 (f ∷ fs)))
          (producer-IsPage b some_size 0 (f ∷ fs))
      ∙ ap (λ t. records (runs t)) (concat-producer b some_size 0 (f ∷ fs))
      ∙ records-wzip f fs h
