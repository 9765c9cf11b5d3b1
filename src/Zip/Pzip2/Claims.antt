-- ===== src/Zip/Pzip2/Claims.antt =====
-- concurrency-pzip/wzip/pzip2.c: the threads share the buffers out, and when all have returned every
-- buffer is compressed.
use ostep_projects_finish.Common.{
  ℕ, suc, ◌<◌, ◌≡◌, refl, sym, ap, ap₂, ◌∙◌, subst, Option, some, List, [], ◌∷◌, length, get_or,
  map, arith, length-set, inl, inr, length-replicate,
}
use ostep_projects_finish.Zip.Runs.{Run}
use mathlib.Core.Option
use ostep_projects_finish.Zip.Wzip.{wzip}
use ostep_projects_finish.Zip.Wzip.RoundTrip.{concat}
use ostep_projects_finish.Zip.Pzip.Cut.{HasBytes}
use ostep_projects_finish.Zip.Pzip2.{Buffer, compress, output, handle_file}
use ostep_projects_finish.Zip.Pzip2.Files.{pzip2-eq-wzip}
use ostep_projects_finish.Zip.Pzip2.Threads.{
  looping, returned, Compressors, blank, thread_at, result_at, Step, measure, add, finish, claim,
  claim_none, compress_buffer, see_last, see_more, leave, stay, all_results, start_compressors,
  Reach, start, later,
}
use ostep_projects_finish.Zip.Pzip2.Fair.{
  ThreadFits, Compressed, quiet-ne, in_range-compressing, IsFair, Reach-IsFair,
}

same_results :
    (results : List (Option (List Run))) (buffers : List Buffer)
    → length results ≡ length buffers
    → ((i : ℕ)
        → i < length buffers
        → result_at results i ≡ some (compress (get_or buffers i blank)))
    → results ≡ map (λ b. some (compress b)) buffers
same_results [] [] e h = refl
same_results [] (b ∷ buffers) e h = absurd (omega arith)
same_results (r ∷ results) [] e h = absurd (omega arith)
same_results (r ∷ results) (b ∷ buffers) e h =
    ap₂ ◌∷◌ (h 0 (omega arith))
      (same_results results buffers (omega arith) (λ i q. h (suc i) (omega arith)))

module _ (buffers : List Buffer) where
  Step-threads : (s u : Compressors) → Step buffers s u → length u.threads ≡ length s.threads
  Step-threads s u (measure n h) = refl
  Step-threads s u (add e h) = refl
  Step-threads s u (finish e) = refl
  Step-threads s u (claim t r a h) = length-set s.threads t _
  Step-threads s u (claim_none t r a h) = length-set s.threads t _
  Step-threads s u (compress_buffer t i r a) = length-set s.threads t _
  Step-threads s u (see_last t r a e) = length-set s.threads t _
  Step-threads s u (see_more t r a e) = length-set s.threads t _
  Step-threads s u (leave t r a e) = length-set s.threads t _
  Step-threads s u (stay t r a e) = length-set s.threads t _

  Reach-threads :
      (n : ℕ) (s : Compressors)
      → Reach buffers (start_compressors buffers n (length buffers)) s
      → length s.threads ≡ n
  Reach-threads n s start = length-replicate n looping
  Reach-threads n s (later {t} r step) = Step-threads t s step ∙ Reach-threads n t r

  -- From a state in which `handleFile` has counted the buffers, with at least one thread, in any order
  -- of the steps: when every thread has returned, every entry of `bufferlist` has its buffer's
  -- compressed bytes.
  pub returned-results :
      (n : ℕ) (s : Compressors)
      → 0 < n
      → Reach buffers (start_compressors buffers n (length buffers)) s
      → ((t : ℕ) → t < n → thread_at s t ≡ returned)
      → s.results ≡ map (λ b. some (compress b)) buffers
  returned-results n s some_thread r all_returned = same_results s.results buffers f.stored each
    where
      f : IsFair buffers s
      f = Reach-IsFair buffers n s r

      all_claimed : s.index_cthread ≡ length buffers
      all_claimed =
          subst (ThreadFits buffers s.index_cthread) (all_returned 0 some_thread) (f.fits 0)

      each : (i : ℕ) → i < length buffers → Compressed buffers s.results i
      each i h = elim (f.done i (omega (arith, all_claimed))) [
        | inl c ↦ c
        | inr (t, at_t) ↦
            let known = in_range-compressing s.threads t i at_t in
            let own : t < n = omega (arith, Reach-threads n s r) in
            absurd (quiet-ne returned i refl (sym (all_returned t own) ∙ at_t))
      ]

all_results-some :
    (buffers : List Buffer)
    → all_results (map (λ b. some (compress b)) buffers) ≡ some (map compress buffers)
unfolding all_results
all_results-some [] = refl
all_results-some (b ∷ buffers) = rw (all_results-some buffers) refl

-- From a state in which `handleFile` has counted the buffers, with at least one thread and files that
-- are not all empty, in any order of the steps: when every thread has returned, what `output` writes is
-- what the sequential wzip writes for the same files.
pub threads-eq-wzip :
    (buffer_size : ℕ) (f : List ℕ) (fs : List (List ℕ)) (n : ℕ) (s : Compressors)
    → 0 < buffer_size
    → HasBytes (concat (f ∷ fs))
    → 0 < n
    → Reach
        (handle_file buffer_size (f ∷ fs))
        (start_compressors
          (handle_file buffer_size (f ∷ fs))
          n
          (length (handle_file buffer_size (f ∷ fs))))
        s
    → ((t : ℕ) → t < n → thread_at s t ≡ returned)
    → Option.map output (all_results s.results) ≡ some (wzip (map some (f ∷ fs))).out
threads-eq-wzip buffer_size f fs n s some_size h some_thread r all_returned =
    ap (λ t. Option.map output (all_results t))
      (returned-results (handle_file buffer_size (f ∷ fs)) n s some_thread r all_returned)
    ∙ ap (Option.map output) (all_results-some (handle_file buffer_size (f ∷ fs)))
    ∙ ap some (pzip2-eq-wzip buffer_size some_size f fs h)
