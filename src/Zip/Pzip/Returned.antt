-- ===== src/Zip/Pzip/Returned.antt =====
-- concurrency-pzip/wzip/pzip3.c from the producer's pages to what `printOutput` writes, for every order of
-- the threads' steps.
use ostep_projects_finish.Common.{
  ℕ, zero, suc, ◌+◌, ◌<◌, ◌≡◌, refl, sym, ap, ◌∙◌, subst, Option, none, some, List, [], ◌∷◌, length,
  get_or, map, drop, ◌++◌, arith, length-set, inl, inr, length-replicate, All,
}
use mathlib.Core.Option
use ostep_projects_finish.Zip.Wzip.{wzip}
use ostep_projects_finish.Zip.Wzip.RoundTrip.{concat}
use ostep_projects_finish.Zip.Pzip.{
  Buffer, Output, rle_compress, print_output, producer, pages_per_file, calculate_output_position,
}
use ostep_projects_finish.Zip.Pzip.Cut.{HasBytes}
use ostep_projects_finish.Zip.Pzip.Pages.{pzip-eq-wzip}
use ostep_projects_finish.Zip.Pzip.Position.{range_from, calculate_output_position-producer}
use ostep_projects_finish.Zip.Pzip.Queue.{empty_buffer, got_all}
use ostep_projects_finish.Zip.Pzip.Consumers.{
  waiting, returned, Program, consumer_at, Step, produce, take_buffer, store, again, leave,
  leave_queue, all_outputs, Reach, start, later,
}
use ostep_projects_finish.Zip.Pzip.Outputs.{
  quiet-ne, in_range-compressing, ConsumerFits, IsFair, Reach-IsFair,
}

all_outputs-map :
    (out : List (Option Output)) (pages : List Buffer)
    → length out ≡ length pages
    → ((k : ℕ)
        → k < length pages
        → get_or out k none ≡ some (rle_compress (get_or pages k empty_buffer)))
    → all_outputs out ≡ some (map rle_compress pages)
unfolding all_outputs
all_outputs-map [] [] e h = refl
all_outputs-map [] (b ∷ pages) e h = absurd (omega arith)
all_outputs-map (o ∷ out) [] e h = absurd (omega arith)
all_outputs-map (o ∷ out) (b ∷ pages) e h =
    rw (h 0 (omega arith), all_outputs-map out pages (omega arith) (λ i q. h (suc i) (omega arith)))
      refl

-- The places of a list's entries, read off the list of all places.
get_or-range_from :
    (position : Buffer → ℕ) (pages : List Buffer) (b k : ℕ)
    → map position pages ≡ range_from b (length pages)
    → k < length pages
    → position (get_or pages k empty_buffer) ≡ b + k
get_or-range_from position [] b k e h = absurd (omega arith)
get_or-range_from position (x ∷ pages) b zero e h =
    ap (λ l. get_or l 0 0) e ∙ (let z : b ≡ b + 0 = omega arith in z)
get_or-range_from position (x ∷ pages) b (suc k) e h =
    get_or-range_from position pages (b + 1) k (ap (λ l. drop 1 l) e) (omega arith)
    ∙ (let z : b + 1 + k ≡ b + suc k = omega arith in z)

module _ (position : Buffer → ℕ) (pages : List Buffer) where
  Step-consumers : (s u : Program) → Step position s u → length u.consumers ≡ length s.consumers
  Step-consumers s u (produce t d e) = refl
  Step-consumers s u (take_buffer c r a h) = length-set s.consumers c _
  Step-consumers s u (store c temp r a) = length-set s.consumers c _
  Step-consumers s u (again c r a h) = length-set s.consumers c _
  Step-consumers s u (leave c r a o) = length-set s.consumers c _
  Step-consumers s u (leave_queue c r a o) = length-set s.consumers c _

  pub Reach-consumers : (n : ℕ) (s : Program) → Reach position pages n s → length s.consumers ≡ n
  Reach-consumers n s start = length-replicate n waiting
  Reach-consumers n s (later {s = t} r d) = Step-consumers t s d ∙ Reach-consumers n t r

  -- When all consumers have returned, each page's output is in its place.
  returned-outputs :
      (n : ℕ) (s : Program)
      → ((k : ℕ) → k < length pages → position (get_or pages k empty_buffer) ≡ k)
      → 0 < n
      → Reach position pages n s
      → ((c : ℕ) → c < n → consumer_at s c ≡ returned)
      → all_outputs s.out ≡ some (map rle_compress pages)
  returned-outputs n s places some_consumer r all_returned =
      all_outputs-map s.out pages f.stored each
    where
      f : IsFair position pages s
      f = Reach-IsFair position pages n s places r

      over : ConsumerFits position pages s.shared returned
      over = subst (ConsumerFits position pages s.shared) (all_returned 0 some_consumer) (f.fits 0)

      all_got : s.shared.got ≡ pages
      all_got = got_all pages s.shared f.reached over.0 over.1

      each :
          (k : ℕ)
          → k < length pages
          → get_or s.out k none ≡ some (rle_compress (get_or pages k empty_buffer))
      each k h = elim (f.done k (let z = ap length all_got in omega arith)) [
        | inl a ↦ a
        | inr (c, at_c) ↦
            let known = in_range-compressing s.consumers c (get_or pages k empty_buffer) at_c in
            let own : c < n = omega (arith, Reach-consumers n s r) in
            absurd (
              quiet-ne returned (get_or pages k empty_buffer) refl
                (sym (all_returned c own) ∙ at_c))
      ]

-- For files none of which is empty, with at least one consumer, in any order of the steps of the producer
-- and the consumers: when every consumer has returned, `out` is filled, and what `printOutput` writes
-- of it is what the sequential wzip writes for the same files, whatever malloc left in
-- `pages_per_file`.
pub consumers-eq-wzip :
    (page_size : ℕ) (garbage : List ℕ) (f : List ℕ) (fs : List (List ℕ)) (n : ℕ) (s : Program)
    → 0 < page_size
    → length garbage ≡ length (f ∷ fs)
    → All HasBytes (f ∷ fs)
    → 0 < n
    → Reach
        (calculate_output_position (pages_per_file page_size garbage (f ∷ fs)))
        (producer page_size 0 (f ∷ fs))
        n
        s
    → ((c : ℕ) → c < n → consumer_at s c ≡ returned)
    → Option.map print_output (all_outputs s.out) ≡ some (wzip (map some (f ∷ fs))).out
consumers-eq-wzip page_size garbage f fs n s pos l some_bytes some_consumer r all_returned =
    ap (Option.map print_output) (
      returned-outputs (calculate_output_position (pages_per_file page_size garbage (f ∷ fs)))
        (producer page_size 0 (f ∷ fs)) n s
        (λ k h.
          get_or-range_from (calculate_output_position (pages_per_file page_size garbage (f ∷ fs)))
            (producer page_size 0 (f ∷ fs)) 0 k
            (calculate_output_position-producer page_size garbage (f ∷ fs) l some_bytes) h
          ∙ (let z : 0 + k ≡ k = omega arith in z))
        some_consumer r all_returned)
    ∙ ap some (pzip-eq-wzip page_size pos f fs (some_byte f (concat fs) some_bytes.0))
  where
    some_byte : (xs ys : List ℕ) → HasBytes xs → HasBytes (xs ++ ys)
    some_byte [] ys h = absurd (omega arith)
    some_byte (x ∷ xs) ys h = omega arith
