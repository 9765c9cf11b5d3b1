-- ===== src/Zip/Pzip/Position.antt =====
-- `calculateOutputPosition`: each page has its own place in `out`, and the places are filled in order.
use ostep_projects_finish.Common.{
  ℕ, zero, suc, ◌+◌, ◌≡◌, refl, sym, ap, ap₂, ◌∙◌, subst, List, [], ◌∷◌, ◌++◌, map, arith, length,
  length-append, drop, All, ne→==,
}
use mathlib.Core.List.{map-append}
use ostep_projects_finish.Zip.Pzip.{
  Buffer, pages_in_file, buffer_at, buffers_from, producer, pages_per_file, sum_first,
  calculate_output_position,
}
use ostep_projects_finish.Zip.Pzip.Cut.{HasBytes, producer-cons}

abbrev pub range_from : ℕ → ℕ → List ℕ
range_from b zero = []
range_from b (suc n) = b ∷ range_from (b + 1) n

range_from-append : (b m n : ℕ) → range_from b (m + n) ≡ range_from b m ++ range_from (b + m) n
range_from-append b zero n =
    ap₂ range_from (let e : b ≡ b + 0 = omega arith in e) (let e : 0 + n ≡ n = omega arith in e)
range_from-append b (suc m) n =
    ap (range_from b) (let e : suc m + n ≡ suc (m + n) = omega arith in e)
    ∙ ap (λ t. b ∷ t) (range_from-append (b + 1) m n)
    ∙ ap (λ k. b ∷ (range_from (b + 1) m ++ range_from k n))
        (let e : b + 1 + m ≡ b + suc m = omega arith in e)

-- One more entry of the sum.
sum_first-suc :
    (i : ℕ) (ppf : List ℕ) (p : ℕ) (rest : List ℕ)
    → drop i ppf ≡ p ∷ rest
    → (sum_first (suc i) ppf ≡ sum_first i ppf + p) × (drop (suc i) ppf ≡ rest)
unfolding sum_first
sum_first-suc i [] p rest e = absurd (no i e)
  where
    no : (j : ℕ) → drop {A = ℕ} j [] ≡ p ∷ rest → ⊥
    no zero q = cc
    no (suc j) q = cc
sum_first-suc zero (x ∷ ppf) p rest e =
    let h : x ≡ p = cc in let t : ppf ≡ rest = cc in (omega arith, t)
sum_first-suc (suc i) (x ∷ ppf) p rest e =
    let (a, b) = sum_first-suc i ppf p rest e in (omega arith, b)

module _ (page_size : ℕ) (ppf : List ℕ) where
  position_at :
      (i b : ℕ) (file : List ℕ) (j : ℕ)
      → sum_first i ppf ≡ b
      → calculate_output_position ppf (buffer_at page_size i file j) ≡ b + j
  unfolding calculate_output_position buffer_at
  position_at i b file j e = omega arith

  positions_of_file :
      (i b : ℕ) (file : List ℕ) (j r : ℕ)
      → sum_first i ppf ≡ b
      → map (calculate_output_position ppf) (buffers_from page_size i file j r)
        ≡ range_from (b + j) r
  unfolding buffers_from
  positions_of_file i b file j zero e = refl
  positions_of_file i b file j (suc r) e =
      ap₂ ◌∷◌ (position_at i b file j e) (positions_of_file i b file (j + 1) r e)
      ∙ ap (λ k. (b + j) ∷ range_from k r) (let q : b + (j + 1) ≡ b + j + 1 = omega arith in q)

  pages_per_file-cons :
      (g : ℕ) (garbage : List ℕ) (x : ℕ) (xs : List ℕ) (files : List (List ℕ))
      → pages_per_file page_size (g ∷ garbage) ((x ∷ xs) ∷ files)
        ≡ pages_in_file page_size (length (x ∷ xs)) ∷ pages_per_file page_size garbage files
  unfolding pages_per_file
  pages_per_file-cons g garbage x xs files = rw (ne→== (suc (length xs)) 0 (omega arith))

  length-buffers_from :
      (i : ℕ) (file : List ℕ) (j r : ℕ) → length (buffers_from page_size i file j r) ≡ r
  unfolding buffers_from
  length-buffers_from i file j zero = refl
  length-buffers_from i file j (suc r) = ap suc (length-buffers_from i file (j + 1) r)

  -- From file `i` on, where the entries before it sum up to `b`.
  positions_from :
      (files : List (List ℕ)) (garbage : List ℕ) (i b : ℕ)
      → length garbage ≡ length files
      → All HasBytes files
      → sum_first i ppf ≡ b
      → drop i ppf ≡ pages_per_file page_size garbage files
      → map (calculate_output_position ppf) (producer page_size i files)
        ≡ range_from b (length (producer page_size i files))
  positions_from [] garbage i b l a e t = unfold producer in refl
  positions_from ([] ∷ files) garbage i b l a e t = absurd (omega (arith, a.0))
  positions_from ((x ∷ xs) ∷ files) [] i b l a e t = absurd (omega arith)
  positions_from ((x ∷ xs) ∷ files) (g ∷ garbage) i b l a e t =
      subst (λ l. map (calculate_output_position ppf) l ≡ range_from b (length l))
        (sym (producer-cons page_size i x xs files))
        (map-append (calculate_output_position ppf) own others
          ∙ ap₂ ◌++◌ (positions_of_file i b (x ∷ xs) 0 n e) (
              positions_from files garbage (i + 1) (b + n) (omega arith) a.1
                (subst (λ k. sum_first k ppf ≡ b + n) one_more (next.0 ∙ ap (λ k. k + n) e))
                (subst (λ k. drop k ppf ≡ pages_per_file page_size garbage files) one_more next.1))
          ∙ ends)
    where
      n : ℕ
      n = pages_in_file page_size (suc (length xs))

      own : List Buffer
      own = buffers_from page_size i (x ∷ xs) 0 n

      others : List Buffer
      others = producer page_size (i + 1) files

      next :
          (sum_first (suc i) ppf ≡ sum_first i ppf + n)
          × (drop (suc i) ppf ≡ pages_per_file page_size garbage files)
      next =
          sum_first-suc i ppf n (pages_per_file page_size garbage files)
            (t ∙ pages_per_file-cons g garbage x xs files)

      one_more : suc i ≡ i + 1
      one_more = omega arith

      ends :
          range_from (b + 0) n ++ range_from (b + n) (length others)
          ≡ range_from b (length (own ++ others))
      ends =
          ap (λ k. range_from k n ++ range_from (b + n) (length others))
            (let z : b + 0 ≡ b = omega arith in z)
          ∙ sym (range_from-append b n (length others))
          ∙ ap (range_from b) (
              let z : n + length others ≡ length (own ++ others) =
                omega (arith, length-append own others, length-buffers_from i (x ∷ xs) 0 n) in
              z)

-- If no file is empty, the buffers that the producer puts have the output positions 0, 1, 2, … in
-- the order in which it puts them, whatever malloc left in `pages_per_file`: no two share a slot of
-- `out`, and no slot is left out.
pub calculate_output_position-producer :
    (page_size : ℕ) (garbage : List ℕ) (files : List (List ℕ))
    → length garbage ≡ length files
    → All HasBytes files
    → map
        (calculate_output_position (pages_per_file page_size garbage files))
        (producer page_size 0 files)
      ≡ range_from 0 (length (producer page_size 0 files))
calculate_output_position-producer page_size garbage files l a =
    positions_from page_size (pages_per_file page_size garbage files) files garbage 0 0 l a
      (unfold sum_first in refl) refl
