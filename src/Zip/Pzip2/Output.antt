-- ===== src/Zip/Pzip2/Output.antt =====
-- `output` of concurrency-pzip/wzip/pzip2.c joins the runs of neighbouring buffers.
use ostep_projects_finish.Common.{
  ℕ, zero, suc, ◌+◌, ◌≡◌, refl, sym, ap, ap₂, ◌∙◌, Bool, true, false, List, [], ◌∷◌, ◌++◌,
  append_assoc, append-nil, map, arith, replicate, All, ◌==◌, Bool-cases, ==→eq, ==→ne, inl, inr,
  ==_refl, not, ◌&&◌,
}
use ostep_projects_finish.Zip.Runs.{
  Run, expand, runs, push_run_head, runs-replicate, expand-runs, expand-append, runs-expand,
  IsCanonical, runs-IsCanonical,
}
use ostep_projects_finish.Zip.Wzip.{diwrite}
use ostep_projects_finish.Zip.Wzip.RoundTrip.{records, concat}
use ostep_projects_finish.Zip.Pzip.Join.{
  IsPage, IsCanonical-init, runs-expand_append, records-append, replicate-add, snoc_view,
}
use ostep_projects_finish.Zip.Pzip2.{
  Out, flush, put_result, print_results, print_buffers, output, is_empty,
}

abbrev out_of : ℕ → ℕ → List ℕ → Out
out_of n c w = record { char_temp = c; num_temp = n; written = w }

and_false : (b : Bool) → (b && false) ≡ false
and_false true = refl
and_false false = refl

is_empty-snoc : (rs : List Run) (r : Run) → is_empty (rs ++ (r ∷ [])) ≡ false
is_empty-snoc [] r = refl
is_empty-snoc (s ∷ rs) r = refl

-- A result that is written while no count waits.
put_plain :
    (n c d : ℕ) (w : List ℕ)
    → put_result false (n, c) (out_of 0 d w) ≡ out_of 0 d (w ++ diwrite n c)
put_plain n c d w = elim (Bool-cases (d == c)) [
  | inl e ↦ rw e (
      ap₂ (λ k b. out_of 0 d (w ++ diwrite k b)) (let q : n + 0 ≡ n = omega arith in q)
        (==→eq d c e))
  | inr e ↦ rw e refl
]

-- The results of the last buffer.
print_last :
    (rs : List Run) (d : ℕ) (w : List ℕ)
    → (print_results false true rs (out_of 0 d w)).written ≡ w ++ records rs
unfolding print_results
print_last [] d w = sym (append-nil w)
print_last ((n, c) ∷ rs) d w =
    ap (λ b. (print_results false true rs (put_result b (n, c) (out_of 0 d w))).written)
      (and_false (is_empty rs))
    ∙ ap (λ o. (print_results false true rs o).written) (put_plain n c d w)
    ∙ print_last rs d (w ++ diwrite n c)
    ∙ append_assoc w (diwrite n c) (records rs)

-- The results of another buffer: all but the last are written, and its count waits.
print_other :
    (rs : List Run) (n c d : ℕ) (w : List ℕ)
    → print_results false false (rs ++ ((n, c) ∷ [])) (out_of 0 d w) ≡ out_of n c (w ++ records rs)
unfolding print_results
print_other [] n c d w =
    ap₂ (λ k v. out_of k c v) (let q : 0 + n ≡ n = omega arith in q) (sym (append-nil w))
print_other ((m, b) ∷ rs) n c d w =
    ap
      (λ e.
        print_results false false (rs ++ ((n, c) ∷ []))
          (put_result (e && true) (m, b) (out_of 0 d w)))
      (is_empty-snoc rs (n, c))
    ∙ ap (print_results false false (rs ++ ((n, c) ∷ []))) (put_plain m b d w)
    ∙ print_other rs n c d (w ++ diwrite m b)
    ∙ ap (out_of n c) (append_assoc w (diwrite m b) (records rs))

flush_same : (k n c : ℕ) (w : List ℕ) → flush true (n, c) (out_of k c w) ≡ out_of k c w
flush_same k n c w = rw (==_refl c) refl

-- A count that waits goes into the first result of the next buffer, when the byte is the same.
put_same :
    (kept : Bool) (k n c : ℕ) (w : List ℕ)
    → put_result kept (n, c) (out_of k c w) ≡ put_result kept (n + k, c) (out_of 0 c w)
put_same true k n c w = ap (λ j. out_of j c w) (let q : k + n ≡ 0 + (n + k) = omega arith in q)
put_same false k n c w =
    rw (==_refl c)
      (ap (λ j. out_of 0 c (w ++ diwrite j c)) (let q : n + k ≡ n + k + 0 = omega arith in q))

meet_same :
    (is_last : Bool) (k n c : ℕ) (rs : List Run) (w : List ℕ)
    → print_results true is_last ((n, c) ∷ rs) (out_of k c w)
      ≡ print_results false is_last ((n + k, c) ∷ rs) (out_of 0 c w)
unfolding print_results
meet_same is_last k n c rs w =
    ap (λ o. print_results false is_last rs (put_result (is_empty rs && not is_last) (n, c) o))
      (flush_same k n c w)
    ∙ ap (print_results false is_last rs) (put_same (is_empty rs && not is_last) k n c w)

meet_other :
    (is_last : Bool) (k c n d : ℕ) (rs : List Run) (w : List ℕ)
    → (c == d) ≡ false
    → print_results true is_last ((n, d) ∷ rs) (out_of k c w)
      ≡ print_results false is_last ((k, c) ∷ (n, d) ∷ rs) (out_of 0 c w)
unfolding print_results
meet_other is_last k c n d rs w e = rw e (
    ap (λ o. print_results false is_last rs (put_result (is_empty rs && not is_last) (n, d) o))
      (sym (put_plain k c c w)))

-- The runs of a run in front of a text.
runs_ahead :
    (k m y : ℕ) (ss : List Run)
    → IsCanonical ((suc m, y) ∷ ss)
    → runs (replicate k y ++ expand ((suc m, y) ∷ ss)) ≡ (suc m + k, y) ∷ ss
runs_ahead k m y ss h =
    ap runs (replicate-add (suc m) k y (expand ss))
    ∙ runs-expand ((suc m + k, y) ∷ ss) (omega arith, h.1, h.2)

-- A count that waits and the results of the next buffer print as the runs of both.
meet :
    (is_last : Bool) (k c y : ℕ) (ys w : List ℕ)
    → print_results true is_last (runs (y ∷ ys)) (out_of (suc k) c w)
      ≡ print_results false is_last (runs (replicate (suc k) c ++ (y ∷ ys))) (out_of 0 c w)
meet is_last k c y ys w = elim (Bool-cases (c == y)) [
  | inl e ↦
      ap (λ r. print_results true is_last r (out_of (suc k) c w)) eq
      ∙ ap (λ d. print_results true is_last ((suc m, d) ∷ ss) (out_of (suc k) c w))
          (sym (==→eq c y e))
      ∙ meet_same is_last (suc k) (suc m) c ss w
      ∙ ap (λ r. print_results false is_last r (out_of 0 c w))
          (ap (λ d. (suc m + suc k, d) ∷ ss) (==→eq c y e)
            ∙ sym (runs_ahead (suc k) m y ss own)
            ∙ ap₂ (λ d t. runs (replicate (suc k) d ++ t)) (sym (==→eq c y e))
                (ap expand (sym eq) ∙ expand-runs (y ∷ ys)))
  | inr e ↦
      ap (λ r. print_results true is_last r (out_of (suc k) c w)) eq
      ∙ meet_other is_last (suc k) c (suc m) y ss w e
      ∙ ap (λ r. print_results false is_last r (out_of 0 c w))
          (ap (λ r. (suc k, c) ∷ r) (sym eq) ∙ sym (runs-replicate k c (y ∷ ys) (==→ne c y e)))
]
  where
    m : ℕ
    m = (push_run_head y (runs ys)).0

    ss : List Run
    ss = (push_run_head y (runs ys)).1

    eq : runs (y ∷ ys) ≡ (suc m, y) ∷ ss
    eq = (push_run_head y (runs ys)).2

    own : IsCanonical ((suc m, y) ∷ ss)
    own = rw eq at (runs-IsCanonical (y ∷ ys))

-- The last run of a text, and the runs in front of it.
record Last (xs : List ℕ) : Type 0 where
  init : List Run
  k : ℕ
  c : ℕ
  splits : runs xs ≡ init ++ ((suc k, c) ∷ [])

Last-cons : (x : ℕ) (xs : List ℕ) → Last (x ∷ xs)
Last-cons x xs =
    go (push_run_head x (runs xs)).0 (push_run_head x (runs xs)).1 (push_run_head x (runs xs)).2
  where
    go : (n : ℕ) (ss : List Run) → runs (x ∷ xs) ≡ (suc n, x) ∷ ss → Last (x ∷ xs)
    go n ss e =
        positive (snoc_view (suc n, x) ss).0 (snoc_view (suc n, x) ss).1 (snoc_view (suc n, x) ss).2
          (e ∙ (snoc_view (suc n, x) ss).3)
      where
        positive :
            (init : List Run) (n' c : ℕ) → runs (x ∷ xs) ≡ init ++ ((n', c) ∷ []) → Last (x ∷ xs)
        positive init zero c q =
            absurd (
              omega (arith, (IsCanonical-init init 0 c [] (rw q at (runs-IsCanonical (x ∷ xs)))).2))
        positive init (suc k) c q = record { init = init; k = k; c = c; splits = q }

-- A text whose last run goes on in what follows.
runs_split :
    (xs : List ℕ) (l : Last xs) (tail : List ℕ)
    → runs (xs ++ tail) ≡ l.init ++ runs (replicate (suc l.k) l.c ++ tail)
runs_split xs l tail =
    let can = rw l.splits at (runs-IsCanonical xs) in
    let i = IsCanonical-init l.init (suc l.k) l.c (replicate l.k l.c ++ tail) can in
    ap (λ t. runs (t ++ tail))
      (sym (expand-runs xs) ∙ ap expand l.splits ∙ expand-append l.init ((suc l.k, l.c) ∷ []))
    ∙ ap runs (
        append_assoc (expand l.init) (replicate (suc l.k) l.c ++ []) tail
        ∙ ap (λ t. expand l.init ++ (t ++ tail)) (append-nil (replicate (suc l.k) l.c)))
    ∙ runs-expand_append l.init (replicate (suc l.k) l.c ++ tail) i.0 i.1

-- The buffers from the current one on, whose first run has taken up what waited.
print_from-records :
    (pages : List (List ℕ)) (x : ℕ) (xs : List ℕ) (d : ℕ) (w : List ℕ)
    → All IsPage pages
    → (print_buffers true
        (map runs pages)
        (print_results false (is_empty (map runs pages)) (runs (x ∷ xs)) (out_of 0 d w))).written
      ≡ w ++ records (runs ((x ∷ xs) ++ concat pages))
unfolding print_buffers
print_from-records [] x xs d w a =
    print_last (runs (x ∷ xs)) d w ∙ ap (λ t. w ++ records (runs t)) (sym (append-nil (x ∷ xs)))
print_from-records ([] ∷ pages) x xs d w a = absurd a.0
print_from-records ((y ∷ ys) ∷ pages) x xs d w a =
    let l = Last-cons x xs in
    let more = replicate (suc l.k) l.c ++ (y ∷ ys) in
    let is_last = is_empty (map runs pages) in
    ap
      (λ o.
        (print_buffers true (map runs pages)
          (print_results true is_last (runs (y ∷ ys)) o)).written)
      (ap (λ r. print_results false false r (out_of 0 d w)) l.splits
        ∙ print_other l.init (suc l.k) l.c d w)
    ∙ ap (λ o. (print_buffers true (map runs pages) o).written)
        (meet is_last l.k l.c y ys (w ++ records l.init))
    ∙ print_from-records pages l.c (replicate l.k l.c ++ (y ∷ ys)) l.c (w ++ records l.init) a.1
    ∙ append_assoc w (records l.init) (records (runs (more ++ concat pages)))
    ∙ ap (λ t. w ++ t)
        (sym (records-append l.init (runs (more ++ concat pages)))
          ∙ ap (λ t. records (l.init ++ runs t))
              (append_assoc (replicate (suc l.k) l.c) (y ∷ ys) (concat pages))
          ∙ ap records (sym (runs_split (x ∷ xs) l ((y ∷ ys) ++ concat pages))))

-- The results of buffers that are not empty, printed in order, are the records of the canonical
-- encoding of the buffers' bytes in a row.
pub output-records :
    (pages : List (List ℕ))
    → All IsPage pages
    → output (map runs pages) ≡ records (runs (concat pages))
unfolding output print_buffers
output-records [] a = refl
output-records ([] ∷ pages) a = absurd a.0
output-records ((x ∷ xs) ∷ pages) a = print_from-records pages x xs 0 [] a.1
