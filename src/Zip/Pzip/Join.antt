-- ===== src/Zip/Pzip/Join.antt =====
-- The outputs of the pages, joined and printed, are the records of the whole input.
use ostep_projects_finish.Common.{
  ℕ, zero, suc, ◌+◌, ◌-◌, ◌<◌, ◌≡◌, refl, sym, ap, ◌∙◌, subst, true, false, List, [], ◌∷◌, ◌++◌,
  append_assoc, append-nil, map, arith, length, length-append, replicate, replicate-snoc, get_or,
  All, ◌==◌, Bool-cases, ==→eq, ==→ne, inl, inr,
}
use ostep_projects_finish.Zip.Runs.{
  Run, expand, runs, push_run_head, runs-replicate, expand-runs, expand-append, runs-expand,
  StartsOther, IsCanonical, runs-IsCanonical,
}
use ostep_projects_finish.Zip.Wzip.{diwrite}
use ostep_projects_finish.Zip.Wzip.RoundTrip.{records, concat}
use ostep_projects_finish.Zip.Pzip.{Output, compress_bytes, join_edge, print_from, print_output}
use ostep_projects_finish.Zip.Pzip.Compress.{
  bytes_of, counts_of, output_of, compress_bytes-runs, emit-records, emit_all,
}

-- The last of `rs` is no run of the first byte of `ys`.
abbrev pub LastOther : List Run → List ℕ → Type 0
LastOther [] ys = Unit
LastOther ((n, c) ∷ []) ys = StartsOther c ys
LastOther (r ∷ s ∷ rs) ys = LastOther (s ∷ rs) ys

pub runs-expand_append :
    (rs : List Run) (ys : List ℕ)
    → IsCanonical rs
    → LastOther rs ys
    → runs (expand rs ++ ys) ≡ rs ++ runs ys
runs-expand_append [] ys k l = refl
runs-expand_append ((zero, c) ∷ rs) ys k l = absurd (omega (arith, k.0))
runs-expand_append ((suc n, c) ∷ []) ys k l = rw append-nil (runs-replicate n c ys l)
runs-expand_append ((suc n, c) ∷ (zero, d) ∷ rs) ys k l = absurd (omega (arith, k.2.0))
runs-expand_append ((suc n, c) ∷ (suc m, d) ∷ rs) ys k l =
    ap runs (append_assoc (replicate (suc n) c) (expand ((suc m, d) ∷ rs)) ys)
    ∙ runs-replicate n c (expand ((suc m, d) ∷ rs) ++ ys) k.1
    ∙ ap (λ t. (suc n, c) ∷ t) (runs-expand_append ((suc m, d) ∷ rs) ys k.2 l)

-- What a canonical encoding with a last run says of the part before it.
pub IsCanonical-init :
    (rs : List Run) (n c : ℕ) (ys : List ℕ)
    → IsCanonical (rs ++ ((n, c) ∷ []))
    → IsCanonical rs × LastOther rs (c ∷ ys) × (0 < n)
IsCanonical-init [] n c ys k = (tt, tt, k.0)
IsCanonical-init ((m, d) ∷ []) n c ys k = ((k.0, tt, tt), k.1, k.2.0)
IsCanonical-init ((m, d) ∷ r ∷ rs) n c ys k =
    let (a, b, p) = IsCanonical-init (r ∷ rs) n c ys k.2 in ((k.0, k.1, a), b, p)

LastOther-snoc :
    (rs : List Run) (n c : ℕ) (ys : List ℕ) → StartsOther c ys → LastOther (rs ++ ((n, c) ∷ [])) ys
LastOther-snoc [] n c ys h = h
LastOther-snoc (r ∷ []) n c ys h = h
LastOther-snoc (r ∷ s ∷ rs) n c ys h = LastOther-snoc (s ∷ rs) n c ys h

last_index : (rs : List Run) (r : Run) → length (rs ++ (r ∷ [])) - 1 ≡ length rs
last_index rs r = omega (arith, length-append rs (r ∷ []))

last_byte : (rs : List Run) (n c : ℕ) → get_or (bytes_of (rs ++ ((n, c) ∷ []))) (length rs) 0 ≡ c
last_byte [] n c = refl
last_byte (r ∷ rs) n c = last_byte rs n c

last_count : (rs : List Run) (n c : ℕ) → get_or (counts_of (rs ++ ((n, c) ∷ []))) (length rs) 0 ≡ n
last_count [] n c = refl
last_count (r ∷ rs) n c = last_count rs n c

join_same :
    (rs ss : List Run) (n m c d : ℕ)
    → (c == d) ≡ true
    → join_edge (output_of (rs ++ ((n, c) ∷ []))) (output_of ((m, d) ∷ ss))
      ≡ (record (output_of (rs ++ ((n, c) ∷ []))) { size = length rs }, output_of ((m + n, d) ∷ ss))
unfolding join_edge
join_same rs ss n m c d e = rw (last_index rs (n, c), last_byte rs n c, last_count rs n c, e)

join_other :
    (rs ss : List Run) (n m c d : ℕ)
    → (c == d) ≡ false
    → join_edge (output_of (rs ++ ((n, c) ∷ []))) (output_of ((m, d) ∷ ss))
      ≡ (output_of (rs ++ ((n, c) ∷ [])), output_of ((m, d) ∷ ss))
unfolding join_edge
join_other rs ss n m c d e = rw (last_index rs (n, c), last_byte rs n c, last_count rs n c, e)

pub replicate-add :
    (m n c : ℕ) (ys : List ℕ) → replicate n c ++ (replicate m c ++ ys) ≡ replicate (m + n) c ++ ys
replicate-add zero n c ys = ap (λ k. replicate k c ++ ys) (let e : n ≡ 0 + n = omega arith in e)
replicate-add (suc m) n c ys =
    replicate-snoc n c (replicate m c ++ ys)
    ∙ ap (λ t. c ∷ t) (replicate-add m n c ys)
    ∙ ap (λ k. replicate k c ++ ys) (let e : suc (m + n) ≡ suc m + n = omega arith in e)

step_same :
    (rs ss : List Run) (n m c d : ℕ) (rest : List Output)
    → (c == d) ≡ true
    → print_from (output_of (rs ++ ((n, c) ∷ []))) (output_of ((m, d) ∷ ss) ∷ rest)
      ≡ records rs ++ print_from (output_of ((m + n, d) ∷ ss)) rest
unfolding print_from
step_same rs ss n m c d rest e = rw (join_same rs ss n m c d e, emit-records rs ((n, c) ∷ []))

step_other :
    (rs ss : List Run) (n m c d : ℕ) (rest : List Output)
    → (c == d) ≡ false
    → print_from (output_of (rs ++ ((n, c) ∷ []))) (output_of ((m, d) ∷ ss) ∷ rest)
      ≡ records (rs ++ ((n, c) ∷ [])) ++ print_from (output_of ((m, d) ∷ ss)) rest
unfolding print_from
step_other rs ss n m c d rest e = rw (join_other rs ss n m c d e, emit_all (rs ++ ((n, c) ∷ [])))

pub records-append : (rs ss : List Run) → records (rs ++ ss) ≡ records rs ++ records ss
records-append [] ss = refl
records-append ((n, c) ∷ rs) ss =
    ap (λ t. diwrite n c ++ t) (records-append rs ss)
    ∙ sym (append_assoc (diwrite n c) (records rs) (records ss))

abbrev pub IsPage : List ℕ → Type 0
IsPage [] = ⊥
IsPage (y ∷ ys) = Unit

pub snoc_view :
    (r : Run) (ss : List Run) → (rs : List Run) × (n : ℕ) × (c : ℕ) × (r ∷ ss ≡ rs ++ ((n, c) ∷ []))
snoc_view r [] = ([], r.0, r.1, refl)
snoc_view r (s ∷ ss) = let (rs, n, c, e) = snoc_view s ss in (r ∷ rs, n, c, ap (λ t. r ∷ t) e)

page_runs : (y : ℕ) (ys : List ℕ) → (m : ℕ) × (ss : List Run) × (runs (y ∷ ys) ≡ (suc m, y) ∷ ss)
page_runs y ys = push_run_head y (runs ys)

regroup :
    (rs ss : List Run) (n m c : ℕ) (ys : List ℕ)
    → expand (rs ++ ((n, c) ∷ [])) ++ (expand ((m, c) ∷ ss) ++ ys)
      ≡ expand rs ++ (replicate (m + n) c ++ (expand ss ++ ys))
regroup rs ss n m c ys =
    simp (expand-append, append_assoc, append-nil)
      (ap (λ t. expand rs ++ t) (replicate-add m n c (expand ss ++ ys)))

-- The runs of two neighbours that meet in one byte.
joined :
    (rs ss : List Run) (n m c : ℕ) (ys : List ℕ)
    → IsCanonical (rs ++ ((n, c) ∷ []))
    → runs (expand (rs ++ ((n, c) ∷ [])) ++ (expand ((m, c) ∷ ss) ++ ys))
      ≡ rs ++ runs (expand ((m + n, c) ∷ ss) ++ ys)
joined rs ss zero m c ys k = absurd (omega (arith, (IsCanonical-init rs 0 c [] k).2))
joined rs ss (suc n) m c ys k =
    ap runs (regroup rs ss (suc n) m c ys)
    ∙ ap (λ j. runs (expand rs ++ (replicate j c ++ tail))) more
    ∙ runs-expand_append rs (replicate (suc (m + n)) c ++ tail) before.0 before.1
    ∙ ap (λ j. rs ++ runs (replicate j c ++ tail)) (sym more)
    ∙ ap (λ t. rs ++ runs t) (sym (append_assoc (replicate (m + suc n) c) (expand ss) ys))
  where
    tail : List ℕ
    tail = expand ss ++ ys

    more : m + suc n ≡ suc (m + n)
    more = omega arith

    before : IsCanonical rs × LastOther rs (c ∷ (replicate (m + n) c ++ tail)) × (0 < suc n)
    before = IsCanonical-init rs (suc n) c (replicate (m + n) c ++ tail) k

merged-IsCanonical :
    (m n d : ℕ) (ss : List Run) → IsCanonical ((m, d) ∷ ss) → IsCanonical ((m + n, d) ∷ ss)
merged-IsCanonical m n d ss k = (omega (arith, k.0), k.1, k.2)

-- One round of `printOutput`, given what the rounds after it print.
print_step :
    (rs ss : List Run) (n m c d : ℕ) (rest : List Output) (tail : List ℕ)
    → IsCanonical (rs ++ ((n, c) ∷ []))
    → print_from (output_of ((suc m + n, d) ∷ ss)) rest
      ≡ records (runs (expand ((suc m + n, d) ∷ ss) ++ tail))
    → print_from (output_of ((suc m, d) ∷ ss)) rest
      ≡ records (runs (expand ((suc m, d) ∷ ss) ++ tail))
    → print_from (output_of (rs ++ ((n, c) ∷ []))) (output_of ((suc m, d) ∷ ss) ∷ rest)
      ≡ records (runs (expand (rs ++ ((n, c) ∷ [])) ++ (expand ((suc m, d) ∷ ss) ++ tail)))
print_step rs ss n m c d rest tail k merged apart = elim (Bool-cases (c == d)) [
  | inl e ↦
      step_same rs ss n (suc m) c d rest e
      ∙ ap (λ t. records rs ++ t) merged
      ∙ sym (records-append rs (runs (expand ((suc m + n, d) ∷ ss) ++ tail)))
      ∙ ap records (rw (==→eq c d e) (sym (joined rs ss n (suc m) d tail (rw (==→eq c d e) at k))))
  | inr e ↦
      step_other rs ss n (suc m) c d rest e
      ∙ ap (λ t. records (rs ++ ((n, c) ∷ [])) ++ t) apart
      ∙ sym (records-append (rs ++ ((n, c) ∷ [])) (runs (expand ((suc m, d) ∷ ss) ++ tail)))
      ∙ ap records (
          sym (
            runs-expand_append (rs ++ ((n, c) ∷ [])) (expand ((suc m, d) ∷ ss) ++ tail) k
              (LastOther-snoc rs n c (expand ((suc m, d) ∷ ss) ++ tail) (==→ne c d e))))
]

-- The printed outputs of non-empty pages, behind an output of canonical runs.
print_from-records :
    (pages : List (List ℕ)) (r : Run) (rs : List Run)
    → IsCanonical (r ∷ rs)
    → All IsPage pages
    → print_from (output_of (r ∷ rs)) (map compress_bytes pages)
      ≡ records (runs (expand (r ∷ rs) ++ concat pages))
print_from-records [] r rs k a =
    rw (append-nil (expand (r ∷ rs)), runs-expand (r ∷ rs) k)
      (unfold print_from in emit_all (r ∷ rs))
print_from-records ([] ∷ pages) r rs k a = absurd a.0
print_from-records ((y ∷ ys) ∷ pages) r rs k a =
    ap (λ o. print_from (output_of (r ∷ rs)) (o ∷ map compress_bytes pages))
      (compress_bytes-runs (y ∷ ys) ∙ ap output_of eq)
    ∙ subst
        (λ t.
          print_from (output_of t) (output_of ((suc m, y) ∷ ss) ∷ map compress_bytes pages)
          ≡ records (runs (expand t ++ (expand ((suc m, y) ∷ ss) ++ concat pages))))
        (sym e)
        (print_step init ss n m c y (map compress_bytes pages) (concat pages)
          (subst IsCanonical e k)
          (print_from-records pages (suc m + n, y) ss (merged-IsCanonical (suc m) n y ss own) a.1)
          (print_from-records pages (suc m, y) ss own a.1))
    ∙ ap (λ t. records (runs (expand (r ∷ rs) ++ (t ++ concat pages))))
        (ap expand (sym eq) ∙ expand-runs (y ∷ ys))
  where
    init : List Run
    init = (snoc_view r rs).0

    n : ℕ
    n = (snoc_view r rs).1

    c : ℕ
    c = (snoc_view r rs).2

    e : r ∷ rs ≡ init ++ ((n, c) ∷ [])
    e = (snoc_view r rs).3

    m : ℕ
    m = (page_runs y ys).0

    ss : List Run
    ss = (page_runs y ys).1

    eq : runs (y ∷ ys) ≡ (suc m, y) ∷ ss
    eq = (page_runs y ys).2

    own : IsCanonical ((suc m, y) ∷ ss)
    own = rw eq at (runs-IsCanonical (y ∷ ys))

-- The outputs of non-empty pages, printed in order, are the records of the canonical encoding of
-- the pages' bytes in a row: no run is cut where two pages meet.
pub print_output-records :
    (pages : List (List ℕ))
    → All IsPage pages
    → print_output (map compress_bytes pages) ≡ records (runs (concat pages))
unfolding print_output
print_output-records [] a = refl
print_output-records ([] ∷ pages) a = absurd a.0
print_output-records ((y ∷ ys) ∷ pages) a =
    ap (λ o. print_from o (map compress_bytes pages))
      (compress_bytes-runs (y ∷ ys) ∙ ap output_of eq)
    ∙ print_from-records pages (suc m, y) ss (rw eq at (runs-IsCanonical (y ∷ ys))) a.1
    ∙ ap (λ t. records (runs (t ++ concat pages))) (ap expand (sym eq) ∙ expand-runs (y ∷ ys))
  where
    m : ℕ
    m = (page_runs y ys).0

    ss : List Run
    ss = (page_runs y ys).1

    eq : runs (y ∷ ys) ≡ (suc m, y) ∷ ss
    eq = (page_runs y ys).2
