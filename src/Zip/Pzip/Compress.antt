-- ===== src/Zip/Pzip/Compress.antt =====
-- `RLECompress` and the printing of one output, in terms of the runs of a page.
use ostep_projects_finish.Common.{
  ℕ, suc, ◌+◌, ◌≡◌, refl, sym, ap, ◌∙◌, true, false, List, [], ◌∷◌, ◌++◌, append-nil, map, arith,
  length, replicate, replicate-snoc, ◌==◌, Bool-cases, ==→eq, ==→ne, inl, inr,
}
use ostep_projects_finish.Zip.Runs.{Run, runs, runs-replicate}
use ostep_projects_finish.Zip.Wzip.{diwrite}
use ostep_projects_finish.Zip.Wzip.RoundTrip.{records}
use ostep_projects_finish.Zip.Pzip.{Output, add_run, compress_run, compress_bytes, emit}

abbrev pub bytes_of : List Run → List ℕ
bytes_of = map (λ r. r.1)

abbrev pub counts_of : List Run → List ℕ
counts_of = map (λ r. r.0)

-- The output that holds the runs `rs`.
abbrev pub output_of : List Run → Output
output_of rs = record { chars = bytes_of rs; count = counts_of rs; size = length rs }

add_run-output_of : (c n : ℕ) (rs : List Run) → add_run c n (output_of rs) ≡ output_of ((n, c) ∷ rs)
unfolding add_run
add_run-output_of c n rs =
    ap (λ k. record { chars = c ∷ bytes_of rs; count = n ∷ counts_of rs; size = k })
      (let e : length rs + 1 ≡ suc (length rs) = omega arith in e)

compress_run_same :
    (c n y : ℕ) (ys : List ℕ)
    → (c == y) ≡ true
    → compress_run c (suc n) (y ∷ ys) ≡ compress_run c (suc (suc n)) ys
unfolding compress_run
compress_run_same c n y ys e =
    rw (e, compress_run)
      (ap (λ k. compress_run c k ys) (let q : suc n + 1 ≡ suc (suc n) = omega arith in q))

compress_run_other :
    (c n y : ℕ) (ys : List ℕ)
    → (c == y) ≡ false
    → compress_run c (suc n) (y ∷ ys) ≡ add_run c (suc n) (compress_run y 1 ys)
unfolding compress_run
compress_run_other c n y ys e = rw (e, compress_run)

compress_run-runs :
    (ys : List ℕ) (c n : ℕ)
    → compress_run c (suc n) ys ≡ output_of (runs (replicate (suc n) c ++ ys))
compress_run-runs [] c n = rw (runs-replicate n c [] tt) (unfold compress_run in refl)
compress_run-runs (y ∷ ys) c n = elim (Bool-cases (c == y)) [
  | inl e ↦
      compress_run_same c n y ys e
      ∙ compress_run-runs ys c (suc n)
      ∙ ap (λ t. output_of (runs (c ∷ t)))
          (sym (replicate-snoc n c ys) ∙ ap (λ z. replicate n c ++ (z ∷ ys)) (==→eq c y e))
  | inr e ↦
      compress_run_other c n y ys e
      ∙ ap (λ o. add_run c (suc n) o) (compress_run-runs ys y 0)
      ∙ add_run-output_of c (suc n) (runs (y ∷ ys))
      ∙ ap output_of (sym (runs-replicate n c (y ∷ ys) (==→ne c y e)))
]

-- `RLECompress` yields the canonical encoding of the bytes of its page.
pub compress_bytes-runs : (page : List ℕ) → compress_bytes page ≡ output_of (runs page)
unfolding compress_bytes
compress_bytes-runs [] = refl
compress_bytes-runs (c ∷ ys) = compress_run-runs ys c 0

pub emit-records :
    (rs ss : List Run) → emit (length rs) (bytes_of (rs ++ ss)) (counts_of (rs ++ ss)) ≡ records rs
unfolding emit
emit-records [] ss = refl
emit-records ((n, c) ∷ rs) ss = ap (λ t. diwrite n c ++ t) (emit-records rs ss)

pub emit_all : (rs : List Run) → emit (length rs) (bytes_of rs) (counts_of rs) ≡ records rs
emit_all rs = rw (append-nil rs) at (emit-records rs [])
