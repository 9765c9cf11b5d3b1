-- ===== src/Zip/Pzip2/Compress.antt =====
-- `compress` of concurrency-pzip/wzip/pzip2.c yields the runs of its buffer.
use ostep_projects_finish.Common.{
  ℕ, suc, ◌+◌, ◌≡◌, refl, sym, ap, ◌∙◌, true, false, List, [], ◌∷◌, ◌++◌, take, arith, replicate,
  replicate-snoc, ◌==◌, lt→ltb, Bool-cases, ==→eq, ==→ne, inl, inr,
}
use ostep_projects_finish.Zip.Runs.{runs, runs-replicate}
use ostep_projects_finish.Zip.Pzip2.{Buffer, compress_from, compress}

from_same_last :
    (c n x : ℕ) → (x == c) ≡ true → compress_from c (suc n) (x ∷ []) ≡ (suc (suc n), x) ∷ []
unfolding compress_from
from_same_last c n x e = ground arith

from_same :
    (c n x y : ℕ) (xs : List ℕ)
    → (x == c) ≡ true
    → compress_from c (suc n) (x ∷ y ∷ xs) ≡ compress_from c (suc (suc n)) (y ∷ xs)
unfolding compress_from
from_same c n x y xs e =
    rw e (ap (λ k. compress_from c k (y ∷ xs)) (let q : suc n + 1 ≡ suc (suc n) = omega arith in q))

from_other_last :
    (c n x : ℕ) → (x == c) ≡ false → compress_from c (suc n) (x ∷ []) ≡ (suc n, c) ∷ (1, x) ∷ []
unfolding compress_from
from_other_last c n x e = ground arith

from_other :
    (c n x y : ℕ) (xs : List ℕ)
    → (x == c) ≡ false
    → compress_from c (suc n) (x ∷ y ∷ xs) ≡ (suc n, c) ∷ compress_from x 1 (y ∷ xs)
unfolding compress_from
from_other c n x y xs e = rw (e, lt→ltb 0 (suc n) (omega arith)) refl

-- One more of the same byte.
more :
    (c n x : ℕ) (xs : List ℕ)
    → (x == c) ≡ true
    → replicate (suc n) c ++ (x ∷ xs) ≡ replicate (suc (suc n)) c ++ xs
more c n x xs e =
    ap (λ d. replicate (suc n) c ++ (d ∷ xs)) (==→eq x c e) ∙ replicate-snoc (suc n) c xs

from-runs :
    (xs : List ℕ) (c n x : ℕ)
    → compress_from c (suc n) (x ∷ xs) ≡ runs (replicate (suc n) c ++ (x ∷ xs))
from-runs [] c n x = elim (Bool-cases (x == c)) [
  | inl e ↦
      from_same_last c n x e
      ∙ ap (λ d. (suc (suc n), d) ∷ []) (==→eq x c e)
      ∙ sym (ap runs (more c n x [] e) ∙ runs-replicate (suc n) c [] tt)
  | inr e ↦ from_other_last c n x e ∙ sym (runs-replicate n c (x ∷ []) (λ q. ==→ne x c e (sym q)))
]
from-runs (y ∷ xs) c n x = elim (Bool-cases (x == c)) [
  | inl e ↦
      from_same c n x y xs e ∙ from-runs xs c (suc n) y ∙ sym (ap runs (more c n x (y ∷ xs) e))
  | inr e ↦
      from_other c n x y xs e
      ∙ ap (λ t. (suc n, c) ∷ t) (from-runs xs x 0 y)
      ∙ sym (runs-replicate n c (x ∷ y ∷ xs) (λ q. ==→ne x c e (sym q)))
]

from_start : (x : ℕ) (xs : List ℕ) → compress_from 0 0 (x ∷ xs) ≡ runs (x ∷ xs)
unfolding compress_from
from_start x [] = ground arith
from_start x (y ∷ xs) = elim (Bool-cases (x == 0)) [
  | inl e ↦
      rw (e, ==→eq x 0 e)
        (ap (λ k. compress_from 0 k (y ∷ xs)) (let q : 0 + 1 ≡ 1 = omega arith in q)
          ∙ from-runs xs 0 0 y)
  | inr e ↦ rw e (from-runs xs x 0 y)
]

from_all : (t : List ℕ) → compress_from 0 0 t ≡ runs t
from_all [] = unfold compress_from in refl
from_all (x ∷ xs) = from_start x xs

-- `compress` yields the canonical encoding of the bytes of its buffer.
pub compress-runs : (b : Buffer) → compress b ≡ runs (take b.size b.content)
unfolding compress
compress-runs b = from_all (take b.size b.content)
