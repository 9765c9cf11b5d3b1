-- ===== src/Zip/Runs.antt =====
-- What a run-length encoding is, independent of any of the programs: a run is its length and its
-- byte, and the canonical encoding of a byte sequence has no empty run and no two neighbours alike.
use ostep_projects_finish.Common.{
  ℕ, zero, suc, ◌≤◌, ◌<◌, ◌≡◌, refl, sym, ap, ◌∙◌, ◌≢◌, List, [], ◌∷◌, ◌++◌, append_assoc, arith,
  length, replicate, All, ◌==◌, ==_refl, ne→==, if◌then◌else◌, Bool-cases, ==→eq, ==→ne, inl, inr,
}

abbrev pub Run : Type 0
Run = ℕ × ℕ

abbrev pub expand : List Run → List ℕ
expand [] = []
expand ((n, c) ∷ rs) = replicate n c ++ expand rs

-- A byte in front of an encoding.
abbrev pub push_run : ℕ → List Run → List Run
push_run x [] = (1, x) ∷ []
push_run x ((n, c) ∷ rs) = if x == c then (suc n, c) ∷ rs else (1, x) ∷ (n, c) ∷ rs

abbrev pub runs : List ℕ → List Run
runs [] = []
runs (x ∷ xs) = push_run x (runs xs)

-- `c` is not the first byte.
abbrev pub StartsOther : ℕ → List ℕ → Type 0
StartsOther c [] = Unit
StartsOther c (y ∷ ys) = c ≢ y

abbrev pub FirstOther : ℕ → List Run → Type 0
FirstOther c [] = Unit
FirstOther c ((n, d) ∷ rs) = c ≢ d

abbrev pub IsCanonical : List Run → Type 0
IsCanonical [] = Unit
IsCanonical ((n, c) ∷ rs) = (0 < n) × FirstOther c rs × IsCanonical rs

pub expand-append : (rs ss : List Run) → expand (rs ++ ss) ≡ expand rs ++ expand ss
expand-append [] ss = refl
expand-append ((n, c) ∷ rs) ss =
    ap (λ t. replicate n c ++ t) (expand-append rs ss)
    ∙ sym (append_assoc (replicate n c) (expand rs) (expand ss))

expand-push_run : (x : ℕ) (rs : List Run) → expand (push_run x rs) ≡ x ∷ expand rs
expand-push_run x [] = refl
expand-push_run x ((n, c) ∷ rs) = elim (Bool-cases (x == c)) [
  | inl e ↦ rw (e, ==→eq x c e)
  | inr e ↦ rw e
]

pub expand-runs : (xs : List ℕ) → expand (runs xs) ≡ xs
expand-runs [] = refl
expand-runs (x ∷ xs) = expand-push_run x (runs xs) ∙ ap (λ t. x ∷ t) (expand-runs xs)

pub push_run_head :
    (x : ℕ) (rs : List Run) → (n : ℕ) × (ss : List Run) × (push_run x rs ≡ (suc n, x) ∷ ss)
push_run_head x [] = (0, [], refl)
push_run_head x ((n, c) ∷ rs) = elim (Bool-cases (x == c)) [
  | inl e ↦ (n, rs, rw (e, ==→eq x c e))
  | inr e ↦ (0, (n, c) ∷ rs, rw e)
]

push_run-IsCanonical : (x : ℕ) (rs : List Run) → IsCanonical rs → IsCanonical (push_run x rs)
push_run-IsCanonical x [] k = (omega arith, tt, tt)
push_run-IsCanonical x ((n, c) ∷ rs) k = elim (Bool-cases (x == c)) [
  | inl e ↦ rw e (omega arith, k.1, k.2)
  | inr e ↦ rw e (omega arith, ==→ne x c e, k)
]

pub runs-IsCanonical : (xs : List ℕ) → IsCanonical (runs xs)
runs-IsCanonical [] = tt
runs-IsCanonical (x ∷ xs) = push_run-IsCanonical x (runs xs) (runs-IsCanonical xs)

push_run_other : (x : ℕ) (ys : List ℕ) → StartsOther x ys → push_run x (runs ys) ≡ (1, x) ∷ runs ys
push_run_other x [] h = refl
push_run_other x (y ∷ ys) h = let (n, ss, e) = push_run_head y (runs ys) in rw (e, ne→== x y h)

-- A run in front of what begins with another byte is one run of the encoding.
pub runs-replicate :
    (n c : ℕ) (ys : List ℕ)
    → StartsOther c ys
    → runs (replicate (suc n) c ++ ys) ≡ (suc n, c) ∷ runs ys
runs-replicate zero c ys h = push_run_other c ys h
runs-replicate (suc n) c ys h = rw (runs-replicate n c ys h, ==_refl c)

StartsOther-expand :
    (c : ℕ) (rs : List Run) → IsCanonical rs → FirstOther c rs → StartsOther c (expand rs)
StartsOther-expand c [] k f = tt
StartsOther-expand c ((zero, d) ∷ rs) k f = absurd (omega (arith, k.0))
StartsOther-expand c ((suc n, d) ∷ rs) k f = f

-- A canonical encoding is the only one of the bytes it stands for.
pub runs-expand : (rs : List Run) → IsCanonical rs → runs (expand rs) ≡ rs
runs-expand [] k = refl
runs-expand ((zero, c) ∷ rs) k = absurd (omega (arith, k.0))
runs-expand ((suc n, c) ∷ rs) (p, f, k) =
    runs-replicate n c (expand rs) (StartsOther-expand c rs k f)
    ∙ ap (λ t. (suc n, c) ∷ t) (runs-expand rs k)

abbrev pub IsShort : ℕ → Run → Type 0
IsShort m r = r.0 ≤ m

IsShort-mono : (m k : ℕ) (rs : List Run) → m ≤ k → All (IsShort m) rs → All (IsShort k) rs
IsShort-mono m k [] h a = tt
IsShort-mono m k (r ∷ rs) h a = (omega (arith, a.0), IsShort-mono m k rs h a.1)

push_run-IsShort :
    (x m : ℕ) (rs : List Run) → All (IsShort m) rs → All (IsShort (suc m)) (push_run x rs)
push_run-IsShort x m [] a = (omega arith, tt)
push_run-IsShort x m ((n, c) ∷ rs) a = elim (Bool-cases (x == c)) [
  | inl e ↦ rw e (omega (arith, a.0), IsShort-mono m (suc m) rs (omega arith) a.1)
  | inr e ↦ rw e (omega arith, IsShort-mono m (suc m) ((n, c) ∷ rs) (omega arith) a)
]

-- No run is longer than the input.
pub runs-IsShort : (xs : List ℕ) → All (IsShort (length xs)) (runs xs)
runs-IsShort [] = tt
runs-IsShort (x ∷ xs) = push_run-IsShort x (length xs) (runs xs) (runs-IsShort xs)
