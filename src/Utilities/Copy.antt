-- ===== src/Utilities/Copy.antt =====
-- initial-utilities/wcat/wcat.c prints the files as they are.
use ostep_projects_finish.Common.{
  ℕ, zero, suc, ◌≤◌, ◌<◌, ◌≡◌, refl, ap, ◌∙◌, false, some, List, [], ◌∷◌, ◌++◌, map, length,
  length-append, arith, ◌==◌, Bool-cases, inl, inr,
}
use ostep_projects_finish.Common.Text.{Bytes}
use ostep_projects_finish.Utilities.{fgets, read_all, concat, each_file, wcat, wcat_main}

pub fgets-append : (n : ℕ) (s : Bytes) → (fgets n s).0 ++ (fgets n s).1 ≡ s
unfolding fgets
fgets-append zero s = refl
fgets-append (suc n) [] = refl
fgets-append (suc n) (c ∷ s) = elim (Bool-cases (c == 10)) [
  | inl e ↦ rw e refl
  | inr e ↦ rw e (ap (λ t. c ∷ t) (fgets-append n s))
]

-- A call in front of the end reads something.
pub fgets_shorter : (n c : ℕ) (s : Bytes) → length ((fgets (suc n) (c ∷ s)).1) ≤ length s
unfolding fgets
fgets_shorter n c s = elim (Bool-cases (c == 10)) [
  | inl e ↦ rw e (omega arith)
  | inr e ↦ rw e (
      let l = length-append ((fgets n s).0) ((fgets n s).1) in
      let k = ap length (fgets-append n s) in omega (arith, l, k))
]

-- Enough fuel gives all lines or chunks of the file.
pub read_all-concat :
    (fuel n : ℕ) (s : Bytes)
    → length s < fuel
    → (ls : List Bytes) × (read_all fuel (suc n) s ≡ some ls) × (concat ls ≡ s)
unfolding read_all
read_all-concat zero n s h = absurd (omega arith)
read_all-concat (suc fuel) n [] h = ([], refl, refl)
read_all-concat (suc fuel) n (c ∷ s) h =
    let short = fgets_shorter n c s in
    let (ls, e, k) = read_all-concat fuel n ((fgets (suc n) (c ∷ s)).1) (omega (arith, short)) in
    (
      (fgets (suc n) (c ∷ s)).0 ∷ ls,
      rw e refl,
      ap (λ t. (fgets (suc n) (c ∷ s)).0 ++ t) k ∙ fgets-append (suc n) (c ∷ s),
    )

wcat_file : (f : Bytes) → wcat (some f) ≡ some (record { printed = f; failed = false })
unfolding wcat
wcat_file f =
    let (ls, e, k) = read_all-concat (suc (length f)) 4094 f (omega arith) in
    rw (e, wcat) (ap (λ t. some (record { printed = t; failed = false })) k)

each_cons :
    (f : Bytes) (fs : List Bytes)
    → each_file wcat (map some fs) ≡ some (record { printed = concat fs; failed = false })
    → each_file wcat (map some (f ∷ fs))
      ≡ some (record { printed = concat (f ∷ fs); failed = false })
unfolding each_file
each_cons f fs e = rw (wcat_file f, e, each_file) refl

-- On files that can all be opened, `wcat` ends, does not fail, and prints the files one after another,
-- whatever the length of their lines.
pub wcat_main-files :
    (fs : List Bytes)
    → wcat_main (map some fs) ≡ some (record { printed = concat fs; failed = false })
unfolding wcat_main each_file
wcat_main-files [] = refl
wcat_main-files (f ∷ fs) = each_cons f fs (wcat_main-files fs)
