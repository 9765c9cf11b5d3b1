-- ===== src/Common/Sift.antt =====
-- A list laid out as a reversed front and a back, and what reads and swaps at the seam do.
use Prim.Native.Nat.{ℕ, suc, ◌+◌}
use mathlib.Core.Path.{◌≡◌, refl, sym, ap, ◌∙◌}
use mathlib.Core.List.{List, [], ◌∷◌, ◌++◌, Perm, perm_middle}
use mathlib.Core.List.Perm
use native.Mathlib.Omega.{arith}
use ostep_projects_finish.Common.Lists.{length, get_or, set}

module _ {ℓ} {A : Type ℓ} where
  abbrev pub rev_onto : List A → List A → List A
  rev_onto [] ys = ys
  rev_onto (r ∷ rs) ys = rev_onto rs (r ∷ ys)

  pub get_or-rev_onto :
      (rs ys : List A) (k : ℕ) (d : A) → get_or (rev_onto rs ys) (length rs + k) d ≡ get_or ys k d
  get_or-rev_onto [] ys k d = ap (λ n. get_or ys n d) (omega arith)
  get_or-rev_onto (r ∷ rs) ys k d =
      ap (λ n. get_or (rev_onto rs (r ∷ ys)) n d) (omega arith)
      ∙ get_or-rev_onto rs (r ∷ ys) (suc k) d

  pub set-rev_onto :
      (rs ys : List A) (k : ℕ) (v : A)
      → set (rev_onto rs ys) (length rs + k) v ≡ rev_onto rs (set ys k v)
  set-rev_onto [] ys k v = ap (λ n. set ys n v) (omega arith)
  set-rev_onto (r ∷ rs) ys k v =
      ap (λ n. set (rev_onto rs (r ∷ ys)) n v) (omega arith) ∙ set-rev_onto rs (r ∷ ys) (suc k) v

  pub rev_onto-append : (rs ys zs : List A) → rev_onto rs (ys ++ zs) ≡ rev_onto rs ys ++ zs
  rev_onto-append [] ys zs = refl
  rev_onto-append (r ∷ rs) ys zs = rev_onto-append rs (r ∷ ys) zs

  pub rev_onto-rev_onto : (l rs ys : List A) → rev_onto (rev_onto l rs) ys ≡ rev_onto rs (l ++ ys)
  rev_onto-rev_onto [] rs ys = refl
  rev_onto-rev_onto (x ∷ l) rs ys = rev_onto-rev_onto l (x ∷ rs) ys

  pub length-rev_onto : (rs ys : List A) → length (rev_onto rs ys) ≡ length rs + length ys
  length-rev_onto [] ys = omega arith
  length-rev_onto (r ∷ rs) ys = omega (arith, length-rev_onto rs (r ∷ ys))

  -- A list with one more at its end, seen from that end.
  pub rev_onto-snoc : (l : List A) (x : A) → l ++ (x ∷ []) ≡ rev_onto (rev_onto l []) (x ∷ [])
  rev_onto-snoc l x = sym (rev_onto-rev_onto l [] (x ∷ []))

  pub length-rev : (l : List A) → length l ≡ length (rev_onto l [])
  length-rev l = omega (arith, length-rev_onto l [])

  pub rev_onto-perm : (rs ys : List A) → Perm (rev_onto rs ys) (rs ++ ys)
  rev_onto-perm [] ys = Perm.refl ys
  rev_onto-perm (r ∷ rs) ys = Perm.trans (rev_onto-perm rs (r ∷ ys)) (perm_middle rs ys)

  -- `temp = a[i + 1]; a[i + 1] = a[i]; a[i] = temp`
  unfoldable pub swap_down : A → ℕ → List A → List A
  swap_down d i a = set (set a (suc i) (get_or a i d)) i (get_or a (suc i) d)

  module _ (rs : List A) where
    get_or_seam : (ys : List A) (d : A) → get_or (rev_onto rs ys) (length rs) d ≡ get_or ys 0 d
    get_or_seam ys d =
        ap (λ n. get_or (rev_onto rs ys) n d) (let e : length rs ≡ length rs + 0 = omega arith in e)
        ∙ get_or-rev_onto rs ys 0 d

    get_or_seam_suc :
        (ys : List A) (d : A) → get_or (rev_onto rs ys) (suc (length rs)) d ≡ get_or ys 1 d
    get_or_seam_suc ys d =
        ap (λ n. get_or (rev_onto rs ys) n d)
          (let e : suc (length rs) ≡ length rs + 1 = omega arith in e)
        ∙ get_or-rev_onto rs ys 1 d

    set_seam : (ys : List A) (v : A) → set (rev_onto rs ys) (length rs) v ≡ rev_onto rs (set ys 0 v)
    set_seam ys v =
        ap (λ n. set (rev_onto rs ys) n v) (let e : length rs ≡ length rs + 0 = omega arith in e)
        ∙ set-rev_onto rs ys 0 v

    set_seam_suc :
        (ys : List A) (v : A) → set (rev_onto rs ys) (suc (length rs)) v ≡ rev_onto rs (set ys 1 v)
    set_seam_suc ys v =
        ap (λ n. set (rev_onto rs ys) n v)
          (let e : suc (length rs) ≡ length rs + 1 = omega arith in e)
        ∙ set-rev_onto rs ys 1 v

    pub read_below : (d r x : A) (ys : List A) → get_or (rev_onto rs (r ∷ x ∷ ys)) (length rs) d ≡ r
    read_below d r x ys = get_or_seam (r ∷ x ∷ ys) d

    pub read_above :
        (d r x : A) (ys : List A) → get_or (rev_onto rs (r ∷ x ∷ ys)) (suc (length rs)) d ≡ x
    read_above d r x ys = get_or_seam_suc (r ∷ x ∷ ys) d

    pub swap_down-rev_onto :
        (d r x : A) (ys : List A)
        → swap_down d (length rs) (rev_onto rs (r ∷ x ∷ ys)) ≡ rev_onto rs (x ∷ r ∷ ys)
    unfolding swap_down
    swap_down-rev_onto d r x ys =
        rw (read_below d r x ys, read_above d r x ys, set_seam_suc (r ∷ x ∷ ys) r)
          (set_seam (r ∷ r ∷ ys) x)
