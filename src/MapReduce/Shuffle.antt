-- ===== src/MapReduce/Shuffle.antt =====
-- `MR_Sortadd` keeps a partition in the order of `strcmp`, and `MR_Run` distributes every pair.
use ostep_projects_finish.Common.{
  ◌≡◌, refl, sym, ap, ap₂, ◌∙◌, subst, true, false, List, [], ◌∷◌, arith, append-nil, length, All,
  if◌then◌else◌, Bool-cases, inl, inr,
}
use mathlib.Core.List.{Perm}
use mathlib.Core.List.Perm
use ostep_projects_finish.Common.Sift.{
  rev_onto, rev_onto-snoc, length-rev, rev_onto-perm, read_below, read_above, swap_down-rev_onto,
}
use ostep_projects_finish.MapReduce.{Bytes, MapData, strcmp_lt, blank, sort_down, mr_sortadd}

pub strcmp_lt_asymm : (s t : Bytes) → strcmp_lt s t ≡ true → strcmp_lt t s ≡ false
unfolding strcmp_lt
strcmp_lt_asymm [] [] h = cc
strcmp_lt_asymm [] (y ∷ t) h = refl
strcmp_lt_asymm (x ∷ s) [] h = cc
strcmp_lt_asymm (x ∷ s) (y ∷ t) h = ground (arith, strcmp_lt_asymm s t)

-- "not greater" is transitive.
pub strcmp_le_trans :
    (s t u : Bytes) → strcmp_lt t s ≡ false → strcmp_lt u t ≡ false → strcmp_lt u s ≡ false
unfolding strcmp_lt
strcmp_le_trans [] [] [] h k = refl
strcmp_le_trans [] [] (z ∷ u) h k = refl
strcmp_le_trans [] (y ∷ t) [] h k = refl
strcmp_le_trans [] (y ∷ t) (z ∷ u) h k = refl
strcmp_le_trans (x ∷ s) [] u h k = cc
strcmp_le_trans (x ∷ s) (y ∷ t) [] h k = cc
strcmp_le_trans (x ∷ s) (y ∷ t) (z ∷ u) h k = ground (arith, strcmp_le_trans s t u)

-- One place further down, in a list that is read from its end.
unfoldable pub insert_rev : MapData → List MapData → List MapData
insert_rev x [] = x ∷ []
insert_rev x (r ∷ rs) = if strcmp_lt x.key r.key then r ∷ insert_rev x rs else x ∷ r ∷ rs

sort_down-rev_onto :
    (rs : List MapData) (x : MapData) (ys : List MapData)
    → sort_down (length rs) (rev_onto rs (x ∷ ys)) ≡ rev_onto (insert_rev x rs) ys
unfolding sort_down insert_rev
sort_down-rev_onto [] x ys = refl
sort_down-rev_onto (r ∷ rs) x ys =
    rw (read_below rs blank r x ys, read_above rs blank r x ys)
      (elim (Bool-cases (strcmp_lt x.key r.key)) [
        | inl e ↦ rw e (
            ap (sort_down (length rs)) (swap_down-rev_onto rs blank r x ys)
            ∙ sort_down-rev_onto rs x (r ∷ ys))
        | inr e ↦ rw e
      ])

-- No pair has a key below that of a pair in front of it.
abbrev pub IsSorted : List MapData → Type 0
IsSorted [] = Unit
IsSorted (d ∷ ds) = All (λ e. strcmp_lt e.key d.key ≡ false) ds × IsSorted ds

abbrev IsAbove : MapData → List MapData → Type 0
IsAbove r ds = All (λ e. strcmp_lt r.key e.key ≡ false) ds

-- The same of a list that is read from its end.
abbrev IsSortedRev : List MapData → Type 0
IsSortedRev [] = Unit
IsSortedRev (r ∷ rs) = IsAbove r rs × IsSortedRev rs

IsAbove-trans :
    (x r : MapData) (rs : List MapData)
    → strcmp_lt x.key r.key ≡ false
    → IsAbove r rs
    → IsAbove x rs
IsAbove-trans x r [] h a = tt
IsAbove-trans x r (e ∷ rs) h a =
    (strcmp_le_trans e.key r.key x.key a.0 h, IsAbove-trans x r rs h a.1)

IsAbove-insert_rev :
    (r x : MapData) (rs : List MapData)
    → strcmp_lt r.key x.key ≡ false
    → IsAbove r rs
    → IsAbove r (insert_rev x rs)
unfolding insert_rev
IsAbove-insert_rev r x [] h a = (h, tt)
IsAbove-insert_rev r x (e ∷ rs) h a = elim (Bool-cases (strcmp_lt x.key e.key)) [
  | inl q ↦ rw q (a.0, IsAbove-insert_rev r x rs h a.1)
  | inr q ↦ rw q (h, a)
]

insert_rev-IsSortedRev :
    (x : MapData) (rs : List MapData) → IsSortedRev rs → IsSortedRev (insert_rev x rs)
unfolding insert_rev
insert_rev-IsSortedRev x [] s = (tt, tt)
insert_rev-IsSortedRev x (r ∷ rs) s = elim (Bool-cases (strcmp_lt x.key r.key)) [
  | inl q ↦ rw q (
    IsAbove-insert_rev r x rs (strcmp_lt_asymm x.key r.key q) s.0,
    insert_rev-IsSortedRev x rs s.1,
  )
  | inr q ↦ rw q ((q, IsAbove-trans x r rs q s.0), s)
]

abbrev IsBelowAll : MapData → List MapData → Type 0
IsBelowAll d ds = All (λ e. strcmp_lt e.key d.key ≡ false) ds

-- Every one of `rs` is below every one of `ys`.
abbrev AllBelow : List MapData → List MapData → Type 0
AllBelow rs ys = All (λ r. IsBelowAll r ys) rs

AllBelow-cons :
    (r : MapData) (rs ys : List MapData) → IsAbove r rs → AllBelow rs ys → AllBelow rs (r ∷ ys)
AllBelow-cons r [] ys a b = tt
AllBelow-cons r (e ∷ rs) ys a b = ((a.0, b.0), AllBelow-cons r rs ys a.1 b.1)

rev_onto-IsSorted :
    (rs ys : List MapData)
    → IsSortedRev rs
    → IsSorted ys
    → AllBelow rs ys
    → IsSorted (rev_onto rs ys)
rev_onto-IsSorted [] ys a b c = b
rev_onto-IsSorted (r ∷ rs) ys a b c =
    rev_onto-IsSorted rs (r ∷ ys) a.1 (c.0, b) (AllBelow-cons r rs ys a.0 c.1)

AllBelow-nil : (rs : List MapData) → AllBelow rs []
AllBelow-nil [] = tt
AllBelow-nil (r ∷ rs) = (tt, AllBelow-nil rs)

IsAbove-All :
    (d : MapData) (ds rs : List MapData)
    → IsBelowAll d ds
    → All (λ e. IsAbove e rs) ds
    → All (λ e. IsAbove e (d ∷ rs)) ds
IsAbove-All d [] rs a b = tt
IsAbove-All d (e ∷ ds) rs a b = ((a.0, b.0), IsAbove-All d ds rs a.1 b.1)

rev_onto-IsSortedRev :
    (ds rs : List MapData)
    → IsSorted ds
    → IsSortedRev rs
    → All (λ e. IsAbove e rs) ds
    → IsSortedRev (rev_onto ds rs)
rev_onto-IsSortedRev [] rs a b c = b
rev_onto-IsSortedRev (d ∷ ds) rs a b c =
    rev_onto-IsSortedRev ds (d ∷ rs) a.1 (c.0, b) (IsAbove-All d ds rs a.0 c.1)

IsAbove-nil : (ds : List MapData) → All (λ e. IsAbove e []) ds
IsAbove-nil [] = tt
IsAbove-nil (d ∷ ds) = (tt, IsAbove-nil ds)

pub mr_sortadd-rev :
    (l : List MapData) (x : MapData) → mr_sortadd l x ≡ rev_onto (insert_rev x (rev_onto l [])) []
unfolding mr_sortadd
mr_sortadd-rev l x =
    ap₂ sort_down (length-rev l) (rev_onto-snoc l x) ∙ sort_down-rev_onto (rev_onto l []) x []

-- `MR_Sortadd` puts a pair into a partition in ascending order so that the order is kept.
pub mr_sortadd-IsSorted : (l : List MapData) (x : MapData) → IsSorted l → IsSorted (mr_sortadd l x)
mr_sortadd-IsSorted l x s = subst IsSorted (sym (mr_sortadd-rev l x)) (
    rev_onto-IsSorted (insert_rev x (rev_onto l [])) []
      (insert_rev-IsSortedRev x (rev_onto l []) (rev_onto-IsSortedRev l [] s tt (IsAbove-nil l))) tt
      (AllBelow-nil (insert_rev x (rev_onto l []))))

insert_rev-perm : (x : MapData) (rs : List MapData) → Perm (insert_rev x rs) (x ∷ rs)
unfolding insert_rev
insert_rev-perm x [] = Perm.refl (x ∷ [])
insert_rev-perm x (r ∷ rs) = elim (Bool-cases (strcmp_lt x.key r.key)) [
  | inl q ↦ rw q (Perm.trans (Perm.cons r (insert_rev-perm x rs)) (Perm.swap x r rs))
  | inr q ↦ rw q (Perm.refl (x ∷ r ∷ rs))
]

-- `MR_Sortadd` leaves the pairs of the partition and the new one, each as often as before.
pub mr_sortadd-perm : (l : List MapData) (x : MapData) → Perm (mr_sortadd l x) (x ∷ l)
mr_sortadd-perm l x =
    subst (λ t. Perm t (x ∷ l)) (sym (mr_sortadd-rev l x))
      (Perm.trans (rw append-nil at (rev_onto-perm (insert_rev x (rev_onto l [])) [])) (
        Perm.trans (insert_rev-perm x (rev_onto l []))
          (Perm.cons x (rw append-nil at (rev_onto-perm l [])))))
