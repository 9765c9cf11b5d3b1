-- ===== src/MapReduce/Run.antt =====
-- The whole of `MR_Run` with wordcount: every key is counted once, in its own partition.
use ostep_projects_finish.Common.{
  ℕ, suc, ◌+◌, ◌<◌, ◌≡◌, ◌≢◌, refl, sym, ap, ◌∙◌, subst, true, false, some, List, [], ◌∷◌, arith,
  length, length-set, get_or, set, replicate, get_or-set_self, get_or-set_ne, get_or-replicate,
  length-replicate, ◌==◌, if◌then◌else◌, Bool-cases, inl, inr, ==→eq, ==→ne, str_eq, str_eq→eq,
}
use ostep_projects_finish.Common.Sift.{rev_onto}
use ostep_projects_finish.MapReduce.{
  Bytes, MapData, strcmp_lt, mr_sortadd, place, distribute, mr_shuffle, Line, mr_reduce,
}
use ostep_projects_finish.MapReduce.Shuffle.{
  insert_rev, mr_sortadd-rev, IsSorted, mr_sortadd-IsSorted,
}
use ostep_projects_finish.MapReduce.Reduce.{push_key, groups, mr_reduce_total}

-- How many pairs have the key `k`.
abbrev pub occurrences : Bytes → List MapData → ℕ
occurrences k [] = 0
occurrences k (d ∷ ds) = (if str_eq d.key k then 1 else 0) + occurrences k ds

-- The counts that are printed for the key `k`, added up.
abbrev pub total : Bytes → List Line → ℕ
total k [] = 0
total k ((j, n) ∷ ls) = (if str_eq j k then n else 0) + total k ls

occurrences-insert_rev :
    (k : Bytes) (x : MapData) (rs : List MapData)
    → occurrences k (insert_rev x rs) ≡ occurrences k (x ∷ rs)
unfolding insert_rev
occurrences-insert_rev k x [] = refl
occurrences-insert_rev k x (r ∷ rs) = elim (Bool-cases (strcmp_lt x.key r.key)) [
  | inl q ↦ rw q (omega (arith, occurrences-insert_rev k x rs))
  | inr q ↦ rw q
]

occurrences-rev_onto :
    (k : Bytes) (rs ys : List MapData)
    → occurrences k (rev_onto rs ys) ≡ occurrences k rs + occurrences k ys
occurrences-rev_onto k [] ys = omega arith
occurrences-rev_onto k (r ∷ rs) ys = omega (arith, occurrences-rev_onto k rs (r ∷ ys))

occurrences-mr_sortadd :
    (k : Bytes) (l : List MapData) (x : MapData)
    → occurrences k (mr_sortadd l x) ≡ occurrences k (x ∷ l)
occurrences-mr_sortadd k l x = rw (mr_sortadd-rev l x) (
    omega (
      arith,
      occurrences-rev_onto k (insert_rev x (rev_onto l [])) [],
      occurrences-insert_rev k x (rev_onto l []),
      occurrences-rev_onto k l [],
    ))

total-push_key :
    (k j : Bytes) (ls : List Line)
    → total k (push_key j ls) ≡ (if str_eq j k then 1 else 0) + total k ls
total-push_key k j [] = refl
total-push_key k j ((i, n) ∷ ls) = elim (Bool-cases (str_eq j i)) [
  | inl e ↦ rw (e, str_eq→eq j i e) (ground arith)
  | inr e ↦ rw e
]

total-groups : (k : Bytes) (ds : List MapData) → total k (groups ds) ≡ occurrences k ds
total-groups k [] = refl
total-groups k (d ∷ ds) = omega (arith, total-push_key k d.key (groups ds), total-groups k ds)

module _ (partition : Bytes → ℕ → ℕ) (num : ℕ) where
  -- Whether the pairs with the key `k` go to partition `p`.
  abbrev pub goes_to : Bytes → ℕ → ℕ → ℕ
  goes_to k p n = if partition k num == p then n else 0

  part : List (List MapData) → ℕ → List MapData
  part part_data p = get_or part_data p []

  length-place :
      (d : MapData) (part_data : List (List MapData))
      → length (place partition num d part_data) ≡ length part_data
  unfolding place
  length-place d part_data = length-set part_data (partition d.key num) _

  numbered : MapData → MapData
  numbered d = record d { part_number = partition d.key num }

  place_here :
      (p : ℕ) (d : MapData) (part_data : List (List MapData))
      → p < length part_data
      → partition d.key num ≡ p
      → part (place partition num d part_data) p ≡ mr_sortadd (part part_data p) (numbered d)
  unfolding place part numbered
  place_here p d part_data h e =
      subst
        (λ q.
          get_or
            (set part_data q
              (mr_sortadd (get_or part_data q []) (record d { part_number = partition d.key num })))
            p []
          ≡ mr_sortadd (get_or part_data p []) (record d { part_number = partition d.key num }))
        (sym e) (get_or-set_self part_data p _ [] h)

  place_there :
      (p : ℕ) (d : MapData) (part_data : List (List MapData))
      → partition d.key num ≢ p
      → part (place partition num d part_data) p ≡ part part_data p
  unfolding place part
  place_there p d part_data e = get_or-set_ne part_data (partition d.key num) p _ [] e

  goes_here :
      (k : Bytes) (p : ℕ) (d : MapData)
      → (partition d.key num == p) ≡ true
      → goes_to k p (if str_eq d.key k then 1 else 0) ≡ (if str_eq d.key k then 1 else 0)
  goes_here k p d e = elim (Bool-cases (str_eq d.key k)) [
    | inl s ↦ rw s (
        ap (λ b. if b then 1 else 0)
          (ap (λ j. partition j num == p) (sym (str_eq→eq d.key k s)) ∙ e))
    | inr s ↦ rw s (ground arith)
  ]

  goes_there :
      (k : Bytes) (p : ℕ) (d : MapData)
      → (partition d.key num == p) ≡ false
      → goes_to k p (if str_eq d.key k then 1 else 0) ≡ 0
  goes_there k p d e = elim (Bool-cases (str_eq d.key k)) [
    | inl s ↦
        ap (λ b. if b then (if str_eq d.key k then 1 else 0) else 0)
          (ap (λ j. partition j num == p) (sym (str_eq→eq d.key k s)) ∙ e)
    | inr s ↦ rw s (ground arith)
  ]

  occurrences-place :
      (k : Bytes) (p : ℕ) (d : MapData) (part_data : List (List MapData))
      → p < length part_data
      → occurrences k (part (place partition num d part_data) p)
        ≡ goes_to k p (if str_eq d.key k then 1 else 0) + occurrences k (part part_data p)
  occurrences-place k p d part_data h = elim (Bool-cases (partition d.key num == p)) [
    | inl e ↦
        ap (occurrences k) (place_here p d part_data h (==→eq _ _ e))
        ∙ occurrences-mr_sortadd k (part part_data p) (numbered d)
        ∙ unfold numbered in
          ap (λ n. n + occurrences k (part part_data p)) (sym (goes_here k p d e))
    | inr e ↦
        ap (occurrences k) (place_there p d part_data (==→ne _ _ e))
        ∙ omega (arith, goes_there k p d e)
  ]

  goes_to-add : (k : Bytes) (p a b : ℕ) → goes_to k p (a + b) ≡ goes_to k p a + goes_to k p b
  goes_to-add k p a b = ground arith

  occurrences-distribute :
      (k : Bytes) (p : ℕ) (all_data : List MapData) (part_data : List (List MapData))
      → p < length part_data
      → occurrences k (part (distribute partition num all_data part_data) p)
        ≡ goes_to k p (occurrences k all_data) + occurrences k (part part_data p)
  unfolding distribute
  occurrences-distribute k p [] part_data h = ground arith
  occurrences-distribute k p (d ∷ all_data) part_data h =
      occurrences-distribute k p all_data (place partition num d part_data)
        (omega (arith, length-place d part_data))
      ∙ omega (
        arith,
        occurrences-place k p d part_data h,
        goes_to-add k p (if str_eq d.key k then 1 else 0) (occurrences k all_data),
      )

  IsSorted-place :
      (p : ℕ) (d : MapData) (part_data : List (List MapData))
      → p < length part_data
      → IsSorted (part part_data p)
      → IsSorted (part (place partition num d part_data) p)
  IsSorted-place p d part_data h s = elim (Bool-cases (partition d.key num == p)) [
    | inl e ↦
        subst IsSorted (sym (place_here p d part_data h (==→eq _ _ e)))
          (mr_sortadd-IsSorted (part part_data p) (numbered d) s)
    | inr e ↦ subst IsSorted (sym (place_there p d part_data (==→ne _ _ e))) s
  ]

  IsSorted-distribute :
      (p : ℕ) (all_data : List MapData) (part_data : List (List MapData))
      → p < length part_data
      → IsSorted (part part_data p)
      → IsSorted (part (distribute partition num all_data part_data) p)
  unfolding distribute
  IsSorted-distribute p [] part_data h s = s
  IsSorted-distribute p (d ∷ all_data) part_data h s =
      IsSorted-distribute p all_data (place partition num d part_data)
        (omega (arith, length-place d part_data)) (IsSorted-place p d part_data h s)

  part-replicate : (p : ℕ) → part (replicate num []) p ≡ []
  unfolding part
  part-replicate p = get_or-replicate num p []

  -- Partition `p`, once `MR_Run` has distributed the pairs.
  abbrev pub shuffled : List MapData → ℕ → List MapData
  shuffled all_data p = get_or (mr_shuffle partition num all_data) p []

  -- Whatever the partitioner and the order of the pairs, `MR_Run` hands every reducer its pairs in
  -- ascending order of their keys.
  pub mr_shuffle-IsSorted :
      (all_data : List MapData) (p : ℕ) → p < num → IsSorted (shuffled all_data p)
  unfolding mr_shuffle
  mr_shuffle-IsSorted all_data p h = unfold part in sorted
    where
      sorted : IsSorted (part (distribute partition num all_data (replicate num [])) p)
      sorted =
          IsSorted-distribute p all_data (replicate num [])
            (omega (arith, length-replicate {A = List MapData} num []))
            (subst IsSorted (sym (part-replicate p)) tt)

  -- For a partitioner that stays below the number of reducers, the reducer of partition `p` ends, and
  -- what it prints for a key adds up to the number of pairs
  -- with that key among all that were emitted, if the key belongs to `p`, and to 0 if it does not.
  pub mr_reduce-mr_shuffle :
      (all_data : List MapData) (p : ℕ)
      → ((k : Bytes) → partition k num < num)
      → p < num
      → (lines : List Line) × (mr_reduce
            (suc (length (shuffled all_data p)))
            (record { data_list = shuffled all_data p; part_count = 0 })
          ≡ some lines)
        × ((k : Bytes) → total k lines ≡ goes_to k p (occurrences k all_data))
  unfolding mr_shuffle
  mr_reduce-mr_shuffle all_data p in_range h = (
    groups (shuffled all_data p),
    mr_reduce_total (shuffled all_data p),
    λ k. total-groups k (shuffled all_data p) ∙ unfold part in counted k,
  )
    where
      counted :
          (k : Bytes)
          → occurrences k (part (distribute partition num all_data (replicate num [])) p)
            ≡ goes_to k p (occurrences k all_data)
      counted k =
          occurrences-distribute k p all_data (replicate num [])
            (omega (arith, length-replicate {A = List MapData} num []))
          ∙ omega (arith, ap (occurrences k) (part-replicate p))
