-- ===== src/MapReduce/Once.antt =====
-- A reducer of concurrency-mapreduce/mapreduce.c prints no key twice.
use ostep_projects_finish.Common.{
  ℕ, suc, ◌<◌, ◌≡◌, refl, true, false, some, List, [], ◌∷◌, arith, length, All, Bool-cases, inl,
  inr, str_eq,
}
use ostep_projects_finish.MapReduce.{Bytes, MapData, strcmp_lt, Line, mr_reduce}
use ostep_projects_finish.MapReduce.Shuffle.{IsSorted}
use ostep_projects_finish.MapReduce.Reduce.{push_key, groups, mr_reduce_total}
use ostep_projects_finish.MapReduce.Run.{shuffled, mr_shuffle-IsSorted}

-- Every line's key is below the keys behind it.
abbrev pub IsAscending : List Line → Type 0
IsAscending [] = Unit
IsAscending ((k, n) ∷ ls) = All (λ l. strcmp_lt k l.0 ≡ true) ls × IsAscending ls

strcmp_lt_trans :
    (s t u : Bytes) → strcmp_lt s t ≡ true → strcmp_lt t u ≡ true → strcmp_lt s u ≡ true
unfolding strcmp_lt
strcmp_lt_trans [] [] u h k = cc
strcmp_lt_trans [] (y ∷ t) [] h k = cc
strcmp_lt_trans [] (y ∷ t) (z ∷ u) h k = refl
strcmp_lt_trans (x ∷ s) [] u h k = cc
strcmp_lt_trans (x ∷ s) (y ∷ t) [] h k = cc
strcmp_lt_trans (x ∷ s) (y ∷ t) (z ∷ u) h k = ground (arith, strcmp_lt_trans s t u)

strcmp_lt_or_eq : (s t : Bytes) → strcmp_lt t s ≡ false → str_eq s t ≡ false → strcmp_lt s t ≡ true
unfolding strcmp_lt str_eq
strcmp_lt_or_eq [] [] h k = cc
strcmp_lt_or_eq [] (y ∷ t) h k = refl
strcmp_lt_or_eq (x ∷ s) [] h k = cc
strcmp_lt_or_eq (x ∷ s) (y ∷ t) h k = ground (arith, strcmp_lt_or_eq s t)

NotBelow : Bytes → List Line → Type 0
NotBelow k ls = All (λ l. strcmp_lt l.0 k ≡ false) ls

All-above :
    (k j : Bytes) (ls : List Line)
    → strcmp_lt k j ≡ true
    → All (λ l. strcmp_lt j l.0 ≡ true) ls
    → All (λ l. strcmp_lt k l.0 ≡ true) ls
All-above k j [] h a = tt
All-above k j (l ∷ ls) h a = (strcmp_lt_trans k j l.0 h a.0, All-above k j ls h a.1)

push_key-IsAscending :
    (k : Bytes) (ls : List Line) → NotBelow k ls → IsAscending ls → IsAscending (push_key k ls)
unfolding NotBelow
push_key-IsAscending k [] b a = (tt, tt)
push_key-IsAscending k ((j, n) ∷ ls) b a = elim (Bool-cases (str_eq k j)) [
  | inl e ↦ rw e a
  | inr e ↦ let below = strcmp_lt_or_eq k j b.0 e in rw e ((below, All-above k j ls below a.0), a)
]

push_key-NotBelow :
    (k j : Bytes) (ls : List Line)
    → strcmp_lt j k ≡ false
    → NotBelow k ls
    → NotBelow k (push_key j ls)
unfolding NotBelow
push_key-NotBelow k j [] h b = (h, tt)
push_key-NotBelow k j ((i, n) ∷ ls) h b = elim (Bool-cases (str_eq j i)) [
  | inl e ↦ rw e b
  | inr e ↦ rw e (h, b)
]

groups-NotBelow :
    (k : Bytes) (ds : List MapData)
    → All (λ e. strcmp_lt e.key k ≡ false) ds
    → NotBelow k (groups ds)
groups-NotBelow k [] a = unfold NotBelow in tt
groups-NotBelow k (d ∷ ds) a = push_key-NotBelow k d.key (groups ds) a.0 (groups-NotBelow k ds a.1)

groups-IsAscending : (ds : List MapData) → IsSorted ds → IsAscending (groups ds)
groups-IsAscending [] s = tt
groups-IsAscending (d ∷ ds) s =
    push_key-IsAscending d.key (groups ds) (groups-NotBelow d.key ds s.0)
      (groups-IsAscending ds s.1)

-- For a partitioner that stays below the number of reducers and pairs in any order, the reducer of a
-- partition ends and prints its lines in ascending order of their keys, no key twice.
pub mr_reduce-IsAscending :
    (partition : Bytes → ℕ → ℕ) (num : ℕ) (all_data : List MapData) (p : ℕ)
    → ((k : Bytes) → partition k num < num)
    → p < num
    → (lines : List Line) × (mr_reduce
          (suc (length (shuffled partition num all_data p)))
          (record { data_list = shuffled partition num all_data p; part_count = 0 })
        ≡ some lines)
      × IsAscending lines
mr_reduce-IsAscending partition num all_data p in_range h = (
  groups (shuffled partition num all_data p),
  mr_reduce_total (shuffled partition num all_data p),
  groups-IsAscending (shuffled partition num all_data p)
      (mr_shuffle-IsSorted partition num all_data p h),
)
