-- ===== src/MapReduce.antt =====
-- concurrency-mapreduce/mapreduce.c with the client wordcount.c. Keys and values are C strings, lists
-- of the bytes before the NUL. `all_data` is the list of the pairs emitted so far: `MR_Emit` holds the
-- mutex from end to end, so what the mapper threads leave is one such list, in some order. A partition
-- belongs to one reducer thread.
pub mod Shuffle
pub mod Reduce
pub mod Run
pub mod Mapper
pub mod Words
pub mod Whole
pub mod Once
mod Tests
use ostep_projects_finish.Common.{
  ℕ, zero, suc, ◌+◌, ◌-◌, ◌*◌, ◌%◌, ◌^◌, ◌<◌, Bool, true, false, Option, none, some, List, [], ◌∷◌,
  ◌++◌, length, get_elem?, get_or, set, replicate, ◌==◌, ltb, leb, if◌then◌else◌, str_eq,
}
use ostep_projects_finish.Common.Sift.{swap_down}

abbrev pub Bytes : Type 0
Bytes = List ℕ

pub record MapData : Type 0 where
  pub key : Bytes
  pub value : Bytes
  pub part_number : ℕ

-- `strcmp(s, t) < 0`, over unsigned bytes.
pub strcmp_lt : Bytes → Bytes → Bool
strcmp_lt [] [] = false
strcmp_lt [] (y ∷ t) = true
strcmp_lt (x ∷ s) [] = false
strcmp_lt (x ∷ s) (y ∷ t) = if x == y then strcmp_lt s t else ltb x y

-- The `while` of `MR_DefaultHashPartition`. A `char` is signed: a byte from 128 on is added as
-- itself minus 256. `unsigned long` has 64 bits.
pub hash_from : ℕ → Bytes → ℕ
hash_from hash [] = hash
hash_from hash (c ∷ key) =
    hash_from ((hash * 33 + (if ltb c 128 then c else 2 ^ 64 + c - 256)) % 2 ^ 64) key

unfoldable pub mr_default_hash_partition : Bytes → ℕ → ℕ
unfolding hash_from
mr_default_hash_partition key num_partitions = hash_from 5381 key % num_partitions

unfoldable pub mr_emit : Bytes → Bytes → List MapData → List MapData
mr_emit key value all_data = all_data ++ (record { key = key; value = value; part_number = 0 } ∷ [])

abbrev pub blank : MapData
blank = record { key = []; value = []; part_number = 0 }

-- The loop of `MR_Sortadd`, with `i` going down to 1.
pub sort_down : ℕ → List MapData → List MapData
sort_down zero part_list = part_list
sort_down (suc i) part_list =
    let swapped = sort_down i (swap_down blank i part_list) in
    if strcmp_lt (get_or part_list (suc i) blank).key (get_or part_list i blank).key
    then swapped
    else part_list

-- The first `index_num` entries are in use, and the list holds these; the new one goes behind them.
unfoldable pub mr_sortadd : List MapData → MapData → List MapData
unfolding sort_down swap_down strcmp_lt
mr_sortadd part_list new_data = sort_down (length part_list) (part_list ++ (new_data ∷ []))

-- A round of the loop in `MR_Run` that distributes `all_data`, for a partitioner that stays below the
-- number of partitions; the code writes outside of `part_data` with another.
pub place : (Bytes → ℕ → ℕ) → ℕ → MapData → List (List MapData) → List (List MapData)
place partition num_partition d part_data =
    let part_index = partition d.key num_partition in
    let numbered = record d { part_number = part_index } in
    set part_data part_index (mr_sortadd (get_or part_data part_index []) numbered)

pub distribute : (Bytes → ℕ → ℕ) → ℕ → List MapData → List (List MapData) → List (List MapData)
distribute partition num_partition [] part_data = part_data
distribute partition num_partition (d ∷ all_data) part_data =
    distribute partition num_partition all_data (place partition num_partition d part_data)

-- `part_data` once all pairs are distributed.
unfoldable pub mr_shuffle : (Bytes → ℕ → ℕ) → ℕ → List MapData → List (List MapData)
unfolding distribute place mr_sortadd
mr_shuffle partition num_partition all_data =
    distribute partition num_partition all_data (replicate num_partition [])

-- A partition and its `part_count`.
pub record Part : Type 0 where
  pub data_list : List MapData
  pub part_count : ℕ

unfoldable pub get_next : Bytes → Part → Option Bytes × Part
get_next key p = elim (get_elem? p.data_list p.part_count) [
  | none ↦ (none, p)
  | some d ↦
      if str_eq d.key key
      then (some d.value, record p { part_count = p.part_count + 1 })
      else (none, p)
]

-- The loop of wordcount's `Reduce`, which counts until `get_next` gives NULL. A call of it moves on by
-- a pair, so the number of pairs bounds the rounds; `none` is out of fuel.
pub count_values : ℕ → Bytes → ℕ → Part → Option (ℕ × Part)
count_values zero key count p = none
count_values (suc fuel) key count p =
    let (value, p') = get_next key p in
    elim value [ none ↦ some (count, p') | some v ↦ count_values fuel key (count + 1) p' ]

-- A line of the output: a key and its count.
abbrev pub Line : Type 0
Line = Bytes × ℕ

pub reduce : ℕ → Bytes → Part → Option (Line × Part)
reduce fuel key p = elim (count_values fuel key 0 p) [
  | none ↦ none
  | some (count, p') ↦ some ((key, count), p')
]

-- `MR_reduce` with wordcount's reducer: the lines that it prints for its partition.
pub mr_reduce : ℕ → Part → Option (List Line)
mr_reduce zero p = none
mr_reduce (suc fuel) p = elim (get_elem? p.data_list p.part_count) [
  | none ↦ some []
  | some d ↦ elim (reduce (suc fuel) d.key p) [
    | none ↦ none
    | some (line, p') ↦ elim (mr_reduce fuel p') [ none ↦ none | some lines ↦ some (line ∷ lines) ]
  ]
]
