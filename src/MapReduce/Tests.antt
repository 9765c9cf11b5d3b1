-- ===== src/MapReduce/Tests.antt =====
-- Runs of the theorems about the map-reduce library on three pairs.
use ostep_projects_finish.Common.{
  ℕ, ◌≡◌, suc, refl, List, [], ◌∷◌, some, length, arith, ◌<◌, ◌++◌, map, All,
}
use native.Mathlib.Nat.{mod-lt}
use ostep_projects_finish.MapReduce.{
  Bytes, MapData, Line, strcmp_lt, mr_reduce, mr_default_hash_partition,
}
use ostep_projects_finish.MapReduce.Shuffle.{IsSorted}
use ostep_projects_finish.MapReduce.Run.{
  occurrences, total, goes_to, shuffled, mr_reduce-mr_shuffle,
}
use ostep_projects_finish.MapReduce.{hash_from, mr_emit}
use ostep_projects_finish.MapReduce.Mapper.{
  Mappers, Step, Reach, map_file, map_all, mr_finish, emit_lines, emit_tokens, getlines, strsep,
}
use ostep_projects_finish.MapReduce.Words.{NoNul, pair_of, words_of, map_file-words}
use ostep_projects_finish.MapReduce.Whole.{start_mappers, word_count, mr_finish-word_count}
use ostep_projects_finish.MapReduce.Once.{IsAscending, mr_reduce-IsAscending}

abbrev pair : ℕ → MapData
pair c = record { key = c ∷ []; value = 49 ∷ []; part_number = 0 }

abbrev sorted : List MapData
sorted = pair 97 ∷ pair 99 ∷ []

abbrev emitted : List MapData
emitted = pair 99 ∷ pair 97 ∷ pair 99 ∷ []

sorted-IsSorted : IsSorted sorted
unfolding strcmp_lt
sorted-IsSorted = ((refl, tt), (tt, tt))

in_range : (k : Bytes) → mr_default_hash_partition k 2 < 2
unfolding mr_default_hash_partition
in_range k = mod-lt (hash_from 5381 k) (omega arith)

mr_reduce-mr_shuffle_example :
    (lines : List Line) × (mr_reduce
        (suc (length (shuffled mr_default_hash_partition 2 emitted 1)))
        (record { data_list = shuffled mr_default_hash_partition 2 emitted 1; part_count = 0 })
      ≡ some lines)
    × ((k : Bytes)
        → total k lines ≡ goes_to mr_default_hash_partition 2 k 1 (occurrences k emitted))
mr_reduce-mr_shuffle_example =
    mr_reduce-mr_shuffle mr_default_hash_partition 2 emitted 1 in_range (omega arith)

-- Two files, "a b" and "b", and the mappers' emits in the order of the second, the first and the first.
abbrev files : List (List ℕ)
files = (97 ∷ 32 ∷ 98 ∷ []) ∷ (98 ∷ []) ∷ []

abbrev a_word : MapData
a_word = pair 97

abbrev b_word : MapData
b_word = pair 98

abbrev pairs : List (List MapData)
pairs = (a_word ∷ b_word ∷ []) ∷ (b_word ∷ []) ∷ []

files-NoNul : All NoNul files
files-NoNul = ((omega arith, (omega arith, (omega arith, tt))), ((omega arith, tt), tt))

map_file-words_example :
    map_file (97 ∷ 32 ∷ 98 ∷ []) [] ≡ some ([] ++ map pair_of (words_of (97 ∷ 32 ∷ 98 ∷ [])))
map_file-words_example = map_file-words (97 ∷ 32 ∷ 98 ∷ []) [] files-NoNul.0

abbrev mapped : Mappers
mapped = record { to_emit = [] ∷ [] ∷ []; all_data = b_word ∷ a_word ∷ b_word ∷ [] }

mapped-Reach : Reach (start_mappers pairs) mapped
unfolding mr_emit
mapped-Reach =
    Reach.later
      (Reach.later (Reach.later Reach.start (Step.emit 1 b_word [] refl))
        (Step.emit 0 a_word (b_word ∷ []) refl))
      (Step.emit 0 b_word [] refl)

maps_all : map_all files ≡ some pairs
unfolding map_all map_file emit_lines emit_tokens getlines strsep mr_emit
maps_all = refl

mr_finish-word_count_example :
    (lines : List Line) × (mr_finish mr_default_hash_partition 2 mapped.all_data ≡ some lines)
    × ((k : Bytes) → total k lines ≡ word_count k files)
mr_finish-word_count_example =
    mr_finish-word_count mr_default_hash_partition 2 files pairs mapped in_range files-NoNul
      maps_all mapped-Reach (refl, (refl, tt))

mr_reduce-IsAscending_example :
    (lines : List Line) × (mr_reduce
        (suc (length (shuffled mr_default_hash_partition 2 emitted 1)))
        (record { data_list = shuffled mr_default_hash_partition 2 emitted 1; part_count = 0 })
      ≡ some lines)
    × IsAscending lines
mr_reduce-IsAscending_example =
    mr_reduce-IsAscending mr_default_hash_partition 2 emitted 1 in_range (omega arith)
