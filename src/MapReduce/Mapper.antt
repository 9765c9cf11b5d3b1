-- ===== src/MapReduce/Mapper.antt =====
-- `Map` of concurrency-mapreduce/wordcount.c, and the threads of `MR_Run` in
-- concurrency-mapreduce/mapreduce.c. A file is the list of its bytes. Mappers share only `all_data`,
-- and `MR_Emit` holds its mutex from end to end, so a step of a mapper is one call of it.
use ostep_projects_finish.Common.{
  ℕ, zero, suc, ◌+◌, ◌-◌, ◌≡◌, Bool, ◌||◌, Option, none, some, List, [], ◌∷◌, ◌++◌, length, get_or,
  get_elem?, set, ◌==◌, leb, if◌then◌else◌,
}
use ostep_projects_finish.Common.Text.{cstr}
use ostep_projects_finish.MapReduce.{Bytes, MapData, mr_emit, Line, mr_reduce, mr_shuffle}

-- A byte of " \t\n\r".
abbrev pub is_delim : ℕ → Bool
is_delim c = c == 32 || (c == 9 || (c == 10 || c == 13))

-- The lines that `getline` gives one after another, when it has read `line` of the current one.
unfoldable pub getlines : Bytes → List ℕ → List Bytes
getlines line [] = elim line [ [] ↦ [] | c ∷ cs ↦ ((c ∷ cs) ∷ []) ]
getlines line (x ∷ file) =
    let rest = getlines [] file in
    let longer = getlines (line ++ (x ∷ [])) file in
    if x == 10 then (line ++ (x ∷ [])) ∷ rest else longer

-- `strsep(&dummy, " \t\n\r")` where `dummy` is not NULL: the token, and `dummy` afterwards.
unfoldable pub strsep : Bytes → Bytes × Option Bytes
strsep [] = ([], none)
strsep (c ∷ dummy) =
    let (token, left) = strsep dummy in if is_delim c then ([], some dummy) else (c ∷ token, left)

-- The inner `while` of `Map`. Each token takes a delimiter away, so the length of the line bounds the
-- rounds; `none` is out of fuel.
unfoldable pub emit_tokens : ℕ → Option Bytes → List MapData → Option (List MapData)
emit_tokens zero dummy all_data = none
emit_tokens (suc fuel) none all_data = some all_data
emit_tokens (suc fuel) (some dummy) all_data =
    let (token, left) = strsep dummy in
    elim token [
      | [] ↦ emit_tokens fuel left all_data
      | c ∷ cs ↦ emit_tokens fuel left (mr_emit (c ∷ cs) (49 ∷ []) all_data)
    ]

unfoldable pub emit_lines : List Bytes → List MapData → Option (List MapData)
emit_lines [] all_data = some all_data
emit_lines (line ∷ lines) all_data =
    elim (emit_tokens (length (cstr line) + 2) (some (cstr line)) all_data) [
      | none ↦ none
      | some emitted ↦ emit_lines lines emitted
    ]

-- `Map` for a file that can be opened.
unfoldable pub map_file : List ℕ → List MapData → Option (List MapData)
map_file file all_data = emit_lines (getlines [] file) all_data

-- `real_num_mappers` in `MR_Run`; `none` is the exit with a message.
unfoldable pub real_num_mappers : ℕ → ℕ → Option ℕ
real_num_mappers argc num_mappers = if leb (argc - 1) num_mappers then some (argc - 1) else none

-- The pairs that each mapper has still to emit, and `all_data`.
pub record Mappers : Type 0 where
  pub to_emit : List (List MapData)
  pub all_data : List MapData

pub data Step (s : Mappers) : Mappers → Type 0 where
  emit :
      (i : ℕ) (d : MapData) (rest : List MapData)
      → get_elem? s.to_emit i ≡ some (d ∷ rest)
      → Step s
          (record { to_emit = set s.to_emit i rest; all_data = mr_emit d.key d.value s.all_data })

pub data Reach (s : Mappers) : Mappers → Type 0 where
  start : Reach s s
  later : {t u : Mappers} → Reach s t → Step t u → Reach s u

-- What each mapper emits on its file when it runs alone; `none` if one is out of fuel.
unfoldable pub map_all : List (List ℕ) → Option (List (List MapData))
map_all [] = some []
map_all (file ∷ files) = elim (map_file file []) [
  | none ↦ none
  | some pairs ↦ elim (map_all files) [ none ↦ none | some rest ↦ some (pairs ∷ rest) ]
]

module _ (partition : Bytes → ℕ → ℕ) (num_partition : ℕ) where
  -- The reducer threads number 0 to `n - 1`, with the lines that each prints.
  unfoldable pub reduce_first : ℕ → List MapData → Option (List Line)
  reduce_first zero all_data = some []
  reduce_first (suc n) all_data =
      let part_list = get_or (mr_shuffle partition num_partition all_data) n [] in
      elim (reduce_first n all_data) [
        | none ↦ none
        | some before ↦
            elim (mr_reduce (suc (length part_list))
              (record { data_list = part_list; part_count = 0 })) [
                | none ↦ none
                | some own ↦ some (before ++ own)
              ]
      ]

  -- `MR_Run` from the distribution of the pairs on.
  unfoldable pub mr_finish : List MapData → Option (List Line)
  mr_finish all_data = reduce_first num_partition all_data
