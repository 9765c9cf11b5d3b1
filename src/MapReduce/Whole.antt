-- ===== src/MapReduce/Whole.antt =====
-- The whole of `MR_Run` with wordcount, for mappers whose calls of `MR_Emit` come in any order.
use ostep_projects_finish.Common.{
  ℕ, zero, suc, ◌+◌, ◌≤◌, ◌<◌, ◌≡◌, refl, sym, ap, ap₂, ◌∙◌, Option, none, some, List, [], ◌∷◌,
  ◌++◌, length, map, arith, All, get_elem?, set, ltb, lt→ltb, if◌then◌else◌, str_eq, ◌==◌,
}
use mathlib.Core.Option.{some-injective, none-ne-some}
use ostep_projects_finish.MapReduce.{Bytes, MapData, mr_emit, Line, mr_reduce}
use ostep_projects_finish.MapReduce.Run.{occurrences, total, shuffled, mr_reduce-mr_shuffle}
use ostep_projects_finish.MapReduce.Mapper.{
  map_file, map_all, Mappers, emit, Reach, start, later, reduce_first, mr_finish,
}
use ostep_projects_finish.MapReduce.Words.{words_of, pair_of, NoNul, map_file-words}

-- How many of the words are `k`.
abbrev pub count_word : Bytes → List Bytes → ℕ
count_word k [] = 0
count_word k (w ∷ ws) = (if str_eq w k then 1 else 0) + count_word k ws

-- How often the word `k` stands in the files.
abbrev pub word_count : Bytes → List (List ℕ) → ℕ
word_count k [] = 0
word_count k (file ∷ files) = count_word k (words_of file) + word_count k files

-- How many pairs with the key `k` the mappers have still to emit.
pending : Bytes → List (List MapData) → ℕ
pending k [] = 0
pending k (ds ∷ to_emit) = occurrences k ds + pending k to_emit

abbrev pub start_mappers : List (List MapData) → Mappers
start_mappers pairs = record { to_emit = pairs; all_data = [] }

abbrev pub Finished : Mappers → Type 0
Finished s = All (λ ds. ds ≡ []) s.to_emit

occurrences-words : (k : Bytes) (ws : List Bytes) → occurrences k (map pair_of ws) ≡ count_word k ws
occurrences-words k [] = refl
occurrences-words k (w ∷ ws) = ap (λ n. (if str_eq w k then 1 else 0) + n) (occurrences-words k ws)

occurrences-snoc :
    (k : Bytes) (ds : List MapData) (d : MapData)
    → occurrences k (ds ++ (d ∷ [])) ≡ occurrences k ds + (if str_eq d.key k then 1 else 0)
occurrences-snoc k [] d = omega arith
occurrences-snoc k (e ∷ ds) d = omega (arith, occurrences-snoc k ds d)

pending-set :
    (k : Bytes) (to_emit : List (List MapData)) (i : ℕ) (d : MapData) (rest : List MapData)
    → get_elem? to_emit i ≡ some (d ∷ rest)
    → pending k to_emit ≡ (if str_eq d.key k then 1 else 0) + pending k (set to_emit i rest)
unfolding pending
pending-set k [] i d rest e = absurd (none-ne-some _ e)
pending-set k (ds ∷ to_emit) zero d rest e =
    ap (λ t. occurrences k t + pending k to_emit) (some-injective _ _ e) ∙ omega arith
pending-set k (ds ∷ to_emit) (suc i) d rest e = omega (arith, pending-set k to_emit i d rest e)

-- No step loses a pair or adds one.
Reach-occurrences :
    (k : Bytes) (s u : Mappers)
    → Reach s u
    → occurrences k u.all_data + pending k u.to_emit
      ≡ occurrences k s.all_data + pending k s.to_emit
unfolding mr_emit
Reach-occurrences k s u start = refl
Reach-occurrences k s u (later {t} r (emit i d rest e)) = omega (
  arith,
  occurrences-snoc k t.all_data (record { key = d.key; value = d.value; part_number = 0 }),
  pending-set k t.to_emit i d rest e,
  Reach-occurrences k s t r,
)

pending-Finished : (k : Bytes) (l : List (List MapData)) → All (λ ds. ds ≡ []) l → pending k l ≡ 0
unfolding pending
pending-Finished k [] f = refl
pending-Finished k (ds ∷ l) f = ap₂ (λ t n. occurrences k t + n) f.0 (pending-Finished k l f.1)

pair_up : Option (List MapData) → Option (List (List MapData)) → Option (List (List MapData))
pair_up none rest = none
pair_up (some pairs) none = none
pair_up (some pairs) (some rest) = some (pairs ∷ rest)

pairs_up :
    (a : Option (List MapData)) (b : Option (List (List MapData)))
    → (elim a [
      | none ↦ none
      | some pairs ↦ elim b [ none ↦ none | some rest ↦ some (pairs ∷ rest) ]
    ])
      ≡ pair_up a b
unfolding pair_up
pairs_up none b = refl
pairs_up (some pairs) none = refl
pairs_up (some pairs) (some rest) = refl

-- Every mapper ends on its own, with the pairs of its file's words.
map_all-words :
    (files : List (List ℕ))
    → All NoNul files
    → map_all files ≡ some (map (λ file. map pair_of (words_of file)) files)
unfolding map_all pair_up
map_all-words [] t = refl
map_all-words (file ∷ files) t =
    pairs_up (map_file file []) (map_all files)
    ∙ ap₂ pair_up (map_file-words file [] t.0) (map_all-words files t.1)

pending-words :
    (k : Bytes) (files : List (List ℕ))
    → pending k (map (λ file. map pair_of (words_of file)) files) ≡ word_count k files
unfolding pending
pending-words k [] = refl
pending-words k (file ∷ files) =
    ap₂ ◌+◌ (occurrences-words k (words_of file)) (pending-words k files)

-- The pairs in `all_data` when all mappers have ended.
emitted-word_count :
    (k : Bytes) (files : List (List ℕ)) (pairs : List (List MapData)) (s : Mappers)
    → All NoNul files
    → map_all files ≡ some pairs
    → Reach (start_mappers pairs) s
    → Finished s
    → occurrences k s.all_data ≡ word_count k files
emitted-word_count k files pairs s t e r f =
    let same = some-injective _ _ (sym e ∙ map_all-words files t) in
    omega (
      arith,
      Reach-occurrences k (start_mappers pairs) s r,
      pending-Finished k s.to_emit f,
      ap (pending k) same ∙ pending-words k files,
    )

total-append : (k : Bytes) (ls ms : List Line) → total k (ls ++ ms) ≡ total k ls + total k ms
total-append k [] ms = omega arith
total-append k ((j, n) ∷ ls) ms = omega (arith, total-append k ls ms)

module _ (partition : Bytes → ℕ → ℕ) (num : ℕ) where
  join : Option (List Line) → Option (List Line) → Option (List Line)
  join none own = none
  join (some before) none = none
  join (some before) (some own) = some (before ++ own)

  own_lines : List MapData → ℕ → Option (List Line)
  own_lines all_data n =
      mr_reduce (suc (length (shuffled partition num all_data n)))
        (record { data_list = shuffled partition num all_data n; part_count = 0 })

  reduce_first-suc :
      (n : ℕ) (all_data : List MapData)
      → reduce_first partition num (suc n) all_data
        ≡ join (reduce_first partition num n all_data) (own_lines all_data n)
  unfolding reduce_first join own_lines
  reduce_first-suc n all_data = go (reduce_first partition num n all_data) (own_lines all_data n)
    where
      go :
          (a b : Option (List Line))
          → (elim a [
            | none ↦ none
            | some before ↦ elim b [ none ↦ none | some own ↦ some (before ++ own) ]
          ])
            ≡ join a b
      go none b = refl
      go (some before) none = refl
      go (some before) (some own) = refl

  own_lines-some :
      (all_data : List MapData) (n : ℕ) (lines : List Line)
      → mr_reduce
          (suc (length (shuffled partition num all_data n)))
          (record { data_list = shuffled partition num all_data n; part_count = 0 })
        ≡ some lines
      → own_lines all_data n ≡ some lines
  unfolding own_lines
  own_lines-some all_data n lines e = e

  join-some : (ls ms : List Line) → join (some ls) (some ms) ≡ some (ls ++ ms)
  unfolding join
  join-some ls ms = refl

  below_next :
      (h n o : ℕ)
      → (if ltb h (suc n) then o else 0) ≡ (if ltb h n then o else 0) + (if h == n then o else 0)
  below_next h n o = ground arith

  reduce_first-total :
      (n : ℕ) (all_data : List MapData)
      → ((k : Bytes) → partition k num < num)
      → n ≤ num
      → (lines : List Line) × (reduce_first partition num n all_data ≡ some lines)
        × ((k : Bytes)
            → total k lines ≡ (if ltb (partition k num) n then occurrences k all_data else 0))
  reduce_first-total zero all_data in_range h = ([], unfold reduce_first in refl, λ k. ground arith)
  reduce_first-total (suc n) all_data in_range h =
      let before = reduce_first-total n all_data in_range (omega arith) in
      let own = mr_reduce-mr_shuffle partition num all_data n in_range (omega arith) in
      (
        before.0 ++ own.0,
        reduce_first-suc n all_data
            ∙ ap₂ join before.1 (own_lines-some all_data n own.0 own.1)
            ∙ join-some before.0 own.0,
        λ k.
            total-append k before.0 own.0
            ∙ ap₂ ◌+◌ (before.2 k) (own.2 k)
            ∙ sym (below_next (partition k num) n (occurrences k all_data)),
      )

  -- For files without a NUL and a partitioner that stays below the number of reducers, in any order
  -- of the mappers' emits: the reducers end, and what they all print for a word adds up to how often
  -- the word stands in the files.
  pub mr_finish-word_count :
      (files : List (List ℕ)) (pairs : List (List MapData)) (s : Mappers)
      → ((k : Bytes) → partition k num < num)
      → All NoNul files
      → map_all files ≡ some pairs
      → Reach (start_mappers pairs) s
      → Finished s
      → (lines : List Line) × (mr_finish partition num s.all_data ≡ some lines)
        × ((k : Bytes) → total k lines ≡ word_count k files)
  unfolding mr_finish
  mr_finish-word_count files pairs s in_range t e r f =
      let all_lines = reduce_first-total num s.all_data in_range (omega arith) in
      (
        all_lines.0,
        all_lines.1,
        λ k.
            all_lines.2 k
            ∙ rw (lt→ltb (partition k num) num (in_range k))
                (emitted-word_count k files pairs s t e r f),
      )
