-- ===== src/Zip/Pzip2/Program.antt =====
-- concurrency-pzip/wzip/pzip2.c: how `main` collects the names of the files, in `Allpaths` and
-- `numOfFile`, from its arguments and the directories among them.
use ostep_projects_finish.Common.{
  ℕ, ◌+◌, ◌-◌, true, false, Option, none, some, List, [], ◌∷◌, ◌++◌, length, leb, ◌==◌,
  if◌then◌else◌, codes,
}
use ostep_projects_finish.Common.Text.{Bytes}

-- An entry that readdir gives: `d_type`, which is 8 for a regular file, and `d_name`.
pub record Dirent : Type 0 where
  pub d_type : ℕ
  pub d_name : Bytes

pub record Paths : Type 0 where
  pub allpaths : List Bytes
  pub num_of_file : ℕ

abbrev pub max_paths : ℕ
max_paths = 20

-- `opendir` gives the entries of a directory, and `none` for any other argument. `stale` is the string that
-- malloc leaves in `fpath`, whose 256 bytes are enough. `none` is a write behind the end of `Allpaths`.
module _ (opendir : Bytes → Option (List Dirent)) (stale : Bytes) where
  abbrev pub fpath : Bytes → Bytes → Bytes
  fpath dir name = stale ++ (dir ++ (codes "/" ++ name))

  pub add_path : Bytes → ℕ → Paths → Option Paths
  add_path path num_of_file s =
      if leb max_paths (length s.allpaths)
      then none
      else some (record { allpaths = s.allpaths ++ (path ∷ []); num_of_file = num_of_file })

  -- The loop over a directory.
  pub read_dir : Bytes → List Dirent → Paths → Option Paths
  read_dir dir [] s = some s
  read_dir dir (ent ∷ ents) s = elim (ent.d_type == 8) [
    | false ↦ read_dir dir ents s
    | true ↦ elim (add_path (fpath dir ent.d_name) (s.num_of_file + 1) s) [
      | none ↦ none
      | some s' ↦ read_dir dir ents s'
    ]
  ]

  -- The body of the loop over the arguments.
  pub collect_one : Bytes → Paths → Option Paths
  collect_one arg s = elim (opendir arg) [
    | some ents ↦ read_dir arg ents (record s { num_of_file = s.num_of_file - 1 })
    | none ↦ add_path arg s.num_of_file s
  ]

  pub collect_all : List Bytes → Paths → Option Paths
  collect_all [] s = some s
  collect_all (arg ∷ args) s = elim (collect_one arg s) [
    | none ↦ none
    | some s' ↦ collect_all args s'
  ]

  unfoldable pub collect : List Bytes → Option Paths
  unfolding collect_all collect_one read_dir add_path
  collect args = collect_all args (record { allpaths = []; num_of_file = length args })

module _ (opendir : Bytes → Option (List Dirent)) where
  -- The names of the regular files among a directory's entries.
  abbrev pub regular : Bytes → List Dirent → List Bytes
  regular dir [] = []
  regular dir (ent ∷ ents) =
      let rest = regular dir ents in
      if ent.d_type == 8 then (dir ++ (codes "/" ++ ent.d_name)) ∷ rest else rest

  -- What an argument that opendir answers with `r` stands for.
  abbrev pub named_by : Bytes → Option (List Dirent) → List Bytes
  named_by arg none = arg ∷ []
  named_by arg (some ents) = regular arg ents

  abbrev pub named : Bytes → List Bytes
  named arg = named_by arg (opendir arg)

  abbrev pub all_named : List Bytes → List Bytes
  all_named [] = []
  all_named (arg ∷ args) = named arg ++ all_named args

  abbrev found : List Bytes → ℕ → Paths
  found paths n = record { allpaths = paths; num_of_file = n }
