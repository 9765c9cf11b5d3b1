-- ===== src/Shell/Find.antt =====
-- `exec_zx` of processes-shell/wish3.c: the search along the path.
use ostep_projects_finish.Common.{
  ◌≡◌, ◌⊎◌, refl, ap, Bool, true, false, List, [], ◌∷◌, ◌++◌, All, Bool-cases, inl, inr,
}
use ostep_projects_finish.Common.Text.{Bytes}
use ostep_projects_finish.Shell.{find_command}

module _ (access : Bytes → Bool) (command : Bytes) where
  abbrev pub IsMissing : List Bytes → Type 0
  IsMissing ps = All (λ p. access (p ++ command) ≡ false) ps

  -- The directories in front of the one that is found, that one, and those behind it.
  pub record Found (command_path : List Bytes) : Type 0 where
    pub front : List Bytes
    pub path : Bytes
    pub back : List Bytes
    pub splits : command_path ≡ front ++ (path ∷ back)
    pub misses : IsMissing front
    pub hits : access (path ++ command) ≡ true
    pub finds : find_command access command command_path ≡ path ++ command

  -- The loop of `exec_zx` takes the command from the first directory of the search path that has it; if none has
  -- it, the name is empty.
  pub find_command-Found :
      (command_path : List Bytes)
      → Found command_path
        ⊎ (IsMissing command_path × (find_command access command command_path ≡ []))
  unfolding find_command
  find_command-Found [] = inr (tt, refl)
  find_command-Found (p ∷ ps) = elim (Bool-cases (access (p ++ command))) [
    | inl e ↦ inl (record {
      front = [];
      path = p;
      back = ps;
      splits = refl;
      misses = tt;
      hits = e;
      finds = rw e refl;
    })
    | inr e ↦ elim (find_command-Found ps) [
      | inl f ↦ inl (record {
        front = p ∷ f.front;
        path = f.path;
        back = f.back;
        splits = ap (λ t. p ∷ t) f.splits;
        misses = (e, f.misses);
        hits = f.hits;
        finds = rw e f.finds;
      })
      | inr f ↦ inr ((e, f.0), rw e f.1)
    ]
  ]
