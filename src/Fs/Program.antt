-- ===== src/Fs/Program.antt =====
-- filesystems-checker/xchecker.c: `main` and `my_mmap_read`. The mapping of a file is a parameter, `none`
-- where it cannot be opened or mapped; its length, which is written through a pointer that is not set
-- and not read again, is left out.
use ostep_projects_finish.Common.{ℕ, Option, none, some, List, [], ◌∷◌}
use ostep_projects_finish.Common.Text.{Bytes}
use ostep_projects_finish.Common.Loop.{Result}
use ostep_projects_finish.Fs.Disk.{Disk}
use ostep_projects_finish.Fs.Walk.{Stop, Line, inode_check_9}

-- `usage` returns 1; a NULL instead of the mapping crashes the walk.
pub data End : Type 0 where
  usage : End
  crashed : End
  walked : Result Stop (List Line) → End

-- The arguments behind the name; the fuel is that of the walk.
unfoldable pub main : (Bytes → Option Disk) → ℕ → List Bytes → End
main my_mmap_read fuel [] = usage
main my_mmap_read fuel (path ∷ args) = elim (my_mmap_read path) [
  | none ↦ crashed
  | some mmapped ↦ walked (inode_check_9 fuel mmapped 1 [])
]
