-- ===== src/Fs/Walk.antt =====
-- `inode_check_9` of filesystems-checker/xchecker.c: the walk over the directory tree. The C function
-- calls itself for every directory that it meets; here it has fuel, one unit for each level of calls,
-- and `out_of_fuel` says that the levels were not enough.
pub mod Cycle
pub mod Nested
use ostep_projects_finish.Common.{
  ℕ, zero, suc, ◌+◌, ◌-◌, ◌*◌, ◌%◌, Bool, true, false, some, List, [], ◌∷◌, ◌++◌, ◌==◌, ltb, leb,
  if◌then◌else◌,
}
use ostep_projects_finish.Common.Loop.{Result, ok, err, ◌>>=◌, for_loop}
use ostep_projects_finish.Fs.Disk.{
  Disk, Block, ndirect, nindirect, u32, Dinode, Dirent, rsect, read_superblock, rinode, dirent_at,
}
use ostep_projects_finish.Fs.Checks.{block_num}

pub data Stop : Type 0 where
  out_of_fuel overrun : Stop

-- What the walk prints: a file's entry, or the complaint about an entry whose inode is free.
pub data Line : Type 0 where
  entry : ℕ → (ℕ → ℕ) → Line
  not_found : Line

abbrev pub Walk : Type 0
Walk = List Line → Result Stop (List Line)

-- The body of the innermost loops. `visit` is the recursive call.
pub check_entry : Disk → (ℕ → Walk) → Block → ℕ → Walk
check_entry mmapped visit buf j out =
    let direct = dirent_at buf j in
    let inode = rinode mmapped direct.inum (some (read_superblock mmapped)) in
    let sub = visit direct.inum out in
    if ltb 1 direct.inum
    then (if inode.type == 1
        then sub
        else (if inode.type == 0
            then ok (out ++ (not_found ∷ []))
            else ok (out ++ (entry direct.inum direct.name ∷ []))))
    else ok out

-- A block holds `BSIZE/sizeof(struct dirent)` = 32 entries.
pub check_block : Disk → (ℕ → Walk) → ℕ → Walk
check_block mmapped visit sec = for_loop 32 0 (check_entry mmapped visit (rsect mmapped sec))

pub check_directory : Disk → (ℕ → Walk) → Dinode → Walk
check_directory mmapped visit ip out =
    if leb (block_num ip.size) ndirect
    then for_loop (block_num ip.size) 0 (λ i. check_block mmapped visit (ip.addrs i)) out
    else (for_loop ndirect 0 (λ i. check_block mmapped visit (ip.addrs i)) out
        >>= for_loop (block_num ip.size - ndirect) 0 (λ i t.
          if ltb i nindirect
          then check_block mmapped visit (u32 (rsect mmapped (ip.addrs ndirect)) (4 * i)) t
          else err overrun))

unfoldable pub inode_check_9 : ℕ → Disk → ℕ → Walk
unfolding check_directory check_block check_entry for_loop
inode_check_9 zero mmapped inode_num out = err out_of_fuel
inode_check_9 (suc fuel) mmapped inode_num out =
    check_directory mmapped (inode_check_9 fuel mmapped)
      (rinode mmapped inode_num (some (read_superblock mmapped))) out
