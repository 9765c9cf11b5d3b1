-- ===== src/Fs/Walk/Cycle.antt =====
-- A directory whose `.` entry names itself is walked for ever.
use ostep_projects_finish.Common.{
  ℕ, zero, suc, ◌<◌, ◌≡◌, ◌≢◌, refl, sym, ap, ◌∙◌, some, List, arith, leb, Bool-cases, inl, inr,
  lt→ltb, eq→==,
}
use ostep_projects_finish.Common.Loop.{Result, err, for_loop, for_loop-err}
use ostep_projects_finish.Fs.Disk.{Disk, ndirect, Dinode, rsect, read_superblock, rinode, dirent_at}
use ostep_projects_finish.Fs.Checks.{block_num}
use ostep_projects_finish.Fs.Walk.{
  Stop, out_of_fuel, Line, check_entry, check_block, check_directory, inode_check_9,
}

-- The directory's first block begins with the directory's own number, as `.` does.
pub record HasDot (mmapped : Disk) (n : ℕ) (ip : Dinode) : Type 0 where
  pub number : ip ≡ rinode mmapped n (some (read_superblock mmapped))
  pub not_root : 1 < n
  pub is_directory : ip.type ≡ 1
  pub not_empty : block_num ip.size ≢ 0
  pub dot : (dirent_at (rsect mmapped (ip.addrs 0)) 0).inum ≡ n

module _ (mmapped : Disk) (n : ℕ) (ip : Dinode) (d : HasDot mmapped n ip) where
  first_entry :
      (visit : ℕ → List Line → Result Stop (List Line)) (out : List Line)
      → check_entry mmapped visit (rsect mmapped (ip.addrs 0)) 0 out ≡ visit n out
  unfolding check_entry
  first_entry visit out =
      rw (d.dot, lt→ltb 1 n d.not_root, ← d.number, eq→== ip.type 1 d.is_directory)

  first_block :
      (visit : ℕ → List Line → Result Stop (List Line)) (out : List Line)
      → visit n out ≡ err out_of_fuel
      → check_block mmapped visit (ip.addrs 0) out ≡ err out_of_fuel
  unfolding check_block
  first_block visit out e = for_loop-err 31 0 _ out out_of_fuel (first_entry visit out ∙ e)

  loop_stops :
      (visit : ℕ → List Line → Result Stop (List Line)) (out : List Line) (k : ℕ)
      → k ≢ 0
      → visit n out ≡ err out_of_fuel
      → for_loop k 0 (λ i. check_block mmapped visit (ip.addrs i)) out ≡ err out_of_fuel
  loop_stops visit out zero h e = absurd (h refl)
  loop_stops visit out (suc k) h e = for_loop-err k 0 _ out out_of_fuel (first_block visit out e)

  directory_stops :
      (visit : ℕ → List Line → Result Stop (List Line)) (out : List Line)
      → visit n out ≡ err out_of_fuel
      → check_directory mmapped visit ip out ≡ err out_of_fuel
  unfolding check_directory
  directory_stops visit out e = elim (Bool-cases (leb (block_num ip.size) ndirect)) [
    | inl few ↦ rw (few, loop_stops visit out (block_num ip.size) d.not_empty e)
    | inr many ↦ rw (many, loop_stops visit out ndirect (omega arith) e)
  ]

-- On a directory other than the root whose first entry is `.` with the directory's own number,
-- `inode_check_9` calls itself without end: no number of levels of calls is enough.
pub inode_check_9-cycle :
    (mmapped : Disk) (n : ℕ) (ip : Dinode)
    → HasDot mmapped n ip
    → (fuel : ℕ) (out : List Line) → inode_check_9 fuel mmapped n out ≡ err out_of_fuel
unfolding inode_check_9
inode_check_9-cycle mmapped n ip d zero out = refl
inode_check_9-cycle mmapped n ip d (suc fuel) out =
    ap (λ i. check_directory mmapped (inode_check_9 fuel mmapped) i out) (sym d.number)
    ∙ directory_stops mmapped n ip d (inode_check_9 fuel mmapped) out
        (inode_check_9-cycle mmapped n ip d fuel out)
