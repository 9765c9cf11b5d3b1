-- ===== src/Fs/Walk/Nested.antt =====
-- `inode_check_9` of filesystems-checker/xchecker.c ends where the directories are nested.
use ostep_projects_finish.Common.{
  ℕ, zero, suc, ◌+◌, ◌-◌, ◌*◌, ◌≤◌, ◌<◌, ◌≡◌, refl, sym, ap, ◌∙◌, Bool, true, false, ◌&&◌, some,
  List, [], ◌∷◌, ◌++◌, append-nil, append_assoc, arith, length, leb, ltb, ◌==◌, if◌then◌else◌,
  Bool-cases, ==→eq, inl, inr, leb→le, leb→lt, lt→ltb, le→ltb, subst,
}
use mathlib.Core.Bool.{false≢true}
use ostep_projects_finish.Common.Loop.{ok, err, ◌>>=◌, for_loop, for_loop-ok}
use ostep_projects_finish.Fs.Disk.{
  Disk, Block, ndirect, nindirect, u32, Dinode, Dirent, rsect, read_superblock, rinode, dirent_at,
}
use ostep_projects_finish.Fs.Checks.{block_num}
use ostep_projects_finish.Fs.Checks.Distinct.{member}
use ostep_projects_finish.Fs.Walk.{
  Line, entry, not_found, overrun, Walk, check_entry, check_block, check_directory, inode_check_9,
}

abbrev pub inode_of : Disk → ℕ → Dinode
inode_of mmapped n = rinode mmapped n (some (read_superblock mmapped))

-- Block `i` of a directory.
abbrev pub sector : Disk → Dinode → ℕ → ℕ
sector mmapped ip i =
    if ltb i ndirect then ip.addrs i else u32 (rsect mmapped (ip.addrs ndirect)) (4 * (i - ndirect))

-- Entry `j` of block `i` of directory `n`.
abbrev pub entry_in : Disk → ℕ → ℕ → ℕ → Dirent
entry_in mmapped n i j = dirent_at (rsect mmapped (sector mmapped (inode_of mmapped n) i)) j

-- A directory that is not the root.
abbrev pub is_directory : Disk → ℕ → Bool
is_directory mmapped n = ltb 1 n && (inode_of mmapped n).type == 1

-- Directories of at most the 140 blocks that an inode can name, in an order in which the directories among
-- the entries of each stand behind it: so none stands below itself, be it as ".", and only an entry
-- for the root goes up.
abbrev pub IsNested : Disk → List ℕ → Type 0
IsNested mmapped [] = Unit
IsNested mmapped (n ∷ ns) =
    (block_num (inode_of mmapped n).size ≤ ndirect + nindirect)
    × ((i j : ℕ)
        → i < block_num (inode_of mmapped n).size
        → j < 32
        → is_directory mmapped (entry_in mmapped n i j).inum ≡ true
        → member (entry_in mmapped n i j).inum ns ≡ true)
    × IsNested mmapped ns

-- What a function gives for `j`, `j + 1`, …, `n` of them, in a row.
abbrev pub gather : (ℕ → List Line) → ℕ → ℕ → List Line
gather g j zero = []
gather g j (suc n) = g j ++ gather g (j + 1) n

-- The lines for an entry: none for a number up to that of the root, those of a directory below, the
-- complaint for a free inode, and the entry itself for any other.
abbrev pub lines_of : Disk → (ℕ → List Line) → Dirent → List Line
lines_of mmapped below d =
    if is_directory mmapped d.inum
    then below d.inum
    else if leb d.inum 1
    then []
    else if (inode_of mmapped d.inum).type == 0
    then not_found ∷ []
    else entry d.inum d.name ∷ []

-- The lines for all entries of directory `n`, in their order, down to `levels` levels.
unfoldable pub listing : Disk → ℕ → ℕ → List Line
listing mmapped zero n = []
listing mmapped (suc levels) n =
    gather
      (λ i. gather (λ j. lines_of mmapped (listing mmapped levels) (entry_in mmapped n i j)) 0 32) 0
      (block_num (inode_of mmapped n).size)

gather-append :
    (g : ℕ → List Line) (j m n : ℕ) → gather g j (m + n) ≡ gather g j m ++ gather g (j + m) n
gather-append g j zero n =
    ap (λ k. gather g j k) (let e : 0 + n ≡ n = omega arith in e)
    ∙ ap (λ k. gather g k n) (let e : j ≡ j + 0 = omega arith in e)
gather-append g j (suc m) n =
    ap (λ k. gather g j k) (let e : suc m + n ≡ suc (m + n) = omega arith in e)
    ∙ ap (λ t. g j ++ t) (gather-append g (j + 1) m n)
    ∙ sym (append_assoc (g j) (gather g (j + 1) m) (gather g (j + 1 + m) n))
    ∙ ap (λ k. (g j ++ gather g (j + 1) m) ++ gather g k n)
        (let e : j + 1 + m ≡ j + suc m = omega arith in e)

gather-shift : (g : ℕ → List Line) (m j n : ℕ) → gather (λ i. g (m + i)) j n ≡ gather g (m + j) n
gather-shift g m j zero = refl
gather-shift g m j (suc n) =
    ap (λ t. g (m + j) ++ t)
      (gather-shift g m (j + 1) n
        ∙ ap (λ k. gather g k n) (let e : m + (j + 1) ≡ m + j + 1 = omega arith in e))

-- A walk that ends and prints these lines.
abbrev Walks : Walk → List Line → Type 0
Walks walk lines = (out : List Line) → walk out ≡ ok (out ++ lines)

for_loop-Walks :
    (body : ℕ → Walk) (g : ℕ → List Line) (n j : ℕ)
    → ((k : ℕ) → j ≤ k → k < j + n → Walks (body k) (g k))
    → Walks (for_loop n j body) (gather g j n)
unfolding for_loop
for_loop-Walks body g zero j h out = ap ok (sym (append-nil out))
for_loop-Walks body g (suc n) j h out =
    for_loop-ok n j body out (out ++ g j) (h j (omega arith) (omega arith) out)
    ∙ for_loop-Walks body g n (j + 1) (λ k lo hi. h k (omega arith) (omega arith)) (out ++ g j)
    ∙ ap ok (append_assoc out (g j) (gather g (j + 1) n))

module _ (mmapped : Disk) (visit : ℕ → Walk) (below : ℕ → List Line) where
  entry-Walks :
      (buf : Block) (j : ℕ)
      → (is_directory mmapped (dirent_at buf j).inum ≡ true
          → Walks (visit (dirent_at buf j).inum) (below (dirent_at buf j).inum))
      → Walks (check_entry mmapped visit buf j) (lines_of mmapped below (dirent_at buf j))
  unfolding check_entry
  entry-Walks buf j h = elim (Bool-cases (ltb 1 (dirent_at buf j).inum)) [
    | inr root ↦ rw (root, up root) (λ out. ap ok (sym (append-nil out)))
    | inl low ↦ elim (Bool-cases ((inode_of mmapped (dirent_at buf j).inum).type == 1)) [
      | inl directory ↦ rw (low, directory) (h (rw (low, directory) refl))
      | inr other ↦ elim (Bool-cases ((inode_of mmapped (dirent_at buf j).inum).type == 0)) [
        | inl free ↦ rw (low, other, not_up low, free) (λ out. refl)
        | inr used ↦ rw (low, other, not_up low, used) (λ out. refl)
      ]
    ]
  ]
    where
      up : ltb 1 (dirent_at buf j).inum ≡ false → leb (dirent_at buf j).inum 1 ≡ true
      up e = ground arith

      not_up : ltb 1 (dirent_at buf j).inum ≡ true → leb (dirent_at buf j).inum 1 ≡ false
      not_up e = ground arith

  abbrev block_lines : ℕ → List Line
  block_lines sec = gather (λ j. lines_of mmapped below (dirent_at (rsect mmapped sec) j)) 0 32

  -- The directories among the entries of a block are walked.
  abbrev AllWalked : ℕ → Type 0
  AllWalked sec =
      (j : ℕ)
      → j < 32
      → is_directory mmapped (dirent_at (rsect mmapped sec) j).inum ≡ true
      → Walks (visit (dirent_at (rsect mmapped sec) j).inum)
          (below (dirent_at (rsect mmapped sec) j).inum)

  block-Walks : (sec : ℕ) → AllWalked sec → Walks (check_block mmapped visit sec) (block_lines sec)
  unfolding check_block
  block-Walks sec h =
      for_loop-Walks (check_entry mmapped visit (rsect mmapped sec))
        (λ j. lines_of mmapped below (dirent_at (rsect mmapped sec) j)) 32 0
        (λ k lo hi. entry-Walks (rsect mmapped sec) k (h k (omega arith)))

  module _ (ip : Dinode)
      (h : (i : ℕ) → i < block_num ip.size → AllWalked (sector mmapped ip i)) where
    abbrev sector_lines : ℕ → List Line
    sector_lines i = block_lines (sector mmapped ip i)

    block_at-Walks :
        (i sec : ℕ)
        → i < block_num ip.size
        → sector mmapped ip i ≡ sec
        → Walks (check_block mmapped visit sec) (sector_lines i)
    block_at-Walks i sec within e =
        subst (λ s. Walks (check_block mmapped visit s) (sector_lines i)) e
          (block-Walks (sector mmapped ip i) (h i within))

    direct_sector : (i : ℕ) → i < ndirect → sector mmapped ip i ≡ ip.addrs i
    direct_sector i few = rw (lt→ltb i ndirect few) refl

    indirect_sector :
        (i : ℕ) → sector mmapped ip (ndirect + i) ≡ u32 (rsect mmapped (ip.addrs ndirect)) (4 * i)
    indirect_sector i = rw (le→ltb (ndirect + i) ndirect (omega arith)) (
        ap (λ k. u32 (rsect mmapped (ip.addrs ndirect)) (4 * k))
          (let z : ndirect + i - ndirect ≡ i = omega arith in z))

    direct-Walks :
        (n : ℕ)
        → n ≤ ndirect
        → n ≤ block_num ip.size
        → Walks
            (for_loop n 0 (λ i. check_block mmapped visit (ip.addrs i)))
            (gather sector_lines 0 n)
    direct-Walks n few within =
        for_loop-Walks (λ i. check_block mmapped visit (ip.addrs i)) sector_lines n 0
          (λ i lo hi. block_at-Walks i (ip.addrs i) (omega arith) (direct_sector i (omega arith)))

    indirect_block : ℕ → Walk
    indirect_block i t =
        if ltb i nindirect
        then check_block mmapped visit (u32 (rsect mmapped (ip.addrs ndirect)) (4 * i)) t
        else err overrun

    indirect_block-Walks :
        (i : ℕ)
        → i < nindirect
        → ndirect + i < block_num ip.size
        → Walks (indirect_block i) (sector_lines (ndirect + i))
    unfolding indirect_block
    indirect_block-Walks i few within out = rw (lt→ltb i nindirect few) (
        block_at-Walks (ndirect + i) (u32 (rsect mmapped (ip.addrs ndirect)) (4 * i)) within
          (indirect_sector i) out)

    directory-Walks :
        block_num ip.size ≤ ndirect + nindirect
        → Walks (check_directory mmapped visit ip) (gather sector_lines 0 (block_num ip.size))
    unfolding check_directory indirect_block
    directory-Walks small = elim (Bool-cases (leb (block_num ip.size) ndirect)) [
      | inl few ↦
          rw few (
            direct-Walks (block_num ip.size) (leb→le (block_num ip.size) ndirect few) (omega arith))
      | inr many ↦
          let more = leb→lt (block_num ip.size) ndirect many in
          rw many (λ out.
            ap (λ r. r >>= for_loop (block_num ip.size - ndirect) 0 indirect_block)
              (direct-Walks ndirect (omega arith) (omega arith) out)
            ∙ for_loop-Walks indirect_block (λ i. sector_lines (ndirect + i))
                (block_num ip.size - ndirect) 0
                (λ i lo hi. indirect_block-Walks i (omega arith) (omega arith))
                (out ++ gather sector_lines 0 ndirect)
            ∙ ap (λ t. ok ((out ++ gather sector_lines 0 ndirect) ++ t))
                (gather-shift sector_lines ndirect 0 (block_num ip.size - ndirect))
            ∙ ap ok (
                append_assoc out (gather sector_lines 0 ndirect)
                  (gather sector_lines ndirect (block_num ip.size - ndirect)))
            ∙ ap (λ t. ok (out ++ t))
                (sym (gather-append sector_lines 0 ndirect (block_num ip.size - ndirect))
                  ∙ ap (λ k. gather sector_lines 0 k)
                      (let e : ndirect + (block_num ip.size - ndirect) ≡ block_num ip.size =
                          omega arith in
                        e)))
    ]

one_level :
    (mmapped : Disk) (m fuel : ℕ)
    → block_num (inode_of mmapped m).size ≤ ndirect + nindirect
    → ((i j : ℕ)
        → i < block_num (inode_of mmapped m).size
        → j < 32
        → is_directory mmapped (entry_in mmapped m i j).inum ≡ true
        → Walks
            (inode_check_9 fuel mmapped (entry_in mmapped m i j).inum)
            (listing mmapped fuel (entry_in mmapped m i j).inum))
    → Walks (inode_check_9 (suc fuel) mmapped m) (listing mmapped (suc fuel) m)
unfolding inode_check_9 listing
one_level mmapped m fuel small h =
    directory-Walks mmapped (inode_check_9 fuel mmapped) (listing mmapped fuel) (inode_of mmapped m)
      (λ i within j row d. h i j within row d) small

-- Take a list of directories of at most 140 blocks each, in which the directories among the entries of
-- each stand behind it. On each of them, `inode_check_9` ends with as many levels of calls as the list is
-- long, or more, and prints the lines for all the entries of the directory in their order, and in their
-- places those of the directories below: the files, and a complaint for each free inode.
pub inode_check_9-listing :
    (mmapped : Disk) (ns : List ℕ) (n fuel : ℕ) (out : List Line)
    → IsNested mmapped ns
    → member n ns ≡ true
    → length ns ≤ fuel
    → inode_check_9 fuel mmapped n out ≡ ok (out ++ listing mmapped fuel n)
inode_check_9-listing mmapped [] n fuel out nested there h = absurd (false≢true there)
inode_check_9-listing mmapped (m ∷ ns) n zero out nested there h = absurd (omega arith)
inode_check_9-listing mmapped (m ∷ ns) n (suc fuel) out nested there h =
    elim (Bool-cases (n == m)) [
      | inr other ↦
          inode_check_9-listing mmapped ns n (suc fuel) out nested.2 (rw other at there)
            (omega arith)
      | inl same ↦
          subst
            (λ k. inode_check_9 (suc fuel) mmapped k out ≡ ok (out ++ listing mmapped (suc fuel) k))
            (sym (==→eq n m same))
            (one_level mmapped m fuel nested.0
              (λ i j within row d t.
                inode_check_9-listing mmapped ns (entry_in mmapped m i j).inum fuel t nested.2
                  (nested.1 i j within row d) (omega arith))
              out)
    ]
