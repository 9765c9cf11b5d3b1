-- ===== src/Fs/Checks/Inodes.antt =====
-- What an image has to satisfy for the checks 1 to 4.
use ostep_projects_finish.Common.{
  ℕ, ◌+◌, ◌≤◌, ◌<◌, ◌≡◌, ◌≢◌, refl, ◌↔◌, inl, inr, Bool, true, false, ◌&&◌, some, ◌==◌, ==→eq,
  ==→ne, eq→==, ltb, leb, ltb→lt, lt→ltb, leb→le, arith, ◌-◌, ◌*◌, ◌%◌, ◌^◌, if◌then◌else◌,
  Bool-cases,
}
use ostep_projects_finish.Common.Loop.{Result, ok, err, for_loop-ok_iff}
use ostep_projects_finish.Fs.Disk.{
  Disk, Superblock, Dinode, rsect, read_superblock, rinode, dirent_at, is_dot, is_dot_dot, ndirect,
  nindirect, fssize, u32,
}
use ostep_projects_finish.Fs.Checks.{
  Error, bad_type, bad_direct, bad_indirect, is_known_type, each_inode, inode_detect_1,
  is_data_block, check_inode_2, inodeaddr_detect_2, check_inode_4, directory_check_4, each_block,
}
use ostep_projects_finish.Fs.Checks.Used.{EachBlock, each_block_iff, direct_count, indirect_count}

-- Inode `i` of the image, as the checks read it.
abbrev pub inode : Disk → ℕ → Dinode
inode mmapped i = rinode mmapped i (some (read_superblock mmapped))

-- Every inode of the image, from number 1 on.
abbrev pub EachInode : Disk → (ℕ → Dinode → Type 0) → Type 0
EachInode mmapped P =
    (i : ℕ) → 1 ≤ i → i < 1 + (read_superblock mmapped).ninodes → P i (inode mmapped i)

each_inode_iff :
    (mmapped : Disk) (body : ℕ → Dinode → Unit {0} → Result Error (Unit {0}))
    (P : ℕ → Dinode → Type 0)
    → ((i : ℕ) (ip : Dinode) → (body i ip tt ≡ ok tt) ↔ P i ip)
    → (each_inode mmapped body tt ≡ ok tt) ↔ EachInode mmapped P
unfolding each_inode
each_inode_iff mmapped body P h =
    for_loop-ok_iff (λ i. P i (inode mmapped i)) _ (λ i. h i (inode mmapped i))
      (read_superblock mmapped).ninodes 1

-- A body that goes on where a test holds.
pub test_iff :
    (b : Bool) (e : Error) → ((if b then ok (tt {0}) else err e) ≡ ok (tt {0})) ↔ (b ≡ true)
test_iff true e = (λ q. refl, λ q. refl)
test_iff false e = (λ q. cc, λ q. cc)

-- `inode_detect_1` passes exactly when every inode 1 .. ninodes has type 0, 1, 2 or 3.
pub inode_detect_1_iff :
    (mmapped : Disk)
    → (inode_detect_1 mmapped ≡ ok tt) ↔ EachInode mmapped (λ i ip. is_known_type ip.type ≡ true)
unfolding inode_detect_1
inode_detect_1_iff mmapped =
    each_inode_iff mmapped (λ i ip s. if is_known_type ip.type then ok s else err (bad_type i)) _
      (λ i ip. test_iff (is_known_type ip.type) (bad_type i))

-- A directory whose first two entries are `.`, with its own number, and `..`.
abbrev pub IsFormatted : Disk → ℕ → Dinode → Type 0
IsFormatted mmapped i ip =
    let buf = rsect mmapped (ip.addrs 0) in
    (is_dot (dirent_at buf 0).name ≡ true)
    × (is_dot_dot (dirent_at buf 1).name ≡ true)
    × ((dirent_at buf 0).inum ≡ i)

pair_iff : (a b : Bool) → ((a && b) ≡ true) ↔ ((a ≡ true) × (b ≡ true))
pair_iff true b = (λ q. (refl, q), λ q. q.1)
pair_iff false b = (λ q. cc, λ q. cc (q.0))

and_iff :
    (a b : Bool) (m n : ℕ) → ((a && (b && m == n)) ≡ true) ↔ ((a ≡ true) × (b ≡ true) × (m ≡ n))
and_iff true true m n = (λ q. (refl, refl, ==→eq m n q), λ q. eq→== m n q.2)
and_iff true false m n = (λ q. cc, λ q. cc (q.1))
and_iff false b m n = (λ q. cc, λ q. cc (q.0))

check_inode_4_iff :
    (mmapped : Disk) (i : ℕ) (ip : Dinode)
    → (check_inode_4 mmapped i ip tt ≡ ok tt) ↔ (ip.type ≡ 1 → IsFormatted mmapped i ip)
unfolding check_inode_4
check_inode_4_iff mmapped i ip = elim (Bool-cases (ip.type == 1)) [
  | inl e ↦
      let both =
        and_iff (is_dot (dirent_at buf 0).name) (is_dot_dot (dirent_at buf 1).name)
          (dirent_at buf 0).inum i in
      rw e
        (λ q p. both.0 ((test_iff _ _).0 q), λ h. (test_iff _ _).1 (both.1 (h (==→eq ip.type 1 e))))
  | inr e ↦ rw e (λ q p. absurd (==→ne ip.type 1 e p), λ h. refl)
]
  where
    buf : ℕ → ℕ
    buf = rsect mmapped (ip.addrs 0)

-- `directory_check_4` passes exactly when the first block of every directory among the inodes
-- 1 .. ninodes begins with an entry `.` that has the directory's number and an entry `..`.
pub directory_check_4_iff :
    (mmapped : Disk)
    → (directory_check_4 mmapped ≡ ok tt)
      ↔ EachInode mmapped (λ i ip. ip.type ≡ 1 → IsFormatted mmapped i ip)
unfolding directory_check_4
directory_check_4_iff mmapped =
    each_inode_iff mmapped (check_inode_4 mmapped) _ (check_inode_4_iff mmapped)

check_inode_2_iff :
    (mmapped : Disk) (sb : Superblock) (i : ℕ) (ip : Dinode)
    → (check_inode_2 mmapped sb i ip tt ≡ ok tt)
      ↔ (ip.size ≢ 0 → EachBlock mmapped ip (λ a. is_data_block sb a ≡ true))
unfolding check_inode_2
check_inode_2_iff mmapped sb i ip = elim (Bool-cases (ip.size == 0)) [
  | inl e ↦ rw e (λ q p. absurd (p (==→eq ip.size 0 e)), λ h. refl)
  | inr e ↦ rw e (λ q p. blocks.0 q, λ h. blocks.1 (h (==→ne ip.size 0 e)))
]
  where
    blocks :
        (each_block mmapped ip
            (λ j a t. if is_data_block sb a then ok t else err (bad_direct i j))
            (λ j a t. if is_data_block sb a then ok t else err (bad_indirect i (j + ndirect)))
            (tt {0})
          ≡ ok (tt {0}))
        ↔ EachBlock mmapped ip (λ a. is_data_block sb a ≡ true)
    blocks =
        each_block_iff mmapped ip (λ a. is_data_block sb a ≡ true)
          (λ j a t. if is_data_block sb a then ok t else err (bad_direct i j))
          (λ j a t. if is_data_block sb a then ok t else err (bad_indirect i (j + ndirect)))
          (λ j a. test_iff (is_data_block sb a) (bad_direct i j))
          (λ j a. test_iff (is_data_block sb a) (bad_indirect i (j + ndirect)))

-- The image ends with its data blocks, `nblocks` of them, and `a` is the address of one.
abbrev pub IsDataBlock : Superblock → ℕ → Type 0
IsDataBlock sb a = (a < fssize) × (fssize ≤ a + sb.nblocks)

le→leb : (a b : ℕ) → a ≤ b → leb a b ≡ true
le→leb a b h = ground arith

wrapped : (n : ℕ) → n ≤ fssize → (fssize + 2 ^ 32 - n) % 2 ^ 32 ≡ fssize - n
wrapped n h = omega arith

is_data_block_iff :
    (sb : Superblock) (a : ℕ) → sb.nblocks ≤ fssize → (is_data_block sb a ≡ true) ↔ IsDataBlock sb a
is_data_block_iff sb a h = (
  λ q.
      let (low, high) = both.0 q in
      (ltb→lt a fssize low, omega (arith, leb→le _ a high, wrapped sb.nblocks h)),
  λ q. both.1 (lt→ltb a fssize q.0, le→leb _ a (omega (arith, wrapped sb.nblocks h))),
)
  where
    both :
        (is_data_block sb a ≡ true)
        ↔ ((ltb a fssize ≡ true) × (leb ((fssize + 2 ^ 32 - sb.nblocks) % 2 ^ 32) a ≡ true))
    both = pair_iff (ltb a fssize) (leb ((fssize + 2 ^ 32 - sb.nblocks) % 2 ^ 32) a)

-- No block of the inode is behind the entries of its indirect block.
abbrev pub HasEntries : ℕ → Dinode → Type 0
HasEntries i ip = ip.size ≢ 0 → indirect_count ip ≤ nindirect

-- The addresses of the blocks that the size of the inode makes up, and that of the indirect block, are
-- those of data blocks.
pub record AllDataBlocks (mmapped : Disk) (ip : Dinode) : Type 0 where
  pub direct : (j : ℕ) → j < direct_count ip → IsDataBlock (read_superblock mmapped) (ip.addrs j)
  pub indirect :
      (j : ℕ)
      → j < indirect_count ip
      → IsDataBlock (read_superblock mmapped) (u32 (rsect mmapped (ip.addrs ndirect)) (4 * j))

EachBlock_iff :
    (mmapped : Disk) (ip : Dinode)
    → (read_superblock mmapped).nblocks ≤ fssize
    → indirect_count ip ≤ nindirect
    → EachBlock mmapped ip (λ a. is_data_block (read_superblock mmapped) a ≡ true)
      ↔ AllDataBlocks mmapped ip
EachBlock_iff mmapped ip few room = (
  λ u. record {
    direct = λ j h. (same (ip.addrs j)).0 (u.direct j h);
    indirect = λ j h. (same (u32 (rsect mmapped (ip.addrs ndirect)) (4 * j))).0 (u.indirect j h).1;
  },
  λ u. record {
    direct = λ j h. (same (ip.addrs j)).1 (u.direct j h);
    indirect = λ j h.
        (omega arith, (same (u32 (rsect mmapped (ip.addrs ndirect)) (4 * j))).1 (u.indirect j h));
  },
)
  where
    same :
        (a : ℕ)
        → (is_data_block (read_superblock mmapped) a ≡ true)
          ↔ IsDataBlock (read_superblock mmapped) a
    same a = is_data_block_iff (read_superblock mmapped) a few

-- On an image with at most 1000 data blocks in which no inode of a size other than 0 has more than 140
-- blocks, `inodeaddr_detect_2` passes exactly when every inode 1 .. ninodes of a size other than 0 has
-- only addresses of data blocks, the last `nblocks` of the 1000 of the image, for the blocks that its
-- size makes up and, if these are more than 12, for its indirect block.
pub inodeaddr_detect_2_iff :
    (mmapped : Disk)
    → (read_superblock mmapped).nblocks ≤ fssize
    → EachInode mmapped HasEntries
    → (inodeaddr_detect_2 mmapped ≡ ok tt)
      ↔ EachInode mmapped (λ i ip. ip.size ≢ 0 → AllDataBlocks mmapped ip)
unfolding inodeaddr_detect_2
inodeaddr_detect_2_iff mmapped few room = (
  λ q i lo hi some_size.
      (EachBlock_iff mmapped (inode mmapped i) few (room i lo hi some_size)).0
        (passes.0 q i lo hi some_size),
  λ u. passes.1 (λ i lo hi some_size.
      (EachBlock_iff mmapped (inode mmapped i) few (room i lo hi some_size)).1
        (u i lo hi some_size)),
)
  where
    passes :
        (inodeaddr_detect_2 mmapped ≡ ok tt)
        ↔ EachInode mmapped (λ i ip.
          ip.size ≢ 0
          → EachBlock mmapped ip (λ a. is_data_block (read_superblock mmapped) a ≡ true))
    passes =
        each_inode_iff mmapped (check_inode_2 mmapped (read_superblock mmapped)) _
          (check_inode_2_iff mmapped (read_superblock mmapped))
