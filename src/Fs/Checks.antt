-- ===== src/Fs/Checks.antt =====
-- The checks of filesystems-checker/xchecker.c that go over all inodes. A check that calls `exit(1)`
-- returns `err`; lines printed only for debugging are left out, except in `bitmap_check_5`, which
-- does nothing but print. `overrun` is a read behind the 128 entries of `indirect`.
pub mod Used
pub mod Inodes
pub mod Distinct
pub mod Addresses
pub mod Cleared
use ostep_projects_finish.Common.{
  ℕ, zero, suc, ◌+◌, ◌-◌, ◌*◌, ◌/◌, ◌%◌, ◌^◌, Bool, true, false, not, ◌&&◌, ◌||◌, some, List, [],
  ◌∷◌, ◌++◌, ◌==◌, ltb, leb, if◌then◌else◌,
}
use Prim.Native.Nat.{bit_xor}
use ostep_projects_finish.Common.Loop.{Result, ok, err, ◌>>=◌, for_loop}
use ostep_projects_finish.Fs.Disk.{
  Disk, Block, bsize, ndirect, nindirect, fssize, u32, Superblock, Dinode, Dirent, rsect,
  read_superblock, rinode, dirent_at, is_dot, is_dot_dot,
}
use ostep_projects_finish.Fs.Bitmap.{bitmap_exist, bitmap_delete}

-- What a check says before it exits. The numbers are the inode and the position among its blocks.
pub data Error : Type 0 where
  bad_type : ℕ → Error
  bad_direct : ℕ → ℕ → Error
  bad_indirect : ℕ → ℕ → Error
  no_root : Error
  not_formatted : Error
  marked_in_use : Error
  direct_twice : Error
  indirect_twice : Error
  overrun : Error

abbrev pub Check : Type 0 → Type 0
Check = Result Error

-- `for(int i = 1; i <= sb->ninodes; i++)` with `rinode` in front of its body.
pub each_inode {ℓ} : {S : Type ℓ} → Disk → (ℕ → Dinode → S → Result Error S) → S → Result Error S
each_inode mmapped body s =
    let sb = read_superblock mmapped in
    for_loop sb.ninodes 1 (λ i. body i (rinode mmapped i (some sb))) s

-- The number of blocks of a file, as each check computes it.
unfoldable pub block_num : ℕ → ℕ
block_num size = if size % bsize == 0 then size / bsize else size / bsize + 1

-- Entry `j` of the array `indirect`.
pub indirect_at : Block → ℕ → Result Error ℕ
indirect_at indirect j = if ltb j nindirect then ok (u32 indirect (4 * j)) else err overrun

-- The loops over the block addresses of one inode: up to 12 direct ones, or all 13 entries of
-- `addrs` and then those in the block that the last entry names.
pub each_block {ℓ} :
    {S : Type ℓ}
    → Disk
    → Dinode
    → (ℕ → ℕ → S → Result Error S)
    → (ℕ → ℕ → S → Result Error S)
    → S
    → Result Error S
each_block mmapped ip direct indirect s =
    if leb (block_num ip.size) ndirect
    then for_loop (block_num ip.size) 0 (λ j. direct j (ip.addrs j)) s
    else (for_loop (ndirect + 1) 0 (λ j. direct j (ip.addrs j)) s
        >>= for_loop (block_num ip.size - ndirect) 0
            (λ j t. indirect_at (rsect mmapped (ip.addrs ndirect)) j >>= λ a. indirect j a t))

abbrev pub is_known_type : ℕ → Bool
is_known_type type = type == 0 || (type == 1 || (type == 2 || type == 3))

unfoldable pub inode_detect_1 : Disk → Check (Unit {0})
unfolding each_inode for_loop
inode_detect_1 mmapped =
    each_inode mmapped (λ i ip s. if is_known_type ip.type then ok s else err (bad_type i)) tt

-- `FSSIZE - sb->nblocks` is an unsigned difference.
abbrev pub is_data_block : Superblock → ℕ → Bool
is_data_block sb a = ltb a fssize && leb ((fssize + 2 ^ 32 - sb.nblocks) % 2 ^ 32) a

unfoldable pub check_inode_2 : Disk → Superblock → ℕ → Dinode → Unit {0} → Check (Unit {0})
unfolding each_block block_num indirect_at
check_inode_2 mmapped sb i ip s =
    if ip.size == 0
    then ok s
    else each_block mmapped ip (λ j a t. if is_data_block sb a then ok t else err (bad_direct i j))
        (λ j a t. if is_data_block sb a then ok t else err (bad_indirect i (j + ndirect))) s

unfoldable pub inodeaddr_detect_2 : Disk → Check (Unit {0})
unfolding each_inode check_inode_2
inodeaddr_detect_2 mmapped = each_inode mmapped (check_inode_2 mmapped (read_superblock mmapped)) tt

unfoldable pub root_check_3 : Disk → Check (Unit {0})
root_check_3 mmapped =
    let sb = read_superblock mmapped in
    let ip = rinode mmapped 1 (some sb) in
    let direct = dirent_at (rsect mmapped (ip.addrs 0)) 1 in
    if direct.inum == 1 then ok tt else err no_root

unfoldable pub check_inode_4 : Disk → ℕ → Dinode → Unit {0} → Check (Unit {0})
check_inode_4 mmapped i ip s =
    let buf = rsect mmapped (ip.addrs 0) in
    let direct = dirent_at buf 0 in
    let father_direct = dirent_at buf 1 in
    if ip.type == 1
    then (if is_dot direct.name && (is_dot_dot father_direct.name && direct.inum == i)
        then ok s
        else err not_formatted)
    else ok s

unfoldable pub directory_check_4 : Disk → Check (Unit {0})
unfolding each_inode check_inode_4
directory_check_4 mmapped = each_inode mmapped (check_inode_4 mmapped) tt

-- What `bitmap_check_5` prints for an address.
pub data Line : Type 0 where
  daddr : ℕ → ℕ → Line
  iaddr : ℕ → ℕ → Line
  marked_free : Line

abbrev pub report : (ℕ → ℕ → Line) → Block → ℕ → List Line → List Line
report line buf a out =
    out ++ ((if bitmap_exist a buf == 0 then marked_free else line a (bitmap_exist a buf)) ∷ [])

-- Inodes in use that have a block: `type` and `size` are not 0.
abbrev pub skip_unused {ℓ} : {S : Type ℓ} → Dinode → S → Result Error S → Result Error S
skip_unused ip s r = if ip.type == 0 then ok s else if ip.size == 0 then ok s else r

unfoldable pub bitmap_check_5 : Disk → Check (List Line)
unfolding each_inode each_block
bitmap_check_5 mmapped =
    let buf = rsect mmapped (read_superblock mmapped).bmapstart in
    each_inode mmapped
      (λ i ip s. skip_unused ip s (
        each_block mmapped ip (λ j a t. ok (report daddr buf a t))
          (λ j a t. ok (report iaddr buf a t)) s))
      []

-- The bitmap once the bits of all used blocks are deleted.
unfoldable pub cleared_bitmap : Disk → Check Block
unfolding each_inode each_block
cleared_bitmap mmapped =
    each_inode mmapped
      (λ i ip s. skip_unused ip s (
        each_block mmapped ip (λ j a t. ok (bitmap_delete a t)) (λ j a t. ok (bitmap_delete a t))
          s))
      (rsect mmapped (read_superblock mmapped).bmapstart)

unfoldable pub bitmap_check_6 : Disk → Check (Unit {0})
unfolding cleared_bitmap
bitmap_check_6 mmapped = cleared_bitmap mmapped >>= λ buf.
    let start_block = (read_superblock mmapped).bmapstart + 1 in
    let startblock_index = start_block / 8 in
    if bit_xor (buf startblock_index) (2 ^ (start_block % 8) - 1) == 0
    then for_loop (bsize - (startblock_index + 1)) (startblock_index + 1)
        (λ i s. if buf i == 0 then ok s else err marked_in_use) tt
    else err marked_in_use

-- `address_count`, which has `FSSIZE` entries, as a function.
abbrev pub Counts : Type 0
Counts = ℕ → ℕ

abbrev pub add_count : ℕ → ℕ → Counts → Counts
add_count a w count b = if b == a then count b + w else count b

-- An address from `FSSIZE` on is behind the array, which the code does not test: `overrun`.
-- The error that is printed when an address was counted before. For an indirect address the code
-- looks at the count of `ip->addrs[j]`.
abbrev pub twice : ℕ → Error
twice n = if n == 1 then direct_twice else indirect_twice

unfoldable pub count_address : ℕ → ℕ → ℕ → Counts → Check Counts
count_address looked_at w a count =
    if ltb a fssize
    then (if ltb 0 (count a) then err (twice (count looked_at)) else ok (add_count a w count))
    else err overrun

unfoldable pub count_inode : Disk → ℕ → Dinode → Counts → Check Counts
unfolding each_block count_address
count_inode mmapped i ip s =
    skip_unused ip s
      (each_block mmapped ip (λ j a. count_address a 1 a) (λ j a. count_address (ip.addrs j) 2 a) s)

unfoldable pub address_check_7_8 : Disk → Check Counts
unfolding each_inode count_inode
address_check_7_8 mmapped = each_inode mmapped (count_inode mmapped) (λ a. 0)
