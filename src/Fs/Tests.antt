-- ===== src/Fs/Tests.antt =====
-- Runs of the theorems about the file-system checker on a small image.
use ostep_projects_finish.Common.{
  ℕ, zero, suc, ◌≤◌, ◌<◌, ◌≡◌, ◌≢◌, ◌↔◌, refl, true, List, [], ◌∷◌, ◌==◌, if◌then◌else◌, arith,
}
use ostep_projects_finish.Common.Loop.{ok, err}
use ostep_projects_finish.Fs.Disk.{
  Disk, bsize, read_superblock, rinode, superblock_of, dinode_at, superblock_or, rsect, dirent_at,
}
use ostep_projects_finish.Fs.Bitmap.{bitmap_exist, bitmap_delete}
use ostep_projects_finish.Fs.Bitmap.Laws.{bitmap_exist-bitmap_delete}
use ostep_projects_finish.Fs.Checks.{
  block_num, is_known_type, inode_detect_1, inodeaddr_detect_2, directory_check_4,
  address_check_7_8,
}
use ostep_projects_finish.Fs.Checks.Used.{indirect_count}
use ostep_projects_finish.Fs.Checks.Inodes.{
  EachInode, inode, IsFormatted, HasEntries, AllDataBlocks, inode_detect_1_iff,
  inodeaddr_detect_2_iff, directory_check_4_iff,
}
use ostep_projects_finish.Fs.Checks.Distinct.{IsDistinct}
use ostep_projects_finish.Fs.Checks.Addresses.{
  AllCounted, HasRoom, IsOk, all_addresses, address_check_7_8_iff,
}
use ostep_projects_finish.Common.{
  ◌++◌, passes, Bool-cases, inl, inr, All, subst, sym, ◌+◌, ◌*◌, ◌%◌, ◌^◌,
}
use ostep_projects_finish.Common.Loop.{for_loop}
use ostep_projects_finish.Fs.Bitmap.Laws.{IsBytes}
use ostep_projects_finish.Fs.Checks.{bitmap_check_6, cleared_bitmap}
use ostep_projects_finish.Fs.Checks.Distinct.{member}
use ostep_projects_finish.Fs.Checks.Cleared.{bitmap_check_6-used}
use ostep_projects_finish.Fs.Walk.{out_of_fuel, inode_check_9}
use ostep_projects_finish.Fs.Walk.Nested.{
  IsNested, inode_of, entry_in, is_directory, listing, inode_check_9-listing,
}
use mathlib.Core.Bool.{Bool, false, false≢true}
use ostep_projects_finish.Common.{length, passes_at}
use ostep_projects_finish.Fs.Walk.Cycle.{HasDot, inode_check_9-cycle}

abbrev bytes_at : List (ℕ × ℕ) → ℕ → ℕ
bytes_at [] a = 0
bytes_at ((b, x) ∷ bs) a = let rest = bytes_at bs a in if a == b then x else rest

-- 1000 blocks, two inodes in block 2; both are directories of one block, 100 and 101, that begin with
-- an entry `.` of their own number and go on with `..`.
abbrev image : Disk
image = bytes_at (
    (520, 2)
    ∷ (532, 2)
    ∷ (1088, 1)
    ∷ (1096, 32)
    ∷ (1100, 100)
    ∷ (1152, 1)
    ∷ (1160, 32)
    ∷ (1164, 101)
    ∷ (51200, 1)
    ∷ (51202, 46)
    ∷ (51216, 1)
    ∷ (51218, 46)
    ∷ (51219, 46)
    ∷ (51712, 2)
    ∷ (51714, 46)
    ∷ (51728, 1)
    ∷ (51730, 46)
    ∷ (51731, 46)
    ∷ [])

bitmap_exist-bitmap_delete_example :
    bitmap_exist 11 (bitmap_delete 10 (λ i. 12))
    ≡ (if 10 == 11 then 0 else bitmap_exist 11 (λ i. 12))
bitmap_exist-bitmap_delete_example =
    bitmap_exist-bitmap_delete 10 11 (λ i. 12) (omega arith) (omega arith) (omega arith)

known_types :
    (inode_detect_1 image ≡ ok tt) ↔ EachInode image (λ i ip. is_known_type ip.type ≡ true)
known_types = inode_detect_1_iff image

directory_check_4_iff_example :
    (directory_check_4 image ≡ ok tt)
    ↔ EachInode image (λ i ip. ip.type ≡ 1 → IsFormatted image i ip)
directory_check_4_iff_example = directory_check_4_iff image

two_inodes : (read_superblock image).ninodes ≡ 2
unfolding read_superblock superblock_of rsect
two_inodes = refl

small : (i : ℕ) → 1 ≤ i → i < 3 → indirect_count (inode image i) ≡ 0
unfolding rinode read_superblock superblock_of superblock_or dinode_at rsect block_num
small zero lo hi = absurd (omega arith)
small (suc zero) lo hi = refl
small (suc (suc zero)) lo hi = refl
small (suc (suc (suc i))) lo hi = absurd (omega arith)

image-HasRoom : EachInode image HasRoom
image-HasRoom i lo hi t s = omega (arith, small i lo (omega (arith, two_inodes)))

few_blocks : (read_superblock image).nblocks ≤ 1000
unfolding read_superblock superblock_of rsect
few_blocks = omega arith

image-HasEntries : EachInode image HasEntries
image-HasEntries i lo hi some_size = omega (arith, small i lo (omega (arith, two_inodes)))

inodeaddr_detect_2_iff_example :
    (inodeaddr_detect_2 image ≡ ok tt)
    ↔ EachInode image (λ i ip. ip.size ≢ 0 → AllDataBlocks image ip)
inodeaddr_detect_2_iff_example = inodeaddr_detect_2_iff image few_blocks image-HasEntries

image_addresses : all_addresses image ≡ 100 ∷ 101 ∷ []
unfolding rinode read_superblock superblock_of superblock_or dinode_at rsect block_num
image_addresses = refl

image-AllCounted : AllCounted (all_addresses image)
image-AllCounted = subst AllCounted (sym image_addresses) (omega arith, (omega arith, tt))

address_check_7_8_iff_example : IsOk (address_check_7_8 image) ↔ IsDistinct (all_addresses image)
address_check_7_8_iff_example = address_check_7_8_iff image image-HasRoom image-AllCounted

image_dot : HasDot image 2 (inode image 2)
unfolding rinode read_superblock superblock_of superblock_or dinode_at rsect dirent_at block_num
image_dot = record {
  number = refl;
  not_root = omega arith;
  is_directory = refl;
  not_empty = omega arith;
  dot = refl;
}

inode_check_9-cycle_example : inode_check_9 5 image 2 [] ≡ err out_of_fuel
inode_check_9-cycle_example = inode_check_9-cycle image 2 (inode image 2) image_dot 5 []

-- The same image with a bitmap in block 3, which marks the blocks 0 to 3, 100 and 101.
abbrev marks : List (ℕ × ℕ)
marks =
    (536, 3)
    ∷ (1536, 15)
    ∷ (1548, 48)
    ∷ (520, 2)
    ∷ (532, 2)
    ∷ (1088, 1)
    ∷ (1096, 32)
    ∷ (1100, 100)
    ∷ (1152, 1)
    ∷ (1160, 32)
    ∷ (1164, 101)
    ∷ []

abbrev marked_image : Disk
marked_image = bytes_at marks

bytes_at_below : (bs : List (ℕ × ℕ)) (a : ℕ) → All (λ b. b.1 < 256) bs → bytes_at bs a < 256
bytes_at_below [] a h = omega arith
bytes_at_below ((b, x) ∷ bs) a h = elim (Bool-cases (a == b)) [
  | inl e ↦ rw e h.0
  | inr e ↦ rw e (bytes_at_below bs a h.1)
]

marked_superblock : (read_superblock marked_image).bmapstart ≡ 3
unfolding read_superblock superblock_of superblock_or rsect
marked_superblock = refl

marked_addresses : all_addresses marked_image ≡ 100 ∷ 101 ∷ []
unfolding rinode read_superblock superblock_of superblock_or dinode_at rsect block_num
marked_addresses = refl

marked_check : bitmap_check_6 marked_image ≡ ok tt
unfolding rinode read_superblock superblock_of superblock_or dinode_at rsect block_num
    bitmap_check_6 cleared_bitmap for_loop bitmap_delete
marked_check = refl

marked_below : All (λ x. x < 4096) (all_addresses marked_image)
marked_below = subst (All (λ x. x < 4096)) (sym marked_addresses) (omega arith, (omega arith, tt))

block_marked : bitmap_exist 100 (rsect marked_image (read_superblock marked_image).bmapstart) ≢ 0
unfolding bitmap_exist rsect read_superblock superblock_of superblock_or
block_marked = omega arith

marked_two : (read_superblock marked_image).ninodes ≡ 2
unfolding read_superblock superblock_of superblock_or rsect
marked_two = refl

marked_small : (i : ℕ) → 1 ≤ i → i < 3 → indirect_count (inode marked_image i) ≡ 0
unfolding rinode read_superblock superblock_of superblock_or dinode_at rsect block_num
marked_small zero lo hi = absurd (omega arith)
marked_small (suc zero) lo hi = refl
marked_small (suc (suc zero)) lo hi = refl
marked_small (suc (suc (suc i))) lo hi = absurd (omega arith)

marked-HasRoom : EachInode marked_image HasRoom
marked-HasRoom i lo hi t s = omega (arith, marked_small i lo (omega (arith, marked_two)))

marked-IsBytes : IsBytes (rsect marked_image (read_superblock marked_image).bmapstart)
unfolding rsect
marked-IsBytes i =
    bytes_at_below marks (bsize * (read_superblock marked_image).bmapstart % 2 ^ 32 + i) (
      omega arith,
      (
        omega arith,
        (
          omega arith,
          (
            omega arith,
            (
              omega arith,
              (
                omega arith,
                (omega arith, (omega arith, (omega arith, (omega arith, (omega arith, tt))))),
              ),
            ),
          ),
        ),
      ),
    )

bitmap_check_6-used_example : member 100 (all_addresses marked_image) ≡ true
bitmap_check_6-used_example =
    bitmap_check_6-used marked_image 100 marked-HasRoom marked_below marked-IsBytes marked_check
      (omega (arith, marked_superblock)) (omega arith) block_marked

-- The root with an entry for the directory 2, and in that one an entry for the file 3, both one block
-- large and without ".".
abbrev nested_image : Disk
nested_image = bytes_at (
    (520, 3)
    ∷ (532, 2)
    ∷ (1088, 1)
    ∷ (1096, 32)
    ∷ (1100, 100)
    ∷ (1152, 1)
    ∷ (1160, 16)
    ∷ (1164, 101)
    ∷ (1216, 2)
    ∷ (51200, 1)
    ∷ (51202, 46)
    ∷ (51216, 2)
    ∷ (51218, 97)
    ∷ (51712, 3)
    ∷ (51714, 98)
    ∷ [])

if_true : (b c : Bool) → (if b then c else true) ≡ true → b ≡ true → c ≡ true
if_true true c h e = h
if_true false c h e = absurd (false≢true e)

-- Whether the directories among the entries of directory `n` are members of `ns`.
abbrev entry_test : Disk → ℕ → List ℕ → ℕ → ℕ → Bool
entry_test mmapped n ns i j =
    if is_directory mmapped (entry_in mmapped n i j).inum
    then member (entry_in mmapped n i j).inum ns
    else true

all_members :
    (mmapped : Disk) (n : ℕ) (ns : List ℕ) (blocks : ℕ)
    → passes (λ i. passes (entry_test mmapped n ns i) 32) blocks ≡ true
    → (i j : ℕ) → i < blocks
    → j < 32
    → is_directory mmapped (entry_in mmapped n i j).inum ≡ true
    → member (entry_in mmapped n i j).inum ns ≡ true
all_members mmapped n ns blocks h i j below row d =
    if_true (is_directory mmapped (entry_in mmapped n i j).inum)
      (member (entry_in mmapped n i j).inum ns)
      (passes_at (entry_test mmapped n ns i) 32 j row
        (passes_at (λ k. passes (entry_test mmapped n ns k) 32) blocks i below h))
      d

nested : IsNested nested_image (1 ∷ 2 ∷ [])
unfolding rinode read_superblock superblock_of superblock_or dinode_at rsect dirent_at block_num
    passes
nested = (
  omega arith,
  all_members nested_image 1 (2 ∷ []) (block_num (inode_of nested_image 1).size) refl,
  (omega arith, all_members nested_image 2 [] (block_num (inode_of nested_image 2).size) refl, tt),
)

inode_check_9-listing_example :
    inode_check_9 2 nested_image 1 [] ≡ ok ([] ++ listing nested_image 2 1)
inode_check_9-listing_example =
    inode_check_9-listing nested_image (1 ∷ 2 ∷ []) 1 2 [] nested refl (omega arith)

-- The only file is the entry `b` of the directory 2.
one_file : length (listing nested_image 2 1) ≡ 1
unfolding listing rinode read_superblock superblock_of superblock_or dinode_at rsect dirent_at
    block_num
one_file = refl
