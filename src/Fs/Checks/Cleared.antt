-- ===== src/Fs/Checks/Cleared.antt =====
-- Check 6 of filesystems-checker/xchecker.c: what is left of the bitmap when the used blocks are deleted.
use ostep_projects_finish.Common.{
  ℕ, zero, suc, ◌+◌, ◌-◌, ◌*◌, ◌/◌, ◌%◌, ◌^◌, ◌≤◌, ◌<◌, ◌≡◌, ◌≢◌, refl, sym, ap, ◌∙◌, List, [], ◌∷◌,
  ◌++◌, append-nil, arith, All, ◌==◌, leb, leb→le, lt→ltb, if◌then◌else◌, Bool, Bool-cases, ==→ne,
  ==→eq, eq→==, ne→==, inl, inr, true, false,
}
use ostep_projects_finish.Common.Loop.{
  Result, ok, err, ◌>>=◌, for_loop, for_loop-ok, for_loop-ok_iff,
}
use ostep_projects_finish.Fs.Disk.{
  bsize, Disk, Block, Dinode, rsect, u32, read_superblock, ndirect, nindirect,
}
use ostep_projects_finish.Fs.Bitmap.{bitmap_exist, bitmap_delete}
use ostep_projects_finish.Fs.Bitmap.Laws.{
  IsBytes, bitmap_delete-IsBytes, bitmap_exist-bitmap_delete, bitmap_exist_lem,
}
use Prim.Native.Nat.{bit_xor}
use native.Mathlib.Nat.{zero-div}
use ostep_projects_finish.Fs.Checks.{
  Error, block_num, indirect_at, each_block, each_inode, skip_unused, cleared_bitmap,
  bitmap_check_6, marked_in_use,
}
use ostep_projects_finish.Fs.Checks.Used.{direct_count, indirect_count}
use ostep_projects_finish.Fs.Checks.Distinct.{member}
use ostep_projects_finish.Fs.Checks.Inodes.{inode, EachInode, test_iff}
use ostep_projects_finish.Fs.Checks.Addresses.{gather, used_addresses, all_addresses, HasRoom}

-- A bitmap without the bits of some addresses.
abbrev pub delete_all : List ℕ → Block → Block
delete_all [] b = b
delete_all (a ∷ xs) b = delete_all xs (bitmap_delete a b)

delete_all-append :
    (xs ys : List ℕ) (b : Block) → delete_all (xs ++ ys) b ≡ delete_all ys (delete_all xs b)
delete_all-append [] ys b = refl
delete_all-append (a ∷ xs) ys b = delete_all-append xs ys (bitmap_delete a b)

-- A part of the check that deletes the addresses `xs`.
abbrev Deletes : (Block → Result Error Block) → List ℕ → Type 0
Deletes f xs = (b : Block) → f b ≡ ok (delete_all xs b)

for_loop-Deletes :
    (body : ℕ → Block → Result Error Block) (g : ℕ → List ℕ) (n j : ℕ)
    → ((k : ℕ) → j ≤ k → k < j + n → Deletes (body k) (g k))
    → Deletes (for_loop n j body) (gather g j n)
for_loop-Deletes body g zero j h b = unfold for_loop in refl
for_loop-Deletes body g (suc n) j h b =
    for_loop-ok n j body b (delete_all (g j) b) (h j (omega arith) (omega arith) b)
    ∙ for_loop-Deletes body g n (j + 1) (λ k lo hi. h k (omega arith) (omega arith))
        (delete_all (g j) b)
    ∙ ap ok (sym (delete_all-append (g j) (gather g (j + 1) n) b))

module _ (mmapped : Disk) (ip : Dinode) where
  abbrev table : Block
  table = rsect mmapped (ip.addrs ndirect)

  abbrev delete_indirect : ℕ → Block → Result Error Block
  delete_indirect j t = indirect_at table j >>= λ a. ok (bitmap_delete a t)

  direct_part :
      (n : ℕ)
      → Deletes
          (for_loop n 0 (λ j t. ok (bitmap_delete (ip.addrs j) t)))
          (gather (λ j. ip.addrs j ∷ []) 0 n)
  direct_part n =
      for_loop-Deletes (λ j t. ok (bitmap_delete (ip.addrs j) t)) (λ j. ip.addrs j ∷ []) n 0
        (λ k lo hi b. refl)

  delete_indirect_lem :
      (j : ℕ) (t : Block)
      → j < nindirect
      → delete_indirect j t ≡ ok (bitmap_delete (u32 table (4 * j)) t)
  unfolding indirect_at
  delete_indirect_lem j t h = rw (lt→ltb j nindirect h)

  indirect_part :
      (n : ℕ)
      → n ≤ nindirect
      → Deletes (for_loop n 0 delete_indirect) (gather (λ j. u32 table (4 * j) ∷ []) 0 n)
  indirect_part n h =
      for_loop-Deletes delete_indirect (λ j. u32 table (4 * j) ∷ []) n 0
        (λ k lo hi b. delete_indirect_lem k b (omega arith))

  each_block-Deletes :
      indirect_count ip ≤ nindirect
      → Deletes
          (each_block mmapped ip
            (λ j a t. ok (bitmap_delete a t))
            (λ j a t. ok (bitmap_delete a t)))
          (gather (λ j. ip.addrs j ∷ []) 0 (direct_count ip)
            ++ gather
                (λ j. u32 (rsect mmapped (ip.addrs ndirect)) (4 * j) ∷ [])
                0
                (indirect_count ip))
  unfolding each_block
  each_block-Deletes room b = elim (Bool-cases (leb (block_num ip.size) ndirect)) [
    | inl e ↦
        let none_left : indirect_count ip ≡ 0 =
          omega (arith, leb→le (block_num ip.size) ndirect e) in
        rw (e, none_left, append-nil) (direct_part (block_num ip.size) b)
    | inr e ↦ rw e (
        ap (λ r. r >>= for_loop (indirect_count ip) 0 delete_indirect) (direct_part (ndirect + 1) b)
        ∙ indirect_part (indirect_count ip) room
            (delete_all (gather (λ j. ip.addrs j ∷ []) 0 (ndirect + 1)) b)
        ∙ ap ok (
            sym (
              delete_all-append (gather (λ j. ip.addrs j ∷ []) 0 (ndirect + 1))
                (gather (λ j. u32 table (4 * j) ∷ []) 0 (indirect_count ip)) b)))
  ]

  clear_inode : Block → Result Error Block
  clear_inode s =
      skip_unused ip s (
        each_block mmapped ip (λ j a t. ok (bitmap_delete a t)) (λ j a t. ok (bitmap_delete a t)) s)

  clear_inode-Deletes : (i : ℕ) → HasRoom i ip → Deletes clear_inode (used_addresses mmapped ip)
  unfolding clear_inode
  clear_inode-Deletes i room b = elim (Bool-cases (ip.type == 0)) [
    | inl e ↦ rw e refl
    | inr e ↦ rw e (elim (Bool-cases (ip.size == 0)) [
      | inl f ↦ rw f refl
      | inr f ↦ rw f (each_block-Deletes (room (==→ne ip.type 0 e) (==→ne ip.size 0 f)) b)
    ])
  ]

cleared_bitmap-delete_all :
    (mmapped : Disk)
    → EachInode mmapped HasRoom
    → cleared_bitmap mmapped
      ≡ ok (delete_all (all_addresses mmapped) (rsect mmapped (read_superblock mmapped).bmapstart))
unfolding cleared_bitmap each_inode clear_inode
cleared_bitmap-delete_all mmapped room =
    for_loop-Deletes (λ i. clear_inode mmapped (inode mmapped i))
      (λ i. used_addresses mmapped (inode mmapped i)) (read_superblock mmapped).ninodes 1
      (λ i lo hi. clear_inode-Deletes mmapped (inode mmapped i) i (room i lo hi))
      (rsect mmapped (read_superblock mmapped).bmapstart)

-- The bits that are left are those of the other addresses.
bitmap_exist-delete_all :
    (xs : List ℕ) (bitmap : Block) (a : ℕ)
    → All (λ x. x < 2 ^ 19) xs
    → IsBytes bitmap
    → a < 2 ^ 19
    → bitmap_exist a (delete_all xs bitmap) ≡ (if member a xs then 0 else bitmap_exist a bitmap)
bitmap_exist-delete_all [] bitmap a small bytes h = refl
bitmap_exist-delete_all (x ∷ xs) bitmap a small bytes h =
    bitmap_exist-delete_all xs (bitmap_delete x bitmap) a small.1
      (bitmap_delete-IsBytes x bitmap small.0 bytes) h
    ∙ ap (λ n. if member a xs then 0 else n)
        (bitmap_exist-bitmap_delete x a bitmap small.0 h (bytes (a / 8)))
    ∙ elim (Bool-cases (a == x)) [
      | inl e ↦ rw (e, eq→== x a (sym (==→eq a x e))) (either_zero (member a xs))
      | inr e ↦ rw (e, ne→== x a (λ q. ==→ne a x e (sym q))) refl
    ]
  where
    either_zero : (b : Bool) → ◌≡◌ {A = ℕ} (if b then 0 else 0) 0
    either_zero true = refl
    either_zero false = refl

-- On an image in which no inode in use names more than 128 blocks in its indirect block, all used
-- addresses are below 2 ^ 19 and the bitmap consists of bytes, check 6 goes on with a bitmap in which,
-- of the blocks below 2 ^ 19, exactly those are marked that the image's bitmap marks and no inode uses.
pub cleared_bitmap-bits :
    (mmapped : Disk)
    → EachInode mmapped HasRoom
    → All (λ x. x < 2 ^ 19) (all_addresses mmapped)
    → IsBytes (rsect mmapped (read_superblock mmapped).bmapstart)
    → (buf : Block) × (cleared_bitmap mmapped ≡ ok buf)
      × ((a : ℕ)
          → a < 2 ^ 19
          → bitmap_exist a buf ≡ (
              if member a (all_addresses mmapped)
              then 0
              else bitmap_exist a (rsect mmapped (read_superblock mmapped).bmapstart)))
cleared_bitmap-bits mmapped room small bytes = (
  delete_all (all_addresses mmapped) (rsect mmapped (read_superblock mmapped).bmapstart),
  cleared_bitmap-delete_all mmapped room,
  λ a h.
      bitmap_exist-delete_all (all_addresses mmapped)
        (rsect mmapped (read_superblock mmapped).bmapstart) a small bytes h,
)

-- The end of check 6, on the bitmap that is left.
rest_of_check : Disk → Block → Result Error (Unit {0})
rest_of_check mmapped buf =
    let start_block = (read_superblock mmapped).bmapstart + 1 in
    let startblock_index = start_block / 8 in
    if bit_xor (buf startblock_index) (2 ^ (start_block % 8) - 1) == 0
    then for_loop (bsize - (startblock_index + 1)) (startblock_index + 1)
        (λ i s. if buf i == 0 then ok s else err marked_in_use) tt
    else err marked_in_use

check_rest :
    (mmapped : Disk) (buf : Block)
    → cleared_bitmap mmapped ≡ ok buf
    → bitmap_check_6 mmapped ≡ rest_of_check mmapped buf
unfolding bitmap_check_6 rest_of_check
check_rest mmapped buf e = ap (λ r. r >>= rest_of_check mmapped) e

rest-zero :
    (mmapped : Disk) (buf : Block) (i : ℕ)
    → rest_of_check mmapped buf ≡ ok tt
    → ((read_superblock mmapped).bmapstart + 1) / 8 < i
    → i < bsize
    → buf i ≡ 0
unfolding rest_of_check
rest-zero mmapped buf i passed lo hi =
    elim (Bool-cases (bit_xor (buf first) (2 ^ (start % 8) - 1) == 0)) [
      | inl e ↦ ==→eq (buf i) 0 (
          (for_loop-ok_iff (λ k. (buf k == 0) ≡ true) _ (λ k. test_iff (buf k == 0) marked_in_use)
              (bsize - (first + 1)) (first + 1)).0
            (rw e at passed) i (omega arith) (omega arith))
      | inr e ↦ absurd (err_not_ok (rw e at passed))
    ]
  where
    start : ℕ
    start = (read_superblock mmapped).bmapstart + 1

    first : ℕ
    first = start / 8

    err_not_ok : ¬ (err marked_in_use ≡ ok (tt {0}))
    err_not_ok q = cc

marked-zero : (buf : Block) (a : ℕ) → a < 2 ^ 19 → buf (a / 8) ≡ 0 → bitmap_exist a buf ≡ 0
marked-zero buf a h z =
    bitmap_exist_lem a buf h (omega arith)
    ∙ ap (λ n. n / 2 ^ (a % 8) % 2) z
    ∙ ap (λ n. n % 2) (zero-div (2 ^ (a % 8)))
    ∙ (let q : 0 % 2 ≡ 0 = omega arith in q)

below_wider : (xs : List ℕ) → All (λ x. x < 4096) xs → All (λ x. x < 2 ^ 19) xs
below_wider [] a = tt
below_wider (x ∷ xs) a = (omega (arith, a.0), below_wider xs a.1)

-- On an image in which no inode in use names more than 128 blocks in its indirect block, all used
-- addresses are below 4096, the bits of a block, and the bitmap consists of bytes: if `bitmap_check_6` passes, every block
-- that the bitmap marks behind the byte in which the data blocks begin is used by an inode.
pub bitmap_check_6-used :
    (mmapped : Disk) (a : ℕ)
    → EachInode mmapped HasRoom
    → All (λ x. x < 4096) (all_addresses mmapped)
    → IsBytes (rsect mmapped (read_superblock mmapped).bmapstart)
    → bitmap_check_6 mmapped ≡ ok tt
    → ((read_superblock mmapped).bmapstart + 1) / 8 < a / 8
    → a / 8 < bsize
    → bitmap_exist a (rsect mmapped (read_superblock mmapped).bmapstart) ≢ 0
    → member a (all_addresses mmapped) ≡ true
bitmap_check_6-used mmapped a room small bytes passed lo hi marked =
    let (buf, cleared, bits) =
      cleared_bitmap-bits mmapped room (below_wider (all_addresses mmapped) small) bytes in
    let h : a < 2 ^ 19 = omega arith in
    let zero_byte =
      rest-zero mmapped buf (a / 8) (sym (check_rest mmapped buf cleared) ∙ passed) lo hi in
    elim (Bool-cases (member a (all_addresses mmapped))) [
      | inl e ↦ e
      | inr e ↦ absurd (marked (sym (rw e at (bits a h)) ∙ marked-zero buf a h zero_byte))
    ]
