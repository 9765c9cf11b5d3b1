-- ===== src/Fs/Checks/Addresses.antt =====
-- Check 7 and 8: no address is used twice.
use ostep_projects_finish.Common.{
  ℕ, zero, suc, ◌+◌, ◌*◌, ◌≤◌, ◌<◌, ◌≡◌, ◌≢◌, refl, sym, subst, ◌↔◌, Option, none, some, List, [],
  ◌∷◌, ◌++◌, append-nil, All, arith, ◌==◌, ltb, leb, leb→le, lt→ltb, if◌then◌else◌, Bool-cases,
  ==→ne, inl, inr,
}
use ostep_projects_finish.Common.Loop.{Result, ok, err, ◌>>=◌, for_loop, for_loop-ok, for_loop-err}
use ostep_projects_finish.Fs.Disk.{
  Disk, Block, Dinode, rsect, u32, read_superblock, ndirect, nindirect, fssize,
}
use ostep_projects_finish.Fs.Checks.{
  Error, Counts, add_count, block_num, indirect_at, each_block, each_inode, count_address,
  count_inode, address_check_7_8,
}
use ostep_projects_finish.Fs.Checks.Used.{direct_count, indirect_count}
use ostep_projects_finish.Fs.Checks.Distinct.{
  member, IsDistinct, insert_all, insert_all_new, insert_all_old, insert_all_iff, IsSome, IsNew-nil,
}
use ostep_projects_finish.Fs.Checks.Inodes.{inode, EachInode}

-- The lists that a function gives for `j`, `j + 1`, …, `n` of them, in a row.
abbrev pub gather : (ℕ → List ℕ) → ℕ → ℕ → List ℕ
gather g j zero = []
gather g j (suc n) = g j ++ gather g (j + 1) n

-- The addresses that an inode uses: none if it is free or empty.
abbrev pub used_addresses : Disk → Dinode → List ℕ
used_addresses mmapped ip =
    if ip.type == 0
    then []
    else (if ip.size == 0
        then []
        else (gather (λ j. ip.addrs j ∷ []) 0 (direct_count ip)
            ++ gather (λ j. u32 (rsect mmapped (ip.addrs ndirect)) (4 * j) ∷ []) 0
                (indirect_count ip)))

-- The addresses of all inodes of the image.
abbrev pub all_addresses : Disk → List ℕ
all_addresses mmapped =
    gather (λ i. used_addresses mmapped (inode mmapped i)) 1 (read_superblock mmapped).ninodes

-- The counts are positive at the addresses seen.
abbrev Sees : Counts → List ℕ → Type 0
Sees count seen = (a : ℕ) → ltb 0 (count a) ≡ member a seen

abbrev Agree : Result Error Counts → Option (List ℕ) → Type 0
Agree (ok count) (some seen) = Sees count seen
Agree (err e) none = Unit
Agree (ok count) none = ⊥
Agree (err e) (some seen) = ⊥

-- The addresses have entries in `address_count`.
abbrev pub AllCounted : List ℕ → Type 0
AllCounted xs = All (λ a. a < fssize) xs

-- A computation of the check that goes on as long xs the addresses `xs` are new.
abbrev Inserts : (Counts → Result Error Counts) → List ℕ → Type 0
Inserts f xs =
    (count : Counts) (seen : List ℕ)
    → AllCounted xs
    → Sees count seen
    → Agree (f count) (insert_all seen xs)

front-AllCounted : (xs ys : List ℕ) → AllCounted (xs ++ ys) → AllCounted xs
front-AllCounted [] ys a = tt
front-AllCounted (x ∷ xs) ys a = (a.0, front-AllCounted xs ys a.1)

back-AllCounted : (xs ys : List ℕ) → AllCounted (xs ++ ys) → AllCounted ys
back-AllCounted [] ys a = a
back-AllCounted (x ∷ xs) ys a = back-AllCounted xs ys a.1

Agree-none :
    (r : Result Error Counts) (f : Counts → Result Error Counts)
    → Agree r none
    → Agree (r >>= f) none
Agree-none (ok count) f h = absurd h
Agree-none (err e) f h = h

Inserts-append_lem :
    (r : Result Error Counts) (f : Counts → Result Error Counts) (seen xs ys : List ℕ)
    → Agree r (insert_all seen xs)
    → AllCounted ys
    → Inserts f ys
    → Agree (r >>= f) (insert_all seen (xs ++ ys))
Inserts-append_lem (ok count) f seen [] ys h c k = k count seen c (unfold insert_all in h)
Inserts-append_lem (err e) f seen [] ys h c k = absurd (unfold insert_all in h)
Inserts-append_lem r f seen (a ∷ xs) ys h c k = elim (Bool-cases (member a seen)) [
  | inl e ↦
      subst (Agree (r >>= f)) (sym (insert_all_old seen a (xs ++ ys) e))
        (Agree-none r f (subst (Agree r) (insert_all_old seen a xs e) h))
  | inr e ↦
      subst (Agree (r >>= f)) (sym (insert_all_new seen a (xs ++ ys) e)) (
        Inserts-append_lem r f (a ∷ seen) xs ys (subst (Agree r) (insert_all_new seen a xs e) h) c
          k)
]

Inserts-append :
    (f g : Counts → Result Error Counts) (xs ys : List ℕ)
    → Inserts f xs
    → Inserts g ys
    → Inserts (λ count. f count >>= g) (xs ++ ys)
Inserts-append f g xs ys hf hg count seen c s =
    Inserts-append_lem (f count) g seen xs ys (hf count seen (front-AllCounted xs ys c) s)
      (back-AllCounted xs ys c) hg

for_loop-bind :
    (n j : ℕ) (body : ℕ → Counts → Result Error Counts) (count : Counts)
    → for_loop (suc n) j body count ≡ (body j count >>= for_loop n (j + 1) body)
for_loop-bind n j body count = go (body j count) refl
  where
    go :
        (r : Result Error Counts)
        → body j count ≡ r
        → for_loop (suc n) j body count ≡ (r >>= for_loop n (j + 1) body)
    go (ok c) e = for_loop-ok n j body count c e
    go (err x) e = for_loop-err n j body count x e

-- A loop whose rounds each go on while their addresses are new.
for_loop-Inserts :
    (body : ℕ → Counts → Result Error Counts) (g : ℕ → List ℕ) (n j : ℕ)
    → ((k : ℕ) → j ≤ k → k < j + n → Inserts (body k) (g k))
    → Inserts (for_loop n j body) (gather g j n)
for_loop-Inserts body g zero j h count seen c s = unfold for_loop insert_all in s
for_loop-Inserts body g (suc n) j h count seen c s =
    subst (λ r. Agree r (insert_all seen (g j ++ gather g (j + 1) n)))
      (sym (for_loop-bind n j body count))
      (Inserts-append (body j) (for_loop n (j + 1) body) (g j) (gather g (j + 1) n)
        (h j (omega arith) (omega arith))
        (for_loop-Inserts body g n (j + 1) (λ k lo hi. h k (omega arith) (omega arith))) count seen
        c s)

Sees-add :
    (a w : ℕ) (count : Counts) (seen : List ℕ)
    → 0 < w
    → Sees count seen
    → Sees (add_count a w count) (a ∷ seen)
Sees-add a w count seen p s b = elim (Bool-cases (b == a)) [
  | inl e ↦ rw e (lt→ltb 0 (count b + w) (omega arith))
  | inr e ↦ rw e (s b)
]

count_address-Inserts : (looked_at w a : ℕ) → 0 < w → Inserts (count_address looked_at w a) (a ∷ [])
unfolding count_address insert_all
count_address-Inserts looked_at w a p count seen c s = elim (Bool-cases (member a seen)) [
  | inl e ↦ rw (lt→ltb a fssize c.0, s a, e) tt
  | inr e ↦ rw (lt→ltb a fssize c.0, s a, e) (Sees-add a w count seen p s)
]

-- An inode that is in use names at most 128 blocks in its indirect block.
abbrev pub HasRoom : ℕ → Dinode → Type 0
HasRoom i ip = ip.type ≢ 0 → ip.size ≢ 0 → indirect_count ip ≤ nindirect

module _ (mmapped : Disk) (ip : Dinode) where
  abbrev table : Block
  table = rsect mmapped (ip.addrs ndirect)

  abbrev indirect_body : ℕ → Counts → Result Error Counts
  indirect_body j t = indirect_at table j >>= λ a. count_address (ip.addrs j) 2 a t

  direct_part :
      (n : ℕ)
      → Inserts
          (for_loop n 0 (λ j. count_address (ip.addrs j) 1 (ip.addrs j)))
          (gather (λ j. ip.addrs j ∷ []) 0 n)
  direct_part n =
      for_loop-Inserts (λ j. count_address (ip.addrs j) 1 (ip.addrs j)) (λ j. ip.addrs j ∷ []) n 0
        (λ k lo hi. count_address-Inserts (ip.addrs k) 1 (ip.addrs k) (omega arith))

  indirect_body_lem :
      (j : ℕ) (t : Counts)
      → j < nindirect
      → indirect_body j t ≡ count_address (ip.addrs j) 2 (u32 table (4 * j)) t
  unfolding indirect_at
  indirect_body_lem j t h = rw (lt→ltb j nindirect h)

  indirect_part :
      (n : ℕ)
      → n ≤ nindirect
      → Inserts (for_loop n 0 indirect_body) (gather (λ j. u32 table (4 * j) ∷ []) 0 n)
  indirect_part n h =
      for_loop-Inserts indirect_body (λ j. u32 table (4 * j) ∷ []) n 0
        (λ k lo hi count seen c s.
          subst (λ r. Agree r (insert_all seen (u32 table (4 * k) ∷ [])))
            (sym (indirect_body_lem k count (omega arith)))
            (count_address-Inserts (ip.addrs k) 2 (u32 table (4 * k)) (omega arith) count seen c s))

  each_block-Inserts :
      indirect_count ip ≤ nindirect
      → Inserts
          (each_block mmapped ip
            (λ j a. count_address a 1 a)
            (λ j a. count_address (ip.addrs j) 2 a))
          (gather (λ j. ip.addrs j ∷ []) 0 (direct_count ip)
            ++ gather
                (λ j. u32 (rsect mmapped (ip.addrs ndirect)) (4 * j) ∷ [])
                0
                (indirect_count ip))
  unfolding each_block
  each_block-Inserts room = elim (Bool-cases (leb (block_num ip.size) ndirect)) [
    | inl e ↦
        let none_left : indirect_count ip ≡ 0 =
          omega (arith, leb→le (block_num ip.size) ndirect e) in
        rw (e, none_left, append-nil) (direct_part (block_num ip.size))
    | inr e ↦ rw e (
        Inserts-append (for_loop (ndirect + 1) 0 (λ j. count_address (ip.addrs j) 1 (ip.addrs j)))
          (for_loop (indirect_count ip) 0 indirect_body)
          (gather (λ j. ip.addrs j ∷ []) 0 (ndirect + 1))
          (gather (λ j. u32 table (4 * j) ∷ []) 0 (indirect_count ip)) (direct_part (ndirect + 1))
          (indirect_part (indirect_count ip) room))
  ]

  count_inode-Inserts :
      (i : ℕ) → HasRoom i ip → Inserts (count_inode mmapped i ip) (used_addresses mmapped ip)
  unfolding count_inode
  count_inode-Inserts i room = elim (Bool-cases (ip.type == 0)) [
    | inl e ↦ rw e (λ count seen c s. unfold insert_all in s)
    | inr e ↦ rw e (elim (Bool-cases (ip.size == 0)) [
      | inl f ↦ rw f (λ count seen c s. unfold insert_all in s)
      | inr f ↦ rw f (each_block-Inserts (room (==→ne ip.type 0 e) (==→ne ip.size 0 f)))
    ])
  ]

address_check-Inserts :
    (mmapped : Disk)
    → EachInode mmapped HasRoom
    → Inserts (each_inode mmapped (count_inode mmapped)) (all_addresses mmapped)
unfolding each_inode
address_check-Inserts mmapped room =
    for_loop-Inserts (λ i. count_inode mmapped i (inode mmapped i))
      (λ i. used_addresses mmapped (inode mmapped i)) (read_superblock mmapped).ninodes 1
      (λ i lo hi. count_inode-Inserts mmapped (inode mmapped i) i (room i lo hi))

abbrev pub IsOk {ℓ} : {S : Type ℓ} → Result Error S → Type 0
IsOk (ok s) = Unit
IsOk (err e) = ⊥

Agree-iff : (r : Result Error Counts) (o : Option (List ℕ)) → Agree r o → IsOk r ↔ IsSome o
Agree-iff (ok c) (some s) h = (λ q. tt, λ q. tt)
Agree-iff (ok c) none h = absurd h
Agree-iff (err e) (some s) h = absurd h
Agree-iff (err e) none h = (λ q. q, λ q. q)

-- On an image in which no inode in use names more than 128 blocks in its indirect block and all used
-- addresses are below 1000, as many as the check counts, `address_check_7_8` passes exactly when the addresses of all inodes 1 .. ninodes in use, the direct
-- ones, the indirect block's own and those in it, are distinct.
pub address_check_7_8_iff :
    (mmapped : Disk)
    → EachInode mmapped HasRoom
    → AllCounted (all_addresses mmapped)
    → IsOk (address_check_7_8 mmapped) ↔ IsDistinct (all_addresses mmapped)
unfolding address_check_7_8
address_check_7_8_iff mmapped room small =
    let agree = Agree-iff _ _ (address_check-Inserts mmapped room (λ a. 0) [] small (λ a. refl)) in
    let sound = insert_all_iff [] (all_addresses mmapped) in
    (λ q. (sound.0 (agree.0 q)).1, λ q. agree.1 (sound.1 (IsNew-nil (all_addresses mmapped), q)))
