-- ===== src/Fs/Checks/Used.antt =====
-- What it means that the loops over the blocks of an inode accept every address.
use ostep_projects_finish.Common.{
  ℕ, ◌+◌, ◌-◌, ◌*◌, ◌≤◌, ◌<◌, ◌≡◌, ◌↔◌, true, false, arith, ltb, ltb→lt, lt→ltb, leb, leb→le,
  if◌then◌else◌, Bool-cases, inl, inr,
}
use ostep_projects_finish.Common.Loop.{Result, ok, ◌>>=◌, for_loop, for_loop-ok_iff, >>=-ok_iff}
use ostep_projects_finish.Fs.Disk.{Disk, Block, ndirect, nindirect, u32, Dinode, rsect}
use ostep_projects_finish.Fs.Checks.{Error, block_num, indirect_at, each_block}

-- How many entries of `addrs` are looked at.
abbrev pub direct_count : Dinode → ℕ
direct_count ip = if leb (block_num ip.size) ndirect then block_num ip.size else ndirect + 1

-- How many entries of the indirect block are looked at.
abbrev pub indirect_count : Dinode → ℕ
indirect_count ip = block_num ip.size - ndirect

-- Every block of the file satisfies `P`, and the file has no more of them than an inode can name.
pub record EachBlock {κ} (mmapped : Disk) (ip : Dinode) (P : ℕ → Type κ) : Type κ where
  pub direct : (j : ℕ) → j < direct_count ip → P (ip.addrs j)
  pub indirect :
      (j : ℕ)
      → j < indirect_count ip
      → (j < nindirect) × P (u32 (rsect mmapped (ip.addrs ndirect)) (4 * j))

indirect_at_iff :
    (b : Block) (j : ℕ) (f : ℕ → Result Error (Unit {0})) (P : ℕ → Type 0)
    → ((a : ℕ) → (f a ≡ ok tt) ↔ P a)
    → ((indirect_at b j >>= f) ≡ ok tt) ↔ ((j < nindirect) × P (u32 b (4 * j)))
unfolding indirect_at
indirect_at_iff b j f P h = elim (Bool-cases (ltb j nindirect)) [
  | inl e ↦
      rw e (λ q. (ltb→lt j nindirect e, (h (u32 b (4 * j))).0 q), λ q. (h (u32 b (4 * j))).1 q.1)
  | inr e ↦ rw e (λ q. cc, λ q. cc (lt→ltb j nindirect q.0))
]

module _ (mmapped : Disk) (ip : Dinode) (P : ℕ → Type 0)
    (direct indirect : ℕ → ℕ → Unit {0} → Result Error (Unit {0}))
    (dir_iff : (j a : ℕ) → (direct j a tt ≡ ok tt) ↔ P a)
    (ind_iff : (j a : ℕ) → (indirect j a tt ≡ ok tt) ↔ P a) where
  direct_loop :
      (n : ℕ)
      → (for_loop n 0 (λ j. direct j (ip.addrs j)) tt ≡ ok tt)
        ↔ ((j : ℕ) → 0 ≤ j → j < 0 + n → P (ip.addrs j))
  direct_loop n = for_loop-ok_iff (λ j. P (ip.addrs j)) _ (λ j. dir_iff j (ip.addrs j)) n 0

  indirect_loop :
      (n : ℕ)
      → (for_loop n 0
            (λ j t. indirect_at (rsect mmapped (ip.addrs ndirect)) j >>= λ a. indirect j a t)
            tt
          ≡ ok tt)
        ↔ ((j : ℕ)
            → 0 ≤ j
            → j < 0 + n
            → (j < nindirect) × P (u32 (rsect mmapped (ip.addrs ndirect)) (4 * j)))
  indirect_loop n =
      for_loop-ok_iff _ _ (λ j. indirect_at_iff _ j (λ a. indirect j a tt) P (λ a. ind_iff j a)) n 0

  few :
      leb (block_num ip.size) ndirect ≡ true
      → (each_block mmapped ip direct indirect tt ≡ ok tt) ↔ EachBlock mmapped ip P
  unfolding each_block
  few e = rw e (
    λ q. record {
      direct = λ j h. (direct_loop (block_num ip.size)).0 q j (omega arith) (in_count j h);
      indirect = λ j h. absurd (omega (arith, leb→le (block_num ip.size) ndirect e));
    },
    λ u. (direct_loop (block_num ip.size)).1 (λ j lo hi. u.direct j (from_count j hi)),
  )
    where
      in_count : (j : ℕ) → j < direct_count ip → j < 0 + block_num ip.size
      in_count j h = ground arith

      from_count : (j : ℕ) → j < 0 + block_num ip.size → j < direct_count ip
      from_count j h = rw e (omega arith)

  many :
      leb (block_num ip.size) ndirect ≡ false
      → (each_block mmapped ip direct indirect tt ≡ ok tt) ↔ EachBlock mmapped ip P
  unfolding each_block
  many e = rw e (
    λ q.
        let (one, two) = (>>=-ok_iff _ _).0 q in
        record {
          direct = λ j h. (direct_loop (ndirect + 1)).0 one j (omega arith) (in_count j h);
          indirect = λ j h. (indirect_loop (indirect_count ip)).0 two j (omega arith) (omega arith);
        },
    λ u. (>>=-ok_iff _ _).1 (
      (direct_loop (ndirect + 1)).1 (λ j lo hi. u.direct j (from_count j hi)),
      (indirect_loop (indirect_count ip)).1 (λ j lo hi. u.indirect j (omega arith)),
    ),
  )
    where
      in_count : (j : ℕ) → j < direct_count ip → j < 0 + (ndirect + 1)
      in_count j h = ground arith

      from_count : (j : ℕ) → j < 0 + (ndirect + 1) → j < direct_count ip
      from_count j h = rw e (omega arith)

  -- The loops accept exactly when their bodies accept every address, and no read is out of range.
  pub each_block_iff : (each_block mmapped ip direct indirect tt ≡ ok tt) ↔ EachBlock mmapped ip P
  each_block_iff = elim (Bool-cases (leb (block_num ip.size) ndirect)) [
    | inl e ↦ few e
    | inr e ↦ many e
  ]
