-- ===== src/Fs/Bitmap/Laws.antt =====
-- A block's bit is the one at its number, and deleting it clears that bit and no other.
use Prim.Native.Nat.{bit_and}
use ostep_projects_finish.Common.{
  passes, passes_at, ℕ, ◌+◌, ◌*◌, ◌/◌, ◌%◌, ◌^◌, ◌<◌, ◌≡◌, refl, sym, ap, ◌∙◌, Bool, true, arith,
  ◌==◌, if◌then◌else◌, Bool-cases, eq→==, ne→==, ==→eq, ==→ne, inl, inr, ltb, ltb→lt, subst,
}
use native.Mathlib.Nat.{div-le_self}
use ostep_projects_finish.Fs.Disk.{Block}
use ostep_projects_finish.Fs.Bitmap.{char_index, bitmap_exist, rotated, bitmap_delete}

pub char_index_lem : (addr : ℕ) → addr < 2 ^ 19 → char_index addr ≡ addr / 8
unfolding char_index
char_index_lem addr h = ground arith

-- Bit `k` of byte `b`.
abbrev bit : ℕ → ℕ → ℕ
bit b k = bit_and (b / 2 ^ k) 1

-- For the number `x` of a byte and two bit positions.
agrees : ℕ → Bool
unfolding rotated
agrees x =
    bit (bit_and (x / 64) (rotated (x / 8 % 8))) (x % 8)
    == (if x / 8 % 8 == x % 8 then 0 else bit (x / 64) (x % 8))

agrees_table : passes agrees 16384 ≡ true
unfolding passes agrees
agrees_table = refl

bit_cleared :
    (b k j : ℕ)
    → b < 256
    → k < 8
    → j < 8
    → bit (bit_and b (rotated k)) j ≡ (if k == j then 0 else bit b j)
unfolding agrees
bit_cleared b k j hb hk hj =
    let x : ℕ = b * 64 + k * 8 + j in
    let e1 : x / 64 ≡ b = omega arith in
    let e2 : x / 8 % 8 ≡ k = omega arith in
    let e3 : x % 8 ≡ j = omega arith in
    rw (e1, e2, e3) at (==→eq _ _ (passes_at agrees 16384 x (omega arith) agrees_table))

-- In terms of byte and position.
exist_lem :
    (a : ℕ) (bitmap : Block) → a < 2 ^ 19 → bitmap_exist a bitmap ≡ bit (bitmap (a / 8)) (a % 8)
unfolding bitmap_exist
exist_lem a bitmap h = rw (char_index_lem a h)

delete_lem :
    (a : ℕ) (bitmap : Block) (i : ℕ)
    → a < 2 ^ 19
    → bitmap_delete a bitmap i
      ≡ (if i == a / 8 then bit_and (bitmap i) (rotated (a % 8)) else bitmap i)
unfolding bitmap_delete
delete_lem a bitmap i h = rw (char_index_lem a h)

-- For block numbers below 2 ^ 19 and a bitmap of bytes, `bitmap_delete a` makes `bitmap_exist a`
-- answer 0 and leaves its answer for every other block as it was.
pub bitmap_exist-bitmap_delete :
    (a b : ℕ) (bitmap : Block)
    → a < 2 ^ 19
    → b < 2 ^ 19
    → bitmap (b / 8) < 256
    → bitmap_exist b (bitmap_delete a bitmap) ≡ (if a == b then 0 else bitmap_exist b bitmap)
bitmap_exist-bitmap_delete a b bitmap ha hb hm =
    exist_lem b (bitmap_delete a bitmap) hb
    ∙ ap (λ t. bit t (b % 8)) (delete_lem a bitmap (b / 8) ha)
    ∙ elim (Bool-cases (b / 8 == a / 8)) [
      | inl e ↦
          rw (e, bit_cleared (bitmap (b / 8)) (a % 8) (b % 8) hm (omega arith) (omega arith))
            (elim (Bool-cases (a % 8 == b % 8)) [
              | inl f ↦ rw (f, eq→== a b (same (==→eq _ _ e) (==→eq _ _ f)))
              | inr f ↦
                  rw (f, ne→== a b (λ q. ==→ne _ _ f (ap (λ t. t % 8) q)))
                    (sym (exist_lem b bitmap hb))
            ])
      | inr e ↦
          rw (e, ne→== a b (λ q. ==→ne _ _ e (ap (λ t. t / 8) (sym q))))
            (sym (exist_lem b bitmap hb))
    ]
  where
    same : b / 8 ≡ a / 8 → a % 8 ≡ b % 8 → a ≡ b
    same p q = omega arith

low_bit_test : ℕ → Bool
low_bit_test x = bit_and x 1 == x % 2

low_bit_table : passes low_bit_test 256 ≡ true
unfolding passes low_bit_test
low_bit_table = refl

low_bit : (x : ℕ) → x < 256 → bit_and x 1 ≡ x % 2
unfolding low_bit_test
low_bit x h = ==→eq _ _ (passes_at low_bit_test 256 x h low_bit_table)

-- For a block number below 2 ^ 19 and a bitmap of bytes, `bitmap_exist` answers bit `a % 8` of byte
-- `a / 8`.
pub bitmap_exist_lem :
    (a : ℕ) (bitmap : Block)
    → a < 2 ^ 19
    → bitmap (a / 8) < 256
    → bitmap_exist a bitmap ≡ bitmap (a / 8) / 2 ^ (a % 8) % 2
bitmap_exist_lem a bitmap h byte =
    exist_lem a bitmap h
    ∙ low_bit (bitmap (a / 8) / 2 ^ (a % 8))
        (let q = div-le_self (bitmap (a / 8)) (2 ^ (a % 8)) in omega arith)

abbrev pub IsBytes : Block → Type 0
IsBytes bitmap = (i : ℕ) → bitmap i < 256

-- For the number `x` of a byte and a bit position.
stays_byte : ℕ → Bool
unfolding rotated
stays_byte x = ltb (bit_and (x / 8) (rotated (x % 8))) 256

stays_byte_table : passes stays_byte 2048 ≡ true
unfolding passes stays_byte
stays_byte_table = refl

byte_cleared : (b k : ℕ) → b < 256 → k < 8 → bit_and b (rotated k) < 256
unfolding stays_byte
byte_cleared b k hb hk =
    let x : ℕ = b * 8 + k in
    let e1 : x / 8 ≡ b = omega arith in
    let e2 : x % 8 ≡ k = omega arith in
    rw (e1, e2) at (ltb→lt _ _ (passes_at stays_byte 2048 x (omega arith) stays_byte_table))

pub bitmap_delete-IsBytes :
    (a : ℕ) (bitmap : Block) → a < 2 ^ 19 → IsBytes bitmap → IsBytes (bitmap_delete a bitmap)
bitmap_delete-IsBytes a bitmap h bytes i =
    subst (λ n. n < 256) (sym (delete_lem a bitmap i h))
      (elim (Bool-cases (i == a / 8)) [
        | inl e ↦ rw e (byte_cleared (bitmap i) (a % 8) (bytes i) (omega arith))
        | inr e ↦ rw e (bytes i)
      ])
