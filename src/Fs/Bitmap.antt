-- ===== src/Fs/Bitmap.antt =====
-- `bitmap_exist` and `bitmap_delete` of filesystems-checker/xchecker.c. An address is a block number
-- below 2 ^ 31 - 1, so the `int` sum in them does not overflow; the index is an `ushort`.
pub mod Laws
use Prim.Native.Nat.{bit_and, bit_or}
use ostep_projects_finish.Common.{ℕ, ◌+◌, ◌-◌, ◌*◌, ◌/◌, ◌%◌, ◌^◌, Bool, ◌==◌, if◌then◌else◌}
use ostep_projects_finish.Fs.Disk.{Block}

-- The first eight lines of both: `char_index`.
pub char_index : ℕ → ℕ
char_index addr = (if (addr + 1) % 8 == 0 then (addr + 1) / 8 - 1 else (addr + 1) / 8) % 2 ^ 16

pub char_loca : ℕ → ℕ
char_loca addr = addr % 8

unfoldable pub bitmap_exist : ℕ → Block → ℕ
unfolding char_index char_loca
bitmap_exist addr bitmap = bit_and (bitmap (char_index addr) / 2 ^ char_loca addr) 1

-- The byte 0xFE rotated left by `k`.
pub rotated : ℕ → ℕ
rotated k = bit_or (0xfe * 2 ^ k) (0xfe / 2 ^ (8 - k)) % 256

unfoldable pub bitmap_delete : ℕ → Block → Block
unfolding char_index char_loca rotated
bitmap_delete addr bitmap i =
    if i == char_index addr then bit_and (bitmap i) (rotated (char_loca addr)) else bitmap i
