-- ===== src/Fs/Disk.antt =====
-- filesystems-checker/fs.h and param.h, and how xchecker.c reads an image. The mapped image is a
-- function from offsets to bytes; a block that rsect copies is a function from 0 .. 511. Numbers are
-- little-endian; `uint` sums and products wrap at 2 ^ 32.
use ostep_projects_finish.Common.{ℕ, ◌+◌, ◌*◌, ◌/◌, ◌%◌, ◌^◌, Option, none, some, Bool, ◌&&◌, ◌==◌}

abbrev pub Disk : Type 0
Disk = ℕ → ℕ

abbrev pub Block : Type 0
Block = ℕ → ℕ

abbrev pub bsize : ℕ
bsize = 512

abbrev pub ndirect : ℕ
ndirect = 12

abbrev pub nindirect : ℕ
nindirect = 128

-- `BSIZE / sizeof(struct dinode)`, where a dinode has 64 bytes.
abbrev pub ipb : ℕ
ipb = 8

abbrev pub fssize : ℕ
fssize = 1000

abbrev pub u16 : Block → ℕ → ℕ
u16 b i = b i + 256 * b (i + 1)

abbrev pub u32 : Block → ℕ → ℕ
u32 b i = b i + 256 * b (i + 1) + 65536 * b (i + 2) + 16777216 * b (i + 3)

pub record Superblock : Type 0 where
  pub size : ℕ
  pub nblocks : ℕ
  pub ninodes : ℕ
  pub nlog : ℕ
  pub logstart : ℕ
  pub inodestart : ℕ
  pub bmapstart : ℕ

-- `addrs` is read at 0 .. 12 only.
pub record Dinode : Type 0 where
  pub type : ℕ
  pub major : ℕ
  pub minor : ℕ
  pub nlink : ℕ
  pub size : ℕ
  pub addrs : ℕ → ℕ

pub record Dirent : Type 0 where
  pub inum : ℕ
  pub name : ℕ → ℕ

unfoldable pub rsect : Disk → ℕ → Block
rsect mmapped sec i = mmapped (bsize * sec % 2 ^ 32 + i)

unfoldable pub superblock_of : Block → Superblock
superblock_of b = record {
  size = u32 b 0;
  nblocks = u32 b 4;
  ninodes = u32 b 8;
  nlog = u32 b 12;
  logstart = u32 b 16;
  inodestart = u32 b 20;
  bmapstart = u32 b 24;
}

unfoldable pub read_superblock : Disk → Superblock
unfolding superblock_of rsect
read_superblock mmapped = superblock_of (rsect mmapped 1)

unfoldable pub dinode_at : Block → ℕ → Dinode
dinode_at b i = record {
  type = u16 b i;
  major = u16 b (i + 2);
  minor = u16 b (i + 4);
  nlink = u16 b (i + 6);
  size = u32 b (i + 8);
  addrs = λ j. u32 b (i + 12 + 4 * j);
}

-- `none` is the null `sb_input`, for which the superblock is read again.
unfoldable pub superblock_or : Disk → Option Superblock → Superblock
superblock_or mmapped none = read_superblock mmapped
superblock_or mmapped (some sb) = sb

unfoldable pub rinode : Disk → ℕ → Option Superblock → Dinode
unfolding dinode_at superblock_or read_superblock rsect
rinode mmapped inum sb_input =
    dinode_at (rsect mmapped ((inum / ipb + (superblock_or mmapped sb_input).inodestart) % 2 ^ 32))
      (64 * (inum % ipb))

-- `memcpy(direct, buf + sizeof(struct dirent) * j, sizeof(struct dirent))`
unfoldable pub dirent_at : Block → ℕ → Dirent
dirent_at b j = record { inum = u16 b (16 * j); name = λ k. b (16 * j + 2 + k) }

-- `!strcmp(name, ".")` and `!strcmp(name, "..")`
unfoldable pub is_dot : (ℕ → ℕ) → Bool
is_dot name = name 0 == b'.' && name 1 == 0

unfoldable pub is_dot_dot : (ℕ → ℕ) → Bool
is_dot_dot name = name 0 == b'.' && (name 1 == b'.' && name 2 == 0)
