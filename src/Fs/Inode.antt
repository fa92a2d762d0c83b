-- ===== src/Fs/Inode.antt =====
-- kernel/fs/inode.c: the inodes in memory over the blocks of the disk. An inode in memory is named by its
-- place in `inodes`; an int32_t is its 32 bits. A lock is its `acquired` flag: a call that takes a lock
-- stands for the call once it has it, as Locking.Mutex models the wait.
pub mod Layout
pub mod Map
pub mod Table
pub mod Reload
pub mod Alias
pub mod Data
mod Tests
use ucas_oslab.Base.{
  ℕ, zero, suc, ◌+◌, ◌-◌, ◌*◌, ◌/◌, ◌%◌, ◌^◌, ◌==◌, ltb, leb, Bool, true, false, not, ◌||◌, ◌&&◌,
  Option, none, some, if◌then◌else◌,
}
use ucas_oslab.Base.Run.{Run, ok, halt, ◌>>=◌, ◌>>◌, asserts, for_run}
use ucas_oslab.Base.Update.{update}
use ucas_oslab.Locking.Slots.{first}
use ucas_oslab.Fs.Cache.{Sectors, block_size}
use ucas_oslab.Fs.Block.{
  Superblock, Block, Blocks, set_data, block_open, block_close, change_block, block_allocset,
  block_free,
}

abbrev pub ninode : ℕ
ninode = 64

abbrev pub fs_type_dir : ℕ
fs_type_dir = 1

abbrev pub fs_type_file : ℕ
fs_type_file = 2

abbrev pub fs_type_dev : ℕ
fs_type_dev = 4

abbrev pub num_direct_blocks : ℕ
num_direct_blocks = 10

abbrev pub num_indirect_blocks : ℕ
num_indirect_blocks = 1024

-- BLOCK_SIZE / sizeof(diskinode_t), and the size.
abbrev pub inode_per_block : ℕ
inode_per_block = 64

abbrev pub inode_bytes : ℕ
inode_bytes = 64

-- What an inode has on the disk: `direct` of its ten blocks.
pub record Diskinode : Type 0 where
  pub type : ℕ
  pub link_count : ℕ
  pub inode_num : ℕ
  pub size : ℕ
  pub blocks : ℕ
  pub direct : ℕ → ℕ
  pub indirect : ℕ
  pub double_indirect : ℕ

pub record Inode : Type 0 where
  pub disk : Diskinode
  pub valid : Bool
  pub ref_count : ℕ
  pub acquired : Bool

-- -1, and the sign of an int32_t.
abbrev pub minus_one : ℕ
minus_one = 0xffffffff

abbrev pub is_negative : ℕ → Bool
is_negative w = leb (2 ^ 31) w

-- Byte `k` of a number, and the numbers of two and of four bytes.
abbrev pub byte : ℕ → ℕ → ℕ
byte v k = v / 256 ^ k % 256

abbrev pub word16 : (ℕ → ℕ) → ℕ → ℕ
word16 bytes i = bytes i + bytes (i + 1) * 256

abbrev pub word32 : (ℕ → ℕ) → ℕ → ℕ
word32 bytes i = bytes i + bytes (i + 1) * 256 + bytes (i + 2) * 65536 + bytes (i + 3) * 16777216

-- Element `i` of an array of int32_t, and its write.
abbrev pub arr : (ℕ → ℕ) → ℕ → ℕ
arr bytes i = word32 bytes (4 * i)

abbrev pub set_arr : (ℕ → ℕ) → ℕ → ℕ → ℕ → ℕ
set_arr bytes i v j = if j / 4 == i then byte v (j % 4) else bytes j

-- Byte `k` of diskinode_t.
abbrev pub inode_byte : Diskinode → ℕ → ℕ
inode_byte d k =
    if ltb k 2
    then byte d.type k
    else if ltb k 4
    then byte d.link_count (k - 2)
    else if ltb k 8
    then byte d.inode_num (k - 4)
    else if ltb k 12
    then byte d.size (k - 8)
    else if ltb k 16
    then byte d.blocks (k - 12)
    else if ltb k 56
    then byte (d.direct ((k - 16) / 4)) ((k - 16) % 4)
    else if ltb k 60
    then byte d.indirect (k - 56)
    else byte d.double_indirect (k - 60)

-- `memcpy` between an inode and the bytes from `offset` on.
unfoldable pub store_inode : (ℕ → ℕ) → ℕ → Diskinode → ℕ → ℕ
store_inode bytes offset d j =
    if leb offset j && ltb j (offset + inode_bytes) then inode_byte d (j - offset) else bytes j

unfoldable pub load_inode : (ℕ → ℕ) → ℕ → Diskinode
load_inode bytes offset = record {
  type = word16 bytes offset;
  link_count = word16 bytes (offset + 2);
  inode_num = word32 bytes (offset + 4);
  size = word32 bytes (offset + 8);
  blocks = word32 bytes (offset + 12);
  direct = λ i. word32 bytes (offset + 16 + 4 * i);
  indirect = word32 bytes (offset + 56);
  double_indirect = word32 bytes (offset + 60);
}

-- INODE2BLOCK, and the place in the block.
abbrev pub inode_to_block : Superblock → ℕ → ℕ
inode_to_block superblock inode_num = superblock.inode_offset + inode_num / inode_per_block

abbrev pub inode_to_offset : ℕ → ℕ
inode_to_offset inode_num = inode_num % inode_per_block * inode_bytes

-- An inode of `type` without blocks, and one that is reset.
abbrev pub new_diskinode : ℕ → ℕ → Diskinode
new_diskinode type inode_num = record {
  type = type;
  link_count = 0;
  inode_num = inode_num;
  size = 0;
  blocks = 0;
  direct = λ i. minus_one;
  indirect = minus_one;
  double_indirect = minus_one;
}

abbrev pub no_inode : Inode
no_inode = record { disk = new_diskinode 0 0; valid = false; ref_count = 0; acquired = false }

pub record Files (S : Sectors) : Type 0 where
  pub store : Blocks S
  pub inodes : ℕ → Inode
