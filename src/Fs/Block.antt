-- ===== src/Fs/Block.antt =====
-- kernel/fs/block.c: the buffers of blocks over a device of sectors, and the bitmap of the data blocks. A
-- buffer is named by its place in `blocks`; block numbers are not negative.
pub mod Bits
pub mod Coherent
pub mod Open
pub mod Change
pub mod Used
pub mod Alloc
mod Tests
use ucas_oslab.Base.{
  ℕ, zero, suc, ◌+◌, ◌-◌, ◌*◌, ◌/◌, ◌%◌, ◌^◌, ◌==◌, ltb, leb, min, Bool, true, false, not, ◌||◌,
  ◌&&◌, Option, none, some, if◌then◌else◌,
}
use ucas_oslab.Base.Run.{Run, ok, halt, ◌>>=◌, ◌>>◌, asserts}
use ucas_oslab.Base.Update.{update}
use ucas_oslab.Locking.Slots.{first, for_each, has_ref, add_ref, drop_ref}
use ucas_oslab.Fs.Cache.{Sectors, nsector_block, block_size}

abbrev pub block_concurrency : ℕ
block_concurrency = 8

pub record Superblock : Type 0 where
  pub start_sector : ℕ
  pub root_inode : ℕ
  pub block_map_offset : ℕ
  pub inode_offset : ℕ
  pub datablock_offset : ℕ
  pub inode_count : ℕ
  pub block_count : ℕ
  pub used_inode : ℕ
  pub used_block : ℕ

pub record Block : Type 0 where
  pub valid : Bool
  pub block_num : ℕ
  pub refcnt : ℕ
  pub bytes : ℕ → ℕ

pub record Blocks (S : Sectors) : Type 0 where
  pub blocks : ℕ → Block
  pub disk : S.Disk
  pub superblock : Superblock

-- The first sector of a block.
abbrev pub sector_of : Superblock → ℕ → ℕ
sector_of superblock block_num = (superblock.start_sector + block_num * nsector_block) % 2 ^ 32

-- The bits of a block that is a bitmap.
abbrev pub map_bit : (ℕ → ℕ) → ℕ → Bool
map_bit bytes offset = has_ref (bytes (offset / 8)) (offset % 8)

abbrev pub set_map_bit : (ℕ → ℕ) → ℕ → ℕ → ℕ
set_map_bit bytes offset = update bytes (offset / 8) (add_ref (bytes (offset / 8)) (offset % 8))

abbrev pub clear_map_bit : (ℕ → ℕ) → ℕ → ℕ → ℕ
clear_map_bit bytes offset = update bytes (offset / 8) (drop_ref (bytes (offset / 8)) (offset % 8))

-- BLOCK_SIZE * 8
abbrev pub block_bits : ℕ
block_bits = 32768

module _ {S : Sectors} where
  abbrev pub block_read : Blocks S → ℕ → ℕ → ℕ
  block_read s block_num = S.read s.disk (sector_of s.superblock block_num)

  abbrev pub block_write : Blocks S → ℕ → (ℕ → ℕ) → Blocks S
  block_write s block_num bytes = record s {
    disk = S.write s.disk (sector_of s.superblock block_num) bytes;
  }

  -- The tests of the two loops of `block_open`.
  abbrev pub is_open : Blocks S → ℕ → ℕ → Bool
  is_open s block_num i = (s.blocks i).valid && (s.blocks i).block_num == block_num

  abbrev pub is_spare : Blocks S → ℕ → Bool
  is_spare s i = not (s.blocks i).valid || (s.blocks i).refcnt == 0

  abbrev pub put_block : Blocks S → ℕ → Block → Blocks S
  put_block s i block = record s { blocks = update s.blocks i block }

  abbrev pub set_refcnt : Blocks S → ℕ → ℕ → Blocks S
  set_refcnt s i n = put_block s i (record (s.blocks i) { refcnt = n })

  abbrev pub set_data : Blocks S → ℕ → (ℕ → ℕ) → Blocks S
  set_data s i bytes = put_block s i (record (s.blocks i) { bytes = bytes })

  -- Writes the buffer if it is valid.
  abbrev pub write_back : Blocks S → ℕ → Blocks S
  write_back s i = record s {
    disk =
        if (s.blocks i).valid
        then (block_write s (s.blocks i).block_num (s.blocks i).bytes).disk
        else s.disk;
  }

  abbrev pub load : Blocks S → ℕ → ℕ → Blocks S
  load s block_num i =
      put_block s i
        (record { valid = true; block_num = block_num; refcnt = 1; bytes = block_read s block_num })

  abbrev reused : Blocks S → ℕ → Option ℕ → Run (ℕ × Blocks S)
  reused s block_num none = halt
  reused s block_num (some i) = ok (i, load (write_back s i) block_num i)

  abbrev opened : Blocks S → ℕ → Option ℕ → Run (ℕ × Blocks S)
  opened s block_num (some i) = ok (i, set_refcnt s i ((s.blocks i).refcnt + 1))
  opened s block_num none = reused s block_num (first (is_spare s) block_concurrency 0)

  unfoldable pub block_open : Blocks S → ℕ → Run (ℕ × Blocks S)
  block_open s block_num = opened s block_num (first (is_open s block_num) block_concurrency 0)

  unfoldable pub block_close : Blocks S → ℕ → Run (Blocks S)
  block_close s i =
      asserts (ltb 0 (s.blocks i).refcnt) >> ok (set_refcnt s i ((s.blocks i).refcnt - 1))

  -- Opens a block, changes its bytes and closes it.
  abbrev pub change_block : Blocks S → ℕ → ((ℕ → ℕ) → ℕ → ℕ) → Run (Blocks S)
  change_block s block_num change =
      block_open s block_num >>= λ (i, t). block_close (set_data t i (change (t.blocks i).bytes)) i

  unfoldable pub block_memset : Blocks S → ℕ → ℕ → Run (Blocks S)
  block_memset s block_num val =
      change_block s block_num (λ bytes j. if ltb j block_size then val else bytes j)

  abbrev add_used_block : Blocks S → Blocks S
  add_used_block s = record s {
    superblock = record s.superblock { used_block = (s.superblock.used_block + 1) % 2 ^ 32 };
  }

  abbrev sub_used_block : Blocks S → Blocks S
  sub_used_block s = record s {
    superblock = record s.superblock {
      used_block = (s.superblock.used_block + (2 ^ 32 - 1)) % 2 ^ 32;
    };
  }

  -- One round of the outer loop of `block_alloc`: what the inner loop has found in the map.
  abbrev in_group :
      Blocks S
      → ℕ
      → ℕ
      → (Blocks S → Run (Option ℕ × Blocks S))
      → Option ℕ
      → Run (Option ℕ × Blocks S)
  in_group s i base rest none = block_close s i >>= rest
  in_group s i base rest (some offset) =
      block_close (set_data s i (set_map_bit (s.blocks i).bytes offset)) i >>= λ t.
      ok (some (s.superblock.datablock_offset + base + offset), add_used_block t)

  -- The outer loop with `n` rounds left; a round is about block_bits blocks. -1 is none.
  unfoldable pub alloc_groups : ℕ → ℕ → Blocks S → Run (Option ℕ × Blocks S)
  alloc_groups zero group s = ok (none, s)
  alloc_groups (suc n) group s =
      let rest = λ (t : Blocks S). alloc_groups n (suc group) t in
      block_open s (s.superblock.block_map_offset + group) >>= λ (i, t).
      in_group t i (group * block_bits) rest (
        first (λ offset. not (map_bit (t.blocks i).bytes offset))
          (min block_bits (t.superblock.block_count - group * block_bits)) 0)

  unfoldable pub block_alloc : Blocks S → Run (Option ℕ × Blocks S)
  block_alloc s = alloc_groups ((s.superblock.block_count + block_bits - 1) / block_bits) 0 s

  abbrev filled : ℕ → Option ℕ × Blocks S → Run (Option ℕ × Blocks S)
  filled val (none, s) = ok (none, s)
  filled val (some block_num, s) = block_memset s block_num val >>= λ t. ok (some block_num, t)

  unfoldable pub block_allocset : Blocks S → ℕ → Run (Option ℕ × Blocks S)
  block_allocset s val = block_alloc s >>= filled val

  abbrev free_bit : Blocks S → ℕ → ℕ → Run (Blocks S)
  free_bit s i offset =
      asserts (map_bit (s.blocks i).bytes offset)
      >> (block_close (set_data s i (clear_map_bit (s.blocks i).bytes offset)) i >>= λ t.
          ok (sub_used_block t))

  unfoldable pub block_free : Blocks S → ℕ → Run (Blocks S)
  block_free s block_num =
      let data_num = block_num - s.superblock.datablock_offset in
      asserts (leb s.superblock.datablock_offset block_num)
      >> (block_open s (s.superblock.block_map_offset + data_num / block_bits) >>= λ (i, t).
          free_bit t i (data_num % block_bits))

  pub flush_block_cache : Blocks S → Blocks S
  flush_block_cache s = for_each block_concurrency (λ i t. write_back t i) s
