-- ===== src/Fs/Cache.antt =====
-- kernel/fs/cache.c: reads and writes of blocks, straight to the card or through the page cache. What a
-- device of sectors does for the eight sectors of a block is an interface: bios_sd_read and bios_sd_write
-- of the firmware are one device, the pages of the cache are another, and the two together, switched by
-- the policy, are the one that kernel/fs/block.c uses.
pub mod Policy
use ucas_oslab.Base.{ℕ, ◌+◌, ◌≤◌, ◌<◌, ◌≡◌, ◌⊎◌}

-- NSECTOR_BLOCK and BLOCK_SIZE, with sectors of 512 bytes.
abbrev pub nsector_block : ℕ
nsector_block = 8

abbrev pub block_size : ℕ
block_size = 4096

-- A device: the bytes of the block that starts at a sector, and the write of one.
pub record Sectors : Type 1 where
  pub Disk : Type 0
  pub read : Disk → ℕ → ℕ → ℕ
  pub write : Disk → ℕ → (ℕ → ℕ) → Disk

-- A block that was written is read back, and the blocks that have no sector in common with it stay.
pub record IsLawful (S : Sectors) : Type 0 where
  pub read-write :
      (d : S.Disk) (sector : ℕ) (bytes : ℕ → ℕ) (i : ℕ)
      → i < block_size
      → S.read (S.write d sector bytes) sector i ≡ bytes i
  pub read-write_apart :
      (d : S.Disk) (sector other : ℕ) (bytes : ℕ → ℕ) (i : ℕ)
      → i < block_size
      → (sector + nsector_block ≤ other) ⊎ (other + nsector_block ≤ sector)
      → S.read (S.write d sector bytes) other i ≡ S.read d other i
