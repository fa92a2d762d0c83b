-- ===== src/Fs/Inode/Data.antt =====
-- kernel/fs/inode.c: `inode_read` and `inode_write`. The memory of the caller is the byte at each address,
-- in the kernel or, by `pgdir`, of the process. The devices are a table of functions that the kernel
-- fills, here an argument. The loops run on fuel: `none` is a loop that has not ended.
pub mod Bounds
use ucas_oslab.Base.{
  ℕ, zero, suc, ◌+◌, ◌-◌, ◌*◌, ◌/◌, ◌%◌, ◌^◌, ◌==◌, ltb, leb, min, Bool, true, false, not, ◌||◌,
  ◌&&◌, Option, none, some, if◌then◌else◌,
}
use ucas_oslab.Base.Run.{Run, ok, halt, ◌>>=◌, ◌>>◌, asserts}
use ucas_oslab.Libs.Strings.{Memory}
use ucas_oslab.Fs.Cache.{Sectors, block_size}
use ucas_oslab.Fs.Block.{Blocks, set_data, block_open, block_close}
use ucas_oslab.Fs.Inode.{Diskinode, Inode, Files, fs_type_dev}
use ucas_oslab.Fs.Inode.Map.{put_inode, set_disk, set_store, inode_mapblock}
use ucas_oslab.Fs.Inode.Table.{inode_sync}

-- `len` bytes from `from` on, copied to `dest`.
abbrev pub copy_bytes : (ℕ → ℕ) → ℕ → (ℕ → ℕ) → ℕ → ℕ → ℕ → ℕ
copy_bytes mem dest bytes from len a =
    if leb dest a && ltb a (dest + len) then bytes (from + (a - dest)) else mem a

-- The rest of a loop behind code that can halt.
infixl 5 ◌>>=?◌
abbrev pub ◌>>=?◌ {ℓ κ} : {A : Type ℓ} {B : Type κ} → Run A → (A → Option (Run B)) → Option (Run B)
halt >>=? rest = some halt
ok a >>=? rest = rest a

abbrev pub chunk_size : ℕ → ℕ → ℕ → ℕ
chunk_size offset length total = min (block_size - offset % block_size) (length - total)

-- What `inode_read` gives: the count of bytes, the files and the caller's memory.
pub record ReadDone (S : Sectors) : Type 0 where
  pub total : ℕ
  pub files : Files S
  pub mem : Memory

abbrev pub read_done : {S : Sectors} → ℕ → Files S → Memory → ReadDone S
read_done total files mem = record { total = total; files = files; mem = mem }

pub record Devices (S : Sectors) : Type 0 where
  pub read : ℕ → Files S → ℕ → Memory → ℕ → ℕ → ℕ → Run (ReadDone S)
  pub write : ℕ → Files S → ℕ → Memory → ℕ → ℕ → ℕ → Run (ℕ × Files S)

-- The bytes that are left for a read: none past the end or when the sum wraps.
abbrev pub read_length : ℕ → ℕ → ℕ → ℕ
read_length size offset length =
    if ltb size offset || ltb ((offset + length) % 2 ^ 32) offset
    then 0
    else if ltb size ((offset + length) % 2 ^ 32)
    then size - offset
    else length

module _ {S : Sectors} where
  -- One round of the loop of `inode_read` with its block, and the rest of the loop.
  read_chunk :
      Memory
      → (dest offset length total : ℕ) → (Memory → Files S → Option (Run (ReadDone S)))
      → Option ℕ × Files S
      → Option (Run (ReadDone S))
  read_chunk mem dest offset length total rest (none, s) = some (ok (read_done total s mem))
  read_chunk mem dest offset length total rest (some b, s) =
      let chunk = chunk_size offset length total in
      block_open s.store b >>=? λ (p, t). block_close t p >>=? λ u.
      rest (copy_bytes mem dest (t.blocks p).bytes (offset % block_size) chunk) (set_store s u)

  read_loop : ℕ → Files S → ℕ → Memory → (dest offset length total : ℕ) → Option (Run (ReadDone S))
  unfolding read_chunk
  read_loop zero s x mem dest offset length total = none
  read_loop (suc n) s x mem dest offset length total =
      let chunk = chunk_size offset length total in
      let rest = λ (m : Memory) (t : Files S).
        read_loop n t x m (dest + chunk) (offset + chunk) length (total + chunk) in
      let round =
        inode_mapblock s x (offset / block_size)
        >>=? read_chunk mem dest offset length total rest in
      if ltb total length then round else some (ok (read_done total s mem))

  pub inode_read :
      ℕ → Devices S → Files S → ℕ → Memory → (dest offset length : ℕ) → Option (Run (ReadDone S))
  unfolding read_loop
  inode_read fuel dev s x mem dest offset length =
      let d = (s.inodes x).disk in
      if d.type == fs_type_dev
      then some (dev.read d.double_indirect s x mem dest offset length)
      else read_loop fuel s x mem dest offset (read_length d.size offset length) 0

  -- What `inode_write` does behind its loop.
  abbrev write_done : Files S → ℕ → ℕ → ℕ → Run (ℕ × Files S)
  write_done s x offset total =
      let d = (s.inodes x).disk in
      let t = if ltb d.size offset then set_disk s x (record d { size = offset }) else s in
      inode_sync t x >>= λ u. ok (total, u)

  write_chunk :
      ℕ
      → Memory
      → (src offset length total : ℕ) → (Files S → Option (Run (ℕ × Files S)))
      → Option ℕ × Files S
      → Option (Run (ℕ × Files S))
  write_chunk x mem src offset length total rest (none, s) = some (write_done s x offset total)
  write_chunk x mem src offset length total rest (some b, s) =
      let chunk = chunk_size offset length total in
      block_open s.store b >>=? λ (p, t).
      block_close (set_data t p (copy_bytes (t.blocks p).bytes (offset % block_size) mem src chunk))
        p
      >>=? λ u. rest (set_store s u)

  write_loop : ℕ → Files S → ℕ → Memory → (src offset length total : ℕ) → Option (Run (ℕ × Files S))
  unfolding write_chunk
  write_loop zero s x mem src offset length total = none
  write_loop (suc n) s x mem src offset length total =
      let chunk = chunk_size offset length total in
      let rest = λ (t : Files S).
        write_loop n t x mem (src + chunk) ((offset + chunk) % 2 ^ 32) length (total + chunk) in
      let round =
        inode_mapblock s x (offset / block_size)
        >>=? write_chunk x mem src offset length total rest in
      if ltb total length then round else some (write_done s x offset total)

  pub inode_write :
      ℕ → Devices S → Files S → ℕ → Memory → (src offset length : ℕ) → Option (Run (ℕ × Files S))
  unfolding write_loop
  inode_write fuel dev s x mem src offset length =
      let d = (s.inodes x).disk in
      if d.type == fs_type_dev
      then some (dev.write d.double_indirect s x mem src offset length)
      else write_loop fuel s x mem src offset length 0
