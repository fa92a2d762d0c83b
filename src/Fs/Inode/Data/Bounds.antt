-- ===== src/Fs/Inode/Data/Bounds.antt =====
-- The loops of `inode_read` end, and a read stays within the file.
use ucas_oslab.Base.{
  ℕ, zero, suc, ◌+◌, ◌-◌, ◌/◌, ◌%◌, ◌^◌, ◌≤◌, ◌<◌, ◌≡◌, inl, inr, ◌==◌, ltb, min, false, Option,
  none, some, arith, Bool-cases,
}
use ucas_oslab.Base.Run.{Run, ok, halt}
use ucas_oslab.Libs.Strings.{Memory}
use ucas_oslab.Fs.Cache.{Sectors, block_size}
use ucas_oslab.Fs.Block.{block_open, block_close}
use ucas_oslab.Fs.Inode.{Files, fs_type_dev}
use ucas_oslab.Fs.Inode.Map.{set_store, inode_mapblock}
use ucas_oslab.Fs.Inode.Data.{
  ◌>>=?◌, chunk_size, copy_bytes, ReadDone, read_done, Devices, read_chunk, read_loop, read_length,
  inode_read,
}

-- A run that has ended: it has halted, or has read at most `length` bytes.
pub data Ended {S : Sectors} (length : ℕ) : Option (Run (ReadDone S)) → Type 0 where
  halted : Ended length (some halt)
  read : (r : ReadDone S) → r.total ≤ length → Ended length (some (ok r))

module _ {S : Sectors} where
  Ended-then :
      {A : Type 0} (length : ℕ) (r : Run A) (rest : A → Option (Run (ReadDone S)))
      → ((a : A) → Ended length (rest a))
      → Ended length (r >>=? rest)
  Ended-then length halt rest h = halted
  Ended-then length (ok a) rest h = h a

  Ended-le : (m n : ℕ) (r : Option (Run (ReadDone S))) → m ≤ n → Ended m r → Ended n r
  Ended-le m n r h halted = halted
  Ended-le m n r h (read done small) = read done (omega arith)

  read_chunk-Ended :
      (mem : Memory) (dest offset length total : ℕ)
      (rest : Memory → Files S → Option (Run (ReadDone S)))
      → total ≤ length
      → ((m : Memory) (t : Files S) → Ended length (rest m t))
      → (r : Option ℕ × Files S) → Ended length (read_chunk mem dest offset length total rest r)
  unfolding read_chunk
  read_chunk-Ended mem dest offset length total rest small h (none, s) =
      read (read_done total s mem) small
  read_chunk-Ended mem dest offset length total rest small h (some b, s) =
      Ended-then length (block_open s.store b)
        (λ (p, t). block_close t p >>=? λ u.
          rest
            (copy_bytes mem dest (t.blocks p).bytes (offset % block_size)
              (chunk_size offset length total))
            (set_store s u))
        (λ (p, t).
          Ended-then length (block_close t p)
            (λ u.
              rest
                (copy_bytes mem dest (t.blocks p).bytes (offset % block_size)
                  (chunk_size offset length total))
                (set_store s u))
            (λ u.
              h
                (copy_bytes mem dest (t.blocks p).bytes (offset % block_size)
                  (chunk_size offset length total))
                (set_store s u)))

  read_loop-Ended :
      (fuel : ℕ) (s : Files S) (x : ℕ) (mem : Memory) (dest offset length total : ℕ)
      → total ≤ length
      → length < total + fuel
      → Ended length (read_loop fuel s x mem dest offset length total)
  unfolding read_loop
  read_loop-Ended zero s x mem dest offset length total small enough = absurd (omega arith)
  read_loop-Ended (suc n) s x mem dest offset length total small enough =
      elim (Bool-cases (ltb total length)) [
        | inr over ↦ rw over (read (read_done total s mem) small)
        | inl more ↦
            let chunk = chunk_size offset length total in
            let less : total < length = ground arith in
            let some_bytes : 0 < chunk = omega arith in
            let inside : total + chunk ≤ length = omega arith in
            rw more (
              Ended-then length (inode_mapblock s x (offset / block_size))
                (read_chunk mem dest offset length total
                  (λ m t. read_loop n t x m (dest + chunk) (offset + chunk) length (total + chunk)))
                (read_chunk-Ended mem dest offset length total
                  (λ m t. read_loop n t x m (dest + chunk) (offset + chunk) length (total + chunk))
                  small
                  (λ m t.
                    read_loop-Ended n t x m (dest + chunk) (offset + chunk) length (total + chunk)
                      inside (omega arith))))
      ]

-- A read from a file ends, with more fuel than bytes asked for. If the kernel does not halt in it, it
-- returns at most as many bytes as were asked for, and none past the end of the file.
pub inode_read-Ended :
    {S : Sectors} (dev : Devices S) (s : Files S) (x : ℕ) (mem : Memory)
    (dest offset length fuel : ℕ)
    → ((s.inodes x).disk.type == fs_type_dev) ≡ false
    → length < fuel
    → length < 2 ^ 32
    → offset < 2 ^ 32
    → Ended
        (min length ((s.inodes x).disk.size - offset))
        (inode_read fuel dev s x mem dest offset length)
unfolding inode_read
inode_read-Ended dev s x mem dest offset length fuel file enough small at =
    let size = (s.inodes x).disk.size in
    let bound : read_length size offset length ≤ min length (size - offset) =
      read_length_le size offset length small at in
    rw file (
      Ended-le (read_length size offset length) (min length (size - offset))
        (read_loop fuel s x mem dest offset (read_length size offset length) 0) bound
        (read_loop-Ended fuel s x mem dest offset (read_length size offset length) 0 (omega arith)
          (omega arith)))
  where
    read_length_le :
        (size offset length : ℕ)
        → length < 2 ^ 32
        → offset < 2 ^ 32
        → read_length size offset length ≤ min length (size - offset)
    read_length_le size offset length small at = ground arith
