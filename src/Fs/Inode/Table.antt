-- ===== src/Fs/Inode/Table.antt =====
-- kernel/fs/inode.c: the table of inodes in memory, and the way between it and the disk. An inode is at a
-- place `x` of the table.
use ucas_oslab.Base.{
  ℕ, zero, suc, ◌+◌, ◌-◌, ◌%◌, ◌^◌, ◌==◌, ltb, Bool, true, false, not, ◌||◌, ◌&&◌, Option, none,
  some, if◌then◌else◌,
}
use ucas_oslab.Base.Run.{Run, ok, halt, ◌>>=◌, ◌>>◌, asserts, for_run}
use ucas_oslab.Locking.Slots.{first}
use ucas_oslab.Fs.Cache.{Sectors}
use ucas_oslab.Fs.Block.{Blocks, set_data, block_open, block_close, change_block}
use ucas_oslab.Fs.Inode.{
  Files, ninode, fs_type_dir, fs_type_file, fs_type_dev, word16, store_inode, load_inode,
  inode_to_block, inode_to_offset, new_diskinode, no_inode,
}
use ucas_oslab.Fs.Inode.Map.{put_inode, set_disk, set_store, inode_delete}

module _ {S : Sectors} where
  -- The tests of the loop of `inode_ref`.
  abbrev pub is_referenced : Files S → ℕ → ℕ → Bool
  is_referenced s inode_num i =
      let inode = s.inodes i in
      not (inode.disk.type == 0) && (inode.disk.inode_num == inode_num && ltb 0 inode.ref_count)

  abbrev pub is_empty : Files S → ℕ → Bool
  is_empty s i = (s.inodes i).disk.type == 0

  abbrev pub referred : Files S → ℕ → Option ℕ → Run (ℕ × Files S)
  referred s inode_num none = halt
  referred s inode_num (some i) =
      let inode = s.inodes i in
      ok (
        i,
        put_inode s i (record inode {
          disk = record inode.disk { inode_num = inode_num };
          ref_count = 1;
          valid = false;
        }),
      )

  abbrev pub found : Files S → ℕ → Option ℕ → Run (ℕ × Files S)
  found s inode_num (some i) =
      ok (
        i,
        put_inode s i (record (s.inodes i) { ref_count = ((s.inodes i).ref_count + 1) % 2 ^ 16 }),
      )
  found s inode_num none = referred s inode_num (first (is_empty s) ninode 0)

  unfoldable pub inode_ref : Files S → ℕ → Run (ℕ × Files S)
  inode_ref s inode_num = found s inode_num (first (is_referenced s inode_num) ninode 0)

  -- The inode's bytes, written to its block.
  unfoldable pub write_inode : Files S → ℕ → Run (Files S)
  write_inode s x =
      let d = (s.inodes x).disk in
      change_block s.store (inode_to_block s.store.superblock d.inode_num)
        (λ bytes. store_inode bytes (inode_to_offset d.inode_num) d)
      >>= λ t. ok (set_store s t)

  unfoldable pub inode_sync : Files S → ℕ → Run (Files S)
  inode_sync s x = asserts (s.inodes x).acquired >> write_inode s x

  -- The inode's bytes, read from its block.
  unfoldable pub read_inode : Files S → ℕ → Run (Files S)
  read_inode s x =
      let d = (s.inodes x).disk in
      block_open s.store (inode_to_block s.store.superblock d.inode_num) >>= λ (p, t).
      block_close t p >>= λ u.
      ok (set_disk (set_store s u) x (load_inode (t.blocks p).bytes (inode_to_offset d.inode_num)))

  abbrev set_acquired : Files S → ℕ → Bool → Files S
  set_acquired s x b = put_inode s x (record (s.inodes x) { acquired = b })

  abbrev set_valid : Files S → ℕ → Bool → Files S
  set_valid s x b = put_inode s x (record (s.inodes x) { valid = b })

  unfoldable pub inode_open : Files S → ℕ → Run (Files S)
  inode_open s x =
      let t = set_acquired s x true in
      if (s.inodes x).valid
      then ok t
      else (read_inode t x >>= λ u.
          asserts (not ((u.inodes x).disk.type == 0)) >> ok (set_valid u x true))

  unfoldable pub inode_unlock : Files S → ℕ → Run (Files S)
  inode_unlock s x = asserts (s.inodes x).acquired >> ok (set_acquired s x false)

  unfoldable pub inode_clear : Files S → ℕ → Run (Files S)
  inode_clear s x =
      asserts ((s.inodes x).ref_count == 0)
      >> ((if (s.inodes x).valid then write_inode s x else ok s) >>= λ t.
          ok (put_inode t x no_inode))

  -- The end of `inode_deref`: one reference less, on 16 bits.
  unfoldable pub drop_ref_count : Files S → ℕ → Run (Files S)
  drop_ref_count s x =
      let n = ((s.inodes x).ref_count + (2 ^ 16 - 1)) % 2 ^ 16 in
      let t = put_inode s x (record (s.inodes x) { ref_count = n }) in
      if n == 0 then inode_clear t x else ok t

  -- `inode_close` within `inode_deref`: the inode is not valid once `inode_delete` has run, so that its
  -- `inode_deref` does not come here again.
  abbrev close_deleted : Files S → ℕ → Run (Files S)
  close_deleted s x =
      inode_unlock s x >>= λ t. asserts (ltb 0 (t.inodes x).ref_count) >> drop_ref_count t x

  abbrev delete_unlinked : Files S → ℕ → Run (Files S)
  delete_unlinked s x = inode_open s x >>= λ t. inode_delete t x >>= λ u. close_deleted u x

  unfoldable pub inode_deref : Files S → ℕ → Run (Files S)
  inode_deref s x =
      let inode = s.inodes x in
      asserts (ltb 0 inode.ref_count)
      >> ((if inode.ref_count == 1 && (inode.valid && inode.disk.link_count == 0)
            then delete_unlinked s x
            else ok s)
          >>= λ t. drop_ref_count t x)

  unfoldable pub inode_close : Files S → ℕ → Run (Files S)
  inode_close s x = inode_unlock s x >>= λ t. inode_deref t x

  abbrev add_used_inode : Blocks S → Blocks S
  add_used_inode s = record s {
    superblock = record s.superblock { used_inode = (s.superblock.used_inode + 1) % 2 ^ 32 };
  }

  -- One round of the loop of `inode_alloc`: the inode `i` in the open buffer `p`.
  abbrev alloc_at :
      Files S → Blocks S → ℕ → ℕ → ℕ → (Files S → Run (ℕ × Files S)) → Run (ℕ × Files S)
  alloc_at s t p i type rest =
      let offset = inode_to_offset i in
      let bytes = (t.blocks p).bytes in
      if word16 bytes offset == 0
      then (block_close
            (set_data (add_used_inode t) p (store_inode bytes offset (new_diskinode type i))) p
          >>= λ u. inode_ref (set_store s u) i)
      else (block_close t p >>= λ u. rest (set_store s u))

  -- The loop with `n` rounds left at inode `i`.
  unfoldable pub alloc_loop : ℕ → ℕ → ℕ → Files S → Run (ℕ × Files S)
  alloc_loop zero i type s = halt
  alloc_loop (suc n) i type s =
      let rest = λ (t : Files S). alloc_loop n (suc i) type t in
      block_open s.store (inode_to_block s.store.superblock i) >>= λ (p, t).
      alloc_at s t p i type rest

  unfoldable pub inode_alloc : Files S → ℕ → Run (ℕ × Files S)
  inode_alloc s type =
      asserts (type == fs_type_file || (type == fs_type_dir || type == fs_type_dev))
      >> alloc_loop (s.store.superblock.inode_count - 1) 1 type s

  unfoldable pub init_inodes : Files S → Run (Files S)
  init_inodes s = for_run ninode 0 (λ i t. inode_clear t i) s
