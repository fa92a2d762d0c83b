-- ===== src/Fs/Inode/Map.antt =====
-- kernel/fs/inode.c: the blocks of an inode, direct, indirect and double indirect. The inode is at the
-- place `x` of the table.
use ucas_oslab.Base.{ℕ, ◌+◌, ◌-◌, ◌*◌, ◌/◌, ◌%◌, ◌^◌, ltb, false, Option, none, some, if◌then◌else◌}
use ucas_oslab.Base.Run.{Run, ok, ◌>>=◌, ◌>>◌, asserts, for_run}
use ucas_oslab.Base.Update.{update}
use ucas_oslab.Fs.Cache.{Sectors}
use ucas_oslab.Fs.Block.{Blocks, set_data, block_open, block_close, block_allocset, block_free}
use ucas_oslab.Fs.Inode.{
  Diskinode, Inode, Files, num_direct_blocks, num_indirect_blocks, minus_one, is_negative, arr,
  set_arr,
}

module _ {S : Sectors} where
  abbrev pub put_inode : Files S → ℕ → Inode → Files S
  put_inode s x inode = record s { inodes = update s.inodes x inode }

  abbrev pub set_disk : Files S → ℕ → Diskinode → Files S
  set_disk s x d = put_inode s x (record (s.inodes x) { disk = d })

  abbrev pub set_store : Files S → Blocks S → Files S
  set_store s store = record s { store = store }

  abbrev pub set_direct : Files S → ℕ → ℕ → ℕ → Files S
  set_direct s x i v =
      set_disk s x (record (s.inodes x).disk { direct = update (s.inodes x).disk.direct i v })

  abbrev pub set_indirect : Files S → ℕ → ℕ → Files S
  set_indirect s x v = set_disk s x (record (s.inodes x).disk { indirect = v })

  abbrev pub set_double_indirect : Files S → ℕ → ℕ → Files S
  set_double_indirect s x v = set_disk s x (record (s.inodes x).disk { double_indirect = v })

  -- A block for direct[i], if `block_allocset` has one.
  abbrev new_direct : Files S → ℕ → ℕ → Option ℕ × Blocks S → Option ℕ × Files S
  new_direct s x i (none, store) = (none, set_store s store)
  new_direct s x i (some b, store) = (some b, set_direct (set_store s store) x i b)

  unfoldable pub map_direct : Files S → ℕ → ℕ → Run (Option ℕ × Files S)
  map_direct s x i =
      let b = (s.inodes x).disk.direct i in
      if is_negative b
      then (block_allocset s.store 0 >>= λ r. ok (new_direct s x i r))
      else ok (some b, s)

  -- A block for element `i` of the array in the open buffer `p`, filled with `val`.
  abbrev new_element : ℕ → ℕ → Option ℕ × Blocks S → Option ℕ × Blocks S
  new_element p i (none, store) = (none, store)
  new_element p i (some b, store) = (some b, set_data store p (set_arr (store.blocks p).bytes i b))

  unfoldable pub map_element : Blocks S → ℕ → ℕ → ℕ → Run (Option ℕ × Blocks S)
  map_element store p i val =
      let b = arr (store.blocks p).bytes i in
      if is_negative b
      then (block_allocset store val >>= λ r. ok (new_element p i r))
      else ok (some b, store)

  -- The block of element `i` of the array in block `b`, which is opened and closed.
  unfoldable pub map_array : Blocks S → ℕ → ℕ → Run (Option ℕ × Blocks S)
  map_array store b i = block_open store b >>= λ (p, t).
      map_element t p i 0 >>= λ (r, u). block_close u p >>= λ v. ok (r, v)

  abbrev stored : Files S → Option ℕ × Blocks S → Option ℕ × Files S
  stored s (r, store) = (r, set_store s store)

  -- With the block of the array at hand, or -1 when there is none.
  abbrev in_indirect : ℕ → Option ℕ × Files S → Run (Option ℕ × Files S)
  in_indirect i (none, s) = ok (none, s)
  in_indirect i (some b, s) = map_array s.store b i >>= λ r. ok (stored s r)

  abbrev new_indirect : Files S → ℕ → Option ℕ × Blocks S → Option ℕ × Files S
  new_indirect s x (none, store) = (none, set_store s store)
  new_indirect s x (some b, store) = (some b, set_indirect (set_store s store) x b)

  abbrev the_indirect : Files S → ℕ → Run (Option ℕ × Files S)
  the_indirect s x =
      let b = (s.inodes x).disk.indirect in
      if is_negative b
      then (block_allocset s.store 0xff >>= λ r. ok (new_indirect s x r))
      else ok (some b, s)

  abbrev new_double : Files S → ℕ → Option ℕ × Blocks S → Option ℕ × Files S
  new_double s x (none, store) = (none, set_store s store)
  new_double s x (some b, store) = (some b, set_double_indirect (set_store s store) x b)

  abbrev the_double : Files S → ℕ → Run (Option ℕ × Files S)
  the_double s x =
      let b = (s.inodes x).disk.double_indirect in
      if is_negative b
      then (block_allocset s.store 0xff >>= λ r. ok (new_double s x r))
      else ok (some b, s)

  -- The block of the array that the root names, and then the root's close.
  abbrev in_row : ℕ → Option ℕ × Blocks S → Run (Option ℕ × Blocks S)
  in_row offset (none, store) = ok (none, store)
  in_row offset (some b, store) = map_array store b offset

  abbrev in_root : ℕ → Option ℕ × Files S → Run (Option ℕ × Files S)
  in_root i (none, s) = ok (none, s)
  in_root i (some root, s) = block_open s.store root >>= λ (p, t).
      map_element t p (i / num_indirect_blocks) 0xff >>= λ q.
      in_row (i % num_indirect_blocks) q >>= λ (r, u).
      block_close u p >>= λ v. ok (r, set_store s v)

  -- The block of an inode for a place in its file; -1 is none.
  unfoldable pub inode_mapblock : Files S → ℕ → ℕ → Run (Option ℕ × Files S)
  inode_mapblock s x block_in_file =
      let i = block_in_file - num_direct_blocks in
      let j = i - num_indirect_blocks in
      if ltb block_in_file num_direct_blocks
      then map_direct s x block_in_file
      else if ltb i num_indirect_blocks
      then the_indirect s x >>= in_indirect i
      else asserts (ltb j (num_indirect_blocks * num_indirect_blocks))
        >> (the_double s x >>= in_root j)

  abbrev free_direct : ℕ → ℕ → Files S → Run (Files S)
  free_direct x i s =
      let b = (s.inodes x).disk.direct i in
      if is_negative b
      then ok s
      else block_free s.store b >>= λ t. ok (set_direct (set_store s t) x i minus_one)

  -- Frees the block of element `i` of the array in the open buffer `p`.
  abbrev free_element : ℕ → ℕ → Blocks S → Run (Blocks S)
  free_element p i store =
      let b = arr (store.blocks p).bytes i in if is_negative b then ok store else block_free store b

  -- Frees the blocks that the array in block `b` names, and `b`.
  unfoldable pub free_array : Blocks S → ℕ → Run (Blocks S)
  free_array store b = block_open store b >>= λ (p, t).
      for_run num_indirect_blocks 0 (free_element p) t >>= λ u.
      block_close u p >>= λ v. block_free v b

  abbrev free_row : ℕ → ℕ → Blocks S → Run (Blocks S)
  free_row p i store =
      let b = arr (store.blocks p).bytes i in if is_negative b then ok store else free_array store b

  abbrev free_indirect : ℕ → Files S → Run (Files S)
  free_indirect x s =
      let b = (s.inodes x).disk.indirect in
      if is_negative b
      then ok s
      else free_array s.store b >>= λ t. ok (set_indirect (set_store s t) x minus_one)

  abbrev free_double : ℕ → Files S → Run (Files S)
  free_double x s =
      let b = (s.inodes x).disk.double_indirect in
      if is_negative b
      then ok s
      else (block_open s.store b >>= λ (p, t). for_run num_indirect_blocks 0 (free_row p) t >>= λ u.
          block_close u p >>= λ v.
          block_free v b >>= λ w. ok (set_double_indirect (set_store s w) x minus_one))

  abbrev drop_inode : ℕ → Files S → Files S
  drop_inode x s =
      let inode = s.inodes x in
      let sb = s.store.superblock in
      record {
        store = record s.store {
          superblock = record sb { used_inode = (sb.used_inode + (2 ^ 32 - 1)) % 2 ^ 32 };
        };
        inodes =
            update s.inodes x
              (record inode { disk = record inode.disk { type = 0 }; valid = false });
      }

  unfoldable pub inode_delete : Files S → ℕ → Run (Files S)
  inode_delete s x =
      for_run num_direct_blocks 0 (free_direct x) s >>= free_indirect x >>= free_double x >>= λ t.
      ok (drop_inode x t)
