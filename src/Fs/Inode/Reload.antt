-- ===== src/Fs/Inode/Reload.antt =====
-- An inode that is written to its block and read again, through the buffers and the disk.
use ucas_oslab.Base.{ℕ, ◌+◌, ◌*◌, ◌≤◌, ◌<◌, ◌≡◌, refl, sym, ap, ◌∙◌, true, arith, ==_refl}
use mathlib.Core.Path.{subst}
use ucas_oslab.Base.Run.{ok}
use ucas_oslab.Fs.Cache.{Sectors, IsLawful, block_size}
use ucas_oslab.Fs.Block.{Superblock, block_concurrency, is_spare}
use ucas_oslab.Fs.Block.Coherent.{InRange, IsValid}
use ucas_oslab.Fs.Block.Open.{block_open-Opened}
use ucas_oslab.Fs.Block.Change.{change_block-Changed, block_close-Same}
use ucas_oslab.Fs.Inode.{
  Diskinode, Files, inode_bytes, word16, word32, store_inode, load_inode, inode_to_block,
  inode_to_offset,
}
use ucas_oslab.Fs.Inode.Layout.{Fits, SameFields, load_inode-store_inode}
use ucas_oslab.Fs.Inode.Map.{set_disk, set_store}
use ucas_oslab.Fs.Inode.Table.{write_inode, read_inode}

word32-congr :
    (f g : ℕ → ℕ) (i : ℕ)
    → ((j : ℕ) → j < block_size → f j ≡ g j)
    → i + 4 ≤ block_size
    → word32 f i ≡ word32 g i
word32-congr f g i same h =
    rw
      (
        same i (omega arith),
        same (i + 1) (omega arith),
        same (i + 2) (omega arith),
        same (i + 3) (omega arith),
      )
      refl

word16-congr :
    (f g : ℕ → ℕ) (i : ℕ)
    → ((j : ℕ) → j < block_size → f j ≡ g j)
    → i + 2 ≤ block_size
    → word16 f i ≡ word16 g i
word16-congr f g i same h = rw (same i (omega arith), same (i + 1) (omega arith)) refl

-- The bytes of the block are enough.
load_inode_reads :
    (f g : ℕ → ℕ) (offset : ℕ) (d : Diskinode)
    → ((j : ℕ) → j < block_size → f j ≡ g j)
    → offset + inode_bytes ≤ block_size
    → SameFields (load_inode g offset) d
    → SameFields (load_inode f offset) d
unfolding load_inode
load_inode_reads f g offset d same h e = record {
  type = word16-congr f g offset same (omega arith) ∙ e.type;
  link_count = word16-congr f g (offset + 2) same (omega arith) ∙ e.link_count;
  inode_num = word32-congr f g (offset + 4) same (omega arith) ∙ e.inode_num;
  size = word32-congr f g (offset + 8) same (omega arith) ∙ e.size;
  blocks = word32-congr f g (offset + 12) same (omega arith) ∙ e.blocks;
  direct = λ i hi. word32-congr f g (offset + 16 + 4 * i) same (omega arith) ∙ e.direct i hi;
  indirect = word32-congr f g (offset + 56) same (omega arith) ∙ e.indirect;
  double_indirect = word32-congr f g (offset + 60) same (omega arith) ∙ e.double_indirect;
}

module _ {S : Sectors} (lawful : IsLawful S) where
  -- While a buffer is spare, an inode whose fields fit their bits and whose block is in range can be written
  -- to its block and read from there, through whatever buffers are taken, and has the same fields.
  pub read_inode-write_inode :
      (s : Files S) (x k : ℕ)
      → IsValid s.store
      → InRange s.store.superblock (inode_to_block s.store.superblock (s.inodes x).disk.inode_num)
      → k < block_concurrency
      → is_spare s.store k ≡ true
      → Fits (s.inodes x).disk
      → (t : Files S) × (u : Files S) × (write_inode s x ≡ ok t)
        × (read_inode t x ≡ ok u)
        × SameFields (u.inodes x).disk (s.inodes x).disk
  unfolding write_inode read_inode
  read_inode-write_inode s x k v near hk spare fits =
      let d = (s.inodes x).disk in
      let b = inode_to_block s.store.superblock d.inode_num in
      let offset = inode_to_offset d.inode_num in
      let (old, w, shown, e, c) =
        change_block-Changed lawful s.store b (λ bytes. store_inode bytes offset d) k v near hk
          spare in
      let b_w : inode_to_block w.superblock d.inode_num ≡ b =
        ap (λ (z : Superblock). inode_to_block z d.inode_num) c.same_superblock in
      let near_w : InRange w.superblock b = subst (λ z. InRange z b) (sym c.same_superblock) near in
      let (p, o, f, opened) = block_open-Opened lawful w b c.valid near_w k hk (c.spared k spare) in
      let (q, g, same) = block_close-Same w o b p opened in
      let t = set_store s w in
      let u = set_disk (set_store t q) x (load_inode (o.blocks p).bytes offset) in
      let read : read_inode t x ≡ ok u = rw (b_w, f, g) refl in
      let bytes : (j : ℕ) → j < block_size → (o.blocks p).bytes j ≡ store_inode old offset d j =
        λ j hj. opened.shows j hj ∙ ap (λ h. h j) c.shows in
      let here : (u.inodes x).disk ≡ load_inode (o.blocks p).bytes offset = rw (==_refl x) refl in
      (
        t,
        u,
        rw e refl,
        read,
        subst (λ z. SameFields z d) (sym here)
            (load_inode_reads (o.blocks p).bytes (store_inode old offset d) offset d bytes
              (omega arith) (load_inode-store_inode old offset d fits)),
      )
