-- ===== src/Fs/Inode/Layout.antt =====
-- An inode that is written to its block is read back, and the other inodes of the block stay.
use ucas_oslab.Base.{
  ℕ, ◌+◌, ◌-◌, ◌*◌, ◌/◌, ◌%◌, ◌^◌, ◌≤◌, ◌<◌, ◌≡◌, refl, ap, ◌∙◌, ltb, leb, true, false, arith,
}
use ucas_oslab.Fs.Inode.{
  Diskinode, byte, word16, word32, inode_byte, inode_bytes, store_inode, load_inode,
  num_direct_blocks,
}

word16-byte :
    (bytes : ℕ → ℕ) (i v : ℕ)
    → v < 2 ^ 16
    → bytes i ≡ byte v 0
    → bytes (i + 1) ≡ byte v 1
    → word16 bytes i ≡ v
word16-byte bytes i v h a b = rw (a, b) (omega arith)

word32-byte :
    (bytes : ℕ → ℕ) (i v : ℕ)
    → v < 2 ^ 32
    → bytes i ≡ byte v 0
    → bytes (i + 1) ≡ byte v 1
    → bytes (i + 2) ≡ byte v 2
    → bytes (i + 3) ≡ byte v 3
    → word32 bytes i ≡ v
word32-byte bytes i v h a b c d = rw (a, b, c, d) (omega arith)

stored_byte :
    (bytes : ℕ → ℕ) (offset j k : ℕ) (d : Diskinode)
    → k < inode_bytes
    → j ≡ offset + k
    → store_inode bytes offset d j ≡ inode_byte d k
unfolding store_inode
stored_byte bytes offset j k d h e =
    let low : leb offset j ≡ true = ground arith in
    let high : ltb j (offset + inode_bytes) ≡ true = ground arith in
    let place : j - offset ≡ k = omega arith in rw (low, high, place) refl

-- Each field fits its bits.
pub record Fits (d : Diskinode) : Type 0 where
  pub type : d.type < 2 ^ 16
  pub link_count : d.link_count < 2 ^ 16
  pub inode_num : d.inode_num < 2 ^ 32
  pub size : d.size < 2 ^ 32
  pub blocks : d.blocks < 2 ^ 32
  pub direct : (i : ℕ) → i < num_direct_blocks → d.direct i < 2 ^ 32
  pub indirect : d.indirect < 2 ^ 32
  pub double_indirect : d.double_indirect < 2 ^ 32

-- The two have the same fields.
pub record SameFields (d e : Diskinode) : Type 0 where
  pub type : d.type ≡ e.type
  pub link_count : d.link_count ≡ e.link_count
  pub inode_num : d.inode_num ≡ e.inode_num
  pub size : d.size ≡ e.size
  pub blocks : d.blocks ≡ e.blocks
  pub direct : (i : ℕ) → i < num_direct_blocks → d.direct i ≡ e.direct i
  pub indirect : d.indirect ≡ e.indirect
  pub double_indirect : d.double_indirect ≡ e.double_indirect

module _ (bytes : ℕ → ℕ) (offset : ℕ) (d : Diskinode) where
  stored :
      (j k : ℕ) → k < inode_bytes → j ≡ offset + k → store_inode bytes offset d j ≡ inode_byte d k
  stored j k h e = stored_byte bytes offset j k d h e

  -- A field of four bytes at `a`.
  field :
      (a v : ℕ)
      → a + 4 ≤ inode_bytes
      → v < 2 ^ 32
      → inode_byte d a ≡ byte v 0
      → inode_byte d (a + 1) ≡ byte v 1
      → inode_byte d (a + 2) ≡ byte v 2
      → inode_byte d (a + 3) ≡ byte v 3
      → word32 (store_inode bytes offset d) (offset + a) ≡ v
  field a v h small e f g k =
      word32-byte (store_inode bytes offset d) (offset + a) v small
        (stored (offset + a) a (omega arith) refl ∙ e)
        (stored (offset + a + 1) (a + 1) (omega arith) (omega arith) ∙ f)
        (stored (offset + a + 2) (a + 2) (omega arith) (omega arith) ∙ g)
        (stored (offset + a + 3) (a + 3) (omega arith) (omega arith) ∙ k)

  direct_byte :
      (i k n : ℕ)
      → i < num_direct_blocks
      → k < 4
      → n ≡ 16 + 4 * i + k
      → inode_byte d n ≡ byte (d.direct i) k
  direct_byte i k n hi hk e =
      let past_2 : ltb n 2 ≡ false = ground arith in
      let past_4 : ltb n 4 ≡ false = ground arith in
      let past_8 : ltb n 8 ≡ false = ground arith in
      let past_12 : ltb n 12 ≡ false = ground arith in
      let past_16 : ltb n 16 ≡ false = ground arith in
      let before_56 : ltb n 56 ≡ true = ground arith in
      let place : (n - 16) / 4 ≡ i = omega arith in
      let rest : (n - 16) % 4 ≡ k = omega arith in
      rw (past_2, past_4, past_8, past_12, past_16, before_56, place, rest) refl

  -- An inode whose fields fit their bits is read back from the bytes as it was written.
  pub load_inode-store_inode :
      Fits d → SameFields (load_inode (store_inode bytes offset d) offset) d
  unfolding load_inode
  load_inode-store_inode f = record {
    type =
        word16-byte (store_inode bytes offset d) offset d.type f.type
          (stored offset 0 (omega arith) (omega arith)) (stored (offset + 1) 1 (omega arith) refl);
    link_count =
        word16-byte (store_inode bytes offset d) (offset + 2) d.link_count f.link_count
          (stored (offset + 2) 2 (omega arith) refl)
          (stored (offset + 2 + 1) 3 (omega arith) (omega arith));
    inode_num = field 4 d.inode_num (omega arith) f.inode_num refl refl refl refl;
    size = field 8 d.size (omega arith) f.size refl refl refl refl;
    blocks = field 12 d.blocks (omega arith) f.blocks refl refl refl refl;
    direct = λ i h.
        ap (word32 (store_inode bytes offset d)) (omega arith)
        ∙ field (16 + 4 * i) (d.direct i) (omega arith) (f.direct i h)
            (direct_byte i 0 (16 + 4 * i) h (omega arith) (omega arith))
            (direct_byte i 1 (16 + 4 * i + 1) h (omega arith) refl)
            (direct_byte i 2 (16 + 4 * i + 2) h (omega arith) refl)
            (direct_byte i 3 (16 + 4 * i + 3) h (omega arith) refl);
    indirect = field 56 d.indirect (omega arith) f.indirect refl refl refl refl;
    double_indirect =
        field 60 d.double_indirect (omega arith) f.double_indirect refl refl refl refl;
  }
