-- ===== src/Fs/Block/Change.antt =====
-- A block that is opened, changed and closed.
use ucas_oslab.Base.{
  ℕ, ◌-◌, ◌<◌, ◌≡◌, refl, sym, ap, ◌∙◌, inl, inr, ltb, true, false, arith, Bool-cases, ==_ne,
  ==_refl,
}
use native.Mathlib.Decide.{ℕ_discrete}
use mathlib.Core.Path.{subst}
use ucas_oslab.Base.Run.{ok}
use ucas_oslab.Fs.Cache.{Sectors, IsLawful, block_size}
use ucas_oslab.Fs.Block.{Block, Blocks, block_concurrency, is_open, is_spare, set_refcnt}
use ucas_oslab.Fs.Block.Coherent.{
  InRange, view, IsValid, view_open, is_open_same, put_block-IsValid, view-put_block_other,
}
use ucas_oslab.Fs.Block.{set_data, block_close, change_block}
use ucas_oslab.Fs.Block.Open.{Opened, block_open-Opened}

-- Block `b` holds `bytes` after the state `s`, the other blocks hold what they held, and the buffers that
-- were spare are spare.
pub record Changed {S : Sectors} (s : Blocks S) (b : ℕ) (bytes : ℕ → ℕ) (u : Blocks S)
    : Type 0 where
  pub shows : view u b ≡ bytes
  pub others :
      (c j : ℕ) → InRange s.superblock c → j < block_size → (b ≡ c → ⊥) → view u c j ≡ view s c j
  pub valid : IsValid u
  pub same_superblock : u.superblock ≡ s.superblock
  pub spared : (k : ℕ) → is_spare s k ≡ true → is_spare u k ≡ true

module _ {S : Sectors} where
  -- The end of a change: new bytes in the open buffer, and its close.
  pub block_close-Changed :
      (s t : Blocks S) (b i : ℕ) (bytes : ℕ → ℕ)
      → Opened s b i t
      → (u : Blocks S) × (block_close (set_data t i bytes) i ≡ ok u) × Changed s b bytes u
  unfolding block_close
  block_close-Changed s t b i bytes o =
      let held : ltb 0 (t.blocks i).refcnt ≡ true = ground (arith, o.counted) in
      let m = set_data t i bytes in
      let u = set_refcnt m i ((m.blocks i).refcnt - 1) in
      let v_m = put_block-IsValid t i (record (t.blocks i) { bytes = bytes }) refl refl o.valid in
      let v_u =
        put_block-IsValid m i (record (m.blocks i) { refcnt = (m.blocks i).refcnt - 1 }) refl refl
          v_m in
      let shown : is_open u b i ≡ true = rw (==_refl i) o.holds in
      let written : (u.blocks i).bytes ≡ bytes = rw (==_refl i) refl in
      (
        u,
        rw (==_refl i, held) refl,
        record {
          shows = view_open u b i v_u o.place shown ∙ written;
          others = λ c j inside hj ne.
              let off_t : is_open t c i ≡ false = elim (Bool-cases (is_open t c i)) [
                | inr off ↦ off
                | inl on ↦ absurd (ne (is_open_same t b c i o.holds on))
              ] in
              let off_m : is_open m c i ≡ false = rw (==_refl i) off_t in
              view-put_block_other m i (record (m.blocks i) { refcnt = (m.blocks i).refcnt - 1 })
                refl refl c j off_m
              ∙ view-put_block_other t i (record (t.blocks i) { bytes = bytes }) refl refl c j off_t
              ∙ o.same_view c j inside hj;
          valid = v_u;
          same_superblock = o.same_superblock;
          spared = λ k spare. elim (ℕ_discrete i k) [
            | no ne ↦ rw (==_ne i k ne) (o.spared k ne ∙ spare)
            | yes e ↦
                let one = o.once (subst (λ x. is_spare s x ≡ true) (sym e) spare) in
                subst (λ x. is_spare u x ≡ true) e (rw (==_refl i) (ground (arith, one)))
          ];
        },
      )

-- Every block holds what it held, and the buffers that were spare are spare.
pub record Same {S : Sectors} (s u : Blocks S) : Type 0 where
  pub same_view : (c j : ℕ) → InRange s.superblock c → j < block_size → view u c j ≡ view s c j
  pub valid : IsValid u
  pub same_superblock : u.superblock ≡ s.superblock
  pub spared : (k : ℕ) → is_spare s k ≡ true → is_spare u k ≡ true

module _ {S : Sectors} where
  -- The close of an open buffer as it is.
  pub block_close-Same :
      (s t : Blocks S) (b i : ℕ)
      → Opened s b i t
      → (u : Blocks S) × (block_close t i ≡ ok u) × Same s u
  unfolding block_close
  block_close-Same s t b i o =
      let held : ltb 0 (t.blocks i).refcnt ≡ true = ground (arith, o.counted) in
      let u = set_refcnt t i ((t.blocks i).refcnt - 1) in
      let block : Block = record (t.blocks i) { refcnt = (t.blocks i).refcnt - 1 } in
      let v_u = put_block-IsValid t i block refl refl o.valid in
      (
        u,
        rw held refl,
        record {
          same_view = λ c j inside hj. elim (Bool-cases (is_open t c i)) [
            | inr off ↦ view-put_block_other t i block refl refl c j off ∙ o.same_view c j inside hj
            | inl here ↦
                let on : is_open u c i ≡ true = rw (==_refl i) here in
                let kept : (u.blocks i).bytes ≡ (t.blocks i).bytes = rw (==_refl i) refl in
                ap (λ f. f j)
                  (view_open u c i v_u o.place on
                    ∙ kept
                    ∙ sym (view_open t c i o.valid o.place here))
                ∙ o.same_view c j inside hj
          ];
          valid = v_u;
          same_superblock = o.same_superblock;
          spared = λ k spare. elim (ℕ_discrete i k) [
            | no ne ↦ rw (==_ne i k ne) (o.spared k ne ∙ spare)
            | yes e ↦
                let one = o.once (subst (λ x. is_spare s x ≡ true) (sym e) spare) in
                subst (λ x. is_spare u x ≡ true) e (rw (==_refl i) (ground (arith, one)))
          ];
        },
      )

module _ {S : Sectors} (lawful : IsLawful S) where
  -- A change of a block in range succeeds while a buffer is spare.
  pub change_block-Changed :
      (s : Blocks S) (b : ℕ) (change : (ℕ → ℕ) → ℕ → ℕ) (k : ℕ)
      → IsValid s
      → InRange s.superblock b
      → k < block_concurrency
      → is_spare s k ≡ true
      → (old : ℕ → ℕ) × (u : Blocks S) × ((j : ℕ) → j < block_size → old j ≡ view s b j)
        × (change_block s b change ≡ ok u)
        × Changed s b (change old) u
  change_block-Changed s b change k v near hk spare =
      let (i, t, e, o) = block_open-Opened lawful s b v near k hk spare in
      let (u, f, changed) = block_close-Changed s t b i (change (t.blocks i).bytes) o in
      ((t.blocks i).bytes, u, o.shows, rw e f, changed)
