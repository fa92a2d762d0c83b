-- ===== src/Fs/Block/Coherent.antt =====
-- The buffers are transparent: what a block holds, in its buffer or on the disk, is the same after
-- `block_open`, which shows it in the buffer that it returns.
use ucas_oslab.Base.{
  ℕ, zero, suc, ◌+◌, ◌*◌, ◌^◌, ◌≤◌, ◌<◌, ◌≡◌, refl, sym, ap, ◌∙◌, ◌⊎◌, inl, inr, Bool, true, false,
  Option, none, some, arith, Bool-cases, Option-cases, ==_iff, ==_ne, ==_refl,
}
use native.Mathlib.Decide.{ℕ_discrete}
use mathlib.Core.Path.{subst}
use ucas_oslab.Base.Update.{update}
use ucas_oslab.Locking.Slots.{first, first-some, first_found, first_only, first-congr}
use ucas_oslab.Fs.Cache.{Sectors, IsLawful, block_size, nsector_block}
use ucas_oslab.Fs.Block.{
  Superblock, Block, Blocks, sector_of, block_concurrency, block_read, is_open, put_block,
  write_back,
}

pub first_absent :
    (f : ℕ → Bool) (n i : ℕ) → ((j : ℕ) → i ≤ j → j < i + n → f j ≡ false) → first f n i ≡ none
first_absent f zero i h = refl
first_absent f (suc n) i h =
    rw (h i (omega arith) (omega arith))
      (first_absent f n (suc i) (λ j low high. h j (omega arith) (omega arith)))

pub first_away : (f : ℕ → Bool) (n j : ℕ) → first f n 0 ≡ none → j < n → f j ≡ false
first_away f n j e h = elim (Bool-cases (f j)) [
  | inr off ↦ off
  | inl on ↦
      let (k, found) = first_found f n 0 j on (omega arith) (omega arith) in
      absurd (ground (arith, e, found))
]

-- The block's sectors lie below 2^32.
abbrev pub InRange : Superblock → ℕ → Type 0
InRange superblock b = superblock.start_sector + b * nsector_block + nsector_block ≤ 2 ^ 32

module _ {S : Sectors} where
  abbrev seen : Blocks S → ℕ → Option ℕ → ℕ → ℕ
  seen s b (some k) = (s.blocks k).bytes
  seen s b none = block_read s b

  -- What a block holds: the bytes of its buffer, or those on the disk.
  unfoldable pub view : Blocks S → ℕ → ℕ → ℕ
  unfolding seen
  view s b = seen s b (first (is_open s b) block_concurrency 0)

  -- No block has two buffers.
  pub record IsValid (s : Blocks S) : Type 0 where
    pub unique :
        (b i j : ℕ)
        → i < block_concurrency
        → j < block_concurrency
        → is_open s b i ≡ true
        → is_open s b j ≡ true
        → i ≡ j
    pub inside : (b i : ℕ) → i < block_concurrency → is_open s b i ≡ true → InRange s.superblock b

  pub view_open :
      (s : Blocks S) (b k : ℕ)
      → IsValid s
      → k < block_concurrency
      → is_open s b k ≡ true
      → view s b ≡ (s.blocks k).bytes
  unfolding view
  view_open s b k v h on =
      rw
        (first_only (is_open s b) block_concurrency k on h
          (λ j low other. v.unique b j k low h other on))
        refl

  pub view_closed :
      (s : Blocks S) (b : ℕ)
      → ((k : ℕ) → k < block_concurrency → is_open s b k ≡ false)
      → view s b ≡ block_read s b
  unfolding view
  view_closed s b h =
      rw (first_absent (is_open s b) block_concurrency 0 (λ j low high. h j (omega arith))) refl

  pub is_open_same :
      (s : Blocks S) (b c k : ℕ) → is_open s b k ≡ true → is_open s c k ≡ true → b ≡ c
  is_open_same s b c k p q = ground arith

  -- A buffer that is changed and stays the buffer of its block.
  module _ (s : Blocks S) (i : ℕ) (block : Block) (same_valid : block.valid ≡ (s.blocks i).valid)
      (same_num : block.block_num ≡ (s.blocks i).block_num) where
    is_open-put_block : (c k : ℕ) → is_open (put_block s i block) c k ≡ is_open s c k
    is_open-put_block c k = elim (ℕ_discrete i k) [
      | no ne ↦ rw (==_ne i k ne) refl
      | yes e ↦
          subst (λ x. is_open (put_block s i block) c x ≡ is_open s c x) e
            (rw (==_refl i, same_valid, same_num) refl)
    ]

    pub put_block-IsValid : IsValid s → IsValid (put_block s i block)
    put_block-IsValid v = record {
      unique = λ b j k hj hk p q.
          v.unique b j k hj hk (sym (is_open-put_block b j) ∙ p) (sym (is_open-put_block b k) ∙ q);
      inside = λ b j hj p. v.inside b j hj (sym (is_open-put_block b j) ∙ p);
    }

    -- The other blocks stay as they are.
    pub view-put_block_other :
        (c j : ℕ) → is_open s c i ≡ false → view (put_block s i block) c j ≡ view s c j
    unfolding view
    view-put_block_other c j off =
        let found =
          first-congr (is_open (put_block s i block) c) (is_open s c) block_concurrency 0
            (is_open-put_block c) in
        elim (Option-cases (first (is_open s c) block_concurrency 0)) [
          | inl e ↦ rw (found, e) refl
          | inr (k, e) ↦
              let ne : i ≡ k → ⊥ = λ p. ground (
                arith,
                off,
                ap (is_open s c) p,
                first-some (is_open s c) block_concurrency 0 k e,
              ) in
              let away : update s.blocks i block k ≡ s.blocks k = rw (==_ne i k ne) refl in
              rw (found, e) (ap (λ (x : Block). x.bytes j) away)
        ]

module _ {S : Sectors} (lawful : IsLawful S) where
  open lawful use {read-write, read-write_apart}

  -- Blocks in range have no sector in common.
  sector_of_apart :
      (superblock : Superblock) (b c : ℕ)
      → (b ≡ c → ⊥)
      → InRange superblock b
      → InRange superblock c
      → (sector_of superblock b + nsector_block ≤ sector_of superblock c)
        ⊎ (sector_of superblock c + nsector_block ≤ sector_of superblock b)
  sector_of_apart superblock b c ne low high = ground arith

  -- The write of the buffer that is taken keeps what the disk shows of the other blocks, and shows its
  -- bytes.
  pub read-write_back_other :
      (s : Blocks S) (i c j : ℕ)
      → IsValid s
      → i < block_concurrency
      → is_open s c i ≡ false
      → InRange s.superblock c
      → j < block_size
      → block_read (write_back s i) c j ≡ block_read s c j
  read-write_back_other s i c j v h off near hj = elim (Bool-cases (s.blocks i).valid) [
    | inr idle ↦ rw idle refl
    | inl used ↦
        let open_i : is_open s (s.blocks i).block_num i ≡ true =
          rw (used, ==_refl (s.blocks i).block_num) refl in
        let ne : (s.blocks i).block_num ≡ c → ⊥ =
          λ e. ground (arith, off, used, ==_iff (s.blocks i).block_num c) in
        rw used (
          read-write_apart s.disk (sector_of s.superblock (s.blocks i).block_num)
            (sector_of s.superblock c) (s.blocks i).bytes j hj
            (sector_of_apart s.superblock (s.blocks i).block_num c ne
              (v.inside (s.blocks i).block_num i h open_i) near))
  ]

  pub read-write_back_self :
      (s : Blocks S) (i c j : ℕ)
      → is_open s c i ≡ true
      → j < block_size
      → block_read (write_back s i) c j ≡ (s.blocks i).bytes j
  read-write_back_self s i c j on hj =
      let used : (s.blocks i).valid ≡ true = ground arith in
      let same : (s.blocks i).block_num ≡ c = ground arith in
      rw (used, same) (read-write s.disk (sector_of s.superblock c) (s.blocks i).bytes j hj)
