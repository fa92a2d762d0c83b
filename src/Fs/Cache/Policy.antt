-- ===== src/Fs/Cache/Policy.antt =====
-- `cached_block_read` and `cached_block_write`.
use ucas_oslab.Base.{ℕ, ◌≡◌, refl, ◌⊎◌, inl, inr}
use ucas_oslab.Fs.Cache.{Sectors, IsLawful}

pub data Policy : Type 0 where
  policy_write_back policy_write_through : Policy

pub record CacheState (sd pages : Sectors) : Type 0 where
  pub policy : Policy
  pub card : sd.Disk
  pub cache : pages.Disk

module _ (sd pages : Sectors) where
  abbrev read_by : Policy → sd.Disk → pages.Disk → ℕ → ℕ → ℕ
  read_by policy_write_through card cache sector = sd.read card sector
  read_by policy_write_back card cache sector = pages.read cache sector

  abbrev pub cached_block_read : CacheState sd pages → ℕ → ℕ → ℕ
  cached_block_read s sector = read_by s.policy s.card s.cache sector

  abbrev write_by : Policy → CacheState sd pages → ℕ → (ℕ → ℕ) → CacheState sd pages
  write_by policy_write_through s sector bytes = record s { card = sd.write s.card sector bytes }
  write_by policy_write_back s sector bytes = record s { cache = pages.write s.cache sector bytes }

  abbrev pub cached_block_write : CacheState sd pages → ℕ → (ℕ → ℕ) → CacheState sd pages
  cached_block_write s sector bytes = write_by s.policy s sector bytes

  -- What kernel/fs/block.c sees.
  abbrev pub cached_sectors : Sectors
  cached_sectors = record {
    Disk = CacheState sd pages;
    read = cached_block_read;
    write = cached_block_write;
  }

  -- Whatever the policy, and the card and the pages being devices, `cached_block_read` and
  -- `cached_block_write` are a device: a block that was written is read back, and the blocks apart from
  -- it stay.
  pub cached_sectors-IsLawful : IsLawful sd → IsLawful pages → IsLawful cached_sectors
  cached_sectors-IsLawful a b = record {
    read-write = λ s sector bytes i h. elim (policy_cases s.policy) [
      | inl e ↦ rw e (a.read-write s.card sector bytes i h)
      | inr e ↦ rw e (b.read-write s.cache sector bytes i h)
    ];
    read-write_apart = λ s sector other bytes i h apart. elim (policy_cases s.policy) [
      | inl e ↦ rw e (a.read-write_apart s.card sector other bytes i h apart)
      | inr e ↦ rw e (b.read-write_apart s.cache sector other bytes i h apart)
    ];
  }
    where
      policy_cases : (p : Policy) → (p ≡ policy_write_through) ⊎ (p ≡ policy_write_back)
      policy_cases policy_write_through = inl refl
      policy_cases policy_write_back = inr refl
