-- ===== src/Fs/Sample.antt =====
-- A card of sectors of 512 bytes, and an empty file system of sixteen data blocks on it.
use ucas_oslab.Base.{
  ℕ, ◌+◌, ◌-◌, ◌*◌, ◌/◌, ◌%◌, ◌≡◌, refl, ap, inl, inr, leb, ltb, true, false, ◌&&◌, arith,
  if◌then◌else◌,
}
use ucas_oslab.Fs.Cache.{Sectors, IsLawful}
use ucas_oslab.Fs.Block.{Blocks}
use ucas_oslab.Fs.Block.Coherent.{IsValid}
use ucas_oslab.Fs.Block.Used.{MapInRange}

abbrev pub card : Sectors
card = record {
  Disk = ℕ → ℕ → ℕ;
  read = λ d sector i. d (sector + i / 512) (i % 512);
  write = λ d sector bytes t i.
      if leb sector t && ltb t (sector + 8) then bytes ((t - sector) * 512 + i) else d t i;
}

pub card-IsLawful : IsLawful card
card-IsLawful = record {
  read-write = λ d sector bytes i h.
      let low : leb sector (sector + i / 512) ≡ true = ground arith in
      let high : ltb (sector + i / 512) (sector + 8) ≡ true = ground arith in
      rw (low, high) (ap bytes (omega arith));
  read-write_apart = λ d sector other bytes i h apart. elim apart [
    | inl after ↦
        let out : ltb (other + i / 512) (sector + 8) ≡ false = ground arith in rw out (ground arith)
    | inr before ↦ let out : leb sector (other + i / 512) ≡ false = ground arith in rw out refl
  ];
}

abbrev pub empty : Blocks card
empty = record {
  blocks = λ i. record { valid = false; block_num = 0; refcnt = 0; bytes = λ j. 0 };
  disk = λ t i. 0;
  superblock = record {
    start_sector = 1048576;
    root_inode = 1;
    block_map_offset = 1;
    inode_offset = 34;
    datablock_offset = 546;
    inode_count = 32768;
    block_count = 16;
    used_inode = 0;
    used_block = 0;
  };
}

pub empty-IsValid : IsValid empty
empty-IsValid = record {
  unique = λ b i j hi hj p q. ground arith;
  inside = λ b i hi p. ground arith;
}

pub empty-MapInRange : MapInRange empty.superblock
empty-MapInRange group h = omega arith
