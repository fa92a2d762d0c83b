-- ===== src/Fs/Block/Tests.antt =====
-- The theorems on the empty file system of Fs.Sample.
use ucas_oslab.Base.{ℕ, ◌≡◌, refl, arith}
use ucas_oslab.Base.Run.{ok}
use ucas_oslab.Fs.Block.{Blocks, block_open, block_alloc}
use ucas_oslab.Fs.Sample.{card, card-IsLawful, empty, empty-IsValid, empty-MapInRange}
use ucas_oslab.Fs.Block.Open.{Opened, block_open-Opened}
use ucas_oslab.Fs.Block.Alloc.{AllocResult, block_alloc-AllocResult}

block_open-Opened_example :
    (i : ℕ) × (s' : Blocks card) × (block_open empty 546 ≡ ok (i, s')) × Opened empty 546 i s'
block_open-Opened_example =
    block_open-Opened card-IsLawful empty 546 empty-IsValid (omega arith) 3 (omega arith) refl

block_alloc-AllocResult_example : AllocResult empty (block_alloc empty)
block_alloc-AllocResult_example =
    block_alloc-AllocResult card-IsLawful empty 0 empty-IsValid empty-MapInRange (omega arith) refl
