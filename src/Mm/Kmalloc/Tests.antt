-- ===== src/Mm/Kmalloc/Tests.antt =====
-- The allocator at a pool of its own.
use mathlib.Core.Path.{subst₂}
use ucas_oslab.Base.{
  ℕ, ◌+◌, ◌-◌, ◌^◌, ◌≤◌, ◌≡◌, refl, sym, ap, ◌∙◌, ◌⊎◌, false, none, some, [], ◌∷◌, arith,
}
use ucas_oslab.Mm.Kmalloc.{
  Pool, Header, header_magic, pool_bytes, push_block, pop_block, split_block, acquire_block, unlink,
  merge_block, block_bytes, fit_order, kmalloc_in, kfree_in,
}
use ucas_oslab.Mm.Kmalloc.Cover.{covers}
use ucas_oslab.Mm.Kmalloc.Api.{IsValid, Allocated, kmalloc_in-Allocated}
use ucas_oslab.Mm.Kmalloc.Free.{
  IsLive, Allocated-IsLive, Freed, kfree_in-Freed, kfree_in-kmalloc_in, kmalloc_in_disjoint,
}
use ucas_oslab.Mm.Kmalloc.Init.{booted, init_kmalloc-IsValid, kmalloc_in_wraps}

program : Unit {0}
unfolding push_block pop_block split_block acquire_block unlink merge_block block_bytes fit_order
    kmalloc_in kfree_in
program = tt

abbrev blank : Pool
blank = record {
  free_lists = λ i. [];
  base = 0;
  limit = 0;
  header = λ a. record { order = 0; magic = 0 };
  ready = false;
}

abbrev page : ℕ
page = 2 ^ 32

pool : Pool
pool = booted page blank

pool-IsValid : IsValid pool
unfolding pool
pool-IsValid = (init_kmalloc-IsValid page blank (omega arith) (omega arith)).1

-- 100 bytes and a header take a block of 128; the splits leave one block of each larger order.
abbrev first : Pool
first = (kmalloc_in pool 100).1

first_result : kmalloc_in pool 100 ≡ (some (page + 8), first)
unfolding pool program
first_result = refl

first_free : (first.free_lists 3 ≡ (page + 128) ∷ []) × (first.free_lists 18 ≡ [])
unfolding pool program
first_free = (refl, refl)

second_result : kmalloc_in first 1000 ≡ (some (page + 1032), (kmalloc_in first 1000).1)
unfolding pool program
second_result = refl

freed_whole : (kfree_in first (page + 8)).free_lists 18 ≡ page ∷ []
unfolding pool program
freed_whole = refl

kmalloc_in-Allocated_example : Allocated pool 100 (page + 8) first
kmalloc_in-Allocated_example =
    kmalloc_in-Allocated pool first 100 (page + 8) pool-IsValid (omega arith) first_result

large_result : kmalloc_in pool pool_bytes ≡ (none, pool)
unfolding pool program
large_result = refl

first_header : first.header page ≡ record { order = 7; magic = header_magic }
unfolding pool program
first_header = refl

first-IsLive : IsLive first page 7
first-IsLive =
    let d =
      kmalloc_in-Allocated pool first 100 (page + 8) pool-IsValid (omega arith) first_result in
    let eb : d.block ≡ page = omega (arith, d.at_header) in
    let eo : d.order ≡ 7 =
      ap (λ (h : Header). h.order) (sym d.marked ∙ ap first.header eb ∙ first_header) in
    subst₂ (IsLive first) eb eo (Allocated-IsLive pool first 100 (page + 8) pool-IsValid d)

kfree_in-Freed_example : Freed first page 7 (kfree_in first (page + 8))
kfree_in-Freed_example = kfree_in-Freed first page 7 kmalloc_in-Allocated_example.valid first-IsLive

kfree_in-kmalloc_in_example :
    ((a : ℕ) → covers (kfree_in first (page + 8)) a ≡ covers pool a)
    × IsValid (kfree_in first (page + 8))
kfree_in-kmalloc_in_example =
    kfree_in-kmalloc_in pool first 100 (page + 8) pool-IsValid (omega arith) first_result

kmalloc_in_disjoint_example : (page + 8 + 100 ≤ page + 1032) ⊎ (page + 1032 + 1000 ≤ page + 8)
kmalloc_in_disjoint_example =
    kmalloc_in_disjoint pool first (kmalloc_in first 1000).1 100 1000 (page + 8) (page + 1032)
      pool-IsValid (omega arith) (omega arith) first_result second_result

kmalloc_in_wraps_example : kmalloc_in pool (2 ^ 64 - 1) ≡ kmalloc_in pool 1
kmalloc_in_wraps_example = kmalloc_in_wraps pool (2 ^ 64 - 1) (omega arith) (omega arith)
