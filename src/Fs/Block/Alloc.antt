-- ===== src/Fs/Block/Alloc.antt =====
-- `block_alloc` takes the first block that the bitmap has free.
use ucas_oslab.Base.{
  ℕ, zero, suc, ◌+◌, ◌-◌, ◌*◌, ◌≤◌, ◌<◌, ◌≡◌, refl, sym, ap, ◌∙◌, inl, inr, true, false, not,
  Option, none, some, arith, Option-cases,
}
use mathlib.Core.Path.{subst}
use ucas_oslab.Base.Run.{Run, ok}
use ucas_oslab.Locking.Slots.{first, first-some, first_bound}
use ucas_oslab.Fs.Cache.{Sectors, IsLawful, block_size}
use ucas_oslab.Fs.Block.{Superblock, Blocks, block_concurrency, is_spare}
use ucas_oslab.Fs.Block.Coherent.{first_away, InRange, view, IsValid}
use ucas_oslab.Fs.Block.Open.{block_open-Opened}
use ucas_oslab.Fs.Block.{
  block_bits, map_bit, set_map_bit, in_group, add_used_block, alloc_groups, block_alloc,
}
use ucas_oslab.Fs.Block.Open.{block_open-Opened}
use ucas_oslab.Fs.Block.Change.{block_close-Changed, Same, block_close-Same}
use ucas_oslab.Base.{min, ◌/◌}
use ucas_oslab.Fs.Block.Used.{
  first_least, false_of_not, true_of_not, lt_cases, is_used, MapInRange, Taken, group_bit,
  is_used-Same, Taken-Same, Changed-Taken,
}

-- What `block_alloc` gives: the first free block, taken, or -1 while every block is in use.
pub data AllocResult {S : Sectors} (s : Blocks S) : Run (Option ℕ × Blocks S) → Type 0 where
  allocated :
      (n : ℕ) (s' : Blocks S)
      → Taken s n s'
      → AllocResult s (ok (some (s.superblock.datablock_offset + n), s'))
  full :
      (s' : Blocks S)
      → ((m : ℕ) → m < s.superblock.block_count → is_used s m ≡ true)
      → Same s s'
      → AllocResult s (ok (none, s'))

module _ {S : Sectors} (lawful : IsLawful S) where
  AllocResult-Same :
      (s u : Blocks S) (r : Run (Option ℕ × Blocks S))
      → Same s u
      → MapInRange s.superblock
      → AllocResult u r
      → AllocResult s r
  AllocResult-Same s u r same inside (allocated n s' t) =
      let sb = same.same_superblock in
      subst (λ (x : Superblock). AllocResult s (ok (some (x.datablock_offset + n), s'))) (sym sb)
        (allocated n s' (Taken-Same s u s' n same inside t))
  AllocResult-Same s u r same inside (full s' all more) =
      let sb = same.same_superblock in
      let count : u.superblock.block_count ≡ s.superblock.block_count =
        ap (λ (x : Superblock). x.block_count) sb in
      full s' (λ m h. sym (is_used-Same s u m same inside h) ∙ all m (omega arith))
        (record {
          same_view = λ c j near hj.
              more.same_view c j (subst (λ x. InRange x c) (sym sb) near) hj
              ∙ same.same_view c j near hj;
          valid = more.valid;
          same_superblock = more.same_superblock ∙ sb;
          spared = λ k spare. more.spared k (same.spared k spare);
        })

  -- A block below the first free one of the group is in use.
  used_below :
      (s : Blocks S) (bytes : ℕ → ℕ) (group len m : ℕ)
      → ((m : ℕ) → m < group * block_bits → m < s.superblock.block_count → is_used s m ≡ true)
      → ((j : ℕ) → j < block_size → bytes j ≡ view s (s.superblock.block_map_offset + group) j)
      → ((x : ℕ) → x < len → map_bit bytes x ≡ true)
      → len ≤ block_bits
      → m < s.superblock.block_count
      → m < group * block_bits + len
      → is_used s m ≡ true
  used_below s bytes group len m before shows all low hm h =
      elim (lt_cases m (group * block_bits)) [
        | inl less ↦ before m less hm
        | inr more ↦
            let x = m - group * block_bits in
            let at : m ≡ group * block_bits + x = omega arith in
            ap (is_used s) at
            ∙ sym (group_bit s bytes group x shows (omega arith))
            ∙ all x (omega arith)
      ]

  -- The groups before `group` have no free block, and those from it on are `n`.
  alloc_groups-AllocResult :
      (n group : ℕ) (s : Blocks S) (k : ℕ)
      → IsValid s
      → MapInRange s.superblock
      → k < block_concurrency
      → is_spare s k ≡ true
      → s.superblock.block_count ≤ (group + n) * block_bits
      → (group + n) * block_bits < s.superblock.block_count + block_bits
      → ((m : ℕ) → m < group * block_bits → m < s.superblock.block_count → is_used s m ≡ true)
      → AllocResult s (alloc_groups n group s)
  unfolding alloc_groups
  alloc_groups-AllocResult zero group s k v inside hk spare all last before =
      full s (λ m h. before m (omega arith) h)
        (record {
          same_view = λ c j near hj. refl;
          valid = v;
          same_superblock = refl;
          spared = λ j p. p;
        })
  alloc_groups-AllocResult (suc n) group s k v inside hk spare all last before =
      let b = s.superblock.block_map_offset + group in
      let (i, t, e, o) = block_open-Opened lawful s b v (inside group (omega arith)) k hk spare in
      let count : t.superblock.block_count ≡ s.superblock.block_count =
        ap (λ (x : Superblock). x.block_count) o.same_superblock in
      let test = λ (offset : ℕ). not (map_bit (t.blocks i).bytes offset) in
      let len = min block_bits (t.superblock.block_count - group * block_bits) in
      let rest = λ (x : Blocks S). alloc_groups n (suc group) x in
      let step : alloc_groups (suc n) group s
          ≡ in_group t i (group * block_bits) rest (first test len 0) =
        rw e refl in
      elim (Option-cases (first test len 0)) [
        | inr (offset, found) ↦
            let bound : offset < len = omega (arith, first_bound test len 0 offset found) in
            let (u, f, changed) =
              block_close-Changed s t b i (set_map_bit (t.blocks i).bytes offset) o in
            let bytes = (t.blocks i).bytes in
            let data_at : t.superblock.datablock_offset ≡ s.superblock.datablock_offset =
              ap (λ (x : Superblock). x.datablock_offset) o.same_superblock in
            let number : t.superblock.datablock_offset + group * block_bits + offset
                ≡ s.superblock.datablock_offset + (group * block_bits + offset) =
              omega arith in
            let run =
              step
              ∙ ap (in_group t i (group * block_bits) rest) found
              ∙ rw f (ap (λ x. ok (some x, add_used_block u)) number) in
            let free : map_bit bytes offset ≡ false =
              false_of_not (map_bit bytes offset) (first-some test len 0 offset found) in
            subst (AllocResult s) (sym run) (
              allocated (group * block_bits + offset) (add_used_block u) (
                Changed-Taken s u group offset bytes inside o.shows (omega arith) (omega arith) free
                  (λ m h.
                    used_below s bytes group offset m before o.shows
                      (λ x hx.
                        true_of_not (map_bit bytes x)
                          (first_least test len 0 offset x found (omega arith) hx))
                      (omega arith) (omega arith) h)
                  changed))
        | inl absent ↦
            let (u, f, same) = block_close-Same s t b i o in
            let bytes = (t.blocks i).bytes in
            let run = step ∙ ap (in_group t i (group * block_bits) rest) absent ∙ rw f refl in
            let count_u : u.superblock.block_count ≡ s.superblock.block_count =
              ap (λ (x : Superblock). x.block_count) same.same_superblock in
            subst (AllocResult s) (sym run) (
              AllocResult-Same s u (alloc_groups n (suc group) u) same inside (
                alloc_groups-AllocResult n (suc group) u k same.valid
                  (subst MapInRange (sym same.same_superblock) inside) hk (same.spared k spare)
                  (omega arith) (omega arith)
                  (λ m h hm.
                    is_used-Same s u m same inside (omega arith)
                    ∙ used_below s bytes group len m before o.shows
                        (λ x hx. true_of_not (map_bit bytes x) (first_away test len x absent hx))
                        (omega arith) (omega arith) (omega arith))))
      ]

  -- On a file system whose bitmap lies in range, and while a buffer is spare, `block_alloc` returns: either
  -- the first data block that the bitmap has free, and then the bitmap has it in use, has the others as
  -- before, and every other block holds what it held; or -1, with every data block in use and every block
  -- as it was.
  pub block_alloc-AllocResult :
      (s : Blocks S) (k : ℕ)
      → IsValid s
      → MapInRange s.superblock
      → k < block_concurrency
      → is_spare s k ≡ true
      → AllocResult s (block_alloc s)
  unfolding block_alloc
  block_alloc-AllocResult s k v inside hk spare =
      alloc_groups-AllocResult ((s.superblock.block_count + block_bits - 1) / block_bits) 0 s k v
        inside hk spare (omega arith) (omega arith) (λ m h hm. elim (absurd_below m h) [ ])
    where
      absurd_below : (m : ℕ) → m < 0 * block_bits → ⊥
      absurd_below m h = omega arith
