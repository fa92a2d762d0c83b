-- ===== src/Fs/Block/Used.antt =====
-- The bitmap of the data blocks, as the blocks of the map show it, and a block that is taken.
use ucas_oslab.Base.{
  ℕ, zero, suc, ◌+◌, ◌*◌, ◌%◌, ◌^◌, ◌≤◌, ◌<◌, ◌≡◌, refl, sym, ap, ◌∙◌, ◌⊎◌, inl, inr, ◌==◌, Bool,
  true, false, not, some, arith, if◌then◌else◌, Bool-cases, ==_ne,
}
use native.Mathlib.Decide.{ℕ_discrete}
use mathlib.Core.Path.{subst}
use ucas_oslab.Locking.Slots.{first, has_ref}
use ucas_oslab.Fs.Cache.{Sectors, block_size}
use ucas_oslab.Fs.Block.{Superblock, Blocks}
use ucas_oslab.Fs.Block.Coherent.{InRange, view, IsValid}
use ucas_oslab.Fs.Block.{block_bits, map_bit, set_map_bit, add_used_block}
use ucas_oslab.Fs.Block.Bits.{map_bit-set_map_bit}
use ucas_oslab.Fs.Block.Change.{Changed, Same}
use ucas_oslab.Base.{◌/◌}

pub first_least : (f : ℕ → Bool) (n i j k : ℕ) → first f n i ≡ some j → i ≤ k → k < j → f k ≡ false
first_least f zero i j k e low high = ground arith
first_least f (suc n) i j k e low high = elim (Bool-cases (f i)) [
  | inl on ↦ absurd (here (subst (λ b. (if b then some i else first f n (suc i)) ≡ some j) on e))
  | inr off ↦
      let rest = subst (λ b. (if b then some i else first f n (suc i)) ≡ some j) off e in
      elim (ℕ_discrete i k) [
        | yes same ↦ ap f (sym same) ∙ off
        | no ne ↦ first_least f n (suc i) j k rest (omega arith) high
      ]
]
  where
    here : some i ≡ some j → ⊥
    here e = ground arith

-- The blocks of the map lie in range.
abbrev pub MapInRange : Superblock → Type 0
MapInRange superblock =
    (group : ℕ)
    → group * block_bits < superblock.block_count
    → InRange superblock (superblock.block_map_offset + group)

pub false_of_not : (b : Bool) → not b ≡ true → b ≡ false
false_of_not b e = ground arith

pub true_of_not : (b : Bool) → not b ≡ false → b ≡ true
true_of_not b e = ground arith

pub lt_cases : (a b : ℕ) → (a < b) ⊎ (b ≤ a)
lt_cases a b = ground arith

module _ {S : Sectors} where
  -- Whether the bitmap has the data block `n` in use.
  abbrev pub is_used : Blocks S → ℕ → Bool
  is_used s n = map_bit (view s (s.superblock.block_map_offset + n / block_bits)) (n % block_bits)

  -- The data block `n` is taken in `s'`.
  pub record Taken (s : Blocks S) (n : ℕ) (s' : Blocks S) : Type 0 where
    pub inside : n < s.superblock.block_count
    pub was_free : is_used s n ≡ false
    pub is_first : (m : ℕ) → m < n → is_used s m ≡ true
    pub used_now :
        (m : ℕ)
        → m < s.superblock.block_count
        → is_used s' m ≡ (if n == m then true else is_used s m)
    pub others :
        (c j : ℕ)
        → InRange s.superblock c
        → j < block_size
        → (s.superblock.block_map_offset + n / block_bits ≡ c → ⊥)
        → view s' c j ≡ view s c j
    pub valid : IsValid s'
    pub counted :
        s'.superblock
        ≡ (record s.superblock { used_block = (s.superblock.used_block + 1) % 2 ^ 32 })

  -- The bits of a group, as the bytes of its block show them.
  pub group_bit :
      (s : Blocks S) (bytes : ℕ → ℕ) (group offset : ℕ)
      → ((j : ℕ) → j < block_size → bytes j ≡ view s (s.superblock.block_map_offset + group) j)
      → offset < block_bits
      → map_bit bytes offset ≡ is_used s (group * block_bits + offset)
  group_bit s bytes group offset same h =
      let quotient : (group * block_bits + offset) / block_bits ≡ group = omega arith in
      let remainder : (group * block_bits + offset) % block_bits ≡ offset = omega arith in
      rw (quotient, remainder, same (offset / 8) (omega arith)) refl

  map_in :
      (s : Blocks S) (m : ℕ)
      → MapInRange s.superblock
      → m < s.superblock.block_count
      → InRange s.superblock (s.superblock.block_map_offset + m / block_bits)
  map_in s m inside h = inside (m / block_bits) (omega arith)

  is_used_at :
      (u : Blocks S) (m offset : ℕ)
      → u.superblock.block_map_offset ≡ offset
      → is_used u m ≡ map_bit (view u (offset + m / block_bits)) (m % block_bits)
  is_used_at u m offset e = ap (λ o. map_bit (view u (o + m / block_bits)) (m % block_bits)) e

  view-add_used_block : (u : Blocks S) (b : ℕ) → view (add_used_block u) b ≡ view u b
  unfolding view
  view-add_used_block u b = refl

  pub is_used-Same :
      (s u : Blocks S) (m : ℕ)
      → Same s u
      → MapInRange s.superblock
      → m < s.superblock.block_count
      → is_used u m ≡ is_used s m
  is_used-Same s u m same inside h =
      is_used_at u m (s.superblock.block_map_offset)
        (ap (λ (x : Superblock). x.block_map_offset) same.same_superblock)
      ∙ ap (λ y. has_ref y (m % block_bits % 8))
          (same.same_view (s.superblock.block_map_offset + m / block_bits) (m % block_bits / 8)
            (map_in s m inside h) (omega arith))

  pub Taken-Same :
      (s u s' : Blocks S) (n : ℕ) → Same s u → MapInRange s.superblock → Taken u n s' → Taken s n s'
  Taken-Same s u s' n same inside t =
      let sb = same.same_superblock in
      let count : u.superblock.block_count ≡ s.superblock.block_count =
        ap (λ (x : Superblock). x.block_count) sb in
      let bound : n < s.superblock.block_count = omega (arith, t.inside) in
      record {
        inside = bound;
        was_free = sym (is_used-Same s u n same inside bound) ∙ t.was_free;
        is_first = λ m h. sym (is_used-Same s u m same inside (omega arith)) ∙ t.is_first m h;
        used_now = λ m h.
            t.used_now m (omega (arith, h))
            ∙ ap (λ b. if n == m then true else b) (is_used-Same s u m same inside h);
        others = λ c j near hj ne.
            t.others c j (subst (λ x. InRange x c) (sym sb) near) hj
              (λ e. ne (ap (λ (x : Superblock). x.block_map_offset + n / block_bits) (sym sb) ∙ e))
            ∙ same.same_view c j near hj;
        valid = t.valid;
        counted =
            t.counted
            ∙ ap (λ (x : Superblock). record x { used_block = (x.used_block + 1) % 2 ^ 32 }) sb;
      }

  -- The bit that the inner loop finds, set.
  pub Changed-Taken :
      (s u : Blocks S) (group offset : ℕ) (bytes : ℕ → ℕ)
      → MapInRange s.superblock
      → ((j : ℕ) → j < block_size → bytes j ≡ view s (s.superblock.block_map_offset + group) j)
      → offset < block_bits
      → group * block_bits + offset < s.superblock.block_count
      → map_bit bytes offset ≡ false
      → ((m : ℕ) → m < group * block_bits + offset → is_used s m ≡ true)
      → Changed s (s.superblock.block_map_offset + group) (set_map_bit bytes offset) u
      → Taken s (group * block_bits + offset) (add_used_block u)
  Changed-Taken s u group offset bytes map_near same low bound free least c =
      let n = group * block_bits + offset in
      let sb = c.same_superblock in
      let map_at : u.superblock.block_map_offset ≡ s.superblock.block_map_offset =
        ap (λ (x : Superblock). x.block_map_offset) sb in
      let counted_bit = λ (m : ℕ).
        ap (λ f. map_bit f (m % block_bits))
          (view-add_used_block u (u.superblock.block_map_offset + m / block_bits))
        ∙ is_used_at u m s.superblock.block_map_offset map_at in
      let quotient : n / block_bits ≡ group = omega arith in
      record {
        inside = bound;
        was_free = sym (group_bit s bytes group offset same low) ∙ free;
        is_first = least;
        used_now = λ m h. elim (ℕ_discrete group (m / block_bits)) [
          | yes e ↦
              let at : m ≡ group * block_bits + m % block_bits = omega arith in
              let here : is_used (add_used_block u) m
                  ≡ map_bit (set_map_bit bytes offset) (m % block_bits) =
                counted_bit m
                ∙ ap (λ g. map_bit (view u (s.superblock.block_map_offset + g)) (m % block_bits))
                    (sym e)
                ∙ ap (λ f. map_bit f (m % block_bits)) c.shows in
              let test : (offset == m % block_bits) ≡ (n == m) = ground arith in
              let old : map_bit bytes (m % block_bits) ≡ is_used s m =
                group_bit s bytes group (m % block_bits) same (omega arith)
                ∙ ap (is_used s) (sym at) in
              here ∙ map_bit-set_map_bit bytes offset (m % block_bits) free ∙ rw (test, old) refl
          | no away ↦
              let ne : s.superblock.block_map_offset + group
                    ≡ s.superblock.block_map_offset + m / block_bits
                  → ⊥ =
                λ e. away (omega arith) in
              let apart : n ≡ m → ⊥ = λ e. away (omega arith) in
              let kept : is_used (add_used_block u) m ≡ is_used s m =
                counted_bit m
                ∙ ap (λ y. has_ref y (m % block_bits % 8))
                    (c.others (s.superblock.block_map_offset + m / block_bits) (m % block_bits / 8)
                      (map_in s m map_near h) (omega arith) ne) in
              kept ∙ rw (==_ne n m apart) refl
        ];
        others = λ b j near hj ne.
            ap (λ f. f j) (view-add_used_block u b)
            ∙ c.others b j near hj
                (λ e. ne (ap (λ (q : ℕ). s.superblock.block_map_offset + q) quotient ∙ e));
        valid = record { unique = c.valid.unique; inside = c.valid.inside };
        counted = ap (λ (x : Superblock). record x { used_block = (x.used_block + 1) % 2 ^ 32 }) sb;
      }
