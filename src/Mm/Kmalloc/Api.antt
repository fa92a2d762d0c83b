-- ===== src/Mm/Kmalloc/Api.antt =====
-- `kmalloc` and `kfree` on a valid pool.
use mathlib.Core.Path.{subst}
use native.Mathlib.Nat.{pow-le-pow_right}
use ucas_oslab.Base.{
  ℕ, zero, suc, ◌+◌, ◌^◌, ◌≤◌, ◌<◌, ◌≡◌, refl, sym, none, some, arith, inl, inr, ◌⊎◌, Option-cases,
  Bool-cases, [], ltb, ◌==◌, if◌then◌else◌,
}
use native.Mathlib.Decide.{dec_lt}
use ucas_oslab.Base.Update.{update, update_self}
use ucas_oslab.Mm.Kmalloc.{
  Pool, order_size, order_index, order_count, min_order, max_order, pool_bytes, header_magic,
  acquire_block, block_bytes, fit_loop, fit_order, kmalloc_in,
}
use ucas_oslab.Mm.Kmalloc.Cover.{in_block, covers}
use ucas_oslab.Mm.Kmalloc.Valid.{IsBlock, Placed, SamePlace}
use ucas_oslab.Mm.Kmalloc.Acquire.{acquire_block-Acquired, acquire_block-eq-none}

-- The free blocks lie in their places and no two of them overlap.
pub record IsValid (p : Pool) : Type 0 where
  pub placed : Placed p.base p
  pub apart : (a : ℕ) → covers p a ≤ 1
  pub nonnull : 0 < p.base
  pub span : p.limit ≡ p.base + pool_bytes
  pub addressable : p.limit + 8 ≤ 2 ^ 64

record Fitted (n o t r : ℕ) : Type 0 where
  lower : o ≤ r
  upper : r ≤ o + n
  enough : r < o + n → t ≤ order_size r
  least : (k : ℕ) → o ≤ k → k < r → order_size k < t

fit_loop-Fitted : (n o t : ℕ) → Fitted n o t (fit_loop n o t)
unfolding fit_loop
fit_loop-Fitted zero o t = record {
  lower = omega arith;
  upper = omega arith;
  enough = λ h. absurd (omega arith);
  least = λ k h l. absurd (omega arith);
}
fit_loop-Fitted (suc n) o t = elim (Bool-cases (ltb (order_size o) t)) [
  | inl small ↦
      let ih = fit_loop-Fitted n (o + 1) t in
      rw (small, fit_loop)
        (record {
          lower = omega (arith, ih.lower);
          upper = omega (arith, ih.upper);
          enough = λ h. ih.enough (omega arith);
          least = λ k h l. elim (Bool-cases (k == o)) [
            | inl e ↦ ground arith
            | inr ne ↦ ih.least k (ground arith) l
          ];
        })
  | inr fits ↦
      rw (fits, fit_loop)
        (record {
          lower = omega arith;
          upper = omega arith;
          enough = λ h. ground arith;
          least = λ k h l. absurd (omega arith);
        })
]

block_bytes-eq :
    (size : ℕ) → size + 8 < 2 ^ 64 → block_bytes size ≡ (if ltb (size + 8) 16 then 16 else size + 8)
unfolding block_bytes
block_bytes-eq size h = ground arith

-- What a successful request for `size` bytes does to the pool `p`.
pub record Allocated (p : Pool) (size ptr : ℕ) (q : Pool) : Type 0 where
  pub block : ℕ
  pub order : ℕ
  pub at_header : ptr ≡ block + 8
  pub low : min_order ≤ order
  pub high : order ≤ max_order
  pub fits : size + 8 ≤ order_size order
  pub tight : (k : ℕ) → min_order ≤ k → k < order → order_size k < size + 8
  pub place : IsBlock p.base order block
  pub marked : q.header block ≡ record { order = order; magic = header_magic }
  pub cover : (a : ℕ) → covers p a ≡ covers q a + in_block block (order_size order) a
  pub valid : IsValid q
  pub same : SamePlace p q

pub IsValid-same :
    {p q : Pool}
    → IsValid p
    → SamePlace p q
    → Placed p.base q
    → ((a : ℕ) → covers q a ≤ 1)
    → IsValid q
IsValid-same {p} {q} v same placed apart = record {
  placed = subst (λ b. Placed b q) (sym same.base) placed;
  apart = apart;
  nonnull = omega (arith, v.nonnull, same.base);
  span = omega (arith, v.span, same.base, same.limit);
  addressable = omega (arith, v.addressable, same.limit);
}

fit_order-Fitted : (t : ℕ) → Fitted order_count min_order t (fit_order t)
unfolding fit_order
fit_order-Fitted t = fit_loop-Fitted order_count min_order t

fit_order_enough :
    (size order : ℕ)
    → size + 8 < 2 ^ 64
    → Fitted order_count min_order (block_bytes size) order
    → order ≤ max_order
    → size + 8 ≤ order_size order
fit_order_enough size order small fit high =
    let enough = fit.enough (omega arith) in ground (arith, block_bytes-eq size small)

fit_order_tight :
    (size order : ℕ)
    → size + 8 < 2 ^ 64
    → Fitted order_count min_order (block_bytes size) order
    → (k : ℕ) → min_order ≤ k
    → k < order
    → order_size k < size + 8
fit_order_tight size order small fit k low below =
    let least = fit.least k low below in
    let sixteen : 2 ^ 4 ≤ 2 ^ k = pow-le-pow_right (omega arith) low in
    ground (arith, block_bytes-eq size small)

grant-Allocated :
    (p r : Pool) (size block : ℕ)
    → IsValid p
    → size + 8 < 2 ^ 64
    → fit_order (block_bytes size) ≤ max_order
    → acquire_block p (fit_order (block_bytes size)) ≡ some (block, r)
    → Allocated p size (block + 8) (record r {
      header =
          update r.header block
            (record { order = fit_order (block_bytes size); magic = header_magic });
    })
unfolding covers
grant-Allocated p r size block v small high e =
    let fit = fit_order-Fitted (block_bytes size) in
    let order = fit_order (block_bytes size) in
    let got = acquire_block-Acquired p.base order fit.lower block p r high v.placed e in
    record {
      block = block;
      order = order;
      at_header = refl;
      low = fit.lower;
      high = high;
      fits = fit_order_enough size order small fit high;
      tight = fit_order_tight size order small fit;
      place = got.block;
      marked = update_self r.header block _;
      cover = got.cover;
      valid =
          IsValid-same v
            (record { base = got.same.base; limit = got.same.limit; ready = got.same.ready })
            got.placed (λ a. omega (arith, v.apart a, got.cover a));
      same = record { base = got.same.base; limit = got.same.limit; ready = got.same.ready };
    }

kmalloc_in-eq-some :
    (p q : Pool) (size ptr : ℕ)
    → kmalloc_in p size ≡ (some ptr, q)
    → let order = fit_order (block_bytes size) in
      (block : ℕ) × (r : Pool) × (order ≤ max_order)
      × (acquire_block p order ≡ some (block, r))
      × (ptr ≡ block + 8)
      × (q ≡ record r {
        header = update r.header block (record { order = order; magic = header_magic });
      })
unfolding kmalloc_in
kmalloc_in-eq-some p q size ptr e =
    elim (Option-cases (acquire_block p (fit_order (block_bytes size)))) [
      | inl empty ↦ absurd (ground arith)
      | inr ((block, r), got) ↦ (block, r, ground arith, got, ground arith, ground arith)
    ]

-- On a valid pool a request of `size` bytes (size + 8 below 2^64) that succeeds returns the address
-- 8 past the start of a block of the least order that holds size + 8 bytes. The block lies in its
-- place in the pool and carries its order and the magic number, the free blocks lose exactly its
-- addresses, and the pool stays valid.
pub kmalloc_in-Allocated :
    (p q : Pool) (size ptr : ℕ)
    → IsValid p
    → size + 8 < 2 ^ 64
    → kmalloc_in p size ≡ (some ptr, q)
    → Allocated p size ptr q
kmalloc_in-Allocated p q size ptr v small e =
    let (block, r, high, got, at, is) = kmalloc_in-eq-some p q size ptr e in
    rw (at, is) (grant-Allocated p r size block v small high got)

-- Why a request may fail.
abbrev pub Refused : Pool → ℕ → Type 0
Refused p size =
    (size ≡ 0)
    ⊎ ((pool_bytes < size + 8)
        ⊎ ((k : ℕ)
            → min_order ≤ k
            → k ≤ max_order
            → size + 8 ≤ order_size k
            → p.free_lists (order_index k) ≡ []))

exhausted :
    (p : Pool) (size : ℕ)
    → size + 8 < 2 ^ 64
    → fit_order (block_bytes size) ≤ max_order
    → acquire_block p (fit_order (block_bytes size)) ≡ none
    → (k : ℕ) → min_order ≤ k
    → k ≤ max_order
    → size + 8 ≤ order_size k
    → p.free_lists (order_index k) ≡ []
exhausted p size small high e k low hk holds =
    let fit = fit_order-Fitted (block_bytes size) in
    let order = fit_order (block_bytes size) in
    let above : order ≤ k = elim (dec_lt k order) [
      | yes below ↦ absurd (omega (arith, fit_order_tight size order small fit k low below))
      | no ne ↦ omega arith
    ] in
    acquire_block-eq-none p.base order fit.lower p high e k above hk

too_large :
    (size : ℕ)
    → size + 8 < 2 ^ 64
    → max_order < fit_order (block_bytes size)
    → pool_bytes < size + 8
too_large size small h =
    let fit = fit_order-Fitted (block_bytes size) in
    fit_order_tight size (fit_order (block_bytes size)) small fit max_order (omega arith) h

-- A request of `size` bytes (size + 8 below 2^64) that fails leaves the pool as it was, and is
-- empty, or larger than the pool less a header, or every free list whose blocks would hold it is
-- empty.
pub kmalloc_in-eq-none :
    (p q : Pool) (size : ℕ)
    → size + 8 < 2 ^ 64
    → kmalloc_in p size ≡ (none, q)
    → (q ≡ p) × Refused p size
unfolding kmalloc_in
kmalloc_in-eq-none p q size small e = elim (Bool-cases (size == 0)) [
  | inl zero_size ↦ (ground arith, inl (ground arith))
  | inr some_size ↦ elim (dec_lt max_order (fit_order (block_bytes size))) [
    | yes large ↦ (ground arith, inr (inl (too_large size small large)))
    | no fits ↦ elim (Option-cases (acquire_block p (fit_order (block_bytes size)))) [
      | inr ((block, r), got) ↦ absurd (ground arith)
      | inl empty ↦ (ground arith, inr (inr (exhausted p size small (omega arith) empty)))
    ]
  ]
]
