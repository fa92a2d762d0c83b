-- ===== src/Mm/Kmalloc/Free.antt =====
-- `kfree` of a live block, and what `kmalloc` and `kfree` do together.
use mathlib.Core.Path.{subst}
use native.Mathlib.Nat.{one-le-pow}
use ucas_oslab.Base.{
  ℕ, ◌+◌, ◌-◌, ◌%◌, ◌^◌, ◌≤◌, ◌<◌, ◌≡◌, sym, some, arith, ◌⊎◌, ◌==◌, true, false, max,
}
use ucas_oslab.Base.Update.{update}
use ucas_oslab.Mm.Kmalloc.{
  Pool, order_size, min_order, max_order, header_magic, merge_block, kmalloc_in, kfree_in,
  kfree_accepts,
}
use ucas_oslab.Mm.Kmalloc.Cover.{in_block, covers}
use ucas_oslab.Mm.Kmalloc.Valid.{IsBlock, SamePlace}
use ucas_oslab.Mm.Kmalloc.Merge.{merge_block-Merged}
use ucas_oslab.Mm.Kmalloc.Api.{IsValid, IsValid-same, Allocated, kmalloc_in-Allocated}

-- A block that `kmalloc` has handed out: its header stands, and no free block overlaps it.
pub record IsLive (p : Pool) (block order : ℕ) : Type 0 where
  pub low : min_order ≤ order
  pub high : order ≤ max_order
  pub place : IsBlock p.base order block
  pub marked : p.header block ≡ record { order = order; magic = header_magic }
  pub unfree : (a : ℕ) → covers p a + in_block block (order_size order) a ≤ 1

IsLive-bounds :
    (p : Pool) (block order : ℕ)
    → IsValid p
    → IsLive p block order
    → (p.base ≤ block) × (block < p.limit)
IsLive-bounds p block order v l =
    let some_byte = one-le-pow order 2 (omega arith) in
    (omega (arith, l.place.place), omega (arith, some_byte, l.place.place, l.place.within, v.span))

accepts-IsLive :
    (p : Pool) (block order : ℕ) → IsValid p → IsLive p block order → kfree_accepts p block ≡ true
unfolding kfree_accepts
accepts-IsLive p block order v l =
    let (lo, hi) = IsLive-bounds p block order v l in
    let low = l.low in let high = l.high in rw l.marked (ground arith)

-- `q` is `p` with the block given back: the free blocks gain its addresses and no other.
pub record Freed (p : Pool) (block order : ℕ) (q : Pool) : Type 0 where
  pub cover : (a : ℕ) → covers q a ≡ covers p a + in_block block (order_size order) a
  pub valid : IsValid q
  pub same : SamePlace p q

kfree_in-merge :
    (p : Pool) (block order : ℕ)
    → IsValid p
    → IsLive p block order
    → kfree_in p (block + 8)
      ≡ merge_block
          (record p { header = update p.header block (record { order = order; magic = 0 }) })
          block
          order
unfolding kfree_in
kfree_in-merge p block order v l =
    let (lo, hi) = IsLive-bounds p block order v l in
    let at : (block + 8 + 2 ^ 64 - 8) % 2 ^ 64 ≡ block = omega (arith, v.addressable) in
    let ne : (block + 8 == 0) ≡ false = ground arith in
    rw (ne, at, accepts-IsLive p block order v l, l.marked)

-- On a valid pool `kfree` of a live block (its header stands, it lies in its place, no free block
-- overlaps it) adds exactly its addresses to the free blocks, whatever it merges with, and leaves
-- the pool valid.
pub kfree_in-Freed :
    (p : Pool) (block order : ℕ)
    → IsValid p
    → IsLive p block order
    → Freed p block order (kfree_in p (block + 8))
unfolding covers
kfree_in-Freed p block order v l =
    let m =
      merge_block-Merged
        (record p { header = update p.header block (record { order = order; magic = 0 }) }) block
        order l.low l.high v.placed l.place in
    rw (kfree_in-merge p block order v l) (record {
      cover = m.cover;
      valid =
          IsValid-same v (record { base = m.same.base; limit = m.same.limit; ready = m.same.ready })
            m.placed (λ a. omega (arith, m.cover a, l.unfree a));
      same = record { base = m.same.base; limit = m.same.limit; ready = m.same.ready };
    })

-- What `kmalloc` returns is live.
pub Allocated-IsLive :
    (p q : Pool) (size ptr : ℕ)
    → IsValid p
    → (d : Allocated p size ptr q) → IsLive q d.block d.order
Allocated-IsLive p q size ptr v d = record {
  low = d.low;
  high = d.high;
  place = subst (λ b. IsBlock b d.order d.block) (sym d.same.base) d.place;
  marked = d.marked;
  unfree = λ a. omega (arith, v.apart a, d.cover a);
}

-- On a valid pool `kfree` of what `kmalloc` has just returned (size + 8 below 2^64) makes every
-- address free as often as before the two calls, and leaves the pool valid.
pub kfree_in-kmalloc_in :
    (p q : Pool) (size ptr : ℕ)
    → IsValid p
    → size + 8 < 2 ^ 64
    → kmalloc_in p size ≡ (some ptr, q)
    → ((a : ℕ) → covers (kfree_in q ptr) a ≡ covers p a) × IsValid (kfree_in q ptr)
kfree_in-kmalloc_in p q size ptr v small e =
    let d = kmalloc_in-Allocated p q size ptr v small e in
    let f = kfree_in-Freed q d.block d.order d.valid (Allocated-IsLive p q size ptr v d) in
    rw d.at_header (λ a. omega (arith, f.cover a, d.cover a), f.valid)

-- On a valid pool two requests in a row that both succeed (sizes + 8 below 2^64) are given ranges
-- of the sizes asked for that share no byte.
pub kmalloc_in_disjoint :
    (p q r : Pool) (m n x y : ℕ)
    → IsValid p
    → m + 8 < 2 ^ 64
    → n + 8 < 2 ^ 64
    → kmalloc_in p m ≡ (some x, q)
    → kmalloc_in q n ≡ (some y, r)
    → (x + m ≤ y) ⊎ (y + n ≤ x)
kmalloc_in_disjoint p q r m n x y v sm sn ex ey =
    let d = kmalloc_in-Allocated p q m x v sm ex in
    let f = kmalloc_in-Allocated q r n y d.valid sn ey in
    let a : ℕ = max d.block f.block in
    let once = v.apart a in
    let first = d.cover a in
    let second = f.cover a in
    let fd = d.fits in
    let ff = f.fits in let hx = d.at_header in let hy = f.at_header in ground arith
