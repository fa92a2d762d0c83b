-- ===== src/Mm/Kmalloc/Init.antt =====
-- The pool that `init_kmalloc` sets up, and requests whose size wraps.
use ucas_oslab.Base.{ℕ, ◌+◌, ◌^◌, ◌≤◌, ◌<◌, ◌≡◌, refl, ap, [], arith, ◌==◌, true, false}
use ucas_oslab.Base.Run.{ok}
use ucas_oslab.Base.Update.{sum_to}
use ucas_oslab.Mm.Kmalloc.{
  Pool, max_order, pool_bytes, push_block, block_bytes, fit_order, kmalloc_order, kmalloc_in,
  init_kmalloc,
}
use ucas_oslab.Mm.Kmalloc.Cover.{in_block, count_in, covers, covers-push_block}
use ucas_oslab.Mm.Kmalloc.Valid.{Placed, Placed-push_block}
use ucas_oslab.Mm.Kmalloc.Api.{IsValid}

abbrev bare : ℕ → Pool → Pool
bare fresh p = record p { free_lists = λ i. []; base = fresh; limit = fresh + pool_bytes }

covers-bare : (fresh a : ℕ) (p : Pool) → covers (bare fresh p) a ≡ 0
unfolding covers sum_to count_in
covers-bare fresh a p = refl

-- The pool after `init_kmalloc`.
abbrev pub booted : ℕ → Pool → Pool
booted fresh p = record (push_block (bare fresh p) max_order fresh) { ready = true }

covers-booted : (fresh a : ℕ) (p : Pool) → covers (booted fresh p) a ≡ in_block fresh pool_bytes a
unfolding covers
covers-booted fresh a p =
    let pushed = covers-push_block max_order a (omega arith) (omega arith) (bare fresh p) fresh in
    omega (arith, pushed, covers-bare fresh a p)

booted-Placed : (fresh : ℕ) (p : Pool) → Placed fresh (booted fresh p)
booted-Placed fresh p =
    Placed-push_block fresh max_order (omega arith) (bare fresh p) fresh (λ i. tt)
      (record { index = 0; place = omega arith; within = omega arith })

block_bytes_wraps :
    (size : ℕ) → 2 ^ 64 ≤ size + 8 → size < 2 ^ 64 → block_bytes size ≡ block_bytes 1
unfolding block_bytes
block_bytes_wraps size h k = ground arith

-- `init_kmalloc` succeeds on an address that is not null and whose pool ends 8 bytes or more below
-- 2^64, and leaves a valid pool in which exactly the pool's addresses are free, each once.
pub init_kmalloc-IsValid :
    (fresh : ℕ) (p : Pool)
    → 0 < fresh
    → fresh + pool_bytes + 8 ≤ 2 ^ 64
    → (init_kmalloc fresh p ≡ ok (booted fresh p))
      × IsValid (booted fresh p)
      × ((a : ℕ) → covers (booted fresh p) a ≡ in_block fresh pool_bytes a)
unfolding init_kmalloc
init_kmalloc-IsValid fresh p h k = (
  ground arith,
  record {
    placed = λ i. booted-Placed fresh p i;
    apart = λ a. ground (arith, covers-booted fresh a p);
    nonnull = h;
    span = refl;
    addressable = k;
  },
  λ a. covers-booted fresh a p,
)

-- A request of 2^64 - 8 bytes or more (below 2^64) has the result of a request for a single byte.
pub kmalloc_in_wraps :
    (p : Pool) (size : ℕ) → 2 ^ 64 ≤ size + 8 → size < 2 ^ 64 → kmalloc_in p size ≡ kmalloc_in p 1
unfolding kmalloc_in
kmalloc_in_wraps p size h k =
    let ne : (size == 0) ≡ false = ground arith in
    rw ne (ap (λ b. kmalloc_order p (fit_order b)) (block_bytes_wraps size h k))
