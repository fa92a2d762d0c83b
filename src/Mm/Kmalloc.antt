-- ===== src/Mm/Kmalloc.antt =====
-- kernel/mm/kmalloc.c: the buddy allocator. A free list is the list of its blocks' addresses, first
-- block first. The eight bytes at the start of a block are its header while it is allocated and the
-- link of its free list while it is free: `header` is that memory.
pub mod Cover
pub mod Acquire
pub mod Merge
pub mod Valid
pub mod Api
pub mod Free
pub mod Init
mod Tests
use Prim.Native.Nat.{bit_xor}
use mathlib.Core.Option
use ucas_oslab.Base.{
  ℕ, zero, suc, ◌+◌, ◌-◌, ◌*◌, ◌%◌, ◌/◌, ◌^◌, Bool, true, false, ◌||◌, not, Option, none, some,
  List, [], ◌∷◌, ltb, ◌==◌, if◌then◌else◌,
}
use ucas_oslab.Base.Run.{Run, ok, ◌>>=◌, ◌>>◌, asserts}
use ucas_oslab.Base.Update.{update}

-- POOL_PAGES pages of 4 KiB; MIN_ORDER, MAX_ORDER, ORDER_COUNT.
abbrev pub pool_bytes : ℕ
pool_bytes = 1024 * 4096

abbrev pub min_order : ℕ
min_order = 4

abbrev pub max_order : ℕ
max_order = 22

abbrev pub order_count : ℕ
order_count = max_order - min_order + 1

abbrev pub header_magic : ℕ
header_magic = 0xC0DECAFE

pub record Header : Type 0 where
  pub order : ℕ
  pub magic : ℕ

pub record Pool : Type 0 where
  pub free_lists : ℕ → List ℕ
  pub base : ℕ
  pub limit : ℕ
  pub header : ℕ → Header
  pub ready : Bool

abbrev pub order_size : ℕ → ℕ
order_size order = 2 ^ order

abbrev pub order_index : ℕ → ℕ
order_index order = order - min_order

-- A 64-bit link read as a header: two 32-bit fields.
abbrev pub as_header : ℕ → Header
as_header link = record { order = link % 2 ^ 32; magic = link / 2 ^ 32 % 2 ^ 32 }

abbrev pub first_or_null : List ℕ → ℕ
first_or_null [] = 0
first_or_null (b ∷ bs) = b

pub push_block : Pool → ℕ → ℕ → Pool
push_block p order addr =
    let i = order_index order in
    record p {
      free_lists = update p.free_lists i (addr ∷ p.free_lists i);
      header = update p.header addr (as_header (first_or_null (p.free_lists i)));
    }

pop_first : Pool → ℕ → List ℕ → Option (ℕ × Pool)
pop_first p i [] = none
pop_first p i (b ∷ bs) = some (b, record p { free_lists = update p.free_lists i bs })

pub pop_block : Pool → ℕ → Option (ℕ × Pool)
unfolding pop_first
pop_block p order = pop_first p (order_index order) (p.free_lists (order_index order))

-- `while (cur > order)`, with `cur - order` rounds to go.
pub split_block : ℕ → ℕ → ℕ → Pool → Pool
split_block zero order block p = p
split_block (suc d) order block p =
    split_block d order block (push_block p (order + d) (block + order_size (order + d)))

-- `for (cur = order; cur <= MAX_ORDER; cur++)`, at `cur = order + d`.
pub acquire_loop : ℕ → ℕ → ℕ → Pool → Option (ℕ × Pool)
acquire_loop zero d order p = none
acquire_loop (suc n) d order p = elim (pop_block p (order + d)) [
  | none ↦ acquire_loop n (suc d) order p
  | some (b, q) ↦ some (b, split_block d order b q)
]

pub acquire_block : Pool → ℕ → Option (ℕ × Pool)
unfolding acquire_loop
acquire_block p order = acquire_loop (max_order + 1 - order) 0 order p

-- `*prev = cur->next`: `prev` is the list head, which `none` stands for, or the link in a block.
abbrev pub relink : Option ℕ → ℕ → (ℕ → Header) → ℕ → Header
relink none link h = h
relink (some prev) link h = update h prev (as_header link)

-- The search for the buddy in its free list, and its removal.
pub unlink : ℕ → Option ℕ → List ℕ → (ℕ → Header) → Option (List ℕ × (ℕ → Header))
unlink buddy prev [] h = none
unlink buddy prev (c ∷ cs) h =
    if c == buddy
    then some (cs, relink prev (first_or_null cs) h)
    else Option.map (λ (r : List ℕ × (ℕ → Header)). (c ∷ r.0, r.1)) (unlink buddy (some c) cs h)

abbrev pub buddy_of : Pool → ℕ → ℕ → ℕ
buddy_of p addr order = p.base + bit_xor (addr - p.base) (order_size order)

-- `while (order < MAX_ORDER)`, with `MAX_ORDER - order` rounds to go.
pub merge_loop : ℕ → Pool → ℕ → ℕ → Pool
merge_loop zero p addr order = push_block p order addr
merge_loop (suc n) p addr order =
    let buddy = buddy_of p addr order in
    let i = order_index order in
    elim (unlink buddy none (p.free_lists i) p.header) [
      | none ↦ push_block p order addr
      | some (rest, h) ↦
          merge_loop n (record p { free_lists = update p.free_lists i rest; header = h })
            (if ltb buddy addr then buddy else addr) (order + 1)
    ]

pub merge_block : Pool → ℕ → ℕ → Pool
unfolding merge_loop
merge_block p addr order = merge_loop (max_order - order) p addr order

-- `fresh` is what `alloc_pageframe(PAGE_GROUP_KERNEL, POOL_PAGES)` returns.
pub init_kmalloc : ℕ → Pool → Run Pool
unfolding push_block
init_kmalloc fresh p = do
  asserts (not (fresh == 0))
  ok
      (record (push_block
        (record p { free_lists = λ i. []; base = fresh; limit = fresh + pool_bytes }) max_order
        fresh) { ready = true })

abbrev pub ensure_ready : ℕ → Pool → Run Pool
ensure_ready fresh p = if p.ready then ok p else init_kmalloc fresh p

-- `size + sizeof(block_header_t)` in 64 bits, and at least MIN_BLOCK_SIZE.
pub block_bytes : ℕ → ℕ
block_bytes size =
    let total = (size + 8) % 2 ^ 64 in if ltb total (order_size min_order) then 16 else total

-- `while (order <= MAX_ORDER && order_size(order) < total) order++`.
pub fit_loop : ℕ → ℕ → ℕ → ℕ
fit_loop zero order total = order
fit_loop (suc n) order total =
    let rest = fit_loop n (order + 1) total in if ltb (order_size order) total then rest else order

pub fit_order : ℕ → ℕ
unfolding fit_loop
fit_order total = fit_loop order_count min_order total

-- `kmalloc` from its test `order > MAX_ORDER` on. A null result is `none`.
kmalloc_order : Pool → ℕ → Option ℕ × Pool
kmalloc_order p order = if ltb max_order order then (none, p) else elim (acquire_block p order) [
  | none ↦ (none, p)
  | some (block, q) ↦ (
    some (block + 8),
    record q { header = update q.header block (record { order = order; magic = header_magic }) },
  )
]

pub kmalloc_in : Pool → ℕ → Option ℕ × Pool
unfolding kmalloc_order
kmalloc_in p size = if size == 0 then (none, p) else kmalloc_order p (fit_order (block_bytes size))

pub kmalloc : ℕ → Pool → ℕ → Run (Option ℕ × Pool)
kmalloc fresh p size = do q ← ensure_ready fresh p; ok (kmalloc_in q size)

-- The three refusals of `kfree` on a pointer that is not null.
pub kfree_accepts : Pool → ℕ → Bool
kfree_accepts p addr =
    let h = p.header addr in
    not (
      ltb addr p.base
      || not (ltb addr p.limit)
      || not (h.magic == header_magic)
      || ltb max_order h.order
      || ltb h.order min_order)

pub kfree_in : Pool → ℕ → Pool
unfolding kfree_accepts
kfree_in p ptr =
    let addr = (ptr + 2 ^ 64 - 8) % 2 ^ 64 in
    let h = p.header addr in
    if ptr == 0
    then p
    else if kfree_accepts p addr
    then merge_block (record p { header = update p.header addr (record h { magic = 0 }) }) addr
        h.order
    else p

pub kfree : ℕ → Pool → ℕ → Run Pool
kfree fresh p ptr = do q ← ensure_ready fresh p; ok (kfree_in q ptr)
