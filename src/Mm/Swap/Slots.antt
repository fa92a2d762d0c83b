-- ===== src/Mm/Swap/Slots.antt =====
-- The count of used slots is right, a free slot is found whenever there is one, and a location is
-- freed as the slot that it was made from.
use mathlib.Core.Path.{subst}
use native.Mathlib.Decide.{ℕ_discrete}
use ucas_oslab.Base.{
  ℕ, zero, suc, ◌+◌, ◌-◌, ◌*◌, ◌/◌, ◌%◌, ◌≤◌, ◌<◌, ◌≡◌, refl, sym, ap, Bool, true, false, some,
  arith, inl, inr, lt→ltb, Bool-cases, if◌then◌else◌,
}
use ucas_oslab.Base.Run.{ok}
use ucas_oslab.Base.Update.{update, update_self, sum_to, sum_to-single}
use ucas_oslab.Mm.Swap.{
  Swap, num_max_swap, swap_len, scan, alloc_swap, free_swap, regular_swap_location,
  regular_swap_free,
}

abbrev pub bit : Bool → ℕ
bit b = if b then 1 else 0

-- `swap_used` counts the slots in use, and the next index is one of the array's.
pub record IsValid (s : Swap) : Type 0 where
  pub counted : s.used ≡ sum_to num_max_swap (λ i. bit (s.taken i))
  pub next_in : s.next_idx < num_max_swap

sum-bit-le : (n : ℕ) (f : ℕ → Bool) → sum_to n (λ i. bit (f i)) ≤ n
unfolding sum_to
sum-bit-le zero f = omega arith
sum-bit-le (suc n) f = ground (arith, sum-bit-le n f)

-- Fewer bits set than there are: one is clear.
clear_slot :
    (n : ℕ) (f : ℕ → Bool) → sum_to n (λ i. bit (f i)) < n → (j : ℕ) × (j < n) × (f j ≡ false)
unfolding sum_to
clear_slot zero f h = elim h [ ]
clear_slot (suc n) f h = elim (Bool-cases (f n)) [
  | inr clear ↦ (n, omega arith, clear)
  | inl on ↦ let (j, below, clear) = clear_slot n f (ground arith) in (j, omega arith, clear)
]

-- The distance to a clear slot falls with each step of the walk.
scan_total :
    (taken : ℕ → Bool) (n idx j : ℕ)
    → idx < num_max_swap
    → j < num_max_swap
    → taken j ≡ false
    → (j + num_max_swap - idx) % num_max_swap < n
    → (i : ℕ) × (scan taken n idx ≡ some i) × (i < num_max_swap) × (taken i ≡ false)
unfolding scan
scan_total taken zero idx j h k clear near = elim near [ ]
scan_total taken (suc n) idx j h k clear near = elim (Bool-cases (taken idx)) [
  | inr here ↦ (idx, rw here, h, here)
  | inl on ↦
      let apart : idx ≡ j → ⊥ = λ e. ground arith in
      let (i, found, below, free) =
        scan_total taken n ((idx + 1) % num_max_swap) j (omega arith) k clear (omega arith) in
      (i, rw on found, below, free)
]

-- One slot written: the count moves by the difference of the bits.
sum_update :
    (f : ℕ → Bool) (i : ℕ) (b : Bool)
    → i < num_max_swap
    → sum_to num_max_swap (λ j. bit (update f i b j)) + bit (f i)
      ≡ sum_to num_max_swap (λ j. bit (f j)) + bit b
sum_update f i b h =
    let single =
      sum_to-single num_max_swap i (λ j. bit (update f i b j)) (λ j. bit (f j)) h
        (λ j below ne. ground arith) in
    omega (arith, single, ap bit (update_self f i b))

-- What `alloc_swap` returns: a slot that was free, and the state with that slot taken.
pub record Took (s : Swap) (id : ℕ) (t : Swap) : Type 0 where
  pub in_range : id < num_max_swap
  pub was_free : s.taken id ≡ false
  pub now : t ≡ record s { taken = update s.taken id true; used = s.used + 1; next_idx = id }
  pub valid : IsValid t

-- In a valid state with fewer used slots than the area has, the walk ends, and `alloc_swap` takes a
-- slot that was free and changes no other; the state stays valid.
pub alloc_swap-Took :
    (s : Swap)
    → IsValid s
    → s.used < num_max_swap
    → (id : ℕ) × (t : Swap) × (alloc_swap s ≡ ok (id, t)) × Took s id t
unfolding alloc_swap
alloc_swap-Took s v room =
    let (j, below, clear) = clear_slot num_max_swap s.taken (omega (arith, v.counted)) in
    let (id, found, inside, free) =
      scan_total s.taken num_max_swap s.next_idx j v.next_in below clear (omega arith) in
    (
      id,
      record s { taken = update s.taken id true; used = s.used + 1; next_idx = id },
      rw (lt→ltb s.used num_max_swap room, found),
      record {
        in_range = inside;
        was_free = free;
        now = refl;
        valid = record {
          counted = omega (arith, sum_update s.taken id true inside, v.counted, ap bit free);
          next_in = inside;
        };
      },
    )

-- Freeing a slot in use of a valid state gives it back, takes one from the count, changes no other
-- slot, and leaves the state valid.
pub free_swap-IsValid :
    (s : Swap) (id : ℕ)
    → IsValid s
    → id < num_max_swap
    → s.taken id ≡ true
    → IsValid (free_swap s id) × ((free_swap s id).used + 1 ≡ s.used)
unfolding free_swap
free_swap-IsValid s id v inside on =
    let moved = sum_update s.taken id false inside in
    let most = sum-bit-le num_max_swap s.taken in
    let now = sum-bit-le num_max_swap (update s.taken id false) in
    let one = ap bit on in
    (record { counted = omega (arith, v.counted); next_in = v.next_in }, omega (arith, v.counted))

location_id : (id base : ℕ) → (id * swap_len + base - base) / swap_len ≡ id
location_id id base = omega arith

put_back : (f : ℕ → Bool) (i j : ℕ) → f i ≡ false → update (update f i true) i false j ≡ f j
put_back f i j clear = elim (ℕ_discrete i j) [
  | yes e ↦ subst (λ k. update (update f i true) i false k ≡ f k) e (rw update_self (sym clear))
  | no ne ↦ ground arith
]

freed_taken :
    (s t : Swap) (id j : ℕ)
    → t.taken ≡ update s.taken id true
    → s.taken id ≡ false
    → (free_swap t id).taken j ≡ s.taken j
unfolding free_swap
freed_taken s t id j e clear = rw e (put_back s.taken id j clear)

-- From a valid state with room, `regular_swap_free` of the location that `regular_swap_location`
-- returns frees the slot that was taken: the same slots are in use as before the two calls, as many,
-- and the state is valid.
pub regular_swap_free-location :
    (s : Swap)
    → IsValid s
    → s.used < num_max_swap
    → (location : ℕ) × (t : Swap) × (regular_swap_location s ≡ ok (location, t))
      × ((j : ℕ) → (regular_swap_free t location).taken j ≡ s.taken j)
      × ((regular_swap_free t location).used ≡ s.used)
      × IsValid (regular_swap_free t location)
unfolding regular_swap_location regular_swap_free
regular_swap_free-location s v room =
    let (id, t, e, took) = alloc_swap-Took s v room in
    let back : (id * swap_len + s.base - t.base) / swap_len ≡ id =
      rw took.now (location_id id s.base) in
    let on : t.taken id ≡ true = rw took.now (update_self s.taken id true) in
    let (valid, fewer) = free_swap-IsValid t id took.valid took.in_range on in
    let used : t.used ≡ s.used + 1 = rw took.now refl in
    (
      id * swap_len + s.base,
      t,
      rw e,
      λ j. rw back (freed_taken s t id j (rw took.now refl) took.was_free),
      rw back (omega arith),
      rw back valid,
    )
