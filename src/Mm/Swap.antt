-- ===== src/Mm/Swap.antt =====
-- kernel/mm/swap.c: the slots of the swap area. `taken` is the array `swap_using`; the sectors that
-- a slot stands for begin at `base` (swap_base_location).
pub mod Slots
mod Tests
use ucas_oslab.Base.{
  ℕ, zero, suc, ◌+◌, ◌-◌, ◌*◌, ◌/◌, ◌%◌, ◌^◌, Bool, true, false, Option, none, some, ltb,
  if◌then◌else◌,
}
use ucas_oslab.Base.Run.{Run, ok, halt}
use ucas_oslab.Base.Update.{update}

-- NUM_MAX_SWAP and SWAP_LEN.
abbrev pub num_max_swap : ℕ
num_max_swap = 64 * 1024 * 1024 / 4096

abbrev pub swap_len : ℕ
swap_len = 4096 / 512

pub record Swap : Type 0 where
  pub taken : ℕ → Bool
  pub used : ℕ
  pub next_idx : ℕ
  pub base : ℕ

-- `while (swap_using[swap_next_idx])`, on fuel: `none` is a walk that has not ended.
pub scan : (ℕ → Bool) → ℕ → ℕ → Option ℕ
scan taken zero idx = none
scan taken (suc n) idx =
    let rest = scan taken n ((idx + 1) % num_max_swap) in if taken idx then rest else some idx

take_slot : Swap → Option ℕ → Run (ℕ × Swap)
take_slot s none = halt
take_slot s (some idx) =
    ok (idx, record s { taken = update s.taken idx true; used = s.used + 1; next_idx = idx })

-- A round of the walk visits every slot. A walk without end stops the kernel as a halt does.
pub alloc_swap : Swap → Run (ℕ × Swap)
unfolding take_slot
alloc_swap s =
    if ltb s.used num_max_swap then take_slot s (scan s.taken num_max_swap s.next_idx) else halt

-- `swap_used` is unsigned.
pub free_swap : Swap → ℕ → Swap
free_swap s id = record s { taken = update s.taken id false; used = (s.used + 2 ^ 64 - 1) % 2 ^ 64 }

to_location : Swap → Run (ℕ × Swap) → Run (ℕ × Swap)
to_location s halt = halt
to_location s (ok (id, t)) = ok (id * swap_len + s.base, t)

pub regular_swap_location : Swap → Run (ℕ × Swap)
unfolding to_location
regular_swap_location s = to_location s (alloc_swap s)

pub regular_swap_free : Swap → ℕ → Swap
regular_swap_free s location = free_swap s ((location - s.base) / swap_len)
