-- ===== src/Mm/Swap/Tests.antt =====
-- The swap area with slots 0 and 1 in use.
use ucas_oslab.Base.{ℕ, zero, suc, ◌≡◌, refl, sym, arith, ltb, some}
use ucas_oslab.Base.Run.{ok}
use ucas_oslab.Base.Update.{sum_to}
use ucas_oslab.Mm.Swap.{Swap, num_max_swap, scan, alloc_swap}
use ucas_oslab.Mm.Swap.Slots.{IsValid, Took, bit, alloc_swap-Took}

abbrev two : Swap
two = record { taken = λ i. ltb i 2; used = 2; next_idx = 1; base = 1000 }

low_sum : (n : ℕ) → sum_to (suc (suc n)) (λ i. bit (ltb i 2)) ≡ 2
unfolding sum_to
low_sum zero = refl
low_sum (suc n) = ground (arith, low_sum n)

two-IsValid : IsValid two
two-IsValid = record { counted = sym (low_sum 16382); next_in = omega arith }

-- The walk goes on from slot 1 to slot 2.
next_slot : scan two.taken num_max_swap two.next_idx ≡ some 2
unfolding scan
next_slot = refl

alloc_swap-Took_example : (id : ℕ) × (t : Swap) × (alloc_swap two ≡ ok (id, t)) × Took two id t
alloc_swap-Took_example = alloc_swap-Took two two-IsValid (omega arith)
