-- ===== src/Locking/Semaphore/Negative.antt =====
-- A semaphore that is made with a count below zero.
use ucas_oslab.Base.{ℕ, ◌<◌, ◌≡◌, refl, ap, ◌∙◌, ◌==◌, false, none, some, arith, ==_refl, lt→ltb}
use ucas_oslab.Base.Int.{ℤ, pos, negsuc}
use ucas_oslab.Base.Run.{ok, halt}
use ucas_oslab.Locking.Slots.{first, first_found, first_bound, add_ref, two_pow_pos}
use ucas_oslab.Locking.Semaphore.{
  Semaphores, semaphore_num, usable, up_at, in_use, unused, allocate, do_semaphore_init,
  do_semaphore_up,
}
use ucas_oslab.Locking.Semaphore.Wait.{at_most_zero}

-- The bitmap of a new semaphore is not empty.
add_ref_some : (place : ℕ) → (add_ref 1 place == 0) ≡ false
unfolding add_ref
add_ref_some place = ground (arith, two_pow_pos place)

usable-allocate :
    (w : Semaphores) (place id : ℕ) (key init : ℤ)
    → id < semaphore_num
    → usable (allocate w place key init id) (pos id) ≡ some id
usable-allocate w place id key init inside =
    let low = lt→ltb id semaphore_num inside in rw (==_refl id, low, add_ref_some place) refl

up_at-allocate :
    (w : Semaphores) (place id n : ℕ) (key : ℤ)
    → up_at (allocate w place key (negsuc n) id) (some id) ≡ halt
unfolding up_at
up_at-allocate w place id n key = rw (==_refl id, at_most_zero n) refl

-- For a key that no semaphore in use has, and with a place that is free, `do_semaphore_init` makes a
-- semaphore of any negative count, and the first `do_semaphore_up` of it halts the kernel.
pub do_semaphore_up-do_semaphore_init :
    (w : Semaphores) (place slot n : ℕ) (key : ℤ)
    → first (in_use w key) semaphore_num 0 ≡ none
    → slot < semaphore_num
    → w.sema_ref slot ≡ 0
    → (id : ℕ) × (v : Semaphores) × (do_semaphore_init w place key (negsuc n) ≡ ok (id, v))
      × (do_semaphore_up v (pos id) ≡ halt)
unfolding do_semaphore_init do_semaphore_up
do_semaphore_up-do_semaphore_init w place slot n key missing inside free =
    let (id, taken) =
      first_found (unused w) semaphore_num 0 slot (rw free refl) (omega arith) (omega arith) in
    let v = allocate w place key (negsuc n) id in
    (
      id,
      v,
      rw (missing, taken) refl,
      ap (up_at v) (
            usable-allocate w place id key (negsuc n)
              (first_bound (unused w) semaphore_num 0 id taken))
          ∙ up_at-allocate w place id n key,
    )
