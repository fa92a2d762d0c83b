-- ===== src/Locking/Semaphore/Leak.antt =====
-- A new semaphore is also referred to in the name of the task whose place in the bitmaps is 0.
use ucas_oslab.Base.{
  ℕ, suc, ◌+◌, ◌-◌, ◌/◌, ◌^◌, ◌<◌, ◌≡◌, refl, ap, ◌∙◌, none, arith, ==_iff, ==_refl, if◌then◌else◌,
}
use native.Mathlib.Nat.{pow-suc, div-eq_of_lt, div-eq-sub-div}
use ucas_oslab.Base.Int.{ℤ}
use ucas_oslab.Base.Run.{ok}
use ucas_oslab.Locking.Slots.{
  first, first-some, first_found, first_bound, for_each_in, has_ref, add_ref, drop_ref, two_pow_pos,
}
use ucas_oslab.Locking.Semaphore.{
  Semaphores, semaphore_num, in_use, unused, allocate, cleanup_round, cleanup_semaphores,
  do_semaphore_init,
}

one_lt_two_pow : (p : ℕ) → 1 < 2 ^ suc p
one_lt_two_pow p = rw (pow-suc 2 p) (omega (arith, two_pow_pos p))

dropped : ℕ → ℕ → ℕ → ℕ
dropped place i ref = if has_ref ref place then drop_ref ref place else ref

cleanup_round_away :
    (place i j : ℕ) (w : Semaphores)
    → (i ≡ j → ⊥)
    → (cleanup_round place i w).sema_ref j ≡ w.sema_ref j
cleanup_round_away place i j w ne = ground arith

cleanup_round_here :
    (place i : ℕ) (w : Semaphores)
    → (cleanup_round place i w).sema_ref i ≡ dropped place i (w.sema_ref i)
unfolding dropped
cleanup_round_here place i w = ground arith

lone_bit : (p i : ℕ) → dropped (suc p) i (add_ref 1 (suc p)) ≡ 1
unfolding dropped add_ref has_ref drop_ref
lone_bit p i =
    let big = one_lt_two_pow p in
    let low : 1 / 2 ^ suc p ≡ 0 = div-eq_of_lt big in
    let one : 1 + 2 ^ suc p - 2 ^ suc p ≡ 1 = omega arith in
    let step : (1 + 2 ^ suc p) / 2 ^ suc p ≡ (1 + 2 ^ suc p - 2 ^ suc p) / 2 ^ suc p + 1 =
      div-eq-sub-div (omega arith) (omega arith) in
    let high : (1 + 2 ^ suc p) / 2 ^ suc p ≡ 1 =
      step ∙ ap (λ (n : ℕ). n / 2 ^ suc p + 1) one ∙ ap (λ (n : ℕ). n + 1) low in
    ground (arith, low, high)

cleanup_ref :
    (w : Semaphores) (place i : ℕ)
    → i < semaphore_num
    → (cleanup_semaphores w place).sema_ref i ≡ dropped place i (w.sema_ref i)
unfolding cleanup_semaphores
cleanup_ref w place i h =
    for_each_in (cleanup_round place) (λ v j. v.sema_ref j) (dropped place)
      (λ a b u. cleanup_round_away place a b u) (λ a u. cleanup_round_here place a u) semaphore_num
      w i h

allocate_ref :
    (w : Semaphores) (place id : ℕ) (key init : ℤ)
    → (allocate w place key init id).sema_ref id ≡ add_ref 1 place
allocate_ref w place id key init = rw (==_refl id) refl

-- A semaphore that `do_semaphore_init` makes for a task whose place in the bitmaps is not 0 is still
-- in use after `cleanup_semaphores` for that task, although no other task has referred to it.
pub cleanup_semaphores-do_semaphore_init :
    (w : Semaphores) (p slot : ℕ) (key init : ℤ)
    → first (in_use w key) semaphore_num 0 ≡ none
    → slot < semaphore_num
    → w.sema_ref slot ≡ 0
    → (id : ℕ) × (v : Semaphores) × (do_semaphore_init w (suc p) key init ≡ ok (id, v))
      × (w.sema_ref id ≡ 0)
      × ((cleanup_semaphores v (suc p)).sema_ref id ≡ 1)
unfolding do_semaphore_init
cleanup_semaphores-do_semaphore_init w p slot key init missing inside free =
    let (id, taken) =
      first_found (unused w) semaphore_num 0 slot (rw free refl) (omega arith) (omega arith) in
    let v = allocate w (suc p) key init id in
    (
      id,
      v,
      rw (missing, taken) refl,
      (==_iff (w.sema_ref id) 0).0 (first-some (unused w) semaphore_num 0 id taken),
      cleanup_ref v (suc p) id (first_bound (unused w) semaphore_num 0 id taken)
          ∙ ap (dropped (suc p) id) (allocate_ref w (suc p) id key init)
          ∙ lone_bit p id,
    )
