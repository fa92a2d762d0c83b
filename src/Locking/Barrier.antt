-- ===== src/Locking/Barrier.antt =====
-- kernel/locking/barrier.cpp. A trap holds the kernel lock (lock_kernel of kernel/smp/smp.c) up to its
-- call of `do_scheduler`, so that each operation is one step up to there; the flag that
-- `do_barrier_wait` returns says whether it calls `do_scheduler`.
pub mod Release
pub mod Key
mod Tests
use ucas_oslab.Base.{
  ℕ, zero, suc, ◌==◌, ltb, Bool, true, false, not, ◌||◌, ◌&&◌, ◌^◌, Option, none, some, List, [],
  ◌∷◌, if◌then◌else◌,
}
use ucas_oslab.Base.Int.{ℤ, pos, negsuc, ◌+ℤ◌, ltb_ℤ}
use ucas_oslab.Base.Run.{Run, ok, halt}
use ucas_oslab.Base.Update.{update}
use ucas_oslab.Locking.Slots.{first, for_each, eq_ℤ, has_ref, add_ref, drop_ref}
use ucas_oslab.Sched.{Tasks, do_block, unblock_list}

abbrev pub barrier_num : ℕ
barrier_num = 16

pub record Barrier : Type 0 where
  pub key : ℤ
  pub goal : ℤ
  pub current : ℤ
  pub block_list : List ℕ

pub record Barriers : Type 0 where
  pub tasks : Tasks
  pub barriers : ℕ → Barrier
  pub barrier_ref : ℕ → ℕ

abbrev pub put_barrier : Barriers → ℕ → Barrier → Tasks → Barriers
put_barrier w id bar ts = record w { tasks = ts; barriers = update w.barriers id bar }

-- An index that the tests of `bar_idx` and of `barrier_ref` let pass.
abbrev pub usable : Barriers → ℤ → Option ℕ
usable w (negsuc n) = none
usable w (pos id) = if not (ltb id barrier_num) || (w.barrier_ref id == 0) then none else some id

abbrev joined : Barriers → ℕ → Barrier → Run (Tasks × List ℕ) → Run (Barriers × Bool)
joined w id bar halt = halt
joined w id bar (ok (ts, queue)) =
    ok (put_barrier w id (record bar { block_list = queue }) ts, true)

unfoldable pub wait_at : Barriers → ℕ → Option ℕ → Run (Barriers × Bool)
wait_at w task none = ok (w, false)
wait_at w task (some id) =
    let old = w.barriers id in
    let bar = record old { current = old.current +ℤ pos 1 } in
    if ltb_ℤ old.current old.goal
    then (if ltb_ℤ bar.current bar.goal
        then joined w id bar (do_block w.tasks task bar.block_list)
        else ok (
          put_barrier w id (record bar { current = pos 0; block_list = [] })
              (unblock_list w.tasks bar.block_list),
          false,
        ))
    else halt

unfoldable pub do_barrier_wait : Barriers → ℕ → ℤ → Run (Barriers × Bool)
do_barrier_wait w task bar_idx = wait_at w task (usable w bar_idx)

abbrev pub barrier_destruct : Barriers → ℕ → Barriers
barrier_destruct w id =
    put_barrier w id (record (w.barriers id) { block_list = [] })
      (unblock_list w.tasks (w.barriers id).block_list)

abbrev destroy_at : Barriers → Option ℕ → Barriers
destroy_at w none = w
destroy_at w (some id) = barrier_destruct (record w { barrier_ref = update w.barrier_ref id 0 }) id

unfoldable pub do_barrier_destroy : Barriers → ℤ → Barriers
do_barrier_destroy w bar_idx = destroy_at w (usable w bar_idx)

abbrev pub in_use : Barriers → ℤ → ℕ → Bool
in_use w key i = not (w.barrier_ref i == 0) && eq_ℤ (w.barriers i).key key

abbrev pub unused : Barriers → ℕ → Bool
unused w i = w.barrier_ref i == 0

abbrev pub refer : Barriers → ℕ → ℕ → Barriers
refer w id pcb_index = record w {
  barrier_ref = update w.barrier_ref id (add_ref (w.barrier_ref id) pcb_index);
}

abbrev pub barrier_init : Barrier → Barrier
barrier_init bar = record bar { goal = pos 0; current = pos 0; block_list = [] }

abbrev allocated : Barriers → ℕ → ℤ → Option ℕ → Run (ℕ × Barriers)
allocated w pcb_index goal none = halt
allocated w pcb_index goal (some id) =
    let bar = record (barrier_init (w.barriers id)) { goal = goal } in
    ok (id, refer (put_barrier w id bar w.tasks) id pcb_index)

abbrev found : Barriers → ℕ → ℤ → Option ℕ → Run (ℕ × Barriers)
found w pcb_index goal (some id) = ok (id, refer w id pcb_index)
found w pcb_index goal none = allocated w pcb_index goal (first (unused w) barrier_num 0)

unfoldable pub do_barrier_init : Barriers → ℕ → ℤ → ℤ → Run (ℕ × Barriers)
do_barrier_init w pcb_index key goal = found w pcb_index goal (first (in_use w key) barrier_num 0)

unfoldable pub init_barriers : Barriers → Barriers
init_barriers w =
    for_each barrier_num (λ i v. record v { barrier_ref = update v.barrier_ref i 0 }) w

-- The body of the loop of `cleanup_barriers`, for the task with the place `place` in the bitmaps
-- (get_pcb_index).
abbrev pub cleanup_round : ℕ → ℕ → Barriers → Barriers
cleanup_round place i w =
    let left = drop_ref (w.barrier_ref i) place in
    let v = record w { barrier_ref = update w.barrier_ref i left } in
    if has_ref (w.barrier_ref i) place then (if left == 0 then barrier_destruct v i else v) else w

unfoldable pub cleanup_barriers : Barriers → ℕ → Barriers
cleanup_barriers w place = for_each barrier_num (cleanup_round place) w
