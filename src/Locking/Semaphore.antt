-- ===== src/Locking/Semaphore.antt =====
-- kernel/locking/semaphore.cpp. A trap holds the kernel lock (lock_kernel of kernel/smp/smp.c) up to
-- its call of `do_scheduler`, so that each operation is one step up to there; the flag that
-- `do_semaphore_down` returns says whether it calls `do_scheduler`. A count is an integer: the C `int`
-- is taken not to overflow.
pub mod Wait
pub mod Leak
pub mod Negative
pub mod Down
mod Tests
use ucas_oslab.Base.{
  ℕ, zero, suc, ◌==◌, ltb, Bool, true, false, not, ◌||◌, ◌&&◌, Option, none, some, List, [], ◌∷◌,
  if◌then◌else◌,
}
use ucas_oslab.Base.Int.{ℤ, pos, negsuc, ◌+ℤ◌, ◌-ℤ◌, ltb_ℤ}
use ucas_oslab.Base.Run.{Run, ok, halt}
use ucas_oslab.Base.Update.{update}
use ucas_oslab.Locking.Slots.{first, for_each, eq_ℤ, has_ref, add_ref, drop_ref}
use ucas_oslab.Sched.{Tasks, list_shift, do_block, do_unblock, unblock_list}

abbrev pub semaphore_num : ℕ
semaphore_num = 16

pub record Semaphore : Type 0 where
  pub key : ℤ
  pub count : ℤ
  pub wait_list : List ℕ

pub record Semaphores : Type 0 where
  pub tasks : Tasks
  pub semaphores : ℕ → Semaphore
  pub sema_ref : ℕ → ℕ

abbrev pub put_sema : Semaphores → ℕ → Semaphore → Tasks → Semaphores
put_sema w id sema ts = record w { tasks = ts; semaphores = update w.semaphores id sema }

-- An index that the tests of `sema_idx` and of `sema_ref` let pass.
abbrev pub usable : Semaphores → ℤ → Option ℕ
usable w (negsuc n) = none
usable w (pos id) = if not (ltb id semaphore_num) || (w.sema_ref id == 0) then none else some id

abbrev waited : Semaphores → ℕ → Semaphore → Run (Tasks × List ℕ) → Run (Semaphores × Bool)
waited w id sema halt = halt
waited w id sema (ok (ts, queue)) = ok (put_sema w id (record sema { wait_list = queue }) ts, true)

unfoldable pub down_at : Semaphores → ℕ → Option ℕ → Run (Semaphores × Bool)
down_at w current none = ok (w, false)
down_at w current (some id) =
    let sema = record (w.semaphores id) { count = (w.semaphores id).count -ℤ pos 1 } in
    if ltb_ℤ sema.count (pos 0)
    then waited w id sema (do_block w.tasks current sema.wait_list)
    else ok (put_sema w id sema w.tasks, false)

unfoldable pub do_semaphore_down : Semaphores → ℕ → ℤ → Run (Semaphores × Bool)
do_semaphore_down w current sema_idx = down_at w current (usable w sema_idx)

abbrev woken : Semaphores → ℕ → Semaphore → Option (ℕ × Tasks × List ℕ) → Run Semaphores
woken w id sema none = halt
woken w id sema (some (p, ts, queue)) =
    ok (put_sema w id (record sema { wait_list = queue }) (do_unblock ts p))

unfoldable pub up_at : Semaphores → Option ℕ → Run Semaphores
up_at w none = ok w
up_at w (some id) =
    let sema = record (w.semaphores id) { count = (w.semaphores id).count +ℤ pos 1 } in
    if ltb_ℤ (pos 0) sema.count
    then ok (put_sema w id sema w.tasks)
    else woken w id sema (list_shift w.tasks sema.wait_list)

unfoldable pub do_semaphore_up : Semaphores → ℤ → Run Semaphores
do_semaphore_up w sema_idx = up_at w (usable w sema_idx)

abbrev pub semaphore_init : Semaphore
semaphore_init = record { key = negsuc 0; count = pos 0; wait_list = [] }

abbrev pub semaphore_destruct : Semaphores → ℕ → Semaphores
semaphore_destruct w id =
    put_sema w id semaphore_init (unblock_list w.tasks (w.semaphores id).wait_list)

abbrev pub set_ref : Semaphores → ℕ → ℕ → Semaphores
set_ref w id ref = record w { sema_ref = update w.sema_ref id ref }

unfoldable pub init_semaphores : Semaphores → Semaphores
init_semaphores w = for_each semaphore_num (λ i v. set_ref v i 0) w

-- The body of the loop of `cleanup_semaphores`, for the task with the place `place` in the bitmaps
-- (get_pcb_index).
abbrev pub cleanup_round : ℕ → ℕ → Semaphores → Semaphores
cleanup_round place i w =
    let left = drop_ref (w.sema_ref i) place in
    let v = set_ref w i left in
    if has_ref (w.sema_ref i) place then (if left == 0 then semaphore_destruct v i else v) else w

unfoldable pub cleanup_semaphores : Semaphores → ℕ → Semaphores
cleanup_semaphores w place = for_each semaphore_num (cleanup_round place) w

abbrev pub in_use : Semaphores → ℤ → ℕ → Bool
in_use w key i = not (w.sema_ref i == 0) && eq_ℤ (w.semaphores i).key key

abbrev pub unused : Semaphores → ℕ → Bool
unused w i = w.sema_ref i == 0

abbrev pub refer : Semaphores → ℕ → ℕ → Semaphores
refer w id place = set_ref w id (add_ref (w.sema_ref id) place)

-- `sema_ref[i] = 1`, then the bit of the task.
abbrev pub allocate : Semaphores → ℕ → ℤ → ℤ → ℕ → Semaphores
allocate w place key init id =
    refer (put_sema (set_ref w id 1) id (record semaphore_init { key = key; count = init }) w.tasks)
      id place

abbrev allocated : Semaphores → ℕ → ℤ → ℤ → Option ℕ → Run (ℕ × Semaphores)
allocated w place key init none = halt
allocated w place key init (some id) = ok (id, allocate w place key init id)

abbrev found : Semaphores → ℕ → ℤ → ℤ → Option ℕ → Run (ℕ × Semaphores)
found w place key init (some id) = ok (id, refer w id place)
found w place key init none = allocated w place key init (first (unused w) semaphore_num 0)

unfoldable pub do_semaphore_init : Semaphores → ℕ → ℤ → ℤ → Run (ℕ × Semaphores)
do_semaphore_init w place key init = found w place key init (first (in_use w key) semaphore_num 0)

abbrev destroy_at : Semaphores → ℕ → Semaphores
destroy_at w id = if w.sema_ref id == 0 then w else semaphore_destruct (set_ref w id 0) id

-- An index out of range is logged and then used: `none` is the access out of the array.
unfoldable pub do_semaphore_destroy : Semaphores → ℤ → Option Semaphores
do_semaphore_destroy w (negsuc n) = none
do_semaphore_destroy w (pos id) = if ltb id semaphore_num then some (destroy_at w id) else none
