-- ===== src/Locking/Condition.antt =====
-- kernel/locking/condition.cpp. A trap holds the kernel lock (lock_kernel of kernel/smp/smp.c) up to
-- its call of `do_scheduler`, so that each operation is one step up to there. A wait goes on, when the
-- task is scheduled again, with the rounds of `mutex_acquire`.
pub mod Wake
pub mod Sleep
mod Tests
use ucas_oslab.Base.{
  ℕ, zero, suc, ◌==◌, ltb, Bool, true, false, not, ◌||◌, ◌&&◌, Option, none, some, List, [], ◌∷◌,
  if◌then◌else◌,
}
use ucas_oslab.Base.Int.{ℤ, pos, negsuc}
use ucas_oslab.Base.Run.{Run, ok, halt}
use ucas_oslab.Base.Update.{update}
use ucas_oslab.Locking.Slots.{first, for_each, eq_ℤ, has_ref, add_ref, drop_ref}
use ucas_oslab.Locking.Mutex.{Mutexes, mutex_release, lock_num}
use ucas_oslab.Sched.{Tasks, do_block, list_shift, do_unblock, unblock_list}

abbrev pub condition_num : ℕ
condition_num = 16

pub record Condition : Type 0 where
  pub key : ℤ
  pub wait_list : List ℕ

pub record Conditions : Type 0 where
  pub tasks : Tasks
  pub conditions : ℕ → Condition
  pub cond_ref : ℕ → ℕ

abbrev pub put_wait_list : Conditions → ℕ → List ℕ → Tasks → Conditions
put_wait_list w id queue ts = record w {
  tasks = ts;
  conditions = update w.conditions id (record (w.conditions id) { wait_list = queue });
}

-- An index that the tests of `cond_idx` and of `cond_ref` let pass.
abbrev pub usable : Conditions → ℤ → Option ℕ
usable w (negsuc n) = none
usable w (pos id) = if not (ltb id condition_num) || (w.cond_ref id == 0) then none else some id

abbrev signalled : Conditions → ℕ → Option (ℕ × Tasks × List ℕ) → Conditions
signalled w id none = w
signalled w id (some (p, ts, queue)) = put_wait_list w id queue (do_unblock ts p)

abbrev pub condition_signal : Conditions → ℕ → Conditions
condition_signal w id = signalled w id (list_shift w.tasks (w.conditions id).wait_list)

abbrev pub condition_broadcast : Conditions → ℕ → Conditions
condition_broadcast w id = put_wait_list w id [] (unblock_list w.tasks (w.conditions id).wait_list)

abbrev signal_at : Conditions → Option ℕ → Conditions
signal_at w none = w
signal_at w (some id) = condition_signal w id

abbrev broadcast_at : Conditions → Option ℕ → Conditions
broadcast_at w none = w
broadcast_at w (some id) = condition_broadcast w id

unfoldable pub do_condition_signal : Conditions → ℤ → Conditions
do_condition_signal w cond_idx = signal_at w (usable w cond_idx)

unfoldable pub do_condition_broadcast : Conditions → ℤ → Conditions
do_condition_broadcast w cond_idx = broadcast_at w (usable w cond_idx)

abbrev pub condition_destruct : Conditions → ℕ → Conditions
condition_destruct w id = condition_broadcast w id

abbrev pub set_ref : Conditions → ℕ → ℕ → Conditions
set_ref w id ref = record w { cond_ref = update w.cond_ref id ref }

unfoldable pub init_conditions : Conditions → Conditions
init_conditions w = for_each condition_num (λ i v. set_ref v i 0) w

-- The body of the loop of `cleanup_conditions`, for the task with the place `place` in the bitmaps
-- (get_pcb_index).
abbrev pub cleanup_round : ℕ → ℕ → Conditions → Conditions
cleanup_round place i w =
    let left = drop_ref (w.cond_ref i) place in
    let v = set_ref w i left in
    if has_ref (w.cond_ref i) place then (if left == 0 then condition_destruct v i else v) else w

unfoldable pub cleanup_conditions : Conditions → ℕ → Conditions
cleanup_conditions w place = for_each condition_num (cleanup_round place) w

abbrev pub in_use : Conditions → ℤ → ℕ → Bool
in_use w key i = not (w.cond_ref i == 0) && eq_ℤ (w.conditions i).key key

abbrev pub unused : Conditions → ℕ → Bool
unused w i = w.cond_ref i == 0

abbrev pub refer : Conditions → ℕ → ℕ → Conditions
refer w id place = set_ref w id (add_ref (w.cond_ref id) place)

-- `condition_init` empties the wait list; the key is set after it.
abbrev allocated : Conditions → ℕ → ℤ → Option ℕ → Run (ℕ × Conditions)
allocated w place key none = halt
allocated w place key (some id) =
    let cond : Condition = record { key = key; wait_list = [] } in
    ok (id, refer (record w { conditions = update w.conditions id cond }) id place)

abbrev found : Conditions → ℕ → ℤ → Option ℕ → Run (ℕ × Conditions)
found w place key (some id) = ok (id, refer w id place)
found w place key none = allocated w place key (first (unused w) condition_num 0)

unfoldable pub do_condition_init : Conditions → ℕ → ℤ → Run (ℕ × Conditions)
do_condition_init w place key = found w place key (first (in_use w key) condition_num 0)

-- The conditions and the mutexes share the tasks: both records hold the same.
abbrev waited : Conditions → Mutexes → ℕ → ℕ → Run (Tasks × List ℕ) → Run (Conditions × Mutexes)
waited w m id mutex halt = halt
waited w m id mutex (ok (ts, queue)) =
    let m' = mutex_release (record m { tasks = ts }) mutex in
    ok (put_wait_list w id queue m'.tasks, m')

-- `condition_wait` by `task`, up to its call of `do_scheduler`.
unfoldable pub condition_wait : Conditions → Mutexes → ℕ → ℕ → ℕ → Run (Conditions × Mutexes)
condition_wait w m task id mutex =
    waited w m id mutex (do_block w.tasks task (w.conditions id).wait_list)

abbrev mutex_of : ℤ → Option ℕ
mutex_of (negsuc n) = none
mutex_of (pos id) = if ltb id lock_num then some id else none

abbrev wait_on : Conditions → Mutexes → ℕ → Option ℕ → Option ℕ → Run (Conditions × Mutexes × Bool)
wait_on w m task none mutex = ok (w, m, false)
wait_on w m task (some id) none = ok (w, m, false)
wait_on w m task (some id) (some mutex) = elim (condition_wait w m task id mutex) [
  | halt ↦ halt
  | ok (w', m') ↦ ok (w', m', true)
]

-- The flag says whether the task waits.
unfoldable pub do_condition_wait :
    Conditions → Mutexes → ℕ → ℤ → ℤ → Run (Conditions × Mutexes × Bool)
do_condition_wait w m task cond_idx mutex_idx =
    wait_on w m task (usable w cond_idx) (mutex_of mutex_idx)

abbrev destroy_at : Conditions → Option ℕ → Conditions
destroy_at w none = w
destroy_at w (some id) = condition_destruct (set_ref w id 0) id

unfoldable pub do_condition_destroy : Conditions → ℤ → Conditions
do_condition_destroy w cond_idx = destroy_at w (usable w cond_idx)
