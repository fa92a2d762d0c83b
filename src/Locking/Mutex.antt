-- ===== src/Locking/Mutex.antt =====
-- kernel/locking/mutex.cpp. A trap holds the kernel lock (lock_kernel of kernel/smp/smp.c) up to its
-- call of `do_scheduler`, so that each round of the loop of `mutex_acquire` is one step: the flag that
-- `acquire_round` returns says whether the loop ends. A task is named by its pid; `index` is
-- get_pcb_index, which gives a pid its place in the bitmaps.
pub mod Exclusion
pub mod Lookup
pub mod Cleanup
mod Tests
use ucas_oslab.Base.{
  ℕ, zero, suc, ◌==◌, ltb, Bool, true, false, not, ◌||◌, ◌&&◌, Option, none, some, List, [], ◌∷◌,
  if◌then◌else◌,
}
use ucas_oslab.Base.Int.{ℤ, pos, negsuc}
use ucas_oslab.Base.Run.{Run, ok, halt}
use ucas_oslab.Base.Update.{update}
use ucas_oslab.Sched.{Tasks, do_block, unblock_list}
use ucas_oslab.Locking.Slots.{first, for_each, eq_ℤ, has_ref, add_ref, drop_ref}

abbrev pub lock_num : ℕ
lock_num = 16

pub record Mutex : Type 0 where
  pub acquired : Bool
  pub pid : ℤ
  pub key : ℤ
  pub block_list : List ℕ

pub record Mutexes : Type 0 where
  pub tasks : Tasks
  pub mlocks : ℕ → Mutex
  pub mlock_ref : ℕ → ℕ

abbrev pub put_mutex : Mutexes → ℕ → Mutex → Tasks → Mutexes
put_mutex w id mutex ts = record w { tasks = ts; mlocks = update w.mlocks id mutex }

unfoldable pub init_locks : Mutexes → Mutexes
init_locks w = for_each lock_num (λ i v. record v { mlock_ref = update v.mlock_ref i 0 }) w

abbrev pub mutex_init : Mutex
mutex_init = record { acquired = false; pid = negsuc 0; key = negsuc 0; block_list = [] }

abbrev pub mutex_release : Mutexes → ℕ → Mutexes
mutex_release w id =
    put_mutex w id (record (w.mlocks id) { acquired = false; block_list = [] })
      (unblock_list w.tasks (w.mlocks id).block_list)

-- The mutex is one of `mlocks`.
abbrev pub mutex_destruct : Mutexes → ℕ → Mutexes
mutex_destruct w id = let v = mutex_release w id in record v { mlock_ref = update v.mlock_ref id 0 }

-- The bodies of the two loops of `cleanup_mutexes`.
abbrev pub release_round : ℕ → ℕ → Mutexes → Mutexes
release_round pid i w =
    if not (w.mlock_ref i == 0) && ((w.mlocks i).acquired && eq_ℤ (w.mlocks i).pid (pos pid))
    then mutex_release w i
    else w

abbrev pub drop_round : ℕ → ℕ → Mutexes → Mutexes
drop_round place i w =
    let left = drop_ref (w.mlock_ref i) place in
    let v = record w { mlock_ref = update w.mlock_ref i left } in
    if has_ref (w.mlock_ref i) place then (if left == 0 then mutex_destruct v i else v) else w

pub cleanup_mutexes : (ℕ → ℕ) → Mutexes → ℕ → Mutexes
cleanup_mutexes index w pid =
    for_each lock_num (drop_round (index pid)) (for_each lock_num (release_round pid) w)

abbrev pub in_use : Mutexes → ℤ → ℕ → Bool
in_use w key i = not (w.mlock_ref i == 0) && eq_ℤ (w.mlocks i).key key

abbrev pub unused : Mutexes → ℕ → Bool
unused w i = w.mlock_ref i == 0

abbrev pub refer : Mutexes → ℕ → ℕ → Mutexes
refer w id place = record w { mlock_ref = update w.mlock_ref id (add_ref (w.mlock_ref id) place) }

abbrev allocated : Mutexes → ℕ → ℤ → Option ℕ → Run (ℕ × Mutexes)
allocated w place key none = halt
allocated w place key (some id) =
    ok (id, refer (put_mutex w id (record mutex_init { key = key }) w.tasks) id place)

abbrev found : Mutexes → ℕ → ℤ → Option ℕ → Run (ℕ × Mutexes)
found w place key (some id) = ok (id, refer w id place)
found w place key none = allocated w place key (first (unused w) lock_num 0)

unfoldable pub do_mutex_lock_init : (ℕ → ℕ) → Mutexes → ℕ → ℤ → Run (ℕ × Mutexes)
do_mutex_lock_init index w pid key = found w (index pid) key (first (in_use w key) lock_num 0)

abbrev queued : Mutexes → ℕ → Run (Tasks × List ℕ) → Run (Mutexes × Bool)
queued w id halt = halt
queued w id (ok (ts, queue)) =
    ok (put_mutex w id (record (w.mlocks id) { block_list = queue }) ts, false)

-- A round of the loop of `mutex_acquire` by `task`.
unfoldable pub acquire_round : Mutexes → ℕ → ℕ → Run (Mutexes × Bool)
acquire_round w id task =
    if not (w.mlocks id).acquired
    then ok
        (put_mutex w id (record (w.mlocks id) { acquired = true; pid = pos task }) w.tasks, true)
    else queued w id (do_block w.tasks task (w.mlocks id).block_list)

-- The call of `do_mutex_lock_acquire`, and each time the task is scheduled again. An index that is out
-- of range ends it.
abbrev pub do_mutex_lock_acquire : Mutexes → ℤ → ℕ → Run (Mutexes × Bool)
do_mutex_lock_acquire w (negsuc n) task = ok (w, true)
do_mutex_lock_acquire w (pos id) task =
    if ltb id lock_num then acquire_round w id task else ok (w, true)

abbrev release_at : Mutexes → ℕ → ℕ → Mutexes
release_at w id task =
    if w.mlock_ref id == 0
    then w
    else (if not (eq_ℤ (w.mlocks id).pid (pos task)) then w else mutex_release w id)

abbrev pub do_mutex_lock_release : Mutexes → ℤ → ℕ → Mutexes
do_mutex_lock_release w (negsuc n) task = w
do_mutex_lock_release w (pos id) task = if ltb id lock_num then release_at w id task else w
