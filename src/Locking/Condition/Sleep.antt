-- ===== src/Locking/Condition/Sleep.antt =====
-- A wait puts the task on the condition's list before it gives the mutex back.
use ucas_oslab.Base.{ℕ, ◌≡◌, refl, ap, false, [], ◌∷◌, ◌++◌, All}
use ucas_oslab.Base.Run.{ok}
use ucas_oslab.Base.Update.{update_self}
use ucas_oslab.Sched.{is_blocked}
use ucas_oslab.Sched.Waiting.{
  Waits, Distinct, unblock_list-ready_queue, asleep_now, Waits-asleep_now,
}
use ucas_oslab.Locking.Mutex.{Mutexes, mutex_release}
use ucas_oslab.Locking.Condition.{Conditions, put_wait_list, condition_wait}

-- `condition_wait` by a task that is not blocked and in no list, while the tasks that wait for the mutex
-- are blocked, never halts. The task is the last of the condition's list, the mutex is free, and the
-- tasks that waited for the mutex are ready, in their order, behind those that were.
pub condition_wait-mutex_release :
    (w : Conditions) (m : Mutexes) (task id mutex : ℕ)
    → is_blocked (w.tasks.status task) ≡ false
    → w.tasks.held task ≡ false
    → All (Waits w.tasks) (m.mlocks mutex).block_list
    → Distinct (m.mlocks mutex).block_list
    → (w' : Conditions) × (m' : Mutexes) × (condition_wait w m task id mutex ≡ ok (w', m'))
      × ((w'.conditions id).wait_list ≡ (w.conditions id).wait_list ++ (task ∷ []))
      × ((m'.mlocks mutex).acquired ≡ false)
      × (m'.tasks ≡ w'.tasks)
      × (w'.tasks.ready_queue ≡ w.tasks.ready_queue ++ (m.mlocks mutex).block_list)
unfolding condition_wait asleep_now
condition_wait-mutex_release w m task id mutex awake free waits once =
    let ts = asleep_now w.tasks task in
    let queue = (w.conditions id).wait_list ++ (task ∷ []) in
    let m' = mutex_release (record m { tasks = ts }) mutex in
    let cond = record (w.conditions id) { wait_list = queue } in
    let lock = record (m.mlocks mutex) { acquired = false; block_list = [] } in
    (
      put_wait_list w id queue m'.tasks,
      m',
      rw (awake, free) refl,
      ap (λ c. c.wait_list) (update_self w.conditions id cond),
      ap (λ l. l.acquired) (update_self m.mlocks mutex lock),
      refl,
      unblock_list-ready_queue ts (m.mlocks mutex).block_list
          (Waits-asleep_now w.tasks task (m.mlocks mutex).block_list free waits) once,
    )
