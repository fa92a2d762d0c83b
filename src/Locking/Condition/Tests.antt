-- ===== src/Locking/Condition/Tests.antt =====
-- Condition 3 with tasks 4 and 5 waiting.
use ucas_oslab.Base.{true, false, ◌≡◌, refl, ◌||◌, [], ◌∷◌, ◌++◌, ◌==◌, if◌then◌else◌}
use ucas_oslab.Base.Int.{pos}
use ucas_oslab.Sched.{blocked, running}
use ucas_oslab.Locking.Condition.{Conditions, condition_wait}
use ucas_oslab.Locking.Condition.Sleep.{condition_wait-mutex_release}
use ucas_oslab.Locking.Mutex.{Mutexes}
use ucas_oslab.Base.Run.{ok}

abbrev crowd : Conditions
crowd = record {
  tasks = record {
    status = λ p. if p == 4 || (p == 5) then blocked else running;
    held = λ p. p == 4 || (p == 5);
    ready_queue = 1 ∷ [];
  };
  conditions = λ id. record { key = pos 7; wait_list = 4 ∷ 5 ∷ [] };
  cond_ref = λ id. 1;
}

-- Mutex 1 is held by task 2, and task 6 waits for it.
abbrev locks : Mutexes
locks = record {
  tasks = record crowd.tasks {
    status = λ p. if p == 6 then blocked else crowd.tasks.status p;
    held = λ p. p == 6 || crowd.tasks.held p;
  };
  mlocks = λ id. record { acquired = true; pid = pos 2; key = pos 9; block_list = 6 ∷ [] };
  mlock_ref = λ id. 1;
}

abbrev full : Conditions
full = record crowd { tasks = locks.tasks }

condition_wait-mutex_release_example :
    (w' : Conditions) × (m' : Mutexes) × (condition_wait full locks 2 3 1 ≡ ok (w', m'))
    × ((w'.conditions 3).wait_list ≡ (4 ∷ 5 ∷ []) ++ (2 ∷ []))
    × ((m'.mlocks 1).acquired ≡ false)
    × (m'.tasks ≡ w'.tasks)
    × (w'.tasks.ready_queue ≡ (1 ∷ []) ++ (6 ∷ []))
condition_wait-mutex_release_example =
    condition_wait-mutex_release full locks 2 3 1 refl refl
      (record { is_held = refl; asleep = refl }, tt) (tt, tt)
