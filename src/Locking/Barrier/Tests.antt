-- ===== src/Locking/Barrier/Tests.antt =====
-- Barrier 3 of two or three tasks, with task 4 waiting and task 2 running; no barrier in use.
use ucas_oslab.Base.{ℕ, ◌<◌, ◌≡◌, refl, true, false, [], ◌∷◌, ◌++◌, ◌==◌, arith, if◌then◌else◌}
use ucas_oslab.Base.Int.{pos}
use ucas_oslab.Base.Run.{ok}
use ucas_oslab.Sched.{blocked, running}
use ucas_oslab.Locking.Barrier.{Barriers, do_barrier_wait, do_barrier_init}
use ucas_oslab.Locking.Barrier.Release.{IsValid, do_barrier_wait_last, do_barrier_wait-IsValid}
use ucas_oslab.Locking.Barrier.Key.{Unkeyed, do_barrier_init-Unkeyed}

abbrev gate : ℕ → Barriers
gate n = record {
  tasks = record {
    status = λ p. if p == 4 then blocked else running;
    held = λ p. p == 4;
    ready_queue = 1 ∷ [];
  };
  barriers = λ id. record { key = pos 0; goal = pos n; current = pos 1; block_list = 4 ∷ [] };
  barrier_ref = λ id. 1;
}

gate-IsValid : (n : ℕ) → 1 < n → IsValid (gate n).tasks ((gate n).barriers 3) n
gate-IsValid n h = record {
  goal_is = refl;
  arrived = refl;
  below = h;
  waiting = (record { is_held = refl; asleep = refl }, tt);
  distinct = (tt, tt);
}

abbrev booted : Barriers
booted = record {
  tasks = (gate 2).tasks;
  barriers = λ id. record { key = pos 0; goal = pos 0; current = pos 0; block_list = [] };
  barrier_ref = λ id. 0;
}

do_barrier_wait_last_example :
    (w' : Barriers) × (do_barrier_wait (gate 2) 2 (pos 3) ≡ ok (w', false))
    × (w'.tasks.ready_queue ≡ (1 ∷ []) ++ (4 ∷ []))
    × IsValid w'.tasks (w'.barriers 3) 2
do_barrier_wait_last_example =
    do_barrier_wait_last (gate 2) 2 3 2 (pos 3) refl (gate-IsValid 2 (omega arith)) refl

do_barrier_wait-IsValid_example :
    (w' : Barriers) × (do_barrier_wait (gate 3) 2 (pos 3) ≡ ok (w', true))
    × ((w'.barriers 3).block_list ≡ (4 ∷ []) ++ (2 ∷ []))
    × IsValid w'.tasks (w'.barriers 3) 3
do_barrier_wait-IsValid_example =
    do_barrier_wait-IsValid (gate 3) 2 3 3 (pos 3) refl refl refl (gate-IsValid 3 (omega arith))
      (omega arith)

do_barrier_init-Unkeyed_example :
    (id : ℕ) × (w' : Barriers) × (do_barrier_init booted 5 (pos 42) (pos 2) ≡ ok (id, w'))
    × (booted.barrier_ref id ≡ 0)
    × Unkeyed w'
do_barrier_init-Unkeyed_example =
    do_barrier_init-Unkeyed booted 5 0 (pos 42) (pos 2) (λ i. refl) (λ e. ground arith)
      (omega arith) refl
