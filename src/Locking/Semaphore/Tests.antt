-- ===== src/Locking/Semaphore/Tests.antt =====
-- Semaphore 3 with task 4 waiting, and task 2 running; semaphore 5 made with a count of -1.
use ucas_oslab.Base.{arith, ℕ, ◌≡◌, refl, Bool, [], ◌∷◌, ◌==◌, if◌then◌else◌}
use ucas_oslab.Base.Int.{pos, negsuc}
use ucas_oslab.Base.Run.{ok, halt}
use ucas_oslab.Sched.{blocked, running}
use ucas_oslab.Locking.Semaphore.{
  Semaphores, do_semaphore_down, do_semaphore_up, do_semaphore_init, cleanup_semaphores,
}
use ucas_oslab.Locking.Semaphore.Wait.{IsValid, Upped, do_semaphore_up-Upped}
use ucas_oslab.Locking.Semaphore.Negative.{do_semaphore_up-do_semaphore_init}
use ucas_oslab.Locking.Semaphore.Leak.{cleanup_semaphores-do_semaphore_init}
use ucas_oslab.Locking.Semaphore.Down.{Downed, do_semaphore_down-Downed}

abbrev crowd : Semaphores
crowd = record {
  tasks = record {
    status = λ p. if p == 4 then blocked else running;
    held = λ p. p == 4;
    ready_queue = 1 ∷ [];
  };
  semaphores = λ id.
      if id == 3
      then record { key = pos 42; count = negsuc 0; wait_list = 4 ∷ [] }
      else record { key = pos 43; count = negsuc 0; wait_list = [] };
  sema_ref = λ id. 1;
}

crowd-IsValid : IsValid crowd.tasks (crowd.semaphores 3)
crowd-IsValid = record {
  counted = refl;
  waiting = (record { is_held = refl; asleep = refl }, tt);
  distinct = (tt, tt);
}

do_semaphore_up-Upped_example :
    (w' : Semaphores) × (do_semaphore_up crowd (pos 3) ≡ ok w')
    × Upped crowd.tasks w'.tasks (crowd.semaphores 3) (w'.semaphores 3)
do_semaphore_up-Upped_example = do_semaphore_up-Upped crowd 3 (pos 3) refl crowd-IsValid

do_semaphore_down-Downed_example :
    (w' : Semaphores) × (stops : Bool) × (do_semaphore_down crowd 2 (pos 3) ≡ ok (w', stops))
    × Downed 2 w'.tasks (crowd.semaphores 3) (w'.semaphores 3) stops
do_semaphore_down-Downed_example =
    do_semaphore_down-Downed crowd 2 3 (pos 3) refl refl refl crowd-IsValid

abbrev booted : Semaphores
booted = record crowd { sema_ref = λ id. 0 }

do_semaphore_up-do_semaphore_init_example :
    (id : ℕ) × (v : Semaphores) × (do_semaphore_init booted 2 (pos 42) (negsuc 3) ≡ ok (id, v))
    × (do_semaphore_up v (pos id) ≡ halt)
do_semaphore_up-do_semaphore_init_example =
    do_semaphore_up-do_semaphore_init booted 2 0 3 (pos 42) refl (omega arith) refl

cleanup_semaphores-do_semaphore_init_example :
    (id : ℕ) × (v : Semaphores) × (do_semaphore_init booted 2 (pos 42) (pos 1) ≡ ok (id, v))
    × (booted.sema_ref id ≡ 0)
    × ((cleanup_semaphores v 2).sema_ref id ≡ 1)
cleanup_semaphores-do_semaphore_init_example =
    cleanup_semaphores-do_semaphore_init booted 1 0 (pos 42) (pos 1) refl (omega arith) refl
