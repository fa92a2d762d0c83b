-- ===== src/Locking/Mutex/Tests.antt =====
-- Mutex 3 in use by the tasks 4 and 5, whose places in the bitmaps are their pids.
use ucas_oslab.Base.{ℕ, ◌≡◌, refl, true, false, [], ◌==◌, arith, if◌then◌else◌}
use ucas_oslab.Base.Int.{pos, negsuc}
use ucas_oslab.Base.Run.{ok}
use ucas_oslab.Base.Update.{update}
use ucas_oslab.Sched.{running}
use ucas_oslab.Locking.Slots.{has_ref}
use ucas_oslab.Locking.Mutex.{Mutex, Mutexes, acquire_round, put_mutex, cleanup_mutexes}
use ucas_oslab.Locking.Mutex.Exclusion.{System, acquire, Reach, here, next, IsFresh, Reach-holds}
use ucas_oslab.Locking.Mutex.Cleanup.{is_held_by, cleanup_mutexes-is_held_by}

abbrev free : Mutex
free = record { acquired = false; pid = negsuc 0; key = pos 42; block_list = [] }

abbrev kernel : Mutexes
kernel = record {
  tasks = record { status = λ p. running; held = λ p. false; ready_queue = [] };
  mlocks = λ id. free;
  mlock_ref = λ id. if id == 3 then 48 else 0;
}

abbrev start : System
start = record { kernel = kernel; holds = λ p. false }

-- Task 4 has the mutex.
abbrev taken : Mutexes
taken = put_mutex kernel 3 (record free { acquired = true; pid = pos 4 }) kernel.tasks

step_4 : acquire_round kernel 3 4 ≡ ok (taken, true)
unfolding acquire_round
step_4 = refl

start-IsFresh : IsFresh 3 start
start-IsFresh = record { refs = refl; nobody = λ p. refl }

walk : Reach 3 start (record { kernel = taken; holds = update start.holds 4 true })
walk = next here (acquire start 4 true taken step_4)

Reach-holds_example : ◌≡◌ {A = ℕ} 4 4
Reach-holds_example = Reach-holds 3 4 4 start-IsFresh walk refl refl

cleanup_mutexes-is_held_by_example : is_held_by 4 (cleanup_mutexes (λ p. p) taken 4) 3 ≡ false
cleanup_mutexes-is_held_by_example = cleanup_mutexes-is_held_by (λ p. p) taken 4 3 (omega arith)

not_7 : has_ref 48 7 ≡ false
unfolding has_ref
not_7 = refl
