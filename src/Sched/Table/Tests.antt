-- ===== src/Sched/Table/Tests.antt =====
-- Task 2 runs and waits for task 5, which sleeps.
use ucas_oslab.Base.{ℕ, ◌+◌, ◌≡◌, ◌≢◌, true, refl, [], ◌∷◌, ◌++◌, ◌==◌, none, arith}
use ucas_oslab.Base.Int.{pos, negsuc}
use ucas_oslab.Base.Run.{ok}
use ucas_oslab.Sched.{running, blocked}
use ucas_oslab.Sched.Pick.{filter_affinity}
use ucas_oslab.Sched.Pick.Tests.{sample}
use ucas_oslab.Sched.Switch.Moves.{places, one}
use ucas_oslab.Sched.Switch.Requeue.{on_cpu, WellQueued}
use ucas_oslab.Sched.Switch.Tests.{sample-WellQueued}
use ucas_oslab.Sched.Table.{Processes, do_waitpid, alloc_pcb, set_proc_affinity, set_process_nice}
use ucas_oslab.Sched.Table.Find.{Lives}
use ucas_oslab.Sched.Table.Wait.{do_waitpid-places}

abbrev family : Processes
family = record { scheduler = sample; wait_lists = λ p. [] }

full_table : alloc_pcb sample ≡ none
full_table = refl

no_processor : (set_proc_affinity (sample.pcbs 3) 12).0 ≡ 1
no_processor = refl

negative_nice : set_process_nice sample (negsuc 4) (pos 3) ≡ ok (negsuc 0, sample)
negative_nice = refl

sample-Lives : Lives sample 5
sample-Lives = record {
  is_user = omega arith;
  in_table = omega arith;
  user_pid = omega arith;
  live = refl;
  alone = λ q on. ground (arith, on);
}

do_waitpid-places_example :
    (w' : Processes) × (do_waitpid family 0 7 (pos 5) ≡ ok (pos 5, w'))
    × WellQueued w'.scheduler
    × (w'.wait_lists 5 ≡ [] ++ (2 ∷ []))
    × (w'.scheduler.tasks.status 2 ≡ blocked)
    × (w'.scheduler.running ≢ 2)
    × (filter_affinity 0 (sample.pcbs w'.scheduler.running) ≡ true)
    × (w'.scheduler.tasks.status w'.scheduler.running ≡ running)
    × ((r : ℕ)
        → places w'.scheduler r + on_cpu w'.scheduler r + one (2 == r)
          ≡ places sample r + on_cpu sample r)
unfolding ucas_oslab.Locking.Slots.has_ref
do_waitpid-places_example =
    do_waitpid-places family 0 7 5 4 sample-WellQueued refl sample-Lives (omega arith) refl
