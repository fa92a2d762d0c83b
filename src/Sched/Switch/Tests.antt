-- ===== src/Sched/Switch/Tests.antt =====
-- Task 2 runs, 0, 3 and 4 are ready, and 5 sleeps until 10.
use ucas_oslab.Base.{ℕ, ◌+◌, ◌≡◌, ◌⊎◌, refl, true, [], ◌∷◌, ◌++◌, arith}
use ucas_oslab.Base.Run.{ok}
use ucas_oslab.Sched.{running, blocked}
use ucas_oslab.Sched.Pick.{Scheduler, filter_affinity}
use ucas_oslab.Sched.Pick.Tests.{sample, sample_pcbs}
use ucas_oslab.Sched.Switch.{check_sleeping, do_scheduler, do_sleep}
use ucas_oslab.Sched.Switch.Moves.{places, Linked}
use ucas_oslab.Sched.Switch.Wake.{due, not_due, check_sleeping-due}
use ucas_oslab.Sched.Switch.Requeue.{on_cpu, WellQueued}
use ucas_oslab.Sched.Switch.Total.{do_scheduler-places}
use ucas_oslab.Sched.Switch.Sleep.{do_sleep-places}

sample-Linked : Linked sample
unfolding places
sample-Linked = record { linked = λ q. ground arith }

pub sample-WellQueued : WellQueued sample
sample-WellQueued = record { queues = sample-Linked; out = λ on. refl }

check_sleeping-due_example :
    (s' : Scheduler) × (check_sleeping 10 sample ≡ ok s')
    × (s'.sleep_queue ≡ not_due sample_pcbs 10 (5 ∷ []))
    × (s'.tasks.ready_queue ≡ (0 ∷ 3 ∷ 4 ∷ []) ++ due sample_pcbs 10 (5 ∷ []))
check_sleeping-due_example = check_sleeping-due 10 sample sample-Linked

do_scheduler-places_example :
    (s' : Scheduler) × (do_scheduler sample 0 12 ≡ ok s')
    × WellQueued s'
    × (filter_affinity 0 (sample_pcbs s'.running) ≡ true)
    × (s'.tasks.status s'.running ≡ running)
    × ((r : ℕ) → places s' r + on_cpu s' r ≡ places sample r + on_cpu sample r)
unfolding ucas_oslab.Locking.Slots.has_ref
do_scheduler-places_example = do_scheduler-places sample 0 12 2 sample-WellQueued (omega arith) refl

do_sleep-places_example :
    (s' : Scheduler) × (do_sleep sample 0 5 8 9 ≡ ok s')
    × ((s'.pcbs 2).wakeup_time ≡ 13)
    × (s'.sleep_queue ≡ not_due s'.pcbs 9 ((5 ∷ []) ++ (2 ∷ [])))
    × ((s'.running ≡ 2) ⊎ (s'.tasks.status 2 ≡ blocked))
    × WellQueued s'
    × (filter_affinity 0 (sample_pcbs s'.running) ≡ true)
    × (s'.tasks.status s'.running ≡ running)
    × ((r : ℕ) → places s' r + on_cpu s' r ≡ places sample r + on_cpu sample r)
unfolding ucas_oslab.Locking.Slots.has_ref
do_sleep-places_example = do_sleep-places sample 0 5 8 9 4 sample-WellQueued refl (omega arith) refl
