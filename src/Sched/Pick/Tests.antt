-- ===== src/Sched/Pick/Tests.antt =====
-- Tasks 3 and 4 are ready on processor 0, after the kernel's task 0.
use ucas_oslab.Base.{
  ℕ, ◌<◌, ◌≡◌, refl, Bool, true, false, Option, none, some, List, [], ◌∷◌, ◌==◌, arith, All,
  occurrences, if◌then◌else◌,
}
use ucas_oslab.Base.Int.{pos}
use ucas_oslab.Base.Update.{sum_to}
use ucas_oslab.Base.Run.{ok}
use ucas_oslab.Sched.{blocked, running, ready}
use ucas_oslab.Sched.Pick.{
  Pcb, Scheduler, pick_by_consumption, update_by_consumption_init, pick_process, record_slice,
}
use ucas_oslab.Sched.Pick.History.{
  SlicesCounted, record_slice-SlicesCounted, pick_process-SlicesCounted,
}
use ucas_oslab.Sched.Pick.Least.{pick_by_consumption-AtMost, allowed, AtMost}

-- Task 4 has the larger workload of two that are equally far.
abbrev pub sample_pcbs : ℕ → Pcb
sample_pcbs p = record {
  pid = p;
  wakeup_time = 10;
  task_id = 1;
  task_workload = if p == 4 then 1 else 0;
  slice_cnt = pos 0;
  nice = 0;
  affinity = 3;
}

abbrev pub sample : Scheduler
sample = record {
  tasks = record {
    status = λ p. if p == 2 then running else (if p == 5 then blocked else ready);
    held = λ p. if p == 2 then false else true;
    ready_queue = 0 ∷ 3 ∷ 4 ∷ [];
  };
  pcbs = sample_pcbs;
  sleep_queue = 5 ∷ [];
  time_slice_history = λ i. none;
  time_slice_history_index = 0;
  running = 2;
}

sample-SlicesCounted : SlicesCounted sample
unfolding sum_to
sample-SlicesCounted = record { index_in = omega arith; counted = λ p. refl }

abbrev picked : Scheduler
picked = record_slice sample 3

pick_process_twice : pick_process picked 0 ≡ ok (4, record_slice picked 4)
unfolding pick_process pick_by_consumption record_slice ucas_oslab.Locking.Slots.has_ref
    ucas_oslab.Base.Int.◌+ℤ◌
pick_process_twice = refl

pick_by_consumption-AtMost_example :
    (p : ℕ) × (pick_by_consumption sample_pcbs 0 update_by_consumption_init none (0 ∷ 3 ∷ 4 ∷ [])
      ≡ some p)
    × (0 < occurrences (allowed sample_pcbs 0 (0 ∷ 3 ∷ 4 ∷ [])) p)
    × All (λ r. AtMost (sample_pcbs p) (sample_pcbs r)) (allowed sample_pcbs 0 (0 ∷ 3 ∷ 4 ∷ []))
unfolding ucas_oslab.Locking.Slots.has_ref
pick_by_consumption-AtMost_example =
    pick_by_consumption-AtMost sample_pcbs 0 4 (0 ∷ 3 ∷ 4 ∷ []) (omega arith) (omega arith)

pick_process-SlicesCounted_example : SlicesCounted (record_slice picked 4)
pick_process-SlicesCounted_example =
    pick_process-SlicesCounted picked 0 4 (record_slice picked 4)
      (record_slice-SlicesCounted sample 3 sample-SlicesCounted) pick_process_twice
