-- ===== src/Sched/Pick/First.antt =====
-- A task is found whenever one of the ready queue may run on the processor.
use ucas_oslab.Base.{
  ℕ, ◌<◌, ◌≡◌, refl, inl, inr, ◌==◌, true, false, none, some, List, [], ◌∷◌, occurrences, arith,
  Bool-cases, ==_refl, ==_ne,
}
use mathlib.Core.Path.{subst}
use ucas_oslab.Base.Run.{ok}
use ucas_oslab.Sched.Pick.{
  Pcb, Scheduler, filter_affinity, filterout_kernel, pick_by_first, record_slice, pick_process,
}
use ucas_oslab.Sched.Pick.Least.{pick_by_consumption_in}

pick_by_first-some :
    (pcbs : ℕ → Pcb) (hart p : ℕ) (ps : List ℕ) → pick_by_first pcbs hart (some p) ps ≡ some p
unfolding pick_by_first
pick_by_first-some pcbs hart p [] = refl
pick_by_first-some pcbs hart p (q ∷ qs) = elim (Bool-cases (filter_affinity hart (pcbs q))) [
  | inl on ↦ rw on (pick_by_first-some pcbs hart p qs)
  | inr off ↦ rw off (pick_by_first-some pcbs hart p qs)
]

pick_by_first_in :
    (pcbs : ℕ → Pcb) (hart q : ℕ) (ps : List ℕ)
    → 0 < occurrences ps q
    → filter_affinity hart (pcbs q) ≡ true
    → (p : ℕ) × (pick_by_first pcbs hart none ps ≡ some p)
      × (0 < occurrences ps p)
      × (filter_affinity hart (pcbs p) ≡ true)
unfolding pick_by_first
pick_by_first_in pcbs hart q [] some_in fits = ground arith
pick_by_first_in pcbs hart q (x ∷ xs) some_in fits =
    elim (Bool-cases (filter_affinity hart (pcbs x))) [
      | inl on ↦ (x, rw on (pick_by_first-some pcbs hart x xs), ground (arith, ==_refl x), on)
      | inr off ↦
          let other : (x == q) ≡ false =
            ==_ne x q (λ e.
              ground (arith, subst (λ y. filter_affinity hart (pcbs y) ≡ false) e off, fits)) in
          let (p, is, in_list, on) =
            pick_by_first_in pcbs hart q xs (ground (arith, some_in, other)) fits in
          (p, rw off is, omega arith, on)
    ]

filter_affinity-filterout_kernel :
    (hart : ℕ) (proc : Pcb) → filterout_kernel hart proc ≡ true → filter_affinity hart proc ≡ true
filter_affinity-filterout_kernel hart proc on = ground arith

pub pick_process-ok :
    (s : Scheduler) (hart q : ℕ)
    → 0 < occurrences s.tasks.ready_queue q
    → filter_affinity hart (s.pcbs q) ≡ true
    → (p : ℕ) × (pick_process s hart ≡ ok (p, record_slice s p))
      × (0 < occurrences s.tasks.ready_queue p)
      × (filter_affinity hart (s.pcbs p) ≡ true)
unfolding pick_process
pick_process-ok s hart q some_in fits =
    elim (pick_by_consumption_in s.pcbs hart s.tasks.ready_queue) [
      | inl empty ↦
          let (p, is, in_list, on) =
            pick_by_first_in s.pcbs hart q s.tasks.ready_queue some_in fits in
          (p, rw (empty, is) refl, in_list, on)
      | inr (p, is, in_list, on) ↦
          (p, rw is refl, in_list, filter_affinity-filterout_kernel hart (s.pcbs p) on)
    ]
