-- ===== src/Sched/Table/Find.antt =====
-- A process is found by its number.
use ucas_oslab.Base.{
  ℕ, ◌≤◌, ◌<◌, ◌≡◌, refl, ap, ◌∙◌, ◌==◌, ltb, true, false, Option, some, arith, ==_refl,
}
use ucas_oslab.Base.Int.{pos}
use ucas_oslab.Base.Run.{ok}
use ucas_oslab.Locking.Slots.{first-some, first_found, first_only}
use ucas_oslab.Sched.Pick.{Scheduler, nr_cpus}
use ucas_oslab.Sched.Table.{num_max_task, num_max_pcb, is_exited, has_pid, find_pcb, get_pcb_index}

-- Task `p` is a user process that has not ended, and no other such process has its number.
pub record Lives (s : Scheduler) (p : ℕ) : Type 0 where
  pub is_user : nr_cpus ≤ p
  pub in_table : p < num_max_pcb
  pub user_pid : nr_cpus ≤ (s.pcbs p).pid
  pub live : is_exited (s.tasks.status p) ≡ false
  pub alone : (q : ℕ) → has_pid s (s.pcbs p).pid q ≡ true → q ≡ p

pub find_pcb-Lives :
    (s : Scheduler) (p : ℕ) → Lives s p → find_pcb s (pos (s.pcbs p).pid) ≡ ok (some p)
find_pcb-Lives s p l =
    let pid = (s.pcbs p).pid in
    let itself : has_pid s pid p ≡ true = rw (==_refl pid, l.live) refl in
    let (q, e) =
      first_found (has_pid s pid) num_max_task nr_cpus p itself l.is_user
        (omega (arith, l.in_table)) in
    let user : ltb pid nr_cpus ≡ false = ground (arith, l.user_pid) in
    rw user (
      ap (λ (o : Option ℕ). ok o)
        (e ∙ ap some (l.alone q (first-some (has_pid s pid) num_max_task nr_cpus q e))))

-- A user process that has not ended and whose number no other has is found by it, and `get_pcb_index`
-- gives its place in the table.
pub get_pcb_index-Lives :
    (s : Scheduler) (p : ℕ)
    → Lives s p
    → (find_pcb s (pos (s.pcbs p).pid) ≡ ok (some p))
      × (get_pcb_index s (pos (s.pcbs p).pid) ≡ ok p)
unfolding get_pcb_index
get_pcb_index-Lives s p l =
    let found = find_pcb-Lives s p l in
    let place =
      first_only (λ i. i == p) num_max_pcb p (==_refl p) l.in_table
        (λ k h on. ground (arith, on)) in
    (found, rw (found, place) refl)
