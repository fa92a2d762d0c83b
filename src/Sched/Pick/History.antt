-- ===== src/Sched/Pick/History.antt =====
-- The slice counts are those of the history.
use ucas_oslab.Base.{
  ℕ, ◌+◌, ◌-◌, ◌≤◌, ◌<◌, ◌≡◌, refl, sym, ap, ◌∙◌, inl, inr, ◌==◌, Option, none, some, arith,
  if◌then◌else◌, Bool-cases, ==_refl, ==_ne,
}
use native.Mathlib.Decide.{ℕ_discrete}
use mathlib.Core.Path.{subst}
use ucas_oslab.Base.Int.{ℤ, pos, negsuc, ◌+ℤ◌}
use ucas_oslab.Base.Run.{Run, ok, halt}
use ucas_oslab.Base.Update.{update, sum_to, sum_to-single}
use ucas_oslab.Sched.Pick.{
  Pcb, Scheduler, time_slice_history_size, add_slices, drop_slice, record_slice, or_halt, or_first,
  pick_by_first, pick_by_consumption, update_by_consumption_init, pick_process,
}

-- One for an entry that names `p`.
abbrev pub names : Option ℕ → ℕ → ℕ
names none p = 0
names (some q) p = if q == p then 1 else 0

-- The slices of `p` in the history.
abbrev pub slices : (ℕ → Option ℕ) → ℕ → ℕ
slices history p = sum_to time_slice_history_size (λ i. names (history i) p)

pub record SlicesCounted (s : Scheduler) : Type 0 where
  pub index_in : s.time_slice_history_index < time_slice_history_size
  pub counted : (p : ℕ) → (s.pcbs p).slice_cnt ≡ pos (slices s.time_slice_history p)

slice_cnt-add_slices :
    (n : ℤ) (pcbs : ℕ → Pcb) (q p : ℕ)
    → (add_slices n pcbs q p).slice_cnt
      ≡ (if q == p then (pcbs p).slice_cnt +ℤ n else (pcbs p).slice_cnt)
slice_cnt-add_slices n pcbs q p = elim (ℕ_discrete q p) [
  | yes e ↦
      subst
        (λ x.
          (add_slices n pcbs q x).slice_cnt
          ≡ (if q == x then (pcbs x).slice_cnt +ℤ n else (pcbs x).slice_cnt))
        e (rw (==_refl q) refl)
  | no ne ↦ rw (==_ne q p ne) refl
]

-- One entry of the history is rewritten.
slices-update :
    (history : ℕ → Option ℕ) (i p : ℕ) (v : Option ℕ)
    → i < time_slice_history_size
    → slices history p + names v p ≡ slices (update history i v) p + names (history i) p
slices-update history i p v h =
    let new = λ (j : ℕ). names (update history i v j) p in
    let old = λ (j : ℕ). names (history j) p in
    let here : new i ≡ names v p = rw (==_refl i) refl in
    let away = λ (j : ℕ) (hj : j < time_slice_history_size) (ne : i ≡ j → ⊥).
      sym (ap (λ x. names x p) (unchanged j ne)) in
    omega (arith, sum_to-single time_slice_history_size i old new h away, here)
  where
    unchanged : (j : ℕ) → (i ≡ j → ⊥) → update history i v j ≡ history j
    unchanged j ne = rw (==_ne i j ne) refl

slices_ge :
    (history : ℕ → Option ℕ) (i p : ℕ)
    → i < time_slice_history_size
    → names (history i) p ≤ slices history p
slices_ge history i p h = omega (arith, slices-update history i p none h)

-- The counts after the entry is dropped.
counted-drop_slice :
    (pcbs : ℕ → Pcb) (old : Option ℕ) (p n : ℕ)
    → (pcbs p).slice_cnt ≡ pos n
    → names old p ≤ n
    → (drop_slice pcbs old p).slice_cnt ≡ pos (n - names old p)
unfolding ◌+ℤ◌
counted-drop_slice pcbs none p n e h = e ∙ ap pos (omega arith)
counted-drop_slice pcbs (some q) p n e h =
    slice_cnt-add_slices (negsuc 0) pcbs q p ∙ (elim (Bool-cases (q == p)) [
      | inl on ↦ rw (on, e) (ground (arith, on))
      | inr off ↦ rw off (e ∙ ap pos (omega arith))
    ])

counted-add_slices :
    (pcbs : ℕ → Pcb) (q p n : ℕ)
    → (pcbs p).slice_cnt ≡ pos n
    → (add_slices (pos 1) pcbs q p).slice_cnt ≡ pos (n + names (some q) p)
unfolding ◌+ℤ◌
counted-add_slices pcbs q p n e =
    slice_cnt-add_slices (pos 1) pcbs q p ∙ (elim (Bool-cases (q == p)) [
      | inl on ↦ rw (on, e) (ground arith)
      | inr off ↦ rw off (e ∙ ap pos (omega arith))
    ])

pub record_slice-SlicesCounted :
    (s : Scheduler) (proc : ℕ) → SlicesCounted s → SlicesCounted (record_slice s proc)
unfolding record_slice
record_slice-SlicesCounted s proc c =
    let i = s.time_slice_history_index in
    let h = c.index_in in
    record {
      index_in = omega arith;
      counted = λ p.
          let old = names (s.time_slice_history i) p in
          let n = slices s.time_slice_history p in
          counted-add_slices (drop_slice s.pcbs (s.time_slice_history i)) proc p (n - old) (
            counted-drop_slice s.pcbs (s.time_slice_history i) p n (c.counted p)
              (slices_ge s.time_slice_history i p h))
          ∙ ap pos (
              omega (
                arith,
                slices-update s.time_slice_history i p (some proc) h,
                slices_ge s.time_slice_history i p h,
              ));
    }

-- Whatever task `pick_process` gives, the slice count of every task stays the number of the slices among
-- the last 200 that were the task's.
pub pick_process-SlicesCounted :
    (s : Scheduler) (hart p : ℕ) (s' : Scheduler)
    → SlicesCounted s
    → pick_process s hart ≡ ok (p, s')
    → SlicesCounted s'
unfolding pick_process
pick_process-SlicesCounted s hart p s' c e =
    from_first (pick_by_consumption s.pcbs hart update_by_consumption_init none s.tasks.ready_queue)
      e
  where
    same :
        (q : ℕ)
        → ◌≡◌ {A = Run (ℕ × Scheduler)} (ok (q, record_slice s q)) (ok (p, s'))
        → SlicesCounted s'
    same q e =
        subst SlicesCounted (ap (λ (x : Run (ℕ × Scheduler)). elim x [ halt ↦ s | ok r ↦ r.1 ]) e)
          (record_slice-SlicesCounted s q c)

    from_halt : (o : Option ℕ) → or_halt s o ≡ ok (p, s') → SlicesCounted s'
    from_halt none e = ground arith
    from_halt (some q) e = same q e

    from_first : (o : Option ℕ) → or_first s hart o ≡ ok (p, s') → SlicesCounted s'
    from_first none e = from_halt (pick_by_first s.pcbs hart none s.tasks.ready_queue) e
    from_first (some q) e = same q e
