-- ===== src/Locking/Semaphore/Wait.antt =====
-- As many tasks wait on a semaphore as its count is below zero; the one that waited longest is woken.
use mathlib.Core.Path.{subst}
use ucas_oslab.Base.{
  ℕ, ◌≡◌, refl, sym, ap, ◌∙◌, true, false, some, List, [], ◌∷◌, ◌++◌, All, length, arith,
}
use ucas_oslab.Base.Int.{ℤ, pos, negsuc, ◌+ℤ◌, ltb_ℤ, neg_part}
use ucas_oslab.Base.Run.{ok}
use ucas_oslab.Base.Update.{update, update_self}
use ucas_oslab.Sched.{Tasks, do_unblock}
use ucas_oslab.Sched.Waiting.{Waits, Distinct, Waits-do_unblock}
use ucas_oslab.Locking.Semaphore.{Semaphore, Semaphores, usable, put_sema, up_at, do_semaphore_up}

-- As many tasks wait as the count is below zero, each once.
pub record IsValid (ts : Tasks) (sema : Semaphore) : Type 0 where
  pub counted : neg_part sema.count ≡ length sema.wait_list
  pub waiting : All (Waits ts) sema.wait_list
  pub distinct : Distinct sema.wait_list

-- What an `up` is specified to do to the waiting tasks.
abbrev pub woken_tasks : List ℕ → List ℕ
woken_tasks [] = []
woken_tasks (p ∷ ps) = p ∷ []

abbrev pub still_waiting : List ℕ → List ℕ
still_waiting [] = []
still_waiting (p ∷ ps) = ps

-- From `s`, an `up` leads to `s'` and to the tasks `ts'`.
pub record Upped (ts ts' : Tasks) (s s' : Semaphore) : Type 0 where
  pub counts : s'.count ≡ s.count +ℤ pos 1
  pub waits : s'.wait_list ≡ still_waiting s.wait_list
  pub wakes : ts'.ready_queue ≡ ts.ready_queue ++ woken_tasks s.wait_list
  pub valid : IsValid ts' s'

append_nil : (xs : List ℕ) → xs ++ [] ≡ xs
append_nil [] = refl
append_nil (x ∷ xs) = ap (λ t. x ∷ t) (append_nil xs)

above_zero : (n : ℕ) → ltb_ℤ (pos 0) (pos n +ℤ pos 1) ≡ true
unfolding ◌+ℤ◌
above_zero n = ground arith

pub at_most_zero : (n : ℕ) → ltb_ℤ (pos 0) (negsuc n +ℤ pos 1) ≡ false
unfolding ◌+ℤ◌
at_most_zero n = ground arith

neg_part_pos : (n : ℕ) → neg_part (pos n +ℤ pos 1) ≡ 0
unfolding ◌+ℤ◌
neg_part_pos n = ground arith

neg_part_negsuc : (n : ℕ) → neg_part (negsuc n +ℤ pos 1) ≡ n
unfolding ◌+ℤ◌
neg_part_negsuc n = ground arith

up_at-Upped :
    (w : Semaphores) (id : ℕ) (k c : ℤ) (q : List ℕ)
    → w.semaphores id ≡ record { key = k; count = c; wait_list = q }
    → IsValid w.tasks record { key = k; count = c; wait_list = q }
    → (w' : Semaphores) × (up_at w (some id) ≡ ok w')
      × Upped w.tasks w'.tasks record { key = k; count = c; wait_list = q } (w'.semaphores id)
unfolding up_at
up_at-Upped w id k (pos n) [] e v =
    let s : Semaphore = record { key = k; count = pos n +ℤ pos 1; wait_list = [] } in
    let now : Upped w.tasks w.tasks record { key = k; count = pos n; wait_list = [] } s = record {
      counts = refl;
      waits = refl;
      wakes = sym (append_nil w.tasks.ready_queue);
      valid = record { counted = neg_part_pos n; waiting = tt; distinct = tt };
    } in
    (
      put_sema w id s w.tasks,
      rw (e, above_zero n) refl,
      subst (Upped w.tasks w.tasks record { key = k; count = pos n; wait_list = [] })
          (sym (update_self w.semaphores id s)) now,
    )
up_at-Upped w id k (pos n) (p ∷ ps) e v = absurd (omega (arith, v.counted))
up_at-Upped w id k (negsuc n) [] e v = absurd (omega (arith, v.counted))
up_at-Upped w id k (negsuc n) (p ∷ ps) e v =
    let s : Semaphore = record { key = k; count = negsuc n +ℤ pos 1; wait_list = ps } in
    let ts = do_unblock (record w.tasks { held = update w.tasks.held p false }) p in
    let now : Upped w.tasks ts record { key = k; count = negsuc n; wait_list = p ∷ ps } s = record {
      counts = refl;
      waits = refl;
      wakes = rw (update_self w.tasks.held p false) refl;
      valid = record {
        counted = neg_part_negsuc n ∙ omega (arith, v.counted);
        waiting = Waits-do_unblock w.tasks p ps v.distinct.0 v.waiting.1;
        distinct = v.distinct.1;
      };
    } in
    (
      put_sema w id s ts,
      rw (e, at_most_zero n) refl,
      subst (Upped w.tasks ts record { key = k; count = negsuc n; wait_list = p ∷ ps })
          (sym (update_self w.semaphores id s)) now,
    )

-- An `up` of a valid semaphore never halts. It adds one to the count, makes ready the task that has
-- waited longest if one waits, leaves the others waiting in their order, and keeps the semaphore valid.
pub do_semaphore_up-Upped :
    (w : Semaphores) (id : ℕ) (i : ℤ)
    → usable w i ≡ some id
    → IsValid w.tasks (w.semaphores id)
    → (w' : Semaphores) × (do_semaphore_up w i ≡ ok w')
      × Upped w.tasks w'.tasks (w.semaphores id) (w'.semaphores id)
unfolding do_semaphore_up
do_semaphore_up-Upped w id i use_it v = rw use_it (
    up_at-Upped w id (w.semaphores id).key (w.semaphores id).count (w.semaphores id).wait_list refl
      v)
