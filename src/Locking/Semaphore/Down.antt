-- ===== src/Locking/Semaphore/Down.antt =====
-- A `down` takes one from the count and waits at the end of the list if there was none to take.
use mathlib.Core.Path.{subst}
use ucas_oslab.Base.{
  ℕ, zero, suc, ◌+◌, ◌≡◌, refl, sym, ap, ◌∙◌, Bool, true, false, some, [], ◌∷◌, ◌++◌, length-append,
  if◌then◌else◌, arith, inl, inr, Bool-cases,
}
use ucas_oslab.Base.Int.{ℤ, pos, negsuc, ◌-ℤ◌, ltb_ℤ, neg_part}
use ucas_oslab.Base.Run.{ok}
use ucas_oslab.Base.Update.{update_self}
use ucas_oslab.Sched.{is_blocked, Tasks}
use ucas_oslab.Locking.Semaphore.{
  Semaphore, Semaphores, usable, put_sema, down_at, do_semaphore_down,
}
use ucas_oslab.Sched.Waiting.{asleep_now, Waits-append, Distinct-append}
use ucas_oslab.Locking.Semaphore.Wait.{IsValid}

-- What a `down` leads to: the count goes down by one, and the task waits at the end if there was none
-- to take.
pub record Downed (current : ℕ) (ts' : Tasks) (s s' : Semaphore) (stops : Bool) : Type 0 where
  pub counts : s'.count ≡ s.count -ℤ pos 1
  pub stopping : stops ≡ ltb_ℤ s.count (pos 1)
  pub waits : s'.wait_list ≡ (if stops then s.wait_list ++ (current ∷ []) else s.wait_list)
  pub valid : IsValid ts' s'

less_one : (c : ℤ) → ltb_ℤ (c -ℤ pos 1) (pos 0) ≡ ltb_ℤ c (pos 1)
unfolding ◌-ℤ◌
less_one (pos zero) = refl
less_one (pos (suc n)) = ground arith
less_one (negsuc n) = ground arith

neg_part_down : (c : ℤ) → neg_part (c -ℤ pos 1) ≡ neg_part c + (if ltb_ℤ c (pos 1) then 1 else 0)
unfolding ◌-ℤ◌
neg_part_down (pos zero) = refl
neg_part_down (pos (suc n)) = ground arith
neg_part_down (negsuc n) = ground arith

-- A `down` of a valid semaphore by a task that is not blocked and in no list never halts. It takes one
-- from the count; if there was none to take, the task waits behind the others and gives up the
-- processor; and it keeps the semaphore valid.
pub do_semaphore_down-Downed :
    (w : Semaphores) (current id : ℕ) (i : ℤ)
    → usable w i ≡ some id
    → is_blocked (w.tasks.status current) ≡ false
    → w.tasks.held current ≡ false
    → IsValid w.tasks (w.semaphores id)
    → (w' : Semaphores) × (stops : Bool) × (do_semaphore_down w current i ≡ ok (w', stops))
      × Downed current w'.tasks (w.semaphores id) (w'.semaphores id) stops
unfolding do_semaphore_down down_at asleep_now
do_semaphore_down-Downed w current id i use_it awake free v =
    let s = w.semaphores id in
    let below = less_one s.count in
    elim (Bool-cases (ltb_ℤ s.count (pos 1))) [
      | inr more ↦
          let s' : Semaphore = record s { count = s.count -ℤ pos 1 } in
          let now : Downed current w.tasks s s' false = record {
            counts = refl;
            stopping = sym more;
            waits = refl;
            valid = record {
              counted =
                  neg_part_down s.count
                  ∙ ap (λ b. neg_part s.count + (if b then 1 else 0)) more
                  ∙ omega (arith, v.counted);
              waiting = v.waiting;
              distinct = v.distinct;
            };
          } in
          (
            put_sema w id s' w.tasks,
            false,
            rw (use_it, below, more) refl,
            subst (λ x. Downed current w.tasks s x false) (sym (update_self w.semaphores id s'))
                now,
          )
      | inl blocks ↦
          let queue = s.wait_list ++ (current ∷ []) in
          let s' : Semaphore = record s { count = s.count -ℤ pos 1; wait_list = queue } in
          let ts = asleep_now w.tasks current in
          let now : Downed current ts s s' true = record {
            counts = refl;
            stopping = sym blocks;
            waits = refl;
            valid = record {
              counted =
                  neg_part_down s.count
                  ∙ ap (λ b. neg_part s.count + (if b then 1 else 0)) blocks
                  ∙ omega (arith, v.counted, length-append s.wait_list (current ∷ []));
              waiting = Waits-append w.tasks current s.wait_list free v.waiting;
              distinct = Distinct-append w.tasks current s.wait_list free v.waiting v.distinct;
            };
          } in
          (
            put_sema w id s' ts,
            true,
            rw (use_it, below, blocks, awake, free) refl,
            subst (λ x. Downed current ts s x true) (sym (update_self w.semaphores id s')) now,
          )
    ]
