-- ===== src/Locking/Barrier/Release.antt =====
-- The tasks that reach a barrier wait until the last, which wakes them all.
use mathlib.Core.Path.{subst}
use ucas_oslab.Base.{
  ℕ, ◌+◌, ◌<◌, ◌≡◌, refl, sym, ap, true, false, some, [], ◌∷◌, ◌++◌, All, length, length-append,
  arith,
}
use ucas_oslab.Base.Int.{ℤ, pos, ◌+ℤ◌, ltb_ℤ}
use ucas_oslab.Base.Run.{ok}
use ucas_oslab.Base.Update.{update_self}
use ucas_oslab.Sched.{is_blocked, Tasks, unblock_list}
use ucas_oslab.Sched.Waiting.{
  Waits, Distinct, asleep_now, Waits-append, Distinct-append, unblock_list-ready_queue,
}
use ucas_oslab.Locking.Barrier.{Barrier, Barriers, put_barrier, usable, wait_at, do_barrier_wait}

-- As many tasks wait as have arrived, fewer than the goal, each once.
pub record IsValid (ts : Tasks) (bar : Barrier) (goal : ℕ) : Type 0 where
  pub goal_is : bar.goal ≡ pos goal
  pub arrived : bar.current ≡ pos (length bar.block_list)
  pub below : length bar.block_list < goal
  pub waiting : All (Waits ts) bar.block_list
  pub distinct : Distinct bar.block_list

one_more : (n : ℕ) → pos n +ℤ pos 1 ≡ pos (n + 1)
unfolding ◌+ℤ◌
one_more n = ground arith

more_to_come : (n m : ℕ) → n < m → ltb_ℤ (pos n) (pos m) ≡ true
more_to_come n m h = ground arith

all_here : (n : ℕ) → ltb_ℤ (pos n) (pos n) ≡ false
all_here n = ground arith

-- The task that reaches a valid barrier last does not wait: those that waited become ready in the order
-- of their arrival, and the barrier is ready for the next round.
pub do_barrier_wait_last :
    (w : Barriers) (task id goal : ℕ) (i : ℤ)
    → usable w i ≡ some id
    → IsValid w.tasks (w.barriers id) goal
    → length (w.barriers id).block_list + 1 ≡ goal
    → (w' : Barriers) × (do_barrier_wait w task i ≡ ok (w', false))
      × (w'.tasks.ready_queue ≡ w.tasks.ready_queue ++ (w.barriers id).block_list)
      × IsValid w'.tasks (w'.barriers id) goal
unfolding do_barrier_wait wait_at
do_barrier_wait_last w task id goal i use_it v last =
    let old = w.barriers id in
    let n = length old.block_list in
    let bar : Barrier = record old { current = pos 0; block_list = [] } in
    let ts = unblock_list w.tasks old.block_list in
    let here = more_to_come n goal v.below in
    let full = subst (λ g. ltb_ℤ (pos (n + 1)) (pos g) ≡ false) last (all_here (n + 1)) in
    let now : IsValid ts bar goal = record {
      goal_is = v.goal_is;
      arrived = refl;
      below = omega (arith, v.below);
      waiting = tt;
      distinct = tt;
    } in
    (
      put_barrier w id bar ts,
      rw (use_it, v.arrived, v.goal_is, here, one_more n, full) refl,
      unblock_list-ready_queue w.tasks old.block_list v.waiting v.distinct,
      subst (λ b. IsValid ts b goal) (sym (update_self w.barriers id bar)) now,
    )

-- A task that reaches a valid barrier before the last, not blocked and in no list, waits behind the
-- others and gives up the processor, and the barrier stays valid.
pub do_barrier_wait-IsValid :
    (w : Barriers) (task id goal : ℕ) (i : ℤ)
    → usable w i ≡ some id
    → is_blocked (w.tasks.status task) ≡ false
    → w.tasks.held task ≡ false
    → IsValid w.tasks (w.barriers id) goal
    → length (w.barriers id).block_list + 1 < goal
    → (w' : Barriers) × (do_barrier_wait w task i ≡ ok (w', true))
      × ((w'.barriers id).block_list ≡ (w.barriers id).block_list ++ (task ∷ []))
      × IsValid w'.tasks (w'.barriers id) goal
unfolding do_barrier_wait wait_at asleep_now
do_barrier_wait-IsValid w task id goal i use_it awake free v room =
    let old = w.barriers id in
    let n = length old.block_list in
    let queue = old.block_list ++ (task ∷ []) in
    let bar : Barrier = record old { current = pos (n + 1); block_list = queue } in
    let ts = asleep_now w.tasks task in
    let here = more_to_come n goal v.below in
    let more = more_to_come (n + 1) goal room in
    let long : length queue ≡ n + 1 = length-append old.block_list (task ∷ []) in
    let now : IsValid ts bar goal = record {
      goal_is = v.goal_is;
      arrived = ap pos (sym long);
      below = omega (arith, room, long);
      waiting = Waits-append w.tasks task old.block_list free v.waiting;
      distinct = Distinct-append w.tasks task old.block_list free v.waiting v.distinct;
    } in
    (
      put_barrier w id bar ts,
      rw (use_it, v.arrived, v.goal_is, here, one_more n, more, awake, free) refl,
      ap (λ b. b.block_list) (update_self w.barriers id bar),
      subst (λ b. IsValid ts b goal) (sym (update_self w.barriers id bar)) now,
    )
