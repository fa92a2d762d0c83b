-- ===== src/Locking/Condition/Wake.antt =====
-- A broadcast is a signal for each task that waits.
use ucas_oslab.Base.{
  ℕ, zero, suc, ◌≡◌, refl, sym, ap, ◌∙◌, false, some, List, [], ◌∷◌, ◌++◌, All, length,
}
use ucas_oslab.Base.Int.{ℤ, pos, negsuc}
use ucas_oslab.Base.Update.{update, update_self}
use ucas_oslab.Sched.{Tasks, do_unblock, unblock_list}
use ucas_oslab.Sched.Waiting.{Waits, Distinct, unblock_list-ready_queue}
use ucas_oslab.Locking.Condition.{
  Conditions, usable, put_wait_list, do_condition_broadcast, do_condition_signal,
}

-- A number of signals, one after another.
abbrev pub signals : ℕ → Conditions → ℤ → Conditions
signals zero w i = w
signals (suc n) w i = signals n (do_condition_signal w i) i

-- A broadcast to tasks that are blocked in the wait list, each once, makes them ready in the order in
-- which they wait, behind those that are ready, and leaves none waiting.
pub do_condition_broadcast-ready_queue :
    (w : Conditions) (id : ℕ) (i : ℤ)
    → usable w i ≡ some id
    → All (Waits w.tasks) (w.conditions id).wait_list
    → Distinct (w.conditions id).wait_list
    → ((do_condition_broadcast w i).tasks.ready_queue
        ≡ w.tasks.ready_queue ++ (w.conditions id).wait_list)
      × (((do_condition_broadcast w i).conditions id).wait_list ≡ [])
unfolding do_condition_broadcast
do_condition_broadcast-ready_queue w id i use_it waits once =
    let cond = record (w.conditions id) { wait_list = [] } in
    (
      rw use_it (unblock_list-ready_queue w.tasks (w.conditions id).wait_list waits once),
      rw use_it (ap (λ c. c.wait_list) (update_self w.conditions id cond)),
    )

usable-put_wait_list :
    (w : Conditions) (id : ℕ) (q : List ℕ) (ts : Tasks) (i : ℤ)
    → usable (put_wait_list w id q ts) i ≡ usable w i
usable-put_wait_list w id q ts (pos n) = refl
usable-put_wait_list w id q ts (negsuc n) = refl

signals_all :
    (q : List ℕ) (w : Conditions) (id : ℕ) (i : ℤ)
    → usable w i ≡ some id
    → (w.conditions id).wait_list ≡ q
    → (signals (length q) w i).tasks ≡ unblock_list w.tasks q
unfolding do_condition_signal
signals_all [] w id i use_it e = refl
signals_all (p ∷ ps) w id i use_it e =
    let ts = do_unblock (record w.tasks { held = update w.tasks.held p false }) p in
    let next = put_wait_list w id ps ts in
    let step : do_condition_signal w i ≡ next = rw (use_it, e) refl in
    let cond = record (w.conditions id) { wait_list = ps } in
    ap (λ v. (signals (length ps) v i).tasks) step
    ∙ signals_all ps next id i (usable-put_wait_list w id ps ts i ∙ use_it)
        (ap (λ c. c.wait_list) (update_self w.conditions id cond))

-- A broadcast does to the tasks what as many signals do as there are tasks that wait.
pub do_condition_broadcast-signals :
    (w : Conditions) (id : ℕ) (i : ℤ)
    → usable w i ≡ some id
    → (do_condition_broadcast w i).tasks ≡ (signals (length (w.conditions id).wait_list) w i).tasks
unfolding do_condition_broadcast
do_condition_broadcast-signals w id i use_it =
    rw use_it (sym (signals_all (w.conditions id).wait_list w id i use_it refl))
