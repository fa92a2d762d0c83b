-- ===== src/Sched.antt =====
-- kernel/sched/sched.cpp and libs/list.c: how a task is blocked on a queue and made ready again. A
-- queue is the list of the numbers of its tasks; `held` says that a task's node is linked in a list
-- (list_holding).
pub mod Waiting
pub mod Pick
pub mod Switch
pub mod Table
use ucas_oslab.Base.{ℕ, List, [], ◌∷◌, ◌++◌, Bool, true, false, Option, none, some, if◌then◌else◌}
use ucas_oslab.Base.Run.{Run, ok, halt}
use ucas_oslab.Base.Update.{update}

pub data TaskStatus : Type 0 where
  blocked : TaskStatus
  running : TaskStatus
  ready : TaskStatus
  exited : TaskStatus
  killed : TaskStatus

abbrev pub is_blocked : TaskStatus → Bool
is_blocked blocked = true
is_blocked running = false
is_blocked ready = false
is_blocked exited = false
is_blocked killed = false

pub record Tasks : Type 0 where
  pub status : ℕ → TaskStatus
  pub held : ℕ → Bool
  pub ready_queue : List ℕ

-- `list_append` of a node that is in a list changes nothing.
abbrev pub list_append : Tasks → List ℕ → ℕ → Tasks × List ℕ
list_append ts list p =
    if ts.held p then (ts, list) else (record ts { held = update ts.held p true }, list ++ (p ∷ []))

abbrev pub list_shift : Tasks → List ℕ → Option (ℕ × Tasks × List ℕ)
list_shift ts [] = none
list_shift ts (p ∷ ps) = some (p, record ts { held = update ts.held p false }, ps)

abbrev pub do_block : Tasks → ℕ → List ℕ → Run (Tasks × List ℕ)
do_block ts p queue =
    if is_blocked (ts.status p)
    then ok (ts, queue)
    else (if ts.held p
        then halt
        else ok (list_append (record ts { status = update ts.status p blocked }) queue p))

abbrev set_ready : Tasks × List ℕ → Tasks
set_ready (ts, queue) = record ts { ready_queue = queue }

abbrev pub do_unblock : Tasks → ℕ → Tasks
do_unblock ts p =
    set_ready (list_append (record ts { status = update ts.status p ready }) ts.ready_queue p)

abbrev pub unblock_list : Tasks → List ℕ → Tasks
unblock_list ts [] = ts
unblock_list ts (p ∷ ps) =
    unblock_list (do_unblock (record ts { held = update ts.held p false }) p) ps
