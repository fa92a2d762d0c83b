-- ===== src/Sched/Waiting.antt =====
-- Tasks that wait on a queue: what blocking one more and waking the first do to the others.
use ucas_oslab.Base.{
  ℕ, ◌≡◌, refl, sym, ap, ◌∙◌, true, false, List, [], ◌∷◌, ◌++◌, All, arith, ==_refl, ==_ne,
}
use mathlib.Core.List.{append_assoc, append-nil}
use ucas_oslab.Base.Update.{update, update_self}
use ucas_oslab.Sched.{blocked, Tasks, do_unblock, unblock_list}

-- A task that waits on a queue: blocked, with its node in a list.
pub record Waits (ts : Tasks) (p : ℕ) : Type 0 where
  pub is_held : ts.held p ≡ true
  pub asleep : ts.status p ≡ blocked

abbrev pub Distinct : List ℕ → Type 0
Distinct [] = Unit
Distinct (p ∷ ps) = All (λ q. p ≡ q → ⊥) ps × Distinct ps

pub Waits-do_unblock :
    (ts : Tasks) (p : ℕ) (ps : List ℕ)
    → All (λ q. p ≡ q → ⊥) ps
    → All (Waits ts) ps
    → All (Waits (do_unblock (record ts { held = update ts.held p false }) p)) ps
Waits-do_unblock ts p [] away waits = tt
Waits-do_unblock ts p (q ∷ qs) (ne, away) (w, waits) =
    let off = ==_ne p q ne in
    (
      record { is_held = rw (==_refl p, off) w.is_held; asleep = rw (==_refl p, off) w.asleep },
      Waits-do_unblock ts p qs away waits,
    )

unfoldable pub asleep_now : Tasks → ℕ → Tasks
asleep_now ts p = record ts { status = update ts.status p blocked; held = update ts.held p true }

-- Blocking a task that is in no list leaves those that wait as they are.
pub Waits-asleep_now :
    (ts : Tasks) (p : ℕ) (q : List ℕ)
    → ts.held p ≡ false
    → All (Waits ts) q
    → All (Waits (asleep_now ts p)) q
unfolding asleep_now
Waits-asleep_now ts p [] free waits = tt
Waits-asleep_now ts p (x ∷ q) free (w, waits) =
    let away : p ≡ x → ⊥ = λ e. ground (arith, free, w.is_held, e) in
    (
      record { is_held = rw (==_ne p x away) w.is_held; asleep = rw (==_ne p x away) w.asleep },
      Waits-asleep_now ts p q free waits,
    )

pub Waits-append :
    (ts : Tasks) (p : ℕ) (q : List ℕ)
    → ts.held p ≡ false
    → All (Waits ts) q
    → All (Waits (asleep_now ts p)) (q ++ (p ∷ []))
unfolding asleep_now
Waits-append ts p [] free waits =
    (record { is_held = update_self ts.held p true; asleep = update_self ts.status p blocked }, tt)
Waits-append ts p (x ∷ q) free (w, waits) =
    let away : p ≡ x → ⊥ = λ e. ground (arith, free, w.is_held, e) in
    (
      record { is_held = rw (==_ne p x away) w.is_held; asleep = rw (==_ne p x away) w.asleep },
      Waits-append ts p q free waits,
    )

All-append : (P : ℕ → Type 0) (q : List ℕ) (p : ℕ) → All P q → P p → All P (q ++ (p ∷ []))
All-append P [] p all one = (one, tt)
All-append P (x ∷ q) p (here, all) one = (here, All-append P q p all one)

pub Distinct-append :
    (ts : Tasks) (p : ℕ) (q : List ℕ)
    → ts.held p ≡ false
    → All (Waits ts) q
    → Distinct q
    → Distinct (q ++ (p ∷ []))
Distinct-append ts p [] free waits d = (tt, tt)
Distinct-append ts p (x ∷ q) free (w, waits) (away, d) =
    let apart : x ≡ p → ⊥ = λ e. ground (arith, free, w.is_held, e) in
    (All-append (λ y. x ≡ y → ⊥) q p away apart, Distinct-append ts p q free waits d)

-- Waking a whole queue puts its tasks, in their order, behind those that are ready.
pub unblock_list-ready_queue :
    (ts : Tasks) (q : List ℕ)
    → All (Waits ts) q
    → Distinct q
    → (unblock_list ts q).ready_queue ≡ ts.ready_queue ++ q
unblock_list-ready_queue ts [] waits d = sym (append-nil ts.ready_queue)
unblock_list-ready_queue ts (p ∷ ps) (w, waits) (away, d) =
    let woken = do_unblock (record ts { held = update ts.held p false }) p in
    let first : woken.ready_queue ≡ ts.ready_queue ++ (p ∷ []) =
      rw (update_self ts.held p false) refl in
    unblock_list-ready_queue woken ps (Waits-do_unblock ts p ps away waits) d
    ∙ ap (λ r. r ++ ps) first
    ∙ append_assoc ts.ready_queue (p ∷ []) ps
