-- ===== src/Locking/Mutex/Exclusion.antt =====
-- The user's mutex `id` over the steps of any tasks: at most one task holds it at a time.
use mathlib.Core.Path.{subst}
use ucas_oslab.Base.{
  ℕ, ◌≡◌, refl, sym, ap, ◌∙◌, ◌==◌, Bool, true, false, not, arith, inl, inr, Bool-cases,
  if◌then◌else◌, ==_iff, List,
}
use ucas_oslab.Base.Int.{pos}
use ucas_oslab.Base.Run.{Run, ok, halt}
use ucas_oslab.Base.Update.{update, update_self}
use ucas_oslab.Sched.{Tasks, do_block}
use ucas_oslab.Locking.Slots.{eq_ℤ}
use ucas_oslab.Locking.Mutex.{Mutexes, put_mutex, queued, acquire_round, release_at}

-- The kernel's state, and which tasks hold the mutex: those whose last acquire ended and that have not
-- released it since.
pub record System : Type 0 where
  pub kernel : Mutexes
  pub holds : ℕ → Bool

-- A round of an acquire, or a release, by any task: `got` says whether the acquire ended.
pub data Step (id : ℕ) : System → System → Type 0 where
  acquire :
      (s : System) (task : ℕ) (got : Bool) (w : Mutexes)
      → acquire_round s.kernel id task ≡ ok (w, got)
      → Step id s (record { kernel = w; holds = if got then update s.holds task true else s.holds })
  release :
      (s : System) (task : ℕ)
      → Step id s
          (record { kernel = release_at s.kernel id task; holds = update s.holds task false })

pub data Reach (id : ℕ) (s : System) : System → Type 0 where
  here : Reach id s s
  next : {t u : System} → Reach id s t → Step id t u → Reach id s u

-- The holder is the task whose pid the mutex records, and the mutex is acquired. It is in use.
pub record IsSafe (id : ℕ) (s : System) : Type 0 where
  pub recorded : (p : ℕ) → s.holds p ≡ true → (s.kernel.mlocks id).acquired ≡ true
  pub holder : (p : ℕ) → s.holds p ≡ true → (s.kernel.mlocks id).pid ≡ pos p
  pub refs : (s.kernel.mlock_ref id == 0) ≡ false

-- The same mutex, but for the tasks that wait on it.
record Same (id : ℕ) (w v : Mutexes) : Type 0 where
  acquired : (v.mlocks id).acquired ≡ (w.mlocks id).acquired
  pid : (v.mlocks id).pid ≡ (w.mlocks id).pid
  refs : v.mlock_ref ≡ w.mlock_ref

ok-inj :
    {A B : Type 0} (x y : A × B) → ◌≡◌ {A = Run (A × B)} (ok x) (ok y) → (x.0 ≡ y.0) × (x.1 ≡ y.1)
ok-inj x y e = (cc, cc)

Same-queued :
    (w v : Mutexes) (id : ℕ) (got : Bool) (r : Run (Tasks × List ℕ))
    → queued w id r ≡ ok (v, got)
    → (got ≡ false) × Same id w v
Same-queued w v id got halt e = absurd (cc)
Same-queued w v id got (ok (ts, queue)) e =
    let mutex = record (w.mlocks id) { block_list = queue } in
    let (eq_v, eq_got) = ok-inj (put_mutex w id mutex ts, false) (v, got) e in
    (
      sym eq_got,
      subst (Same id w) eq_v (record {
        acquired = ap (λ m. m.acquired) (update_self w.mlocks id mutex);
        pid = ap (λ m. m.pid) (update_self w.mlocks id mutex);
        refs = refl;
      }),
    )

acquire-IsSafe :
    (id task : ℕ) (s : System) (got : Bool) (w : Mutexes)
    → acquire_round s.kernel id task ≡ ok (w, got)
    → IsSafe id s
    → IsSafe id (record { kernel = w; holds = if got then update s.holds task true else s.holds })
unfolding acquire_round
acquire-IsSafe id task s got w e safe = elim (Bool-cases (s.kernel.mlocks id).acquired) [
  | inl held ↦
      let queue = do_block s.kernel.tasks task (s.kernel.mlocks id).block_list in
      let (lost, same) = Same-queued s.kernel w id got queue (
        subst
          (λ b.
            (if not b
              then ok (
                put_mutex s.kernel id
                    (record (s.kernel.mlocks id) { acquired = true; pid = pos task })
                    s.kernel.tasks,
                true,
              )
              else queued s.kernel id queue)
            ≡ ok (w, got))
          held e) in
      rw lost (record {
        recorded = λ p h. same.acquired ∙ safe.recorded p h;
        holder = λ p h. same.pid ∙ safe.holder p h;
        refs = ap (λ f. f id == 0) same.refs ∙ safe.refs;
      })
  | inr free ↦
      let mutex = record (s.kernel.mlocks id) { acquired = true; pid = pos task } in
      let taken = put_mutex s.kernel id mutex s.kernel.tasks in
      let queue = do_block s.kernel.tasks task (s.kernel.mlocks id).block_list in
      let (eq_w, won) =
        ok-inj (taken, true) (w, got)
          (subst (λ b. (if not b then ok (taken, true) else queued s.kernel id queue) ≡ ok (w, got))
            free e) in
      let only : (p : ℕ) → update s.holds task true p ≡ true → task ≡ p = λ p h.
        elim (Bool-cases (task == p)) [
          | inl same ↦ (==_iff task p).0 same
          | inr other ↦ ground (arith, safe.recorded p, free, other, h)
        ] in
      let safer : IsSafe id (record { kernel = taken; holds = update s.holds task true }) = record {
        recorded = λ p h. ap (λ m. m.acquired) (update_self s.kernel.mlocks id mutex);
        holder = λ p h. ap (λ m. m.pid) (update_self s.kernel.mlocks id mutex) ∙ ap pos (only p h);
        refs = safe.refs;
      } in
      subst
        (λ v.
          IsSafe id
            (record { kernel = v; holds = if got then update s.holds task true else s.holds }))
        eq_w
        (subst
          (λ g.
            IsSafe id
              (record { kernel = taken; holds = if g then update s.holds task true else s.holds }))
          won safer)
]

release-IsSafe :
    (id task : ℕ) (s : System)
    → IsSafe id s
    → IsSafe id (record { kernel = release_at s.kernel id task; holds = update s.holds task false })
release-IsSafe id task s safe = elim (Bool-cases (eq_ℤ (s.kernel.mlocks id).pid (pos task))) [
  | inr other ↦
      rw (safe.refs, other)
        (record {
          recorded = λ p h. safe.recorded p (still s task p h);
          holder = λ p h. safe.holder p (still s task p h);
          refs = safe.refs;
        })
  | inl own ↦
      let nobody : (p : ℕ) → update s.holds task false p ≡ true → ⊥ = λ p h.
        elim (Bool-cases (task == p)) [
          | inl same ↦ ground (arith, h, same)
          | inr other ↦
              let held = safe.holder p (still s task p h) in
              ground (arith, subst (λ x. eq_ℤ x (pos task) ≡ true) held own, other)
        ] in
      rw (safe.refs, own)
        (record {
          recorded = λ p h. absurd (nobody p h);
          holder = λ p h. absurd (nobody p h);
          refs = safe.refs;
        })
]
  where
    still : (s : System) (task p : ℕ) → update s.holds task false p ≡ true → s.holds p ≡ true
    still s task p h = ground arith

-- Every step of any task keeps the mutex safe.
Step-IsSafe : {id : ℕ} {s t : System} → Step id s t → IsSafe id s → IsSafe id t
Step-IsSafe {id} (acquire s task got w e) safe = acquire-IsSafe id task s got w e safe
Step-IsSafe {id} (release s task) safe = release-IsSafe id task s safe

Reach-IsSafe : {id : ℕ} {s t : System} → IsSafe id s → Reach id s t → IsSafe id t
Reach-IsSafe safe here = safe
Reach-IsSafe safe (next r st) = Step-IsSafe st (Reach-IsSafe safe r)

-- The mutex has been initialised, and no task holds it.
pub record IsFresh (id : ℕ) (s : System) : Type 0 where
  pub refs : (s.kernel.mlock_ref id == 0) ≡ false
  pub nobody : (p : ℕ) → s.holds p ≡ false

-- From a state in which a mutex in use is held by no task, whatever acquires and releases follow, in
-- whatever order the tasks run, two tasks that hold it are the same task.
pub Reach-holds :
    (id p q : ℕ) {s t : System}
    → IsFresh id s
    → Reach id s t
    → t.holds p ≡ true
    → t.holds q ≡ true
    → p ≡ q
Reach-holds id p q {s} {t} fresh r hp hq =
    let safe : IsSafe id s = record {
      recorded = λ x h. ground (arith, fresh.nobody x, h);
      holder = λ x h. ground (arith, fresh.nobody x, h);
      refs = fresh.refs;
    } in
    let now = Reach-IsSafe safe r in ground (arith, now.holder p hp, now.holder q hq)
