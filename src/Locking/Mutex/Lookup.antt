-- ===== src/Locking/Mutex/Lookup.antt =====
-- A key names one mutex: whoever initialises by the same key gets the same one.
use mathlib.Core.Path.{subst}
use native.Mathlib.Decide.{ℕ_discrete}
use ucas_oslab.Base.{
  ℕ, ◌<◌, ◌≡◌, refl, sym, ◌∙◌, ◌==◌, Bool, true, false, none, some, arith, inl, inr, Bool-cases,
  Option-cases,
}
use ucas_oslab.Base.Int.{ℤ}
use ucas_oslab.Base.Run.{ok}
use ucas_oslab.Base.Update.{update_self}
use ucas_oslab.Locking.Slots.{
  first, first-some, first_found, first_bound, first_only, first-congr, eq_ℤ_refl, add_ref,
  add_ref-ne-zero,
}
use ucas_oslab.Locking.Mutex.{
  Mutex, Mutexes, put_mutex, mutex_init, lock_num, in_use, unused, refer, do_mutex_lock_init,
}

-- A reference more leaves the mutexes that a key finds as they were.
in_use-refer :
    (w : Mutexes) (id place : ℕ) (key : ℤ) (j : ℕ)
    → (w.mlock_ref id == 0) ≡ false
    → in_use (refer w id place) key j ≡ in_use w key j
in_use-refer w id place key j used = elim (ℕ_discrete id j) [
  | yes e ↦
      subst (λ k. in_use (refer w id place) key k ≡ in_use w key k) e
        (rw
          (
            update_self w.mlock_ref id (add_ref (w.mlock_ref id) place),
            add_ref-ne-zero (w.mlock_ref id) place,
            used,
          )
          refl)
  | no ne ↦ ground arith
]

in_use-used :
    (w : Mutexes) (key : ℤ) (id : ℕ) → in_use w key id ≡ true → (w.mlock_ref id == 0) ≡ false
in_use-used w key id on = ground arith

none_below : (f : ℕ → Bool) (n k : ℕ) → first f n 0 ≡ none → k < n → f k ≡ false
none_below f n k e inside = elim (Bool-cases (f k)) [
  | inr off ↦ off
  | inl on ↦
      let (j, found_j) = first_found f n 0 k on (omega arith) (omega arith) in
      absurd (none_some (sym e ∙ found_j))
]
  where
    none_some : {j : ℕ} → none ≡ some j → ⊥
    none_some e = cc

-- A new mutex is the only one that its key finds, if none was found before.
in_use-new :
    (w : Mutexes) (id place : ℕ) (key : ℤ)
    → first (in_use w key) lock_num 0 ≡ none
    → id < lock_num
    → first
        (in_use (refer (put_mutex w id (record mutex_init { key = key }) w.tasks) id place) key)
        lock_num
        0
      ≡ some id
in_use-new w id place key missing inside =
    let mutex : Mutex = record mutex_init { key = key } in
    let v = refer (put_mutex w id mutex w.tasks) id place in
    first_only (in_use v key) lock_num id
      (rw
        (
          update_self w.mlock_ref id (add_ref (w.mlock_ref id) place),
          add_ref-ne-zero (w.mlock_ref id) place,
          update_self w.mlocks id mutex,
          eq_ℤ_refl key,
        )
        refl)
      inside
      (λ k below on. elim (ℕ_discrete id k) [
        | yes e ↦ sym e
        | no ne ↦
            let before = none_below (in_use w key) lock_num k missing below in
            absurd (other k ne before on)
      ])
  where
    other :
        (k : ℕ)
        → (id ≡ k → ⊥)
        → in_use w key k ≡ false
        → in_use (refer (put_mutex w id (record mutex_init { key = key }) w.tasks) id place) key k
          ≡ true
        → ⊥
    other k ne before on = ground arith

-- While a mutex is unused, two calls of `do_mutex_lock_init` with one key, by any two tasks, return
-- the same mutex.
pub do_mutex_lock_init_again :
    (index : ℕ → ℕ) (w : Mutexes) (pid other slot : ℕ) (key : ℤ)
    → slot < lock_num
    → w.mlock_ref slot ≡ 0
    → (id : ℕ) × (v : Mutexes) × (u : Mutexes) × (do_mutex_lock_init index w pid key ≡ ok (id, v))
      × (do_mutex_lock_init index v other key ≡ ok (id, u))
unfolding do_mutex_lock_init
do_mutex_lock_init_again index w pid other slot key inside free =
    elim (Option-cases (first (in_use w key) lock_num 0)) [
      | inr (id, hit) ↦
          let used = in_use-used w key id (first-some (in_use w key) lock_num 0 id hit) in
          let v = refer w id (index pid) in
          let again =
            first-congr (in_use v key) (in_use w key) lock_num 0
              (λ j. in_use-refer w id (index pid) key j used)
            ∙ hit in
          (id, v, refer v id (index other), rw hit refl, rw again refl)
      | inl missing ↦
          let (id, taken) =
            first_found (unused w) lock_num 0 slot (rw free refl) (omega arith) (omega arith) in
          let v = refer (put_mutex w id (record mutex_init { key = key }) w.tasks) id (index pid) in
          let again =
            in_use-new w id (index pid) key missing (first_bound (unused w) lock_num 0 id taken) in
          (id, v, refer v id (index other), rw (missing, taken) refl, rw again refl)
    ]
