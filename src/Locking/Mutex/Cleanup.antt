-- ===== src/Locking/Mutex/Cleanup.antt =====
-- What `cleanup_mutexes` leaves of a task that has ended.
use ucas_oslab.Base.{
  ℕ, ◌<◌, ◌≡◌, refl, ap, ◌∙◌, ◌==◌, Bool, false, not, ◌&&◌, arith, inl, inr, Bool-cases,
  if◌then◌else◌, ==_iff, [],
}
use ucas_oslab.Base.Int.{pos}
use ucas_oslab.Locking.Slots.{for_each, for_each_in, eq_ℤ, has_ref, has_ref-zero, drop_ref}
use ucas_oslab.Locking.Mutex.{Mutex, Mutexes, lock_num, release_round, drop_round, cleanup_mutexes}

-- A mutex and its bitmap, as one value.
abbrev slot : Mutexes → ℕ → Mutex × ℕ
slot w i = (w.mlocks i, w.mlock_ref i)

abbrev released : ℕ → ℕ → Mutex × ℕ → Mutex × ℕ
released pid i (m, ref) =
    if not (ref == 0) && (m.acquired && eq_ℤ m.pid (pos pid))
    then (record m { acquired = false; block_list = [] }, ref)
    else (m, ref)

abbrev dropped : ℕ → ℕ → Mutex × ℕ → Mutex × ℕ
dropped place i (m, ref) =
    if has_ref ref place
    then (if drop_ref ref place == 0
        then (record m { acquired = false; block_list = [] }, 0)
        else (m, drop_ref ref place))
    else (m, ref)

release_round_away :
    (pid i j : ℕ) (w : Mutexes) → (i ≡ j → ⊥) → slot (release_round pid i w) j ≡ slot w j
release_round_away pid i j w ne = ground arith

release_round_here :
    (pid i : ℕ) (w : Mutexes) → slot (release_round pid i w) i ≡ released pid i (slot w i)
release_round_here pid i w = ground arith

drop_round_away :
    (place i j : ℕ) (w : Mutexes) → (i ≡ j → ⊥) → slot (drop_round place i w) j ≡ slot w j
drop_round_away place i j w ne = ground arith

drop_round_here :
    (place i : ℕ) (w : Mutexes) → slot (drop_round place i w) i ≡ dropped place i (slot w i)
drop_round_here place i w = ground arith

cleanup_slot :
    (index : ℕ → ℕ) (w : Mutexes) (pid i : ℕ)
    → i < lock_num
    → slot (cleanup_mutexes index w pid) i ≡ dropped (index pid) i (released pid i (slot w i))
unfolding cleanup_mutexes
cleanup_slot index w pid i h =
    let v = for_each lock_num (release_round pid) w in
    for_each_in (drop_round (index pid)) slot (dropped (index pid))
      (λ a b u. drop_round_away (index pid) a b u) (λ a u. drop_round_here (index pid) a u) lock_num
      v i h
    ∙ ap (dropped (index pid) i) (
        for_each_in (release_round pid) slot (released pid) (λ a b u. release_round_away pid a b u)
          (λ a u. release_round_here pid a u) lock_num w i h)

-- The mutex is in use and acquired, and records `pid` as its holder.
abbrev held_by : ℕ → Mutex × ℕ → Bool
held_by pid (m, ref) = not (ref == 0) && (m.acquired && eq_ℤ m.pid (pos pid))

abbrev pub is_held_by : ℕ → Mutexes → ℕ → Bool
is_held_by pid w i = held_by pid (slot w i)

not_held :
    (pid place i : ℕ) (x : Mutex × ℕ) → held_by pid (dropped place i (released pid i x)) ≡ false
not_held pid place i (m, ref) = elim (Bool-cases (ref == 0)) [
  | inl zero_ref ↦ rw (zero_ref, has_ref-zero ref place ((==_iff ref 0).0 zero_ref), zero_ref) refl
  | inr used ↦ elim (Bool-cases (m.acquired && eq_ℤ m.pid (pos pid))) [
    | inl own ↦ rw (used, own) (settle (record m { acquired = false; block_list = [] }) refl)
    | inr other ↦ rw (used, other) (settle m other)
  ]
]
  where
    settle :
        (n : Mutex)
        → (n.acquired && eq_ℤ n.pid (pos pid)) ≡ false
        → held_by pid (dropped place i (n, ref)) ≡ false
    settle n off = ground arith

-- After `cleanup_mutexes` for a task, no mutex in use is acquired by it.
pub cleanup_mutexes-is_held_by :
    (index : ℕ → ℕ) (w : Mutexes) (pid i : ℕ)
    → i < lock_num
    → is_held_by pid (cleanup_mutexes index w pid) i ≡ false
cleanup_mutexes-is_held_by index w pid i h =
    ap (held_by pid) (cleanup_slot index w pid i h) ∙ not_held pid (index pid) i (slot w i)

kept :
    (pid place i : ℕ) (x : Mutex × ℕ)
    → held_by pid x ≡ false
    → has_ref x.1 place ≡ false
    → dropped place i (released pid i x) ≡ x
kept pid place i (m, ref) other apart = ground arith

-- `cleanup_mutexes` for a task leaves a mutex alone that the task neither holds nor refers to.
pub cleanup_mutexes_other :
    (index : ℕ → ℕ) (w : Mutexes) (pid i : ℕ)
    → i < lock_num
    → is_held_by pid w i ≡ false
    → has_ref (w.mlock_ref i) (index pid) ≡ false
    → ((cleanup_mutexes index w pid).mlocks i ≡ w.mlocks i)
      × ((cleanup_mutexes index w pid).mlock_ref i ≡ w.mlock_ref i)
cleanup_mutexes_other index w pid i h other apart =
    let same = cleanup_slot index w pid i h ∙ kept pid (index pid) i (slot w i) other apart in
    (ap (λ x. x.0) same, ap (λ x. x.1) same)
