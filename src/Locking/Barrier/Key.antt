-- ===== src/Locking/Barrier/Key.antt =====
-- The key of a barrier is never set: a lookup by a key other than zero finds none.
use ucas_oslab.Base.{ℕ, ◌<◌, ◌≡◌, refl, ◌==◌, false, arith, inl, inr, Bool-cases, ==_iff}
use ucas_oslab.Base.Int.{ℤ, pos, negsuc}
use ucas_oslab.Base.Run.{ok}
use ucas_oslab.Base.Update.{update}
use ucas_oslab.Locking.Slots.{first-none, first-some, first_found, eq_ℤ}
use ucas_oslab.Locking.Barrier.{
  Barrier, Barriers, barrier_num, in_use, unused, refer, put_barrier, do_barrier_init, barrier_init,
}

other_key : (a key : ℤ) → a ≡ pos 0 → (key ≡ pos 0 → ⊥) → eq_ℤ a key ≡ false
other_key (pos a) (pos b) e ne = ground arith
other_key (pos a) (negsuc b) e ne = refl
other_key (negsuc a) (pos b) e ne = refl
other_key (negsuc a) (negsuc b) e ne = ground arith

-- No barrier's key is set.
abbrev pub Unkeyed : Barriers → Type 0
Unkeyed w = (i : ℕ) → (w.barriers i).key ≡ pos 0

none_in_use :
    (w : Barriers) (key : ℤ) → Unkeyed w → (key ≡ pos 0 → ⊥) → (i : ℕ) → in_use w key i ≡ false
none_in_use w key zeros ne i = elim (Bool-cases (w.barrier_ref i == 0)) [
  | inl free ↦ rw free refl
  | inr held ↦ rw (held, other_key (w.barriers i).key key (zeros i) ne) refl
]

key_put :
    (f : ℕ → Barrier) (id j : ℕ) (bar : Barrier)
    → ((i : ℕ) → (f i).key ≡ pos 0)
    → bar.key ≡ pos 0
    → (update f id bar j).key ≡ pos 0
key_put f id j bar zeros e = elim (Bool-cases (id == j)) [
  | inl here ↦ rw here e
  | inr away ↦ rw away (zeros j)
]

-- While no key is set and a barrier is unused, `do_barrier_init` with a key other than zero takes an
-- unused barrier, whichever barriers were made with the same key before, and sets no key.
pub do_barrier_init-Unkeyed :
    (w : Barriers) (pcb_index slot : ℕ) (key goal : ℤ)
    → Unkeyed w
    → (key ≡ pos 0 → ⊥)
    → slot < barrier_num
    → w.barrier_ref slot ≡ 0
    → (id : ℕ) × (w' : Barriers) × (do_barrier_init w pcb_index key goal ≡ ok (id, w'))
      × (w.barrier_ref id ≡ 0)
      × Unkeyed w'
unfolding do_barrier_init
do_barrier_init-Unkeyed w pcb_index slot key goal zeros ne inside free =
    let missing = first-none (in_use w key) barrier_num 0 (none_in_use w key zeros ne) in
    let (id, taken) =
      first_found (unused w) barrier_num 0 slot (rw free refl) (omega arith) (omega arith) in
    let bar = record (barrier_init (w.barriers id)) { goal = goal } in
    (
      id,
      refer (put_barrier w id bar w.tasks) id pcb_index,
      rw (missing, taken) refl,
      (==_iff (w.barrier_ref id) 0).0 (first-some (unused w) barrier_num 0 id taken),
      λ j. key_put w.barriers id j bar zeros (zeros id),
    )
