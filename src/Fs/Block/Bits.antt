-- ===== src/Fs/Block/Bits.antt =====
-- Setting and clearing one bit of a bitmap.
use ucas_oslab.Base.{
  ℕ, zero, suc, ◌+◌, ◌/◌, ◌%◌, ◌^◌, ◌≡◌, refl, sym, ap, ◌∙◌, ◌==◌, true, false, arith,
  if◌then◌else◌, ==_ne, ==_iff,
}
use native.Mathlib.Nat.{pow-suc, div-div-eq-div-mul}
use native.Mathlib.Decide.{ℕ_discrete}
use ucas_oslab.Locking.Slots.{has_ref, add_ref}
use ucas_oslab.Fs.Block.{map_bit, set_map_bit}

has_ref-suc : (x p : ℕ) → has_ref x (suc p) ≡ has_ref (x / 2) p
unfolding has_ref
has_ref-suc x p =
    let half : x / 2 ^ suc p ≡ x / 2 / 2 ^ p =
      rw (pow-suc 2 p, div-div-eq-div-mul x 2 (2 ^ p)) (ap (λ (t : ℕ). x / t) (omega arith)) in
    ap (λ t. t % 2 == 1) half

has_ref-add :
    (x p q : ℕ)
    → has_ref x p ≡ false
    → has_ref (x + 2 ^ p) q ≡ (if p == q then true else has_ref x q)
unfolding has_ref
has_ref-add x zero zero off = ground arith
has_ref-add x zero (suc q) off =
    let ne : 0 ≡ suc q → ⊥ = λ e. ground arith in
    rw (==_ne 0 (suc q) ne)
      (has_ref-suc (x + 1) q ∙ ap (λ t. has_ref t q) (ground arith) ∙ sym (has_ref-suc x q))
has_ref-add x (suc p) zero off = rw (pow-suc 2 p) (ground arith)
has_ref-add x (suc p) (suc q) off =
    let half : (x + 2 ^ suc p) / 2 ≡ x / 2 + 2 ^ p = rw (pow-suc 2 p) (omega arith) in
    has_ref-suc (x + 2 ^ suc p) q
    ∙ ap (λ t. has_ref t q) half
    ∙ has_ref-add (x / 2) p q (sym (has_ref-suc x p) ∙ off)
    ∙ rw (has_ref-suc x q) (ground arith)

-- Of all bits of the map only the one at `p` is set.
pub map_bit-set_map_bit :
    (bytes : ℕ → ℕ) (p q : ℕ)
    → map_bit bytes p ≡ false
    → map_bit (set_map_bit bytes p) q ≡ (if p == q then true else map_bit bytes q)
unfolding add_ref
map_bit-set_map_bit bytes p q off = elim (ℕ_discrete (p / 8) (q / 8)) [
  | no away ↦
      let ne : p ≡ q → ⊥ = λ e. away (ap (λ t. t / 8) e) in
      rw (==_ne (p / 8) (q / 8) away, ==_ne p q ne) refl
  | yes e ↦
      let here : (p / 8 == q / 8) ≡ true = (==_iff (p / 8) (q / 8)).1 e in
      let low : (p % 8 == q % 8) ≡ (p == q) = ground arith in
      rw (here, off) (has_ref-add (bytes (p / 8)) (p % 8) (q % 8) off ∙ rw (low, e) refl)
]
