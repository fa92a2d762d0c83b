-- ===== src/Locking/Slots.antt =====
-- What the modules of kernel/locking share: the search of a table of 16 objects for a key or for an
-- unused object, the walk over the table, and the bitmap of the tasks that use an object.
use mathlib.Core.Path.{subst}
use ucas_oslab.Base.{
  ℕ, zero, suc, ◌+◌, ◌-◌, ◌/◌, ◌%◌, ◌^◌, ◌≤◌, ◌<◌, ◌≡◌, refl, ap, ◌∙◌, ◌==◌, Bool, true, false,
  Option, none, some, arith, inl, inr, Bool-cases, if◌then◌else◌, ==_refl, ==_ne,
}
use native.Mathlib.Decide.{ℕ_discrete}
use native.Mathlib.Nat.{pow-suc, zero-div}
use ucas_oslab.Base.Int.{ℤ, pos, negsuc}

-- The loops over a table, with `n` rounds left at `i`: the first object that passes the test.
abbrev pub first : (ℕ → Bool) → ℕ → ℕ → Option ℕ
first test zero i = none
first test (suc n) i = let rest = first test n (suc i) in if test i then some i else rest

-- `body 0`, then `body 1`, up to `body (n - 1)`.
unfoldable pub for_each {ℓ} : {W : Type ℓ} → ℕ → (ℕ → W → W) → W → W
for_each zero body w = w
for_each (suc n) body w = body n (for_each n body w)

abbrev pub eq_ℤ : ℤ → ℤ → Bool
eq_ℤ (pos a) (pos b) = a == b
eq_ℤ (pos a) (negsuc b) = false
eq_ℤ (negsuc a) (pos b) = false
eq_ℤ (negsuc a) (negsuc b) = a == b

-- `ref & (1ull << p)`.
unfoldable pub has_ref : ℕ → ℕ → Bool
has_ref ref p = ref / 2 ^ p % 2 == 1

-- `ref |= 1ull << p` and `ref &= ~(1ull << p)`.
unfoldable pub add_ref : ℕ → ℕ → ℕ
unfolding has_ref
add_ref ref p = if has_ref ref p then ref else ref + 2 ^ p

unfoldable pub drop_ref : ℕ → ℕ → ℕ
unfolding has_ref
drop_ref ref p = if has_ref ref p then ref - 2 ^ p else ref

pub first-none : (f : ℕ → Bool) (n i : ℕ) → ((j : ℕ) → f j ≡ false) → first f n i ≡ none
first-none f zero i h = refl
first-none f (suc n) i h = rw (h i) (first-none f n (suc i) h)

pub first-some : (f : ℕ → Bool) (n i j : ℕ) → first f n i ≡ some j → f j ≡ true
first-some f zero i j e = ground arith
first-some f (suc n) i j e = elim (Bool-cases (f i)) [
  | inl on ↦ ground arith
  | inr off ↦
      first-some f n (suc i) j
        (subst (λ b. (if b then some i else first f n (suc i)) ≡ some j) off e)
]

pub first_found :
    (f : ℕ → Bool) (n i j : ℕ) → f j ≡ true → i ≤ j → j < i + n → (k : ℕ) × (first f n i ≡ some k)
first_found f zero i j on low high = absurd (omega arith)
first_found f (suc n) i j on low high = elim (Bool-cases (f i)) [
  | inl here ↦ (i, rw here refl)
  | inr off ↦
      let apart : i ≡ j → ⊥ = λ e. ground (arith, on, off, ap f e) in
      let (k, rest) = first_found f n (suc i) j on (omega arith) (omega arith) in (k, rw off rest)
]

pub eq_ℤ_refl : (a : ℤ) → eq_ℤ a a ≡ true
eq_ℤ_refl (pos n) = ==_refl n
eq_ℤ_refl (negsuc n) = ==_refl n

pub first_bound : (f : ℕ → Bool) (n i j : ℕ) → first f n i ≡ some j → j < i + n
first_bound f zero i j e = ground arith
first_bound f (suc n) i j e = elim (Bool-cases (f i)) [
  | inl on ↦ ground arith
  | inr off ↦
      let rest =
        first_bound f n (suc i) j
          (subst (λ b. (if b then some i else first f n (suc i)) ≡ some j) off e) in
      omega arith
]

-- The only object of the table that passes the test is the one found.
pub first_only :
    (f : ℕ → Bool) (n j : ℕ)
    → f j ≡ true
    → j < n
    → ((k : ℕ) → k < n → f k ≡ true → k ≡ j)
    → first f n 0 ≡ some j
first_only f n j on high only =
    let (k, e) = first_found f n 0 j on (omega arith) (omega arith) in
    let inside = first_bound f n 0 k e in e ∙ ap some (only k (omega arith) (first-some f n 0 k e))

pub first-congr : (f g : ℕ → Bool) (n i : ℕ) → ((k : ℕ) → f k ≡ g k) → first f n i ≡ first g n i
first-congr f g zero i same = refl
first-congr f g (suc n) i same = rw (same i, first-congr f g n (suc i) same) refl

pub two_pow_pos : (k : ℕ) → 0 < 2 ^ k
two_pow_pos zero = omega arith
two_pow_pos (suc k) = rw (pow-suc 2 k) (omega (arith, two_pow_pos k))

zero_ref : (p : ℕ) → has_ref 0 p ≡ true → ⊥
unfolding has_ref
zero_ref p h = ground (arith, zero-div (2 ^ p))

pub has_ref-zero : (ref p : ℕ) → ref ≡ 0 → has_ref ref p ≡ false
has_ref-zero ref p e = elim (Bool-cases (has_ref ref p)) [
  | inr off ↦ off
  | inl on ↦ absurd (zero_ref p (subst (λ r. has_ref r p ≡ true) e on))
]

pub add_ref-ne-zero : (ref p : ℕ) → (add_ref ref p == 0) ≡ false
unfolding add_ref
add_ref-ne-zero ref p = elim (Bool-cases (has_ref ref p)) [
  | inl on ↦ rw on (==_ne ref 0 (λ e. zero_ref p (subst (λ r. has_ref r p ≡ true) e on)))
  | inr off ↦ rw off (ground (arith, two_pow_pos p))
]

-- A walk whose rounds leave the other objects alone does to each object what its own round does.
module _ {ℓ κ} {W : Type ℓ} {A : Type κ} (body : ℕ → W → W) (at : W → ℕ → A) (change : ℕ → A → A)
    (away : (i j : ℕ) (v : W) → (i ≡ j → ⊥) → at (body i v) j ≡ at v j)
    (here : (i : ℕ) (v : W) → at (body i v) i ≡ change i (at v i)) where
  pub for_each_out : (n : ℕ) (w : W) (j : ℕ) → n ≤ j → at (for_each n body w) j ≡ at w j
  unfolding for_each
  for_each_out zero w j h = refl
  for_each_out (suc n) w j h =
      away n j (for_each n body w) (λ e. omega arith) ∙ for_each_out n w j (omega arith)

  pub for_each_in : (n : ℕ) (w : W) (j : ℕ) → j < n → at (for_each n body w) j ≡ change j (at w j)
  unfolding for_each
  for_each_in zero w j h = elim h [ ]
  for_each_in (suc n) w j h = elim (ℕ_discrete n j) [
    | yes e ↦
        subst (λ k. at (body n (for_each n body w)) k ≡ change k (at w k)) e
          (here n (for_each n body w) ∙ ap (change n) (for_each_out n w n (omega arith)))
    | no ne ↦ away n j (for_each n body w) ne ∙ for_each_in n w j (omega arith)
  ]
