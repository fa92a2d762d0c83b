-- ===== src/Base/Update.antt =====
-- A table as a function, and the write of one entry. Sums and counts over its first entries.
use ucas_oslab.Base.Tests.{◌==◌, if◌then◌else◌}
use Prim.Native.Nat.{ℕ, zero, suc, ◌+◌, ◌<◌}
use mathlib.Core.Path.{◌≡◌, refl}
use native.Mathlib.Omega.{arith}
use native.Mathlib.Decide.{ℕ_discrete}

abbrev pub update {ℓ} : {A : Type ℓ} → (ℕ → A) → ℕ → A → ℕ → A
update f i v j = if i == j then v else f j

pub update_self {ℓ} : {A : Type ℓ} (f : ℕ → A) (i : ℕ) (v : A) → update f i v i ≡ v
update_self f i v = ground arith

-- The sum of the first `n` entries.
unfoldable pub sum_to : ℕ → (ℕ → ℕ) → ℕ
sum_to zero f = 0
sum_to (suc n) f = sum_to n f + f n

pub sum_to-congr : (n : ℕ) (f g : ℕ → ℕ) → ((i : ℕ) → i < n → f i ≡ g i) → sum_to n f ≡ sum_to n g
unfolding sum_to
sum_to-congr zero f g h = refl
sum_to-congr (suc n) f g h =
    omega (arith, sum_to-congr n f g (λ i p. h i (omega arith)), h n (omega arith))

-- Two tables that agree but at one entry have sums that differ by that entry.
pub sum_to-single :
    (n i : ℕ) (f g : ℕ → ℕ)
    → i < n
    → ((j : ℕ) → j < n → (i ≡ j → ⊥) → f j ≡ g j)
    → sum_to n f + g i ≡ sum_to n g + f i
unfolding sum_to
sum_to-single zero i f g h same = elim h [ ]
sum_to-single (suc n) i f g h same = elim (ℕ_discrete i n) [
  | yes e ↦
      rw e (omega (arith, sum_to-congr n f g (λ j p. same j (omega arith) (λ q. omega arith))))
  | no ne ↦ omega (
    arith,
    sum_to-single n i f g (omega arith) (λ j p q. same j (omega arith) q),
    same n (omega arith) ne,
  )
]
