-- ===== src/Base/Run.antt =====
-- Runs of kernel code. A failed assertion and `err_halt` print and spin for ever (`_panics` of
-- include/assert.h): that is `halt`.
use Prim.Native.Nat.{ℕ, zero, suc}
use mathlib.Core.Bool.{Bool, true, false}

pub data Run {ℓ} (A : Type ℓ) : Type ℓ where
  halt : Run A
  ok : A → Run A

-- What follows a halted run is not reached.
infixl 5 ◌>>=◌ ◌>>◌
abbrev pub ◌>>=◌ {ℓ κ} : {S : Type ℓ} {T : Type κ} → Run S → (S → Run T) → Run T
halt >>= rest = halt
ok s >>= rest = rest s

abbrev pub ◌>>◌ {κ} : {T : Type κ} → Run (Unit {0}) → Run T → Run T
halt >> rest = halt
ok u >> rest = rest

-- `asserts(cond, msg)`.
abbrev pub asserts : Bool → Run (Unit {0})
asserts cond = elim cond [ true ↦ ok tt | false ↦ halt ]

-- `body i`, `body (i + 1)` and on, with `n` rounds left.
unfoldable pub for_run {ℓ} : {W : Type ℓ} → ℕ → ℕ → (ℕ → W → Run W) → W → Run W
for_run zero i body w = ok w
for_run (suc n) i body w = body i w >>= for_run n (suc i) body
