-- ===== src/Libs/Strings/Names.antt =====
-- Two strings compare equal when the same bytes stand before the end of each.
use ucas_oslab.Base.{ℕ, zero, suc, ◌≡◌, ◌↔◌, List, [], ◌∷◌, arith, ◌==◌, if◌then◌else◌}
use ucas_oslab.Base.Int.{pos, ◌-ℤ◌}
use ucas_oslab.Libs.Strings.{Chars, strncmp_loop, strncmp}
use native.Mathlib.Decide.{ℕ_discrete}

-- The bytes from offset `i` to the string's end, `n` at most.
abbrev pub bytes_from : Chars → ℕ → ℕ → List ℕ
bytes_from s zero i = []
bytes_from s (suc n) i = let rest = bytes_from s n (suc i) in if s i == 0 then [] else s i ∷ rest

abbrev pub bytes : Chars → ℕ → List ℕ
bytes s n = bytes_from s n 0

strncmp_loop-bytes :
    (s t : Chars) (n i : ℕ) → (strncmp_loop s t n i ≡ pos 0) ↔ (bytes_from s n i ≡ bytes_from t n i)
unfolding strncmp_loop ◌-ℤ◌
strncmp_loop-bytes s t zero i = ground arith
strncmp_loop-bytes s t (suc n) i = elim (ℕ_discrete (s i) (t i)) [
  | yes e ↦ elim (ℕ_discrete (t i) 0) [
    | yes z ↦ ground arith
    | no nz ↦ ground (arith, strncmp_loop-bytes s t n (suc i))
  ]
  | no ne ↦ ground arith
]

-- `strncmp` is zero exactly when the two strings have the same bytes before their ends, of the first
-- `n` bytes.
pub strncmp-bytes : (s t : Chars) (n : ℕ) → (strncmp s t n ≡ pos 0) ↔ (bytes s n ≡ bytes t n)
unfolding strncmp
strncmp-bytes s t n = strncmp_loop-bytes s t n 0
