-- ===== src/Base/Bits.antt =====
-- Laws of `bit_xor` at variables: x ^ 2^k moves x by 2^k, up where the bit is clear, down where set.
use Prim.Native.Nat.{
  ℕ, zero, suc, ◌+◌, ◌-◌, ◌*◌, ◌/◌, ◌%◌, ◌^◌, ◌≤◌, ◌<◌, bit_xor, differ, digits, bit_xor-bitwise,
}
use mathlib.Core.Path.{◌≡◌, refl, ◌∙◌, ap}
use mathlib.Core.WellFounded as Wf
use mathlib.Core.WellFounded.{Acc, WellFounded}
use native.Mathlib.Nat.{pow-suc, mul_assoc}
use native.Mathlib.Omega.{arith}
use ucas_oslab.Base.Tests.{◌==◌, if◌then◌else◌}

Acc-below : (k n : ℕ) → n < k → Acc ◌<◌ n
Acc-below zero n h = elim h [ ]
Acc-below (suc k) n h = Acc.intro n (λ m hm. Acc-below k m (omega arith))

unfoldable pub lt_wf : WellFounded ◌<◌
unfolding Acc-below
lt_wf = record { apply = λ n. Acc-below (suc n) n (omega arith) }

-- The recursion that `bit_xor` stands for, with `n` digits to go.
abbrev xor_digits : ℕ → ℕ → ℕ → ℕ
xor_digits n a b = digits (λ y. y) differ n a b

one_digit_more : (n a b : ℕ) → a ≤ n → xor_digits (suc n) a b ≡ xor_digits n a b
one_digit_more zero zero b h = refl
one_digit_more zero (suc a) b h = elim h [ ]
one_digit_more (suc n) zero b h = refl
one_digit_more (suc n) (suc a) b h =
    let rest = one_digit_more n (suc a / 2) (b / 2) (omega arith) in
    ap (λ (t : ℕ). t * 2 + differ (suc a % 2) (b % 2)) rest

more_digits : (d m a b : ℕ) → a ≤ m → xor_digits (d + m) a b ≡ xor_digits m a b
more_digits zero m a b h = ap (λ n. xor_digits n a b) {x = 0 + m} {y = m} (omega arith)
more_digits (suc d) m a b h =
    ap (λ n. xor_digits n a b) {x = suc d + m} {y = suc (d + m)} (omega arith)
    ∙ one_digit_more (d + m) a b (omega arith)
    ∙ more_digits d m a b h

zero-bit_xor : (b : ℕ) → bit_xor 0 b ≡ b
zero-bit_xor b = bit_xor-bitwise 0 b

bit_xor_step : (a b : ℕ) → bit_xor a b ≡ bit_xor (a / 2) (b / 2) * 2 + differ (a % 2) (b % 2)
bit_xor_step zero b = omega (arith, zero-bit_xor b, zero-bit_xor (b / 2))
bit_xor_step (suc a) b =
    let h = suc a / 2 in
    let back : a ≡ a - h + h = omega arith in
    let less =
      ap (λ n. xor_digits n h (b / 2)) back ∙ more_digits (a - h) h h (b / 2) (omega arith) in
    omega (arith, bit_xor-bitwise (suc a) b, bit_xor-bitwise h (b / 2), less)

differ-zero : (x : ℕ) → differ x 0 ≡ x
differ-zero zero = refl
differ-zero (suc x) = refl

differ-one : (x : ℕ) → x < 2 → differ x 1 ≡ 1 - x
differ-one zero h = refl
differ-one (suc zero) h = refl
differ-one (suc (suc x)) h = absurd (omega arith)

pub bit_xor-zero : (a : ℕ) → bit_xor a 0 ≡ a
bit_xor-zero a = Wf.induction lt_wf {C = λ n. bit_xor n 0 ≡ n} a step
  where
    step : (n : ℕ) → ((m : ℕ) → m < n → bit_xor m 0 ≡ m) → bit_xor n 0 ≡ n
    step zero ih = zero-bit_xor 0
    step (suc n) ih =
        omega (arith, bit_xor_step (suc n) 0, ih (suc n / 2) (omega arith), differ-zero (suc n % 2))

-- The neighbour of `q` that differs from it in the lowest bit.
abbrev pub flip : ℕ → ℕ
flip q = if q % 2 == 0 then q + 1 else q - 1

bit_xor-one : (q : ℕ) → bit_xor q 1 ≡ flip q
bit_xor-one q =
    ground (arith, bit_xor_step q 1, bit_xor-zero (q / 2), differ-one (q % 2) (omega arith))

bit_xor-double : (a b : ℕ) → bit_xor (a * 2) (b * 2) ≡ bit_xor a b * 2
bit_xor-double a b = ground (arith, bit_xor_step (a * 2) (b * 2), differ-zero (a * 2 % 2))

-- Flipping bit `k` of a multiple of 2^k.
pub bit_xor-two_pow : (k q : ℕ) → bit_xor (q * 2 ^ k) (2 ^ k) ≡ flip q * 2 ^ k
bit_xor-two_pow zero q = ground (arith, bit_xor-one q)
bit_xor-two_pow (suc k) q =
    rw (pow-suc 2 k, ← mul_assoc q (2 ^ k) 2, ← mul_assoc (flip q) (2 ^ k) 2, bit_xor-double)
      (ap (λ (t : ℕ). t * 2) (bit_xor-two_pow k q))
