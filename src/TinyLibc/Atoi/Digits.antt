-- ===== src/TinyLibc/Atoi/Digits.antt =====
-- What `atol` makes of decimal digits, and of a blank.
use ucas_oslab.Base.{
  ℕ, zero, suc, ◌+◌, ◌-◌, ◌*◌, ◌%◌, ◌^◌, ◌<◌, ◌≡◌, refl, ap, ◌∙◌, ◌==◌, Bool, true, false, none,
  some, List, [], ◌∷◌, arith, length, if◌then◌else◌,
}
use ucas_oslab.Libs.Strings.{Chars}
use ucas_oslab.TinyLibc.Atoi.{
  isdigit, isspace, skip_blanks, digit, convert, is_hex, atol_from, atol_signed, after_blanks, atol,
}

-- The string has the decimal digits `ds` from offset `i` to its end.
abbrev pub Spells : Chars → ℕ → List ℕ → Type 0
Spells str i [] = str i ≡ 0
Spells str i (d ∷ ds) = (str i ≡ 48 + d) × (d < 10) × Spells str (suc i) ds

-- The number that digits after the number `n` make.
pub decimal : ℕ → List ℕ → ℕ
decimal n [] = n
decimal n (d ∷ ds) = decimal (n * 10 + d) ds

decimal-mod :
    (m n : ℕ) (ds : List ℕ)
    → m % 2 ^ 64 ≡ n % 2 ^ 64
    → decimal m ds % 2 ^ 64 ≡ decimal n ds % 2 ^ 64
unfolding decimal
decimal-mod m n [] e = e
decimal-mod m n (d ∷ ds) e = decimal-mod (m * 10 + d) (n * 10 + d) ds (omega arith)

digit_lem : (d : ℕ) → d < 10 → digit 10 (48 + d) ≡ some d
digit_lem d h = ground arith

convert-decimal :
    (str : Chars) (fuel ret i : ℕ) (ds : List ℕ)
    → Spells str i ds
    → length ds < fuel
    → ret < 2 ^ 64
    → convert str 10 fuel ret i ≡ some (some (decimal ret ds % 2 ^ 64))
unfolding convert decimal
convert-decimal str zero ret i ds h enough small = absurd (omega arith)
convert-decimal str (suc fuel) ret i [] h enough small =
    rw h (ap (λ x. some (some x)) (omega arith))
convert-decimal str (suc fuel) ret i (d ∷ ds) (e, low, rest) enough small =
    let next = (ret * 10 + d) % 2 ^ 64 in
    let shown : (48 + d == 0) ≡ false = ground arith in
    let more = convert-decimal str fuel next (suc i) ds rest (omega arith) (omega arith) in
    rw (e, shown, digit_lem d low)
      (more ∙ ap (λ x. some (some x)) (decimal-mod next (ret * 10 + d) ds (omega arith)))

-- The string is a minus sign, if any, and the digits.
abbrev pub Signed : Chars → Bool → List ℕ → Type 0
Signed str false ds = Spells str 0 ds
Signed str true ds = (str 0 ≡ 45) × Spells str 1 ds

not_hex : (str : Chars) (i d : ℕ) (ds : List ℕ) → Spells str i (d ∷ ds) → is_hex str i ≡ false
not_hex str i d [] (e, low, end) =
    let at : str (i + 1) ≡ 0 = ap str (omega arith) ∙ end in rw at (ground arith)
not_hex str i d (d' ∷ ds) (e, low, (f, low', rest)) =
    let at : str (i + 1) ≡ 48 + d' = ap str (omega arith) ∙ f in rw at (ground arith)

-- A string of decimal digits, with a minus sign before them or none, is converted to its number modulo
-- 2^64, negated if it has the sign, with more fuel than it has digits.
pub atol-decimal :
    (str : Chars) (negative : Bool) (d : ℕ) (ds : List ℕ) (fuel : ℕ)
    → Signed str negative (d ∷ ds)
    → length (d ∷ ds) < fuel
    → atol (some str) fuel
      ≡ some (
          if negative
          then (2 ^ 64 - decimal 0 (d ∷ ds) % 2 ^ 64) % 2 ^ 64
          else decimal 0 (d ∷ ds) % 2 ^ 64)
unfolding atol atol_signed atol_from after_blanks skip_blanks
atol-decimal str negative d ds zero h enough = absurd (omega arith)
atol-decimal str true d ds (suc fuel) (minus, spelled) enough =
    rw
      (
        minus,
        not_hex str 1 d ds spelled,
        convert-decimal str (suc fuel) 0 1 (d ∷ ds) spelled enough (omega arith),
      )
      refl
atol-decimal str false d ds (suc fuel) spelled enough =
    let (e, low, rest) = spelled in
    let no_space : isspace (str 0) ≡ false = ground arith in
    let no_plus : (str 0 == 43) ≡ false = ground arith in
    let no_minus : (str 0 == 45) ≡ false = ground arith in
    let a_digit : isdigit (str 0) ≡ true = ground arith in
    rw
      (
        no_space,
        no_plus,
        no_minus,
        a_digit,
        not_hex str 0 d ds spelled,
        convert-decimal str (suc fuel) 0 0 (d ∷ ds) spelled enough (omega arith),
      )
      refl

skip_blanks-isspace : (fuel ch : ℕ) → isspace ch ≡ true → skip_blanks fuel ch ≡ none
unfolding skip_blanks
skip_blanks-isspace zero ch h = refl
skip_blanks-isspace (suc fuel) ch h = rw h (skip_blanks-isspace fuel ch h)

-- On a string that starts with a blank `atol` never returns.
pub atol-isspace : (str : Chars) (fuel : ℕ) → isspace (str 0) ≡ true → atol (some str) fuel ≡ none
unfolding atol after_blanks
atol-isspace str fuel blank = rw (skip_blanks-isspace fuel (str 0) blank) refl
