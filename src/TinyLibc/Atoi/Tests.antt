-- ===== src/TinyLibc/Atoi/Tests.antt =====
-- The strings "-42" and " 7".
use ucas_oslab.Base.{
  ◌-◌, ◌%◌, ◌^◌, ◌==◌, ◌≡◌, refl, true, none, some, [], ◌∷◌, arith, if◌then◌else◌,
}
use ucas_oslab.Libs.Strings.{Chars}
use ucas_oslab.TinyLibc.Atoi.{atol}
use ucas_oslab.TinyLibc.Atoi.Digits.{decimal, atol-decimal, atol-isspace}

abbrev minus_42 : Chars
minus_42 i = if i == 0 then 45 else if i == 1 then 52 else if i == 2 then 50 else 0

abbrev blank_7 : Chars
blank_7 i = if i == 0 then 32 else if i == 1 then 55 else 0

atol-decimal_example :
    atol (some minus_42) 3
    ≡ some (
        if true
        then (2 ^ 64 - decimal 0 (4 ∷ 2 ∷ []) % 2 ^ 64) % 2 ^ 64
        else decimal 0 (4 ∷ 2 ∷ []) % 2 ^ 64)
atol-decimal_example =
    atol-decimal minus_42 true 4 (2 ∷ []) 3 (refl, (refl, omega arith, (refl, omega arith, refl)))
      (omega arith)

atol-isspace_example : atol (some blank_7) 100 ≡ none
atol-isspace_example = atol-isspace blank_7 100 refl
