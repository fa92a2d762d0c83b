-- ===== src/TinyLibc/Atoi.antt =====
-- tiny_libc/atoi.c and the tests of tiny_libc/include/ctype.h. A string is the byte at each offset, and the
-- NULL pointer is none. A long is its 64 bits. The loops run on fuel: `none` is a loop that has not ended.
pub mod Digits
mod Tests
use ucas_oslab.Base.{
  ℕ, zero, suc, ◌+◌, ◌-◌, ◌*◌, ◌%◌, ◌^◌, ◌==◌, leb, Bool, true, false, ◌||◌, ◌&&◌, Option, none,
  some, if◌then◌else◌,
}
use ucas_oslab.Libs.Strings.{Chars}

abbrev pub isdigit : ℕ → Bool
isdigit ch = leb 48 ch && leb ch 57

abbrev pub isspace : ℕ → Bool
isspace ch = ch == 32 || (ch == 9 || (ch == 10 || (ch == 11 || (ch == 12 || ch == 13))))

-- `while (isspace(*str)) ;`
pub skip_blanks : ℕ → ℕ → Option (Unit {0})
skip_blanks zero ch = none
skip_blanks (suc n) ch = let rest = skip_blanks n ch in if isspace ch then rest else some tt

-- The value of a digit of the base, none for any other byte.
abbrev pub digit : ℕ → ℕ → Option ℕ
digit base ch =
    if isdigit ch
    then some (ch - 48)
    else if base == 16 && (leb 97 ch && leb ch 102)
    then some (ch - 97 + 10)
    else if base == 16 && (leb 65 ch && leb ch 70)
    then some (ch - 65 + 10)
    else none

-- `ret * base` and the digit, in 64 bits; none stays none.
abbrev add_digit : ℕ → ℕ → Option ℕ → Option ℕ
add_digit base ret none = none
add_digit base ret (some d) = some ((ret * base + d) % 2 ^ 64)

abbrev go_on : (ℕ → Option (Option ℕ)) → Option ℕ → Option (Option ℕ)
go_on rest none = some none
go_on rest (some ret) = rest ret

-- The loop of `atol` from offset `i`. Inside, `none` is a byte that is no digit.
pub convert : Chars → ℕ → ℕ → ℕ → ℕ → Option (Option ℕ)
convert str base zero ret i = none
convert str base (suc n) ret i =
    let rest = λ (r : ℕ). convert str base n r (suc i) in
    if str i == 0 then some (some ret) else go_on rest (add_digit base ret (digit base (str i)))

-- `negative ? -ret : ret`, and 0 for a byte that is no digit.
abbrev signed : Bool → Option (Option ℕ) → Option ℕ
signed negative none = none
signed negative (some none) = some 0
signed negative (some (some ret)) = some (if negative then (2 ^ 64 - ret) % 2 ^ 64 else ret)

-- 0x or 0X at offset `i`.
abbrev pub is_hex : Chars → ℕ → Bool
is_hex str i = (str i == 48 && str (i + 1) == 120) || (str i == 48 && str (i + 1) == 88)

pub atol_from : Chars → ℕ → Bool → ℕ → Option ℕ
atol_from str fuel negative i =
    signed negative
      (if is_hex str i then convert str 16 fuel 0 (i + 2) else convert str 10 fuel 0 i)

pub atol_signed : Chars → ℕ → Option ℕ
unfolding atol_from
atol_signed str fuel =
    if str 0 == 43
    then atol_from str fuel false 1
    else if str 0 == 45
    then atol_from str fuel true 1
    else if isdigit (str 0)
    then atol_from str fuel false 0
    else some 0

after_blanks : Option (Unit {0}) → Option ℕ → Option ℕ
after_blanks none rest = none
after_blanks (some u) rest = rest

pub atol : Option Chars → ℕ → Option ℕ
unfolding after_blanks
atol none fuel = some 0
atol (some str) fuel = after_blanks (skip_blanks fuel (str 0)) (atol_signed str fuel)

low_word : Option ℕ → Option ℕ
low_word none = none
low_word (some ret) = some (ret % 2 ^ 32)

-- The low 32 bits.
pub atoi : Option Chars → ℕ → Option ℕ
unfolding low_word
atoi str fuel = low_word (atol str fuel)
