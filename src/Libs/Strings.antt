-- ===== src/Libs/Strings.antt =====
-- libs/string.c. A string that is only read is the byte at each offset from its pointer; memory that is
-- written is the byte at each address. The loops that go on to the end of a string run on fuel: `none`
-- is a loop that has not ended.
pub mod Names
pub mod Copy
mod Tests
use ucas_oslab.Base.{
  ℕ, zero, suc, ◌==◌, Bool, ◌||◌, not, Option, none, some, ◌+◌, ◌%◌, if◌then◌else◌,
}
use ucas_oslab.Base.Int.{ℤ, pos, ◌-ℤ◌}
use ucas_oslab.Base.Update.{update}

abbrev pub Chars : Type 0
Chars = ℕ → ℕ

-- The loop of `strncmp` with `n` rounds left, at offset `i`.
pub strncmp_loop : Chars → Chars → ℕ → ℕ → ℤ
strncmp_loop str1 str2 zero i = pos 0
strncmp_loop str1 str2 (suc n) i =
    let rest = strncmp_loop str1 str2 n (suc i) in
    if str1 i == 0 || not (str1 i == str2 i) then pos (str1 i) -ℤ pos (str2 i) else rest

pub strncmp : Chars → Chars → ℕ → ℤ
strncmp str1 str2 n = strncmp_loop str1 str2 n 0

pub strcmp_loop : Chars → Chars → ℕ → ℕ → Option ℤ
strcmp_loop str1 str2 zero i = none
strcmp_loop str1 str2 (suc n) i =
    let rest = strcmp_loop str1 str2 n (suc i) in
    let diff = pos (str1 i) -ℤ pos (str2 i) in
    if str1 i == 0 || (str2 i == 0 || not (str1 i == str2 i)) then some diff else rest

pub strcmp : ℕ → Chars → Chars → Option ℤ
strcmp fuel str1 str2 = strcmp_loop str1 str2 fuel 0

pub strlen_loop : Chars → ℕ → ℕ → Option ℕ
strlen_loop src zero i = none
strlen_loop src (suc n) i =
    let rest = strlen_loop src n (suc i) in if src i == 0 then some i else rest

pub strlen : ℕ → Chars → Option ℕ
strlen fuel src = strlen_loop src fuel 0

abbrev pub Memory : Type 0
Memory = ℕ → ℕ

pub memcpy : Memory → ℕ → ℕ → ℕ → Memory
memcpy mem dest src zero = mem
memcpy mem dest src (suc len) = memcpy (update mem dest (mem src)) (dest + 1) (src + 1) len

pub memset : Memory → ℕ → ℕ → ℕ → Memory
memset mem dest val zero = mem
memset mem dest val (suc len) = memset (update mem dest (val % 256)) (dest + 1) val len

pub bzero : Memory → ℕ → ℕ → Memory
bzero mem dest len = memset mem dest 0 len

pub strcpy : ℕ → Memory → ℕ → ℕ → Option Memory
strcpy zero mem dest src = none
strcpy (suc n) mem dest src =
    let rest = strcpy n (update mem dest (mem src)) (dest + 1) (src + 1) in
    if mem src == 0 then some (update mem dest 0) else rest

-- `n` is not negative. The bytes that are left after the source's end are zero.
pub strncpy : Memory → ℕ → ℕ → ℕ → Memory
strncpy mem dest src zero = mem
strncpy mem dest src (suc n) =
    let rest = strncpy (update mem dest (mem src)) (dest + 1) (src + 1) n in
    if mem src == 0 then memset mem dest 0 (suc n) else rest

-- The loop to the end of `dest`, then the copy.
pub strcat : ℕ → Memory → ℕ → ℕ → Option Memory
strcat zero mem dest src = none
strcat (suc n) mem dest src =
    let rest = strcat n mem (dest + 1) src in
    if mem dest == 0 then strcpy (suc n) mem dest src else rest
