-- ===== src/Fs/Path.antt =====
-- kernel/fs/dir.c: `path_shift`, which takes the first name off a path. A path is the byte at each offset,
-- and a pointer into it is an offset. The loops run on fuel: `none` is a loop that has not ended.
pub mod Shift
mod Tests
use ucas_oslab.Base.{
  ℕ, zero, suc, ◌+◌, ◌-◌, ◌==◌, ltb, leb, Bool, true, false, not, ◌&&◌, Option, none, some,
  if◌then◌else◌,
}
use ucas_oslab.Libs.Strings.{Chars}
use ucas_oslab.Fs.Dcache.{max_file_name}

abbrev pub is_slash : ℕ → Bool
is_slash ch = ch == 47

abbrev pub in_name : ℕ → Bool
in_name ch = not (ch == 47) && not (ch == 0)

-- `while (test(*path)) path++;`
pub skip_while : (ℕ → Bool) → Chars → ℕ → ℕ → Option ℕ
skip_while test path zero i = none
skip_while test path (suc n) i =
    let rest = skip_while test path n (suc i) in if test (path i) then rest else some i

-- The name buffer after the copy of `len` bytes from `s`.
abbrev pub copy_name : Chars → ℕ → ℕ → Chars → ℕ → ℕ
copy_name path s len name k =
    if leb max_file_name len
    then (if ltb k max_file_name then path (s + k) else name k)
    else if ltb k len
    then path (s + k)
    else if k == len
    then 0
    else name k

abbrev past_slashes : Chars → ℕ → ℕ → Chars → Option ℕ → Option (Option ℕ × Chars)
past_slashes path s e name none = none
past_slashes path s e name (some j) = some (some j, copy_name path s (e - s) name)

abbrev past_name : Chars → ℕ → ℕ → Chars → Option ℕ → Option (Option ℕ × Chars)
past_name path fuel s name none = none
past_name path fuel s name (some e) = past_slashes path s e name (skip_while is_slash path fuel e)

abbrev at_name : Chars → ℕ → Chars → Option ℕ → Option (Option ℕ × Chars)
at_name path fuel name none = none
at_name path fuel name (some s) =
    if path s == 0
    then some (none, name)
    else past_name path fuel s name (skip_while in_name path fuel s)

-- The offset of the rest, none for the NULL pointer, and the name buffer.
unfoldable pub path_shift : ℕ → Chars → ℕ → Chars → Option (Option ℕ × Chars)
path_shift fuel path i name = at_name path fuel name (skip_while is_slash path fuel i)
