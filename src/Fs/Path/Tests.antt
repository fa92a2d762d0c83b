-- ===== src/Fs/Path/Tests.antt =====
-- The path "/a//b".
use ucas_oslab.Base.{ℕ, ◌≡◌, refl, ◌==◌, ◌⊎◌, none, some, arith, if◌then◌else◌}
use ucas_oslab.Libs.Strings.{Chars}
use ucas_oslab.Fs.Path.{is_slash, path_shift}
use ucas_oslab.Fs.Path.Shift.{All, Shifted, path_shift-Shifted}

abbrev two_names : Chars
two_names i =
    if i == 0
    then 47
    else if i == 1
    then 97
    else if i == 2
    then 47
    else if i == 3
    then 47
    else if i == 4
    then 98
    else 0

abbrev blank : Chars
blank i = 0

path_shift-Shifted_example :
    ((s : ℕ) × (path_shift 9 two_names 0 blank ≡ some (none, blank))
      × All is_slash two_names 0 s
      × (two_names s ≡ 0))
    ⊎ ((s : ℕ) × (e : ℕ) × (j : ℕ) × (name' : Chars) × (path_shift 9 two_names 0 blank
          ≡ some (some j, name'))
        × Shifted two_names 0 s e j name')
path_shift-Shifted_example =
    path_shift-Shifted two_names blank 5 9 0 refl (omega arith) (omega arith)
