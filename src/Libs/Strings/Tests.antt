-- ===== src/Libs/Strings/Tests.antt =====
-- The string "hi" at address 10.
use ucas_oslab.Base.{◌==◌, if◌then◌else◌}
use ucas_oslab.Libs.Strings.{Memory}

abbrev mem : Memory
mem a = if a == 10 then 104 else (if a == 11 then 105 else 0)
