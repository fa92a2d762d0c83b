-- ===== src/Fs/Dcache/Tests.antt =====
-- A cache with one entry, the file a of directory 1, and a second file b.
use mathlib.Core.Path.{subst}
use ucas_oslab.Base.{ℕ, ◌≡◌, refl, true, some, none, List, [], arith, ◌==◌, if◌then◌else◌}
use ucas_oslab.Libs.Strings.{Chars}
use ucas_oslab.Fs.Dcache.{Dentry, DcacheEntry, Dcache, dcache_get, dcache_put, dcache_remove}
use ucas_oslab.Fs.Dcache.Lookup.{SameName}
use ucas_oslab.Fs.Dcache.Get.{Apart, IsOpen, dcache_get-dcache_put}
use ucas_oslab.Fs.Dcache.Remove.{Unique, IsValid, dcache_get-dcache_remove}
use ucas_oslab.Fs.Dcache.Unique.{dcache_put-IsValid}

-- Two strings a: one ends after its byte, one has another byte after its end.
abbrev letter : ℕ → Chars
letter c i = if i == 0 then c else 0

abbrev letter_tail : ℕ → Chars
letter_tail c i = if i == 0 then c else (if i == 1 then 0 else 7)

abbrev file : ℕ → Dentry
file c = record { name = letter c; inode_num = 5 }

abbrev empty : Dcache
empty = record { table = some (λ i. []); enabled = true }

abbrev one : Dcache
one = dcache_put true empty 1 (file 97) 32

empty-IsOpen : IsOpen empty (λ i. [])
empty-IsOpen = record { has_table = refl; is_enabled = refl }

some-inj : {a b : ℕ → List DcacheEntry} → some a ≡ some b → a ≡ b
some-inj e = ground arith

empty-IsValid : IsValid empty
unfolding Unique
empty-IsValid = record { unique = λ t e i. subst (λ f. Unique (f i)) (some-inj e) tt }

same : SameName (letter 97) (letter_tail 97)
same = refl

other : Apart 1 (letter 97) 1 (letter 98)
other (e, s) = ground arith

dcache_get-dcache_put_example :
    dcache_get (dcache_put true empty 1 (file 97) 32) 1 (letter_tail 97) ≡ some (file 97, 32)
dcache_get-dcache_put_example =
    dcache_get-dcache_put empty (λ i. []) 1 32 (file 97) (letter_tail 97) empty-IsOpen
      (λ e. omega arith) same

one-IsValid : IsValid one
one-IsValid = dcache_put-IsValid true empty 1 32 (file 97) empty-IsValid

dcache_put-IsValid_example : IsValid (dcache_put true empty 1 (file 97) 32)
dcache_put-IsValid_example = dcache_put-IsValid true empty 1 32 (file 97) empty-IsValid

dcache_get-dcache_remove_example :
    dcache_get (dcache_remove one 1 (letter 97)) 1 (letter_tail 97) ≡ none
dcache_get-dcache_remove_example =
    dcache_get-dcache_remove one 1 (letter 97) (letter_tail 97) one-IsValid same
