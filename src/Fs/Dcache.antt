-- ===== src/Fs/Dcache.antt =====
-- kernel/fs/dcache.c: the cache of directory entries. `table` is none while `dcache_table` is NULL;
-- a bucket is the list of its nodes. The spin lock is held over each operation, so each is one step.
-- `room` says whether `kmalloc` returned a block; a block it returned is the node's alone.
pub mod Lookup
pub mod Get
pub mod Remove
pub mod Unique
pub mod Flush
mod Tests
use Prim.Native.Nat.{bit_xor}
use ucas_oslab.Base.{
  ℕ, zero, suc, ◌+◌, ◌*◌, ◌%◌, ◌^◌, ◌==◌, Bool, true, false, ◌&&◌, ◌||◌, not, Option, none, some,
  List, [], ◌∷◌, if◌then◌else◌,
}
use ucas_oslab.Base.Int.{ℤ, pos, negsuc}
use ucas_oslab.Base.Run.{Run, ok, halt}
use ucas_oslab.Base.Update.{update}
use ucas_oslab.Libs.Strings.{Chars, strncmp}

abbrev pub dentry_cache_buckets : ℕ
dentry_cache_buckets = 256

abbrev pub max_file_name : ℕ
max_file_name = 28

pub record Dentry : Type 0 where
  pub name : Chars
  pub inode_num : ℕ

pub record DcacheEntry : Type 0 where
  pub parent_inode : ℕ
  pub offset : ℕ
  pub dentry : Dentry

pub record Dcache : Type 0 where
  pub table : Option (ℕ → List DcacheEntry)
  pub enabled : Bool

-- The loop over the name with `n` bytes left: the hash, and the index at its end.
pub hash_loop : Chars → ℕ → ℕ → ℕ → ℕ × ℕ
hash_loop name zero i hash = (hash, i)
hash_loop name (suc n) i hash =
    let rest = hash_loop name n (suc i) (bit_xor hash (name i) * 16777619 % 2 ^ 32) in
    if name i == 0 then (hash, i) else rest

abbrev hash_end : ℕ × ℕ → ℕ
hash_end (hash, i) = bit_xor hash i * 16777619 % 2 ^ 32 % dentry_cache_buckets

-- The mask DENTRY_CACHE_BUCKETS - 1 is the remainder, since the count is a power of two.
pub dcache_hash : ℕ → Chars → ℕ
dcache_hash parent_inode name =
    hash_end (hash_loop name max_file_name 0 (bit_xor 2166136261 parent_inode))

abbrev is_zero : ℤ → Bool
is_zero (pos n) = n == 0
is_zero (negsuc n) = false

-- The test of the loops of get, put and remove.
pub hit : ℕ → Chars → DcacheEntry → Bool
hit parent_inode name entry =
    entry.parent_inode == parent_inode && is_zero (strncmp entry.dentry.name name max_file_name)

-- The loops over a bucket.
unfoldable pub find : ℕ → Chars → List DcacheEntry → Option (Dentry × ℕ)
find parent_inode name [] = none
find parent_inode name (entry ∷ entries) =
    if hit parent_inode name entry
    then some (entry.dentry, entry.offset)
    else find parent_inode name entries

abbrev keep : DcacheEntry → Option (List DcacheEntry) → Option (List DcacheEntry)
keep entry none = none
keep entry (some entries) = some (entry ∷ entries)

unfoldable pub overwrite : ℕ → Dentry → ℕ → List DcacheEntry → Option (List DcacheEntry)
overwrite parent_inode entry offset [] = none
overwrite parent_inode entry offset (node ∷ nodes) =
    let rest = overwrite parent_inode entry offset nodes in
    if hit parent_inode entry.name node
    then some (record node { dentry = entry; offset = offset } ∷ nodes)
    else keep node rest

unfoldable pub unlink : ℕ → Chars → List DcacheEntry → List DcacheEntry
unlink parent_inode name [] = []
unlink parent_inode name (entry ∷ entries) =
    let rest = unlink parent_inode name entries in
    if hit parent_inode name entry then entries else entry ∷ rest

unfoldable pub unlink_parent : ℕ → List DcacheEntry → List DcacheEntry
unlink_parent parent_inode [] = []
unlink_parent parent_inode (entry ∷ entries) =
    let rest = unlink_parent parent_inode entries in
    if entry.parent_inode == parent_inode then rest else entry ∷ rest

reset_table : Option (ℕ → List DcacheEntry) → Option (ℕ → List DcacheEntry)
reset_table none = none
reset_table (some t) = some (λ i. [])

pub dcache_reset : Dcache → Dcache
unfolding reset_table
dcache_reset d = record d { table = reset_table d.table }

init_table : Bool → Option (ℕ → List DcacheEntry) → Run (Option (ℕ → List DcacheEntry))
init_table room none = if room then ok (some (λ i. [])) else halt
init_table room (some t) = ok (reset_table (some t))

enable : Run (Option (ℕ → List DcacheEntry)) → Run Dcache
enable halt = halt
enable (ok t) = ok record { table = t; enabled = true }

pub init_dentry_cache : Bool → Dcache → Run Dcache
unfolding init_table enable
init_dentry_cache room d = enable (init_table room d.table)

get_in : Bool → ℕ → Chars → Option (ℕ → List DcacheEntry) → Option (Dentry × ℕ)
get_in enabled parent_inode name none = none
get_in enabled parent_inode name (some t) =
    if enabled then find parent_inode name (t (dcache_hash parent_inode name)) else none

-- What `dcache_get` writes to `out` and `offset`; none where it returns false. A name is not NULL.
pub dcache_get : Dcache → ℕ → Chars → Option (Dentry × ℕ)
unfolding get_in
dcache_get d parent_inode name = get_in d.enabled parent_inode name d.table

put_node : Bool → ℕ → Dentry → ℕ → List DcacheEntry → Option (List DcacheEntry) → List DcacheEntry
put_node room parent_inode entry offset nodes (some written) = written
put_node room parent_inode entry offset nodes none =
    if room
    then record { parent_inode = parent_inode; offset = offset; dentry = entry } ∷ nodes
    else nodes

pub put_bucket : Bool → ℕ → Dentry → ℕ → List DcacheEntry → List DcacheEntry
unfolding put_node
put_bucket room parent_inode entry offset nodes =
    put_node room parent_inode entry offset nodes (overwrite parent_inode entry offset nodes)

-- A change of one bucket of an enabled cache that has its table.
pub at_bucket :
    Dcache → ℕ → (List DcacheEntry → List DcacheEntry) → Option (ℕ → List DcacheEntry) → Dcache
at_bucket d bucket change none = d
at_bucket d bucket change (some t) =
    if d.enabled then record d { table = some (update t bucket (change (t bucket))) } else d

pub dcache_put : Bool → Dcache → ℕ → Dentry → ℕ → Dcache
unfolding at_bucket
dcache_put room d parent_inode entry offset =
    if entry.inode_num == 0
    then d
    else at_bucket d (dcache_hash parent_inode entry.name)
        (put_bucket room parent_inode entry offset) d.table

pub dcache_remove : Dcache → ℕ → Chars → Dcache
unfolding at_bucket
dcache_remove d parent_inode name =
    at_bucket d (dcache_hash parent_inode name) (unlink parent_inode name) d.table

-- A change of every bucket: a table is read at indices below DENTRY_CACHE_BUCKETS only.
all_buckets :
    Dcache → (List DcacheEntry → List DcacheEntry) → Option (ℕ → List DcacheEntry) → Dcache
all_buckets d change none = d
all_buckets d change (some t) =
    if d.enabled then record d { table = some (λ i. change (t i)) } else d

pub dcache_invalidate : Dcache → ℕ → Dcache
unfolding all_buckets
dcache_invalidate d parent_inode = all_buckets d (unlink_parent parent_inode) d.table

set_enabled_in : Bool → Dcache → Bool → Option (ℕ → List DcacheEntry) → Run Dcache
set_enabled_in room d enabled none =
    if enabled
    then init_dentry_cache room (record d { enabled = enabled })
    else ok (record d { enabled = enabled })
set_enabled_in room d enabled (some t) =
    let changed = if d.enabled then not enabled else enabled in
    let now = record d { enabled = enabled } in
    if not enabled || changed then ok (dcache_reset now) else ok now

pub dcache_set_enabled : Bool → Dcache → Bool → Run Dcache
unfolding set_enabled_in
dcache_set_enabled room d enabled = set_enabled_in room d enabled d.table

pub dcache_is_enabled : Dcache → Bool
dcache_is_enabled d = d.enabled
