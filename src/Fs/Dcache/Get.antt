-- ===== src/Fs/Dcache/Get.antt =====
-- What the operations of the cache do to `dcache_get`.
use ucas_oslab.Base.{
  ℕ, ◌≡◌, refl, sym, ◌==◌, Bool, true, some, List, inl, inr, Bool-cases, Option-cases, ==_iff,
  ==_refl, ==_ne,
}
use ucas_oslab.Libs.Strings.{Chars}
use ucas_oslab.Fs.Dcache.{
  Dentry, DcacheEntry, Dcache, dcache_hash, find, put_bucket, at_bucket, get_in, dcache_get,
  dcache_put,
}
use ucas_oslab.Fs.Dcache.Lookup.{SameName, dcache_hash-SameName, put_bucket_same, put_bucket_other}

-- The cache has its table and is in use.
pub record IsOpen (d : Dcache) (t : ℕ → List DcacheEntry) : Type 0 where
  pub has_table : d.table ≡ some t
  pub is_enabled : d.enabled ≡ true

-- A key of the cache that is not the pair of `p` and `s`.
abbrev pub Apart : ℕ → Chars → ℕ → Chars → Type 0
Apart p s q n = ((p ≡ q) × SameName s n) → ⊥

-- With the cache enabled, a block for the node and an entry that names an inode, `dcache_get` finds
-- what `dcache_put` stored, by every name that compares equal.
pub dcache_get-dcache_put :
    (d : Dcache) (t : ℕ → List DcacheEntry) (p off : ℕ) (e : Dentry) (n : Chars)
    → IsOpen d t
    → (e.inode_num ≡ 0 → ⊥)
    → SameName e.name n
    → dcache_get (dcache_put true d p e off) p n ≡ some (e, off)
unfolding dcache_get dcache_put at_bucket get_in
dcache_get-dcache_put d t p off e n up real same =
    rw
      (
        up.has_table,
        ==_ne e.inode_num 0 real,
        up.is_enabled,
        sym (dcache_hash-SameName p e.name n same),
        ==_refl (dcache_hash p e.name),
      )
      (put_bucket_same p off e n (t (dcache_hash p e.name)) same)

-- A change of one bucket that a key does not see.
pub get_unseen :
    (d : Dcache) (b q : ℕ) (n : Chars) (change : List DcacheEntry → List DcacheEntry)
    → ((nodes : List DcacheEntry) → find q n (change nodes) ≡ find q n nodes)
    → dcache_get (at_bucket d b change d.table) q n ≡ dcache_get d q n
unfolding dcache_get at_bucket get_in
get_unseen d b q n change unseen = elim (Option-cases d.table) [
  | inl closed ↦ rw closed refl
  | inr (t, has) ↦ elim (Bool-cases d.enabled) [
    | inr off ↦ rw (has, off) refl
    | inl on ↦ elim (Bool-cases (b == dcache_hash q n)) [
      | inr away ↦ rw (has, on, away) refl
      | inl here ↦
          rw (has, on, here, (==_iff b (dcache_hash q n)).0 here) (unseen (t (dcache_hash q n)))
    ]
  ]
]

-- `dcache_put` changes what `dcache_get` finds by no key but its own, with or without a block.
pub dcache_get-dcache_put_other :
    (room : Bool) (d : Dcache) (p off : ℕ) (e : Dentry) (q : ℕ) (n : Chars)
    → Apart p e.name q n
    → dcache_get (dcache_put room d p e off) q n ≡ dcache_get d q n
unfolding dcache_put
dcache_get-dcache_put_other room d p off e q n apart = elim (Bool-cases (e.inode_num == 0)) [
  | inl none_named ↦ rw none_named refl
  | inr named ↦ rw named (
      get_unseen d (dcache_hash p e.name) q n (put_bucket room p e off)
        (λ nodes. put_bucket_other room p q off e n nodes apart))
]
