-- ===== src/Fs/Dcache/Flush.antt =====
-- What is dropped for a whole directory, or for all.
use ucas_oslab.Base.{
  ℕ, ◌≡◌, refl, sym, ◌∙◌, ◌==◌, Bool, true, false, none, some, List, [], ◌∷◌, arith, inl, inr,
  Bool-cases, Option-cases, ==_iff,
}
use ucas_oslab.Base.Run.{ok, ◌>>=◌}
use ucas_oslab.Libs.Strings.{Chars}
use ucas_oslab.Fs.Dcache.{
  DcacheEntry, Dcache, dcache_hash, hit, find, unlink_parent, all_buckets, get_in, reset_table,
  dcache_get, dcache_invalidate, dcache_is_enabled, dcache_set_enabled, set_enabled_in,
  dcache_reset, init_dentry_cache, init_table, enable,
}
use ucas_oslab.Fs.Dcache.Lookup.{hit_iff}

unlink_parent_gone :
    (p : ℕ) (n : Chars) (xs : List DcacheEntry) → find p n (unlink_parent p xs) ≡ none
unfolding find unlink_parent
unlink_parent_gone p n [] = refl
unlink_parent_gone p n (x ∷ xs) = elim (Bool-cases (x.parent_inode == p)) [
  | inl here ↦ rw here (unlink_parent_gone p n xs)
  | inr away ↦ elim (Bool-cases (hit p n x)) [
    | inl on ↦ let at = ((hit_iff p n x).0 on).0 in ground (arith, at, away)
    | inr miss ↦ rw (away, miss) (unlink_parent_gone p n xs)
  ]
]

unlink_parent_other :
    (p q : ℕ) (n : Chars) (xs : List DcacheEntry)
    → (p ≡ q → ⊥)
    → find q n (unlink_parent p xs) ≡ find q n xs
unfolding find unlink_parent
unlink_parent_other p q n [] apart = refl
unlink_parent_other p q n (x ∷ xs) apart = elim (Bool-cases (x.parent_inode == p)) [
  | inl here ↦ elim (Bool-cases (hit q n x)) [
    | inl on ↦
        let at = ((hit_iff q n x).0 on).0 in
        absurd (apart (sym ((==_iff x.parent_inode p).0 here) ∙ at))
    | inr miss ↦ rw (here, miss) (unlink_parent_other p q n xs apart)
  ]
  | inr away ↦ rw (away, unlink_parent_other p q n xs apart) refl
]

-- After `dcache_invalidate` of a parent, `dcache_get` finds no name under it.
pub dcache_get-dcache_invalidate :
    (d : Dcache) (p : ℕ) (n : Chars) → dcache_get (dcache_invalidate d p) p n ≡ none
unfolding dcache_get dcache_invalidate all_buckets get_in
dcache_get-dcache_invalidate d p n = elim (Option-cases d.table) [
  | inl closed ↦ rw closed refl
  | inr (t, has) ↦ elim (Bool-cases d.enabled) [
    | inr off ↦ rw (has, off) refl
    | inl on ↦ rw (has, on) (unlink_parent_gone p n (t (dcache_hash p n)))
  ]
]

-- `dcache_invalidate` changes what `dcache_get` finds under no other parent.
pub dcache_get-dcache_invalidate_other :
    (d : Dcache) (p q : ℕ) (n : Chars)
    → (p ≡ q → ⊥)
    → dcache_get (dcache_invalidate d p) q n ≡ dcache_get d q n
unfolding dcache_get dcache_invalidate all_buckets get_in
dcache_get-dcache_invalidate_other d p q n apart = elim (Option-cases d.table) [
  | inl closed ↦ rw closed refl
  | inr (t, has) ↦ elim (Bool-cases d.enabled) [
    | inr off ↦ rw (has, off) refl
    | inl on ↦ rw (has, on) (unlink_parent_other p q n (t (dcache_hash q n)) apart)
  ]
]

-- Disabling the cache and enabling it again, with a block for the table, always succeeds: the cache
-- is enabled, and nothing that was stored before is found.
pub dcache_get-dcache_set_enabled :
    (room : Bool) (d : Dcache)
    → (now : Dcache) × ((dcache_set_enabled room d false
          >>= (λ off. dcache_set_enabled true off true))
        ≡ ok now)
      × (dcache_is_enabled now ≡ true)
      × ((p : ℕ) (n : Chars) → dcache_get now p n ≡ none)
unfolding dcache_get dcache_set_enabled set_enabled_in dcache_reset reset_table init_dentry_cache
    init_table enable get_in dcache_is_enabled find
dcache_get-dcache_set_enabled room d = (
  record { table = some (λ i. []); enabled = true },
  elim (Option-cases d.table) [ inl closed ↦ rw closed refl | inr (t, has) ↦ rw has refl ],
  refl,
  λ p n. refl,
)
