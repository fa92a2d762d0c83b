-- ===== src/Fs/Dcache/Remove.antt =====
-- No bucket holds two nodes of one key, so that removing one removes the key.
use mathlib.Core.Path.{subst}
use ucas_oslab.Base.{
  ℕ, ◌≡◌, refl, sym, ◌∙◌, true, none, some, List, [], ◌∷◌, inl, inr, Bool-cases, Option-cases,
  ==_refl,
}
use ucas_oslab.Libs.Strings.{Chars}
use ucas_oslab.Fs.Dcache.{
  DcacheEntry, Dcache, dcache_hash, hit, find, unlink, at_bucket, get_in, dcache_get, dcache_remove,
}
use ucas_oslab.Fs.Dcache.Lookup.{SameName, hit_iff, hit_same, dcache_hash-SameName}
use ucas_oslab.Fs.Dcache.Get.{Apart, get_unseen}

-- Each node is the only one of its key in its bucket.
unfoldable pub Unique : List DcacheEntry → Type 0
Unique [] = Unit
Unique (x ∷ xs) = (find x.parent_inode x.dentry.name xs ≡ none) × Unique xs

-- Every bucket of the table has its nodes once.
pub record IsValid (d : Dcache) : Type 0 where
  pub unique : (t : ℕ → List DcacheEntry) → d.table ≡ some t → (i : ℕ) → Unique (t i)

-- A node hit by a key is found under the key and under its own.
find_own :
    (p : ℕ) (s : Chars) (x : DcacheEntry) (xs : List DcacheEntry)
    → hit p s x ≡ true
    → find p s xs ≡ find x.parent_inode x.dentry.name xs
unfolding find
find_own p s x [] on = refl
find_own p s x (y ∷ ys) on =
    let (at, named) = (hit_iff p s x).0 on in
    let key =
      subst (λ q. hit q s y ≡ hit x.parent_inode x.dentry.name y) at
        (sym (hit_same x.parent_inode x.dentry.name s y named)) in
    rw (key, find_own p s x ys on) refl

pub find-SameName :
    (p : ℕ) (s n : Chars) (xs : List DcacheEntry) → SameName s n → find p n xs ≡ find p s xs
unfolding find
find-SameName p s n [] same = refl
find-SameName p s n (x ∷ xs) same = rw (hit_same p s n x same, find-SameName p s n xs same) refl

pub unlink_same :
    (p : ℕ) (s : Chars) (nodes : List DcacheEntry)
    → Unique nodes
    → find p s (unlink p s nodes) ≡ none
unfolding Unique find unlink
unlink_same p s [] u = refl
unlink_same p s (x ∷ xs) (fresh, u) = elim (Bool-cases (hit p s x)) [
  | inl on ↦ rw on (find_own p s x xs on ∙ fresh)
  | inr off ↦ rw (off, off) (unlink_same p s xs u)
]

pub unlink_other :
    (p q : ℕ) (s n : Chars) (nodes : List DcacheEntry)
    → Apart p s q n
    → find q n (unlink p s nodes) ≡ find q n nodes
unfolding find unlink
unlink_other p q s n [] apart = refl
unlink_other p q s n (x ∷ xs) apart = elim (Bool-cases (hit p s x)) [
  | inl on ↦ elim (Bool-cases (hit q n x)) [
    | inr miss ↦ rw (on, miss) refl
    | inl both ↦
        let (at, named) = (hit_iff p s x).0 on in
        let (at_q, named_q) = (hit_iff q n x).0 both in
        absurd (apart (sym at ∙ at_q, sym named ∙ named_q))
  ]
  | inr off ↦ rw (off, unlink_other p q s n xs apart) refl
]

-- In a valid cache, after `dcache_remove` of a key `dcache_get` finds nothing under any name that
-- compares equal.
pub dcache_get-dcache_remove :
    (d : Dcache) (p : ℕ) (s n : Chars)
    → IsValid d
    → SameName s n
    → dcache_get (dcache_remove d p s) p n ≡ none
unfolding dcache_get dcache_remove at_bucket get_in
dcache_get-dcache_remove d p s n v same = elim (Option-cases d.table) [
  | inl closed ↦ rw closed refl
  | inr (t, has) ↦ elim (Bool-cases d.enabled) [
    | inr off ↦ rw (has, off) refl
    | inl on ↦
        let b = dcache_hash p s in
        rw (has, on, sym (dcache_hash-SameName p s n same), ==_refl b)
          (find-SameName p s n (unlink p s (t b)) same ∙ unlink_same p s (t b) (v.unique t has b))
  ]
]

-- `dcache_remove` changes what `dcache_get` finds by no key but its own.
pub dcache_get-dcache_remove_other :
    (d : Dcache) (p q : ℕ) (s n : Chars)
    → Apart p s q n
    → dcache_get (dcache_remove d p s) q n ≡ dcache_get d q n
unfolding dcache_remove
dcache_get-dcache_remove_other d p q s n apart =
    get_unseen d (dcache_hash p s) q n (unlink p s) (λ nodes. unlink_other p q s n nodes apart)
