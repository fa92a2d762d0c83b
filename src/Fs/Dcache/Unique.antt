-- ===== src/Fs/Dcache/Unique.antt =====
-- The operations keep each key once in its bucket.
use mathlib.Core.Path.{subst}
use ucas_oslab.Base.{
  ℕ, ◌≡◌, refl, sym, ◌∙◌, ◌==◌, Bool, true, false, Option, none, some, List, [], ◌∷◌, arith, inl,
  inr, Bool-cases, Option-cases, if◌then◌else◌,
}
use ucas_oslab.Base.Update.{update}
use ucas_oslab.Libs.Strings.{Chars}
use ucas_oslab.Fs.Dcache.{
  Dentry, DcacheEntry, Dcache, dcache_hash, hit, find, overwrite, unlink, put_bucket, put_node,
  at_bucket, dcache_put, dcache_remove,
}
use ucas_oslab.Fs.Dcache.Lookup.{hit_iff, OnSome, overwrite_other}
use ucas_oslab.Fs.Dcache.Get.{Apart}
use ucas_oslab.Fs.Dcache.Remove.{Unique, IsValid, find-SameName, unlink_other}

missed :
    (p : ℕ) (s : Chars) (x : DcacheEntry)
    → hit p s x ≡ false
    → Apart p s x.parent_inode x.dentry.name
missed p s x off (at, named) = true_false (sym ((hit_iff p s x).1 (sym at, sym named)) ∙ off)
  where
    true_false : true ≡ false → ⊥
    true_false e = ground arith

unlink-Unique : (p : ℕ) (s : Chars) (xs : List DcacheEntry) → Unique xs → Unique (unlink p s xs)
unfolding Unique unlink
unlink-Unique p s [] u = tt
unlink-Unique p s (x ∷ xs) (fresh, u) = elim (Bool-cases (hit p s x)) [
  | inl on ↦ rw on u
  | inr off ↦
      let other = unlink_other p x.parent_inode s x.dentry.name xs (missed p s x off) in
      rw off (other ∙ fresh, unlink-Unique p s xs u)
]

overwrite-Unique :
    (p off : ℕ) (e : Dentry) (xs : List DcacheEntry)
    → Unique xs
    → OnSome Unique (overwrite p e off xs)
unfolding Unique overwrite
overwrite-Unique p off e [] u = tt
overwrite-Unique p off e (x ∷ xs) (fresh, u) = elim (Bool-cases (hit p e.name x)) [
  | inl on ↦
      let (at, named) = (hit_iff p e.name x).0 on in
      rw on (find-SameName x.parent_inode x.dentry.name e.name xs named ∙ fresh, u)
  | inr miss ↦ elim (Option-cases (overwrite p e off xs)) [
    | inl none_x ↦ rw (miss, none_x) tt
    | inr (w, some_x) ↦
        let q = x.parent_inode in
        let n = x.dentry.name in
        let other =
          subst (OnSome (λ v. find q n v ≡ find q n xs)) some_x
            (overwrite_other p q off e n xs (missed p e.name x miss)) in
        rw (miss, some_x)
          (other ∙ fresh, subst (OnSome Unique) some_x (overwrite-Unique p off e xs u))
  ]
]

overwrite-none :
    (p off : ℕ) (e : Dentry) (xs : List DcacheEntry)
    → overwrite p e off xs ≡ none
    → find p e.name xs ≡ none
unfolding overwrite find
overwrite-none p off e [] h = refl
overwrite-none p off e (x ∷ xs) h = elim (Bool-cases (hit p e.name x)) [
  | inl on ↦ ground arith
  | inr miss ↦ elim (Option-cases (overwrite p e off xs)) [
    | inl none_x ↦ rw miss (overwrite-none p off e xs none_x)
    | inr (w, some_x) ↦ ground arith
  ]
]

put_bucket-Unique :
    (room : Bool) (p off : ℕ) (e : Dentry) (xs : List DcacheEntry)
    → Unique xs
    → Unique (put_bucket room p e off xs)
unfolding put_bucket put_node Unique
put_bucket-Unique room p off e xs u = elim (Option-cases (overwrite p e off xs)) [
  | inr (w, written) ↦ rw written (subst (OnSome Unique) written (overwrite-Unique p off e xs u))
  | inl fresh ↦ elim (Bool-cases room) [
    | inr full ↦ rw (fresh, full) u
    | inl has ↦ rw (fresh, has) (overwrite-none p off e xs fresh, u)
  ]
]

bucket-Unique :
    (t : ℕ → List DcacheEntry) (b i : ℕ) (changed : List DcacheEntry)
    → Unique changed
    → Unique (t i)
    → Unique (update t b changed i)
bucket-Unique t b i changed uc u = elim (Bool-cases (b == i)) [
  | inl here ↦ rw here uc
  | inr away ↦ rw away u
]

some-inj {ℓ} : {A : Type ℓ} {a b : A} → some a ≡ some b → a ≡ b
some-inj e = ground arith

at_bucket-IsValid :
    (d : Dcache) (b : ℕ) (change : List DcacheEntry → List DcacheEntry)
    (o : Option (ℕ → List DcacheEntry))
    → d.table ≡ o
    → ((nodes : List DcacheEntry) → Unique nodes → Unique (change nodes))
    → IsValid d
    → IsValid (at_bucket d b change o)
unfolding at_bucket
at_bucket-IsValid d b change none closed keeps v = v
at_bucket-IsValid d b change (some t) has keeps v =
    let changed = record d { table = some (update t b (change (t b))) } in
    let valid : IsValid changed = record {
      unique = λ u e i.
          subst (λ f. Unique (f i)) (some-inj e)
            (bucket-Unique t b i (change (t b)) (keeps (t b) (v.unique t has b))
              (v.unique t has i));
    } in
    elim (Bool-cases d.enabled) [
      | inr off ↦ subst (λ x. IsValid (if x then changed else d)) (sym off) v
      | inl on ↦ subst (λ x. IsValid (if x then changed else d)) (sym on) valid
    ]

-- `dcache_put` keeps the cache valid, with or without a block for the node.
pub dcache_put-IsValid :
    (room : Bool) (d : Dcache) (p off : ℕ) (e : Dentry)
    → IsValid d
    → IsValid (dcache_put room d p e off)
unfolding dcache_put
dcache_put-IsValid room d p off e v = elim (Bool-cases (e.inode_num == 0)) [
  | inl free ↦ rw free v
  | inr named ↦ rw named (
      at_bucket-IsValid d (dcache_hash p e.name) (put_bucket room p e off) d.table refl
        (put_bucket-Unique room p off e) v)
]

-- `dcache_remove` keeps the cache valid.
pub dcache_remove-IsValid :
    (d : Dcache) (p : ℕ) (s : Chars) → IsValid d → IsValid (dcache_remove d p s)
unfolding dcache_remove
dcache_remove-IsValid d p s v =
    at_bucket-IsValid d (dcache_hash p s) (unlink p s) d.table refl (unlink-Unique p s) v
