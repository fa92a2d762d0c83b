-- ===== src/Fs/Dcache/Lookup.antt =====
-- A bucket as a map from a parent and a name: which entry a key hits, and what storing does.
use ucas_oslab.Base.{
  ℕ, zero, suc, ◌*◌, ◌%◌, ◌^◌, ◌≡◌, refl, sym, ap, ◌∙◌, ◌↔◌, Bool, true, false, Option, none, some,
  List, [], ◌∷◌, arith, inl, inr, Bool-cases, Option-cases, ==_ne,
}
use Prim.Native.Nat.{bit_xor}
use mathlib.Core.Path.{subst}
use native.Mathlib.Decide.{ℕ_discrete}
use ucas_oslab.Libs.Strings.{Chars, strncmp}
use ucas_oslab.Libs.Strings.Names.{bytes, bytes_from, strncmp-bytes}
use ucas_oslab.Base.Int.{ℤ, pos, negsuc}
use ucas_oslab.Fs.Dcache.{
  max_file_name, Dentry, DcacheEntry, hash_loop, hash_end, dcache_hash, is_zero, hit, find,
  overwrite, put_bucket, put_node,
}

-- Two names are the same name of a directory entry.
abbrev pub SameName : Chars → Chars → Type 0
SameName s t = bytes s max_file_name ≡ bytes t max_file_name

is_zero_iff : (z : ℤ) → (is_zero z ≡ true) ↔ (z ≡ pos 0)
is_zero_iff (pos n) = ground arith
is_zero_iff (negsuc n) = ground arith

pub hit_iff :
    (p : ℕ) (s : Chars) (e : DcacheEntry)
    → (hit p s e ≡ true) ↔ ((e.parent_inode ≡ p) × SameName e.dentry.name s)
unfolding hit
hit_iff p s e =
    let named = strncmp-bytes e.dentry.name s max_file_name in
    let zero_iff = is_zero_iff (strncmp e.dentry.name s max_file_name) in ground arith

hash_loop-bytes :
    (s t : Chars) (n i h : ℕ)
    → bytes_from s n i ≡ bytes_from t n i
    → hash_loop s n i h ≡ hash_loop t n i h
unfolding hash_loop
hash_loop-bytes s t zero i h e = refl
hash_loop-bytes s t (suc n) i h e = elim (ℕ_discrete (s i) 0) [
  | yes a ↦ elim (ℕ_discrete (t i) 0) [ yes b ↦ ground arith | no nb ↦ ground arith ]
  | no na ↦ elim (ℕ_discrete (t i) 0) [
    | yes b ↦ ground arith
    | no nb ↦
        let here : s i ≡ t i = ground arith in
        let tail : bytes_from s n (suc i) ≡ bytes_from t n (suc i) = ground arith in
        let rest = hash_loop-bytes s t n (suc i) (bit_xor h (t i) * 16777619 % 2 ^ 32) tail in
        rw (==_ne (s i) 0 na, ==_ne (t i) 0 nb, here) rest
  ]
]

-- Names that compare equal have the same bucket.
pub dcache_hash-SameName : (p : ℕ) (s t : Chars) → SameName s t → dcache_hash p s ≡ dcache_hash p t
unfolding dcache_hash
dcache_hash-SameName p s t e =
    ap hash_end (hash_loop-bytes s t max_file_name 0 (bit_xor 2166136261 p) e)

-- A node hit by one key is hit by exactly the keys equal to it.
pub hit-hit :
    (p q : ℕ) (s t : Chars) (a b : DcacheEntry)
    → hit p s a ≡ true
    → hit p s b ≡ true
    → hit q t a ≡ hit q t b
hit-hit p q s t a b ha hb =
    let (pa, sa) = (hit_iff p s a).0 ha in
    let (pb, sb) = (hit_iff p s b).0 hb in
    let named = sa ∙ sym sb in
    elim (Bool-cases (hit q t a)) [
      | inl on ↦
          let (qa, ta) = (hit_iff q t a).0 on in
          rw on (sym ((hit_iff q t b).1 (pb ∙ sym pa ∙ qa, sym named ∙ ta)))
      | inr off ↦ elim (Bool-cases (hit q t b)) [
        | inr off_b ↦ rw (off, off_b) refl
        | inl on ↦
            let (qb, tb) = (hit_iff q t b).0 on in
            (hit_iff q t a).1 (pa ∙ sym pb ∙ qb, named ∙ tb) ∙ sym on
      ]
    ]

abbrev pub OnSome {ℓ κ} : {A : Type ℓ} → (A → Type κ) → Option A → Type κ
OnSome P none = Unit
OnSome P (some a) = P a

abbrev pub node : ℕ → Dentry → ℕ → DcacheEntry
node p e off = record { parent_inode = p; offset = off; dentry = e }

pub hit_same : (p : ℕ) (s t : Chars) (a : DcacheEntry) → SameName s t → hit p s a ≡ hit p t a
hit_same p s t a same = elim (Bool-cases (hit p s a)) [
  | inl on ↦ let (pa, sa) = (hit_iff p s a).0 on in rw on (sym ((hit_iff p t a).1 (pa, sa ∙ same)))
  | inr off ↦ elim (Bool-cases (hit p t a)) [
    | inr off_t ↦ rw (off, off_t) refl
    | inl on ↦ let (pa, ta) = (hit_iff p t a).0 on in (hit_iff p s a).1 (pa, ta ∙ sym same) ∙ sym on
  ]
]

overwrite_same :
    (p off : ℕ) (e : Dentry) (n : Chars) (nodes : List DcacheEntry)
    → SameName e.name n
    → OnSome (λ w. find p n w ≡ some (e, off)) (overwrite p e off nodes)
unfolding find overwrite
overwrite_same p off e n [] same = tt
overwrite_same p off e n (x ∷ xs) same = elim (Bool-cases (hit p e.name x)) [
  | inl on ↦
      let now = record x { dentry = e; offset = off } in
      let hits = (hit_iff p n now).1 (((hit_iff p e.name x).0 on).0, same) in rw (on, hits) refl
  | inr off_x ↦ elim (Option-cases (overwrite p e off xs)) [
    | inl none_x ↦ rw (off_x, none_x) tt
    | inr (w, some_x) ↦
        let rest =
          subst (OnSome (λ v. find p n v ≡ some (e, off))) some_x
            (overwrite_same p off e n xs same) in
        rw (off_x, some_x, sym (hit_same p e.name n x same) ∙ off_x) rest
  ]
]

pub overwrite_other :
    (p q off : ℕ) (e : Dentry) (n : Chars) (nodes : List DcacheEntry)
    → (((p ≡ q) × SameName e.name n) → ⊥)
    → OnSome (λ w. find q n w ≡ find q n nodes) (overwrite p e off nodes)
unfolding find overwrite
overwrite_other p q off e n [] apart = tt
overwrite_other p q off e n (x ∷ xs) apart = elim (Bool-cases (hit p e.name x)) [
  | inl on ↦
      let now = record x { dentry = e; offset = off } in
      let at = ((hit_iff p e.name x).0 on).0 in
      let miss : hit q n now ≡ false = elim (Bool-cases (hit q n now)) [
        | inl yes_now ↦
            let (qa, ta) = (hit_iff q n now).0 yes_now in absurd (apart (sym at ∙ qa, ta))
        | inr no_now ↦ no_now
      ] in
      let same = hit-hit p q e.name n x now on ((hit_iff p e.name now).1 (at, refl)) in
      rw (on, miss, same ∙ miss) refl
  | inr off_x ↦ elim (Option-cases (overwrite p e off xs)) [
    | inl none_x ↦ rw (off_x, none_x) tt
    | inr (w, some_x) ↦
        let rest =
          subst (OnSome (λ v. find q n v ≡ find q n xs)) some_x
            (overwrite_other p q off e n xs apart) in
        rw (off_x, some_x, rest) refl
  ]
]

pub put_bucket_same :
    (p off : ℕ) (e : Dentry) (n : Chars) (nodes : List DcacheEntry)
    → SameName e.name n
    → find p n (put_bucket true p e off nodes) ≡ some (e, off)
unfolding put_bucket put_node find
put_bucket_same p off e n nodes same = elim (Option-cases (overwrite p e off nodes)) [
  | inl fresh ↦ rw (fresh, (hit_iff p n (node p e off)).1 (refl, same)) refl
  | inr (w, written) ↦ rw written (
      subst (OnSome (λ v. find p n v ≡ some (e, off))) written
        (overwrite_same p off e n nodes same))
]

pub put_bucket_other :
    (room : Bool) (p q off : ℕ) (e : Dentry) (n : Chars) (nodes : List DcacheEntry)
    → (((p ≡ q) × SameName e.name n) → ⊥)
    → find q n (put_bucket room p e off nodes) ≡ find q n nodes
unfolding put_bucket put_node find
put_bucket_other room p q off e n nodes apart = elim (Option-cases (overwrite p e off nodes)) [
  | inl fresh ↦ elim (Bool-cases room) [
    | inr full ↦ rw (fresh, full) refl
    | inl yes_room ↦ elim (Bool-cases (hit q n (node p e off))) [
      | inl on ↦ absurd (apart ((hit_iff q n (node p e off)).0 on))
      | inr miss ↦ rw (fresh, yes_room, miss) refl
    ]
  ]
  | inr (w, written) ↦ rw written (
      subst (OnSome (λ v. find q n v ≡ find q n nodes)) written
        (overwrite_other p q off e n nodes apart))
]
