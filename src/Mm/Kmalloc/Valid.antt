-- ===== src/Mm/Kmalloc/Valid.antt =====
-- Where blocks lie: at a multiple of their size from the pool's base, inside the pool.
use native.Mathlib.Nat.{two-pow-succ}
use mathlib.Core.Path.{subst}
use native.Mathlib.Decide.{ℕ_discrete}
use ucas_oslab.Base.{
  ℕ, suc, ◌+◌, ◌*◌, ◌≤◌, ◌≡◌, refl, ap, some, Option, List, [], ◌∷◌, arith, ◌==◌, ==_iff, ==_ne,
  Bool-cases, inl, inr, Option-cases, All,
}
use ucas_oslab.Base.Update.{update}
use ucas_oslab.Mm.Kmalloc.{
  Pool, Header, order_size, order_index, min_order, pool_bytes, push_block, pop_block, unlink,
}
use ucas_oslab.Mm.Kmalloc.Cover.{pop_block-eq-some}

pub record IsBlock (base order addr : ℕ) : Type 0 where
  pub index : ℕ
  pub place : addr ≡ base + index * order_size order
  pub within : index * order_size order + order_size order ≤ pool_bytes

-- Two pools at the same place.
pub record SamePlace (p q : Pool) : Type 0 where
  pub base : q.base ≡ p.base
  pub limit : q.limit ≡ p.limit
  pub ready : q.ready ≡ p.ready

-- Every free block lies where a block of its list's order may lie.
abbrev pub Placed : ℕ → Pool → Type 0
Placed base p = (i : ℕ) → All (IsBlock base (i + min_order)) (p.free_lists i)

-- A block of order k + 1 is two of order k.
pub IsBlock-left : (base k x : ℕ) → IsBlock base (suc k) x → IsBlock base k x
IsBlock-left base k x v = record {
  index = v.index + v.index;
  place = omega (arith, two-pow-succ k, ap (λ (t : ℕ). v.index * t) (two-pow-succ k), v.place);
  within = omega (arith, two-pow-succ k, ap (λ (t : ℕ). v.index * t) (two-pow-succ k), v.within);
}

pub IsBlock-right : (base k x : ℕ) → IsBlock base (suc k) x → IsBlock base k (x + order_size k)
IsBlock-right base k x v = record {
  index = v.index + v.index + 1;
  place = omega (arith, two-pow-succ k, ap (λ (t : ℕ). v.index * t) (two-pow-succ k), v.place);
  within = omega (arith, two-pow-succ k, ap (λ (t : ℕ). v.index * t) (two-pow-succ k), v.within);
}

pub All-update :
    {A : Type 0} (P : ℕ → A → Type 0) (f : ℕ → List A) (i : ℕ) (v : List A)
    → ((j : ℕ) → All (P j) (f j))
    → All (P i) v
    → (j : ℕ) → All (P j) (update f i v j)
All-update P f i v h hv j = elim (ℕ_discrete i j) [
  | yes e ↦ rw ((==_iff i j).1 e) (subst (λ k. All (P k) v) e hv)
  | no ne ↦ rw (==_ne i j ne) (h j)
]

module _ (base order : ℕ) (low : min_order ≤ order) where
  index-back : order_index order + min_order ≡ order
  index-back = omega arith

  pub Placed-push_block :
      (p : Pool) (b : ℕ) → Placed base p → IsBlock base order b → Placed base (push_block p order b)
  unfolding push_block
  Placed-push_block p b v w =
      All-update (λ i. IsBlock base (i + min_order)) p.free_lists (order_index order)
        (b ∷ p.free_lists (order_index order)) v (rw index-back w, v (order_index order))

  pub Placed-pop_block :
      (p q : Pool) (b : ℕ)
      → Placed base p
      → pop_block p order ≡ some (b, q)
      → Placed base q × IsBlock base order b × SamePlace p q
  Placed-pop_block p q b v e =
      let (rest, was, now) = pop_block-eq-some p q order b e in
      let both : All (IsBlock base (order_index order + min_order)) (b ∷ rest) =
        rw was at (v (order_index order)) in
      rw now (
        All-update (λ i. IsBlock base (i + min_order)) p.free_lists (order_index order) rest v
            both.1,
        rw index-back at both.0,
        record { base = refl; limit = refl; ready = refl },
      )

-- What `unlink` takes out was in the list, and what it leaves was too.
pub All-unlink :
    (P : ℕ → Type 0) (buddy : ℕ) (prev : Option ℕ) (xs ys : List ℕ) (h g : ℕ → Header)
    → All P xs
    → unlink buddy prev xs h ≡ some (ys, g)
    → All P ys × P buddy
unfolding unlink
All-unlink P buddy prev [] ys h g v e = absurd (cc)
All-unlink P buddy prev (c ∷ cs) ys h g v e = elim (Bool-cases (c == buddy)) [
  | inl hit ↦
      let same : cs ≡ ys = ground arith in
      let found : c ≡ buddy = ground arith in (subst (All P) same v.1, subst P found v.0)
  | inr miss ↦ elim (Option-cases (unlink buddy (some c) cs h)) [
    | inl gone ↦ absurd (ground arith)
    | inr ((zs, k), got) ↦
        let same : ys ≡ c ∷ zs = ground arith in
        let (rest, b) = All-unlink P buddy (some c) cs zs h k v.1 got in rw same ((v.0, rest), b)
  ]
]
