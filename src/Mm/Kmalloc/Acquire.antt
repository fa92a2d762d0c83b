-- ===== src/Mm/Kmalloc/Acquire.antt =====
-- `acquire_block`: what it takes is what the free lists lose, at every address.
use native.Mathlib.Nat.{two-pow-succ}
use mathlib.Core.Path.{subst, subst₂}
use native.Mathlib.Decide.{ℕ_discrete}
use ucas_oslab.Base.{
  ℕ, zero, suc, ◌+◌, ◌-◌, ◌≤◌, ◌<◌, ◌≡◌, refl, ◌∙◌, ap, none, some, arith, inl, inr, Option-cases,
  [],
}
use ucas_oslab.Mm.Kmalloc.{
  Pool, order_size, order_index, min_order, max_order, push_block, pop_block, split_block,
  acquire_loop, acquire_block,
}
use ucas_oslab.Mm.Kmalloc.Cover.{
  in_block, covers, in_block_halves, covers-push_block, covers-pop_block, pop_block-eq-none,
}
use ucas_oslab.Mm.Kmalloc.Valid.{
  IsBlock, Placed, SamePlace, IsBlock-left, IsBlock-right, Placed-push_block, Placed-pop_block,
}

add-suc_two_pow :
    (order d : ℕ) → order_size (order + suc d) ≡ order_size (order + d) + order_size (order + d)
add-suc_two_pow order d = omega (
  arith,
  two-pow-succ (order + d),
  ap order_size {x = order + suc d} {y = suc (order + d)} (omega arith),
)

module _ (order : ℕ) (low : min_order ≤ order) where
  covers-split_block :
      (d b a : ℕ) (p : Pool)
      → order + d ≤ max_order
      → covers (split_block d order b p) a + in_block b (order_size order) a
        ≡ covers p a + in_block b (order_size (order + d)) a
  unfolding split_block
  covers-split_block zero b a p h =
      ap (λ (k : ℕ). covers p a + in_block b (order_size k) a) {x = order} {y = order + 0}
        (omega arith)
  covers-split_block (suc d) b a p h = omega (
    arith,
    covers-split_block d b a (push_block p (order + d) (b + order_size (order + d))) (omega arith),
    covers-push_block (order + d) a (omega arith) (omega arith) p (b + order_size (order + d)),
    in_block_halves b (order_size (order + d)) (order_size (order + d)) a,
    ap (λ (n : ℕ). in_block b n a) (add-suc_two_pow order d),
  )

  Placed-split_block :
      (base d b : ℕ) (p : Pool)
      → Placed base p
      → IsBlock base (order + d) b
      → Placed base (split_block d order b p)
        × IsBlock base order b
        × SamePlace p (split_block d order b p)
  unfolding split_block push_block
  Placed-split_block base zero b p v w = (
    v,
    subst (λ k. IsBlock base k b) {x = order + 0} {y = order} (omega arith) w,
    record { base = refl; limit = refl; ready = refl },
  )
  Placed-split_block base (suc d) b p v w =
      let w' : IsBlock base (suc (order + d)) b =
        subst (λ k. IsBlock base k b) {x = order + suc d} {y = suc (order + d)} (omega arith) w in
      let half = order_size (order + d) in
      let (v', block, same) =
        Placed-split_block base d b (push_block p (order + d) (b + half))
          (Placed-push_block base (order + d) (omega arith) p (b + half) v
            (IsBlock-right base (order + d) b w'))
          (IsBlock-left base (order + d) b w') in
      (v', block, record { base = same.base; limit = same.limit; ready = same.ready })

-- `q` is `p` less the block `b` of the order asked for.
pub record Acquired (base order : ℕ) (p : Pool) (b : ℕ) (q : Pool) : Type 0 where
  pub cover : (a : ℕ) → covers p a ≡ covers q a + in_block b (order_size order) a
  pub placed : Placed base q
  pub block : IsBlock base order b
  pub same : SamePlace p q

module _ (base order : ℕ) (low : min_order ≤ order) where
  split-Acquired :
      (d b c : ℕ) (p q : Pool)
      → order + d ≤ max_order
      → Placed base p
      → pop_block p (order + d) ≡ some (b, q)
      → Acquired base order p b (split_block d order b q)
  split-Acquired d b c p q h v e =
      let (vq, wb, pq) = Placed-pop_block base (order + d) (omega arith) p q b v e in
      let (vs, ws, qs) = Placed-split_block order low base d b q vq wb in
      record {
        cover = λ a. omega (
          arith,
          covers-pop_block (order + d) a (omega arith) h p q b e,
          covers-split_block order low d b a q h,
        );
        placed = vs;
        block = ws;
        same = record {
          base = qs.base ∙ pq.base;
          limit = qs.limit ∙ pq.limit;
          ready = qs.ready ∙ pq.ready;
        };
      }

  acquire_loop-Acquired :
      (n d b : ℕ) (p q : Pool)
      → order + d + n ≡ max_order + 1
      → Placed base p
      → acquire_loop n d order p ≡ some (b, q)
      → Acquired base order p b q
  unfolding acquire_loop
  acquire_loop-Acquired zero d b p q h v e = absurd (ground arith)
  acquire_loop-Acquired (suc n) d b p q h v e = elim (Option-cases (pop_block p (order + d))) [
    | inl empty ↦ acquire_loop-Acquired n (suc d) b p q (omega arith) v (ground arith)
    | inr ((c, r), got) ↦
        let eb : c ≡ b = ground arith in
        let eq : split_block d order c r ≡ q = ground arith in
        subst₂ (λ x y. Acquired base order p x y) eb eq
          (split-Acquired d c c p r (omega arith) v got)
  ]

  -- When all lists from the order on are empty, and only then, nothing is found.
  acquire_loop-eq-none :
      (n d : ℕ) (p : Pool)
      → acquire_loop n d order p ≡ none
      → (j : ℕ) → d ≤ j
      → j < d + n
      → p.free_lists (order_index (order + j)) ≡ []
  unfolding acquire_loop
  acquire_loop-eq-none zero d p e j h k = absurd (omega arith)
  acquire_loop-eq-none (suc n) d p e j h k = elim (Option-cases (pop_block p (order + d))) [
    | inr ((c, r), got) ↦ absurd (ground arith)
    | inl empty ↦ elim (ℕ_discrete d j) [
      | yes same ↦
          subst (λ i. p.free_lists (order_index (order + i)) ≡ []) same
            (pop_block-eq-none p (order + d) empty)
      | no ne ↦ acquire_loop-eq-none n (suc d) p (ground arith) j (omega arith) (omega arith)
    ]
  ]

  pub acquire_block-Acquired :
      (b : ℕ) (p q : Pool)
      → order ≤ max_order
      → Placed base p
      → acquire_block p order ≡ some (b, q)
      → Acquired base order p b q
  unfolding acquire_block
  acquire_block-Acquired b p q h v e =
      acquire_loop-Acquired (max_order + 1 - order) 0 b p q (omega arith) v e

  pub acquire_block-eq-none :
      (p : Pool)
      → order ≤ max_order
      → acquire_block p order ≡ none
      → (k : ℕ) → order ≤ k
      → k ≤ max_order
      → p.free_lists (order_index k) ≡ []
  unfolding acquire_block
  acquire_block-eq-none p h e k hk kh =
      subst (λ i. p.free_lists (order_index i) ≡ []) {x = order + (k - order)} {y = k} (omega arith)
        (acquire_loop-eq-none (max_order + 1 - order) 0 p e (k - order) (omega arith) (omega arith))
