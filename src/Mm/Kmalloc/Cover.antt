-- ===== src/Mm/Kmalloc/Cover.antt =====
-- Which addresses the free lists cover, and how often.
use ucas_oslab.Base.{
  ℕ, ◌+◌, ◌-◌, ◌≤◌, ◌≡◌, refl, none, some, Option, List, [], ◌∷◌, arith, ltb, leb, ◌&&◌, ◌==◌,
  if◌then◌else◌, Bool-cases, inl, inr, Option-cases,
}
use ucas_oslab.Base.Update.{update, sum_to, sum_to-single}
use ucas_oslab.Mm.Kmalloc.{
  Pool, Header, order_size, order_index, order_count, min_order, max_order, push_block, pop_block,
  pop_first, unlink,
}

-- Whether `a` lies in the `len` bytes from `lo`, as a number.
abbrev pub in_block : ℕ → ℕ → ℕ → ℕ
in_block lo len a = if leb lo a && ltb a (lo + len) then 1 else 0

-- How many of the blocks hold `a`.
unfoldable pub count_in : ℕ → List ℕ → ℕ → ℕ
count_in size [] a = 0
count_in size (b ∷ bs) a = in_block b size a + count_in size bs a

-- How many free blocks hold `a`.
unfoldable pub covers : Pool → ℕ → ℕ
covers p a = sum_to order_count (λ i. count_in (order_size (i + min_order)) (p.free_lists i) a)

pub in_block_halves :
    (lo s t a : ℕ) → in_block lo (s + t) a ≡ in_block lo s a + in_block (lo + s) t a
in_block_halves lo s t a = ground arith

-- A change of the list of one order changes the cover by that list's blocks.
pub covers_change :
    (p q : Pool) (order a : ℕ)
    → min_order ≤ order
    → order ≤ max_order
    → ((j : ℕ) → (order_index order ≡ j → ⊥) → q.free_lists j ≡ p.free_lists j)
    → covers p a + count_in (order_size order) (q.free_lists (order_index order)) a
      ≡ covers q a + count_in (order_size order) (p.free_lists (order_index order)) a
unfolding covers
covers_change p q order a h k same =
    let e : order - min_order + min_order ≡ order = omega arith in
    rw e at (
      sum_to-single order_count (order_index order)
        (λ i. count_in (order_size (i + min_order)) (p.free_lists i) a)
        (λ i. count_in (order_size (i + min_order)) (q.free_lists i) a) (omega arith)
        λ j below ne. rw (same j ne))

pop_first-eq-some :
    (p q : Pool) (i b : ℕ) (xs : List ℕ)
    → pop_first p i xs ≡ some (b, q)
    → (rest : List ℕ) × (xs ≡ b ∷ rest) × (q ≡ record p { free_lists = update p.free_lists i rest })
unfolding pop_first
pop_first-eq-some p q i b [] e = cc
pop_first-eq-some p q i b (x ∷ xs) e = (xs, ground arith, ground arith)

pop_first-eq-none : (p : Pool) (i : ℕ) (xs : List ℕ) → pop_first p i xs ≡ none → xs ≡ []
unfolding pop_first
pop_first-eq-none p i [] e = refl
pop_first-eq-none p i (x ∷ xs) e = absurd (ground arith)

pub pop_block-eq-none :
    (p : Pool) (order : ℕ) → pop_block p order ≡ none → p.free_lists (order_index order) ≡ []
unfolding pop_block
pop_block-eq-none p order e =
    pop_first-eq-none p (order_index order) (p.free_lists (order_index order)) e

-- A successful pop takes the first block of its list, and changes nothing else.
pub pop_block-eq-some :
    (p q : Pool) (order b : ℕ)
    → pop_block p order ≡ some (b, q)
    → (rest : List ℕ) × (p.free_lists (order_index order) ≡ b ∷ rest)
      × (q ≡ record p { free_lists = update p.free_lists (order_index order) rest })
unfolding pop_block
pop_block-eq-some p q order b e =
    pop_first-eq-some p q (order_index order) b (p.free_lists (order_index order)) e

module _ (order a : ℕ) (low : min_order ≤ order) (high : order ≤ max_order) where
  pub covers-push_block :
      (p : Pool) (b : ℕ)
      → covers (push_block p order b) a ≡ covers p a + in_block b (order_size order) a
  unfolding push_block count_in
  covers-push_block p b =
      ground (arith, covers_change p (push_block p order b) order a low high (λ j ne. ground arith))

  pub covers-pop_block :
      (p q : Pool) (b : ℕ)
      → pop_block p order ≡ some (b, q)
      → covers p a ≡ covers q a + in_block b (order_size order) a
  unfolding count_in
  covers-pop_block p q b e =
      let (rest, was, now) = pop_block-eq-some p q order b e in
      rw now (
        ground (
          arith,
          covers_change p (record p { free_lists = update p.free_lists (order_index order) rest })
              order a low high (λ j ne. ground arith),
        ))

-- `unlink` takes exactly one block out of the list: the buddy.
pub count_in-unlink :
    (size buddy : ℕ) (prev : Option ℕ) (xs ys : List ℕ) (h g : ℕ → Header) (a : ℕ)
    → unlink buddy prev xs h ≡ some (ys, g)
    → count_in size xs a ≡ count_in size ys a + in_block buddy size a
unfolding count_in unlink
count_in-unlink size buddy prev [] ys h g a e = cc
count_in-unlink size buddy prev (c ∷ cs) ys h g a e = elim (Bool-cases (c == buddy)) [
  | inl hit ↦ ground arith
  | inr miss ↦ elim (Option-cases (unlink buddy (some c) cs h)) [
    | inl gone ↦ ground arith
    | inr ((zs, k), got) ↦ ground (arith, count_in-unlink size buddy (some c) cs zs h k a got)
  ]
]
