-- ===== src/Libs/Links/Chain.antt =====
-- Chains of nodes by `next` and back by `prev`, and what one node put in or taken out does to them.
use ucas_oslab.Base.{
  ℕ, ◌≡◌, refl, sym, ◌∙◌, ◌==◌, Bool, true, false, not, ◌&&◌, ◌||◌, List, [], ◌∷◌, ◌++◌, arith, inl,
  inr, Bool-cases, ==_iff,
}
use ucas_oslab.Libs.Links.{Links}
use mathlib.Core.Bool.{or_assoc}

abbrev pub has : ℕ → List ℕ → Bool
has a [] = false
has a (x ∷ xs) = (a == x) || has a xs

abbrev pub distinct : List ℕ → Bool
distinct [] = true
distinct (x ∷ xs) = not (has x xs) && distinct xs

pub has-append : (a : ℕ) (xs ys : List ℕ) → has a (xs ++ ys) ≡ (has a xs || has a ys)
has-append a [] ys = refl
has-append a (x ∷ xs) ys = rw (has-append a xs ys, or_assoc) refl

-- The last of `a ∷ xs`, and the first of `ys` and `b` after it.
abbrev pub end_of : ℕ → List ℕ → ℕ
end_of a [] = a
end_of a (x ∷ xs) = end_of x xs

abbrev pub start_of : List ℕ → ℕ → ℕ
start_of [] b = b
start_of (y ∷ ys) b = y

-- From `a` through `xs` to `b`.
abbrev pub Chain : Links → ℕ → List ℕ → ℕ → Type 0
Chain s a [] b = (s.next a ≡ b) × (s.prev b ≡ a)
Chain s a (x ∷ xs) b = (s.next a ≡ x) × (s.prev x ≡ a) × Chain s x xs b

-- `s'` has `node` between `p` and `q`, and is `s` elsewhere.
pub record Inserted (s s' : Links) (p node q : ℕ) : Type 0 where
  pub next_before : s'.next p ≡ node
  pub next_node : s'.next node ≡ q
  pub prev_node : s'.prev node ≡ p
  pub prev_after : s'.prev q ≡ node
  pub next_same : (x : ℕ) → (x == p) ≡ false → (x == node) ≡ false → s'.next x ≡ s.next x
  pub prev_same : (x : ℕ) → (x == q) ≡ false → (x == node) ≡ false → s'.prev x ≡ s.prev x

-- `s'` goes from `p` to `q` past `node`, and is `s` elsewhere.
pub record Removed (s s' : Links) (p node q : ℕ) : Type 0 where
  pub next_before : s'.next p ≡ q
  pub prev_after : s'.prev q ≡ p
  pub next_same : (x : ℕ) → (x == p) ≡ false → (x == node) ≡ false → s'.next x ≡ s.next x
  pub prev_same : (x : ℕ) → (x == q) ≡ false → (x == node) ≡ false → s'.prev x ≡ s.prev x

Chain-frame :
    (s s' : Links) (a b p node q : ℕ) (xs : List ℕ)
    → ((x : ℕ) → (x == p) ≡ false → (x == node) ≡ false → s'.next x ≡ s.next x)
    → ((x : ℕ) → (x == q) ≡ false → (x == node) ≡ false → s'.prev x ≡ s.prev x)
    → has p (a ∷ xs) ≡ false
    → has node (a ∷ xs) ≡ false
    → has q xs ≡ false
    → (q == b) ≡ false
    → (node == b) ≡ false
    → Chain s a xs b
    → Chain s' a xs b
Chain-frame s s' a b p node q [] next prev hp hn hq qb nb (e, f) =
    (next a (ground arith) (ground arith) ∙ e, prev b (ground arith) (ground arith) ∙ f)
Chain-frame s s' a b p node q (x ∷ xs) next prev hp hn hq qb nb (e, f, rest) = (
  next a (ground arith) (ground arith) ∙ e,
  prev x (ground arith) (ground arith) ∙ f,
  Chain-frame s s' x b p node q xs next prev (ground arith) (ground arith) (ground arith) qb nb
      rest,
)

pub has-end_of : (a : ℕ) (xs : List ℕ) → has (end_of a xs) (a ∷ xs) ≡ true
has-end_of a [] = ground arith
has-end_of a (x ∷ xs) = ground (arith, has-end_of x xs)

end_of_away :
    (a x : ℕ) (xs ys : List ℕ) → has a (x ∷ (xs ++ ys)) ≡ false → (a == end_of x xs) ≡ false
end_of_away a x xs ys out = elim (Bool-cases (a == end_of x xs)) [
  | inr ne ↦ ne
  | inl e ↦ ground (arith, has-end_of x xs, has-append a xs ys, sym ((==_iff a (end_of x xs)).0 e))
]

start_of_away :
    (x b : ℕ) (xs ys : List ℕ)
    → has x (xs ++ ys) ≡ false
    → (x == b) ≡ false
    → (x == start_of ys b) ≡ false
start_of_away x b xs [] out ne = ne
start_of_away x b xs (y ∷ ys) out ne = ground (arith, has-append x xs (y ∷ ys))

-- A chain with one more node between the nodes of `xs` and those of `ys`.
pub Chain-insert :
    (s s' : Links) (a b node : ℕ) (xs ys : List ℕ)
    → Inserted s s' (end_of a xs) node (start_of ys b)
    → distinct (a ∷ (xs ++ ys)) ≡ true
    → has b (xs ++ ys) ≡ false
    → has node (a ∷ (xs ++ ys)) ≡ false
    → (node == b) ≡ false
    → Chain s a (xs ++ ys) b
    → Chain s' a (xs ++ (node ∷ ys)) b
Chain-insert s s' a b node [] [] i apart hb hn nb chain =
    (i.next_before, i.prev_node, (i.next_node, i.prev_after))
Chain-insert s s' a b node [] (y ∷ ys) i apart hb hn nb (e, f, rest) = (
  i.next_before,
  i.prev_node,
  (
    i.next_node,
    i.prev_after,
    Chain-frame s s' y b a node y ys i.next_same i.prev_same (ground arith) (ground arith)
        (ground arith) (ground arith) nb rest,
  ),
)
Chain-insert s s' a b node (x ∷ xs) ys i apart hb hn nb (e, f, rest) =
    let far = end_of_away a x xs ys (ground arith) in
    let near = start_of_away x b xs ys (ground arith) (ground arith) in
    (
      i.next_same a far (ground arith) ∙ e,
      i.prev_same x near (ground arith) ∙ f,
      Chain-insert s s' x b node xs ys i (ground arith) (ground arith) (ground arith) nb rest,
    )

-- A chain without one node between those of `xs` and those of `ys`.
pub Chain-remove :
    (s s' : Links) (a b node : ℕ) (xs ys : List ℕ)
    → Removed s s' (end_of a xs) node (start_of ys b)
    → distinct (a ∷ (xs ++ (node ∷ ys))) ≡ true
    → has b (xs ++ (node ∷ ys)) ≡ false
    → Chain s a (xs ++ (node ∷ ys)) b
    → Chain s' a (xs ++ ys) b
Chain-remove s s' a b node [] [] i apart hb chain = (i.next_before, i.prev_after)
Chain-remove s s' a b node [] (y ∷ ys) i apart hb (e, f, (g, h, rest)) = (
  i.next_before,
  i.prev_after,
  Chain-frame s s' y b a node y ys i.next_same i.prev_same (ground arith) (ground arith)
      (ground arith) (ground arith) (ground arith) rest,
)
Chain-remove s s' a b node (x ∷ xs) ys i apart hb (e, f, rest) =
    let inside = has-append a xs (node ∷ ys) in
    let here = has-append x xs (node ∷ ys) in
    let cut = has-append x xs ys in
    let cut_a = has-append a xs ys in
    let cut_b = has-append b xs (node ∷ ys) in
    let far = end_of_away a x xs ys (ground arith) in
    let near = start_of_away x b xs ys (ground arith) (ground arith) in
    (
      i.next_same a far (ground arith) ∙ e,
      i.prev_same x near (ground arith) ∙ f,
      Chain-remove s s' x b node xs ys i (ground arith) (ground arith) rest,
    )

-- The node before the end of a chain, and the nodes beside one within it.
pub Chain-prev : (s : Links) (a b : ℕ) (xs : List ℕ) → Chain s a xs b → s.prev b ≡ end_of a xs
Chain-prev s a b [] (e, f) = f
Chain-prev s a b (x ∷ xs) (e, f, rest) = Chain-prev s x b xs rest

pub Chain-next : (s : Links) (a b : ℕ) (xs : List ℕ) → Chain s a xs b → s.next a ≡ start_of xs b
Chain-next s a b [] (e, f) = e
Chain-next s a b (x ∷ xs) (e, f, rest) = e

pub Chain-beside :
    (s : Links) (a b node : ℕ) (xs ys : List ℕ)
    → Chain s a (xs ++ (node ∷ ys)) b
    → (s.prev node ≡ end_of a xs) × (s.next node ≡ start_of ys b)
Chain-beside s a b node [] ys (e, f, rest) = (f, Chain-next s node b ys rest)
Chain-beside s a b node (x ∷ xs) ys (e, f, rest) = Chain-beside s x b node xs ys rest
