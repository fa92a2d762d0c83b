-- ===== src/Libs/Links/Ring.antt =====
-- The lists of libs/list.c as rings of nodes around their head, and the writes that put a node in or take
-- it out.
use ucas_oslab.Base.{
  ℕ, ◌≡◌, refl, sym, ap, ◌∙◌, ◌==◌, true, false, List, [], ◌∷◌, ◌++◌, arith, inl, inr, Bool-cases,
  ==_iff,
}
use ucas_oslab.Base.Update.{update}
use ucas_oslab.Base.Run.{ok}
use ucas_oslab.Libs.Links.{
  Links, both_null, list_holding, link_first, link_last, unlink_first, unlink_last, unlink_node,
}
use ucas_oslab.Libs.Links.Chain.{
  has, distinct, has-append, end_of, start_of, Chain, Inserted, Removed, Chain-insert, Chain-remove,
  Chain-next,
}

-- The list at `head` holds the nodes `xs`, in order.
pub record IsRing (s : Links) (head : ℕ) (xs : List ℕ) : Type 0 where
  pub chain : Chain s head xs head
  pub apart : distinct (head ∷ xs) ≡ true
  pub not_null : has 0 (head ∷ xs) ≡ false
  pub owned : (x : ℕ) → has x xs ≡ true → s.container x ≡ head

-- A node that is in no list.
pub record Free (s : Links) (node : ℕ) : Type 0 where
  pub no_next : s.next node ≡ 0
  pub no_prev : s.prev node ≡ 0
  pub no_container : s.container node ≡ 0

distinct-insert :
    (node : ℕ) (xs ys : List ℕ)
    → has node (xs ++ ys) ≡ false
    → distinct (xs ++ ys) ≡ true
    → distinct (xs ++ (node ∷ ys)) ≡ true
distinct-insert node [] ys out apart = ground arith
distinct-insert node (x ∷ xs) ys out apart =
    let more = has-append x xs (node ∷ ys) in
    let less = has-append x xs ys in
    ground (arith, distinct-insert node xs ys (ground arith) (ground arith))

pub distinct-remove :
    (node : ℕ) (xs ys : List ℕ)
    → distinct (xs ++ (node ∷ ys)) ≡ true
    → (distinct (xs ++ ys) ≡ true) × (has node (xs ++ ys) ≡ false)
distinct-remove node [] ys apart = (ground arith, ground arith)
distinct-remove node (x ∷ xs) ys apart =
    let more = has-append x xs (node ∷ ys) in
    let less = has-append x xs ys in
    let (rest, out) = distinct-remove node xs ys (ground arith) in (ground arith, ground arith)

-- A node put between those of `xs` and those of `ys`.
pub IsRing-insert :
    (s s' : Links) (head node : ℕ) (xs ys : List ℕ)
    → IsRing s head (xs ++ ys)
    → Inserted s s' (end_of head xs) node (start_of ys head)
    → ((x : ℕ) → s'.container x ≡ update s.container node head x)
    → (node == 0) ≡ false
    → has node (head ∷ (xs ++ ys)) ≡ false
    → IsRing s' head (xs ++ (node ∷ ys))
IsRing-insert s s' head node xs ys r i box some_node out = record {
  chain =
      Chain-insert s s' head head node xs ys i r.apart (ground (arith, r.apart)) out (ground arith)
        r.chain;
  apart = distinct-insert node (head ∷ xs) ys out r.apart;
  not_null = ground (arith, r.not_null, has-append 0 xs (node ∷ ys), has-append 0 xs ys);
  owned = λ x inside.
      box x ∙ ground (arith, r.owned x, has-append x xs (node ∷ ys), has-append x xs ys);
}

pub IsRing-remove :
    (s s' : Links) (head node : ℕ) (xs ys : List ℕ)
    → IsRing s head (xs ++ (node ∷ ys))
    → Removed s s' (end_of head xs) node (start_of ys head)
    → ((x : ℕ) → s'.container x ≡ update s.container node 0 x)
    → IsRing s' head (xs ++ ys)
IsRing-remove s s' head node xs ys r i box =
    let (rest, out) = distinct-remove node (head ∷ xs) ys r.apart in
    record {
      chain = Chain-remove s s' head head node xs ys i r.apart (ground (arith, r.apart)) r.chain;
      apart = rest;
      not_null = ground (arith, r.not_null, has-append 0 xs (node ∷ ys), has-append 0 xs ys);
      owned = λ x inside.
          let here : (node == x) ≡ false = elim (Bool-cases (node == x)) [
            | inr ne ↦ ne
            | inl e ↦ absurd (ground (arith, (==_iff node x).0 e))
          ] in
          box x ∙ ground (arith, r.owned x, has-append x xs (node ∷ ys), has-append x xs ys);
    }

pub link_last-Inserted :
    (s : Links) (head node p : ℕ)
    → s.prev head ≡ p
    → (node == p) ≡ false
    → (node == head) ≡ false
    → Inserted s (link_last s head node) p node head
link_last-Inserted s head node p e np nh = record {
  next_before = ground arith;
  next_node = ground arith;
  prev_node = ground arith;
  prev_after = ground arith;
  next_same = λ x a b. ground arith;
  prev_same = λ x a b. ground arith;
}

pub link_first-Inserted :
    (s : Links) (head node q : ℕ)
    → s.next head ≡ q
    → (node == q) ≡ false
    → (node == head) ≡ false
    → Inserted s (link_first s head node) head node q
link_first-Inserted s head node q e nq nh = record {
  next_before = ground arith;
  next_node = ground arith;
  prev_node = ground arith;
  prev_after = ground arith;
  next_same = λ x a b. ground arith;
  prev_same = λ x a b. ground arith;
}

pub unlink_node-Removed :
    (s : Links) (p node q : ℕ)
    → s.prev node ≡ p
    → s.next node ≡ q
    → (node == p) ≡ false
    → (node == q) ≡ false
    → Removed s (unlink_node s node) p node q
unlink_node-Removed s p node q e f np nq = record {
  next_before = ground arith;
  prev_after = ground arith;
  next_same = λ x a b. ground arith;
  prev_same = λ x a b. ground arith;
}

pub unlink_first-Removed :
    (s : Links) (head node q : ℕ)
    → s.next node ≡ q
    → (node == head) ≡ false
    → (node == q) ≡ false
    → Removed s (unlink_first s head node) head node q
unlink_first-Removed s head node q f np nq = record {
  next_before = ground arith;
  prev_after = ground arith;
  next_same = λ x a b. ground arith;
  prev_same = λ x a b. ground arith;
}

-- A node in no list is not a node of a list.
pub Free-outside :
    (s : Links) (head node : ℕ) (xs : List ℕ)
    → IsRing s head xs
    → Free s node
    → has node (head ∷ xs) ≡ false
Free-outside s head node xs r f = elim (Bool-cases (has node xs)) [
  | inl inside ↦ absurd (ground (arith, r.owned node inside, f.no_container, r.not_null))
  | inr out ↦ elim (Bool-cases (node == head)) [
    | inr ne ↦ ground arith
    | inl e ↦
        let same = (==_iff node head).0 e in
        let at_head = ap s.next same in
        absurd
          (empty xs r.not_null (sym (Chain-next s head head xs r.chain) ∙ sym at_head ∙ f.no_next))
  ]
]
  where
    empty : (ys : List ℕ) → has 0 (head ∷ ys) ≡ false → start_of ys head ≡ 0 → ⊥
    empty [] out e = ground arith
    empty (y ∷ ys) out e = ground arith

pub list_holding-Free : (s : Links) (node : ℕ) → Free s node → list_holding s node ≡ ok false
unfolding list_holding both_null
list_holding-Free s node f = rw (f.no_next, f.no_prev, f.no_container) refl

pub start_of_ne :
    (node head : ℕ) (ys : List ℕ)
    → has node (head ∷ ys) ≡ false
    → (node == start_of ys head) ≡ false
start_of_ne node head [] h = ground arith
start_of_ne node head (y ∷ ys) h = ground arith

pub end_of_ne :
    (node head : ℕ) (xs : List ℕ) → has node (head ∷ xs) ≡ false → (node == end_of head xs) ≡ false
end_of_ne node head [] h = ground arith
end_of_ne node head (x ∷ xs) h = ground (arith, end_of_ne node x xs (ground arith))

pub list_holding_held :
    (s : Links) (node p q c : ℕ)
    → s.prev node ≡ p
    → s.next node ≡ q
    → s.container node ≡ c
    → (0 == p) ≡ false
    → (0 == q) ≡ false
    → (0 == c) ≡ false
    → list_holding s node ≡ ok true
unfolding list_holding both_null
list_holding_held s node p q c ep eq ec np nq nc = rw (ep, eq, ec) (ground arith)

pub unlink_last-Removed :
    (s : Links) (head node p : ℕ)
    → s.prev node ≡ p
    → (node == head) ≡ false
    → (node == p) ≡ false
    → Removed s (unlink_last s head node) p node head
unlink_last-Removed s head node p f nh np = record {
  next_before = ground arith;
  prev_after = ground arith;
  next_same = λ x a b. ground arith;
  prev_same = λ x a b. ground arith;
}
