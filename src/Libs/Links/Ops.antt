-- ===== src/Libs/Links/Ops.antt =====
-- What the operations of libs/list.c do to the list of nodes that a ring stands for.
use ucas_oslab.Base.{
  ℕ, zero, suc, ◌≡◌, refl, sym, ap, ◌∙◌, ◌==◌, false, List, [], ◌∷◌, ◌++◌, arith, ==_refl,
}
use mathlib.Core.List.{append-nil}
use mathlib.Core.Path.{subst}
use ucas_oslab.Base.Run.{ok}
use ucas_oslab.Libs.Links.{
  Links, set_next, set_prev, clear_node, link_first, link_last, unlink_first, unlink_last,
  unlink_node, list_append, list_prepend, list_shift, list_pop, list_delete,
}
use ucas_oslab.Libs.Links.Chain.{
  has, has-append, end_of, start_of, Chain, Chain-prev, Chain-next, Chain-beside,
}
use ucas_oslab.Libs.Links.{list_init, list_size, size_loop}
use ucas_oslab.Libs.Links.Ring.{
  IsRing, Free, IsRing-insert, IsRing-remove, link_last-Inserted, link_first-Inserted,
  unlink_node-Removed, unlink_first-Removed, unlink_last-Removed, Free-outside, list_holding-Free,
  list_holding_held, start_of_ne, end_of_ne, distinct-remove,
}
use ucas_oslab.Base.{length, ◌<◌, ◌+◌, some}

-- `list_append` of a node that is in no list and is not NULL, to a ring: it does not halt, and the ring
-- then stands for its list with the node behind the others.
pub list_append-IsRing :
    (s : Links) (head node : ℕ) (xs : List ℕ)
    → IsRing s head xs
    → Free s node
    → (node == 0) ≡ false
    → (s' : Links) × (list_append s head node ≡ ok s') × IsRing s' head (xs ++ (node ∷ []))
unfolding list_append
list_append-IsRing s head node xs r f some_node =
    let out = Free-outside s head node xs r f in
    let whole = sym (append-nil xs) in
    (
      link_last s head node,
      rw (list_holding-Free s node f) refl,
      IsRing-insert s (link_last s head node) head node xs [] (subst (λ l. IsRing s head l) whole r)
          (link_last-Inserted s head node (end_of head xs) (Chain-prev s head head xs r.chain)
            (end_of_ne node head xs out) (ground arith))
          (λ x. refl) some_node (subst (λ l. has node (head ∷ l) ≡ false) whole out),
    )

-- `list_prepend` puts the node in front of the others.
pub list_prepend-IsRing :
    (s : Links) (head node : ℕ) (xs : List ℕ)
    → IsRing s head xs
    → Free s node
    → (node == 0) ≡ false
    → (s' : Links) × (list_prepend s head node ≡ ok s') × IsRing s' head (node ∷ xs)
unfolding list_prepend
list_prepend-IsRing s head node xs r f some_node =
    let out = Free-outside s head node xs r f in
    (
      link_first s head node,
      rw (list_holding-Free s node f) refl,
      IsRing-insert s (link_first s head node) head node [] xs r
          (link_first-Inserted s head node (start_of xs head) (Chain-next s head head xs r.chain)
            (start_of_ne node head xs out) (ground arith))
          (λ x. refl) some_node out,
    )

clear_node-Free : (s : Links) (node : ℕ) → Free (clear_node s node) node
clear_node-Free s node = record {
  no_next = ground arith;
  no_prev = ground arith;
  no_container = ground arith;
}

-- `list_shift` takes the first node of a list: it is returned, in no list, and the list holds the rest.
pub list_shift-IsRing :
    (s : Links) (head x : ℕ) (xs : List ℕ)
    → IsRing s head (x ∷ xs)
    → (s' : Links) × (list_shift s head ≡ (x, s')) × IsRing s' head xs × Free s' x
unfolding list_shift
list_shift-IsRing s head x xs r =
    let first = r.chain.0 in
    let ne : (x == head) ≡ false = ground (arith, r.apart) in
    (
      unlink_first s head x,
      rw (first, ne) refl,
      IsRing-remove s (unlink_first s head x) head x [] xs r
          (unlink_first-Removed s head x (start_of xs head) (Chain-next s x head xs r.chain.2) ne
            (start_of_ne x head xs (ground (arith, r.apart))))
          (λ y. refl),
      clear_node-Free
          (set_prev (set_next s head (s.next x)) ((set_next s head (s.next x)).next x) head) x,
    )

-- `list_delete` takes any node out of the list that it is in: the other nodes keep their order, and the
-- node is in no list.
pub list_delete-IsRing :
    (s : Links) (head node : ℕ) (xs ys : List ℕ)
    → IsRing s head (xs ++ (node ∷ ys))
    → (s' : Links) × (list_delete s node ≡ ok s') × IsRing s' head (xs ++ ys) × Free s' node
unfolding list_delete
list_delete-IsRing s head node xs ys r =
    let (before, after) = Chain-beside s head head node xs ys r.chain in
    let (rest, out) = distinct-remove node (head ∷ xs) ys r.apart in
    let nulls = has-append 0 xs (node ∷ ys) in
    let parts = has-append node xs ys in
    let box = r.owned node (ground (arith, has-append node xs (node ∷ ys))) in
    let held =
      list_holding_held s node (end_of head xs) (start_of ys head) head before after box
        (end_of_ne 0 head xs (ground (arith, r.not_null)))
        (start_of_ne 0 head ys (ground (arith, r.not_null))) (ground (arith, r.not_null)) in
    (
      unlink_node s node,
      rw held refl,
      IsRing-remove s (unlink_node s node) head node xs ys r
          (unlink_node-Removed s (end_of head xs) node (start_of ys head) before after
            (end_of_ne node head xs (ground arith)) (start_of_ne node head ys (ground arith)))
          (λ y. refl),
      clear_node-Free
          (set_prev (set_next s (s.prev node) (s.next node))
            ((set_next s (s.prev node) (s.next node)).next node) (s.prev node))
          node,
    )

end_of-append : (a x : ℕ) (xs : List ℕ) → end_of a (xs ++ (x ∷ [])) ≡ x
end_of-append a x [] = refl
end_of-append a x (y ∷ ys) = end_of-append y x ys

-- `list_pop` takes the last node of a list: it is returned, in no list, and the list holds the rest.
pub list_pop-IsRing :
    (s : Links) (head x : ℕ) (xs : List ℕ)
    → IsRing s head (xs ++ (x ∷ []))
    → (s' : Links) × (list_pop s head ≡ (x, s')) × IsRing s' head xs × Free s' x
unfolding list_pop
list_pop-IsRing s head x xs r =
    let last : s.prev head ≡ x =
      Chain-prev s head head (xs ++ (x ∷ [])) r.chain ∙ end_of-append head x xs in
    let (before, after) = Chain-beside s head head x xs [] r.chain in
    let (rest, out) = distinct-remove x (head ∷ xs) [] r.apart in
    let parts = has-append x xs [] in
    let ne : (x == head) ≡ false = ground arith in
    (
      unlink_last s head x,
      rw (last, ne) refl,
      subst (λ l. IsRing (unlink_last s head x) head l) (append-nil xs)
          (IsRing-remove s (unlink_last s head x) head x xs [] r
            (unlink_last-Removed s head x (end_of head xs) before ne
              (end_of_ne x head xs (ground arith)))
            (λ y. refl)),
      clear_node-Free
          (set_next (set_prev s head (s.prev x)) ((set_prev s head (s.prev x)).prev x) head) x,
    )

-- A list that `list_init` has set up is empty.
pub list_init-IsRing :
    (s : Links) (list : ℕ) → (list == 0) ≡ false → IsRing (list_init s list) list []
unfolding list_init
list_init-IsRing s list ne = record {
  chain = (ground arith, ground arith);
  apart = refl;
  not_null = ground arith;
  owned = λ x inside. ground arith;
}

size_loop-length :
    (s : Links) (a head : ℕ) (xs : List ℕ) (fuel n : ℕ)
    → Chain s a xs head
    → has head xs ≡ false
    → length xs < fuel
    → size_loop s head fuel n (s.next a) ≡ some (n + length xs)
unfolding size_loop
size_loop-length s a head xs zero n chain out enough = absurd (omega arith)
size_loop-length s a head [] (suc fuel) n (e, f) out enough =
    rw (e, ==_refl head) (ap some (omega arith))
size_loop-length s a head (x ∷ xs) (suc fuel) n (e, f, rest) out enough =
    let ne : (x == head) ≡ false = ground arith in
    let more = size_loop-length s x head xs fuel (suc n) rest (ground arith) (omega arith) in
    rw (e, ne) (more ∙ ap some (omega arith))

-- `list_size` ends on a list, one round after its last node, and counts the nodes.
pub list_size-length :
    (s : Links) (list : ℕ) (xs : List ℕ) (fuel : ℕ)
    → IsRing s list xs
    → length xs < fuel
    → list_size s list fuel ≡ some (length xs)
unfolding list_size
list_size-length s list xs fuel r enough =
    size_loop-length s list list xs fuel 0 r.chain (ground (arith, r.apart)) enough
    ∙ ap some (omega arith)
