-- ===== src/Libs/Links.antt =====
-- libs/list.c: the circular lists on the heap. A node is its address, 0 is NULL, and a list is the address
-- of its head. What the nodes hold is a table for each field.
pub mod Chain
pub mod Ring
pub mod Ops
mod Tests
use ucas_oslab.Base.{
  ℕ, zero, suc, ◌==◌, Bool, true, false, not, ◌||◌, Option, none, some, if◌then◌else◌,
}
use ucas_oslab.Base.Update.{update}
use ucas_oslab.Base.Run.{Run, ok, ◌>>=◌, ◌>>◌, asserts}

-- The fields of every node.
pub record Links : Type 0 where
  pub next : ℕ → ℕ
  pub prev : ℕ → ℕ
  pub container : ℕ → ℕ

abbrev pub set_next : Links → ℕ → ℕ → Links
set_next s node v = record s { next = update s.next node v }

abbrev pub set_prev : Links → ℕ → ℕ → Links
set_prev s node v = record s { prev = update s.prev node v }

abbrev pub set_container : Links → ℕ → ℕ → Links
set_container s node v = record s { container = update s.container node v }

-- `!((a != NULL) ^ (b != NULL))`.
abbrev both_null : ℕ → ℕ → Bool
both_null a b = if a == 0 then b == 0 else not (b == 0)

unfoldable pub list_holding : Links → ℕ → Run Bool
list_holding s node =
    asserts (both_null (s.next node) (s.prev node))
    >> (asserts (both_null (s.next node) (s.container node))
        >> ok (not (s.next node == 0) || not (s.prev node == 0)))

-- The writes of `list_prepend`.
abbrev pub link_first : Links → ℕ → ℕ → Links
link_first s head node =
    let a = set_prev (set_next s node (s.next head)) node head in
    let b = set_prev a (a.next head) node in set_container (set_next b head node) node head

unfoldable pub list_prepend : Links → ℕ → ℕ → Run Links
list_prepend s list node =
    list_holding s node >>= λ held. ok (if held then s else link_first s list node)

-- The writes of `list_append`.
abbrev pub link_last : Links → ℕ → ℕ → Links
link_last s head node =
    let a = set_next (set_prev s node (s.prev head)) node head in
    let b = set_next a (a.prev head) node in set_container (set_prev b head node) node head

unfoldable pub list_append : Links → ℕ → ℕ → Run Links
list_append s list node =
    list_holding s node >>= λ held. ok (if held then s else link_last s list node)

-- A node that leaves its list.
abbrev pub clear_node : Links → ℕ → Links
clear_node s node = set_container (set_prev (set_next s node 0) node 0) node 0

-- The writes of `list_shift` and of `list_pop` for the node that they take.
abbrev pub unlink_first : Links → ℕ → ℕ → Links
unlink_first s head node =
    let a = set_next s head (s.next node) in clear_node (set_prev a (a.next node) head) node

abbrev pub unlink_last : Links → ℕ → ℕ → Links
unlink_last s head node =
    let a = set_prev s head (s.prev node) in clear_node (set_next a (a.prev node) head) node

-- The node, NULL for an empty list, and the new links.
unfoldable pub list_shift : Links → ℕ → ℕ × Links
list_shift s head =
    if s.next head == head then (0, s) else (s.next head, unlink_first s head (s.next head))

unfoldable pub list_pop : Links → ℕ → ℕ × Links
list_pop s head =
    if s.prev head == head then (0, s) else (s.prev head, unlink_last s head (s.prev head))

-- The walk of `list_size` from `current`, on fuel.
pub size_loop : Links → ℕ → ℕ → ℕ → ℕ → Option ℕ
size_loop s head zero size current = none
size_loop s head (suc n) size current =
    let rest = size_loop s head n (suc size) (s.next current) in
    if current == head then some size else rest

pub list_size : Links → ℕ → ℕ → Option ℕ
list_size s list fuel = size_loop s list fuel 0 (s.next list)

abbrev pub unlink_node : Links → ℕ → Links
unlink_node s node =
    let a = set_next s (s.prev node) (s.next node) in
    let b = set_prev a (a.next node) (a.prev node) in clear_node b node

unfoldable pub list_delete : Links → ℕ → Run Links
list_delete s node = list_holding s node >>= λ held. asserts held >> ok (unlink_node s node)

unfoldable pub list_init : Links → ℕ → Links
list_init s list = set_prev (set_next s list list) list list

unfoldable pub list_node_destruct : Links → ℕ → Run Links
list_node_destruct s node =
    list_holding s node >>= λ held. if held then list_delete s node else ok s
