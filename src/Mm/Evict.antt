-- ===== src/Mm/Evict.antt =====
-- kernel/mm/pf_evict.cpp: which page a group of page frames gives up. A group's list stands here from
-- its back, where pages are taken, to its front, so that `list_delete` and `list_prepend` of a page move
-- it to the end. `pte` is the entry that maps a page, none while the pointer to it is NULL.
pub mod SecondChance
mod Tests
use ucas_oslab.Base.{
  ℕ, zero, suc, ◌==◌, Bool, true, false, not, ◌&&◌, Option, none, some, List, [], ◌∷◌, ◌++◌,
  if◌then◌else◌,
}
use ucas_oslab.Base.Update.{update}
use ucas_oslab.Mm.Pgtable.{
  is_leaf, get_attribute, set_attribute, clear_attribute, page_accessed, page_dirty,
}

abbrev pub Ptes : Type 0
Ptes = ℕ → Option ℕ

-- `pte && get_attribute(*pte, _PAGE_EXEC | _PAGE_READ | _PAGE_WRITE)`.
abbrev leaf_entry : Option ℕ → Bool
leaf_entry none = false
leaf_entry (some entry) = is_leaf entry

pub is_leaf_page : Ptes → ℕ → Bool
unfolding leaf_entry
is_leaf_page ptes page = leaf_entry (ptes page)

abbrev entry_accessed : Option ℕ → Bool
entry_accessed none = false
entry_accessed (some entry) = get_attribute entry page_accessed

pub is_accessed : Ptes → ℕ → Bool
unfolding entry_accessed
is_accessed ptes page = entry_accessed (ptes page)

abbrev on_entry : (ℕ → ℕ) → Option ℕ → Option ℕ
on_entry change none = none
on_entry change (some entry) = some (change entry)

abbrev pub clear_accessed_bit : Ptes → ℕ → Ptes
clear_accessed_bit ptes page =
    update ptes page (on_entry (λ entry. clear_attribute entry page_accessed) (ptes page))

-- `fifo::evict`: the first page that is mapped by a leaf entry, and the list after the pages `before` it
-- have moved to the front; with no such page the list stays `all`.
pub fifo_pick : Ptes → List ℕ → List ℕ → List ℕ → Option ℕ × List ℕ
fifo_pick ptes before all [] = (none, all)
fifo_pick ptes before all (page ∷ pages) =
    if is_leaf_page ptes page
    then (some page, (page ∷ pages) ++ before)
    else fifo_pick ptes (before ++ (page ∷ [])) all pages

pub fifo_evict : Ptes → List ℕ → Option ℕ × List ℕ
fifo_evict ptes pages = fifo_pick ptes [] pages pages

-- `fifo::on_access` and `fifo::on_write`.
abbrev pub fifo_on_access : Ptes → ℕ → Ptes
fifo_on_access ptes page =
    update ptes page (on_entry (λ entry. set_attribute entry page_accessed) (ptes page))

abbrev pub fifo_on_write : Ptes → ℕ → Ptes
fifo_on_write ptes page =
    update ptes page
      (on_entry (λ entry. set_attribute (set_attribute entry page_dirty) page_accessed) (ptes page))

-- The endless loop of `second_chance::evict`, on fuel: `none` is a loop that has not ended. It starts
-- with a page in the list.
pub chance_loop : ℕ → Ptes → List ℕ → Option (ℕ × Ptes × List ℕ)
chance_loop zero ptes pages = none
chance_loop (suc n) ptes [] = none
chance_loop (suc n) ptes (page ∷ pages) =
    let spared = chance_loop n (clear_accessed_bit ptes page) (pages ++ (page ∷ [])) in
    let passed = chance_loop n ptes (pages ++ (page ∷ [])) in
    if is_leaf_page ptes page
    then (if is_accessed ptes page then spared else some (page, ptes, page ∷ pages))
    else passed

victim : Option (ℕ × Ptes × List ℕ) → Option (Option ℕ × Ptes × List ℕ)
victim none = none
victim (some (page, ptes, pages)) = some (some page, ptes, pages)

second_chance_from : ℕ → Ptes → Option ℕ × List ℕ → Option (Option ℕ × Ptes × List ℕ)
second_chance_from fuel ptes (none, pages) = some (none, ptes, pages)
second_chance_from fuel ptes (some page, pages) = victim (chance_loop fuel ptes pages)

pub second_chance_evict : ℕ → Ptes → List ℕ → Option (Option ℕ × Ptes × List ℕ)
unfolding second_chance_from victim
second_chance_evict fuel ptes pages = second_chance_from fuel ptes (fifo_evict ptes pages)
