-- ===== src/Mm/Frames.antt =====
-- The groups of page frames, as far as a page moves between them: fifo::attach and fifo::detach of
-- kernel/mm/pf_evict.cpp, which every group uses, shrink_pagegroup of kernel/mm/pagegroup.cpp up to its call
-- of swapout, and free_pageframe of kernel/mm/pageframe.c for a block of one frame. A frame that is detached or freed is
-- in the list of its group, and a group's count is that of its list, so that the count does not fall below
-- zero. The owner of a detached frame is not read before the frame is attached again.
use ucas_oslab.Base.{
  ℕ, ◌+◌, ◌-◌, ◌≤◌, ◌≡◌, refl, sym, Bool, leb, List, ◌∷◌, arith, true, ==_ne, ==_refl,
  if◌then◌else◌,
}
use native.Mathlib.Decide.{ℕ_discrete}
use mathlib.Core.Path.{subst}
use ucas_oslab.Base.Update.{update}

pub record Group : Type 0 where
  pub capacity : ℕ
  pub used : ℕ

-- `owner` is the group of a frame (find_pagegroup), `freed` the frames given to free_pageframe.
pub record Frames : Type 0 where
  pub owner : ℕ → ℕ
  pub groups : ℕ → Group
  pub freed : List ℕ

-- PAGE_GROUP_KERNEL.
abbrev pub page_group_kernel : ℕ
page_group_kernel = 0

-- A call that may need room in a group: `full` is where it goes on to swap a page out.
pub data Fits {ℓ} (A : Type ℓ) : Type ℓ where
  full : Fits A
  fits : A → Fits A

abbrev pub and_then {ℓ κ} : {A : Type ℓ} {B : Type κ} → Fits A → (A → Fits B) → Fits B
and_then full rest = full
and_then (fits a) rest = rest a

abbrev pub set_used : Frames → ℕ → ℕ → Frames
set_used f group n = record f {
  groups = update f.groups group (record (f.groups group) { used = n });
}

-- `shrink_pagegroup(group, 1)`: whether it has nothing to swap out.
abbrev pub has_room : Frames → ℕ → ℕ → Bool
has_room f group space = leb ((f.groups group).used + space) (f.groups group).capacity

abbrev pub attach_pageframe : Frames → ℕ → ℕ → Fits Frames
attach_pageframe f page group =
    if has_room f group 1
    then fits (record (set_used f group ((f.groups group).used + 1)) {
      owner = update f.owner page group;
    })
    else full

abbrev pub detach_pageframe : Frames → ℕ → Frames
detach_pageframe f group = set_used f group ((f.groups group).used - 1)

abbrev pub free_pageframe : Frames → ℕ → Frames
free_pageframe f page = record (detach_pageframe f (f.owner page)) { freed = page ∷ f.freed }

-- Room for `n` pages more.
abbrev pub Room : Frames → ℕ → ℕ → Type 0
Room f group n = (f.groups group).used + n ≤ (f.groups group).capacity

pub Room-detach_pageframe :
    (f : Frames) (group other n : ℕ) → Room f group n → Room (detach_pageframe f other) group n
Room-detach_pageframe f group other n h = elim (ℕ_discrete other group) [
  | yes e ↦
      subst (λ x. Room (detach_pageframe f x) group n) (sym e)
        (rw (==_refl group) (omega (arith, h)))
  | no ne ↦ rw (==_ne other group ne) h
]

-- An attached page takes one place of the room.
pub Room-attach_pageframe :
    (f : Frames) (page group n : ℕ)
    → Room f group (n + 1)
    → (f' : Frames) × (attach_pageframe f page group ≡ fits f') × Room f' group n
Room-attach_pageframe f page group n h =
    let room : has_room f group 1 ≡ true = ground (arith, h) in
    (
      record (set_used f group ((f.groups group).used + 1)) { owner = update f.owner page group },
      rw room refl,
      rw (==_refl group) (omega (arith, h)),
    )
