-- ===== src/Fs/Inode/Alias.antt =====
-- Two references to inodes that are not in memory yet.
use ucas_oslab.Base.{ℕ, ◌≡◌, refl, ap, ◌∙◌, true, false, none, some, ==_refl, ==_ne}
use native.Mathlib.Decide.{ℕ_discrete}
use mathlib.Core.Path.{subst}
use ucas_oslab.Base.Run.{ok}
use ucas_oslab.Locking.Slots.{first, first-some, first-congr}
use ucas_oslab.Fs.Cache.{Sectors}
use ucas_oslab.Fs.Inode.{Files, ninode}
use ucas_oslab.Fs.Inode.Map.{put_inode}
use ucas_oslab.Fs.Inode.Table.{is_referenced, is_empty, referred, found, inode_ref}

module _ {S : Sectors} (s : Files S) (m i : ℕ) (empty : is_empty s i ≡ true) where
  -- The state after a reference to `m` has taken the place `i`.
  taken : Files S
  taken = put_inode s i (record (s.inodes i) {
    disk = record (s.inodes i).disk { inode_num = m };
    ref_count = 1;
    valid = false;
  })

  is_empty-taken : (j : ℕ) → is_empty taken j ≡ is_empty s j
  unfolding taken
  is_empty-taken j = elim (ℕ_discrete i j) [
    | yes e ↦ subst (λ k. is_empty taken k ≡ is_empty s k) e (rw (==_refl i) refl)
    | no ne ↦ rw (==_ne i j ne) refl
  ]

  is_referenced-taken : (n j : ℕ) → is_referenced taken n j ≡ is_referenced s n j
  unfolding taken
  is_referenced-taken n j = elim (ℕ_discrete i j) [
    | yes e ↦
        subst (λ k. is_referenced taken n k ≡ is_referenced s n k) e (rw (==_refl i, empty) refl)
    | no ne ↦ rw (==_ne i j ne) refl
  ]

-- Two inodes of which no reference is in memory get the same place: the first reference leaves the type
-- of the place 0 until the inode is opened, and the second takes the place again.
pub inode_ref_again :
    {S : Sectors} (s : Files S) (m n i : ℕ)
    → first (is_referenced s m) ninode 0 ≡ none
    → first (is_referenced s n) ninode 0 ≡ none
    → first (is_empty s) ninode 0 ≡ some i
    → (t : Files S) × (u : Files S) × (inode_ref s m ≡ ok (i, t))
      × (inode_ref t n ≡ ok (i, u))
      × ((u.inodes i).ref_count ≡ 1)
unfolding inode_ref taken
inode_ref_again s m n i no_m no_n at_i =
    let empty = first-some (is_empty s) ninode 0 i at_i in
    let t = taken s m i empty in
    let still_none =
      first-congr (is_referenced t n) (is_referenced s n) ninode 0
        (is_referenced-taken s m i empty n)
      ∙ no_n in
    let still_i =
      first-congr (is_empty t) (is_empty s) ninode 0 (is_empty-taken s m i empty) ∙ at_i in
    (
      t,
      taken t n i (is_empty-taken s m i empty i ∙ empty),
      ap (found s m) no_m ∙ ap (referred s m) at_i,
      ap (found t n) still_none ∙ ap (referred t n) still_i,
      rw (==_refl i) refl,
    )
