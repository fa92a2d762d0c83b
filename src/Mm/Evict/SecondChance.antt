-- ===== src/Mm/Evict/SecondChance.antt =====
-- The loop of the second chance ends: each round that it goes on takes a page further or takes its
-- accessed bit away.
use ucas_oslab.Base.{
  ℕ, zero, suc, ◌⊎◌, ◌+◌, ◌*◌, ◌≤◌, ◌<◌, ◌≡◌, refl, sym, ap, ◌∙◌, ◌==◌, true, false, ◌&&◌, Option,
  none, some, List, [], ◌∷◌, ◌++◌, arith, if◌then◌else◌, ==_iff, ==_ne, length, length-append, inl,
  inr, Bool-cases, ==_refl,
}
use native.Mathlib.Decide.{ℕ_discrete}
use mathlib.Core.Path.{subst}
use ucas_oslab.Mm.Pgtable.{clear_attribute, page_accessed}
use ucas_oslab.Mm.Pgtable.Fields.{clear_accessed}
use ucas_oslab.Mm.Evict.{
  Ptes, is_leaf_page, is_accessed, clear_accessed_bit, chance_loop, fifo_evict, second_chance_evict,
  fifo_pick, second_chance_from, victim, leaf_entry, entry_accessed, on_entry,
}

cleared_leaf :
    (o : Option ℕ) → leaf_entry (on_entry (λ e. clear_attribute e page_accessed) o) ≡ leaf_entry o
cleared_leaf none = refl
cleared_leaf (some e) = (clear_accessed e).1

cleared_off :
    (o : Option ℕ) → entry_accessed (on_entry (λ e. clear_attribute e page_accessed) o) ≡ false
cleared_off none = refl
cleared_off (some e) = (clear_accessed e).0

leaf_cleared :
    (ptes : Ptes) (p q : ℕ) → is_leaf_page (clear_accessed_bit ptes p) q ≡ is_leaf_page ptes q
unfolding is_leaf_page
leaf_cleared ptes p q = elim (Bool-cases (p == q)) [
  | inr away ↦ rw away refl
  | inl here ↦ rw here (cleared_leaf (ptes p) ∙ ap (λ x. leaf_entry (ptes x)) ((==_iff p q).0 here))
]

accessed_cleared : (ptes : Ptes) (p : ℕ) → is_accessed (clear_accessed_bit ptes p) p ≡ false
unfolding is_accessed
accessed_cleared ptes p = rw (==_refl p) (cleared_off (ptes p))

accessed_away :
    (ptes : Ptes) (p q : ℕ)
    → (p ≡ q → ⊥)
    → is_accessed (clear_accessed_bit ptes p) q ≡ is_accessed ptes q
unfolding is_accessed
accessed_away ptes p q ne = rw (==_ne p q ne) refl

-- The rounds up to the first leaf, and the leaves with the accessed bit.
abbrev pub lead : Ptes → List ℕ → ℕ
lead ptes [] = 0
lead ptes (p ∷ ps) = if is_leaf_page ptes p then 0 else suc (lead ptes ps)

abbrev pub marked : Ptes → ℕ → ℕ
marked ptes p = if is_leaf_page ptes p && is_accessed ptes p then 1 else 0

abbrev pub marks : Ptes → List ℕ → ℕ
marks ptes [] = 0
marks ptes (p ∷ ps) = marked ptes p + marks ptes ps

marks-append :
    (ptes : Ptes) (ps qs : List ℕ) → marks ptes (ps ++ qs) ≡ marks ptes ps + marks ptes qs
marks-append ptes [] qs = omega arith
marks-append ptes (p ∷ ps) qs = omega (arith, marks-append ptes ps qs)

marks-le : (ptes : Ptes) (ps : List ℕ) → marks ptes ps ≤ length ps
marks-le ptes [] = omega arith
marks-le ptes (p ∷ ps) = ground (arith, marks-le ptes ps)

marked_cleared : (ptes : Ptes) (p q : ℕ) → marked (clear_accessed_bit ptes p) q ≤ marked ptes q
marked_cleared ptes p q = elim (ℕ_discrete p q) [
  | yes e ↦
      let off : is_accessed (clear_accessed_bit ptes p) q ≡ false =
        subst (λ x. is_accessed (clear_accessed_bit ptes p) x ≡ false) e
          (accessed_cleared ptes p) in
      ground (arith, off)
  | no ne ↦ rw (leaf_cleared ptes p q, accessed_away ptes p q ne) (omega arith)
]

marks_cleared :
    (ptes : Ptes) (p : ℕ) (ps : List ℕ) → marks (clear_accessed_bit ptes p) ps ≤ marks ptes ps
marks_cleared ptes p [] = omega arith
marks_cleared ptes p (q ∷ ps) = omega (arith, marked_cleared ptes p q, marks_cleared ptes p ps)

lead-append_early :
    (ptes : Ptes) (ps qs : List ℕ) → lead ptes ps < length ps → lead ptes (ps ++ qs) ≡ lead ptes ps
lead-append_early ptes [] qs h = elim h [ ]
lead-append_early ptes (p ∷ ps) qs h = elim (Bool-cases (is_leaf_page ptes p)) [
  | inl on ↦ rw on refl
  | inr off ↦ rw off (ap suc (lead-append_early ptes ps qs (ground arith)))
]

lead-append_late :
    (ptes : Ptes) (ps : List ℕ) (p : ℕ)
    → is_leaf_page ptes p ≡ true
    → lead ptes (ps ++ (p ∷ [])) ≤ length ps
lead-append_late ptes [] p on = rw on (omega arith)
lead-append_late ptes (q ∷ ps) p on = ground (arith, lead-append_late ptes ps p on)

lead_cleared :
    (ptes : Ptes) (p : ℕ) (ps : List ℕ) → lead (clear_accessed_bit ptes p) ps ≡ lead ptes ps
lead_cleared ptes p [] = refl
lead_cleared ptes p (q ∷ ps) = rw (leaf_cleared ptes p q, lead_cleared ptes p ps) refl

-- What a finished loop gives: the page at the back of the list, mapped by a leaf entry whose accessed bit
-- is off.
pub record Chosen (page : ℕ) (ptes : Ptes) (pages : List ℕ) : Type 0 where
  pub is_leaf_victim : is_leaf_page ptes page ≡ true
  pub not_accessed : is_accessed ptes page ≡ false

length-rotate : (p : ℕ) (ps : List ℕ) → length (ps ++ (p ∷ [])) ≡ suc (length ps)
length-rotate p ps = omega (arith, length-append ps (p ∷ []))

chance_loop_skip :
    (n : ℕ) (ptes : Ptes) (p : ℕ) (ps : List ℕ)
    → is_leaf_page ptes p ≡ false
    → chance_loop (suc n) ptes (p ∷ ps) ≡ chance_loop n ptes (ps ++ (p ∷ []))
unfolding chance_loop
chance_loop_skip n ptes p ps off = rw off refl

chance_loop_spare :
    (n : ℕ) (ptes : Ptes) (p : ℕ) (ps : List ℕ)
    → is_leaf_page ptes p ≡ true
    → is_accessed ptes p ≡ true
    → chance_loop (suc n) ptes (p ∷ ps) ≡ chance_loop n (clear_accessed_bit ptes p) (ps ++ (p ∷ []))
unfolding chance_loop
chance_loop_spare n ptes p ps on used = rw (on, used) refl

chance_loop_found :
    (n : ℕ) (ptes : Ptes) (p : ℕ) (ps : List ℕ)
    → is_leaf_page ptes p ≡ true
    → is_accessed ptes p ≡ false
    → chance_loop (suc n) ptes (p ∷ ps) ≡ some (p, ptes, p ∷ ps)
unfolding chance_loop
chance_loop_found n ptes p ps on unused = rw (on, unused) refl

-- The rounds left fall with each round.
chance_loop_total :
    (fuel : ℕ) (ptes : Ptes) (pages : List ℕ) (total : ℕ)
    → length pages ≡ total
    → lead ptes pages < total
    → marks ptes pages * total + lead ptes pages < fuel
    → (page : ℕ) × (ptes' : Ptes) × (pages' : List ℕ) × (chance_loop fuel ptes pages
        ≡ some (page, ptes', pages'))
      × Chosen page ptes' pages'
unfolding chance_loop
chance_loop_total zero ptes pages total size inside h = elim h [ ]
chance_loop_total (suc fuel) ptes [] total size inside h = absurd (omega arith)
chance_loop_total (suc fuel) ptes (p ∷ ps) total size inside h =
    elim (Bool-cases (is_leaf_page ptes p)) [
      | inr off ↦
          let before : lead ptes (p ∷ ps) ≡ suc (lead ptes ps) = rw off refl in
          let mark : marked ptes p ≡ 0 = rw off refl in
          let same = lead-append_early ptes ps (p ∷ []) (omega arith) in
          let moved = marks-append ptes ps (p ∷ []) in
          let count : marks ptes (ps ++ (p ∷ [])) ≡ marks ptes (p ∷ ps) = omega arith in
          let scaled = ap (λ (t : ℕ). t * total) count in
          let (page, ptes', pages', e, chosen) =
            chance_loop_total fuel ptes (ps ++ (p ∷ [])) total (length-rotate p ps ∙ size)
              (omega arith) (omega arith) in
          (page, ptes', pages', chance_loop_skip fuel ptes p ps off ∙ e, chosen)
      | inl on ↦ elim (Bool-cases (is_accessed ptes p)) [
        | inr unused ↦ (
          p,
          ptes,
          p ∷ ps,
          chance_loop_found fuel ptes p ps on unused,
          record { is_leaf_victim = on; not_accessed = unused },
        )
        | inl used ↦
            let q = clear_accessed_bit ptes p in
            let late = lead-append_late q ps p (leaf_cleared ptes p p ∙ on) in
            let fewer = marks_cleared ptes p ps in
            let moved = marks-append q ps (p ∷ []) in
            let mark : marked ptes p ≡ 1 = rw (on, used) refl in
            let gone : marked q p ≡ 0 =
              rw (leaf_cleared ptes p p, on, accessed_cleared ptes p) refl in
            let (page, ptes', pages', e, chosen) =
              chance_loop_total fuel q (ps ++ (p ∷ [])) total (length-rotate p ps ∙ size)
                (omega arith)
                (fall (marks q (ps ++ (p ∷ []))) (marks ptes (p ∷ ps)) total
                  (lead q (ps ++ (p ∷ []))) (lead ptes (p ∷ ps)) fuel (omega arith) (omega arith)
                  (omega arith)) in
            (page, ptes', pages', chance_loop_spare fuel ptes p ps on used ∙ e, chosen)
      ]
    ]
  where
    fall :
        (a b total i j fuel : ℕ)
        → a < b
        → i < total
        → b * total + j < suc fuel
        → a * total + i < fuel
    fall a b total i j fuel h k m = grind arith

pub chance_loop-Chosen :
    (ptes : Ptes) (pages : List ℕ) (fuel : ℕ)
    → lead ptes pages < length pages
    → length pages * length pages + length pages ≤ fuel
    → (page : ℕ) × (ptes' : Ptes) × (pages' : List ℕ) × (chance_loop fuel ptes pages
        ≡ some (page, ptes', pages'))
      × Chosen page ptes' pages'
chance_loop-Chosen ptes pages fuel inside enough =
    chance_loop_total fuel ptes pages (length pages) refl inside (
      bound (marks ptes pages) (length pages) (lead ptes pages) fuel (marks-le ptes pages) inside
        enough)
  where
    bound : (a n i fuel : ℕ) → a ≤ n → i < n → n * n + n ≤ fuel → a * n + i < fuel
    bound a n i fuel h k m = grind arith

fifo_pick_cases :
    (ptes : Ptes) (before all pages : List ℕ)
    → ((fifo_pick ptes before all pages ≡ (none, all)) × (lead ptes pages ≡ length pages))
      ⊎ ((page : ℕ) × (rest : List ℕ) × (fifo_pick ptes before all pages ≡ (some page, page ∷ rest))
          × (is_leaf_page ptes page ≡ true)
          × (length (page ∷ rest) ≡ length pages + length before))
unfolding fifo_pick
fifo_pick_cases ptes before all [] = inl (refl, refl)
fifo_pick_cases ptes before all (p ∷ ps) = elim (Bool-cases (is_leaf_page ptes p)) [
  | inl on ↦ inr (p, ps ++ before, rw on refl, on, omega (arith, length-append ps before))
  | inr off ↦ elim (fifo_pick_cases ptes (before ++ (p ∷ [])) all ps) [
    | inl (e, none_left) ↦ inl (rw off e, rw off (ap suc none_left))
    | inr (page, rest, e, leaf, size) ↦
        inr (page, rest, rw off e, leaf, omega (arith, size, length-rotate p before))
  ]
]

-- `second_chance::evict` ends on every list of pages, after at most as many rounds as the square of the
-- list's length and its length. Either no page of the list is mapped by a leaf entry, and then it returns
-- NULL and changes nothing; or the page that it returns is mapped by a leaf entry whose accessed bit is
-- off.
pub second_chance_evict_total :
    (ptes : Ptes) (pages : List ℕ) (fuel : ℕ)
    → length pages * length pages + length pages ≤ fuel
    → ((lead ptes pages ≡ length pages)
        × (second_chance_evict fuel ptes pages ≡ some (none, ptes, pages)))
      ⊎ ((page : ℕ) × (ptes' : Ptes) × (pages' : List ℕ) × (second_chance_evict fuel ptes pages
            ≡ some (some page, ptes', pages'))
          × Chosen page ptes' pages')
unfolding second_chance_evict fifo_evict second_chance_from victim
second_chance_evict_total ptes pages fuel enough = elim (fifo_pick_cases ptes [] pages pages) [
  | inl (e, none_left) ↦ inl (none_left, ap (second_chance_from fuel ptes) e)
  | inr (page, rest, e, leaf, size) ↦
      let same : length (page ∷ rest) ≡ length pages = omega (arith, size) in
      let first : lead ptes (page ∷ rest) ≡ 0 = rw leaf refl in
      let room : length (page ∷ rest) * length (page ∷ rest) + length (page ∷ rest) ≤ fuel =
        subst (λ n. n * n + n ≤ fuel) (sym same) enough in
      let (chosen, ptes', pages', run, good) =
        chance_loop-Chosen ptes (page ∷ rest) fuel (omega (arith, first)) room in
      inr (chosen, ptes', pages', ap (second_chance_from fuel ptes) e ∙ ap victim run, good)
]
