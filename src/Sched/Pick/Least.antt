-- ===== src/Sched/Pick/Least.antt =====
-- The order by which the scheduler chooses, and what the scan of the ready queue gives.
use ucas_oslab.Base.{
  ℕ, ◌+◌, ◌<◌, ◌≡◌, refl, sym, ap, ◌⊎◌, inl, inr, ltb, ◌==◌, ◌&&◌, Bool, true, false, Option, none,
  some, List, [], ◌∷◌, All, occurrences, arith, if◌then◌else◌, Bool-cases, ==_refl, ==_ne,
}
use native.Mathlib.Decide.{ℕ_discrete}
use mathlib.Core.Path.{subst}
use ucas_oslab.Base.Int.{ℤ, ltb_ℤ}
use ucas_oslab.Sched.Pick.{
  Pcb, Minimum, normalized_cnt, is_better, update_by_consumption_init, filterout_kernel,
  pick_by_consumption,
}

-- Smaller task number, or the same and less consumption.
abbrev before : ℕ → ℤ → ℕ → ℤ → Bool
before i a j b = if ltb i j then true else i == j && ltb_ℤ a b

ltb_ℤ_irrefl : (a : ℤ) → ltb_ℤ a a ≡ false
ltb_ℤ_irrefl a = ground arith

before_irrefl : (i : ℕ) (a : ℤ) → before i a i a ≡ false
before_irrefl i a = ground (arith, ltb_ℤ_irrefl a)

before_trans :
    (i j k : ℕ) (a b c : ℤ) → before i a j b ≡ true → before j b k c ≡ true → before i a k c ≡ true
before_trans i j k a b c = ground arith

before_least :
    (i j k : ℕ) (a b c : ℤ)
    → before i a j b ≡ true
    → before k c j b ≡ false
    → before k c i a ≡ false
before_least i j k a b c = ground arith

abbrev minimum_of : Pcb → Minimum
minimum_of proc = record { min_task_id = proc.task_id; min_slice_cnt = normalized_cnt proc }

-- The tasks of a list that are allowed, by the minimum so far: either none of them is better and the
-- selection stays, or the result is one of them, better than the minimum, and none is better than it.
abbrev Scanned : (ℕ → Pcb) → ℕ → Minimum → Option ℕ → List ℕ → Option ℕ → Type 0
Scanned pcbs hart m selected ps o =
    (o ≡ selected)
      × All (λ q. filterout_kernel hart (pcbs q) ≡ true → is_better m (pcbs q) ≡ false) ps
    ⊎ (p : ℕ) × (o ≡ some p)
      × (0 < occurrences ps p)
      × (filterout_kernel hart (pcbs p) ≡ true)
      × (is_better m (pcbs p) ≡ true)
      × All
          (λ q.
            filterout_kernel hart (pcbs q) ≡ true
            → is_better (minimum_of (pcbs p)) (pcbs q) ≡ false)
          ps

-- The first task of the list is not taken.
Scanned-skip :
    (pcbs : ℕ → Pcb) (hart : ℕ) (m : Minimum) (selected : Option ℕ) (h : ℕ) (ps : List ℕ)
    (o : Option ℕ)
    → (filterout_kernel hart (pcbs h) ≡ true → is_better m (pcbs h) ≡ false)
    → Scanned pcbs hart m selected ps o
    → Scanned pcbs hart m selected (h ∷ ps) o
Scanned-skip pcbs hart m selected h ps o skip (inl (same, rest)) = inl (same, (skip, rest))
Scanned-skip pcbs hart m selected h ps o skip (inr (p, is, in_list, passes, better, rest)) = inr (
  p,
  is,
  omega arith,
  passes,
  better,
  (
    (λ f.
        before_least (pcbs p).task_id m.min_task_id (pcbs h).task_id (normalized_cnt (pcbs p))
          m.min_slice_cnt (normalized_cnt (pcbs h)) better (skip f)),
    rest,
  ),
)

-- It is taken.
Scanned-taken :
    (pcbs : ℕ → Pcb) (hart : ℕ) (m : Minimum) (selected : Option ℕ) (h : ℕ) (ps : List ℕ)
    (o : Option ℕ)
    → filterout_kernel hart (pcbs h) ≡ true
    → is_better m (pcbs h) ≡ true
    → Scanned pcbs hart (minimum_of (pcbs h)) (some h) ps o
    → Scanned pcbs hart m selected (h ∷ ps) o
Scanned-taken pcbs hart m selected h ps o pass taken (inl (same, rest)) = inr (
  h,
  same,
  rw (==_refl h) (omega arith),
  pass,
  taken,
  ((λ f. before_irrefl (pcbs h).task_id (normalized_cnt (pcbs h))), rest),
)
Scanned-taken pcbs hart m selected h ps o pass taken (inr (p, is, in_list, passes, better, rest)) =
    inr (
      p,
      is,
      omega arith,
      passes,
      before_trans (pcbs p).task_id (pcbs h).task_id m.min_task_id (normalized_cnt (pcbs p))
          (normalized_cnt (pcbs h)) m.min_slice_cnt better taken,
      (
        (λ f.
            before_least (pcbs p).task_id (pcbs h).task_id (pcbs h).task_id
              (normalized_cnt (pcbs p)) (normalized_cnt (pcbs h)) (normalized_cnt (pcbs h)) better
              (before_irrefl (pcbs h).task_id (normalized_cnt (pcbs h)))),
        rest,
      ),
    )

-- The three steps of the scan.
pick_by_consumption_off :
    (pcbs : ℕ → Pcb) (hart : ℕ) (m : Minimum) (selected : Option ℕ) (h : ℕ) (ps : List ℕ)
    → filterout_kernel hart (pcbs h) ≡ false
    → pick_by_consumption pcbs hart m selected (h ∷ ps)
      ≡ pick_by_consumption pcbs hart m selected ps
unfolding pick_by_consumption
pick_by_consumption_off pcbs hart m selected h ps off = rw off refl

pick_by_consumption_worse :
    (pcbs : ℕ → Pcb) (hart : ℕ) (m : Minimum) (selected : Option ℕ) (h : ℕ) (ps : List ℕ)
    → filterout_kernel hart (pcbs h) ≡ true
    → is_better m (pcbs h) ≡ false
    → pick_by_consumption pcbs hart m selected (h ∷ ps)
      ≡ pick_by_consumption pcbs hart m selected ps
unfolding pick_by_consumption
pick_by_consumption_worse pcbs hart m selected h ps on worse = rw (on, worse) refl

pick_by_consumption_taken :
    (pcbs : ℕ → Pcb) (hart : ℕ) (m : Minimum) (selected : Option ℕ) (h : ℕ) (ps : List ℕ)
    → filterout_kernel hart (pcbs h) ≡ true
    → is_better m (pcbs h) ≡ true
    → pick_by_consumption pcbs hart m selected (h ∷ ps)
      ≡ pick_by_consumption pcbs hart (minimum_of (pcbs h)) (some h) ps
unfolding pick_by_consumption
pick_by_consumption_taken pcbs hart m selected h ps on taken = rw (on, taken) refl

pick_by_consumption-Scanned :
    (pcbs : ℕ → Pcb) (hart : ℕ) (m : Minimum) (selected : Option ℕ) (ps : List ℕ)
    → Scanned pcbs hart m selected ps (pick_by_consumption pcbs hart m selected ps)
unfolding pick_by_consumption
pick_by_consumption-Scanned pcbs hart m selected [] = inl (refl, tt)
pick_by_consumption-Scanned pcbs hart m selected (h ∷ ps) =
    let rest = pick_by_consumption-Scanned pcbs hart m selected ps in
    let after = pick_by_consumption-Scanned pcbs hart (minimum_of (pcbs h)) (some h) ps in
    let skip =
      Scanned-skip pcbs hart m selected h ps (pick_by_consumption pcbs hart m selected ps) in
    elim (Bool-cases (filterout_kernel hart (pcbs h))) [
      | inr off ↦
          subst (Scanned pcbs hart m selected (h ∷ ps))
            (sym (pick_by_consumption_off pcbs hart m selected h ps off))
            (skip (λ f. absurd f off) rest)
      | inl on ↦ elim (Bool-cases (is_better m (pcbs h))) [
        | inr worse ↦
            subst (Scanned pcbs hart m selected (h ∷ ps))
              (sym (pick_by_consumption_worse pcbs hart m selected h ps on worse))
              (skip (λ f. worse) rest)
        | inl taken ↦
            subst (Scanned pcbs hart m selected (h ∷ ps))
              (sym (pick_by_consumption_taken pcbs hart m selected h ps on taken))
              (Scanned-taken pcbs hart m selected h ps
                (pick_by_consumption pcbs hart (minimum_of (pcbs h)) (some h) ps) on taken after)
      ]
    ]
  where
    absurd : {b c : Bool} → b ≡ true → b ≡ false → c ≡ false
    absurd on off = ground arith

-- The tasks of a list that are not the kernel's and may run on the processor.
abbrev pub allowed : (ℕ → Pcb) → ℕ → List ℕ → List ℕ
allowed pcbs hart [] = []
allowed pcbs hart (q ∷ qs) =
    if filterout_kernel hart (pcbs q) then q ∷ allowed pcbs hart qs else allowed pcbs hart qs

-- Not after the other: a smaller task number, or the same and no more consumption.
abbrev pub AtMost : Pcb → Pcb → Type 0
AtMost a b =
    a.task_id < b.task_id
    ⊎ (a.task_id ≡ b.task_id) × (ltb_ℤ (normalized_cnt b) (normalized_cnt a) ≡ false)

AtMost-is_better : (a b : Pcb) → is_better (minimum_of a) b ≡ false → AtMost a b
AtMost-is_better a b = ground arith

All-allowed :
    (pcbs : ℕ → Pcb) (hart p : ℕ) (qs : List ℕ)
    → All
        (λ q.
          filterout_kernel hart (pcbs q) ≡ true → is_better (minimum_of (pcbs p)) (pcbs q) ≡ false)
        qs
    → All (λ q. AtMost (pcbs p) (pcbs q)) (allowed pcbs hart qs)
All-allowed pcbs hart p [] all = tt
All-allowed pcbs hart p (q ∷ qs) (h, all) = elim (Bool-cases (filterout_kernel hart (pcbs q))) [
  | inl on ↦ rw on (AtMost-is_better (pcbs p) (pcbs q) (h on), All-allowed pcbs hart p qs all)
  | inr off ↦ rw off (All-allowed pcbs hart p qs all)
]

occurrences-allowed :
    (pcbs : ℕ → Pcb) (hart p : ℕ) (qs : List ℕ)
    → filterout_kernel hart (pcbs p) ≡ true
    → occurrences (allowed pcbs hart qs) p ≡ occurrences qs p
occurrences-allowed pcbs hart p [] on = refl
occurrences-allowed pcbs hart p (q ∷ qs) on =
    let rest = occurrences-allowed pcbs hart p qs on in
    elim (Bool-cases (filterout_kernel hart (pcbs q))) [
      | inl on_q ↦ rw on_q (ap (λ n. (if q == p then 1 else 0) + n) rest)
      | inr off ↦
          rw
            (
              off,
              ==_ne q p (λ e.
                  ground (arith, subst (λ x. filterout_kernel hart (pcbs x) ≡ false) e off, on)),
            )
            (omega (arith, rest))
    ]

-- A task that is allowed and not beaten by the first minimum is in the way of an empty choice.
none_better :
    (pcbs : ℕ → Pcb) (hart q : ℕ) (qs : List ℕ)
    → 0 < occurrences (allowed pcbs hart qs) q
    → (pcbs q).task_id < 0x7f7f7f7f
    → All
        (λ x.
          filterout_kernel hart (pcbs x) ≡ true
          → is_better update_by_consumption_init (pcbs x) ≡ false)
        qs
    → ⊥
none_better pcbs hart q [] some_in bound all = ground arith
none_better pcbs hart q (x ∷ qs) some_in bound (h, all) =
    elim (Bool-cases (filterout_kernel hart (pcbs x))) [
      | inr off ↦
          none_better pcbs hart q qs (subst (λ l. 0 < occurrences l q) (rw off refl) some_in) bound
            all
      | inl on ↦ elim (ℕ_discrete x q) [
        | yes e ↦ ground (
          arith,
          subst (λ y. is_better update_by_consumption_init (pcbs y) ≡ false) e (h on),
          bound,
        )
        | no ne ↦ none_better pcbs hart q qs (smaller on (==_ne x q ne) some_in) bound all
      ]
    ]
  where
    smaller :
        filterout_kernel hart (pcbs x) ≡ true
        → (x == q) ≡ false
        → 0 < occurrences (allowed pcbs hart (x ∷ qs)) q
        → 0 < occurrences (allowed pcbs hart qs) q
    smaller on ne some_in = ground (arith, on, ne, some_in)

-- When an allowed task of the ready queue has a task number below the first minimum, the scan gives an
-- allowed task of the queue, and no allowed task has a smaller task number, or the same and a smaller
-- normalized count.
pub pick_by_consumption-AtMost :
    (pcbs : ℕ → Pcb) (hart q : ℕ) (ready : List ℕ)
    → 0 < occurrences (allowed pcbs hart ready) q
    → (pcbs q).task_id < 0x7f7f7f7f
    → (p : ℕ) × (pick_by_consumption pcbs hart update_by_consumption_init none ready ≡ some p)
      × (0 < occurrences (allowed pcbs hart ready) p)
      × All (λ r. AtMost (pcbs p) (pcbs r)) (allowed pcbs hart ready)
pick_by_consumption-AtMost pcbs hart q ready some_in bound =
    elim (pick_by_consumption-Scanned pcbs hart update_by_consumption_init none ready) [
      | inl (same, all) ↦ elim (none_better pcbs hart q ready some_in bound all) [ ]
      | inr (p, is, in_list, passes, better, all) ↦ (
        p,
        is,
        subst (λ n. 0 < n) (sym (occurrences-allowed pcbs hart p ready passes)) in_list,
        All-allowed pcbs hart p ready all,
      )
    ]

-- What the scan gives is an allowed task of the queue.
pub pick_by_consumption_in :
    (pcbs : ℕ → Pcb) (hart : ℕ) (ready : List ℕ)
    → (pick_by_consumption pcbs hart update_by_consumption_init none ready ≡ none)
      ⊎ (p : ℕ) × (pick_by_consumption pcbs hart update_by_consumption_init none ready ≡ some p)
        × (0 < occurrences ready p)
        × (filterout_kernel hart (pcbs p) ≡ true)
pick_by_consumption_in pcbs hart ready =
    elim (pick_by_consumption-Scanned pcbs hart update_by_consumption_init none ready) [
      | inl (same, all) ↦ inl same
      | inr (p, is, in_list, passes, better, all) ↦ inr (p, is, in_list, passes)
    ]
