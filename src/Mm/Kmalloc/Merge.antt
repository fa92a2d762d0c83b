-- ===== src/Mm/Kmalloc/Merge.antt =====
-- `merge_block`: the free lists gain the freed block, at every address, however often it merges.
use native.Mathlib.Nat.{two-pow-succ, one-le-pow, add-sub_cancel_left}
use native.Mathlib.Decide.{ℕ_discrete}
use ucas_oslab.Base.{
  ℕ, zero, suc, ◌+◌, ◌-◌, ◌*◌, ◌%◌, ◌/◌, ◌≤◌, ◌<◌, ◌≡◌, refl, sym, ◌∙◌, ap, none, some, arith, inl,
  inr, Option-cases, List, ltb, true, false, if◌then◌else◌, All,
}
use ucas_oslab.Base.Bits.{flip, bit_xor-two_pow}
use ucas_oslab.Base.Update.{update, update_self}
use ucas_oslab.Mm.Kmalloc.{
  Pool, Header, order_size, order_index, min_order, max_order, pool_bytes, push_block, unlink,
  buddy_of, merge_loop, merge_block,
}
use ucas_oslab.Mm.Kmalloc.Cover.{
  in_block, count_in, covers, in_block_halves, covers-push_block, covers_change, count_in-unlink,
}
use ucas_oslab.Mm.Kmalloc.Valid.{
  IsBlock, Placed, SamePlace, Placed-push_block, All-update, All-unlink,
}

-- The buddy of the block at index `q` is the block at index `flip q`.
buddy_of-flip :
    (p : Pool) (order q : ℕ)
    → buddy_of p (p.base + q * order_size order) order ≡ p.base + flip q * order_size order
buddy_of-flip p order q =
    ap (λ (t : ℕ). p.base + t) (rw (add-sub_cancel_left) (bit_xor-two_pow order q))

-- A block and its buddy make up one block of twice the size, at half the index.
record Joined (base s q x y a : ℕ) : Type 0 where
  place : (if ltb y x then y else x) ≡ base + q / 2 * (s + s)
  whole : in_block x s a + in_block y s a ≡ in_block (if ltb y x then y else x) (s + s) a

Joined-even :
    (base s q h x y a : ℕ)
    → 0 < s
    → q ≡ h + h
    → x ≡ base + h * (s + s)
    → y ≡ x + s
    → Joined base s q x y a
Joined-even base s q h x y a s_pos e ex ey =
    let keep : (ltb y x) ≡ false = ground arith in
    let half : q / 2 ≡ h = omega arith in
    record { place = rw (keep, half) ex; whole = rw (keep, ey) (sym (in_block_halves x s s a)) }

Joined-odd :
    (base s q h x y a : ℕ)
    → 0 < s
    → q ≡ h + h + 1
    → y ≡ base + h * (s + s)
    → x ≡ y + s
    → Joined base s q x y a
Joined-odd base s q h x y a s_pos e ey ex =
    let swap : (ltb y x) ≡ true = ground arith in
    let half : q / 2 ≡ h = omega arith in
    record {
      place = rw (swap, half) ey;
      whole = rw swap (omega (arith, in_block_halves y s s a, ap (λ (t : ℕ). in_block t s a) ex));
    }

buddies-Joined :
    (base s q x y a : ℕ) → 0 < s → x ≡ base + q * s → y ≡ base + flip q * s → Joined base s q x y a
buddies-Joined base s q x y a s_pos ex ey = elim (ℕ_discrete (q % 2) 0) [
  | yes even ↦
      let e : q ≡ q / 2 + q / 2 = omega arith in
      let f : flip q ≡ q + 1 = ground arith in
      Joined-even base s q (q / 2) x y a s_pos e (omega (arith, ap (λ (t : ℕ). t * s) e))
        (omega (arith, ap (λ (t : ℕ). t * s) f))
  | no odd ↦
      let e : q ≡ q / 2 + q / 2 + 1 = omega arith in
      let f : flip q + 1 ≡ q = ground arith in
      Joined-odd base s q (q / 2) x y a s_pos e
        (omega (arith, ap (λ (t : ℕ). t * s) e, ap (λ (t : ℕ). t * s) f))
        (omega (arith, ap (λ (t : ℕ). t * s) f))
]

joined_within :
    (s q limit : ℕ) → q * s + s ≤ limit → flip q * s + s ≤ limit → q / 2 * (s + s) + (s + s) ≤ limit
joined_within s q limit h k = elim (ℕ_discrete (q % 2) 0) [
  | yes even ↦
      let e : flip q ≡ q / 2 + q / 2 + 1 = ground arith in omega (arith, ap (λ (t : ℕ). t * s) e)
  | no odd ↦ let e : q ≡ q / 2 + q / 2 + 1 = omega arith in omega (arith, ap (λ (t : ℕ). t * s) e)
]

-- `q` is `p` with the block at `addr` given back.
pub record Merged (p : Pool) (addr order : ℕ) (q : Pool) : Type 0 where
  pub cover : (a : ℕ) → covers q a ≡ covers p a + in_block addr (order_size order) a
  pub placed : Placed p.base q
  pub same : SamePlace p q

push_block-Merged :
    (p : Pool) (addr order : ℕ)
    → min_order ≤ order
    → order ≤ max_order
    → Placed p.base p
    → IsBlock p.base order addr
    → Merged p addr order (push_block p order addr)
unfolding push_block
push_block-Merged p addr order low high v w = record {
  cover = λ a. covers-push_block order a low high p addr;
  placed = Placed-push_block p.base order low p addr v w;
  same = record { base = refl; limit = refl; ready = refl };
}

-- One round: `r` is `p` less the buddy, and `m` the merged block, which the later rounds give back.
Merged-join :
    (p q : Pool) (addr order : ℕ) (rest : List ℕ) (h : ℕ → Header)
    → let buddy = buddy_of p addr order in
      let r = record p { free_lists = update p.free_lists (order_index order) rest; header = h } in
      let m = if ltb buddy addr then buddy else addr in
      min_order ≤ order
      → order < max_order
      → Placed p.base p
      → IsBlock p.base order addr
      → unlink buddy none (p.free_lists (order_index order)) p.header ≡ some (rest, h)
      → (Placed p.base r → IsBlock p.base (order + 1) m → Merged r m (order + 1) q)
      → Merged p addr order q
Merged-join p q addr order rest h low high v w e later = record {
  cover = λ a. omega (
    arith,
    done.cover a,
    (joined a).whole,
    ap (λ (t : ℕ). in_block m t a) twice,
    covers_change p r order a low (omega arith) (λ j ne. ground arith),
    count_in-unlink s buddy none (p.free_lists i) rest p.header h a e,
    ap (λ (ys : List ℕ). count_in s ys a) (update_self p.free_lists i rest),
  );
  placed = done.placed;
  same = record { base = done.same.base; limit = done.same.limit; ready = done.same.ready };
}
  where
    i : ℕ
    i = order_index order

    s : ℕ
    s = order_size order

    buddy : ℕ
    buddy = buddy_of p addr order

    m : ℕ
    m = if ltb buddy addr then buddy else addr

    r : Pool
    r = record p { free_lists = update p.free_lists i rest; header = h }

    back : i + min_order ≡ order
    back = omega arith

    twice : order_size (order + 1) ≡ s + s
    twice =
        omega
          (arith, two-pow-succ order, ap order_size {x = order + 1} {y = suc order} (omega arith))

    place : buddy ≡ p.base + flip w.index * s
    place = ap (λ x. buddy_of p x order) w.place ∙ buddy_of-flip p order w.index

    unlinked : All (IsBlock p.base (i + min_order)) rest × IsBlock p.base (i + min_order) buddy
    unlinked =
        All-unlink (IsBlock p.base (i + min_order)) buddy none (p.free_lists i) rest p.header h
          (v i) e

    b : IsBlock p.base order buddy
    b = rw back at (unlinked.1)

    joined : (a : ℕ) → Joined p.base s w.index addr buddy a
    joined a =
        buddies-Joined p.base s w.index addr buddy a (one-le-pow order 2 (omega arith)) w.place
          place

    fits : w.index / 2 * (s + s) + (s + s) ≤ pool_bytes
    fits = joined_within s w.index pool_bytes w.within (omega (arith, place, b.place, b.within))

    block : IsBlock p.base (order + 1) m
    block = record {
      index = w.index / 2;
      place = omega (arith, (joined 0).place, ap (λ (t : ℕ). w.index / 2 * t) twice);
      within = omega (arith, fits, twice, ap (λ (t : ℕ). w.index / 2 * t) twice);
    }

    done : Merged r m (order + 1) q
    done =
        later (All-update (λ j. IsBlock p.base (j + min_order)) p.free_lists i rest v unlinked.0)
          block

merge_loop-Merged :
    (n : ℕ) (p : Pool) (addr order : ℕ)
    → min_order ≤ order
    → order + n ≡ max_order
    → Placed p.base p
    → IsBlock p.base order addr
    → Merged p addr order (merge_loop n p addr order)
unfolding merge_loop
merge_loop-Merged zero p addr order low h v w = push_block-Merged p addr order low (omega arith) v w
merge_loop-Merged (suc n) p addr order low h v w =
    elim (Option-cases
      (unlink (buddy_of p addr order) none (p.free_lists (order_index order)) p.header)) [
        | inl alone ↦ rw (alone, merge_loop) (push_block-Merged p addr order low (omega arith) v w)
        | inr ((rest, g), got) ↦
            rw (got, merge_loop)
              (Merged-join p _ addr order rest g low (omega arith) v w got
                (λ v' w'. merge_loop-Merged n _ _ (order + 1) (omega arith) (omega arith) v' w'))
      ]

pub merge_block-Merged :
    (p : Pool) (addr order : ℕ)
    → min_order ≤ order
    → order ≤ max_order
    → Placed p.base p
    → IsBlock p.base order addr
    → Merged p addr order (merge_block p addr order)
unfolding merge_block
merge_block-Merged p addr order low high v w =
    merge_loop-Merged (max_order - order) p addr order low (omega arith) v w
