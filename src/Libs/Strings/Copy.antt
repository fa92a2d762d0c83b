-- ===== src/Libs/Strings/Copy.antt =====
-- What the copies write, and that a string is copied as its bytes with the end.
use ucas_oslab.Base.{
  ℕ, zero, suc, ◌+◌, ◌-◌, ◌≤◌, ◌<◌, ◌≡◌, refl, sym, ap, ◌∙◌, ◌⊎◌, inl, inr, false, some, arith,
  if◌then◌else◌, Bool-cases, ==_ne, leb, ltb, ◌&&◌,
}
use ucas_oslab.Base.Update.{update, update_self}
use ucas_oslab.Libs.Strings.{Memory, memcpy, strcpy}

-- Two ranges of `len` bytes have no byte in common.
abbrev pub Disjoint : ℕ → ℕ → ℕ → Type 0
Disjoint dest src len = (dest + len ≤ src) ⊎ (src + len ≤ dest)

update_away : (mem : Memory) (a b v : ℕ) → (a ≡ b → ⊥) → update mem a v b ≡ mem b
update_away mem a b v ne = rw (==_ne a b ne) refl

memcpy_away :
    (mem : Memory) (dest src len a : ℕ)
    → (a < dest) ⊎ (dest + len ≤ a)
    → memcpy mem dest src len a ≡ mem a
unfolding memcpy
memcpy_away mem dest src zero a h = refl
memcpy_away mem dest src (suc len) a (inl h) =
    memcpy_away (update mem dest (mem src)) (dest + 1) (src + 1) len a (inl (omega arith))
    ∙ update_away mem dest a (mem src) (λ e. omega arith)
memcpy_away mem dest src (suc len) a (inr h) =
    memcpy_away (update mem dest (mem src)) (dest + 1) (src + 1) len a (inr (omega arith))
    ∙ update_away mem dest a (mem src) (λ e. omega arith)

memcpy_at :
    (mem : Memory) (dest src len i : ℕ)
    → Disjoint dest src len
    → i < len
    → memcpy mem dest src len (dest + i) ≡ mem (src + i)
unfolding memcpy
memcpy_at mem dest src zero i d h = elim h [ ]
memcpy_at mem dest src (suc len) zero d h =
    let here : dest + 0 ≡ dest = omega arith in
    let from : src ≡ src + 0 = omega arith in
    memcpy_away (update mem dest (mem src)) (dest + 1) (src + 1) len (dest + 0) (inl (omega arith))
    ∙ ap (update mem dest (mem src)) here
    ∙ update_self mem dest (mem src)
    ∙ ap mem from
memcpy_at mem dest src (suc len) (suc i) d h =
    let now = update mem dest (mem src) in
    let to : dest + suc i ≡ dest + 1 + i = omega arith in
    let from : src + 1 + i ≡ src + suc i = omega arith in
    ap (memcpy now (dest + 1) (src + 1) len) to
    ∙ memcpy_at now (dest + 1) (src + 1) len i (nearer dest src len d) (omega arith)
    ∙ update_away mem dest (src + 1 + i) (mem src) (λ e. apart dest src len i d (omega arith) e)
    ∙ ap mem from
  where
    nearer : (dest src len : ℕ) → Disjoint dest src (suc len) → Disjoint (dest + 1) (src + 1) len
    nearer dest src len (inl h) = inl (omega arith)
    nearer dest src len (inr h) = inr (omega arith)

    apart : (dest src len i : ℕ) → Disjoint dest src (suc len) → i < len → dest ≡ src + 1 + i → ⊥
    apart dest src len i (inl h) k e = omega arith
    apart dest src len i (inr h) k e = omega arith

-- `memcpy` between ranges that have no byte in common copies each byte and changes no byte outside the
-- destination.
pub memcpy_lem :
    (mem : Memory) (dest src len a : ℕ)
    → Disjoint dest src len
    → memcpy mem dest src len a
      ≡ (if leb dest a && ltb a (dest + len) then mem (src + (a - dest)) else mem a)
memcpy_lem mem dest src len a d = elim (Bool-cases (leb dest a && ltb a (dest + len))) [
  | inl inside ↦
      let at : dest + (a - dest) ≡ a = ground arith in
      let low : a - dest < len = ground arith in
      rw inside
        (ap (memcpy mem dest src len) (sym at) ∙ memcpy_at mem dest src len (a - dest) d low)
  | inr outside ↦ rw outside (memcpy_away mem dest src len a (out dest len a outside))
]
  where
    out :
        (dest len a : ℕ)
        → (leb dest a && ltb a (dest + len)) ≡ false
        → (a < dest) ⊎ (dest + len ≤ a)
    out dest len a h = elim (Bool-cases (leb dest a)) [
      | inl on ↦ inr (ground arith)
      | inr off ↦ inl (ground arith)
    ]

-- The string at `src` has its end after `n` bytes.
abbrev pub EndsAt : Memory → ℕ → ℕ → Type 0
EndsAt mem src zero = mem src ≡ 0
EndsAt mem src (suc n) = (mem src ≡ 0 → ⊥) × EndsAt mem (src + 1) n

EndsAt-update :
    (mem : Memory) (dest src n v : ℕ)
    → (dest < src) ⊎ (src + n < dest)
    → EndsAt mem src n
    → EndsAt (update mem dest v) src n
EndsAt-update mem dest src zero v d e = update_away mem dest src v (away dest src d) ∙ e
  where
    away : (dest src : ℕ) → (dest < src) ⊎ (src + 0 < dest) → dest ≡ src → ⊥
    away dest src (inl h) e = omega arith
    away dest src (inr h) e = omega arith
EndsAt-update mem dest src (suc n) v d (more, rest) = (
  λ e. more (sym (update_away mem dest src v (away dest src n d)) ∙ e),
  EndsAt-update mem dest (src + 1) n v (next dest src n d) rest,
)
  where
    away : (dest src n : ℕ) → (dest < src) ⊎ (src + suc n < dest) → dest ≡ src → ⊥
    away dest src n (inl h) e = omega arith
    away dest src n (inr h) e = omega arith

    next :
        (dest src n : ℕ)
        → (dest < src) ⊎ (src + suc n < dest)
        → (dest < src + 1) ⊎ (src + 1 + n < dest)
    next dest src n (inl h) = inl (omega arith)
    next dest src n (inr h) = inr (omega arith)

-- With fuel above the string's length, and a destination that has no byte in common with the string,
-- `strcpy` ends, and does what `memcpy` of the string with its end does.
pub strcpy-memcpy :
    (fuel : ℕ) (mem : Memory) (dest src n : ℕ)
    → n < fuel
    → Disjoint dest src (suc n)
    → EndsAt mem src n
    → strcpy fuel mem dest src ≡ some (memcpy mem dest src (suc n))
unfolding strcpy memcpy
strcpy-memcpy zero mem dest src n h d e = elim h [ ]
strcpy-memcpy (suc fuel) mem dest src zero h d e = rw e refl
strcpy-memcpy (suc fuel) mem dest src (suc n) h d (more, rest) =
    let now = update mem dest (mem src) in
    rw (==_ne (mem src) 0 more) (
      strcpy-memcpy fuel now (dest + 1) (src + 1) n (omega arith) (nearer dest src n d)
        (EndsAt-update mem dest (src + 1) n (mem src) (apart dest src n d) rest))
  where
    nearer :
        (dest src n : ℕ) → Disjoint dest src (suc (suc n)) → Disjoint (dest + 1) (src + 1) (suc n)
    nearer dest src n (inl h) = inl (omega arith)
    nearer dest src n (inr h) = inr (omega arith)

    apart :
        (dest src n : ℕ) → Disjoint dest src (suc (suc n)) → (dest < src + 1) ⊎ (src + 1 + n < dest)
    apart dest src n (inl h) = inl (omega arith)
    apart dest src n (inr h) = inr (omega arith)
