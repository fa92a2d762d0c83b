-- ===== src/Mm/Pgtable/Fields.antt =====
-- The fields of an entry are independent, and the addresses are translated back and forth.
use ucas_oslab.Base.{
  ℕ, ◌+◌, ◌-◌, ◌*◌, ◌/◌, ◌%◌, ◌^◌, ◌≤◌, ◌<◌, ◌≡◌, refl, false, arith, inl, inr, Bool-cases, ==_iff,
}
use ucas_oslab.Base.Run.{ok, ◌>>=◌}
use ucas_oslab.Mm.Pgtable.{
  get_pfn, set_pfn, get_vpn, kva2pa, pa2kva, pa_bottom, pa_top, get_attribute, clear_attribute,
  is_leaf, page_accessed,
}

-- `set_pfn` of a frame number below 2^54 sets the frame number, keeps the ten bits of attributes, and
-- leaves an entry.
pub get_pfn-set_pfn :
    (entry pfn : ℕ)
    → pfn < 2 ^ 54
    → (get_pfn (set_pfn entry pfn) ≡ pfn)
      × (set_pfn entry pfn % 2 ^ 10 ≡ entry % 2 ^ 10)
      × (set_pfn entry pfn < 2 ^ 64)
unfolding get_pfn set_pfn
get_pfn-set_pfn entry pfn h = (omega arith, omega arith, omega arith)

-- The three indices and the offset make the low 39 bits of an address again.
pub get_vpn_lem :
    (va : ℕ)
    → (get_vpn va).0 * 2 ^ 30 + (get_vpn va).1 * 2 ^ 21 + (get_vpn va).2 * 2 ^ 12 + va % 2 ^ 12
      ≡ va % 2 ^ 39
unfolding get_vpn
get_vpn_lem va = omega arith

-- The kernel's address of a physical address of the memory is translated back to it.
pub kva2pa-pa2kva : (pa : ℕ) → pa_bottom ≤ pa → pa < pa_top → (pa2kva pa >>= kva2pa) ≡ ok pa
unfolding kva2pa pa2kva
kva2pa-pa2kva pa low high = ground arith

-- Clearing the accessed bit clears it, and whether the entry points to a page stays.
pub clear_accessed :
    (entry : ℕ)
    → (get_attribute (clear_attribute entry page_accessed) page_accessed ≡ false)
      × (is_leaf (clear_attribute entry page_accessed) ≡ is_leaf entry)
clear_accessed entry = elim (Bool-cases (get_attribute entry page_accessed)) [
  | inr off ↦ rw off (off, refl)
  | inl on ↦
      let bit : entry / 2 ^ 6 % 2 ≡ 1 = (==_iff (entry / 2 ^ 6 % 2) 1).0 on in
      let exec : (entry - 2 ^ 6) / 2 ^ 3 % 2 ≡ entry / 2 ^ 3 % 2 = omega arith in
      let read : (entry - 2 ^ 6) / 2 ^ 1 % 2 ≡ entry / 2 ^ 1 % 2 = omega arith in
      let write : (entry - 2 ^ 6) / 2 ^ 2 % 2 ≡ entry / 2 ^ 2 % 2 = omega arith in
      let gone : (entry - 2 ^ 6) / 2 ^ 6 % 2 ≡ 0 = omega arith in
      rw on (rw gone refl, rw (exec, read, write) refl)
]
