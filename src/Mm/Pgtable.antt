-- ===== src/Mm/Pgtable.antt =====
-- arch/riscv/include/pgtable.h: page table entries and addresses. An attribute is the place of its bit
-- in the entry; an entry is a number below 2^64.
pub mod Fields
use ucas_oslab.Base.{
  ℕ, zero, suc, ◌+◌, ◌-◌, ◌*◌, ◌/◌, ◌%◌, ◌^◌, ◌==◌, ltb, leb, Bool, true, false, not, ◌||◌, ◌&&◌,
  if◌then◌else◌,
}
use ucas_oslab.Base.Run.{Run, ok, halt}

-- The places of _PAGE_PRESENT, _PAGE_READ, _PAGE_WRITE, _PAGE_EXEC, _PAGE_USER, _PAGE_ACCESSED,
-- _PAGE_DIRTY and _PAGE_SOFT.
abbrev pub page_present : ℕ
page_present = 0

abbrev pub page_read : ℕ
page_read = 1

abbrev pub page_write : ℕ
page_write = 2

abbrev pub page_exec : ℕ
page_exec = 3

abbrev pub page_user : ℕ
page_user = 4

abbrev pub page_accessed : ℕ
page_accessed = 6

abbrev pub page_dirty : ℕ
page_dirty = 7

abbrev pub page_soft : ℕ
page_soft = 8

-- Whether `get_attribute` of the one bit is not zero.
abbrev pub get_attribute : ℕ → ℕ → Bool
get_attribute entry attr = entry / 2 ^ attr % 2 == 1

abbrev pub set_attribute : ℕ → ℕ → ℕ
set_attribute entry attr = if get_attribute entry attr then entry else entry + 2 ^ attr

abbrev pub clear_attribute : ℕ → ℕ → ℕ
clear_attribute entry attr = if get_attribute entry attr then entry - 2 ^ attr else entry

-- The test of _PAGE_EXEC | _PAGE_READ | _PAGE_WRITE, by which an entry that points to a page is told from
-- one that points to a table.
abbrev pub is_leaf : ℕ → Bool
is_leaf entry =
    get_attribute entry page_exec
    || (get_attribute entry page_read || get_attribute entry page_write)

unfoldable pub get_pa : ℕ → ℕ
get_pa entry = entry / 2 ^ 10 * 2 ^ 12 % 2 ^ 64

unfoldable pub get_pfn : ℕ → ℕ
get_pfn entry = entry / 2 ^ 10

-- The low ten bits of the entry, and the frame number above them.
unfoldable pub set_pfn : ℕ → ℕ → ℕ
set_pfn entry pfn = entry % 2 ^ 10 + pfn * 2 ^ 10 % 2 ^ 64

unfoldable pub get_vpn : ℕ → ℕ × ℕ × ℕ
get_vpn va =
    let low = va % 2 ^ 39 in (low / 2 ^ 30 % 2 ^ 9, low / 2 ^ 21 % 2 ^ 9, low / 2 ^ 12 % 2 ^ 9)

-- The tag of kernel addresses has the bits from 38 on; PA_BOTTOM and PA_TOP bound the memory.
abbrev pub kernel_addr_tag : ℕ
kernel_addr_tag = 0xffffffc000000000

abbrev pub pa_bottom : ℕ
pa_bottom = 0x50000000

abbrev pub pa_top : ℕ
pa_top = 0x60000000

-- With the high bits equal to the tag, the exclusive or leaves the low ones.
unfoldable pub kva2pa : ℕ → Run ℕ
kva2pa kva = if kva / 2 ^ 38 * 2 ^ 38 == kernel_addr_tag then ok (kva % 2 ^ 38) else halt

-- The tag has no bit of an address below PA_TOP.
unfoldable pub pa2kva : ℕ → Run ℕ
pa2kva pa = if leb pa_bottom pa && ltb pa pa_top then ok (pa + kernel_addr_tag) else halt
