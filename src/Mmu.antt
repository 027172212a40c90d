-- ===== src/Mmu.antt =====
-- The address arithmetic of OS/include/mmu.h and of the inline functions of OS/include/pmap.h.
-- A u_long is a number below 2 ^ 64. A `struct Page *` is the index of the page in `pages`, so
-- `page2ppn` is that index.
pub mod Fields
use raspberry_pi_3_jos.Prelude.{
  ℕ, ◌+◌, ◌*◌, ◌/◌, ◌^◌, Bool, not, Option, none, some, bit_and, bit_or, ◌==◌, ltb, if◌then◌else◌,
}

abbrev pub by2pg : ℕ
by2pg = 4096

-- MAXPA / BY2PG
abbrev pub npage : ℕ
npage = 0x20000

abbrev pub pte_v : ℕ
pte_v = 3

abbrev pub attrib_ap_rw_all : ℕ
attrib_ap_rw_all = 0x40

abbrev pub attrib_ap_ro_all : ℕ
attrib_ap_ro_all = 0xc0

abbrev pub attrindx_normal : ℕ
attrindx_normal = 0

abbrev pub attrib_sh_inner_shareable : ℕ
attrib_sh_inner_shareable = 0x300

abbrev pub af : ℕ
af = 0x400

abbrev pub utop : ℕ
utop = 0xffff_ffff

abbrev pub ustacktop : ℕ
ustacktop = 0x0100_0000

-- PGX, PDX, PMX, PTX: the indices of an address into the four levels of tables.
unfoldable pub pgx : ℕ → ℕ
pgx va = bit_and (va / 2 ^ 39) 0x01

unfoldable pub pdx : ℕ → ℕ
pdx va = bit_and (va / 2 ^ 30) 0x01ff

unfoldable pub pmx : ℕ → ℕ
pmx va = bit_and (va / 2 ^ 21) 0x01ff

unfoldable pub ptx : ℕ → ℕ
ptx va = bit_and (va / 2 ^ 12) 0x01ff

unfoldable pub pte_addr : ℕ → ℕ
pte_addr pte = bit_and pte 0xff_ffff_f000

unfoldable pub ppn : ℕ → ℕ
ppn va = va / 2 ^ 12

unfoldable pub kaddr : ℕ → ℕ
kaddr pa = bit_or pa 0xffff_ff00_0000_0000

-- `entry & PTE_V`, as a test.
unfoldable pub is_valid : ℕ → Bool
is_valid entry = not (bit_and entry pte_v == 0)

unfoldable pub page2pa : ℕ → ℕ
page2pa pp = pp * 2 ^ 12

unfoldable pub page2kva : ℕ → ℕ
unfolding kaddr
page2kva pp = kaddr (pp * 2 ^ 12)

-- The page of a physical address; `none` where the code panics.
unfoldable pub pa2page : ℕ → Option ℕ
unfolding ppn
pa2page pa = if ltb (ppn pa) npage then some (ppn pa) else none

unfoldable pub pten2va : ℕ → ℕ → ℕ → ℕ → ℕ
pten2va pten0 pten1 pten2 pten3 =
    bit_or (bit_or (bit_or (pten0 * 2 ^ 39) (pten1 * 2 ^ 30)) (pten2 * 2 ^ 21)) (pten3 * 2 ^ 12)
