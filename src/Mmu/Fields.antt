-- ===== src/Mmu/Fields.antt =====
-- The fields of addresses and of table entries as arithmetic.
use raspberry_pi_3_jos.Prelude.{
  ℕ, ◌+◌, ◌*◌, ◌/◌, ◌%◌, ◌^◌, ◌<◌, ◌≡◌, sym, ◌∙◌, ap, true, not, some, arith, bit_or, ◌==◌, lt→ltb,
}
use raspberry_pi_3_jos.Prelude.Bits.{
  bit_and_low, bit_and_field, bit_or_add, bit_or_high, bit_or_three,
}
use raspberry_pi_3_jos.Mmu.{
  npage, pgx, pdx, pmx, ptx, pte_addr, kaddr, is_valid, page2pa, page2kva, pa2page,
}

-- The start of the kernel's half: 0xffffff << 40.
abbrev pub kernel_half : ℕ
kernel_half = 0xffff_ff00_0000_0000

pub pgx-eq : (va : ℕ) → pgx va ≡ va / 2 ^ 39 % 2
unfolding pgx
pgx-eq va = bit_and_low 1 (va / 2 ^ 39)

pub pdx-eq : (va : ℕ) → pdx va ≡ va / 2 ^ 30 % 512
unfolding pdx
pdx-eq va = bit_and_low 9 (va / 2 ^ 30)

pub pmx-eq : (va : ℕ) → pmx va ≡ va / 2 ^ 21 % 512
unfolding pmx
pmx-eq va = bit_and_low 9 (va / 2 ^ 21)

pub ptx-eq : (va : ℕ) → ptx va ≡ va / 2 ^ 12 % 512
unfolding ptx
ptx-eq va = bit_and_low 9 (va / 2 ^ 12)

pub pte_addr-eq : (e : ℕ) → pte_addr e ≡ e / 2 ^ 12 % 2 ^ 28 * 2 ^ 12
unfolding pte_addr
pte_addr-eq e = bit_and_field 28 12 e

-- A physical address below 2 ^ 40, and its kernel address again, have the same kernel address.
pub kaddr-eq : (pa : ℕ) → pa < 2 ^ 40 → kaddr pa ≡ kernel_half + pa
unfolding kaddr
kaddr-eq pa h =
    omega (arith, bit_or_high 40 0 0xff_ffff pa h, ap (λ (t : ℕ). bit_or t kernel_half) same)
  where
    same : 0 * 2 ^ 40 + pa ≡ pa
    same = omega arith

-- The kernel's half keeps its addresses.
pub kaddr_high : (x : ℕ) → x < 2 ^ 40 → kaddr (kernel_half + x) ≡ kernel_half + x
unfolding kaddr
kaddr_high x h = bit_or_high 40 0xff_ffff 0xff_ffff x h

pub kaddr-kaddr : (pa : ℕ) → pa < 2 ^ 40 → kaddr (kaddr pa) ≡ kaddr pa
kaddr-kaddr pa h = ap kaddr (kaddr-eq pa h) ∙ again ∙ sym (kaddr-eq pa h)
  where
    again : kaddr (kernel_half + pa) ≡ kernel_half + pa
    again = unfold kaddr in bit_or_high 40 0xff_ffff 0xff_ffff pa h

pub page2kva-eq : (p : ℕ) → p < 2 ^ 28 → page2kva p ≡ kernel_half + p * 4096
unfolding page2kva
page2kva-eq p h = kaddr-eq (p * 2 ^ 12) (omega arith)

pub is_valid-eq : (e : ℕ) → is_valid e ≡ not (e % 4 == 0)
unfolding is_valid
is_valid-eq e = ap (λ (t : ℕ). not (t == 0)) (bit_and_low 2 e)

-- An entry is the address of a page with attributes in the twelve low bits.
module _ (p r : ℕ) (small : p < 2 ^ 28) (attributes : r < 4096) where
  pub pte_addr-entry : pte_addr (bit_or (page2pa p) r) ≡ page2pa p
  unfolding page2pa
  pte_addr-entry = omega (arith, pte_addr-eq (bit_or (p * 2 ^ 12) r), bit_or_add 12 p r attributes)

  pub is_valid-entry : r % 4 ≡ 3 → is_valid (bit_or (page2pa p) r) ≡ true
  unfolding page2pa
  is_valid-entry h =
      is_valid-eq (bit_or (p * 2 ^ 12) r)
      ∙ ap (λ (t : ℕ). not (t == 0)) (bit_or_three (p * 2 ^ 12) r h)

pub pte_addr-page2pa : (p : ℕ) → p < 2 ^ 28 → pte_addr (page2pa p) ≡ page2pa p
unfolding page2pa
pte_addr-page2pa p h = omega (arith, pte_addr-eq (p * 2 ^ 12))

pub pa2page-page2pa : (p : ℕ) → p < npage → pa2page (page2pa p) ≡ some p
unfolding pa2page page2pa
pa2page-page2pa p h =
    let same : p * 2 ^ 12 / 2 ^ 12 ≡ p = omega arith in rw (same, lt→ltb p npage h)
