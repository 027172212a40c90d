-- ===== src/Examples/Pages.antt =====
-- A memory with a directory, page 1, its tables, pages 2, 3 and 4, and page 7 mapped at 0x5000.
use raspberry_pi_3_jos.Prelude.{
  ℕ, suc, ◌+◌, ◌*◌, ◌-◌, ◌^◌, ◌≡◌, ◌<◌, ◌≤◌, refl, sym, ap, ◌∙◌, true, some, List, [], ◌∷◌, arith,
  ◌==◌, leb, if◌then◌else◌, bit_or, Bool-cases, inl, inr,
}
use raspberry_pi_3_jos.Mmu.{kaddr, npage, pgx, pdx, pmx, ptx, pte_addr, is_valid, page2pa, page2kva}
use raspberry_pi_3_jos.Mmu.Fields.{
  pte_addr-eq, pgx-eq, pdx-eq, pmx-eq, kernel_half, page2kva-eq, is_valid-eq,
}
use raspberry_pi_3_jos.Pmap.{Pmap, entry_perm, used_index, page_init, page_insert}
use raspberry_pi_3_jos.Pmap.Alloc.{IsAlloc, page_init-IsAlloc, count_down}
use raspberry_pi_3_jos.Pmap.Tables.{word, Names, IsPaged, IsTree, page2pa-injective}
use raspberry_pi_3_jos.Pmap.Walk.{Leads}
use raspberry_pi_3_jos.Pmap.Maps.{Maps}
use raspberry_pi_3_jos.Pmap.Insert.{Inserted, page_insert-page_lookup}
use raspberry_pi_3_jos.Examples.Queues.{blank, three, three-IsQueue}

abbrev pub level : ℕ → ℕ
level p = if leb p 4 then p else 0

abbrev top : ℕ
top = kernel_half

-- Entry 0 of the pages 1, 2 and 3 names the next page, and entry 5 of page 4 maps page 7.
abbrev pub memory : ℕ → ℕ
memory a =
    if a == top + 0x1000
    then 0x2003
    else if a == top + 0x2000
    then 0x3003
    else if a == top + 0x3000
    then 0x4003
    else if a == top + 0x4028
    then 0x7743
    else 0

abbrev refs : ℕ → ℕ
refs p = if leb p 4 then 1 else if p == 7 then 1 else 0

abbrev pub state : Pmap
state = record { mem = memory; pp_ref = refs; page_free_list = three }

abbrev pub free_pages : List ℕ
free_pages = 10 ∷ 9 ∷ 8 ∷ []

memory-at :
    (p i : ℕ)
    → 1 ≤ p
    → p ≤ 3
    → i < 512
    → memory (word p i) ≡ (if i == 0 then (p + 1) * 4096 + 3 else 0)
memory-at p i lo hi small = let at = page2kva-eq p (omega arith) in ground (arith, at)

state-IsAlloc : IsAlloc state free_pages
state-IsAlloc = record { queue = three-IsQueue; bounds = omega arith; unused = omega arith }

entry-target : (q : ℕ) → q < 2 ^ 28 → pte_addr (q * 4096 + 3) ≡ page2pa q
unfolding page2pa
entry-target q h = omega (arith, pte_addr-eq (q * 4096 + 3))

state-entries :
    (p i : ℕ)
    → 1 ≤ p
    → p ≤ 3
    → i < 512
    → is_valid (memory (word p i)) ≡ true
    → (q : ℕ) × (pte_addr (memory (word p i)) ≡ page2pa q) × (level q ≡ suc p)
state-entries p i lo hi small valid = elim (Bool-cases (i == 0)) [
  | inl e ↦ (
    p + 1,
    ap pte_addr (memory-at p i lo hi small ∙ ground (arith, e))
        ∙ entry-target (p + 1) (omega arith),
    ground arith,
  )
  | inr e ↦
      absurd (ground (arith, sym valid ∙ ap is_valid (memory-at p i lo hi small), is_valid-eq 0))
]

pub state-IsPaged : IsPaged state level free_pages
state-IsPaged = record {
  alloc = record { queue = three-IsQueue; bounds = omega arith };
  tables = λ p h. ground arith;
  free = λ x h. ground arith;
  entries = λ p i lo hi small valid.
      let same : level p ≡ p = ground arith in
      rw same (state-entries p i (ground arith) (ground arith) small valid);
}

state-Names : (p : ℕ) → 1 ≤ p → p ≤ 3 → Names memory p 0 (p + 1)
state-Names p lo hi =
    let at = memory-at p 0 lo hi (omega arith) in
    record {
      valid = ap is_valid at ∙ is_valid-eq ((p + 1) * 4096 + 3) ∙ ground arith;
      target = ap pte_addr at ∙ entry-target (p + 1) (omega arith);
    }

Names-next : (p i q : ℕ) → 1 ≤ p → p ≤ 3 → i < 512 → Names memory p i q → (i ≡ 0) × (q ≡ p + 1)
Names-next p i q lo hi small n = elim (Bool-cases (i == 0)) [
  | inl e ↦
      let at : memory (word p i) ≡ (p + 1) * 4096 + 3 =
        memory-at p i lo hi small ∙ ground (arith, e) in
      (
        ground arith,
        page2pa-injective q (p + 1)
            (sym n.target ∙ ap pte_addr at ∙ entry-target (p + 1) (omega arith)),
      )
  | inr e ↦
      absurd (ground (arith, sym n.valid ∙ ap is_valid (memory-at p i lo hi small), is_valid-eq 0))
]

pub state-IsTree : IsTree memory level
state-IsTree p i p' i' q a b a' b' h h' n n' =
    let one = Names-next p i q (ground arith) (ground arith) h n in
    let two = Names-next p' i' q (ground arith) (ground arith) h' n' in
    (omega (arith, one, two), omega (arith, one, two))

zero_indices : (va : ℕ) → va < 2 ^ 21 → (pgx va ≡ 0) × (pdx va ≡ 0) × (pmx va ≡ 0)
zero_indices va h = (omega (arith, pgx-eq va), omega (arith, pdx-eq va), omega (arith, pmx-eq va))

state-Leads : (va : ℕ) → va < 2 ^ 21 → Leads memory level 1 va
state-Leads va h =
    let at = zero_indices va h in
    record {
      second = 2;
      third = 3;
      table = 4;
      first_names = rw (at.0) (state-Names 1 (omega arith) (omega arith));
      second_names = rw (at.1) (state-Names 2 (omega arith) (omega arith));
      third_names = rw (at.2) (state-Names 3 (omega arith) (omega arith));
      second_level = refl;
      third_level = refl;
      table_level = refl;
    }

mapped : memory (word 4 (ptx 0x5000)) ≡ bit_or (page2pa 7) 0x743
unfolding ptx page2pa page2kva kaddr
mapped = refl

pub state-Maps : Maps memory level 1 0x5000 7 (entry_perm 0x40)
unfolding state-Leads entry_perm
state-Maps = record { leads = state-Leads 0x5000 (omega arith); entry = mapped }

fresh : Pmap
fresh = record { mem = memory; pp_ref = λ _. 0; page_free_list = blank }

page_init_example : IsAlloc (page_init fresh) (count_down (npage - used_index) used_index [])
page_init_example = page_init-IsAlloc fresh (λ x h. unfold fresh in refl)

page_insert-page_lookup_example :
    (t : Pmap) × (page_insert (page2pa 1) 7 0x4020_3000 0x40 state ≡ some (tt, t))
    × Inserted state level free_pages 1 7 0x4020_3000 0x40 t
page_insert-page_lookup_example =
    page_insert-page_lookup state level free_pages 1 7 0x4020_3000 0x40 state-IsPaged refl
      (omega arith) (omega arith) (omega arith)
