-- ===== src/Pmap/Leaf.antt =====
-- The last level: a write of an entry of a table of pages, and what a lookup reads there.
use raspberry_pi_3_jos.Prelude.{
  ℕ, ◌%◌, ◌^◌, ◌≤◌, ◌<◌, ◌≡◌, refl, sym, ap, ◌∙◌, false, Option, none, some, List, arith, bit_or,
  if◌then◌else◌,
}
use mathlib.Core.Option
use raspberry_pi_3_jos.Prelude.Bits.{bit_or-lt, bit_or_three, three_bit_or}
use raspberry_pi_3_jos.Queue.{update}
use raspberry_pi_3_jos.Mmu.{
  npage, pte_v, attrindx_normal, attrib_sh_inner_shareable, af, pgx, pdx, pmx, ptx, pte_addr,
  is_valid, page2pa, pa2page,
}
use raspberry_pi_3_jos.Mmu.Fields.{pte_addr-entry, is_valid-entry, pa2page-page2pa}
use raspberry_pi_3_jos.Pmap.{Pmap, entry_perm, read_entry, page_lookup}
use raspberry_pi_3_jos.Pmap.Tables.{word, word_apart, Names, IsPaged, IsTree}
use raspberry_pi_3_jos.Pmap.Walk.{Leads, pgdir_walk-Leads, pgx-lt, pdx-lt, pmx-lt}

-- PERM keeps within the twelve attribute bits and has both bits of PTE_V.
pub entry_perm-lt : (perm : ℕ) → perm < 4096 → entry_perm perm < 4096
unfolding entry_perm
entry_perm-lt perm h =
    bit_or-lt 12 _ af
      (bit_or-lt 12 _ attrib_sh_inner_shareable
        (bit_or-lt 12 _ attrindx_normal
          (bit_or-lt 12 (perm % 2 ^ 32) pte_v (omega arith) (omega arith)) (omega arith))
        (omega arith))
      (omega arith)

pub entry_perm_valid : (perm : ℕ) → entry_perm perm % 4 ≡ 3
unfolding entry_perm
entry_perm_valid perm = three_bit_or _ af (
    three_bit_or _ attrib_sh_inner_shareable
      (three_bit_or _ attrindx_normal (bit_or_three (perm % 2 ^ 32) pte_v refl)))

module _ {s : Pmap} {level : ℕ → ℕ} {xs : List ℕ} (v : IsPaged s level xs) (q i e : ℕ)
    (leaf : level q ≡ 4) (small : i < 512) where
  abbrev pub written : Pmap
  written = record s { mem = update s.mem (word q i) e }

  -- A word of a table above the last level is not the one that was written.
  written-away :
      (p j : ℕ) → 1 ≤ level p → level p ≤ 3 → j < 512 → written.mem (word p j) ≡ s.mem (word p j)
  written-away p j lo hi k = ground (
    arith,
    word_apart p q j i (v.tables p (omega arith)) (v.tables q (omega arith)) k small
        (λ same. omega (arith, ap level same)),
  )

  pub written-IsPaged : IsPaged written level xs
  written-IsPaged = record {
    alloc = record { queue = v.alloc.queue; bounds = v.alloc.bounds };
    tables = v.tables;
    free = v.free;
    entries = λ p j lo hi k valid.
        let same = written-away p j lo hi k in
        let old = v.entries p j lo hi k (rw same at valid) in (old.0, rw same old.1, old.2);
  }

  pub written-Names :
      (p j r : ℕ)
      → 1 ≤ level p
      → level p ≤ 3
      → j < 512
      → Names s.mem p j r
      → Names written.mem p j r
  written-Names p j r lo hi k n =
      let same = written-away p j lo hi k in
      record { valid = rw same n.valid; target = rw same n.target }

  -- Entries above the last level name what they named.
  pub written-IsTree : IsTree s.mem level → IsTree written.mem level
  written-IsTree tree a j a' j' r la ha lb hb k k' n n' =
      let same = written-away a j (ground arith) ha k in
      let same' = written-away a' j' (ground arith) hb k' in
      tree a j a' j' r la ha lb hb k k'
        (record { valid = rw same at n.valid; target = rw same at n.target })
        (record { valid = rw same' at n'.valid; target = rw same' at n'.target })

  unfoldable pub written-Leads :
      (p va : ℕ) → level p ≡ 1 → (l : Leads s.mem level p va) → Leads written.mem level p va
  written-Leads p va top l = record {
    second = l.second;
    third = l.third;
    table = l.table;
    first_names =
        written-Names p (pgx va) l.second (omega arith) (omega arith) (pgx-lt va) l.first_names;
    second_names =
        written-Names l.second (pdx va) l.third (omega (arith, l.second_level))
          (omega (arith, l.second_level)) (pdx-lt va) l.second_names;
    third_names =
        written-Names l.third (pmx va) l.table (omega (arith, l.third_level))
          (omega (arith, l.third_level)) (pmx-lt va) l.third_names;
    second_level = l.second_level;
    third_level = l.third_level;
    table_level = l.table_level;
  }

-- On a path, the lookup reads the entry.
pub page_lookup-Leads :
    (s : Pmap) (level : ℕ → ℕ) (p va : ℕ)
    → p < npage
    → (l : Leads s.mem level p va)
    → page_lookup (page2pa p) va s ≡ read_entry (some (word l.table (ptx va))) s
unfolding page_lookup
page_lookup-Leads s level p va h l = rw (pgdir_walk-Leads s level p va false h l)

pub read_entry-page :
    (s : Pmap) (pte pp r : ℕ)
    → pp < npage
    → r < 4096
    → r % 4 ≡ 3
    → s.mem pte ≡ bit_or (page2pa pp) r
    → read_entry (some pte) s ≡ some (some (pp, pte), s)
unfolding read_entry
read_entry-page s pte pp r h small three e = rw (
  e,
  is_valid-entry pp r (omega arith) small three,
  pte_addr-entry pp r (omega arith) small,
  pa2page-page2pa pp h,
)

-- The result of a run, without its state.
abbrev pub result : {A : Type 0} → Option (A × Pmap) → Option A
result none = none
result (some (a, _)) = some a

read_result : ℕ → ℕ → Option (Option (ℕ × ℕ))
read_result value e =
    if is_valid value
    then Option.map (λ page. some (page, e)) (pa2page (pte_addr value))
    else some none

read_entry-result : (s : Pmap) (e : ℕ) → result (read_entry (some e) s) ≡ read_result (s.mem e) e
unfolding read_entry read_result
read_entry-result s e = ground arith

pub read_entry-same :
    (s t : Pmap) (e : ℕ)
    → t.mem e ≡ s.mem e
    → result (read_entry (some e) t) ≡ result (read_entry (some e) s)
read_entry-same s t e same =
    read_entry-result t e
    ∙ ap (λ (value : ℕ). read_result value e) same
    ∙ sym (read_entry-result s e)
