-- ===== src/Pmap/Maps.antt =====
-- Mappings as a whole: what `page_insert` does to the mappings of other addresses.
use raspberry_pi_3_jos.Prelude.{
  ℕ, ◌+◌, ◌*◌, ◌/◌, ◌%◌, ◌^◌, ◌≤◌, ◌<◌, ◌≡◌, sym, ap, ◌∙◌, ◌≢◌, ◌⊎◌, inl, inr, true, some, List,
  arith, bit_or,
}
use mathlib.Core.Path.{subst}
use raspberry_pi_3_jos.Mmu.{npage, pgx, pdx, pmx, ptx, is_valid, kaddr, page2pa}
use raspberry_pi_3_jos.Mmu.Fields.{
  pgx-eq, pdx-eq, pmx-eq, ptx-eq, page2kva-eq, is_valid-entry, kernel_half, kaddr-eq, kaddr_high,
}
use raspberry_pi_3_jos.Pmap.{Pmap, entry_perm, pgdir_walk, page_insert, page_lookup}
use raspberry_pi_3_jos.Pmap.Tables.{word, word_apart, Names, IsPaged, IsTree, Grows}
use raspberry_pi_3_jos.Pmap.Walk.{Leads, pgx-lt, pdx-lt, pmx-lt, ptx-lt}
use raspberry_pi_3_jos.Pmap.Leaf.{
  page_lookup-Leads, read_entry-page, entry_perm-lt, entry_perm_valid,
}
use raspberry_pi_3_jos.Pmap.Insert.{Inserted}

-- The number of the page that an address is in, as far as the tables read it.
abbrev pub vpn : ℕ → ℕ
vpn va = va / 4096 % 2 ^ 28

-- The directory `p` maps `va` to the page `pp` with the attributes `r`.
pub record Maps (mem level : ℕ → ℕ) (p va pp r : ℕ) : Type 0 where
  pub leads : Leads mem level p va
  pub entry : mem (word leads.table (ptx va)) ≡ bit_or (page2pa pp) r

-- `page_lookup` finds what is mapped.
pub page_lookup-Maps :
    (s : Pmap) (level : ℕ → ℕ) (p va pp perm : ℕ)
    → p < npage
    → pp < npage
    → perm < 4096
    → (m : Maps s.mem level p va pp (entry_perm perm))
    → page_lookup (page2pa p) va s ≡ some (some (pp, word m.leads.table (ptx va)), s)
page_lookup-Maps s level p va pp perm h k small m =
    page_lookup-Leads s level p va h m.leads
    ∙ read_entry-page s (word m.leads.table (ptx va)) pp (entry_perm perm) k
        (entry_perm-lt perm small) (entry_perm_valid perm) m.entry

page2pa-lt : (p : ℕ) → p < npage → page2pa p < 2 ^ 30
unfolding page2pa
page2pa-lt p h = omega arith

word-injective :
    (p q i j : ℕ)
    → p < npage
    → q < npage
    → i < 512
    → j < 512
    → word p i ≡ word q j
    → (p ≡ q) × (i ≡ j)
word-injective p q i j hp hq hi hj e =
    let a = page2kva-eq p (omega arith) in
    let b = page2kva-eq q (omega arith) in (omega (arith, a, b), omega (arith, a, b))

-- In a tree of tables two addresses share an entry only if they are in the same page of the same
-- directory.
pub Leads-injective :
    (mem level : ℕ → ℕ) (p va p' va' : ℕ)
    → IsTree mem level
    → ((q : ℕ) → level q ≢ 0 → q < npage)
    → level p ≡ 1
    → level p' ≡ 1
    → (l : Leads mem level p va) → (l' : Leads mem level p' va')
    → word l.table (ptx va) ≡ word l'.table (ptx va')
    → (p ≡ p') × (vpn va ≡ vpn va')
Leads-injective mem level p va p' va' tree bounds top top' l l' same =
    let bound : l.table < npage = bounds l.table (λ z. omega (arith, l.table_level)) in
    let bound' : l'.table < npage = bounds l'.table (λ z. omega (arith, l'.table_level)) in
    let (tables, fourth) =
      word-injective l.table l'.table (ptx va) (ptx va') bound bound' (ptx-lt va) (ptx-lt va')
        same in
    let (thirds, third) =
      tree l.third (pmx va) l'.third (pmx va') l.table (λ z. omega (arith, l.third_level))
        (omega (arith, l.third_level)) (λ z. omega (arith, l'.third_level))
        (omega (arith, l'.third_level)) (pmx-lt va) (pmx-lt va') l.third_names
        (subst (Names mem l'.third (pmx va')) (sym tables) l'.third_names) in
    let (seconds, second) =
      tree l.second (pdx va) l'.second (pdx va') l.third (λ z. omega (arith, l.second_level))
        (omega (arith, l.second_level)) (λ z. omega (arith, l'.second_level))
        (omega (arith, l'.second_level)) (pdx-lt va) (pdx-lt va') l.second_names
        (subst (Names mem l'.second (pdx va')) (sym thirds) l'.second_names) in
    let (firsts, first) =
      tree p (pgx va) p' (pgx va') l.second (λ z. omega arith) (omega arith) (λ z. omega arith)
        (omega arith) (pgx-lt va) (pgx-lt va') l.first_names
        (subst (Names mem p' (pgx va')) (sym seconds) l'.first_names) in
    (
      firsts,
      omega (
        arith,
        first,
        second,
        third,
        fourth,
        pgx-eq va,
        pdx-eq va,
        pmx-eq va,
        ptx-eq va,
        pgx-eq va',
        pdx-eq va',
        pmx-eq va',
        ptx-eq va',
      ),
    )

-- A path stays where the valid entries above the last level stay.
module _ (mem level mem' level' : ℕ → ℕ) (p va : ℕ) (top : level p ≡ 1)
    (levels : (q : ℕ) → level q ≢ 0 → level' q ≡ level q)
    (uppers : (q j : ℕ)
      → level q ≢ 0
      → level q ≤ 3
      → j < 512
      → is_valid (mem (word q j)) ≡ true
      → mem' (word q j) ≡ mem (word q j)) where
  kept-Names :
      (q j r : ℕ) → level q ≢ 0 → level q ≤ 3 → j < 512 → Names mem q j r → Names mem' q j r
  kept-Names q j r a b k n =
      let same = uppers q j a b k n.valid in
      record { valid = rw same n.valid; target = rw same n.target }

  unfoldable kept-Leads : Leads mem level p va → Leads mem' level' p va
  kept-Leads l = record {
    second = l.second;
    third = l.third;
    table = l.table;
    first_names =
        kept-Names p (pgx va) l.second (λ z. omega arith) (omega arith) (pgx-lt va) l.first_names;
    second_names =
        kept-Names l.second (pdx va) l.third (λ z. omega (arith, l.second_level))
          (omega (arith, l.second_level)) (pdx-lt va) l.second_names;
    third_names =
        kept-Names l.third (pmx va) l.table (λ z. omega (arith, l.third_level))
          (omega (arith, l.third_level)) (pmx-lt va) l.third_names;
    second_level = levels l.second (λ z. omega (arith, l.second_level)) ∙ l.second_level;
    third_level = levels l.third (λ z. omega (arith, l.third_level)) ∙ l.third_level;
    table_level = levels l.table (λ z. omega (arith, l.table_level)) ∙ l.table_level;
  }

  pub kept-Maps :
      (pp r : ℕ)
      → (m : Maps mem level p va pp r)
      → mem' (word m.leads.table (ptx va)) ≡ mem (word m.leads.table (ptx va))
      → Maps mem' level' p va pp r
  unfolding kept-Leads
  kept-Maps pp r m same = record { leads = kept-Leads m.leads; entry = same ∙ m.entry }

entry_valid :
    (mem level : ℕ → ℕ) (p va pp perm : ℕ)
    → pp < npage
    → perm < 4096
    → (m : Maps mem level p va pp (entry_perm perm))
    → is_valid (mem (word m.leads.table (ptx va))) ≡ true
entry_valid mem level p va pp perm k small m =
    ap is_valid m.entry
    ∙ is_valid-entry pp (entry_perm perm) (omega arith) (entry_perm-lt perm small)
        (entry_perm_valid perm)

-- A mapping stays where tables are added.
pub Maps-grow :
    (s : Pmap) (level : ℕ → ℕ) (t : Pmap) (level' : ℕ → ℕ) (p va pp perm : ℕ)
    → Grows s level t level'
    → level p ≡ 1
    → pp < npage
    → perm < 4096
    → Maps s.mem level p va pp (entry_perm perm)
    → Maps t.mem level' p va pp (entry_perm perm)
Maps-grow s level t level' p va pp perm g top k small m =
    kept-Maps s.mem level t.mem level' p va top g.keeps_level
      (λ q j a b h e. g.keeps_entry q j a h e) pp (entry_perm perm) m
      (g.keeps_entry m.leads.table (ptx va) (λ z. omega (arith, m.leads.table_level)) (ptx-lt va)
        (entry_valid s.mem level p va pp perm k small m))

-- `page_insert` makes the mapping that it was asked for, and keeps every mapping of another page of
-- addresses and every mapping of another directory.
module _ {s : Pmap} {level : ℕ → ℕ} {xs : List ℕ} {p pp va perm : ℕ} {t : Pmap}
    (v : IsPaged s level xs) (tree : IsTree s.mem level) (top : level p ≡ 1)
    (i : Inserted s level xs p pp va perm t) where
  pub inserted-Maps : Maps t.mem i.levels p va pp (entry_perm perm)
  inserted-Maps = record { leads = i.leads; entry = i.entry }

  upper_far :
      (q j : ℕ) → level q ≢ 0 → level q ≤ 3 → j < 512 → word q j ≢ word i.leads.table (ptx va)
  upper_far q j a b h =
      word_apart q i.leads.table j (ptx va) (v.tables q a)
        (i.paged.tables i.leads.table (λ z. omega (arith, i.leads.table_level))) h (ptx-lt va)
        (λ e. omega (arith, i.keeps_level q a, ap i.levels e, i.leads.table_level))

  uppers :
      (q j : ℕ)
      → level q ≢ 0
      → level q ≤ 3
      → j < 512
      → is_valid (s.mem (word q j)) ≡ true
      → t.mem (word q j) ≡ s.mem (word q j)
  uppers q j a b h e = i.keeps_entry q j a h e (upper_far q j a b h)

  pub inserted_other-Maps :
      (p' va' pp' perm' : ℕ)
      → level p' ≡ 1
      → pp' < npage
      → perm' < 4096
      → (p' ≢ p) ⊎ (vpn va' ≢ vpn va)
      → Maps s.mem level p' va' pp' (entry_perm perm')
      → Maps t.mem i.levels p' va' pp' (entry_perm perm')
  unfolding kept-Leads
  inserted_other-Maps p' va' pp' perm' top' k small apart m =
      let l' = kept-Leads s.mem level t.mem i.levels p' va' top' i.keeps_level uppers m.leads in
      let far : word m.leads.table (ptx va') ≢ word i.leads.table (ptx va) = λ e.
        let same =
          Leads-injective t.mem i.levels p' va' p va (i.keeps_tree tree) i.paged.tables
            (i.keeps_level p' (λ z. omega arith) ∙ top') (i.keeps_level p (λ z. omega arith) ∙ top)
            l' i.leads e in
        elim apart [ inl ne ↦ ne same.0 | inr ne ↦ ne same.1 ] in
      kept-Maps s.mem level t.mem i.levels p' va' top' i.keeps_level uppers pp' (entry_perm perm') m
        (i.keeps_entry m.leads.table (ptx va') (λ z. omega (arith, m.leads.table_level))
          (ptx-lt va') (entry_valid s.mem level p' va' pp' perm' k small m) far)

-- The first entry of a walk from the directory's kernel address.
entry_kaddr :
    (p va : ℕ) → p < npage → kaddr (kaddr (page2pa p) + 8 * pgx va) ≡ kaddr (page2pa p + 8 * pgx va)
entry_kaddr p va h =
    let low = page2pa-lt p h in
    let moved : kaddr (page2pa p) + 8 * pgx va ≡ kernel_half + (page2pa p + 8 * pgx va) =
      omega (arith, kaddr-eq (page2pa p) (omega (arith, low))) in
    omega (
      arith,
      ap kaddr moved,
      kaddr_high (page2pa p + 8 * pgx va) (omega (arith, low, pgx-lt va)),
      kaddr-eq (page2pa p + 8 * pgx va) (omega (arith, low, pgx-lt va)),
    )

-- The directory may be named by its kernel address.
pub page_insert-kaddr :
    (p pp va perm : ℕ) (s : Pmap)
    → p < npage
    → page_insert (kaddr (page2pa p)) pp va perm s ≡ page_insert (page2pa p) pp va perm s
unfolding page_insert pgdir_walk
page_insert-kaddr p pp va perm s h = rw (entry_kaddr p va h)

pub page_lookup-kaddr :
    (p va : ℕ) (s : Pmap)
    → p < npage
    → page_lookup (kaddr (page2pa p)) va s ≡ page_lookup (page2pa p) va s
unfolding page_lookup pgdir_walk
page_lookup-kaddr p va s h = rw (entry_kaddr p va h)
