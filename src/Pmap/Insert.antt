-- ===== src/Pmap/Insert.antt =====
-- `page_insert`: the page is found afterwards, and every other mapping is what it was.
use raspberry_pi_3_jos.Prelude.{
  ℕ, ◌+◌, ◌%◌, ◌^◌, ◌≤◌, ◌<◌, ◌≡◌, sym, ap, ◌∙◌, ◌≢◌, true, false, some, List, arith, length,
  bit_or,
}
use raspberry_pi_3_jos.Queue.Chain.{elem}
use raspberry_pi_3_jos.Mmu.{is_valid, npage, pgx, pdx, pmx, ptx, pte_addr, page2pa}
use raspberry_pi_3_jos.Mmu.Fields.{pte_addr-page2pa}
use raspberry_pi_3_jos.Pmap.{Pmap, raise_ref, entry_perm, write_entry, page_insert, page_lookup}
use raspberry_pi_3_jos.Pmap.Tables.{word, word_apart, IsPaged, IsTree}
use raspberry_pi_3_jos.Pmap.Walk.{Leads, Walked, walked, pgdir_walk-Leads, ptx-lt}
use raspberry_pi_3_jos.Pmap.Leaf.{
  entry_perm-lt, entry_perm_valid, written, written-IsPaged, written-IsTree, written-Leads,
  page_lookup-Leads, read_entry-page, read_entry-same, result,
}

raise_ref-IsPaged :
    {s : Pmap} {level : ℕ → ℕ} {xs : List ℕ}
    → IsPaged s level xs
    → (pp : ℕ) → IsPaged (raise_ref pp s) level xs
unfolding raise_ref
raise_ref-IsPaged {s} {xs} v pp = record {
  alloc = record { queue = v.alloc.queue; bounds = v.alloc.bounds };
  tables = v.tables;
  free = v.free;
  entries = v.entries;
}

-- What `page_insert` leaves behind.
pub record Inserted (s : Pmap) (level : ℕ → ℕ) (xs : List ℕ) (p pp va perm : ℕ) (t : Pmap)
    : Type 0 where
  pub levels : ℕ → ℕ
  pub free : List ℕ
  pub paged : IsPaged t levels free
  pub keeps_level : (r : ℕ) → level r ≢ 0 → levels r ≡ level r
  pub leads : Leads t.mem levels p va
  pub used : length xs ≤ 3 + length free
  pub fewer : (y : ℕ) → elem y xs ≡ false → elem y free ≡ false
  pub keeps_ref : (x : ℕ) → levels x ≡ 0 → x ≢ pp → t.pp_ref x ≡ s.pp_ref x
  pub keeps_table_ref : (x : ℕ) → level x ≢ 0 → x ≢ pp → t.pp_ref x ≡ s.pp_ref x
  pub stays : (y : ℕ) → elem y xs ≡ false → level y ≡ 0 → levels y ≡ 0
  pub keeps_data :
      (q i : ℕ) → q < npage → i < 512 → levels q ≡ 0 → t.mem (word q i) ≡ s.mem (word q i)
  pub count : levels pp ≡ 0 → t.pp_ref pp ≡ (s.pp_ref pp + 1) % 2 ^ 16
  pub table_count : level pp ≢ 0 → t.pp_ref pp ≡ (s.pp_ref pp + 1) % 2 ^ 16
  pub keeps_tree : IsTree s.mem level → IsTree t.mem levels
  pub keeps_entry :
      (q j : ℕ)
      → level q ≢ 0
      → j < 512
      → is_valid (s.mem (word q j)) ≡ true
      → word q j ≢ word leads.table (ptx va)
      → t.mem (word q j) ≡ s.mem (word q j)
  pub only :
      (r j : ℕ)
      → level r ≢ 0
      → j < 512
      → word r j ≢ word p (pgx va)
      → word r j ≢ word leads.second (pdx va)
      → word r j ≢ word leads.third (pmx va)
      → word r j ≢ word leads.table (ptx va)
      → t.mem (word r j) ≡ s.mem (word r j)
  pub entry : t.mem (word leads.table (ptx va)) ≡ bit_or (page2pa pp) (entry_perm perm)
  pub found : page_lookup (page2pa p) va t ≡ some (some (pp, word leads.table (ptx va)), t)

module _ {s : Pmap} {level : ℕ → ℕ} {xs : List ℕ} (v : IsPaged s level xs) (p pp va perm : ℕ)
    (top : level p ≡ 1) (room : 3 ≤ length xs) (in_range : pp < npage)
    (attributes : perm < 4096) where
  w : Walked s level xs p va
  w = walked v p va top room

  top' : w.levels p ≡ 1
  top' = w.grows.keeps_level p (omega arith) ∙ top

  abbrev pte_value : ℕ
  pte_value = bit_or (pte_addr (page2pa pp)) (entry_perm perm)

  pte_value-eq : pte_value ≡ bit_or (page2pa pp) (entry_perm perm)
  pte_value-eq = ap (λ (t : ℕ). bit_or t (entry_perm perm)) (pte_addr-page2pa pp (omega arith))

  inserted : Pmap
  inserted =
      raise_ref pp
        (written w.paged w.leads.table (ptx va) pte_value w.leads.table_level (ptx-lt va))

  insert_runs : page_insert (page2pa p) pp va perm s ≡ some (tt, inserted)
  unfolding page_insert write_entry inserted
  insert_runs = rw (w.runs)

  inserted_leads : Leads inserted.mem w.levels p va
  unfolding inserted raise_ref
  inserted_leads =
      written-Leads w.paged w.leads.table (ptx va) pte_value w.leads.table_level (ptx-lt va) p va
        top' w.leads

  inserted_entry :
      inserted.mem (word w.leads.table (ptx va)) ≡ bit_or (page2pa pp) (entry_perm perm)
  unfolding inserted raise_ref
  inserted_entry = ground (arith, pte_value-eq)

  inserted_found :
      page_lookup (page2pa p) va inserted ≡ some (some (pp, word w.leads.table (ptx va)), inserted)
  unfolding inserted_leads written-Leads
  inserted_found =
      page_lookup-Leads inserted w.levels p va (w.paged.tables p (omega (arith, top')))
        inserted_leads
      ∙ read_entry-page inserted (word w.leads.table (ptx va)) pp (entry_perm perm) in_range
          (entry_perm-lt perm attributes) (entry_perm_valid perm) inserted_entry

  inserted_lem : Inserted s level xs p pp va perm inserted
  unfolding inserted_leads inserted written-Leads raise_ref
  inserted_lem = record {
    levels = w.levels;
    free = w.free;
    paged =
        raise_ref-IsPaged
          (written-IsPaged w.paged w.leads.table (ptx va) pte_value w.leads.table_level (ptx-lt va))
          pp;
    keeps_ref = λ x h ne. ground (arith, w.grows.keeps_ref x h);
    keeps_table_ref = λ x h ne. ground (arith, w.grows.keeps_table_ref x h);
    stays = w.stays;
    keeps_data = λ q i h k e.
        let far =
          word_apart q w.leads.table i (ptx va) h
            (w.paged.tables w.leads.table (λ z. omega (arith, w.leads.table_level))) k (ptx-lt va)
            (λ same. omega (arith, ap w.levels same, w.leads.table_level)) in
        ground (arith, w.grows.keeps_data q i h k e);
    count = λ h. ground (arith, w.grows.keeps_ref pp h);
    table_count = λ h. ground (arith, w.grows.keeps_table_ref pp h);
    keeps_tree = λ tree.
        written-IsTree w.paged w.leads.table (ptx va) pte_value w.leads.table_level (ptx-lt va)
          (w.grows.keeps_tree tree);
    keeps_entry = λ q j h k e far. ground (arith, w.grows.keeps_entry q j h k e);
    only = λ r j h k a b c d. ground (arith, w.only r j h k a b c, d);
    keeps_level = w.grows.keeps_level;
    leads = inserted_leads;
    used = w.used;
    fewer = w.fewer;
    entry = inserted_entry;
    found = inserted_found;
  }

pub page_insert-page_lookup :
    (s : Pmap) (level : ℕ → ℕ) (xs : List ℕ) (p pp va perm : ℕ)
    → IsPaged s level xs
    → level p ≡ 1
    → 3 ≤ length xs
    → pp < npage
    → perm < 4096
    → (t : Pmap) × (page_insert (page2pa p) pp va perm s ≡ some (tt, t))
      × Inserted s level xs p pp va perm t
page_insert-page_lookup s level xs p pp va perm v top room h small = (
  inserted v p pp va perm top room h small,
  insert_runs v p pp va perm top room h small,
  inserted_lem v p pp va perm top room h small,
)

-- An insertion that meets all its tables.
module _ {s : Pmap} {level : ℕ → ℕ} {xs : List ℕ} (v : IsPaged s level xs) (p va : ℕ)
    (top : level p ≡ 1) (l : Leads s.mem level p va) (pp perm : ℕ) where
  over : Pmap
  over = raise_ref pp (
      written v l.table (ptx va) (bit_or (pte_addr (page2pa pp)) (entry_perm perm)) l.table_level
        (ptx-lt va))

  over_runs : page_insert (page2pa p) pp va perm s ≡ some (tt, over)
  unfolding page_insert write_entry over
  over_runs = rw (pgdir_walk-Leads s level p va true (v.tables p (omega arith)) l)

  over-lookup :
      (p' va' : ℕ)
      → level p' ≡ 1
      → (l' : Leads s.mem level p' va') → word l'.table (ptx va') ≢ word l.table (ptx va)
      → result (page_lookup (page2pa p') va' over) ≡ result (page_lookup (page2pa p') va' s)
  unfolding over raise_ref written-Leads
  over-lookup p' va' top' l' far =
      let value = bit_or (pte_addr (page2pa pp)) (entry_perm perm) in
      let kept = written-Leads v l.table (ptx va) value l.table_level (ptx-lt va) p' va' top' l' in
      let bound = v.tables p' (omega arith) in
      ap result (page_lookup-Leads over level p' va' bound kept)
      ∙ read_entry-same s over (word l'.table (ptx va')) (ground arith)
      ∙ sym (ap result (page_lookup-Leads s level p' va' bound l'))

-- Where the tables for both addresses are there, `page_insert` changes no other mapping.
pub page_insert-other :
    (s : Pmap) (level : ℕ → ℕ) (xs : List ℕ) (p p' pp va va' perm : ℕ)
    → IsPaged s level xs
    → level p ≡ 1
    → level p' ≡ 1
    → (l : Leads s.mem level p va) → (l' : Leads s.mem level p' va')
    → word l'.table (ptx va') ≢ word l.table (ptx va)
    → (t : Pmap) × (page_insert (page2pa p) pp va perm s ≡ some (tt, t))
      × (result (page_lookup (page2pa p') va' t) ≡ result (page_lookup (page2pa p') va' s))
page_insert-other s level xs p p' pp va va' perm v top top' l l' far = (
  over v p va top l pp perm,
  over_runs v p va top l pp perm,
  over-lookup v p va top l pp perm p' va' top' l' far,
)
