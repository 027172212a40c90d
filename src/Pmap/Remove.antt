-- ===== src/Pmap/Remove.antt =====
-- `page_remove` and `page_decref`: the mapping is gone, and a page that was mapped once is free.
use raspberry_pi_3_jos.Prelude.{
  ℕ, ◌-◌, inl, inr, ◌%◌, ◌^◌, ◌<◌, ◌≡◌, ◌≢◌, ap, ◌∙◌, true, false, none, some, List, ◌∷◌, arith,
  bit_or, ◌==◌, if◌then◌else◌, Bool-cases, ltb,
}
use mathlib.Core.Path.{subst}
use raspberry_pi_3_jos.Queue.{update}
use raspberry_pi_3_jos.Queue.Chain.{elem}
use raspberry_pi_3_jos.Mmu.{npage, ptx, is_valid, page2pa}
use raspberry_pi_3_jos.Mmu.Fields.{is_valid-eq}
use raspberry_pi_3_jos.Pmap.{
  Pmap, lower_ref, page_free, page_decref, read_entry, page_lookup, drop_entry, page_remove,
}
use raspberry_pi_3_jos.Pmap.Alloc.{page_free-IsFree}
use raspberry_pi_3_jos.Pmap.Tables.{word, IsPaged, IsTree}
use raspberry_pi_3_jos.Pmap.Walk.{Leads, ptx-lt}
use raspberry_pi_3_jos.Pmap.Leaf.{
  written-IsPaged, written-IsTree, written-Leads, page_lookup-Leads, read_entry-page,
}

lowered-IsPaged :
    {s : Pmap} {level : ℕ → ℕ} {xs : List ℕ}
    → IsPaged s level xs
    → (pp : ℕ) → IsPaged (lower_ref pp s) level xs
unfolding lower_ref
lowered-IsPaged {s} {xs} v pp = record {
  alloc = record { queue = v.alloc.queue; bounds = v.alloc.bounds };
  tables = v.tables;
  free = v.free;
  entries = v.entries;
}

freed-IsPaged :
    {s : Pmap} {level : ℕ → ℕ} {xs : List ℕ}
    → IsPaged s level xs
    → (pp : ℕ) → elem pp xs ≡ false
    → pp < npage
    → level pp ≡ 0
    → s.pp_ref pp ≡ 0
    → IsPaged (page_free pp s) level (pp ∷ xs)
unfolding page_free
freed-IsPaged {s} {level} {xs} v pp out h l e =
    let unused : ltb 0 (s.pp_ref pp) ≡ false = ground arith in
    let (alloc, _) = page_free-IsFree s pp xs v.alloc h out e in
    rw unused (record {
      alloc = rw unused at alloc;
      tables = v.tables;
      free = λ x m. ground (arith, v.free x);
      entries = v.entries;
    })

-- The free pages after one reference to `pp` was dropped.
abbrev pub freed_list : ℕ → ℕ → List ℕ → List ℕ
freed_list refs pp xs = if refs == 1 then pp ∷ xs else xs

module _ {s : Pmap} {level : ℕ → ℕ} {xs : List ℕ} (v : IsPaged s level xs) (pp : ℕ)
    (out : elem pp xs ≡ false) (h : pp < npage) (l : level pp ≡ 0) (used : 0 < s.pp_ref pp)
    (small : s.pp_ref pp < 2 ^ 16) where
  lowered : (lower_ref pp s).pp_ref pp ≡ s.pp_ref pp - 1
  unfolding lower_ref
  lowered = ground arith

  page_decref-IsPaged : IsPaged (page_decref pp s) level (freed_list (s.pp_ref pp) pp xs)
  unfolding page_decref
  page_decref-IsPaged = elim (Bool-cases (s.pp_ref pp == 1)) [
    | inl e ↦
        let gone : ((lower_ref pp s).pp_ref pp == 0) ≡ true = ground (arith, lowered) in
        rw (e, gone) (freed-IsPaged (lowered-IsPaged v pp) pp out h l (ground (arith, lowered)))
    | inr e ↦
        let kept : ((lower_ref pp s).pp_ref pp == 0) ≡ false = ground (arith, lowered) in
        rw (e, kept) (lowered-IsPaged v pp)
  ]

  page_decref-ref : (page_decref pp s).pp_ref pp ≡ s.pp_ref pp - 1
  unfolding page_decref page_free
  page_decref-ref = ground (arith, lowered)

  page_decref-mem : (page_decref pp s).mem ≡ s.mem
  unfolding page_decref page_free lower_ref
  page_decref-mem = ground arith

  page_decref-other : (x : ℕ) → x ≢ pp → (page_decref pp s).pp_ref x ≡ s.pp_ref x
  unfolding page_decref page_free lower_ref
  page_decref-other x ne = ground arith

-- What `page_remove` leaves behind.
pub record Removed (s : Pmap) (level : ℕ → ℕ) (xs : List ℕ) (p pp va : ℕ) (t : Pmap) : Type 0 where
  pub gone : page_lookup (page2pa p) va t ≡ some (none, t)
  pub count : t.pp_ref pp ≡ s.pp_ref pp - 1
  pub counts : (x : ℕ) → x ≢ pp → t.pp_ref x ≡ s.pp_ref x
  pub keeps_tree : IsTree s.mem level → IsTree t.mem level
  pub paged : IsPaged t level (freed_list (s.pp_ref pp) pp xs)

read_entry-zero : (s : Pmap) (e : ℕ) → s.mem e ≡ 0 → read_entry (some e) s ≡ some (none, s)
unfolding read_entry
read_entry-zero s e h =
    let invalid : is_valid (s.mem e) ≡ false = ap is_valid h ∙ is_valid-eq 0 in rw invalid

module _ {s : Pmap} {level : ℕ → ℕ} {xs : List ℕ} (v : IsPaged s level xs) (p pp va attributes : ℕ)
    (top : level p ≡ 1) (leads : Leads s.mem level p va) (small : attributes < 4096)
    (three : attributes % 4 ≡ 3)
    (mapped : s.mem (word leads.table (ptx va)) ≡ bit_or (page2pa pp) attributes)
    (in_range : pp < npage) (out : elem pp xs ≡ false) (no_table : level pp ≡ 0)
    (used : 0 < s.pp_ref pp) (narrow : s.pp_ref pp < 2 ^ 16) where
  bound : p < npage
  bound = v.tables p (omega arith)

  entry : ℕ
  entry = word leads.table (ptx va)

  removed : Pmap
  removed = record (page_decref pp s) { mem = update s.mem (word leads.table (ptx va)) 0 }

  remove_runs : page_remove (page2pa p) va s ≡ some (tt, removed)
  unfolding page_remove drop_entry removed
  remove_runs = rw (
    page_lookup-Leads s level p va bound leads,
    read_entry-page s (word leads.table (ptx va)) pp attributes in_range small three mapped,
    page_decref-mem v pp out in_range no_table used narrow,
  )

  removed_leads : Leads removed.mem level p va
  unfolding removed
  removed_leads =
      written-Leads v leads.table (ptx va) 0 leads.table_level (ptx-lt va) p va top leads

  removed_zero : removed.mem (word leads.table (ptx va)) ≡ 0
  unfolding removed
  removed_zero = ground arith

  removed_gone : page_lookup (page2pa p) va removed ≡ some (none, removed)
  unfolding removed_leads written-Leads
  removed_gone =
      page_lookup-Leads removed level p va bound removed_leads
      ∙ read_entry-zero removed (word leads.table (ptx va)) removed_zero

  removed-IsPaged : IsPaged removed level (freed_list (s.pp_ref pp) pp xs)
  unfolding removed
  removed-IsPaged =
      let dropped = page_decref-IsPaged v pp out in_range no_table used narrow in
      subst
        (λ m.
          IsPaged (record (page_decref pp s) { mem = update m (word leads.table (ptx va)) 0 }) level
            (freed_list (s.pp_ref pp) pp xs))
        (page_decref-mem v pp out in_range no_table used narrow)
        (written-IsPaged dropped leads.table (ptx va) 0 leads.table_level (ptx-lt va))

  removed_lem : Removed s level xs p pp va removed
  unfolding removed
  removed_lem = record {
    gone = removed_gone;
    count = page_decref-ref v pp out in_range no_table used narrow;
    counts = page_decref-other v pp out in_range no_table used narrow;
    keeps_tree = λ tree. written-IsTree v leads.table (ptx va) 0 leads.table_level (ptx-lt va) tree;
    paged = removed-IsPaged;
  }

-- `page_remove` of a mapped page: the address has no page afterwards, the page has one reference
-- less and no other page's count changes, and it is back on the free list exactly if that was the
-- last; the tables stay well-formed.
pub page_remove_lem :
    (s : Pmap) (level : ℕ → ℕ) (xs : List ℕ) (p pp va attributes : ℕ)
    → IsPaged s level xs
    → level p ≡ 1
    → (leads : Leads s.mem level p va) → attributes < 4096
    → attributes % 4 ≡ 3
    → s.mem (word leads.table (ptx va)) ≡ bit_or (page2pa pp) attributes
    → pp < npage
    → elem pp xs ≡ false
    → level pp ≡ 0
    → 0 < s.pp_ref pp
    → s.pp_ref pp < 2 ^ 16
    → (t : Pmap) × (page_remove (page2pa p) va s ≡ some (tt, t)) × Removed s level xs p pp va t
page_remove_lem s level xs p pp va attributes v top leads small three mapped h out l used narrow = (
  removed v p pp va attributes top leads small three mapped h out l used narrow,
  remove_runs v p pp va attributes top leads small three mapped h out l used narrow,
  removed_lem v p pp va attributes top leads small three mapped h out l used narrow,
)
