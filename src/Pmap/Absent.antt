-- ===== src/Pmap/Absent.antt =====
-- Addresses that a directory does not map, and a `page_insert` into another directory.
use raspberry_pi_3_jos.Prelude.{
  ℕ, ◌+◌, ◌≤◌, ◌<◌, ◌≡◌, ◌≢◌, refl, sym, ap, ◌∙◌, false, none, some, List, arith,
}
use mathlib.Core.Path.{subst}
use raspberry_pi_3_jos.Mmu.{npage, pgx, pdx, pmx, ptx, is_valid, page2pa}
use raspberry_pi_3_jos.Pmap.{
  Pmap, enter_table, next_entry, next_of_level, pgdir_walk, read_entry, page_lookup,
}
use raspberry_pi_3_jos.Pmap.Tables.{word, word_apart, Names, IsPaged, IsTree}
use raspberry_pi_3_jos.Pmap.Enter.{next_entry-valid}
use raspberry_pi_3_jos.Pmap.Walk.{first_entry, pgx-lt, pdx-lt, pmx-lt, ptx-lt}
use raspberry_pi_3_jos.Pmap.Insert.{Inserted}

abbrev pub Blank : (mem : ℕ → ℕ) → (p i : ℕ) → Type 0
Blank mem p i = is_valid (mem (word p i)) ≡ false

-- Some level of the walk for `va` from the directory `p` meets an entry that is not valid.
pub data Absent (mem level : ℕ → ℕ) (p va : ℕ) : Type 0 where
  no_second : Blank mem p (pgx va) → Absent mem level p va
  no_third :
      (a : ℕ) → Names mem p (pgx va) a → level a ≡ 2 → Blank mem a (pdx va) → Absent mem level p va
  no_table :
      (a b : ℕ)
      → Names mem p (pgx va) a
      → level a ≡ 2
      → Names mem a (pdx va) b
      → level b ≡ 3
      → Blank mem b (pmx va)
      → Absent mem level p va
  no_page :
      (a b c : ℕ)
      → Names mem p (pgx va) a
      → level a ≡ 2
      → Names mem a (pdx va) b
      → level b ≡ 3
      → Names mem b (pmx va) c
      → level c ≡ 4
      → Blank mem c (ptx va)
      → Absent mem level p va

next_entry-Blank :
    (s : Pmap) (p i j : ℕ) → Blank s.mem p i → next_entry (word p i) j false s ≡ some (none, s)
unfolding next_entry enter_table
next_entry-Blank s p i j e = rw e

-- The lookup finds nothing and changes nothing.
pub page_lookup-Absent :
    (s : Pmap) (level : ℕ → ℕ) (p va : ℕ)
    → p < npage
    → Absent s.mem level p va
    → page_lookup (page2pa p) va s ≡ some (none, s)
unfolding page_lookup pgdir_walk next_of_level read_entry
page_lookup-Absent s level p va h (no_second e) =
    rw (first_entry p (pgx va) h (pgx-lt va), next_entry-Blank s p (pgx va) (pdx va) e)
page_lookup-Absent s level p va h (no_third a n la e) = rw (
  first_entry p (pgx va) h (pgx-lt va),
  next_entry-valid s p (pgx va) a (pdx va) false n,
  next_entry-Blank s a (pdx va) (pmx va) e,
)
page_lookup-Absent s level p va h (no_table a b n la m lb e) = rw (
  first_entry p (pgx va) h (pgx-lt va),
  next_entry-valid s p (pgx va) a (pdx va) false n,
  next_entry-valid s a (pdx va) b (pmx va) false m,
  next_entry-Blank s b (pmx va) (ptx va) e,
)
page_lookup-Absent s level p va h (no_page a b c n la m lb k lc e) = rw (
  first_entry p (pgx va) h (pgx-lt va),
  next_entry-valid s p (pgx va) a (pdx va) false n,
  next_entry-valid s a (pdx va) b (pmx va) false m,
  next_entry-valid s b (pmx va) c (ptx va) false k,
  e,
)

-- Where the words of the tables below `p` stay, an address stays absent; `Mine` holds of these tables.
module _ (mem level mem' level' : ℕ → ℕ) (Mine : ℕ → Type 0)
    (words : (r i : ℕ) → Mine r → i < 512 → mem' (word r i) ≡ mem (word r i))
    (levels : (r : ℕ) → Mine r → level' r ≡ level r)
    (closed : (r i c : ℕ)
      → Mine r
      → i < 512
      → Names mem r i c
      → level c ≡ 1 + level r
      → level r ≤ 3
      → Mine c) where
  kept-Blank : (r i : ℕ) → Mine r → i < 512 → Blank mem r i → Blank mem' r i
  kept-Blank r i own h e = ap is_valid (words r i own h) ∙ e

  own-Names : (r i c : ℕ) → Mine r → i < 512 → Names mem r i c → Names mem' r i c
  own-Names r i c own h n =
      let same = words r i own h in record { valid = rw same n.valid; target = rw same n.target }

  kept-Absent : (p va : ℕ) → level p ≡ 1 → Mine p → Absent mem level p va → Absent mem' level' p va
  kept-Absent p va top own (no_second e) = no_second (kept-Blank p (pgx va) own (pgx-lt va) e)
  kept-Absent p va top own (no_third a n la e) =
      let own_a = closed p (pgx va) a own (pgx-lt va) n (omega arith) (omega arith) in
      no_third a (own-Names p (pgx va) a own (pgx-lt va) n) (levels a own_a ∙ la)
        (kept-Blank a (pdx va) own_a (pdx-lt va) e)
  kept-Absent p va top own (no_table a b n la m lb e) =
      let own_a = closed p (pgx va) a own (pgx-lt va) n (omega arith) (omega arith) in
      let own_b = closed a (pdx va) b own_a (pdx-lt va) m (omega arith) (omega arith) in
      no_table a b (own-Names p (pgx va) a own (pgx-lt va) n) (levels a own_a ∙ la)
        (own-Names a (pdx va) b own_a (pdx-lt va) m) (levels b own_b ∙ lb)
        (kept-Blank b (pmx va) own_b (pmx-lt va) e)
  kept-Absent p va top own (no_page a b c n la m lb k lc e) =
      let own_a = closed p (pgx va) a own (pgx-lt va) n (omega arith) (omega arith) in
      let own_b = closed a (pdx va) b own_a (pdx-lt va) m (omega arith) (omega arith) in
      let own_c = closed b (pmx va) c own_b (pmx-lt va) k (omega arith) (omega arith) in
      no_page a b c (own-Names p (pgx va) a own (pgx-lt va) n) (levels a own_a ∙ la)
        (own-Names a (pdx va) b own_a (pdx-lt va) m) (levels b own_b ∙ lb)
        (own-Names b (pmx va) c own_b (pmx-lt va) k) (levels c own_c ∙ lc)
        (kept-Blank c (ptx va) own_c (ptx-lt va) e)

-- Where every table stays.
pub same-Absent :
    (mem level mem' : ℕ → ℕ) (p va : ℕ)
    → level p ≡ 1
    → ((r i : ℕ) → level r ≢ 0 → i < 512 → mem' (word r i) ≡ mem (word r i))
    → Absent mem level p va
    → Absent mem' level p va
same-Absent mem level mem' p va top same =
    kept-Absent mem level mem' level (λ r. level r ≢ 0) (λ r i own h. same r i own h)
      (λ r own. refl) (λ r i c own h n deeper lo z. omega (arith, deeper, z)) p va top
      (λ z. omega (arith, z, top))

-- What `page_insert` into the directory `q` leaves of the tables of another one.
module _ {s : Pmap} {level : ℕ → ℕ} {xs : List ℕ} {q pp va perm : ℕ} {t : Pmap}
    (v : IsPaged s level xs) (top_q : level q ≡ 1) (i : Inserted s level xs q pp va perm t)
    (tree : IsTree t.mem i.levels) where
  record Away (r : ℕ) : Type 0 where
    table : level r ≢ 0
    root : r ≢ q
    second : r ≢ i.leads.second
    third : r ≢ i.leads.third
    last : r ≢ i.leads.table

  on_path : (r : ℕ) → i.levels r ≢ 0 → r < npage
  on_path r h = i.paged.tables r h

  Away-words : (r j : ℕ) → Away r → j < 512 → t.mem (word r j) ≡ s.mem (word r j)
  Away-words r j w h =
      let bound = v.tables r w.table in
      i.only r j w.table h
        (word_apart r q j (pgx va) bound (v.tables q (λ z. omega (arith, z, top_q))) h (pgx-lt va)
          w.root)
        (word_apart r i.leads.second j (pdx va) bound
          (on_path i.leads.second (λ z. omega (arith, z, i.leads.second_level))) h (pdx-lt va)
          w.second)
        (word_apart r i.leads.third j (pmx va) bound
          (on_path i.leads.third (λ z. omega (arith, z, i.leads.third_level))) h (pmx-lt va)
          w.third)
        (word_apart r i.leads.table j (ptx va) bound
          (on_path i.leads.table (λ z. omega (arith, z, i.leads.table_level))) h (ptx-lt va) w.last)

  Away-levels : (r : ℕ) → Away r → i.levels r ≡ level r
  Away-levels r w = i.keeps_level r w.table

  -- Two entries that name the same table are one.
  one_parent :
      (r j b k c : ℕ)
      → Away r
      → j < 512
      → level r ≤ 3
      → Names s.mem r j c
      → i.levels b ≢ 0
      → i.levels b ≤ 3
      → k < 512
      → (d : ℕ) → Names t.mem b k d
      → c ≡ d
      → r ≡ b
  one_parent r j b k c w h lo n lb hb small d m same =
      let kept = Away-words r j w h in
      let level_r = Away-levels r w in
      (tree r j b k d (λ z. w.table (sym level_r ∙ z)) (omega (arith, level_r)) lb hb h small
        (subst (Names t.mem r j) same
          (record { valid = rw kept n.valid; target = rw kept n.target }))
        m).0

  Away-closed :
      (r j c : ℕ)
      → Away r
      → j < 512
      → Names s.mem r j c
      → level c ≡ 1 + level r
      → level r ≤ 3
      → Away c
  Away-closed r j c w h n deeper lo =
      let l = i.leads in
      let level_q = i.keeps_level q (λ z. omega (arith, z, top_q)) in
      record {
        table = λ z. omega (arith, z, deeper);
        root = λ e. w.table (omega (arith, ap level e, deeper, top_q));
        second = λ e. w.root (
            one_parent r j q (pgx va) c w h lo n (λ z. omega (arith, z, level_q, top_q))
              (omega (arith, level_q, top_q)) (pgx-lt va) l.second l.first_names e);
        third = λ e. w.second (
            one_parent r j l.second (pdx va) c w h lo n (λ z. omega (arith, z, l.second_level))
              (omega (arith, l.second_level)) (pdx-lt va) l.third l.second_names e);
        last = λ e. w.third (
            one_parent r j l.third (pmx va) c w h lo n (λ z. omega (arith, z, l.third_level))
              (omega (arith, l.third_level)) (pmx-lt va) l.table l.third_names e);
      }

  pub inserted-Absent :
      (p va' : ℕ) → level p ≡ 1 → p ≢ q → Absent s.mem level p va' → Absent t.mem i.levels p va'
  inserted-Absent p va' top ne =
      let l = i.leads in
      let level_p : i.levels p ≡ 1 = i.keeps_level p (λ z. omega (arith, z, top)) ∙ top in
      kept-Absent s.mem level t.mem i.levels Away Away-words Away-levels Away-closed p va' top
        (record {
          table = λ z. omega (arith, z, top);
          root = ne;
          second = λ e. omega (arith, ap i.levels e, level_p, l.second_level);
          third = λ e. omega (arith, ap i.levels e, level_p, l.third_level);
          last = λ e. omega (arith, ap i.levels e, level_p, l.table_level);
        })
