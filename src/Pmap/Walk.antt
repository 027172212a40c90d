-- ===== src/Pmap/Walk.antt =====
-- `pgdir_walk`: the path of tables from a page directory to the entry of an address.
use raspberry_pi_3_jos.Prelude.{
  ℕ, ◌+◌, ◌*◌, ◌^◌, ◌≤◌, ◌<◌, ◌≡◌, ◌≢◌, sym, ◌∙◌, Bool, true, false, some, List, arith, length,
}
use raspberry_pi_3_jos.Queue.Chain.{elem}
use raspberry_pi_3_jos.Mmu.{npage, pgx, pdx, pmx, ptx, kaddr, page2pa}
use raspberry_pi_3_jos.Mmu.Fields.{kaddr-eq, page2kva-eq, pgx-eq, pdx-eq, pmx-eq, ptx-eq}
use raspberry_pi_3_jos.Pmap.{Pmap, next_of_level, pgdir_walk}
use raspberry_pi_3_jos.Pmap.Tables.{word, Names, IsPaged, Grows, Grows-trans, Names-grow}
use raspberry_pi_3_jos.Pmap.Enter.{Entered, next_entry-valid, next_entry-Entered}

-- Every level of the walk for `va` from the directory `p` is valid; `table` holds its entry.
pub record Leads (mem : ℕ → ℕ) (level : ℕ → ℕ) (p va : ℕ) : Type 0 where
  pub second : ℕ
  pub third : ℕ
  pub table : ℕ
  pub first_names : Names mem p (pgx va) second
  pub second_names : Names mem second (pdx va) third
  pub third_names : Names mem third (pmx va) table
  pub second_level : level second ≡ 2
  pub third_level : level third ≡ 3
  pub table_level : level table ≡ 4

pub pgx-lt : (va : ℕ) → pgx va < 512
pgx-lt va = omega (arith, pgx-eq va)

pub pdx-lt : (va : ℕ) → pdx va < 512
pdx-lt va = omega (arith, pdx-eq va)

pub pmx-lt : (va : ℕ) → pmx va < 512
pmx-lt va = omega (arith, pmx-eq va)

pub ptx-lt : (va : ℕ) → ptx va < 512
ptx-lt va = omega (arith, ptx-eq va)

-- The first entry is found from the directory's physical address.
pub first_entry : (p i : ℕ) → p < npage → i < 512 → kaddr (page2pa p + 8 * i) ≡ word p i
unfolding page2pa
first_entry p i h k =
    omega (arith, kaddr-eq (p * 2 ^ 12 + 8 * i) (omega arith), page2kva-eq p (omega arith))

-- On a path whose tables are there the walk changes nothing and finds the entry.
pub pgdir_walk-Leads :
    (s : Pmap) (level : ℕ → ℕ) (p va : ℕ) (create : Bool)
    → p < npage
    → (l : Leads s.mem level p va)
    → pgdir_walk (page2pa p) va create s ≡ some (some (word l.table (ptx va)), s)
unfolding pgdir_walk next_of_level
pgdir_walk-Leads s level p va create h l = rw (
  first_entry p (pgx va) h (pgx-lt va),
  next_entry-valid s p (pgx va) l.second (pdx va) create l.first_names,
  next_entry-valid s l.second (pdx va) l.third (pmx va) create l.second_names,
  next_entry-valid s l.third (pmx va) l.table (ptx va) create l.third_names,
)

-- A path stays where tables are added.
pub Leads-grow :
    (s : Pmap) (level : ℕ → ℕ) (t : Pmap) (level' : ℕ → ℕ) (p va : ℕ)
    → Grows s level t level'
    → level p ≡ 1
    → Leads s.mem level p va
    → Leads t.mem level' p va
Leads-grow s level t level' p va g top l = record {
  second = l.second;
  third = l.third;
  table = l.table;
  first_names =
      Names-grow s level t level' p (pgx va) l.second g (omega arith) (pgx-lt va) l.first_names;
  second_names =
      Names-grow s level t level' l.second (pdx va) l.third g (omega (arith, l.second_level))
        (pdx-lt va) l.second_names;
  third_names =
      Names-grow s level t level' l.third (pmx va) l.table g (omega (arith, l.third_level))
        (pmx-lt va) l.third_names;
  second_level = g.keeps_level l.second (omega (arith, l.second_level)) ∙ l.second_level;
  third_level = g.keeps_level l.third (omega (arith, l.third_level)) ∙ l.third_level;
  table_level = g.keeps_level l.table (omega (arith, l.table_level)) ∙ l.table_level;
}

-- What the walk that creates tables gives.
pub record Walked (s : Pmap) (level : ℕ → ℕ) (xs : List ℕ) (p va : ℕ) : Type 0 where
  pub state : Pmap
  pub levels : ℕ → ℕ
  pub free : List ℕ
  pub leads : Leads state.mem levels p va
  pub runs : pgdir_walk (page2pa p) va true s ≡ some (some (word leads.table (ptx va)), state)
  pub paged : IsPaged state levels free
  pub grows : Grows s level state levels
  pub used : length xs ≤ 3 + length free
  pub fewer : (y : ℕ) → elem y xs ≡ false → elem y free ≡ false
  pub stays : (y : ℕ) → elem y xs ≡ false → level y ≡ 0 → levels y ≡ 0
  pub only :
      (r j : ℕ)
      → level r ≢ 0
      → j < 512
      → word r j ≢ word p (pgx va)
      → word r j ≢ word leads.second (pdx va)
      → word r j ≢ word leads.third (pmx va)
      → state.mem (word r j) ≡ s.mem (word r j)

module _ {s : Pmap} {level : ℕ → ℕ} {xs : List ℕ} (v : IsPaged s level xs) (p va : ℕ)
    (top : level p ≡ 1) (room : 3 ≤ length xs) where
  a : Entered s level xs p (pgx va) (pdx va)
  a = next_entry-Entered v p (pgx va) (pdx va) (omega arith) (omega arith) (pgx-lt va) (omega arith)

  b : Entered a.state a.levels a.free a.table (pdx va) (pmx va)
  b =
      next_entry-Entered a.paged a.table (pdx va) (pmx va) (omega (arith, a.deeper))
        (omega (arith, a.deeper)) (pdx-lt va) (omega (arith, a.used))

  c : Entered b.state b.levels b.free b.table (pmx va) (ptx va)
  c =
      next_entry-Entered b.paged b.table (pmx va) (ptx va) (omega (arith, a.deeper, b.deeper))
        (omega (arith, a.deeper, b.deeper)) (pmx-lt va) (omega (arith, a.used, b.used))

  ab-Grows : Grows a.state a.levels c.state c.levels
  ab-Grows = Grows-trans a.state a.levels b.state b.levels c.state c.levels b.grows c.grows

  a_level : a.levels a.table ≡ 2
  a_level = omega (arith, a.deeper)

  b_level : b.levels b.table ≡ 3
  b_level = omega (arith, a.deeper, b.deeper)

  leads : Leads c.state.mem c.levels p va
  leads = record {
    second = a.table;
    third = b.table;
    table = c.table;
    first_names =
        Names-grow a.state a.levels c.state c.levels p (pgx va) a.table ab-Grows
          (omega (arith, a.grows.keeps_level p (omega arith))) (pgx-lt va) a.names;
    second_names =
        Names-grow b.state b.levels c.state c.levels a.table (pdx va) b.table c.grows
          (omega (arith, a_level, b.grows.keeps_level a.table (omega (arith, a_level)))) (pdx-lt va)
          b.names;
    third_names = c.names;
    second_level = ab-Grows.keeps_level a.table (omega (arith, a_level)) ∙ a_level;
    third_level = c.grows.keeps_level b.table (omega (arith, b_level)) ∙ b_level;
    table_level = omega (arith, c.deeper, b_level);
  }

  walk_runs : pgdir_walk (page2pa p) va true s ≡ some (some (word c.table (ptx va)), c.state)
  unfolding pgdir_walk next_of_level
  walk_runs =
      rw (first_entry p (pgx va) (v.tables p (omega arith)) (pgx-lt va), a.runs, b.runs, c.runs)

  pub walked : Walked s level xs p va
  unfolding leads
  walked = record {
    state = c.state;
    levels = c.levels;
    free = c.free;
    leads = leads;
    runs = walk_runs;
    paged = c.paged;
    grows = Grows-trans s level a.state a.levels c.state c.levels a.grows ab-Grows;
    used = omega (arith, a.used, b.used, c.used);
    fewer = λ y h. c.fewer y (b.fewer y (a.fewer y h));
    stays = λ y h z.
        let first = a.fewer y h in c.stays y (b.fewer y first) (b.stays y first (a.stays y h z));
    only = λ r j h k ne ne' ne''.
        let one : a.levels r ≢ 0 = λ z. h (sym (a.grows.keeps_level r h) ∙ z) in
        let two : b.levels r ≢ 0 = λ z. one (sym (b.grows.keeps_level r one) ∙ z) in
        c.only r j two k ne'' ∙ b.only r j one k ne' ∙ a.only r j h k ne;
  }
