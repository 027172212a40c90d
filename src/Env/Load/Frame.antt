-- ===== src/Env/Load/Frame.antt =====
-- What loading leaves alone: tables, the pages in use and the mappings of other addresses.
use raspberry_pi_3_jos.Prelude.{
  ℕ, ◌+◌, ◌*◌, ◌≤◌, ◌<◌, ◌≡◌, refl, sym, ◌∙◌, ◌≢◌, false, List, arith, length,
}
use raspberry_pi_3_jos.Queue.Chain.{elem}
use raspberry_pi_3_jos.Mmu.{npage, attrib_ap_rw_all}
use raspberry_pi_3_jos.Pmap.{Pmap, entry_perm}
use raspberry_pi_3_jos.Pmap.Tables.{word, IsPaged, IsTree}
use raspberry_pi_3_jos.Pmap.Bytes.{Holds, Holds-keep}
use raspberry_pi_3_jos.Pmap.Maps.{Maps}

abbrev pub read_write : ℕ
read_write = entry_perm attrib_ap_rw_all

-- At most `4 * n` free pages were used, and the mappings of the addresses that are `Far` stay.
pub record Frame (s : Pmap) (level : ℕ → ℕ) (xs : List ℕ) (n : ℕ) (Far : ℕ → ℕ → Type 0) (t : Pmap)
    : Type 0 where
  pub levels : ℕ → ℕ
  pub free : List ℕ
  pub paged : IsPaged t levels free
  pub tree : IsTree t.mem levels
  pub keeps_level : (r : ℕ) → level r ≢ 0 → levels r ≡ level r
  pub used : length xs ≤ 4 * n + length free
  pub fewer : (y : ℕ) → elem y xs ≡ false → elem y free ≡ false
  pub stays : (y : ℕ) → elem y xs ≡ false → level y ≡ 0 → levels y ≡ 0
  pub keeps_data :
      (q i : ℕ)
      → q < npage
      → i < 512
      → elem q xs ≡ false
      → level q ≡ 0
      → t.mem (word q i) ≡ s.mem (word q i)
  pub keeps_ref : (q : ℕ) → elem q xs ≡ false → level q ≡ 0 → t.pp_ref q ≡ s.pp_ref q
  pub others :
      (p' va' pp' perm' : ℕ)
      → level p' ≡ 1
      → pp' < npage
      → perm' < 4096
      → Far p' va'
      → Maps s.mem level p' va' pp' (entry_perm perm')
      → Maps t.mem levels p' va' pp' (entry_perm perm')

unfoldable pub Frame-refl :
    (s : Pmap) (level : ℕ → ℕ) (xs : List ℕ) (Far : ℕ → ℕ → Type 0)
    → IsPaged s level xs
    → IsTree s.mem level
    → Frame s level xs 0 Far s
Frame-refl s level xs Far v tree = record {
  levels = level;
  free = xs;
  paged = v;
  tree = tree;
  keeps_level = λ r h. refl;
  used = omega arith;
  fewer = λ y h. h;
  stays = λ y h z. z;
  keeps_data = λ q i b k h z. refl;
  keeps_ref = λ q h z. refl;
  others = λ p' va' pp' perm' top' k small far m. m;
}

unfoldable pub Frame-trans :
    {s : Pmap} {level : ℕ → ℕ} {xs : List ℕ} {n m : ℕ} {Far Far' : ℕ → ℕ → Type 0} {t u : Pmap}
    (a : Frame s level xs n Far t) (b : Frame t a.levels a.free m Far' u) (Both : ℕ → ℕ → Type 0)
    → ((p va : ℕ) → Both p va → Far p va × Far' p va)
    → Frame s level xs (n + m) Both u
Frame-trans a b Both within = record {
  levels = b.levels;
  free = b.free;
  paged = b.paged;
  tree = b.tree;
  keeps_level = λ r h. b.keeps_level r (λ z. h (sym (a.keeps_level r h) ∙ z)) ∙ a.keeps_level r h;
  used = omega (arith, a.used, b.used);
  fewer = λ y h. b.fewer y (a.fewer y h);
  stays = λ y h z. b.stays y (a.fewer y h) (a.stays y h z);
  keeps_data =
      λ q i k h o z. b.keeps_data q i k h (a.fewer q o) (a.stays q o z) ∙ a.keeps_data q i k h o z;
  keeps_ref = λ q o z. b.keeps_ref q (a.fewer q o) (a.stays q o z) ∙ a.keeps_ref q o z;
  others = λ p va pp perm one k small both map.
      let far = within p va both in
      b.others p va pp perm (a.keeps_level p (λ z. omega arith) ∙ one) k small far.1
        (a.others p va pp perm one k small far.0 map);
}

-- The page `page` is mapped at `va`, has the count `c` and holds the bytes `f`.
pub record Loaded (t : Pmap) (level : ℕ → ℕ) (free : List ℕ) (c p va : ℕ) (f : ℕ → ℕ) : Type 0 where
  pub page : ℕ
  pub bound : page < npage
  pub maps : Maps t.mem level p va page read_write
  pub count : t.pp_ref page ≡ c
  pub holds : Holds t.mem page f
  pub used : elem page free ≡ false
  pub plain : level page ≡ 0

pub Loaded-keep :
    {t : Pmap} {level : ℕ → ℕ} {free : List ℕ} {m : ℕ} {Far : ℕ → ℕ → Type 0} {u : Pmap}
    (b : Frame t level free m Far u) (c p va : ℕ) (f : ℕ → ℕ)
    → level p ≡ 1
    → Far p va
    → Loaded t level free c p va f
    → Loaded u b.levels b.free c p va f
Loaded-keep {t} {level} {free} {m} {Far} {u} b c p va f top far l = record {
  page = l.page;
  bound = l.bound;
  maps = b.others p va l.page attrib_ap_rw_all top l.bound (omega arith) far l.maps;
  count = b.keeps_ref l.page l.used l.plain ∙ l.count;
  holds =
      Holds-keep t.mem u.mem l.page f l.bound
        (λ j k. b.keeps_data l.page j l.bound k l.used l.plain) l.holds;
  used = b.fewer l.page l.used;
  plain = b.stays l.page l.used l.plain;
}
