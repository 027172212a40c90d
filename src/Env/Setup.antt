-- ===== src/Env/Setup.antt =====
-- The address space of a new environment: `env_setup_vm`.
use raspberry_pi_3_jos.Prelude.{
  ℕ, ◌+◌, ◌*◌, ◌≤◌, ◌<◌, ◌≡◌, sym, ap, ◌∙◌, ◌≢◌, inl, inr, false, Option, none, some, List, ◌∷◌,
  arith, length,
}
use raspberry_pi_3_jos.Prelude.State.{Cmd, ◌>>◌, modify, bind_some}
use raspberry_pi_3_jos.Queue.Chain.{elem}
use raspberry_pi_3_jos.Mmu.{npage, attrib_ap_ro_all, kaddr, page2pa}
use raspberry_pi_3_jos.Pmap.{Pmap, entry_perm, page_alloc, raise_ref}
use raspberry_pi_3_jos.Pmap.Alloc.{taken, page_alloc-taken}
use raspberry_pi_3_jos.Pmap.Tables.{word, IsPaged, IsTree}
use raspberry_pi_3_jos.Pmap.Maps.{Maps, Maps-grow}
use raspberry_pi_3_jos.Pmap.Root.{rooted, root_level, rooted-Grows, rooted-IsPaged}
use raspberry_pi_3_jos.Env.Window.{Windowed, read_only, map_window-Windowed}
use raspberry_pi_3_jos.Env.{
  Env, Kernel, edit, on_pmap, map_window, uenvs, upages, envs_pages, pages_pages, pages_window,
  env_setup_vm,
}

-- The pages that the two windows show.
abbrev pub envs_page : ℕ
envs_page = 0x1700

abbrev pub pages_page : ℕ
pages_page = 0x11400

-- What `env_setup_vm` leaves in the tables: a new directory `x` with its two windows.
pub record Setup (s : Pmap) (level : ℕ → ℕ) (x : ℕ) (xs : List ℕ) (t : Pmap) : Type 0 where
  pub levels : ℕ → ℕ
  pub free : List ℕ
  pub paged : IsPaged t levels free
  pub tree : IsTree t.mem levels
  pub keeps_level : (r : ℕ) → level r ≢ 0 → levels r ≡ level r
  pub directory : levels x ≡ 1
  pub used : length xs ≤ 2592 + length free
  pub fewer : (y : ℕ) → elem y (x ∷ xs) ≡ false → elem y free ≡ false
  pub stays : (y : ℕ) → elem y (x ∷ xs) ≡ false → level y ≡ 0 → levels y ≡ 0
  pub keeps_data :
      (q i : ℕ)
      → q < npage
      → i < 512
      → elem q (x ∷ xs) ≡ false
      → level q ≡ 0
      → t.mem (word q i) ≡ s.mem (word q i)
  pub envs_window :
      (i : ℕ) → i < envs_pages → Maps t.mem levels x (uenvs + i * 4096) (envs_page + i) read_only
  pub pages_window :
      (i : ℕ) → i < pages_pages → Maps t.mem levels x (upages + i * 4096) (pages_page + i) read_only
  pub others :
      (p va pp perm : ℕ)
      → level p ≡ 1
      → pp < npage
      → perm < 4096
      → Maps s.mem level p va pp (entry_perm perm)
      → Maps t.mem levels p va pp (entry_perm perm)

pub on_pmap-some :
    {A : Type 0} (m : Cmd Pmap A) (s : Kernel) {a : A} {p : Pmap}
    → m s.pmap ≡ some (a, p)
    → on_pmap m s ≡ some (a, record s { pmap = p })
on_pmap-some {A} m s e =
    ap
      (λ (o : Option (A × Pmap)). elim o as (λ _. Option (A × Kernel)) [
        | none ↦ none
        | some (a, p) ↦ some (a, record s { pmap = p })
      ])
      e

abbrev directory_of : ℕ → Env → Env
directory_of x v = record v { env_pgdir = page2pa x }

-- The two loops.
windows : ℕ → Cmd Kernel (Unit {0})
windows p = do
  on_pmap (map_window envs_pages (kaddr (page2pa p)) 0x0170_0000 uenvs)
  on_pmap (map_window pages_pages (kaddr (page2pa p)) pages_window upages)

env_setup_vm-windows :
    (e x : ℕ) (s : Kernel)
    → page_alloc s.pmap ≡ some (x, taken x s.pmap)
    → env_setup_vm e s ≡ windows x (edit e (directory_of x) (record s { pmap = rooted x s.pmap }))
unfolding env_setup_vm windows
env_setup_vm-windows e x s runs =
    bind_some (on_pmap page_alloc)
      (λ p. do
        on_pmap (modify (raise_ref p))
        modify (edit e (directory_of p))
        on_pmap (map_window envs_pages (kaddr (page2pa p)) 0x0170_0000 uenvs)
        on_pmap (map_window pages_pages (kaddr (page2pa p)) pages_window upages))
      s (on_pmap-some page_alloc s runs)

windows-runs :
    (p : ℕ) (s : Kernel) (t u : Pmap)
    → map_window envs_pages (kaddr (page2pa p)) (page2pa envs_page) uenvs s.pmap ≡ some (tt, t)
    → map_window pages_pages (kaddr (page2pa p)) (page2pa pages_page) upages t ≡ some (tt, u)
    → windows p s ≡ some (tt, record s { pmap = u })
unfolding windows page2pa
windows-runs p s t u first second =
    bind_some (on_pmap (map_window envs_pages (kaddr (page2pa p)) 0x0170_0000 uenvs))
      (λ _. on_pmap (map_window pages_pages (kaddr (page2pa p)) pages_window upages)) s
      (on_pmap-some (map_window envs_pages (kaddr (page2pa p)) 0x0170_0000 uenvs) s first)
    ∙ on_pmap-some (map_window pages_pages (kaddr (page2pa p)) pages_window upages)
        (record s { pmap = t }) second

root_top :
    {s : Pmap} {level : ℕ → ℕ} {x : ℕ} {xs : List ℕ} (v : IsPaged s level (x ∷ xs))
    → root_level v x ≡ 1
root_top v = ground arith

module _ {s : Pmap} {level : ℕ → ℕ} {x : ℕ} {xs : List ℕ} (v : IsPaged s level (x ∷ xs))
    (tree : IsTree s.mem level) (t u : Pmap)
    (w : Windowed (rooted x s) (root_level v) xs x uenvs envs_page envs_pages t)
    (y : Windowed t w.levels w.free x upages pages_page pages_pages u) where
  not_root : (p : ℕ) → level p ≢ 0 → p ≢ x
  not_root p h e = h (ap level e ∙ v.free x (ground arith))

  middle_level : (r : ℕ) → level r ≢ 0 → w.levels r ≡ level r
  middle_level r h =
      let grown = (rooted-Grows v).keeps_level r h in
      w.keeps_level r (λ z. h (sym grown ∙ z)) ∙ grown

  middle_top : w.levels x ≡ 1
  middle_top = w.keeps_level x (λ z. omega (arith, root_top v)) ∙ root_top v

  unlisted : (q : ℕ) → elem q (x ∷ xs) ≡ false → elem q xs ≡ false
  unlisted q o = ground arith

  rooted_zero : (q : ℕ) → elem q (x ∷ xs) ≡ false → level q ≡ 0 → root_level v q ≡ 0
  rooted_zero q o z = ground arith

  setup : Setup s level x xs u
  setup = record {
    levels = y.levels;
    free = y.free;
    paged = y.paged;
    tree = y.tree;
    keeps_level =
        λ r h. let middle = middle_level r h in y.keeps_level r (λ z. h (sym middle ∙ z)) ∙ middle;
    directory = y.keeps_level x (λ z. omega (arith, middle_top)) ∙ middle_top;
    used = omega (arith, w.used, y.used);
    fewer = λ q o. y.fewer q (w.fewer q (unlisted q o));
    stays = λ q o z.
        let rest = unlisted q o in y.stays q (w.fewer q rest) (w.stays q rest (rooted_zero q o z));
    keeps_data = λ q i b k o z.
        let rest = unlisted q o in
        let zero = rooted_zero q o z in
        y.keeps_data q i b k (w.fewer q rest) (w.stays q rest zero)
        ∙ w.keeps_data q i b k rest zero
        ∙ (rooted-Grows v).keeps_data q i b k zero;
    envs_window = λ i h.
        y.others x (uenvs + i * 4096) (envs_page + i) attrib_ap_ro_all middle_top (omega arith)
          (omega arith) (λ j g. inr (λ e. omega arith)) (w.window i h);
    pages_window = y.window;
    others = λ p va pp perm top k small m.
        let ne = not_root p (λ z. omega arith) in
        let root = (rooted-Grows v).keeps_level p (λ z. omega arith) ∙ top in
        let middle = middle_level p (λ z. omega arith) ∙ top in
        y.others p va pp perm middle k small (λ j g. inl ne)
          (w.others p va pp perm root k small (λ j g. inl ne)
            (Maps-grow s level (rooted x s) (root_level v) p va pp perm (rooted-Grows v) top k small
              m));
  }

-- With 2593 free pages `env_setup_vm` returns: the environment has a new directory, which shows the
-- pages of `envs` at UENVS and the pages from 0x11400000 on at UPAGES, read-only; the tables stay a
-- well-formed tree and every mapping of another directory stays.
pub env_setup_vm-Setup :
    (s : Kernel) (e : ℕ) (level : ℕ → ℕ) (x : ℕ) (xs : List ℕ)
    → IsPaged s.pmap level (x ∷ xs)
    → IsTree s.pmap.mem level
    → 2592 ≤ length xs
    → (t : Pmap) × (env_setup_vm e s
        ≡ some (tt, record (edit e (λ v. record v { env_pgdir = page2pa x }) s) { pmap = t }))
      × Setup s.pmap level x xs t
env_setup_vm-Setup s e level x xs v tree room =
    let (t, first, w) =
      map_window-Windowed envs_pages (rooted x s.pmap) (root_level v) xs x uenvs envs_page
        (rooted-IsPaged v) ((rooted-Grows v).keeps_tree tree) (root_top v) (omega arith)
        (omega arith) in
    let (u, second, y) =
      map_window-Windowed pages_pages t w.levels w.free x upages pages_page w.paged w.tree
        (w.keeps_level x (λ z. omega (arith, root_top v)) ∙ root_top v) (omega (arith, w.used))
        (omega arith) in
    (
      u,
      env_setup_vm-windows e x s (page_alloc-taken v.alloc)
          ∙ windows-runs x (edit e (directory_of x) (record s { pmap = rooted x s.pmap })) t u first
              second,
      setup v tree t u w y,
    )
