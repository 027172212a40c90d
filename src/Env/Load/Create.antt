-- ===== src/Env/Load/Create.antt =====
-- A new environment with a program: `load_icode` and `env_create`.
use raspberry_pi_3_jos.Prelude.{
  ℕ, ◌+◌, ◌-◌, ◌*◌, ◌≤◌, ◌<◌, ◌≡◌, sym, ap, ◌∙◌, ◌≢◌, inl, true, false, some, List, [], ◌∷◌, arith,
  length, All,
}
use mathlib.Core.Path.{subst}
use raspberry_pi_3_jos.Prelude.State.{
  Cmd, Result, ok, err, get, modify, ◌>>=◌, ◌>>◌, and_then, bind_some,
}
use raspberry_pi_3_jos.Queue.Chain.{elem}
use raspberry_pi_3_jos.Mmu.{by2pg, npage, attrib_ap_rw_all, ustacktop, page2pa}
use raspberry_pi_3_jos.Pmap.{Pmap, entry_perm, page_alloc, page_insert}
use raspberry_pi_3_jos.Pmap.Alloc.{taken, page_alloc-taken}
use raspberry_pi_3_jos.Pmap.Tables.{word, IsPaged, IsTree}
use raspberry_pi_3_jos.Pmap.Maps.{Maps}
use raspberry_pi_3_jos.Elf.{Phdr, ehdr, is_elf_format, load_elf}
use raspberry_pi_3_jos.Elf.Segments.{segments}
use raspberry_pi_3_jos.Env.{Kernel, edit, on_pmap, env_runnable, env_alloc}
use raspberry_pi_3_jos.Env.Free.{IsEnvs}
use raspberry_pi_3_jos.Env.Window.{Outside}
use raspberry_pi_3_jos.Env.Setup.{on_pmap-some}
use raspberry_pi_3_jos.Env.Alloc.{Allocated, env_alloc-Allocated}
use raspberry_pi_3_jos.Env.Load.{load_icode_mapper, load_icode, env_create}
use raspberry_pi_3_jos.Env.Load.Frame.{Frame, Frame-trans, Loaded, Loaded-keep}
use raspberry_pi_3_jos.Env.Load.Segment.{Segment}
use raspberry_pi_3_jos.Env.Load.Step.{stack_page-Segment}
use raspberry_pi_3_jos.Env.Load.Program.{
  size_of, total, bytes_of, IsLayout, OutsideAll, Program, load_elf-Program,
}

abbrev pub stack_page : ℕ
stack_page = ustacktop - by2pg

-- The stack and the segments are in the directory `p`.
pub record Image (s : Pmap) (level : ℕ → ℕ) (xs : List ℕ) (p : ℕ) (image : ℕ → ℕ) (t : Pmap)
    : Type 0 where
  pub frame :
      Frame s level xs
        (1 + total (segments image))
        (λ q v. Outside p stack_page 1 q v × OutsideAll p (segments image) q v)
        t
  pub stack : Loaded t frame.levels frame.free 1 p stack_page (λ _. 0)
  pub pages :
      All
        (λ (h : Phdr).
          (i : ℕ)
          → i < size_of h
          → Loaded t frame.levels frame.free 2 p
              (h.p_vaddr + i * by2pg)
              (λ k. bytes_of image h (i * by2pg + k)))
        (segments image)

join-Image :
    (s : Pmap) (level : ℕ → ℕ) (xs : List ℕ) (p : ℕ) (image : ℕ → ℕ) (t u : Pmap)
    → level p ≡ 1
    → OutsideAll p (segments image) p stack_page
    → (a : Segment s level xs 1 p stack_page 1 (λ _. 0) t)
    → Program t a.frame.levels a.frame.free p image (segments image) u
    → Image s level xs p image u
unfolding Frame-trans
join-Image s level xs p image t u top clear a b =
    let first : stack_page + 0 * by2pg ≡ stack_page = omega arith in
    record {
      frame =
          Frame-trans a.frame b.frame
            (λ q v. Outside p stack_page 1 q v × OutsideAll p (segments image) q v)
            (λ q v far. far);
      stack =
          Loaded-keep b.frame 1 p stack_page (λ _. 0)
            (a.frame.keeps_level p (λ z. omega arith) ∙ top) clear
            (subst (λ v. Loaded t a.frame.levels a.frame.free 1 p v (λ _. 0)) first
              (a.pages 0 (omega arith)));
      pages = b.pages;
    }

-- The last step of `load_icode`.
started_at : (entry_point e : ℕ) → Result ℕ → Kernel → Kernel
started_at entry_point e r = edit e (λ v. record v {
  env_tf = record v.env_tf { elr = elim r [ err _ ↦ entry_point | ok entry ↦ entry ] };
})

load_icode-runs :
    (entry_point e p x size : ℕ) (image : ℕ → ℕ) (s : Kernel) (t u : Pmap) (entry : ℕ)
    → (s.envs e).env_pgdir ≡ page2pa p
    → page_alloc s.pmap ≡ some (x, taken x s.pmap)
    → page_insert (page2pa p) x stack_page attrib_ap_rw_all (taken x s.pmap) ≡ some (tt, t)
    → load_elf (load_icode_mapper image e) image size (record s { pmap = t })
      ≡ some (ok entry, record s { pmap = u })
    → load_icode entry_point e image size s
      ≡ some (tt, started_at entry_point e (ok entry) (record s { pmap = u }))
unfolding load_icode started_at
load_icode-runs entry_point e p x size image s t u entry dir alloc insert load =
    let s' = record s { pmap = taken x s.pmap } in
    let last : Cmd Kernel (Unit {0}) = load_elf (load_icode_mapper image e) image size >>= λ r.
    modify (
      edit e (λ v. record v {
        env_tf = record v.env_tf { elr = elim r [ err _ ↦ entry_point | ok entry ↦ entry ] };
      })) in
    bind_some (on_pmap page_alloc)
      (λ q. do
        k ← get
        on_pmap (page_insert (k.envs e).env_pgdir q stack_page attrib_ap_rw_all)
        last)
      s (on_pmap-some page_alloc s alloc)
    ∙ ap
        (λ (d : ℕ). and_then (on_pmap (page_insert d x stack_page attrib_ap_rw_all) s') (λ _. last))
        dir
    ∙ ap (λ r. and_then r (λ _. last))
        (on_pmap-some (page_insert (page2pa p) x stack_page attrib_ap_rw_all) s' insert)
    ∙ ap
        (λ r. and_then r (λ r. modify (
          edit e (λ v. record v {
            env_tf = record v.env_tf { elr = elim r [ err _ ↦ entry_point | ok entry ↦ entry ] };
          }))))
        load

load_icode-Image :
    (entry_point e p size : ℕ) (image : ℕ → ℕ) (s : Kernel) (level : ℕ → ℕ) (xs : List ℕ)
    → (s.envs e).env_pgdir ≡ page2pa p
    → IsPaged s.pmap level xs
    → IsTree s.pmap.mem level
    → level p ≡ 1
    → 4 ≤ size
    → is_elf_format image ≡ true
    → IsLayout (segments image)
    → OutsideAll p (segments image) p stack_page
    → 4 * (1 + total (segments image)) ≤ length xs
    → (u : Pmap) × (load_icode entry_point e image size s
        ≡ some (tt, started_at entry_point e (ok (ehdr image).e_entry) (record s { pmap = u })))
      × Image s.pmap level xs p image u
load_icode-Image entry_point e p size image s level [] dir v tree top long elf apart clear room =
    absurd (omega arith)
load_icode-Image entry_point e p size image s level (x ∷ xs) dir v tree top long elf apart clear
      room =
    let (t, insert, a) =
      stack_page-Segment s.pmap level x xs p stack_page v tree top (omega arith) in
    let (u, load, b) =
      load_elf-Program image e p size (record s { pmap = t }) a.frame.levels a.frame.free dir
        a.frame.paged a.frame.tree (a.frame.keeps_level p (λ z. omega arith) ∙ top) long elf apart
        (omega (arith, a.frame.used)) in
    (
      u,
      load_icode-runs entry_point e p x size image s t u (ehdr image).e_entry dir
          (page_alloc-taken v.alloc) insert load,
      join-Image s.pmap level (x ∷ xs) p image t u top clear a b,
    )

-- What `env_create` leaves behind: the slot `e` runs the image from its entry point in the
-- directory `x`.
pub record Created (s : Kernel) (level : ℕ → ℕ) (x : ℕ) (xs : List ℕ) (e : ℕ) (es : List ℕ)
    (image : ℕ → ℕ) (t : Kernel) : Type 0 where
  pub middle : Pmap
  pub levels : ℕ → ℕ
  pub free : List ℕ
  pub used : length xs ≤ 2592 + length free
  pub image_loaded : Image middle levels free x image t.pmap
  pub listed : IsEnvs t es
  pub runnable : (t.envs e).env_status ≡ env_runnable
  pub start : (t.envs e).env_tf.elr ≡ (ehdr image).e_entry
  pub stack : (t.envs e).env_tf.sp ≡ ustacktop
  pub directory : (t.envs e).env_pgdir ≡ page2pa x
  pub others : (d : ℕ) → d ≢ e → t.envs d ≡ s.envs d
  pub keeps_level : (r : ℕ) → level r ≢ 0 → image_loaded.frame.levels r ≡ level r
  pub directory_level : image_loaded.frame.levels x ≡ 1
  pub keeps_data :
      (q i : ℕ)
      → q < npage
      → i < 512
      → elem q (x ∷ xs) ≡ false
      → level q ≡ 0
      → t.pmap.mem (word q i) ≡ s.pmap.mem (word q i)
  pub mappings :
      (p va pp perm : ℕ)
      → level p ≡ 1
      → pp < npage
      → perm < 4096
      → Maps s.pmap.mem level p va pp (entry_perm perm)
      → Maps t.pmap.mem image_loaded.frame.levels p va pp (entry_perm perm)

away_all : (x : ℕ) (hs : List Phdr) (q v : ℕ) → q ≢ x → OutsideAll x hs q v
away_all x [] q v ne = tt
away_all x (h ∷ hs) q v ne = (λ j k. inl ne, away_all x hs q v ne)

created :
    (entry_point e x : ℕ) (xs es : List ℕ) (image : ℕ → ℕ) (s : Kernel) (level : ℕ → ℕ) (t : Kernel)
    (u : Pmap)
    → level x ≡ 0
    → (a : Allocated s level x xs e es 0 t) → Image t.pmap a.tables.levels a.tables.free x image u
    → Created s level x xs e es image
        (started_at entry_point e (ok (ehdr image).e_entry) (record t { pmap = u }))
unfolding started_at
created entry_point e x xs es image s level t u new a b = record {
  middle = t.pmap;
  levels = a.tables.levels;
  free = a.tables.free;
  used = a.tables.used;
  image_loaded = b;
  listed = record { queue = a.listed.queue; listed = λ d h. ground (arith, a.listed.listed d h) };
  runnable = ground (arith, a.runnable);
  start = ground arith;
  stack = ground (arith, a.stack);
  directory = ground (arith, a.directory);
  others = λ d ne. ground (arith, a.others d ne);
  keeps_level = λ r h.
      let middle = a.tables.keeps_level r h in
      b.frame.keeps_level r (λ z. h (sym middle ∙ z)) ∙ middle;
  directory_level =
      b.frame.keeps_level x (λ z. omega (arith, a.tables.directory)) ∙ a.tables.directory;
  keeps_data = λ q i h k o z.
      b.frame.keeps_data q i h k (a.tables.fewer q o) (a.tables.stays q o z)
      ∙ a.tables.keeps_data q i h k o z;
  mappings = λ p va pp perm top k small m.
      let ne : p ≢ x = λ same. omega (arith, ap level same, new) in
      b.frame.others p va pp perm (a.tables.keeps_level p (λ z. omega arith) ∙ top) k small
        (λ j h. inl ne, away_all x (segments image) p va ne)
        (a.tables.others p va pp perm top k small m);
}

-- With a free slot and enough free pages `env_create` of an ELF file, whose segments begin at page
-- boundaries and share no page with each other or the stack, returns: the first free slot is
-- runnable at the entry point of the file, with its stack and every segment in a directory of its
-- own, while the other environments, the mappings of their directories and the words of the pages
-- that are in use and no tables are what they were.
pub env_create-Created :
    (entry_point e x size : ℕ) (image : ℕ → ℕ) (s : Kernel) (level : ℕ → ℕ) (xs es : List ℕ)
    → IsEnvs s (e ∷ es)
    → IsPaged s.pmap level (x ∷ xs)
    → IsTree s.pmap.mem level
    → 4 ≤ size
    → is_elf_format image ≡ true
    → IsLayout (segments image)
    → OutsideAll x (segments image) x stack_page
    → 2596 + 4 * total (segments image) ≤ length xs
    → (t : Kernel) × (env_create entry_point image size s ≡ some (tt, t))
      × Created s level x xs e es image t
unfolding env_create
env_create-Created entry_point e x size image s level xs es v paged tree long elf apart clear room =
    let (t, alloc, a) = env_alloc-Allocated s 0 e es level x xs v paged tree (omega arith) in
    let (u, load, b) =
      load_icode-Image entry_point e x size image t a.tables.levels a.tables.free a.directory
        a.tables.paged a.tables.tree a.tables.directory long elf apart clear
        (omega (arith, a.tables.used)) in
    (
      started_at entry_point e (ok (ehdr image).e_entry) (record t { pmap = u }),
      bind_some (env_alloc 0) (λ e. load_icode entry_point e image size) s alloc ∙ load,
      created entry_point e x xs es image s level t u (paged.free x (ground arith)) a b,
    )
