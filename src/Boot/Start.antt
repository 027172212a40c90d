-- ===== src/Boot/Start.antt =====
-- `main` returns, with both programs in environments of their own.
use raspberry_pi_3_jos.Prelude.{
  ℕ, zero, suc, ◌+◌, ◌-◌, ◌*◌, ◌≤◌, ◌≡◌, ◌≢◌, refl, sym, ap, ◌∙◌, true, some, List, [], ◌∷◌, arith,
  length,
}
use mathlib.Core.Path.{subst}
use raspberry_pi_3_jos.Prelude.State.{bind_some}
use raspberry_pi_3_jos.Mmu.{npage}
use raspberry_pi_3_jos.Pmap.{Pmap, used_index, page_init}
use raspberry_pi_3_jos.Pmap.Alloc.{IsAlloc, page_init-IsAlloc, count_down}
use raspberry_pi_3_jos.Pmap.Tables.{IsPaged, IsTree}
use raspberry_pi_3_jos.Elf.{is_elf_format}
use raspberry_pi_3_jos.Elf.Segments.{segments}
use raspberry_pi_3_jos.Env.{Kernel, env_init}
use raspberry_pi_3_jos.Env.Free.{IsEnvs, slots_upto, env_init-pmap}
use raspberry_pi_3_jos.Env.Load.{env_create}
use raspberry_pi_3_jos.Env.Load.Program.{total, IsLayout, OutsideAll}
use raspberry_pi_3_jos.Env.Load.Create.{Created, stack_page, env_create-Created}
use raspberry_pi_3_jos.Boot.Shown.{Shows, later-Shown, later-All}
use raspberry_pi_3_jos.Boot.Keeps.{env_init-IsKernel}
use raspberry_pi_3_jos.Boot.{load_program, main}

pub count_down-head :
    (n i : ℕ) (xs : List ℕ) → count_down (suc n) i xs ≡ (i + n) ∷ count_down n i xs
unfolding count_down
count_down-head zero i xs = ap (λ (x : ℕ). x ∷ xs) (omega arith)
count_down-head (suc n) i xs =
    let moved : i + 1 + n ≡ i + suc n = omega arith in
    rw (sym moved) (count_down-head n (i + 1) (i ∷ xs))

pub length-count_down : (n i : ℕ) (xs : List ℕ) → length (count_down n i xs) ≡ n + length xs
unfolding count_down
length-count_down zero i xs = omega arith
length-count_down (suc n) i xs = length-count_down n (i + 1) (i ∷ xs) ∙ omega arith

-- The page that `page_init` leaves first on the list, and the others on it.
abbrev pub top_page : ℕ
top_page = 0x1ffff

abbrev pub others : List ℕ
others = count_down (npage - used_index - 1) used_index []

-- No table stands anywhere before the first environment.
abbrev pub no_tables : ℕ → ℕ
no_tables p = 0

page_init-IsPaged :
    (s : Pmap)
    → ((x : ℕ) → used_index ≤ x → s.pp_ref x ≡ 0)
    → IsPaged (page_init s) no_tables (top_page ∷ others)
page_init-IsPaged s fresh =
    let v =
      subst (IsAlloc (page_init s)) (count_down-head (npage - used_index - 1) used_index [])
        (page_init-IsAlloc s fresh) in
    record {
      alloc = record { queue = v.queue; bounds = v.bounds };
      tables = λ p h. absurd (h refl);
      free = λ x h. refl;
      entries = λ p i lo hi small valid. absurd (omega (arith, lo));
    }

-- A program that `env_create` loads.
pub record IsProgram (image : ℕ → ℕ) : Type 0 where
  pub elf : is_elf_format image ≡ true
  pub layout : IsLayout (segments image)
  pub clear : (p : ℕ) → OutsideAll p (segments image) p stack_page

-- The slots `2`, ..., `n + 1` in front of `xs`.
unfoldable pub slots_from_two : ℕ → List ℕ → List ℕ
slots_from_two zero xs = xs
slots_from_two (suc i) xs = slots_from_two i (suc (suc i) ∷ xs)

two_slots : (n : ℕ) (xs : List ℕ) → slots_upto (suc (suc n)) xs ≡ 0 ∷ 1 ∷ slots_from_two n xs
unfolding slots_upto slots_from_two
two_slots zero xs = refl
two_slots (suc n) xs = two_slots n (suc (suc n) ∷ xs)

abbrev pub later_slots : List ℕ
later_slots = slots_from_two 1022 []

-- The second program, with what the first one left.
second-Created :
    (entry_point e size : ℕ) (image : ℕ → ℕ) (t : Kernel) (level : ℕ → ℕ) (free es : List ℕ)
    → IsEnvs t (e ∷ es)
    → IsPaged t.pmap level free
    → IsTree t.pmap.mem level
    → 4 ≤ size
    → IsProgram image
    → 2597 + 4 * total (segments image) ≤ length free
    → (y : ℕ) × (ys : List ℕ) × (u : Kernel) × (free ≡ y ∷ ys)
      × (env_create entry_point image size t ≡ some (tt, u))
      × Created t level y ys e es image u
second-Created entry_point e size image t level [] es v paged tree long w room =
    absurd (omega arith)
second-Created entry_point e size image t level (y ∷ ys) es v paged tree long w room =
    let (u, runs, made) =
      env_create-Created entry_point e y size image t level ys es v paged tree long w.elf w.layout
        (w.clear y) (omega arith) in
    (y, ys, u, refl, runs, made)

-- What `main` leaves behind: the first program in slot 0, in the directory `top_page`, and then the
-- second in slot 1, in another directory `page`. The slot and the directory of the first program are
-- in the end what its `env_create` left.
pub record Started (s : Kernel) (first_image second_image : ℕ → ℕ) (u : Kernel) : Type 0 where
  pub middle : Kernel
  pub page : ℕ
  pub pages : List ℕ
  pub first : Created s no_tables top_page others 0 (1 ∷ later_slots) first_image middle
  pub second :
      Created middle first.image_loaded.frame.levels page pages 1 later_slots second_image u
  pub apart : page ≢ top_page
  pub first_slot : u.envs 0 ≡ middle.envs 0
  pub first_level : second.image_loaded.frame.levels top_page ≡ 1
  pub first_shows : Shows u.pmap second.image_loaded.frame.levels top_page first_image

abbrev pub ready : Kernel → Kernel
ready s = env_init (record s { pmap = page_init s.pmap })

-- If no page above the kernel has a reference, and the sectors of both programs hold ELF files whose
-- segments begin at page boundaries, share no page with each other or the stack and leave enough
-- pages, `main` returns with both programs runnable at their entry points, each in a directory of
-- its own that maps its stack and its segments with their bytes where `main` ends.
pub main-Started :
    (card : ℕ → ℕ → ℕ) (program : ℕ → ℕ) (first second : ℕ) (s : Kernel)
    → ((x : ℕ) → used_index ≤ x → s.pmap.pp_ref x ≡ 0)
    → IsProgram (load_program card 51000 program)
    → IsProgram (load_program card 52000 (load_program card 51000 program))
    → 4
        * (total (segments (load_program card 51000 program))
            + total (segments (load_program card 52000 (load_program card 51000 program))))
      ≤ 117_000
    → (u : Kernel) × (main card program first second s ≡ some (tt, u))
      × Started
          (ready s)
          (load_program card 51000 program)
          (load_program card 52000 (load_program card 51000 program))
          u
unfolding main
main-Started card program first second s fresh one two room =
    let loaded = load_program card 51000 program in
    let again = load_program card 52000 loaded in
    let k = record s { pmap = page_init s.pmap } in
    let listed = subst (IsEnvs (ready s)) (two_slots 1022 []) (env_init-IsKernel k).envs in
    let same = env_init-pmap k in
    let paged =
      subst (λ p. IsPaged p no_tables (top_page ∷ others)) (sym same)
        (page_init-IsPaged s.pmap fresh) in
    let many : length others ≡ 122_879 = length-count_down (npage - used_index - 1) used_index [] in
    let (t, runs, made) =
      env_create-Created first 0 top_page 101388 loaded (ready s) no_tables others (1 ∷ later_slots)
        listed paged (λ p i p' i' q h. absurd (h refl)) (omega arith) one.elf one.layout
        (one.clear top_page) (omega (arith, many, room)) in
    let frame = made.image_loaded.frame in
    let (y, ys, u, split, next, made') =
      second-Created second 1 130542 again t frame.levels frame.free later_slots made.listed
        frame.paged frame.tree (omega arith) two
        (omega (arith, many, room, made.used, frame.used)) in
    (
      u,
      bind_some (env_create first loaded 101388) (λ _. env_create second again 130542) (ready s)
            runs
          ∙ next,
      record {
        middle = t;
        page = y;
        pages = ys;
        first = made;
        second = made';
        apart = λ same.
            let blank = frame.paged.free y (rw split (ground arith)) in
            omega (arith, ap frame.levels same, made.directory_level, blank);
        first_slot = made'.others 0 (λ z. omega (arith, z));
        first_level =
            made'.keeps_level top_page (λ z. omega (arith, made.directory_level))
            ∙ made.directory_level;
        first_shows = record {
          stack =
              later-Shown made' top_page made.directory_level split 1 stack_page (λ _. 0)
                made.image_loaded.stack;
          segments_shown =
              later-All made' top_page made.directory_level split loaded (segments loaded)
                made.image_loaded.pages;
        };
      },
    )
