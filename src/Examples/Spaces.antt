-- ===== src/Examples/Spaces.antt =====
-- A kernel after `page_init`: no tables yet, and every page above the kernel is free.
use raspberry_pi_3_jos.Prelude.{
  ℕ, ◌+◌, ◌-◌, ◌≤◌, ◌<◌, ◌≡◌, ◌⊎◌, false, refl, sym, inr, some, ◌*◌, ◌==◌, leb, if◌then◌else◌, true,
  List, [], ◌∷◌, arith, length,
}
use mathlib.Core.Path.{subst}
use raspberry_pi_3_jos.Prelude.State.{ok, err, pure, and_then}
use raspberry_pi_3_jos.Mmu.{npage, page2pa}
use raspberry_pi_3_jos.Elf.{Phdr, Mapper, le, ehdr, is_elf_format, load_elf}
use raspberry_pi_3_jos.Elf.Segments.{segments, map_all, load_elf-segments}
use raspberry_pi_3_jos.Pmap.Root.{rooted, root_level, rooted-Grows, rooted-IsPaged}
use raspberry_pi_3_jos.Env.Load.{load_icode_mapper, env_create}
use raspberry_pi_3_jos.Env.Load.Program.{total, IsLayout, OutsideAll, Program, load_elf-Program}
use raspberry_pi_3_jos.Env.Load.Create.{Created, stack_page, env_create-Created}
use raspberry_pi_3_jos.Boot.Start.{count_down-head, length-count_down}
use raspberry_pi_3_jos.Pmap.{Pmap, used_index, page_init}
use raspberry_pi_3_jos.Pmap.Alloc.{IsAlloc, page_init-IsAlloc, count_down}
use raspberry_pi_3_jos.Pmap.Tables.{IsPaged, IsTree}
use raspberry_pi_3_jos.Env.{Kernel, edit, env_alloc}
use raspberry_pi_3_jos.Env.Alloc.{Allocated, env_alloc-Allocated}
use raspberry_pi_3_jos.Examples.Queues.{blank, three-IsQueue}
use raspberry_pi_3_jos.Examples.Envs.{kernel}

unfoldable pub start : Pmap
start = page_init (record { mem = λ _. 0; pp_ref = λ _. 0; page_free_list = blank })

unfoldable pub no_level : ℕ → ℕ
no_level p = 0

unfoldable pub last : ℕ
last = npage - used_index - 1

unfoldable pub free_rest : List ℕ
free_rest = count_down last used_index []

start-IsAlloc : IsAlloc start (0x1ffff ∷ free_rest)
unfolding start free_rest last
start-IsAlloc =
    subst (IsAlloc (page_init (record { mem = λ _. 0; pp_ref = λ _. 0; page_free_list = blank })))
      (count_down-head (npage - used_index - 1) used_index [])
      (page_init-IsAlloc (record { mem = λ _. 0; pp_ref = λ _. 0; page_free_list = blank })
        (λ x h. refl))

pub start-IsPaged : IsPaged start no_level (0x1ffff ∷ free_rest)
unfolding no_level
start-IsPaged = record {
  alloc = record { queue = start-IsAlloc.queue; bounds = start-IsAlloc.bounds };
  tables = λ p h. absurd (h refl);
  free = λ x h. refl;
  entries = λ p i lo hi small valid. absurd (omega (arith, lo));
}

pub start-IsTree : IsTree start.mem no_level
unfolding no_level
start-IsTree p i p' i' q h = absurd (h refl)

started : Kernel
started = record kernel { pmap = start }

many : 2592 ≤ length free_rest
unfolding free_rest last
many = rw (length-count_down (npage - used_index - 1) used_index []) (omega arith)

env_alloc-Allocated_example :
    (t : Kernel) × (env_alloc 2049 started ≡ some (10, t))
    × Allocated started no_level 0x1ffff free_rest 10 (9 ∷ 8 ∷ []) 2049 t
unfolding started
env_alloc-Allocated_example =
    env_alloc-Allocated started 2049 10 (9 ∷ 8 ∷ []) no_level 0x1ffff free_rest
      (record { queue = three-IsQueue; listed = λ e h. ground arith }) start-IsPaged start-IsTree
      many

-- An ELF file with a header for 0x2000 bytes at 0x400000, 16 of them in the file, and a header that
-- is not loaded.
unfoldable pub elf : ℕ → ℕ
elf a =
    if a == 0
    then 0x7f
    else if a == 1
    then 0x45
    else if a == 2
    then 0x4c
    else if a == 3
    then 0x46
    else if a == 26
    then 0x40
    else if a == 32
    then 64
    else if a == 54
    then 56
    else if a == 56
    then 2
    else if a == 64
    then 1
    else if a == 73
    then 0x10
    else if a == 82
    then 0x40
    else if a == 96
    then 16
    else if a == 105
    then 0x20
    else if leb 0x1000 a
    then 7
    else 0

abbrev pub text : Phdr
text = record {
  p_type = 1;
  p_offset = 0x1000;
  p_vaddr = 0x40_0000;
  p_filesz = 16;
  p_memsz = 0x2000;
}

pub elf-segments : segments elf ≡ text ∷ []
unfolding elf segments le
elf-segments = refl

pub text-IsLayout : IsLayout (text ∷ [])
text-IsLayout = (refl, tt, tt)

text_clear : OutsideAll 0x1ffff (text ∷ []) 0x1ffff stack_page
text_clear = (λ j h. inr (λ e. omega arith), tt)

elf_room : 2596 + 4 * total (text ∷ []) ≤ length free_rest
unfolding free_rest last
elf_room = rw (length-count_down (npage - used_index - 1) used_index []) (omega arith)

env_create-Created_example :
    (t : Kernel) × (env_create 0 elf 0x1010 started ≡ some (tt, t))
    × Created started no_level 0x1ffff free_rest 10 (9 ∷ 8 ∷ []) elf t
unfolding started elf is_elf_format
env_create-Created_example =
    env_create-Created 0 10 0x1ffff 0x1010 elf started no_level free_rest (9 ∷ 8 ∷ [])
      (record { queue = three-IsQueue; listed = λ e h. ground arith }) start-IsPaged start-IsTree
      (omega arith) refl (subst IsLayout (sym elf-segments) text-IsLayout)
      (subst (λ hs. OutsideAll 0x1ffff hs 0x1ffff stack_page) (sym elf-segments) text_clear)
      (subst (λ hs. 2596 + 4 * total hs ≤ length free_rest) (sym elf-segments) elf_room)

-- The environment 10 with an empty directory.
unfoldable pub root_levels : ℕ → ℕ
root_levels = root_level start-IsPaged

rooted_kernel : Kernel
rooted_kernel =
    edit 10 (λ v. record v { env_pgdir = page2pa 0x1ffff })
      (record kernel { pmap = rooted 0x1ffff start })

load_elf-Program_example :
    (t : Pmap) × (load_elf (load_icode_mapper elf 10) elf 0x1010 rooted_kernel
      ≡ some (ok (ehdr elf).e_entry, record rooted_kernel { pmap = t }))
    × Program rooted_kernel.pmap root_levels free_rest 0x1ffff elf (segments elf) t
unfolding elf is_elf_format rooted_kernel root_levels
load_elf-Program_example =
    load_elf-Program elf 10 0x1ffff 0x1010 rooted_kernel root_levels free_rest (ground arith)
      (rooted-IsPaged start-IsPaged) ((rooted-Grows start-IsPaged).keeps_tree start-IsTree)
      (ground arith) (omega arith) refl (subst IsLayout (sym elf-segments) text-IsLayout)
      (subst (λ hs. 4 * total hs ≤ length free_rest) (sym elf-segments) (omega (arith, elf_room)))

-- A mapper that counts its calls.
counting : Mapper ℕ
counting va sgsize bin bin_size calls = some (ok tt, calls + 1)

load_elf-segments_example :
    ((4 ≤ 0x1010)
      × (is_elf_format elf ≡ true)
      × (load_elf counting elf 0x1010 0
          ≡ and_then
              (map_all counting (segments elf) 0)
              (λ r. elim r [ err code ↦ pure (err code) | ok _ ↦ pure (ok (ehdr elf).e_entry) ])))
    ⊎ (load_elf counting elf 0x1010 0 ≡ some (err 1, 0))
      × ((0x1010 < 4) ⊎ (is_elf_format elf ≡ false))
load_elf-segments_example = load_elf-segments counting elf 0x1010 0
