-- ===== src/Examples/Copies.antt =====
-- A page that is given, and a page of the kernel.
use raspberry_pi_3_jos.Prelude.{
  ℕ, zero, suc, ◌+◌, ◌-◌, ◌≤◌, ◌<◌, ◌≡◌, false, refl, ap, ◌∙◌, some, List, [], ◌∷◌, arith, length,
}
use mathlib.Core.Path.{subst}
use raspberry_pi_3_jos.Prelude.State.{ok}
use raspberry_pi_3_jos.Mmu.{npage, page2pa}
use raspberry_pi_3_jos.Pmap.{Pmap, used_index}
use raspberry_pi_3_jos.Pmap.Alloc.{count_down, page_init-mem}
use raspberry_pi_3_jos.Pmap.Tables.{word, IsPaged}
use raspberry_pi_3_jos.Pmap.Root.{rooted, root_level, rooted-Grows, rooted-IsPaged, rooted-away}
use raspberry_pi_3_jos.Boot.Start.{count_down-head, length-count_down}
use raspberry_pi_3_jos.Env.{Kernel, edit, envx, envid2env}
use raspberry_pi_3_jos.Examples.Queues.{blank}
use raspberry_pi_3_jos.Examples.Envs.{kernel}
use raspberry_pi_3_jos.Examples.Spaces.{
  start, last, free_rest, start-IsPaged, start-IsTree, root_levels,
}
use raspberry_pi_3_jos.Queue.Chain.{elem}
use raspberry_pi_3_jos.Pmap.Bytes.{Holds, Holds-zero}
use raspberry_pi_3_jos.Syscall.{sys_mem_alloc}
use raspberry_pi_3_jos.Syscall.Memory.{Given, alloc_perm, sys_mem_alloc-Given}

-- The environment 1, which runs, with an empty directory.
unfoldable pub asking : Kernel
asking =
    edit 1 (λ v. record v { env_pgdir = page2pa 0x1ffff })
      (record kernel { pmap = rooted 0x1ffff start })

-- The first free page.
unfoldable pub next_page : ℕ
next_page = 0x1fffe

unfoldable pub next_rest : List ℕ
next_rest = count_down (last - 1) used_index []

pub free_rest-next : free_rest ≡ next_page ∷ next_rest
unfolding free_rest next_page next_rest last
free_rest-next = count_down-head (npage - used_index - 1 - 1) used_index []

pub next_room : 3 ≤ length next_rest
unfolding next_rest last
next_room = rw (length-count_down (npage - used_index - 1 - 1) used_index []) (omega arith)

sys_mem_alloc-Given_example :
    (t : Pmap) × (sys_mem_alloc 2049 0x5000 0 asking ≡ some (ok tt, record asking { pmap = t }))
    × Given asking.pmap root_levels next_page next_rest 0x1ffff 0x5000 (alloc_perm 0) t
unfolding asking root_levels envid2env envx
sys_mem_alloc-Given_example =
    sys_mem_alloc-Given asking 2049 0x5000 0 1 0x1ffff next_page root_levels next_rest (omega arith)
      refl (ground arith)
      (subst (IsPaged (rooted 0x1ffff start) (root_level start-IsPaged)) free_rest-next
        (rooted-IsPaged start-IsPaged))
      ((rooted-Grows start-IsPaged).keeps_tree start-IsTree) (ground arith) next_room (omega arith)

pub elem-count_down :
    (n i y : ℕ) (xs : List ℕ) → y < i → elem y xs ≡ false → elem y (count_down n i xs) ≡ false
unfolding count_down
elem-count_down zero i y xs low out = out
elem-count_down (suc n) i y xs low out =
    elem-count_down n (i + 1) y (i ∷ xs) (omega arith) (ground arith)

-- Page 5 of the kernel is empty.
pub five-Holds : Holds asking.pmap.mem 5 (λ _. 0)
unfolding asking start
five-Holds = Holds-zero (rooted 0x1ffff start).mem 5 (omega arith) (λ i h.
    rooted-away start-IsPaged 5 i (omega arith) h (λ e. omega arith)
    ∙ ap (λ (m : ℕ → ℕ). m (word 5 i))
        (page_init-mem (record { mem = λ _. 0; pp_ref = λ _. 0; page_free_list = blank })))
