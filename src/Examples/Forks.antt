-- ===== src/Examples/Forks.antt =====
-- Two directories: that of the environment 1, 0x1ffff, maps page 5 at 0x5000, and that of the
-- environment 2, which is the next page, maps nothing.
use raspberry_pi_3_jos.Prelude.{
  ℕ, ◌-◌, ◌*◌, ◌≤◌, ◌≡◌, false, refl, ◌∙◌, Option, some, [], ◌∷◌, arith, length,
}
use mathlib.Core.Path.{subst}
use raspberry_pi_3_jos.Queue.Chain.{elem}
use raspberry_pi_3_jos.Mmu.{npage, page2pa}
use raspberry_pi_3_jos.Pmap.{Pmap, used_index, page_insert}
use raspberry_pi_3_jos.Pmap.Tables.{IsPaged, IsTree}
use raspberry_pi_3_jos.Pmap.Bytes.{Holds, Holds-keep}
use raspberry_pi_3_jos.Pmap.Maps.{inserted-Maps}
use raspberry_pi_3_jos.Pmap.Insert.{Inserted, page_insert-page_lookup}
use raspberry_pi_3_jos.Pmap.Root.{rooted, root_level, rooted-Grows, rooted-IsPaged, rooted-away}
use raspberry_pi_3_jos.Boot.Start.{length-count_down}
use raspberry_pi_3_jos.Env.{Env, Kernel, edit}
use raspberry_pi_3_jos.Syscall.{copy_pages}
use raspberry_pi_3_jos.Syscall.Fork.Round.{Page}
use raspberry_pi_3_jos.Syscall.Fork.Loop.{Copied, copy_pages-Copied}
use raspberry_pi_3_jos.Examples.Envs.{kernel}
use raspberry_pi_3_jos.Examples.Spaces.{
  start, last, start-IsPaged, start-IsTree, root_levels, no_level,
}
use raspberry_pi_3_jos.Examples.Copies.{
  asking, next_page, next_rest, free_rest-next, elem-count_down, five-Holds, next_room,
}

one-IsPaged : IsPaged (rooted 0x1ffff start) root_levels (next_page ∷ next_rest)
unfolding root_levels
one-IsPaged =
    subst (IsPaged (rooted 0x1ffff start) (root_level start-IsPaged)) free_rest-next
      (rooted-IsPaged start-IsPaged)

pair : Pmap
pair = rooted next_page (rooted 0x1ffff start)

pair_levels : ℕ → ℕ
pair_levels = root_level one-IsPaged

pair-IsPaged : IsPaged pair pair_levels next_rest
unfolding pair pair_levels
pair-IsPaged = rooted-IsPaged one-IsPaged

pair-IsTree : IsTree pair.mem pair_levels
unfolding pair pair_levels root_levels
pair-IsTree =
    (rooted-Grows one-IsPaged).keeps_tree ((rooted-Grows start-IsPaged).keeps_tree start-IsTree)

pair_tops : (pair_levels 0x1ffff ≡ 1) × (pair_levels next_page ≡ 1) × (pair_levels 5 ≡ 0)
unfolding pair_levels root_levels next_page no_level
pair_tops = (ground arith, ground arith, ground arith)

pair-Holds : Holds pair.mem 5 (λ _. 0)
unfolding pair asking next_page
pair-Holds =
    Holds-keep (rooted 0x1ffff start).mem pair.mem 5 (λ _. 0) (omega arith)
      (λ i h. rooted-away one-IsPaged 5 i (omega arith) h (λ e. omega arith)) five-Holds

parent :
    (t : Pmap) × (page_insert (page2pa 0x1ffff) 5 0x5000 0x40 pair ≡ some (tt, t))
    × Inserted pair pair_levels next_rest 0x1ffff 5 0x5000 0x40 t
parent =
    page_insert-page_lookup pair pair_levels next_rest 0x1ffff 5 0x5000 0x40 pair-IsPaged
      pair_tops.0 next_room (omega arith) (omega arith)

abbrev after : Inserted pair pair_levels next_rest 0x1ffff 5 0x5000 0x40 parent.0
after = parent.2

not_free : elem 5 next_rest ≡ false
unfolding next_rest last
not_free = elem-count_down (npage - used_index - 1 - 1) used_index 5 [] (omega arith) refl

parent-Page : Page parent.0 after.levels after.free 0x1ffff 0x5000 (λ _. 0)
parent-Page =
    let plain = after.stays 5 not_free pair_tops.2 in
    record {
      page = 5;
      perm = 0x40;
      bound = omega arith;
      small = omega arith;
      maps = inserted-Maps pair-IsPaged pair-IsTree pair_tops.0 after;
      holds =
          Holds-keep pair.mem parent.0.mem 5 (λ _. 0) (omega arith)
            (λ j k. after.keeps_data 5 j (omega arith) k plain) pair-Holds;
      used = after.fewer 5 not_free;
      plain = plain;
    }

abbrev in_page : ℕ → Env → Env
in_page p v = record v { env_pgdir = page2pa p }

forking : Kernel
forking = edit 1 (in_page 0x1ffff) (edit 2 (in_page next_page) (record kernel { pmap = parent.0 }))

many : 4 * 1 ≤ length after.free
unfolding next_rest last
many = omega (arith, after.used, length-count_down (npage - used_index - 1 - 1) used_index [])

after_top : (p : ℕ) → pair_levels p ≡ 1 → after.levels p ≡ 1
after_top p top = after.keeps_level p (λ z. omega (arith, z, top)) ∙ top

abbrev shown : ℕ → Option (ℕ → ℕ)
shown i = some (λ _. 0)

copy_pages-Copied_example :
    (t : Pmap) × (copy_pages 1 2 0x5000 forking ≡ some (tt, record forking { pmap = t }))
    × Copied parent.0 after.levels after.free next_page 0x5000 1 shown t
unfolding forking
copy_pages-Copied_example =
    copy_pages-Copied 1 forking 1 2 0x1ffff next_page 0x5000 after.levels after.free shown refl
      (ground arith) (ground arith) (unfold next_page in λ e. omega arith) after.paged
      (after.keeps_tree pair-IsTree) (after_top 0x1ffff pair_tops.0)
      (after_top next_page pair_tops.1) many (omega arith)
      (λ i h.
        subst (λ va. Page parent.0 after.levels after.free 0x1ffff va (λ _. 0)) (omega arith)
          parent-Page)
