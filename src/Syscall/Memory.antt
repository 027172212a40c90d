-- ===== src/Syscall/Memory.antt =====
-- The calls on memory: `sys_mem_alloc` and `sys_mem_map`.
use raspberry_pi_3_jos.Prelude.{
  ℕ, ◌≤◌, ◌<◌, ◌≡◌, ap, ◌∙◌, ◌≢◌, ◌⊎◌, true, false, Option, some, List, ◌∷◌, arith, length, bit_or,
  ltb,
}
use raspberry_pi_3_jos.Prelude.Bits.{bit_or-lt}
use raspberry_pi_3_jos.Prelude.State.{
  Cmd, Result, ok, get, modify, and_then, ◌>>=◌, ◌>>◌, bind_some,
}
use raspberry_pi_3_jos.Queue.{update}
use raspberry_pi_3_jos.Mmu.{by2pg, npage, pte_v, attrib_ap_rw_all, utop, kaddr, page2pa, page2kva}
use raspberry_pi_3_jos.Pmap.{Pmap, entry_perm, bzero, page_alloc, page_insert, page_lookup}
use raspberry_pi_3_jos.Pmap.Alloc.{taken, page_alloc-taken, bzero-bzero}
use raspberry_pi_3_jos.Pmap.Tables.{IsPaged, IsTree}
use raspberry_pi_3_jos.Pmap.Bytes.{Holds, Holds-zero}
use raspberry_pi_3_jos.Pmap.Insert.{Inserted, page_insert-page_lookup}
use raspberry_pi_3_jos.Pmap.Maps.{
  Maps, vpn, page_lookup-Maps, page_insert-kaddr, inserted-Maps, inserted_other-Maps,
}
use raspberry_pi_3_jos.Pmap.Same.{
  same-IsTree, same-Maps, fresh-level, fresh-bound, fresh-distinct, fresh-new, fresh-SameTables,
  fresh-IsPaged,
}
use raspberry_pi_3_jos.Env.{Kernel, on_pmap, envid2env}
use raspberry_pi_3_jos.Env.Setup.{on_pmap-some}
use raspberry_pi_3_jos.Syscall.{done, page_base, map_found, sys_mem_alloc, sys_mem_map}

-- The mapping of `va` in the directory `p` to the page `pp` was added, and every other one stays.
pub record Added (s : Pmap) (level : ℕ → ℕ) (xs : List ℕ) (p pp va perm : ℕ) (t : Pmap)
    : Type 0 where
  pub inserted : Inserted s level xs p pp va perm t
  pub tree : IsTree t.mem inserted.levels
  pub maps : Maps t.mem inserted.levels p va pp (entry_perm perm)
  pub others :
      (p' va' pp' perm' : ℕ)
      → level p' ≡ 1
      → pp' < npage
      → perm' < 4096
      → (p' ≢ p) ⊎ (vpn va' ≢ vpn va)
      → Maps s.mem level p' va' pp' (entry_perm perm')
      → Maps t.mem inserted.levels p' va' pp' (entry_perm perm')

-- `page_insert` through the kernel's address of the directory of an environment.
pub insert-Added :
    (s : Kernel) (dir p pp va perm : ℕ) (level : ℕ → ℕ) (xs : List ℕ)
    → dir ≡ page2pa p
    → IsPaged s.pmap level xs
    → IsTree s.pmap.mem level
    → level p ≡ 1
    → 3 ≤ length xs
    → pp < npage
    → perm < 4096
    → (t : Pmap) × (on_pmap (page_insert (kaddr dir) pp va perm) s
        ≡ some (tt, record s { pmap = t }))
      × Added s.pmap level xs p pp va perm t
insert-Added s dir p pp va perm level xs same v tree top room h small =
    let (t, runs, i) = page_insert-page_lookup s.pmap level xs p pp va perm v top room h small in
    (
      t,
      on_pmap-some (page_insert (kaddr dir) pp va perm) s (
          ap (λ (d : ℕ). page_insert (kaddr d) pp va perm s.pmap) same
          ∙ page_insert-kaddr p pp va perm s.pmap (v.tables p (λ z. omega arith))
          ∙ runs),
      record {
        inserted = i;
        tree = i.keeps_tree tree;
        maps = inserted-Maps v tree top i;
        others = inserted_other-Maps v tree top i;
      },
    )

abbrev mapping : (dst dstva perm : ℕ) → Option (ℕ × ℕ) → Cmd Kernel (Result (Unit {0}))
mapping dst dstva perm found = map_found found dst (page_base dstva) perm

pub sys_mem_map-Added :
    (s : Kernel) (srcid srcva dstid dstva perm src dst p q pp old : ℕ) (level : ℕ → ℕ) (xs : List ℕ)
    → envid2env srcid true s ≡ some (ok src, s)
    → envid2env dstid true s ≡ some (ok dst, s)
    → (s.envs src).env_pgdir ≡ page2pa p
    → (s.envs dst).env_pgdir ≡ page2pa q
    → IsPaged s.pmap level xs
    → IsTree s.pmap.mem level
    → level p ≡ 1
    → level q ≡ 1
    → Maps s.pmap.mem level p (page_base srcva) pp (entry_perm old)
    → 3 ≤ length xs
    → pp < npage
    → old < 4096
    → perm < 4096
    → (t : Pmap) × (sys_mem_map srcid srcva dstid dstva perm s
        ≡ some (ok tt, record s { pmap = t }))
      × Added s.pmap level xs q pp (page_base dstva) perm t
unfolding sys_mem_map map_found
sys_mem_map-Added s srcid srcva dstid dstva perm src dst p q pp old level xs found_src found_dst
      dir_p dir_q v tree top_p top_q m room h old_small small =
    let (t, runs, a) =
      insert-Added s (s.envs dst).env_pgdir q pp (page_base dstva) perm level xs dir_q v tree top_q
        room h small in
    let lookup =
      page_lookup-Maps s.pmap level p (page_base srcva) pp old (v.tables p (λ z. omega arith)) h
        old_small m in
    let look : ℕ → Cmd Kernel (Result (Unit {0})) =
      λ d. on_pmap (page_lookup d (page_base srcva)) >>= mapping dst dstva perm in
    (
      t,
      rw (found_src, found_dst)
          (ap (λ (d : ℕ). look d s) dir_p
            ∙ bind_some (on_pmap (page_lookup (page2pa p) (page_base srcva)))
                (mapping dst dstva perm) s
                (on_pmap-some (page_lookup (page2pa p) (page_base srcva)) s lookup)
            ∙ ap (λ r. and_then r (λ _. done)) runs),
      a,
    )

-- What `sys_mem_alloc` leaves behind: `x` is an empty page, counted once, at `va`.
pub record Given (s : Pmap) (level : ℕ → ℕ) (x : ℕ) (xs : List ℕ) (p va perm : ℕ) (t : Pmap)
    : Type 0 where
  pub added : Added (taken x s) level xs p x va perm t
  pub empty : Holds t.mem x (λ _. 0)
  pub count : t.pp_ref x ≡ 1
  pub others :
      (p' va' pp' perm' : ℕ)
      → level p' ≡ 1
      → pp' < npage
      → perm' < 4096
      → (p' ≢ p) ⊎ (vpn va' ≢ vpn va)
      → Maps s.mem level p' va' pp' (entry_perm perm')
      → Maps t.mem added.inserted.levels p' va' pp' (entry_perm perm')

module _ {s : Pmap} {level : ℕ → ℕ} {x : ℕ} {xs : List ℕ} (v : IsPaged s level (x ∷ xs))
    {p va perm : ℕ} {t : Pmap} (a : Added (taken x s) level xs p x va perm t) where
  abbrev counts : ℕ → ℕ
  counts = update s.pp_ref x 0

  plain : a.inserted.levels x ≡ 0
  plain = a.inserted.stays x (fresh-distinct v) (fresh-level v)

  given : Given s level x xs p va perm t
  given = record {
    added = a;
    empty =
        Holds-zero t.mem x (fresh-bound v)
          (λ j k. a.inserted.keeps_data x j (fresh-bound v) k plain ∙ fresh-new v counts j k);
    count = a.inserted.count plain ∙ ground arith;
    others = λ p' va' pp' perm' one k small far m.
        a.others p' va' pp' perm' one k small far
          (same-Maps s.mem level (taken x s).mem p' va' pp' _ (fresh-SameTables v counts) one m);
  }

abbrev pub alloc_perm : ℕ → ℕ
alloc_perm perm = bit_or (bit_or perm pte_v) attrib_ap_rw_all

inserting : (e x va perm : ℕ) → Cmd Kernel (Result (Unit {0}))
inserting e x va perm = do
  s ← get
  on_pmap (page_insert (kaddr (s.envs e).env_pgdir) x va (alloc_perm perm))
  done

sys_mem_alloc-inserting :
    (s : Kernel) (envid va perm e x : ℕ)
    → va ≤ utop
    → envid2env envid false s ≡ some (ok e, s)
    → page_alloc s.pmap ≡ some (x, taken x s.pmap)
    → sys_mem_alloc envid va perm s ≡ inserting e x va perm (record s { pmap = taken x s.pmap })
unfolding sys_mem_alloc inserting
sys_mem_alloc-inserting s envid va perm e x low found alloc =
    let fits : ltb utop va ≡ false = ground arith in
    let clear : ℕ → Cmd Kernel (Result (Unit {0})) = λ x.
      on_pmap (modify (λ p. record p { mem = bzero (page2kva x) by2pg p.mem }))
      >> inserting e x va perm in
    rw (fits, found)
      (bind_some (on_pmap page_alloc) clear s (on_pmap-some page_alloc s alloc)
        ∙ ap
            (λ (m : ℕ → ℕ).
              inserting e x va perm (record s { pmap = record (taken x s.pmap) { mem = m } }))
            (bzero-bzero (page2kva x) by2pg s.pmap.mem))

-- For an id that `envid2env` finds, an address up to UTOP and attributes below 4096, no bits of an
-- address, `sys_mem_alloc` with four free pages returns 0: the environment has an empty page, which is counted once, at the address, and every
-- other mapping of every directory stays.
pub sys_mem_alloc-Given :
    (s : Kernel) (envid va perm e p x : ℕ) (level : ℕ → ℕ) (xs : List ℕ)
    → va ≤ utop
    → envid2env envid false s ≡ some (ok e, s)
    → (s.envs e).env_pgdir ≡ page2pa p
    → IsPaged s.pmap level (x ∷ xs)
    → IsTree s.pmap.mem level
    → level p ≡ 1
    → 3 ≤ length xs
    → perm < 4096
    → (t : Pmap) × (sys_mem_alloc envid va perm s ≡ some (ok tt, record s { pmap = t }))
      × Given s.pmap level x xs p va (alloc_perm perm) t
unfolding inserting
sys_mem_alloc-Given s envid va perm e p x level xs low found dir v tree top room small =
    let r : ℕ → ℕ = update s.pmap.pp_ref x 0 in
    let small' : alloc_perm perm < 4096 =
      bit_or-lt 12 (bit_or perm pte_v) attrib_ap_rw_all
        (bit_or-lt 12 perm pte_v small (omega arith)) (omega arith) in
    let (t, runs, a) =
      insert-Added (record s { pmap = taken x s.pmap }) (s.envs e).env_pgdir p x va
        (alloc_perm perm) level xs dir (fresh-IsPaged v r)
        (same-IsTree s.pmap.mem level (taken x s.pmap).mem (fresh-SameTables v r) tree) top room
        (fresh-bound v) small' in
    (
      t,
      sys_mem_alloc-inserting s envid va perm e x low found (page_alloc-taken v.alloc)
          ∙ ap (λ r. and_then r (λ _. done)) runs,
      given v a,
    )
