-- ===== src/Syscall/Unmap.antt =====
-- `sys_mem_unmap`.
use raspberry_pi_3_jos.Prelude.{ℕ, ◌^◌, ◌<◌, ◌≡◌, ap, ◌∙◌, true, false, some, List}
use raspberry_pi_3_jos.Prelude.State.{Cmd, Result, ok, and_then, ◌>>◌}
use raspberry_pi_3_jos.Queue.Chain.{elem}
use raspberry_pi_3_jos.Mmu.{npage, page2pa}
use raspberry_pi_3_jos.Pmap.{Pmap, entry_perm, page_remove}
use raspberry_pi_3_jos.Pmap.Tables.{IsPaged}
use raspberry_pi_3_jos.Pmap.Leaf.{entry_perm-lt, entry_perm_valid}
use raspberry_pi_3_jos.Pmap.Maps.{Maps}
use raspberry_pi_3_jos.Pmap.Remove.{Removed, page_remove_lem}
use raspberry_pi_3_jos.Env.{Kernel, on_pmap, envid2env}
use raspberry_pi_3_jos.Env.Setup.{on_pmap-some}
use raspberry_pi_3_jos.Syscall.{done, sys_mem_unmap}

-- For an id that names an environment that the caller may use, and an address that its directory
-- maps to a page in use, `sys_mem_unmap` returns 0: the address has no page afterwards, the page has
-- one reference less and no other page's count changes, and it is back on the free list exactly if
-- that was the last; the tables stay well-formed.
pub sys_mem_unmap-Removed :
    (s : Kernel) (envid va e p pp perm : ℕ) (level : ℕ → ℕ) (xs : List ℕ)
    → envid2env envid true s ≡ some (ok e, s)
    → (s.envs e).env_pgdir ≡ page2pa p
    → IsPaged s.pmap level xs
    → level p ≡ 1
    → Maps s.pmap.mem level p va pp (entry_perm perm)
    → perm < 4096
    → pp < npage
    → elem pp xs ≡ false
    → level pp ≡ 0
    → 0 < s.pmap.pp_ref pp
    → s.pmap.pp_ref pp < 2 ^ 16
    → (t : Pmap) × (sys_mem_unmap envid va s ≡ some (ok tt, record s { pmap = t }))
      × Removed s.pmap level xs p pp va t
unfolding sys_mem_unmap
sys_mem_unmap-Removed s envid va e p pp perm level xs found dir v top m small bound out plain used
      narrow =
    let (t, runs, r) =
      page_remove_lem s.pmap level xs p pp va (entry_perm perm) v top m.leads
        (entry_perm-lt perm small) (entry_perm_valid perm) m.entry bound out plain used narrow in
    let removing : ℕ → Cmd Kernel (Result (Unit {0})) = λ d. on_pmap (page_remove d va) >> done in
    (
      t,
      rw found (
          ap (λ (d : ℕ). removing d s) dir
          ∙ ap (λ r. and_then r (λ _. done)) (on_pmap-some (page_remove (page2pa p) va) s runs)),
      r,
    )
