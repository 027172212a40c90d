-- ===== src/Syscall/Keeps/Copies.antt =====
-- The same of messages, `sys_fork` and `sys_emmc_read`.
use raspberry_pi_3_jos.Prelude.{
  ℕ, zero, suc, ◌+◌, ◌/◌, ◌%◌, ◌^◌, refl, false, Option, none, some, List, [], ◌∷◌, not, ◌&&◌, ◌==◌,
  if◌then◌else◌, Bool-cases, inl, inr,
}
use raspberry_pi_3_jos.Prelude.State.{Cmd, Result, ok, err, pure, panic, ◌>>=◌, ◌>>◌, get, modify}
use raspberry_pi_3_jos.Prelude.Triple.{
  Triple, returned, Triple-pure, Triple-modify, Triple-bind, Triple-then, Triple-get,
}
use raspberry_pi_3_jos.Mmu.{by2pg, attrib_ap_rw_all, ustacktop, kaddr, page2kva}
use raspberry_pi_3_jos.Pmap.{page_alloc, page_insert, page_lookup}
use raspberry_pi_3_jos.Env.{Kernel, env_runnable, edit, on_pmap, current}
use raspberry_pi_3_jos.Env.Invariant.{
  Uses, Good, Uses-Good, on_pmap-Uses, edit-Uses, current-Uses, Found,
}
use raspberry_pi_3_jos.Env.Keeps.{envid2env-Uses}
use raspberry_pi_3_jos.Syscall.Keeps.{
  Ends, pure-Ends, with_env-Ends, edit_step, choose, sys_env_alloc-Ends,
}
use raspberry_pi_3_jos.Syscall.{
  e_ipc_not_recv, done, send_page, deliver, transfer, sys_ipc_can_send, sys_pgtable_entry,
  copy_words, copy_page, copy_pages, sys_fork, read_sectors, sys_emmc_read,
}

send_page-Uses :
    (es : List ℕ) (found : Option (ℕ × ℕ)) (e perm : ℕ)
    → Triple (Uses (e ∷ es)) (send_page found e perm) (λ _. Uses (e ∷ es))
unfolding send_page
send_page-Uses es none e perm = λ s h a t run. absurd (cc)
send_page-Uses es (some (p, pte)) e perm = Triple-get (λ s.
    Triple-then
      (on_pmap-Uses (e ∷ es)
        (page_insert (kaddr (s.envs e).env_pgdir) p (s.envs e).env_ipc_dstva perm))
      (Triple-modify (Uses (e ∷ es)) (edit e (λ v. record v { env_ipc_perm = perm }))
        (edit-Uses e es (λ v. record v { env_ipc_perm = perm }) (λ v. refl))))

drop_first : (c e : ℕ) (es : List ℕ) (s : Kernel) → Uses (c ∷ e ∷ es) s → Uses (e ∷ es) s
drop_first c e es s (xs, v, (a, u)) = (xs, v, u)

transfer-Uses :
    (e srcva perm : ℕ) → Triple (Uses (e ∷ [])) (transfer e srcva perm) (λ _. Uses (e ∷ []))
unfolding transfer
transfer-Uses e srcva perm s h a t run =
    let sending : Cmd Kernel (Unit {0}) = (do
      c ← current
      found ← on_pmap (page_lookup (kaddr (s.envs c).env_pgdir) srcva)
      send_page found e perm) in
    let sends : Triple (Uses (e ∷ [])) sending (λ _. Uses (e ∷ [])) =
      Triple-bind (current-Uses (e ∷ [])) (λ c.
        Triple-bind (on_pmap-Uses (c ∷ e ∷ []) (page_lookup (kaddr (s.envs c).env_pgdir) srcva))
          (λ found s h. send_page-Uses [] found e perm s (drop_first c e [] s h))) in
    elim (Bool-cases (not (srcva == 0) && not ((s.envs e).env_ipc_dstva == 0))) [
      | inl f ↦ sends s h a t (rw f at run)
      | inr f ↦ returned (λ _. Uses (e ∷ [])) (rw f at run) h
    ]

pub sys_ipc_can_send-Ends :
    (envid value srcva perm : ℕ) → Ends [] (sys_ipc_can_send envid value srcva perm)
unfolding sys_ipc_can_send deliver
sys_ipc_can_send-Ends envid value srcva perm =
    let deliver_to : ℕ → Cmd Kernel (Result (Unit {0})) = λ e. (do
      transfer e srcva perm
      c ← current
      t ← get
      modify (deliver e (t.envs c).env_id value)
      done) in
    let answer : ℕ → Cmd Kernel (Result (Unit {0})) = λ e. get >>= λ s.
    if (s.envs e).env_ipc_recving == 0 then pure (err e_ipc_not_recv) else deliver_to e in
    let delivers : (e : ℕ) → Ends (e ∷ []) (deliver_to e) = λ e.
      Triple-then (transfer-Uses e srcva perm) (
        Triple-bind (current-Uses (e ∷ [])) (λ c. Triple-get (λ t s h.
          edit_step e []
            (λ v. record v {
              env_ipc_recving = 0;
              env_ipc_from = (t.envs c).env_id;
              env_ipc_value = value;
              env_status = env_runnable;
            })
            done (λ v. refl) (pure-Ends (e ∷ []) (ok tt)) s (drop_first c e [] s h)))) in
    with_env-Ends [] envid false answer (λ e. Triple-get (λ s.
      choose (e ∷ []) ((s.envs e).env_ipc_recving == 0) (pure (err e_ipc_not_recv)) (deliver_to e)
        (pure-Ends (e ∷ []) (err e_ipc_not_recv)) (delivers e)))

pub sys_pgtable_entry-Ends : (va : ℕ) → Ends [] (sys_pgtable_entry va)
unfolding sys_pgtable_entry
sys_pgtable_entry-Ends va = Triple-bind (current-Uses []) (λ c. Triple-get (λ s.
    Triple-bind (on_pmap-Uses (c ∷ []) (page_lookup (kaddr (s.envs c).env_pgdir) va)) (λ found.
      Triple-get
        (λ t. pure-Ends (c ∷ []) (elim found [ none ↦ 0 | some (_, pte) ↦ t.pmap.mem pte ])))))

-- The loop of `sys_fork`, with the child in use.
copy_page-Uses :
    (es : List ℕ) (found : Option (ℕ × ℕ)) (e va : ℕ)
    → Triple (Uses es) (copy_page found e va) (λ _. Uses es)
unfolding copy_page
copy_page-Uses es none e va = Triple-pure (λ _. Uses es) tt (λ s h. h)
copy_page-Uses es (some (p, pte)) e va = Triple-bind (on_pmap-Uses es page_alloc) (λ pp.
    Triple-then
      (on_pmap-Uses es
        (modify (λ m. record m { mem = copy_words 512 (page2kva p) (page2kva pp) m.mem })))
      (Triple-get
        (λ s. on_pmap-Uses es (page_insert (kaddr (s.envs e).env_pgdir) pp va attrib_ap_rw_all))))

copy_pages-Uses : (n e va : ℕ) → Triple (Uses (e ∷ [])) (copy_pages n e va) (λ _. Uses (e ∷ []))
unfolding copy_pages
copy_pages-Uses zero e va s h a t run = returned (λ _. Uses (e ∷ [])) run h
copy_pages-Uses (suc n) e va s h a t run =
    let rest : Cmd Kernel (Unit {0}) = copy_pages n e (va + by2pg) in
    let round : Triple (Uses (e ∷ []))
        (current >>= λ c. get >>= λ k.
          on_pmap (page_lookup (kaddr (k.envs c).env_pgdir) va) >>= λ found.
          copy_page found e va >> rest)
        (λ _. Uses (e ∷ [])) =
      Triple-bind (current-Uses (e ∷ [])) (λ c. Triple-get (λ k.
        Triple-bind (on_pmap-Uses (c ∷ e ∷ []) (page_lookup (kaddr (k.envs c).env_pgdir) va))
          (λ found s h.
            Triple-then (copy_page-Uses (e ∷ []) found e va) (copy_pages-Uses n e (va + by2pg)) s
              (drop_first c e [] s h)))) in
    round s h a t run

pub sys_fork-Ends : Ends [] sys_fork
unfolding sys_fork
sys_fork-Ends =
    Triple-bind sys_env_alloc-Ends (λ envid. Triple-bind (envid2env-Uses [] envid false) (go envid))
  where
    go :
        (envid : ℕ) (r : Result ℕ)
        → Triple
            (Found [] r)
            (elim r as (λ _. Cmd Kernel ℕ) [
              | err _ ↦ panic
              | ok e ↦ (do
                copy_pages (ustacktop / by2pg) e 0
                modify (edit e (λ v. record v { env_status = env_runnable }))
                pure envid)
            ])
            (λ _. Good)
    go envid (err code) s h a t run = absurd (cc)
    go envid (ok e) s h a t run =
        Triple-then (copy_pages-Uses (ustacktop / by2pg) e 0)
          (edit_step e [] (λ v. record v { env_status = env_runnable }) (pure envid) (λ v. refl)
            (pure-Ends (e ∷ []) envid))
          s h a t run

pub sys_emmc_read-Ends : (card : ℕ → ℕ → ℕ) (sector va : ℕ) → Ends [] (sys_emmc_read card sector va)
unfolding sys_emmc_read
sys_emmc_read-Ends card sector va = Triple-bind (on_pmap-Uses [] page_alloc) (λ page.
    Triple-then
      (on_pmap-Uses [] (
        modify (λ m. record m {
          mem = read_sectors 8 card 0 ((54000 + sector) % 2 ^ 32) (page2kva page) m.mem;
        })))
      (Triple-bind (current-Uses []) (λ c. Triple-get (λ s k h a t run. Uses-Good (c ∷ []) t (
        on_pmap-Uses (c ∷ []) (page_insert (s.envs c).env_pgdir page va attrib_ap_rw_all) k h a t
          run)))))
