-- ===== src/Syscall/Transfer.antt =====
-- A message with a page.
use raspberry_pi_3_jos.Prelude.{
  ℕ, ◌≤◌, ◌<◌, ◌≡◌, ◌≢◌, ap, ◌∙◌, true, false, some, List, arith, length, not, ◌&&◌, ◌==◌,
}
use raspberry_pi_3_jos.Prelude.State.{
  Cmd, Result, ok, get, modify, and_then, ◌>>=◌, ◌>>◌, bind_some,
}
use raspberry_pi_3_jos.Mmu.{npage, kaddr, page2pa}
use raspberry_pi_3_jos.Pmap.{Pmap, entry_perm, page_lookup}
use raspberry_pi_3_jos.Pmap.Tables.{IsPaged, IsTree}
use raspberry_pi_3_jos.Pmap.Maps.{Maps, page_lookup-Maps, page_lookup-kaddr}
use raspberry_pi_3_jos.Env.{Kernel, edit, on_pmap, current, envid2env}
use raspberry_pi_3_jos.Env.Sched.{IsRunnable}
use raspberry_pi_3_jos.Env.Setup.{on_pmap-some}
use raspberry_pi_3_jos.Syscall.Memory.{Added, insert-Added}
use raspberry_pi_3_jos.Syscall.Ipc.{current-eq}
use raspberry_pi_3_jos.Syscall.{done, send_page, deliver, transfer, sys_ipc_can_send}

-- The receiver `e` behind a page sent with `perm`.
abbrev marked : (e perm : ℕ) → Kernel → Kernel
marked e perm = edit e λ v. record v { env_ipc_perm = perm }

module _ (s : Kernel) (c e p q srcva perm pp old : ℕ) (level : ℕ → ℕ) (xs : List ℕ)
    (running : s.curenv ≡ some c) (dir_p : (s.envs c).env_pgdir ≡ page2pa p)
    (dir_q : (s.envs e).env_pgdir ≡ page2pa q) (v : IsPaged s.pmap level xs)
    (tree : IsTree s.pmap.mem level) (top_p : level p ≡ 1) (top_q : level q ≡ 1)
    (m : Maps s.pmap.mem level p srcva pp (entry_perm old)) (room : 3 ≤ length xs)
    (in_range : pp < npage) (old_small : old < 4096) (small : perm < 4096) where
  -- The lookup of `transfer` finds the sender's page.
  finds :
      (pte : ℕ) × (on_pmap (page_lookup (kaddr (s.envs c).env_pgdir) srcva) s
        ≡ some (some (pp, pte), s))
  finds =
      let bound : p < npage = v.tables p (λ z. omega (arith, top_p)) in
      (
        _,
        on_pmap-some (page_lookup (kaddr (s.envs c).env_pgdir) srcva) s (
            ap (λ (d : ℕ). page_lookup (kaddr d) srcva s.pmap) dir_p
            ∙ page_lookup-kaddr p srcva s.pmap bound
            ∙ page_lookup-Maps s.pmap level p srcva pp old bound in_range old_small m),
      )

  pub transfer-Added :
      srcva ≢ 0
      → (s.envs e).env_ipc_dstva ≢ 0
      → (t : Pmap) × (transfer e srcva perm s ≡ some (tt, marked e perm (record s { pmap = t })))
        × Added s.pmap level xs q pp (s.envs e).env_ipc_dstva perm t
  unfolding transfer send_page
  transfer-Added from to =
      let dstva = (s.envs e).env_ipc_dstva in
      let (t, runs, a) =
        insert-Added s (s.envs e).env_pgdir q pp dstva perm level xs dir_q v tree top_q room
          in_range small in
      let (pte, found) = finds in
      let given : not (srcva == 0) && not (dstva == 0) ≡ true = ground arith in
      (
        t,
        rw given (
            bind_some current
              (λ d. on_pmap (page_lookup (kaddr (s.envs d).env_pgdir) srcva) >>= λ found.
                send_page found e perm)
              s (current-eq s c running)
            ∙ bind_some (on_pmap (page_lookup (kaddr (s.envs c).env_pgdir) srcva))
                (λ found. send_page found e perm) s found
            ∙ ap (λ r. and_then r (λ _. modify (marked e perm))) runs),
        a,
      )

-- The receiver's slot after the message, in `u`, where it was in `s`.
pub record Received (s : Kernel) (e c value perm : ℕ) (u : Kernel) : Type 0 where
  pub value_sent : (u.envs e).env_ipc_value ≡ value
  pub from : (u.envs e).env_ipc_from ≡ (s.envs c).env_id
  pub perm_sent : (u.envs e).env_ipc_perm ≡ perm
  pub ready : IsRunnable u.envs e
  pub idle : (u.envs e).env_ipc_recving ≡ 0
  pub others : (d : ℕ) → d ≢ e → u.envs d ≡ s.envs d

delivered-Received :
    (s : Kernel) (e c value perm : ℕ) (t : Pmap)
    → let k = marked e perm (record s { pmap = t }) in
      Received s e c value perm (deliver e (k.envs c).env_id value k)
unfolding deliver
delivered-Received s e c value perm t = record {
  value_sent = ground arith;
  from = ground arith;
  perm_sent = ground arith;
  ready = ground arith;
  idle = ground arith;
  others = λ d ne. ground arith;
}

pub sys_ipc_can_send-Added :
    (s : Kernel) (envid value srcva perm c e p q pp old : ℕ) (level : ℕ → ℕ) (xs : List ℕ)
    → envid2env envid false s ≡ some (ok e, s)
    → s.curenv ≡ some c
    → (s.envs e).env_ipc_recving ≢ 0
    → srcva ≢ 0
    → (s.envs e).env_ipc_dstva ≢ 0
    → (s.envs c).env_pgdir ≡ page2pa p
    → (s.envs e).env_pgdir ≡ page2pa q
    → IsPaged s.pmap level xs
    → IsTree s.pmap.mem level
    → level p ≡ 1
    → level q ≡ 1
    → Maps s.pmap.mem level p srcva pp (entry_perm old)
    → 3 ≤ length xs
    → pp < npage
    → old < 4096
    → perm < 4096
    → (u : Kernel) × (sys_ipc_can_send envid value srcva perm s ≡ some (ok tt, u))
      × Added s.pmap level xs q pp (s.envs e).env_ipc_dstva perm u.pmap
      × Received s e c value perm u
unfolding sys_ipc_can_send deliver
sys_ipc_can_send-Added s envid value srcva perm c e p q pp old level xs found running waiting from
      to dir_p dir_q v tree top_p top_q m room in_range old_small small =
    let (t, runs, a) =
      transfer-Added s c e p q srcva perm pp old level xs running dir_p dir_q v tree top_p top_q m
        room in_range old_small small from to in
    let k = marked e perm (record s { pmap = t }) in
    let rest : Cmd Kernel (Result (Unit {0})) = (do
      d ← current
      w ← get
      modify (deliver e (w.envs d).env_id value)
      done) in
    let u = deliver e (k.envs c).env_id value k in
    let waits : ((s.envs e).env_ipc_recving == 0) ≡ false = ground arith in
    (
      u,
      rw (found, waits)
          (ap (λ r. and_then r (λ _. rest)) runs
            ∙ bind_some current (λ d. do w ← get; modify (deliver e (w.envs d).env_id value); done)
                k (current-eq k c running)),
      a,
      delivered-Received s e c value perm t,
    )
