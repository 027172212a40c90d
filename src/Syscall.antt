-- ===== src/Syscall.antt =====
-- The system calls of OS/lib/syscall_all.c. A handler gets its arguments in the types that it
-- declares, without `sysno`; a handler that returns an int has a `Result`, and -1 is `err 1`.
-- Messages by `printf` and waits by `usleep` are left out. `sys_putchar` and `sys_cgetc` only drive
-- a device; `sys_panic` and `sys_set_trapframe` only panic. System has the exception that calls them.
pub mod Ipc
pub mod Status
pub mod Memory
pub mod Transfer
pub mod Entry
pub mod Fork
pub mod Unmap
pub mod System
pub mod Keeps
pub mod Reach
pub mod Yield
pub mod Stubs
use raspberry_pi_3_jos.Prelude.{
  ℕ, zero, suc, ◌+◌, ◌*◌, ◌/◌, ◌%◌, ◌^◌, Bool, true, false, not, ◌&&◌, ◌||◌, Option, none, some,
  bit_or, ◌==◌, ltb, if◌then◌else◌,
}
use raspberry_pi_3_jos.Prelude.State.{Cmd, pure, panic, and_then, ◌>>=◌, ◌>>◌, get, modify}
use raspberry_pi_3_jos.Queue.{update}
use raspberry_pi_3_jos.Mmu.{by2pg, pte_v, attrib_ap_rw_all, utop, ustacktop, kaddr, page2kva}
use raspberry_pi_3_jos.Pmap.{Pmap, bcopy, bzero, page_alloc, page_insert, page_lookup, page_remove}
use raspberry_pi_3_jos.Env.{
  Env, Kernel, Result, ok, err, Trapframe, env_free_status, env_runnable, env_not_runnable,
  e_bad_env, edit, on_pmap, current, envid2env, env_alloc, env_destroy, sched_yield,
}

abbrev pub e_unspecified : ℕ
e_unspecified = 1

abbrev pub e_inval : ℕ
e_inval = 3

abbrev pub e_ipc_not_recv : ℕ
e_ipc_not_recv = 6

-- `if ((r = envid2env(...)) < 0) return r;`
abbrev pub with_env : {A : Type 0} → ℕ → Bool → (ℕ → Cmd Kernel (Result A)) → Cmd Kernel (Result A)
with_env envid checkperm k =
    envid2env envid checkperm >>= λ r. elim r [ ok e ↦ k e | err code ↦ pure (err code) ]

abbrev pub done : Cmd Kernel (Result (Unit {0}))
done = pure (ok tt)

-- ROUNDDOWN(va, BY2PG)
abbrev pub page_base : ℕ → ℕ
page_base va = va / by2pg * by2pg

pub sys_set_return : ℕ → Kernel → Kernel
sys_set_return r s = record s {
  time_stack = record s.time_stack { regs = update s.time_stack.regs 0 r };
}

pub sys_getenvid : Cmd Kernel ℕ
sys_getenvid = do c ← current; s ← get; pure (s.envs c).env_id

pub sys_yield : Cmd Kernel (Unit {0})
sys_yield = sched_yield

pub sys_env_destroy : ℕ → Cmd Kernel (Result (Unit {0}))
sys_env_destroy envid = with_env envid true λ e. env_destroy e >> done

pub sys_set_pgfault_handler : (envid func xstacktop : ℕ) → Cmd Kernel (Result (Unit {0}))
sys_set_pgfault_handler envid func xstacktop = with_env envid false λ e. do
  modify (edit e (λ v. record v { env_pgfault_handler = func; env_xstacktop = xstacktop }))
  done

pub sys_mem_alloc : (envid va perm : ℕ) → Cmd Kernel (Result (Unit {0}))
sys_mem_alloc envid va perm =
    if ltb utop va
    then pure (err e_unspecified)
    else with_env envid false λ e. do
      ppage ← on_pmap page_alloc
      on_pmap (modify (λ p. record p { mem = bzero (page2kva ppage) by2pg p.mem }))
      s ← get
      on_pmap (
          page_insert (kaddr (s.envs e).env_pgdir) ppage va
            (bit_or (bit_or perm pte_v) attrib_ap_rw_all))
      done

-- A page that was found is mapped; NULL is refused with -1.
map_found : Option (ℕ × ℕ) → (dst dstva perm : ℕ) → Cmd Kernel (Result (Unit {0}))
map_found none dst dstva perm = pure (err e_unspecified)
map_found (some (ppage, _)) dst dstva perm = do
  s ← get
  on_pmap (page_insert (kaddr (s.envs dst).env_pgdir) ppage dstva perm)
  done

pub sys_mem_map : (srcid srcva dstid dstva perm : ℕ) → Cmd Kernel (Result (Unit {0}))
sys_mem_map srcid srcva dstid dstva perm = with_env srcid true λ src. with_env dstid true λ dst. do
  s ← get
  found ← on_pmap (page_lookup (s.envs src).env_pgdir (page_base srcva))
  map_found found dst (page_base dstva) perm

pub sys_mem_unmap : (envid va : ℕ) → Cmd Kernel (Result (Unit {0}))
sys_mem_unmap envid va =
    with_env envid true λ e. do s ← get; on_pmap (page_remove (s.envs e).env_pgdir va); done

-- The new environment has the caller's registers, but for the 0 that its call returns.
pub child_of : Trapframe → Env → Env
child_of tf v = record v {
  env_tf = record tf { regs = update tf.regs 0 0 };
  env_status = env_not_runnable;
  env_ipc_recving = 0;
}

pub sys_env_alloc : Cmd Kernel ℕ
sys_env_alloc = do
  c ← current
  s ← get
  e ← env_alloc (s.envs c).env_id
  modify (λ t. edit e (child_of t.time_stack) t)
  t ← get
  pure (t.envs e).env_id

pub sys_set_env_status : (envid status : ℕ) → Cmd Kernel (Result (Unit {0}))
sys_set_env_status envid status =
    if not (status == env_runnable)
      && not (status == env_not_runnable)
      && not (status == env_free_status)
    then pure (err e_inval)
    else with_env envid false λ e. do modify (edit e (λ v. record v { env_status = status })); done

pub sys_ipc_recv : ℕ → Cmd Kernel (Unit {0})
sys_ipc_recv dstva = do
  c ← current
  modify (
      edit c (λ v. record v {
        env_ipc_dstva = dstva;
        env_ipc_recving = 1;
        env_status = env_not_runnable;
      }))
  sys_yield

-- The page that is sent; the code does not test for NULL before it uses the page.
send_page : Option (ℕ × ℕ) → (e perm : ℕ) → Cmd Kernel (Unit {0})
send_page none e perm = panic
send_page (some (p, _)) e perm = do
  s ← get
  on_pmap (page_insert (kaddr (s.envs e).env_pgdir) p (s.envs e).env_ipc_dstva perm)
  modify (edit e (λ v. record v { env_ipc_perm = perm }))

-- The last five assignments of `sys_ipc_can_send`.
unfoldable pub deliver : (e from value : ℕ) → Kernel → Kernel
deliver e from value = edit e λ v. record v {
  env_ipc_recving = 0;
  env_ipc_from = from;
  env_ipc_value = value;
  env_status = env_runnable;
}

-- `if (srcva != 0 && e->env_ipc_dstva != 0) { ... }`
pub transfer : (e srcva perm : ℕ) → Cmd Kernel (Unit {0})
transfer e srcva perm s =
    if not (srcva == 0) && not ((s.envs e).env_ipc_dstva == 0)
    then (do
      c ← current
      found ← on_pmap (page_lookup (kaddr (s.envs c).env_pgdir) srcva)
      send_page found e perm)
        s
    else some (tt, s)

pub sys_ipc_can_send : (envid value srcva perm : ℕ) → Cmd Kernel (Result (Unit {0}))
sys_ipc_can_send envid value srcva perm = with_env envid false λ e. do
  s ← get
  if (s.envs e).env_ipc_recving == 0 then pure (err e_ipc_not_recv) else do
    transfer e srcva perm
    c ← current
    t ← get
    modify (deliver e (t.envs c).env_id value)
    done

-- The entry for `va`, 0 where no page is mapped.
pub sys_pgtable_entry : ℕ → Cmd Kernel ℕ
sys_pgtable_entry va = do
  c ← current
  s ← get
  found ← on_pmap (page_lookup (kaddr (s.envs c).env_pgdir) va)
  t ← get
  pure (elim found [ none ↦ 0 | some (_, pte) ↦ t.pmap.mem pte ])

-- `bcopy` between two whole pages, eight bytes (two rounds of the source's loop) at a time.
copy_words : ℕ → ℕ → ℕ → (ℕ → ℕ) → ℕ → ℕ
copy_words zero src dst mem = mem
copy_words (suc n) src dst mem = copy_words n (src + 8) (dst + 8) (update mem dst (mem src))

-- One round of the loop of `sys_fork`.
pub copy_page : Option (ℕ × ℕ) → (e va : ℕ) → Cmd Kernel (Unit {0})
copy_page none e va = pure tt
copy_page (some (p, _)) e va = do
  pp ← on_pmap page_alloc
  on_pmap (modify (λ m. record m { mem = copy_words 512 (page2kva p) (page2kva pp) m.mem }))
  s ← get
  on_pmap (page_insert (kaddr (s.envs e).env_pgdir) pp va attrib_ap_rw_all)

-- `for (va = 0; va < USTACKTOP; va += BY2PG)`, over the rounds left.
pub copy_pages : ℕ → (e va : ℕ) → Cmd Kernel (Unit {0})
copy_pages zero e va s = some (tt, s)
copy_pages (suc n) e va s =
    let rest = copy_pages n e (va + by2pg) in
    and_then (current s) λ c t.
      and_then (on_pmap (page_lookup (kaddr (t.envs c).env_pgdir) va) t)
        λ found u. and_then (copy_page found e va u) (λ _. rest)

-- `envid2env` of the id that was just given finds the child; its result is not tested.
pub sys_fork : Cmd Kernel ℕ
unfolding copy_pages
sys_fork = do
  envid ← sys_env_alloc
  r ← envid2env envid false
  elim r [
    | err _ ↦ panic
    | ok e ↦ (do
      copy_pages (ustacktop / by2pg) e 0
      modify (edit e (λ v. record v { env_status = env_runnable }))
      pure envid)
  ]

-- The loop of `sys_emmc_read`, over the rounds left; `card` is what `emmc_read_sector` reads, by the
-- sector.
read_sectors : (rounds : ℕ) → (card : ℕ → ℕ → ℕ) → (sec sector_offset buf : ℕ) → (ℕ → ℕ) → ℕ → ℕ
read_sectors zero card sec sector_offset buf mem = mem
read_sectors (suc rounds) card sec sector_offset buf mem =
    read_sectors rounds card (sec + 1) sector_offset buf
      (bcopy (card ((sec + sector_offset) % 2 ^ 32)) 0 (buf + sec * 512) 512 mem)

pub sys_emmc_read : (card : ℕ → ℕ → ℕ) → (sector va : ℕ) → Cmd Kernel (Unit {0})
unfolding read_sectors
sys_emmc_read card sector va = do
  page ← on_pmap page_alloc
  on_pmap (
      modify (λ m. record m {
        mem = read_sectors 8 card 0 ((54000 + sector) % 2 ^ 32) (page2kva page) m.mem;
      }))
  c ← current
  s ← get
  on_pmap (page_insert (s.envs c).env_pgdir page va attrib_ap_rw_all)
