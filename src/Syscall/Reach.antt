-- ===== src/Syscall/Reach.antt =====
-- The states that the kernel reaches from `main` on: system calls, clock interrupts and the steps of
-- the programs, in any order, as long as the programs cannot write to the kernel's own pages.
use raspberry_pi_3_jos.Prelude.{ℕ, ◌/◌, ◌%◌, ◌^◌, ◌≤◌, ◌<◌, ◌≡◌, ◌≢◌, true, none, some, List, []}
use raspberry_pi_3_jos.Prelude.State.{Cmd, Result, ok, err, pure, ◌>>=◌, ◌>>◌}
use raspberry_pi_3_jos.Prelude.Triple.{Triple, Triple-modify, Triple-bind, Triple-then}
use raspberry_pi_3_jos.Queue.Chain.{elem}
use raspberry_pi_3_jos.Pmap.{Pmap, used_index, page_lookup}
use raspberry_pi_3_jos.Pmap.Alloc.{IsFree}
use raspberry_pi_3_jos.Env.{Kernel, Trapframe, nenv, env_free_status}
use raspberry_pi_3_jos.Env.Invariant.{IsKernel, Good}
use raspberry_pi_3_jos.Boot.{main, handle_int}
use raspberry_pi_3_jos.Boot.Keeps.{main-Good, handle_int-Good}
use raspberry_pi_3_jos.Syscall.Stubs.{Call}
use raspberry_pi_3_jos.Syscall.{sys_set_return}
use raspberry_pi_3_jos.Syscall.System.{code, handler, el1_sync_syscall}
use raspberry_pi_3_jos.Syscall.Keeps.{
  Ends, pure-Ends, sys_getenvid-Ends, sys_yield-Ends, sys_env_destroy-Ends,
  sys_set_pgfault_handler-Ends, sys_mem_alloc-Ends, sys_mem_map-Ends, sys_mem_unmap-Ends,
  sys_env_alloc-Ends, sys_set_env_status-Ends, sys_ipc_recv-Ends,
}
use raspberry_pi_3_jos.Syscall.Keeps.Copies.{
  sys_ipc_can_send-Ends, sys_pgtable_entry-Ends, sys_fork-Ends, sys_emmc_read-Ends,
}

-- Bit 7 of an entry, AP[2], forbids stores, as in ATTRIB_AP_RO_ALL.
abbrev pub IsReadOnly : ℕ → Type 0
IsReadOnly entry = entry / 2 ^ 7 % 2 ≡ 1

-- The pages below `used_index`, where the kernel and its variables lie, are read-only wherever an
-- environment in use maps them, and none of them is on the list of free pages.
pub record Shielded (s : Kernel) : Type 0 where
  pub unwritten :
      (e va page entry : ℕ)
      → e < nenv
      → (s.envs e).env_status ≢ env_free_status
      → page < used_index
      → page_lookup (s.envs e).env_pgdir va s.pmap ≡ some (some (page, entry), s.pmap)
      → IsReadOnly (s.pmap.mem entry)
  pub unlisted : (xs : List ℕ) (x : ℕ) → IsFree s.pmap xs → elem x xs ≡ true → used_index ≤ x

-- One step: a system call with `x0` as in `handler`, the clock, or the program that runs, which
-- changes its registers and the memory of pages. Programs run and calls write to pages where the
-- kernel's own pages are `Shielded` only: a store to these would change `envs`.
pub data Step (card : ℕ → ℕ → ℕ) (s : Kernel) : Kernel → Type 0 where
  call :
      (x0 : ℕ) (c : Call) {t : Kernel}
      → Shielded s
      → el1_sync_syscall card x0 c s ≡ some (tt, t)
      → Step card s t
  clock : {t : Kernel} → handle_int s ≡ some (tt, t) → Step card s t
  user :
      (tf : Trapframe) (p : Pmap)
      → Shielded s
      → Step card s (record s { time_stack = tf; pmap = p })

pub data Reach (card : ℕ → ℕ → ℕ) : Kernel → Type 0 where
  start :
      (program : ℕ → ℕ) (first second : ℕ) (s : Kernel) {t : Kernel}
      → main card program first second s ≡ some (tt, t)
      → Reach card t
  later : {s t : Kernel} → Reach card s → Step card s t → Reach card t

then_pure : {A : Type 0} (m : Cmd Kernel A) (x0 : ℕ) → Ends [] m → Ends [] (m >> pure x0)
then_pure m x0 h = Triple-then h (pure-Ends [] x0)

with_code : (m : Cmd Kernel (Result (Unit {0}))) → Ends [] m → Ends [] (m >>= code)
with_code m h = Triple-bind h go
  where
    go : (r : Result (Unit {0})) → Ends [] (code r)
    go (ok _) = pure-Ends [] 0
    go (err n) = pure-Ends [] _

stops : {A : Type 0} → Ends {A = A} [] (λ _. none)
stops s h a t run = absurd (cc)

handler-Ends : (card : ℕ → ℕ → ℕ) (x0 : ℕ) (c : Call) → Ends [] (handler card x0 c)
unfolding handler
handler-Ends card x0 (Call.putchar ch) = pure-Ends [] x0
handler-Ends card x0 Call.getenvid = sys_getenvid-Ends
handler-Ends card x0 Call.yield = then_pure _ x0 sys_yield-Ends
handler-Ends card x0 (Call.env_destroy envid) = with_code _ (sys_env_destroy-Ends envid)
handler-Ends card x0 (Call.set_pgfault_handler envid func xstacktop) =
    with_code _ (sys_set_pgfault_handler-Ends envid func xstacktop)
handler-Ends card x0 (Call.mem_alloc envid va perm) = with_code _ (sys_mem_alloc-Ends envid va perm)
handler-Ends card x0 (Call.mem_map srcid srcva dstid dstva perm) =
    with_code _ (sys_mem_map-Ends srcid srcva dstid dstva perm)
handler-Ends card x0 (Call.mem_unmap envid va) = with_code _ (sys_mem_unmap-Ends envid va)
handler-Ends card x0 Call.env_alloc = sys_env_alloc-Ends
handler-Ends card x0 (Call.set_env_status envid status) =
    with_code _ (sys_set_env_status-Ends envid status)
handler-Ends card x0 (Call.set_trapframe envid tf) = stops
handler-Ends card x0 (Call.panic msg) = stops
handler-Ends card x0 (Call.ipc_can_send envid value srcva perm) =
    with_code _ (sys_ipc_can_send-Ends envid value srcva perm)
handler-Ends card x0 (Call.ipc_recv dstva) = then_pure _ x0 (sys_ipc_recv-Ends dstva)
handler-Ends card x0 Call.cgetc = pure-Ends [] x0
handler-Ends card x0 (Call.pgtable_entry va) = sys_pgtable_entry-Ends va
handler-Ends card x0 Call.fork = sys_fork-Ends
handler-Ends card x0 (Call.emmc_read sector va) = then_pure _ x0 (sys_emmc_read-Ends card sector va)

-- Nothing of the invariant depends on the registers and the pages.
user-Good :
    (s : Kernel) (tf : Trapframe) (p : Pmap)
    → Good s
    → Good (record s { time_stack = tf; pmap = p })
user-Good s tf p (xs, v, u) = (
  xs,
  record {
    envs = record { queue = v.envs.queue; listed = v.envs.listed };
    ids = v.ids;
    running = v.running;
  },
  tt,
)

syscall-Good :
    (card : ℕ → ℕ → ℕ) (x0 : ℕ) (c : Call) → Triple Good (el1_sync_syscall card x0 c) (λ _. Good)
unfolding el1_sync_syscall sys_set_return
syscall-Good card x0 c = Triple-bind (handler-Ends card x0 c) (λ r.
    Triple-modify Good (sys_set_return r)
      (λ s h. user-Good s (sys_set_return r s).time_stack s.pmap h))

Step-Good : {card : ℕ → ℕ → ℕ} {s t : Kernel} → Step card s t → Good s → Good t
Step-Good {card} {s} {t} (call x0 c shielded run) h = syscall-Good card x0 c s h tt t run
Step-Good {card} {s} {t} (clock run) h = handle_int-Good s h tt t run
Step-Good {card} {s} (user tf p shielded) h = user-Good s tf p h

pub Reach-IsKernel : {card : ℕ → ℕ → ℕ} {s : Kernel} → Reach card s → (xs : List ℕ) × IsKernel s xs
Reach-IsKernel {card} {s} r = let (xs, v, u) = Reach-Good r in (xs, v)
  where
    Reach-Good : {card : ℕ → ℕ → ℕ} {s : Kernel} → Reach card s → Good s
    Reach-Good {card} {s} (start program first second s0 run) =
        main-Good card program first second s0 s run
    Reach-Good (later r st) = Step-Good st (Reach-Good r)
