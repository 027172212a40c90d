-- ===== src/Syscall/System.antt =====
-- The exception of a system call: `el1_sync_syscall` of OS/lib/utility.S with the handlers.
use raspberry_pi_3_jos.Prelude.{ℕ, ◌-◌, ◌^◌}
use raspberry_pi_3_jos.Prelude.State.{Cmd, Result, ok, err, pure, panic, ◌>>=◌, ◌>>◌, modify}
use raspberry_pi_3_jos.Env.{Kernel}
use raspberry_pi_3_jos.Syscall.Stubs.{Call}
use raspberry_pi_3_jos.Syscall.{
  sys_set_return, sys_getenvid, sys_yield, sys_env_destroy, sys_set_pgfault_handler, sys_mem_alloc,
  sys_mem_map, sys_mem_unmap, sys_env_alloc, sys_set_env_status, sys_ipc_recv, sys_ipc_can_send,
  sys_pgtable_entry, sys_fork, sys_emmc_read,
}

-- An int in w0.
abbrev pub code : Result (Unit {0}) → Cmd Kernel ℕ
code (ok _) = pure 0
code (err n) = pure (2 ^ 32 - n)

-- The handler of a call, and the register x0 behind it; `x0` is what the register holds behind a
-- handler that returns nothing, and the character that `sys_cgetc` gets.
unfoldable pub handler : (card : ℕ → ℕ → ℕ) → (x0 : ℕ) → Call → Cmd Kernel ℕ
handler card x0 (Call.putchar ch) = pure x0
handler card x0 Call.getenvid = sys_getenvid
handler card x0 Call.yield = sys_yield >> pure x0
handler card x0 (Call.env_destroy envid) = sys_env_destroy envid >>= code
handler card x0 (Call.set_pgfault_handler envid func xstacktop) =
    sys_set_pgfault_handler envid func xstacktop >>= code
handler card x0 (Call.mem_alloc envid va perm) = sys_mem_alloc envid va perm >>= code
handler card x0 (Call.mem_map srcid srcva dstid dstva perm) =
    sys_mem_map srcid srcva dstid dstva perm >>= code
handler card x0 (Call.mem_unmap envid va) = sys_mem_unmap envid va >>= code
handler card x0 Call.env_alloc = sys_env_alloc
handler card x0 (Call.set_env_status envid status) = sys_set_env_status envid status >>= code
handler card x0 (Call.set_trapframe envid tf) = panic
handler card x0 (Call.panic msg) = panic
handler card x0 (Call.ipc_can_send envid value srcva perm) =
    sys_ipc_can_send envid value srcva perm >>= code
handler card x0 (Call.ipc_recv dstva) = sys_ipc_recv dstva >> pure x0
handler card x0 Call.cgetc = pure x0
handler card x0 (Call.pgtable_entry va) = sys_pgtable_entry va
handler card x0 Call.fork = sys_fork
handler card x0 (Call.emmc_read sector va) = sys_emmc_read card sector va >> pure x0

-- Every handler goes on to `sys_set_return`, with x0 in the registers of the environment that runs.
unfoldable pub el1_sync_syscall : (card : ℕ → ℕ → ℕ) → (x0 : ℕ) → Call → Cmd Kernel (Unit {0})
unfolding handler
el1_sync_syscall card x0 c = handler card x0 c >>= λ r. modify (sys_set_return r)
