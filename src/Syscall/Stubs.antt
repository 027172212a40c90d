-- ===== src/Syscall/Stubs.antt =====
-- The stubs of OS/user/syscall_lib.c against the table of the exception vector in OS/lib/utility.S
-- and the parameters that the handlers of OS/lib/syscall_all.c declare.
use raspberry_pi_3_jos.Prelude.{
  ℕ, ◌%◌, ◌^◌, ◌<◌, ◌≡◌, refl, Option, none, some, arith, ◌==◌, if◌then◌else◌,
}

-- A system call as its caller writes it.
pub data Call : Type 0 where
  putchar : (ch : ℕ) → Call
  getenvid : Call
  yield : Call
  env_destroy : (envid : ℕ) → Call
  set_pgfault_handler : (envid func xstacktop : ℕ) → Call
  mem_alloc : (envid va perm : ℕ) → Call
  mem_map : (srcid srcva dstid dstva perm : ℕ) → Call
  mem_unmap : (envid va : ℕ) → Call
  env_alloc : Call
  set_env_status : (envid status : ℕ) → Call
  set_trapframe : (envid tf : ℕ) → Call
  panic : (msg : ℕ) → Call
  ipc_can_send : (envid value srcva perm : ℕ) → Call
  ipc_recv : (dstva : ℕ) → Call
  cgetc : Call
  pgtable_entry : (va : ℕ) → Call
  fork : Call
  emmc_read : (sector va : ℕ) → Call

-- The arguments of `msyscall`, in the registers x0 to x5.
pub record Registers : Type 0 where
  pub number : ℕ
  pub a1 : ℕ
  pub a2 : ℕ
  pub a3 : ℕ
  pub a4 : ℕ
  pub a5 : ℕ

abbrev msyscall : (number a1 a2 a3 a4 a5 : ℕ) → Registers
msyscall number a1 a2 a3 a4 a5 = record {
  number = number;
  a1 = a1;
  a2 = a2;
  a3 = a3;
  a4 = a4;
  a5 = a5;
}

-- The body of `syscall_putchar`, `syscall_getenvid` and so on.
pub stub : Call → Registers
stub (putchar ch) = msyscall 0 ch 0 0 0 0
stub getenvid = msyscall 1 0 0 0 0 0
stub yield = msyscall 2 0 0 0 0 0
stub (env_destroy envid) = msyscall 3 envid 0 0 0 0
stub (set_pgfault_handler envid func xstacktop) = msyscall 4 envid func xstacktop 0 0
stub (mem_alloc envid va perm) = msyscall 5 envid va perm 0 0
stub (mem_map srcid srcva dstid dstva perm) = msyscall 6 srcid srcva dstid dstva perm
stub (mem_unmap envid va) = msyscall 7 envid va 0 0 0
stub env_alloc = msyscall 8 0 0 0 0 0
stub (set_env_status envid status) = msyscall 9 envid status 0 0 0
stub (set_trapframe envid tf) = msyscall 10 envid tf 0 0 0
stub (panic msg) = msyscall 11 msg 0 0 0 0
stub (ipc_can_send envid value srcva perm) = msyscall 12 envid value srcva perm 0
stub (ipc_recv dstva) = msyscall 13 dstva 0 0 0 0
stub cgetc = msyscall 14 0 0 0 0 0
stub (pgtable_entry va) = msyscall 15 va 0 0 0 0
stub fork = msyscall 16 0 0 0 0 0
stub (emmc_read sector va) = msyscall 17 sector va 0 0 0

-- A u_int parameter takes the low half of its register.
abbrev u_int : ℕ → ℕ
u_int x = x % 2 ^ 32

-- `el1_sync_syscall` compares the number in this order; a handler reads its declared parameters.
pub dispatch : Registers → Option Call
dispatch r =
    if r.number == 0
    then some (putchar (r.a1 % 2 ^ 8))
    else if r.number == 1
    then some getenvid
    else if r.number == 4
    then some (set_pgfault_handler (u_int r.a1) r.a2 r.a3)
    else if r.number == 5
    then some (mem_alloc (u_int r.a1) r.a2 r.a3)
    else if r.number == 6
    then some (mem_map (u_int r.a1) r.a2 (u_int r.a3) r.a4 r.a5)
    else if r.number == 7
    then some (mem_unmap (u_int r.a1) r.a2)
    else if r.number == 8
    then some env_alloc
    else if r.number == 9
    then some (set_env_status (u_int r.a1) (u_int r.a2))
    else if r.number == 10
    then some (set_trapframe (u_int r.a1) r.a2)
    else if r.number == 11
    then some (panic r.a1)
    else if r.number == 12
    then some (ipc_can_send (u_int r.a1) r.a2 r.a3 r.a4)
    else if r.number == 14
    then some cgetc
    else if r.number == 15
    then some (pgtable_entry r.a1)
    else if r.number == 16
    then some fork
    else if r.number == 17
    then some (emmc_read r.a1 r.a2)
    else if r.number == 2
    then some yield
    else if r.number == 13
    then some (ipc_recv r.a1)
    else if r.number == 3
    then some (env_destroy (u_int r.a1))
    else none

-- The ids and the status are u_ints and the character is a char.
unfoldable pub Fits : Call → Type 0
Fits (putchar ch) = ch < 2 ^ 8
Fits (env_destroy envid) = envid < 2 ^ 32
Fits (set_pgfault_handler envid func xstacktop) = envid < 2 ^ 32
Fits (mem_alloc envid va perm) = envid < 2 ^ 32
Fits (mem_map srcid srcva dstid dstva perm) = (srcid < 2 ^ 32) × (dstid < 2 ^ 32)
Fits (mem_unmap envid va) = envid < 2 ^ 32
Fits (set_env_status envid status) = (envid < 2 ^ 32) × (status < 2 ^ 32)
Fits (set_trapframe envid tf) = envid < 2 ^ 32
Fits (ipc_can_send envid value srcva perm) = envid < 2 ^ 32
Fits _ = Unit {0}

-- Every stub reaches the handler of its call with the arguments of its caller, where ids and
-- statuses fit a u_int and a character fits a char.
pub dispatch-stub : (c : Call) → Fits c → dispatch (stub c) ≡ some c
unfolding dispatch stub Fits
dispatch-stub (putchar ch) h = ground arith
dispatch-stub getenvid h = refl
dispatch-stub yield h = refl
dispatch-stub (env_destroy envid) h = ground arith
dispatch-stub (set_pgfault_handler envid func xstacktop) h = ground arith
dispatch-stub (mem_alloc envid va perm) h = ground arith
dispatch-stub (mem_map srcid srcva dstid dstva perm) h = ground arith
dispatch-stub (mem_unmap envid va) h = ground arith
dispatch-stub env_alloc h = refl
dispatch-stub (set_env_status envid status) h = ground arith
dispatch-stub (set_trapframe envid tf) h = ground arith
dispatch-stub (panic msg) h = refl
dispatch-stub (ipc_can_send envid value srcva perm) h = ground arith
dispatch-stub (ipc_recv dstva) h = refl
dispatch-stub cgetc h = refl
dispatch-stub (pgtable_entry va) h = refl
dispatch-stub fork h = refl
dispatch-stub (emmc_read sector va) h = refl
