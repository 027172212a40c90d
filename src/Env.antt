-- ===== src/Env.antt =====
-- Environments: OS/include/env.h, OS/include/trap.h, OS/lib/env.c and OS/lib/sched.c.
-- A `struct Env *` is the index of the environment in `envs`. A run that ends in `panic`, in a
-- loop that never ends or in a read through NULL has the result `none`.
pub mod Free
pub mod Ids
pub mod Switch
pub mod Invariant
pub mod Keeps
pub mod Window
pub mod Setup
pub mod Alloc
pub mod Load
pub mod Sched
use raspberry_pi_3_jos.Prelude.{
  ℕ, zero, suc, ◌+◌, ◌-◌, ◌*◌, ◌/◌, ◌%◌, ◌^◌, Bool, true, false, not, ◌&&◌, ◌||◌, Option, none,
  some, bit_and, bit_or, ◌==◌, if◌then◌else◌,
}
pub use raspberry_pi_3_jos.Prelude.State.{Result, ok, err}
use raspberry_pi_3_jos.Prelude.State.{Cmd, pure, panic, and_then, ◌>>=◌, ◌>>◌, get, modify}
use raspberry_pi_3_jos.Queue.{Queue, update, list_init, list_first, list_insert_head, list_remove}
use raspberry_pi_3_jos.Mmu.{by2pg, attrib_ap_ro_all, ustacktop, kaddr, page2pa, pa2page}
use raspberry_pi_3_jos.Pmap.{Pmap, page_alloc, page_insert, raise_ref}

abbrev pub log2nenv : ℕ
log2nenv = 10

abbrev pub nenv : ℕ
nenv = 1024

-- ENV_FREE, ENV_RUNNABLE and ENV_NOT_RUNNABLE: `env_status` is a u_int that callers may set.
abbrev pub env_free_status : ℕ
env_free_status = 0

abbrev pub env_runnable : ℕ
env_runnable = 1

abbrev pub env_not_runnable : ℕ
env_not_runnable = 2

abbrev pub e_bad_env : ℕ
e_bad_env = 2

pub record Trapframe : Type 0 where
  pub spsr : ℕ
  pub elr : ℕ
  pub esr : ℕ
  pub sp : ℕ
  pub regs : ℕ → ℕ

-- `env_link` stands in the queue of the kernel's state, and `env_runs` is never used.
pub record Env : Type 0 where
  pub env_tf : Trapframe
  pub env_id : ℕ
  pub env_parent_id : ℕ
  pub env_status : ℕ
  pub env_pgdir : ℕ
  pub env_ipc_value : ℕ
  pub env_ipc_from : ℕ
  pub env_ipc_recving : ℕ
  pub env_ipc_dstva : ℕ
  pub env_ipc_perm : ℕ
  pub env_pgfault_handler : ℕ
  pub env_xstacktop : ℕ

-- The variables of the kernel are fields beside the memory of Pmap, whose words are those of the tables
-- and of the pages that environments map. `envs`, the array of pages and the saved registers lie in
-- the pages below `used_index`, at KERNEL_ENVS, KERNEL_PAGES and TIMESTACKTOP: a store there by a
-- program that has such a page mapped writable does not reach the fields.
pub record Kernel : Type 0 where
  pub pmap : Pmap
  pub envs : ℕ → Env
  pub curenv : Option ℕ
  pub env_free_list : Queue
  -- The static variables of `mkenvid` and of `sched_yield`.
  pub next_env_id : ℕ
  pub sched_i : ℕ
  -- The saved registers below TIMESTACKTOP, and the translation table base.
  pub time_stack : Trapframe
  pub ttbr0 : ℕ

abbrev pub edit : ℕ → (Env → Env) → Kernel → Kernel
edit e f s = record s { envs = update s.envs e (f (s.envs e)) }

abbrev pub on_pmap : {A : Type 0} → Cmd Pmap A → Cmd Kernel A
on_pmap m s = elim (m s.pmap) [ none ↦ panic s | some (a, p) ↦ some (a, record s { pmap = p }) ]

-- `*curenv`
abbrev pub current : Cmd Kernel ℕ
current s = elim s.curenv [ none ↦ panic s | some e ↦ some (e, s) ]

unfoldable pub envx : ℕ → ℕ
envx envid = bit_and envid (nenv - 1)

pub mkenvid : ℕ → Cmd Kernel ℕ
mkenvid e s =
    let next = (s.next_env_id + 1) % 2 ^ 64 in
    some (bit_or (next * 2 ^ (1 + log2nenv)) e % 2 ^ 32, record s { next_env_id = next })

-- `e != curenv && e->env_parent_id != curenv->env_id` is refused.
check_parent : ℕ → ℕ → Kernel → Result ℕ
check_parent e c s =
    if not (e == c) && not ((s.envs e).env_parent_id == (s.envs c).env_id)
    then err e_bad_env
    else ok e

-- The result for `envid == 0` is `curenv`; every caller reads through it.
unfoldable pub envid2env : ℕ → Bool → Cmd Kernel (Result ℕ)
unfolding check_parent
envid2env envid checkperm s =
    let e = envx envid in
    if envid == 0
    then and_then (current s) (λ c. pure (ok c))
    else if (s.envs e).env_status == env_free_status || not ((s.envs e).env_id == envid)
    then some (err e_bad_env, s)
    else if checkperm
    then and_then (current s) (λ c. pure (check_parent e c s))
    else some (ok e, s)

-- `for (i = NENV - 1; i >= 0; i--)`, over the rounds left.
init_envs : ℕ → Kernel → Kernel
init_envs zero s = s
init_envs (suc i) s =
    let e = record (s.envs i) { env_id = i; env_status = env_free_status } in
    init_envs i
      (record s { envs = update s.envs i e; env_free_list = list_insert_head i s.env_free_list })

pub env_init : Kernel → Kernel
unfolding init_envs
env_init s =
    let filled = init_envs nenv (record s { env_free_list = list_init s.env_free_list }) in
    record filled { curenv = none }

-- The two loops of `env_setup_vm`: pages from `pa` on are mapped from `va` on, read-only.
unfoldable pub map_window : ℕ → ℕ → ℕ → ℕ → Cmd Pmap (Unit {0})
map_window zero pgdir pa va s = some (tt, s)
map_window (suc n) pgdir pa va s =
    let rest = map_window n pgdir (pa + by2pg) (va + by2pg) in
    elim (pa2page pa) [
      | none ↦ panic s
      | some pp ↦ and_then (page_insert pgdir pp va attrib_ap_ro_all s) (λ _. rest)
    ]

abbrev pub uenvs : ℕ
uenvs = 0x9000_0000

abbrev pub upages : ℕ
upages = 0xa000_0000

-- The pages that `envs` (1024 of 384 bytes) and `pages` (0x20000 of 24 bytes) take.
abbrev pub envs_pages : ℕ
envs_pages = 96

abbrev pub pages_pages : ℕ
pages_pages = 768

-- `0x01400000 + va - UENVS` at the first address, UPAGES: the source subtracts UENVS here too.
abbrev pub pages_window : ℕ
pages_window = 0x0140_0000 + upages - uenvs

pub env_setup_vm : ℕ → Cmd Kernel (Unit {0})
unfolding map_window
env_setup_vm e = do
  p ← on_pmap page_alloc
  on_pmap (modify (raise_ref p))
  modify (edit e (λ v. record v { env_pgdir = page2pa p }))
  on_pmap (map_window envs_pages (kaddr (page2pa p)) 0x0170_0000 uenvs)
  on_pmap (map_window pages_pages (kaddr (page2pa p)) pages_window upages)

-- What `env_alloc` does with the first free environment.
pub fill_env : ℕ → ℕ → ℕ → Kernel → Kernel
fill_env e id parent_id s =
    record (edit e
      (λ v. record v {
        env_id = id;
        env_parent_id = parent_id;
        env_status = env_runnable;
        env_tf = record v.env_tf { spsr = 0; sp = ustacktop };
      })
      s) { env_free_list = list_remove e s.env_free_list }

pub env_alloc : ℕ → Cmd Kernel ℕ
unfolding fill_env
env_alloc parent_id s = elim (list_first s.env_free_list) [
  | none ↦ panic s
  | some e ↦ (do env_setup_vm e; id ← mkenvid e; modify (fill_env e id parent_id); pure e) s
]

pub env_free : ℕ → Kernel → Kernel
env_free e s = record (edit e (λ v. record v { env_status = env_free_status }) s) {
  env_free_list = list_insert_head e s.env_free_list;
}

-- The trapframe of the environment that ran is saved before the next one's is copied out.
unfoldable pub save_tf : Kernel → Kernel
save_tf s = elim s.curenv [ none ↦ s | some c ↦ edit c (λ v. record v { env_tf = s.time_stack }) s ]

unfoldable pub env_run : ℕ → Kernel → Kernel
unfolding save_tf
env_run e s =
    let saved = save_tf s in
    record saved {
      curenv = some e;
      time_stack = (saved.envs e).env_tf;
      ttbr0 = (saved.envs e).env_pgdir;
    }

-- `while (1)` over the environments, with fuel; `none` means that it runs on.
pub sched_loop : ℕ → Kernel → Option (Unit {0} × Kernel)
sched_loop zero s = none
sched_loop (suc fuel) s =
    let next = (s.sched_i + 1) % nenv in
    let s' = record s { sched_i = next } in
    let rest = sched_loop fuel s' in
    if (s'.envs next).env_status == env_runnable then some (tt, env_run next s') else rest

-- One round for each environment: after that the loop repeats itself.
pub sched_yield : Cmd Kernel (Unit {0})
unfolding sched_loop
sched_yield = sched_loop nenv

pub env_destroy : ℕ → Cmd Kernel (Unit {0})
env_destroy e s =
    let s' = env_free e s in
    let yielded = sched_yield (record s' { curenv = none }) in
    elim s'.curenv [ none ↦ some (tt, s') | some c ↦ if c == e then yielded else some (tt, s') ]
