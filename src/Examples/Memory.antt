-- ===== src/Examples/Memory.antt =====
-- Calls on memory by the environment 1, whose child is the environment 2.
use raspberry_pi_3_jos.Prelude.{◌+◌, ◌≡◌, ◌==◌, if◌then◌else◌, refl, some, arith}
use raspberry_pi_3_jos.Mmu.{page2pa}
use raspberry_pi_3_jos.Pmap.{Pmap}
use raspberry_pi_3_jos.Env.{Kernel, ok, envx, envid2env}
use raspberry_pi_3_jos.Syscall.{page_base, sys_mem_map, sys_mem_unmap, sys_ipc_can_send}
use raspberry_pi_3_jos.Pmap.Remove.{Removed}
use raspberry_pi_3_jos.Syscall.Unmap.{sys_mem_unmap-Removed}
use raspberry_pi_3_jos.Syscall.Memory.{Added, sys_mem_map-Added}
use raspberry_pi_3_jos.Syscall.Transfer.{Received, sys_ipc_can_send-Added}
use raspberry_pi_3_jos.Syscall.Entry.{pageref, pageref_lem}
use raspberry_pi_3_jos.Examples.Envs.{kernel}
use raspberry_pi_3_jos.Examples.Pages.{
  level, state, free_pages, state-IsPaged, state-IsTree, state-Maps,
}

-- Both environments have the directory in page 1.
sharing : Kernel
sharing = record kernel { pmap = state; envs = λ e. record (kernel.envs e) { env_pgdir = 0x1000 } }

sys_mem_map-Added_example :
    (t : Pmap) × (sys_mem_map 2049 0x5123 2050 0x6000 0x40 sharing
      ≡ some (ok tt, record sharing { pmap = t }))
    × Added state level free_pages 1 7 (page_base 0x6000) 0x40 t
unfolding sharing envid2env envx page2pa
sys_mem_map-Added_example =
    sys_mem_map-Added sharing 2049 0x5123 2050 0x6000 0x40 1 2 1 1 7 0x40 level free_pages refl refl
      refl refl state-IsPaged state-IsTree refl refl state-Maps (omega arith) (omega arith)
      (omega arith) (omega arith)

sys_mem_unmap-Removed_example :
    (t : Pmap) × (sys_mem_unmap 2050 0x5000 sharing ≡ some (ok tt, record sharing { pmap = t }))
    × Removed state level free_pages 1 7 0x5000 t
unfolding sharing envid2env envx page2pa
sys_mem_unmap-Removed_example =
    sys_mem_unmap-Removed sharing 2050 0x5000 2 1 7 0x40 level free_pages refl refl state-IsPaged
      refl state-Maps (omega arith) (omega arith) refl refl (omega arith) (omega arith)

-- The environment 2 waits for a page at 0x7000.
waiting : Kernel
waiting = record sharing {
  envs = λ e. record (sharing.envs e) {
    env_ipc_recving = if e == 2 then 1 else 0;
    env_ipc_dstva = if e == 2 then 0x7000 else 0;
  };
}

sys_ipc_can_send-Added_example :
    (u : Kernel) × (sys_ipc_can_send 2050 42 0x5000 0x40 waiting ≡ some (ok tt, u))
    × Added state level free_pages 1 7 (waiting.envs 2).env_ipc_dstva 0x40 u.pmap
    × Received waiting 2 1 42 0x40 u
unfolding waiting sharing envid2env envx page2pa
sys_ipc_can_send-Added_example =
    sys_ipc_can_send-Added waiting 2050 42 0x5000 0x40 1 2 1 1 7 0x40 level free_pages refl refl
      (λ e. omega arith) (λ e. omega arith) (λ e. omega arith) refl refl state-IsPaged state-IsTree
      refl refl state-Maps (omega arith) (omega arith) (omega arith) (omega arith)

pageref_example : pageref (λ pp. pp + 1) 0x5000 sharing ≡ some (8, sharing)
unfolding sharing page2pa
pageref_example =
    pageref_lem (λ pp. pp + 1) sharing 1 1 0x5000 level (some (7, 0x40)) refl refl (omega arith)
      (omega arith, omega arith, state-Maps)
