-- ===== src/Examples/Calls.antt =====
-- A system call with five arguments, and one that switches.
use raspberry_pi_3_jos.Prelude.{ℕ, ◌≡◌, ◌≢◌, refl, some, arith}
use raspberry_pi_3_jos.Env.{Kernel, save_tf}
use raspberry_pi_3_jos.Env.Sched.{slot, IsNext}
use raspberry_pi_3_jos.Syscall.System.{el1_sync_syscall}
use raspberry_pi_3_jos.Syscall.Yield.{yield_overwrites}
use raspberry_pi_3_jos.Examples.Envs.{kernel}
use raspberry_pi_3_jos.Syscall.Stubs.{mem_map, yield, stub, dispatch, Fits, dispatch-stub}

dispatch-stub_example :
    dispatch (stub (mem_map 2049 0x5000 2050 0x6000 0x40))
    ≡ some (mem_map 2049 0x5000 2050 0x6000 0x40)
dispatch-stub_example =
    dispatch-stub (mem_map 2049 0x5000 2050 0x6000 0x40) (unfold Fits in omega arith)

yield_overwrites_example :
    (t : Kernel) × (d : ℕ) × (el1_sync_syscall (λ _ _. 0) 7 yield kernel ≡ some (tt, t))
    × IsNext kernel.envs kernel.sched_i d
    × (t.curenv ≡ some (slot kernel.sched_i d))
    × (t.time_stack.regs 0 ≡ 7)
    × ((r : ℕ)
        → r ≢ 0
        → t.time_stack.regs r ≡ ((save_tf kernel).envs (slot kernel.sched_i d)).env_tf.regs r)
yield_overwrites_example = yield_overwrites (λ _ _. 0) 7 kernel 1 (omega arith) refl
