-- ===== src/Syscall/Yield.antt =====
-- What `sys_set_return` does behind a switch.
use raspberry_pi_3_jos.Prelude.{ℕ, ◌<◌, ◌≡◌, ◌≢◌, ap, some, arith}
use raspberry_pi_3_jos.Prelude.State.{and_then, modify}
use raspberry_pi_3_jos.Env.{Kernel, nenv, save_tf, env_run}
use raspberry_pi_3_jos.Env.Sched.{slot, IsRunnable, IsNext, chosen, sched_yield-IsNext}
use raspberry_pi_3_jos.Syscall.Stubs.{Call}
use raspberry_pi_3_jos.Syscall.{sys_set_return, sys_yield}
use raspberry_pi_3_jos.Syscall.System.{handler, el1_sync_syscall}

after_switch :
    (x0 e : ℕ) (s : Kernel)
    → let t = sys_set_return x0 (chosen e s) in
      (t.curenv ≡ some e)
      × (t.time_stack.regs 0 ≡ x0)
      × ((r : ℕ) → r ≢ 0 → t.time_stack.regs r ≡ ((save_tf s).envs e).env_tf.regs r)
unfolding env_run save_tf sys_set_return
after_switch x0 e s = (ground arith, ground arith, λ r ne. ground arith)

-- A call of `syscall_yield` by an environment returns into the next runnable one, whose register x0
-- is then what the handler left in x0, while its other registers are the ones it was saved with.
pub yield_overwrites :
    (card : ℕ → ℕ → ℕ) (x0 : ℕ) (s : Kernel) (e : ℕ)
    → e < nenv
    → IsRunnable s.envs e
    → (t : Kernel) × (d : ℕ) × (el1_sync_syscall card x0 Call.yield s ≡ some (tt, t))
      × IsNext s.envs s.sched_i d
      × (t.curenv ≡ some (slot s.sched_i d))
      × (t.time_stack.regs 0 ≡ x0)
      × ((r : ℕ)
          → r ≢ 0
          → t.time_stack.regs r ≡ ((save_tf s).envs (slot s.sched_i d)).env_tf.regs r)
unfolding handler el1_sync_syscall sys_yield
yield_overwrites card x0 s e bound ready =
    let (d, next, le, runs) = sched_yield-IsNext s e bound ready in
    let (running, first, others) = after_switch x0 (slot s.sched_i d) s in
    (
      sys_set_return x0 (chosen (slot s.sched_i d) s),
      d,
      ap (λ r. and_then (and_then r (λ _ u. some (x0, u))) (λ r. modify (sys_set_return r))) runs,
      next,
      running,
      first,
      others,
    )
