-- ===== src/Env/Switch.antt =====
-- `env_run`: what a switch saves and restores.
use raspberry_pi_3_jos.Prelude.{ℕ, ◌≡◌, ◌≢◌, some, arith}
use raspberry_pi_3_jos.Env.{Kernel, Trapframe, env_run}

-- When the environment `a` was interrupted with some registers, another one `b` was run and left
-- with registers of its own, and `a` is run again, the registers to return to are those of `a`, and
-- the translation table is that of `a`.
pub env_run_resume :
    (s : Kernel) (a b : ℕ) (left : Trapframe)
    → s.curenv ≡ some a
    → a ≢ b
    → let t = env_run a (record (env_run b s) { time_stack = left }) in
      (t.time_stack ≡ s.time_stack)
      × (t.curenv ≡ some a)
      × (t.ttbr0 ≡ (s.envs a).env_pgdir)
      × ((t.envs b).env_tf ≡ left)
unfolding env_run
env_run_resume s a b left cur ne = ground arith

-- Running the current environment again keeps its registers.
pub env_run_self :
    (s : Kernel) (a : ℕ) → s.curenv ≡ some a → (env_run a s).time_stack ≡ s.time_stack
unfolding env_run
env_run_self s a cur = ground arith
