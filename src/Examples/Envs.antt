-- ===== src/Examples/Envs.antt =====
-- Environments 1, which runs, and 2; the slots 10, 9 and 8 are free.
use raspberry_pi_3_jos.Prelude.{
  ℕ, ◌+◌, ◌≡◌, ◌≢◌, ◌≤◌, ◌↔◌, refl, Bool, true, false, ◌||◌, none, some, List, [], ◌∷◌, arith, ◌==◌,
  if◌then◌else◌, ◌⊎◌,
}
use raspberry_pi_3_jos.Queue.Chain.{elem}
use raspberry_pi_3_jos.Env.{
  Env, Kernel, Trapframe, ok, err, env_free_status, env_runnable, e_bad_env, envx, mkenvid,
  envid2env, env_run, sched_loop, sched_yield,
}
use raspberry_pi_3_jos.Env.Ids.{HasIds, envx-eq, mkenvid_fresh, envid2env-ok_iff, envid2env_checked}
use raspberry_pi_3_jos.Env.Free.{IsEnvs}
use raspberry_pi_3_jos.Env.Switch.{env_run_resume}
use raspberry_pi_3_jos.Env.Sched.{
  slot, IsRunnable, IsNext, chosen, distance, sched_yield-IsNext, sched_yield_hangs,
}
use raspberry_pi_3_jos.Syscall.{e_ipc_not_recv, sys_ipc_recv, sys_ipc_can_send, sys_set_env_status}
use raspberry_pi_3_jos.Syscall.Ipc.{IsEnv, recv-send}
use raspberry_pi_3_jos.Syscall.Status.{sys_set_env_status_leaks}
use raspberry_pi_3_jos.Examples.Queues.{blank, three, three-IsQueue}

abbrev frame : ℕ → Trapframe
frame at = record { spsr = 0; elr = at; esr = 0; sp = 0x0100_0000; regs = λ _. 0 }

-- An environment in use has the id of the first call of `mkenvid` for its slot.
abbrev env_of : ℕ → Env
env_of e =
    let used = e == 1 || e == 2 in
    record {
      env_tf = frame 0x1000;
      env_id = if used then 2048 + e else e;
      env_parent_id = if e == 2 then 2049 else 0;
      env_status = if used then env_runnable else env_free_status;
      env_pgdir = 0x10_0000;
      env_ipc_value = 0;
      env_ipc_from = 0;
      env_ipc_recving = 0;
      env_ipc_dstva = 0;
      env_ipc_perm = 0;
      env_pgfault_handler = 0;
      env_xstacktop = 0;
    }

abbrev pub kernel : Kernel
kernel = record {
  pmap = record { mem = λ _. 0; pp_ref = λ _. 0; page_free_list = blank };
  envs = env_of;
  curenv = some 1;
  env_free_list = three;
  next_env_id = 5;
  sched_i = 1;
  time_stack = frame 0x2000;
  ttbr0 = 0x10_0000;
}

free_slots : List ℕ
free_slots = 10 ∷ 9 ∷ 8 ∷ []

kernel-HasIds : HasIds kernel
kernel-HasIds e bound used = ground (arith, envx-eq (2048 + e))

kernel-IsEnvs : IsEnvs kernel free_slots
unfolding free_slots
kernel-IsEnvs = record { queue = three-IsQueue; listed = λ e h. ground arith }

kernel-IsEnv : IsEnv kernel 2050 2
kernel-IsEnv = record {
  ids = kernel-HasIds;
  bound = omega arith;
  nonzero = λ e. omega arith;
  used = λ e. omega arith;
  named = refl;
}

idle : Kernel
idle = record kernel { envs = λ e. record (env_of e) { env_status = env_free_status } }

later : Kernel
later = record kernel { next_env_id = 9 }

mkenvid_fresh_example :
    (i : ℕ) × (j : ℕ) × (s' : Kernel) × (t' : Kernel) × (mkenvid 8 kernel ≡ some (i, s'))
    × (mkenvid 8 later ≡ some (j, t'))
    × (i ≢ j)
unfolding later
mkenvid_fresh_example =
    mkenvid_fresh kernel later 8 8 (omega arith) (omega arith) (omega arith) (omega arith)
      (omega arith)

envid2env-ok_iff_example :
    (envid2env 2050 false kernel ≡ some (ok 2, kernel))
    ↔ (((kernel.envs 2).env_status ≢ env_free_status) × ((kernel.envs 2).env_id ≡ 2050))
envid2env-ok_iff_example =
    envid2env-ok_iff kernel 2050 2 kernel-HasIds (omega arith) (λ e. omega arith)

env_run_resume_example :
    let t = env_run 1 (record (env_run 2 kernel) { time_stack = frame 0x3000 }) in
    (t.time_stack ≡ kernel.time_stack)
    × (t.curenv ≡ some 1)
    × (t.ttbr0 ≡ (kernel.envs 1).env_pgdir)
    × ((t.envs 2).env_tf ≡ frame 0x3000)
env_run_resume_example = env_run_resume kernel 1 2 (frame 0x3000) refl (λ e. omega arith)

sched_yield_example :
    (d : ℕ) × IsNext kernel.envs kernel.sched_i d
    × (d ≤ distance kernel.sched_i 1)
    × (sched_yield kernel ≡ some (tt, chosen (slot kernel.sched_i d) kernel))
sched_yield_example = sched_yield-IsNext kernel 1 (omega arith) refl

sched_yield_hangs_example : sched_loop 5000 idle ≡ none
unfolding idle
sched_yield_hangs_example = sched_yield_hangs 5000 idle (λ e bound ready. omega (arith, ready))

receiving : Kernel
receiving = record kernel { curenv = some 2 }

receiving-IsEnv : IsEnv receiving 2050 2
unfolding receiving
receiving-IsEnv = record {
  ids = kernel-HasIds;
  bound = omega arith;
  nonzero = λ e. omega arith;
  used = λ e. omega arith;
  named = refl;
}

recv-send_example :
    (c : ℕ) × (t : Kernel) × (u : Kernel) × (sys_ipc_recv 0 receiving ≡ some (tt, t))
    × (t.curenv ≡ some c)
    × (c ≢ 2)
    × (sys_ipc_can_send 2050 42 0 0 t ≡ some (ok tt, u))
    × ((u.envs 2).env_ipc_value ≡ 42)
    × ((u.envs 2).env_ipc_from ≡ (receiving.envs c).env_id)
    × IsRunnable u.envs 2
    × (sys_ipc_can_send 2050 43 0 0 u ≡ some (err e_ipc_not_recv, u))
unfolding receiving
recv-send_example =
    recv-send receiving 2 1 2050 0 42 43 0 0 0 receiving-IsEnv refl (omega arith) (λ e. omega arith)
      refl

sys_set_env_status_leaks_example :
    (t : Kernel) × (sys_set_env_status 2050 env_free_status kernel ≡ some (ok tt, t))
    × (envid2env 2050 false t ≡ some (err e_bad_env, t))
    × ((id : ℕ) (check : Bool) (u : Kernel)
        → (id ≡ 0 → kernel.curenv ≢ some 2)
        → envid2env id check t ≢ some (ok 2, u))
    × IsEnvs t free_slots
    × (elem 2 free_slots ≡ false)
sys_set_env_status_leaks_example =
    sys_set_env_status_leaks kernel 2050 2 free_slots kernel-IsEnv kernel-IsEnvs

envid2env_checked_example :
    (envid2env 2050 true kernel ≡ some (ok (envx 2050), kernel))
      × ((kernel.envs (envx 2050)).env_status ≢ env_free_status)
      × ((kernel.envs (envx 2050)).env_id ≡ 2050)
      × ((envx 2050 ≡ 1) ⊎ ((kernel.envs (envx 2050)).env_parent_id ≡ (kernel.envs 1).env_id))
    ⊎ (envid2env 2050 true kernel ≡ some (err e_bad_env, kernel))
      × (((kernel.envs (envx 2050)).env_status ≡ env_free_status)
          ⊎ ((kernel.envs (envx 2050)).env_id ≢ 2050)
          ⊎ (envx 2050 ≢ 1) × ((kernel.envs (envx 2050)).env_parent_id ≢ (kernel.envs 1).env_id))
envid2env_checked_example = envid2env_checked kernel 2050 1 refl (λ e. omega arith)
