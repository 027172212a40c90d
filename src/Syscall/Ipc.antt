-- ===== src/Syscall/Ipc.antt =====
-- Messages: `sys_ipc_recv` and `sys_ipc_can_send`.
use raspberry_pi_3_jos.Prelude.{
  ℕ, ◌<◌, ◌≡◌, refl, sym, ap, ◌∙◌, ◌≢◌, true, false, some, arith, ◌==◌,
}
use raspberry_pi_3_jos.Prelude.State.{and_then, modify, ◌>>◌}
use raspberry_pi_3_jos.Env.{
  Env, Kernel, ok, err, nenv, env_free_status, env_runnable, env_not_runnable, edit, current, envx,
  envid2env, env_run, sched_yield,
}
use raspberry_pi_3_jos.Env.Ids.{HasIds, envid2env-ok_iff}
use raspberry_pi_3_jos.Env.Sched.{slot, IsRunnable, IsNext, chosen, sched_yield-IsNext}
use raspberry_pi_3_jos.Syscall.{
  e_ipc_not_recv, sys_yield, sys_ipc_recv, transfer, deliver, sys_ipc_can_send,
}

-- `envid` is the id of the environment `e`, which is in use.
pub record IsEnv (s : Kernel) (envid e : ℕ) : Type 0 where
  pub ids : HasIds s
  pub bound : e < nenv
  pub nonzero : envid ≢ 0
  pub used : (s.envs e).env_status ≢ env_free_status
  pub named : (s.envs e).env_id ≡ envid

pub found : (s : Kernel) (envid e : ℕ) → IsEnv s envid e → envid2env envid false s ≡ some (ok e, s)
found s envid e v = (envid2env-ok_iff s envid e v.ids v.bound v.nonzero).1 (v.used, v.named)

-- To an environment that does not wait, nothing is sent, and nothing of an earlier message is lost.
pub sys_ipc_can_send-not_recv :
    (s : Kernel) (envid e value srcva perm : ℕ)
    → IsEnv s envid e
    → (s.envs e).env_ipc_recving ≡ 0
    → sys_ipc_can_send envid value srcva perm s ≡ some (err e_ipc_not_recv, s)
unfolding sys_ipc_can_send
sys_ipc_can_send-not_recv s envid e value srcva perm v idle =
    let idle' : ((s.envs e).env_ipc_recving == 0) ≡ true = ground arith in
    rw (found s envid e v, idle')

-- Without a page a waiting environment gets the value and the sender's id and is runnable again.
pub sys_ipc_can_send-deliver :
    (s : Kernel) (envid e c value perm : ℕ)
    → IsEnv s envid e
    → s.curenv ≡ some c
    → (s.envs e).env_ipc_recving ≢ 0
    → sys_ipc_can_send envid value 0 perm s ≡ some (ok tt, deliver e (s.envs c).env_id value s)
unfolding sys_ipc_can_send transfer
sys_ipc_can_send-deliver s envid e c value perm v cur waits =
    let waits' : ((s.envs e).env_ipc_recving == 0) ≡ false = ground arith in
    rw (found s envid e v, waits', cur)

-- The state after `c` called `sys_ipc_recv`, before the switch.
abbrev pub blocked : ℕ → ℕ → Kernel → Kernel
blocked c dstva =
    edit c
      λ v. record v { env_ipc_dstva = dstva; env_ipc_recving = 1; env_status = env_not_runnable }

pub current-eq : (s : Kernel) (c : ℕ) → s.curenv ≡ some c → current s ≡ some (c, s)
current-eq s c cur = ground arith

recv_runs :
    (s : Kernel) (c dstva : ℕ)
    → s.curenv ≡ some c
    → sys_ipc_recv dstva s ≡ sched_yield (blocked c dstva s)
unfolding sys_ipc_recv sys_yield
recv_runs s c dstva cur =
    ap (λ r. and_then r (λ e. modify (blocked e dstva) >> sched_yield)) (current-eq s c cur)

-- A receiver blocks: it is not runnable and waits, and the processor goes to another environment,
-- the next runnable one.
pub sys_ipc_recv-blocks :
    (s : Kernel) (c e dstva : ℕ)
    → s.curenv ≡ some c
    → e < nenv
    → e ≢ c
    → IsRunnable s.envs e
    → (d : ℕ) × IsNext (blocked c dstva s).envs s.sched_i d
      × (sys_ipc_recv dstva s ≡ some (tt, chosen (slot s.sched_i d) (blocked c dstva s)))
      × (slot s.sched_i d ≢ c)
sys_ipc_recv-blocks s c e dstva cur bound ne ready =
    let ready' : IsRunnable (blocked c dstva s).envs e = ground arith in
    let next = sched_yield-IsNext (blocked c dstva s) e bound ready' in
    (next.0, next.1, recv_runs s c dstva cur ∙ next.3, λ same. ground (arith, next.1.runnable))

abbrev blocked_env : ℕ → Env → Env
blocked_env dstva v = record v {
  env_ipc_dstva = dstva;
  env_ipc_recving = 1;
  env_status = env_not_runnable;
}

abbrev delivered_env : ℕ → ℕ → Env → Env
delivered_env from value v = record v {
  env_ipc_recving = 0;
  env_ipc_from = from;
  env_ipc_value = value;
  env_status = env_runnable;
}

-- An edit that keeps the id and leaves the environment in use.
IsEnv-edit :
    (s : Kernel) (e envid : ℕ) (f : Env → Env)
    → IsEnv s envid e
    → (f (s.envs e)).env_id ≡ (s.envs e).env_id
    → (f (s.envs e)).env_status ≢ env_free_status
    → IsEnv (edit e f s) envid e
IsEnv-edit s e envid f v same used = record {
  ids = λ x bound still. ground (arith, v.ids x bound, v.ids e v.bound v.used);
  bound = v.bound;
  nonzero = v.nonzero;
  used = ground arith;
  named = ground (arith, v.named);
}

-- A switch changes no environment but for saved registers.
env_run-fields :
    (s : Kernel) (c e : ℕ)
    → (((env_run c s).envs e).env_id ≡ (s.envs e).env_id)
      × (((env_run c s).envs e).env_status ≡ (s.envs e).env_status)
      × (((env_run c s).envs e).env_ipc_recving ≡ (s.envs e).env_ipc_recving)
unfolding env_run
env_run-fields s c e = ground arith

env_run-curenv : (s : Kernel) (c : ℕ) → (env_run c s).curenv ≡ some c
unfolding env_run
env_run-curenv s c = refl

edit_self : (s : Kernel) (e : ℕ) (f : Env → Env) → (edit e f s).envs e ≡ f (s.envs e)
edit_self s e f = ground arith

IsEnv-env_run : (s : Kernel) (c e envid : ℕ) → IsEnv s envid e → IsEnv (env_run c s) envid e
IsEnv-env_run s c e envid v =
    let at = env_run-fields s c e in
    record {
      ids = λ x bound still.
          let there = env_run-fields s c x in
          ap envx there.0 ∙ v.ids x bound (λ free. still (there.1 ∙ free));
      bound = v.bound;
      nonzero = v.nonzero;
      used = λ free. v.used (sym at.1 ∙ free);
      named = at.0 ∙ v.named;
    }

-- A message reaches the environment that waits for it: `sys_ipc_recv` of the environment `r`, where
-- another is runnable, returns into another environment `c`, whose send without a page then succeeds,
-- stores the value and the id of `c` in `r`, makes it runnable, and a second send is refused.
pub recv-send :
    (s : Kernel) (r e envid dstva value value' perm srcva' perm' : ℕ)
    → IsEnv s envid r
    → s.curenv ≡ some r
    → e < nenv
    → e ≢ r
    → IsRunnable s.envs e
    → (c : ℕ) × (t : Kernel) × (u : Kernel) × (sys_ipc_recv dstva s ≡ some (tt, t))
      × (t.curenv ≡ some c)
      × (c ≢ r)
      × (sys_ipc_can_send envid value 0 perm t ≡ some (ok tt, u))
      × ((u.envs r).env_ipc_value ≡ value)
      × ((u.envs r).env_ipc_from ≡ (s.envs c).env_id)
      × IsRunnable u.envs r
      × (sys_ipc_can_send envid value' srcva' perm' u ≡ some (err e_ipc_not_recv, u))
recv-send s r e envid dstva value value' perm srcva' perm' v cur bound ne ready =
    let (d, next, runs, other) = sys_ipc_recv-blocks s r e dstva cur bound ne ready in
    let c = slot s.sched_i d in
    let b = record (blocked r dstva s) { sched_i = c } in
    let vb = IsEnv-edit s r envid (blocked_env dstva) v refl (λ e. omega arith) in
    let vb' : IsEnv b envid r = record {
      ids = vb.ids;
      bound = vb.bound;
      nonzero = vb.nonzero;
      used = vb.used;
      named = vb.named;
    } in
    let t = env_run c b in
    let vt = IsEnv-env_run b c r envid vb' in
    let at = env_run-fields b c r in
    let sender = env_run-fields b c c in
    let waits : (b.envs r).env_ipc_recving ≡ 1 = ground arith in
    let sender_id : (b.envs c).env_id ≡ (s.envs c).env_id = ground arith in
    let from = (t.envs c).env_id in
    let vu = IsEnv-edit t r envid (delivered_env from value) vt refl (λ e. omega arith) in
    let here = edit_self t r (delivered_env from value) in
    (
      c,
      t,
      deliver r from value t,
      runs,
      env_run-curenv b c,
      other,
      sys_ipc_can_send-deliver t envid r c value perm vt (env_run-curenv b c)
          (λ e. omega (arith, at.2, waits, e)),
      unfold deliver in ap (λ (v : Env). v.env_ipc_value) here,
      unfold deliver in ap (λ (v : Env). v.env_ipc_from) here ∙ sender.0 ∙ sender_id,
      unfold deliver in ap (λ (v : Env). v.env_status) here,
      unfold deliver in
          sys_ipc_can_send-not_recv (edit r (delivered_env from value) t) envid r value' srcva'
            perm' vu (ap (λ (v : Env). v.env_ipc_recving) here),
    )
