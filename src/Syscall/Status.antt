-- ===== src/Syscall/Status.antt =====
-- `sys_set_env_status` and `sys_set_return`.
use raspberry_pi_3_jos.Prelude.{
  ℕ, ◌<◌, ◌≡◌, ◌≢◌, sym, ap, ◌∙◌, inl, inr, Bool, Bool-cases, ◌==◌, false, some, arith, List,
}
use raspberry_pi_3_jos.Queue.Chain.{elem}
use raspberry_pi_3_jos.Env.{
  Kernel, ok, err, env_free_status, env_not_runnable, e_bad_env, edit, envid2env,
}
use raspberry_pi_3_jos.Env.Ids.{envid2env-used, envid2env_self}
use raspberry_pi_3_jos.Env.Free.{IsEnvs}
use raspberry_pi_3_jos.Syscall.Ipc.{IsEnv, found}
use raspberry_pi_3_jos.Syscall.{e_inval, sys_set_env_status}

-- Only the three known statuses are accepted.
pub sys_set_env_status-inval :
    (s : Kernel) (envid status : ℕ)
    → env_not_runnable < status
    → sys_set_env_status envid status s ≡ some (err e_inval, s)
unfolding sys_set_env_status
sys_set_env_status-inval s envid status h = ground arith

lost :
    (s : Kernel) (envid e : ℕ)
    → IsEnv s envid e
    → let t = edit e (λ r. record r { env_status = env_free_status }) s in
      envid2env envid false t ≡ some (err e_bad_env, t)
unfolding envid2env
lost s envid e v = ground (arith, v.ids e v.bound v.used)

unfound :
    (s : Kernel) (e id : ℕ) (check : Bool) (u : Kernel)
    → (id ≡ 0 → s.curenv ≢ some e)
    → envid2env id check (edit e (λ r. record r { env_status = env_free_status }) s)
      ≢ some (ok e, u)
unfound s e id check u other runs =
    let t = edit e (λ r. record r { env_status = env_free_status }) s in
    elim (Bool-cases (id == 0)) [
      | inl self ↦
          let zero_id : id ≡ 0 = ground arith in
          other zero_id
            (envid2env_self t e check u (ap (λ (k : ℕ). envid2env k check t) (sym zero_id) ∙ runs))
      | inr id_given ↦ envid2env-used t id e check u (ground arith) runs (ground arith)
    ]

-- An environment in use that is set to ENV_FREE by `sys_set_env_status` is lost: its own id gives
-- -E_BAD_ENV, no call of `envid2env` finds it, but for the id 0 where it is the one that runs, and
-- its slot does not come back to the free list.
pub sys_set_env_status_leaks :
    (s : Kernel) (envid e : ℕ) (xs : List ℕ)
    → IsEnv s envid e
    → IsEnvs s xs
    → (t : Kernel) × (sys_set_env_status envid env_free_status s ≡ some (ok tt, t))
      × (envid2env envid false t ≡ some (err e_bad_env, t))
      × ((id : ℕ) (check : Bool) (u : Kernel)
          → (id ≡ 0 → s.curenv ≢ some e)
          → envid2env id check t ≢ some (ok e, u))
      × IsEnvs t xs
      × (elem e xs ≡ false)
unfolding sys_set_env_status
sys_set_env_status_leaks s envid e xs v w = (
  edit e (λ r. record r { env_status = env_free_status }) s,
  rw (found s envid e v),
  lost s envid e v,
  unfound s e,
  record { queue = w.queue; listed = λ x m. ground (arith, w.listed x) },
  ground (arith, w.listed e),
)
