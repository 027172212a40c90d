-- ===== src/Env/Free.antt =====
-- The list of free environments: `env_init`, `env_alloc` and `env_free`.
use raspberry_pi_3_jos.Prelude.{
  ℕ, zero, suc, ◌≤◌, ◌<◌, ◌≡◌, refl, ◌∙◌, inl, inr, true, false, none, List, [], ◌∷◌, arith, ◌==◌,
  Bool-cases, All,
}
use mathlib.Core.Path.{subst}
use raspberry_pi_3_jos.Queue.{update, list_init, list_remove, list_insert_head}
use raspberry_pi_3_jos.Queue.Chain.{elem, IsQueue}
use raspberry_pi_3_jos.Queue.Refine.{
  list_init-IsQueue, list_insert_head-IsQueue, list_remove-IsQueue,
}
use raspberry_pi_3_jos.Env.{Kernel, nenv, env_free_status, init_envs, env_init, fill_env, env_free}

-- The slots `0`, ..., `n - 1` in front of `xs`, in order.
unfoldable pub slots_upto : ℕ → List ℕ → List ℕ
slots_upto zero xs = xs
slots_upto (suc i) xs = slots_upto i (i ∷ xs)

elem-above : (i : ℕ) (xs : List ℕ) → All (λ x. suc i ≤ x) xs → elem i xs ≡ false
elem-above i [] h = refl
elem-above i (x ∷ xs) h = ground (arith, elem-above i xs)

All-le : (i : ℕ) (xs : List ℕ) → All (λ x. suc i ≤ x) xs → All (λ x. i ≤ x) xs
All-le i [] h = tt
All-le i (x ∷ xs) h = (omega (arith, h.0), All-le i xs h.1)

-- The free list holds free slots only, each once.
pub record IsEnvs (s : Kernel) (xs : List ℕ) : Type 0 where
  pub queue : IsQueue s.env_free_list xs
  pub listed : (e : ℕ) → elem e xs ≡ true → (e < nenv) × ((s.envs e).env_status ≡ env_free_status)

init_envs-IsQueue :
    (n : ℕ) (s : Kernel) (xs : List ℕ)
    → IsQueue s.env_free_list xs
    → All (λ x. n ≤ x) xs
    → IsQueue (init_envs n s).env_free_list (slots_upto n xs)
unfolding init_envs slots_upto
init_envs-IsQueue zero s xs v h = v
init_envs-IsQueue (suc i) s xs v h =
    let added = list_insert_head-IsQueue s.env_free_list i xs v (elem-above i xs h) in
    init_envs-IsQueue i
      (record s {
        envs = update s.envs i (record (s.envs i) { env_id = i; env_status = env_free_status });
        env_free_list = list_insert_head i s.env_free_list;
      })
      (i ∷ xs) added (omega arith, All-le i xs h)

-- A slot that the remaining rounds do not reach keeps its environment.
init_envs-above : (n : ℕ) (s : Kernel) (e : ℕ) → n ≤ e → (init_envs n s).envs e ≡ s.envs e
unfolding init_envs
init_envs-above zero s e h = refl
init_envs-above (suc i) s e h =
    init_envs-above i
      (record s {
        envs = update s.envs i (record (s.envs i) { env_id = i; env_status = env_free_status });
        env_free_list = list_insert_head i s.env_free_list;
      })
      e (omega arith)
    ∙ ground arith

init_envs-free :
    (n : ℕ) (s : Kernel) (e : ℕ)
    → e < n
    → (((init_envs n s).envs e).env_status ≡ env_free_status)
      × (((init_envs n s).envs e).env_id ≡ e)
unfolding init_envs
init_envs-free zero s e h = absurd (omega arith)
init_envs-free (suc i) s e h =
    let t = record s {
      envs = update s.envs i (record (s.envs i) { env_id = i; env_status = env_free_status });
      env_free_list = list_insert_head i s.env_free_list;
    } in
    elim (Bool-cases (e == i)) [
      | inl same ↦ ground (arith, init_envs-above i t e)
      | inr other ↦ init_envs-free i t e (ground arith)
    ]

-- After `env_init` the free list holds all NENV slots in order, every slot is free and numbered,
-- and there is no current environment.
pub env_init_lem :
    (s : Kernel)
    → IsQueue (env_init s).env_free_list (slots_upto nenv [])
      × ((e : ℕ)
          → e < nenv
          → (((env_init s).envs e).env_status ≡ env_free_status)
            × (((env_init s).envs e).env_id ≡ e))
      × ((env_init s).curenv ≡ none)
unfolding env_init
env_init_lem s =
    let t = record s { env_free_list = list_init s.env_free_list } in
    (
      init_envs-IsQueue nenv t [] (list_init-IsQueue s.env_free_list) tt,
      λ e h. init_envs-free nenv t e h,
      refl,
    )

init_envs-pmap : (n : ℕ) (s : Kernel) → (init_envs n s).pmap ≡ s.pmap
unfolding init_envs
init_envs-pmap zero s = refl
init_envs-pmap (suc i) s = init_envs-pmap i (record s {
  envs = update s.envs i (record (s.envs i) { env_id = i; env_status = env_free_status });
  env_free_list = list_insert_head i s.env_free_list;
})

pub env_init-pmap : (s : Kernel) → (env_init s).pmap ≡ s.pmap
unfolding env_init
env_init-pmap s = init_envs-pmap nenv (record s { env_free_list = list_init s.env_free_list })

-- `env_free` puts a slot that is not listed in front of the free list and marks it free.
pub env_free-IsEnvs :
    (s : Kernel) (e : ℕ) (xs : List ℕ)
    → IsEnvs s xs
    → e < nenv
    → elem e xs ≡ false
    → IsEnvs (env_free e s) (e ∷ xs)
unfolding env_free
env_free-IsEnvs s e xs v h out = record {
  queue = list_insert_head-IsQueue s.env_free_list e xs v.queue out;
  listed = λ x m. ground (arith, v.listed x);
}

-- `fill_env` takes the first free slot off the list and makes it runnable under its new id.
pub fill_env-IsEnvs :
    (s : Kernel) (e id parent : ℕ) (xs : List ℕ)
    → IsEnvs s (e ∷ xs)
    → IsEnvs (fill_env e id parent s) xs
unfolding fill_env
fill_env-IsEnvs s e id parent xs v = record {
  queue =
      subst (IsQueue (list_remove e s.env_free_list)) (ground arith)
        (list_remove-IsQueue s.env_free_list e (e ∷ xs) v.queue (ground arith));
  listed = λ x m. ground (arith, v.listed x, v.queue.distinct.0);
}
