-- ===== src/Env/Alloc.antt =====
-- A new environment: `env_alloc`.
use raspberry_pi_3_jos.Prelude.{
  ℕ, ◌+◌, ◌%◌, ◌^◌, ◌≤◌, ◌≡◌, refl, ap, ◌∙◌, ◌≢◌, inl, inr, Option, none, some, List, ◌∷◌, arith,
  length, ◌==◌, Bool-cases,
}
use raspberry_pi_3_jos.Prelude.State.{Cmd, and_then, ◌>>=◌, ◌>>◌, pure, modify}
use raspberry_pi_3_jos.Queue.{list_first}
use raspberry_pi_3_jos.Mmu.{ustacktop, page2pa}
use raspberry_pi_3_jos.Pmap.{Pmap}
use raspberry_pi_3_jos.Pmap.Tables.{IsPaged, IsTree}
use raspberry_pi_3_jos.Env.Free.{IsEnvs, fill_env-IsEnvs}
use raspberry_pi_3_jos.Env.Ids.{HasIds, id_of, envx-id_of}
use raspberry_pi_3_jos.Env.Setup.{Setup, env_setup_vm-Setup}
use raspberry_pi_3_jos.Env.{
  Kernel, env_runnable, edit, envx, mkenvid, env_setup_vm, fill_env, env_alloc,
}

-- What `env_alloc` leaves behind that gave the slot `e` and made the page `x` its directory.
pub record Allocated (s : Kernel) (level : ℕ → ℕ) (x : ℕ) (xs : List ℕ) (e : ℕ) (es : List ℕ)
    (parent : ℕ) (t : Kernel) : Type 0 where
  pub tables : Setup s.pmap level x xs t.pmap
  pub listed : IsEnvs t es
  pub runnable : (t.envs e).env_status ≡ env_runnable
  pub directory : (t.envs e).env_pgdir ≡ page2pa x
  pub child : (t.envs e).env_parent_id ≡ parent
  pub stack : (t.envs e).env_tf.sp ≡ ustacktop
  pub named : envx (t.envs e).env_id ≡ e
  pub others : (d : ℕ) → d ≢ e → t.envs d ≡ s.envs d
  pub running : t.curenv ≡ s.curenv
  pub keeps_ids : HasIds s → HasIds t

abbrev pub rest_of : ℕ → ℕ → Cmd Kernel ℕ
rest_of e parent = do id ← mkenvid e; modify (fill_env e id parent); pure e

pub env_alloc-first :
    (parent e : ℕ) (s : Kernel)
    → list_first s.env_free_list ≡ some e
    → env_alloc parent s ≡ (env_setup_vm e >> rest_of e parent) s
unfolding env_alloc
env_alloc-first parent e s first =
    ap
      (λ (o : Option ℕ). elim o as (λ _. Option (ℕ × Kernel)) [
        | none ↦ none
        | some e ↦ (env_setup_vm e >> rest_of e parent) s
      ])
      first

module _ (s : Kernel) (e parent : ℕ) (es : List ℕ) (v : IsEnvs s (e ∷ es)) (x : ℕ) (p : Pmap)
    (id : ℕ) (next : ℕ) (named : envx id ≡ e) where
  abbrev before : Kernel
  before = record (edit e (λ v. record v { env_pgdir = page2pa x }) s) {
    pmap = p;
    next_env_id = next;
  }

  before-IsEnvs : IsEnvs before (e ∷ es)
  before-IsEnvs = record { queue = v.queue; listed = λ d h. ground (arith, v.listed d h) }

  filled : Kernel
  filled = fill_env e id parent before

  filled-Allocated :
      (level : ℕ → ℕ) (xs : List ℕ)
      → Setup s.pmap level x xs p
      → Allocated s level x xs e es parent filled
  unfolding filled fill_env
  filled-Allocated level xs w = record {
    tables = w;
    listed = fill_env-IsEnvs before e id parent es before-IsEnvs;
    runnable = ground arith;
    directory = ground arith;
    child = ground arith;
    stack = ground arith;
    named = ground (arith, named);
    others = λ d ne. ground arith;
    running = refl;
    keeps_ids = λ ids d bound used. elim (Bool-cases (d == e)) [
      | inl same ↦ ground (arith, named)
      | inr other ↦ ground (arith, ids d bound)
    ];
  }

-- With a free slot and 2593 free pages `env_alloc` returns the first free slot: it is off the list,
-- runnable, a child of `parent`, has an id that names it and a directory of its own, which shows
-- the two windows of `env_setup_vm`; the other environments and their mappings are what they were.
pub env_alloc-Allocated :
    (s : Kernel) (parent e : ℕ) (es : List ℕ) (level : ℕ → ℕ) (x : ℕ) (xs : List ℕ)
    → IsEnvs s (e ∷ es)
    → IsPaged s.pmap level (x ∷ xs)
    → IsTree s.pmap.mem level
    → 2592 ≤ length xs
    → (t : Kernel) × (env_alloc parent s ≡ some (e, t)) × Allocated s level x xs e es parent t
unfolding filled mkenvid
env_alloc-Allocated s parent e es level x xs v paged tree room =
    let (p, runs, w) = env_setup_vm-Setup s e level x xs paged tree room in
    let bound = (v.listed e (ground arith)).0 in
    let id = id_of s.next_env_id e in
    let next = (s.next_env_id + 1) % 2 ^ 64 in
    let named = envx-id_of s.next_env_id e bound in
    (
      filled s e parent es v x p id next named,
      env_alloc-first parent e s v.queue.chain.0
          ∙ ap (λ r. and_then r (λ _. rest_of e parent)) runs,
      filled-Allocated s e parent es v x p id next named level xs w,
    )
