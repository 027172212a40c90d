-- ===== src/Env/Keeps.antt =====
-- The operations of OS/lib/env.c and OS/lib/sched.c keep the invariant of the environments.
use raspberry_pi_3_jos.Prelude.{
  ℕ, zero, suc, ◌+◌, ◌%◌, ◌^◌, ◌<◌, ◌≡◌, refl, sym, ap, ◌∙◌, ◌≢◌, ◌⊎◌, inl, inr, Bool, false,
  Option, none, some, List, [], ◌∷◌, arith, ◌==◌, All, Bool-cases, if◌then◌else◌,
}
use mathlib.Core.Path.{subst}
use raspberry_pi_3_jos.Prelude.State.{Result, ok, err, ◌>>◌, modify}
use raspberry_pi_3_jos.Prelude.Triple.{Triple, returned, Triple-modify, Triple-bind, Triple-then}
use raspberry_pi_3_jos.Queue.{list_first}
use raspberry_pi_3_jos.Queue.Chain.{elem, IsQueue}
use raspberry_pi_3_jos.Env.Free.{IsEnvs, fill_env-IsEnvs, env_free-IsEnvs}
use raspberry_pi_3_jos.Env.Ids.{id_of, envx-id_of, envx-eq}
use raspberry_pi_3_jos.Env.Invariant.{
  IsKernel, Uses, Good, pmap-IsKernel, on_pmap-keeps, edit_plain-IsKernel, Found,
}
use raspberry_pi_3_jos.Env.Alloc.{rest_of, env_alloc-first}
use raspberry_pi_3_jos.Mmu.{kaddr, page2pa}
use raspberry_pi_3_jos.Pmap.{page_alloc, raise_ref}
use raspberry_pi_3_jos.Env.{
  uenvs, upages, envs_pages, pages_pages, pages_window, map_window, Kernel, nenv, env_free_status,
  env_runnable, edit, envx, mkenvid, check_parent, envid2env, env_setup_vm, fill_env, env_alloc,
  env_free, save_tf, env_run, sched_loop, sched_yield, env_destroy,
}

envid2env-cases :
    (envid : ℕ) (b : Bool) (s : Kernel) (r : Result ℕ) (t : Kernel)
    → envid2env envid b s ≡ some (r, t)
    → (t ≡ s)
      × ((e : ℕ)
          → r ≡ ok e
          → (s.curenv ≡ some e) ⊎ ((e ≡ envx envid) × ((s.envs e).env_status ≢ env_free_status)))
unfolding envid2env check_parent
envid2env-cases envid b s r t run = ground arith

unlisted :
    (s : Kernel) (xs : List ℕ) (e : ℕ)
    → IsKernel s xs
    → (s.envs e).env_status ≢ env_free_status
    → elem e xs ≡ false
unlisted s xs e v used = elim (Bool-cases (elem e xs)) [
  | inl h ↦ absurd (used (v.envs.listed e h).1)
  | inr h ↦ h
]

envid2env-Found :
    (es : List ℕ) (envid : ℕ) (b : Bool) (s t : Kernel) (r : Result ℕ)
    → Uses es s
    → envid2env envid b s ≡ some (r, t)
    → Found es r t
envid2env-Found es envid b s t (err code) h run =
    subst (Uses es) (sym (envid2env-cases envid b s (err code) t run).0) h
envid2env-Found es envid b s t (ok e) (xs, v, u) run =
    let (same, found) = envid2env-cases envid b s (ok e) t run in
    let used : (e < nenv) × (elem e xs ≡ false) = elim (found e refl) [
      | inl cur ↦ v.running e cur
      | inr (slot, busy) ↦ (omega (arith, slot, envx-eq envid), unlisted s xs e v busy)
    ] in
    subst (Uses (e ∷ es)) (sym same) (xs, v, (used, u))

pub envid2env-Uses :
    (es : List ℕ) (envid : ℕ) (b : Bool) → Triple (Uses es) (envid2env envid b) (Found es)
envid2env-Uses es envid b s h r t run = envid2env-Found es envid b s t r h run

save_tf-same :
    (s : Kernel)
    → ((save_tf s).env_free_list ≡ s.env_free_list)
      × ((d : ℕ)
          → (((save_tf s).envs d).env_id ≡ (s.envs d).env_id)
            × (((save_tf s).envs d).env_status ≡ (s.envs d).env_status))
unfolding save_tf
save_tf-same s = ground arith

-- The environment that runs next is in use.
env_run-Good :
    (s : Kernel) (e : ℕ) (xs : List ℕ)
    → IsKernel s xs
    → e < nenv
    → (s.envs e).env_status ≢ env_free_status
    → Good (env_run e s)
unfolding env_run
env_run-Good s e xs v bound used =
    let (list, fields) = save_tf-same s in
    (
      xs,
      record {
        envs = record {
          queue = subst (λ q. IsQueue q xs) (sym list) v.envs.queue;
          listed = λ d h. ((v.envs.listed d h).0, (fields d).1 ∙ (v.envs.listed d h).1);
        };
        ids = λ d h. ap envx (fields d).0 ∙ v.ids d h;
        running = λ c cur.
            let same : e ≡ c = ground (arith, cur) in
            subst (λ c. (c < nenv) × (elem c xs ≡ false)) same (bound, unlisted s xs e v used);
      },
      tt,
    )

moved-IsKernel :
    (s : Kernel) (xs : List ℕ) (i : ℕ) → IsKernel s xs → IsKernel (record s { sched_i = i }) xs
moved-IsKernel s xs i v = record {
  envs = record { queue = v.envs.queue; listed = v.envs.listed };
  ids = v.ids;
  running = v.running;
}

sched_loop-Good : (fuel : ℕ) (s t : Kernel) → Good s → sched_loop fuel s ≡ some (tt, t) → Good t
unfolding sched_loop
sched_loop-Good zero s t h run = absurd (cc)
sched_loop-Good (suc fuel) s t (xs, v, u) run =
    let next = (s.sched_i + 1) % nenv in
    let moved : Kernel = record s { sched_i = next } in
    elim (Bool-cases ((s.envs next).env_status == env_runnable)) [
      | inl e ↦
          let hit : env_run next moved ≡ t = ground (arith, e) in
          subst Good hit
            (env_run-Good moved next xs (moved-IsKernel s xs next v) (omega arith) (ground arith))
      | inr e ↦
          sched_loop-Good fuel moved t (xs, moved-IsKernel s xs next v, tt) (ground (arith, e))
    ]

pub sched_yield-Good : Triple Good sched_yield (λ _. Good)
unfolding sched_yield
sched_yield-Good s h a t run = sched_loop-Good nenv s t h run

-- The head of the free list is given to a new environment.
mkenvid-eq :
    (e : ℕ) (s t : Kernel) (id : ℕ)
    → mkenvid e s ≡ some (id, t)
    → (id ≡ id_of s.next_env_id e) × (t ≡ record s { next_env_id = (s.next_env_id + 1) % 2 ^ 64 })
unfolding mkenvid
mkenvid-eq e s t id run = ground (arith, run)

abbrev Head : ℕ → List ℕ → Kernel → Type 0
Head e es s =
    (xs : List ℕ) × IsKernel s (e ∷ xs) × All (λ d. (d < nenv) × (elem d (e ∷ xs) ≡ false)) es

env_setup_vm-Head : (e : ℕ) (es : List ℕ) → Triple (Head e es) (env_setup_vm e) (λ _. Head e es)
unfolding env_setup_vm
env_setup_vm-Head e es =
    let keep : (s : Kernel) (p : _) → Head e es s → Head e es (record s { pmap = p }) =
      λ s p (xs, v, u). (xs, pmap-IsKernel s (e ∷ xs) p v, u) in
    Triple-bind (on_pmap-keeps (Head e es) page_alloc keep) (λ p.
      Triple-then (on_pmap-keeps (Head e es) (modify (raise_ref p)) keep) (
        Triple-then
          (Triple-modify (Head e es) (edit e (λ v. record v { env_pgdir = page2pa p }))
            (λ s (xs, v, u). (
              xs,
              edit_plain-IsKernel e (λ v. record v { env_pgdir = page2pa p }) s (e ∷ xs) (λ v. refl)
                  (λ v. refl) v,
              u,
            )))
          (Triple-then
            (on_pmap-keeps (Head e es) (map_window envs_pages (kaddr (page2pa p)) 0x0170_0000 uenvs)
              keep)
            (on_pmap-keeps (Head e es)
              (map_window pages_pages (kaddr (page2pa p)) pages_window upages) keep))))

off_head :
    (e : ℕ) (xs es : List ℕ)
    → All (λ d. (d < nenv) × (elem d (e ∷ xs) ≡ false)) es
    → All (λ d. (d < nenv) × (elem d xs ≡ false)) es
off_head e xs [] h = tt
off_head e xs (d ∷ es) h = ((h.0.0, ground arith), off_head e xs es h.1)

rest_of-Uses :
    (e parent : ℕ) (es : List ℕ) → Triple (Head e es) (rest_of e parent) (λ d. Uses (d ∷ es))
unfolding mkenvid fill_env
rest_of-Uses e parent es s (xs, v, u) d t run =
    let n = s.next_env_id in
    let s' : Kernel = record s { next_env_id = (n + 1) % 2 ^ 64 } in
    let bound : e < nenv = (v.envs.listed e (ground arith)).0 in
    let out : elem e xs ≡ false = v.envs.queue.distinct.0 in
    let named : envx (id_of n e) ≡ e = envx-id_of n e bound in
    let before : IsEnvs s' (e ∷ xs) = record { queue = v.envs.queue; listed = v.envs.listed } in
    returned (λ d. Uses (d ∷ es)) run
      (
        xs,
        record {
          envs = fill_env-IsEnvs s' e (id_of n e) parent xs before;
          ids = λ d h. ground (arith, v.ids d h, named);
          running = λ c cur. ((v.running c cur).0, ground (arith, (v.running c cur).1));
        },
        ((bound, out), off_head e xs es u),
      )

empty_list :
    (s : Kernel) (parent : ℕ) → list_first s.env_free_list ≡ none → env_alloc parent s ≡ none
unfolding env_alloc
empty_list s parent first =
    ap
      (λ (o : Option ℕ). elim o as (λ _. Option (ℕ × Kernel)) [
        | none ↦ none
        | some e ↦ (env_setup_vm e >> rest_of e parent) s
      ])
      first

env_alloc-from :
    (parent : ℕ) (es xs : List ℕ) (s : Kernel) (d : ℕ) (t : Kernel)
    → IsKernel s xs
    → All (λ d. (d < nenv) × (elem d xs ≡ false)) es
    → env_alloc parent s ≡ some (d, t)
    → Uses (d ∷ es) t
env_alloc-from parent es [] s d t v u run =
    let stops = empty_list s parent v.envs.queue.chain in absurd (cc)
env_alloc-from parent es (e ∷ xs) s d t v u run =
    let both : Triple (Head e es) (env_setup_vm e >> rest_of e parent) (λ d. Uses (d ∷ es)) =
      Triple-then (env_setup_vm-Head e es) (rest_of-Uses e parent es) in
    both s (xs, v, u) d t (sym (env_alloc-first parent e s v.envs.queue.chain.0) ∙ run)

pub env_alloc-Uses :
    (parent : ℕ) (es : List ℕ) → Triple (Uses es) (env_alloc parent) (λ d. Uses (d ∷ es))
env_alloc-Uses parent es s (xs, v, u) d t run = env_alloc-from parent es xs s d t v u run

-- A slot that is given back is free, and does not run.
freed-Good :
    (s : Kernel) (e : ℕ) (xs : List ℕ)
    → IsKernel s xs
    → e < nenv
    → elem e xs ≡ false
    → (c' : Option ℕ) → ((c : ℕ) → c' ≡ some c → (s.curenv ≡ some c) × (c ≢ e))
    → Good (record (env_free e s) { curenv = c' })
unfolding env_free
freed-Good s e xs v bound out c' still =
    let w = env_free-IsEnvs s e xs v.envs bound out in
    (
      e ∷ xs,
      record {
        envs = record { queue = w.queue; listed = w.listed };
        ids = λ d h. ground (arith, v.ids d h);
        running = λ c cur.
            let (was, ne) = still c cur in
            ((v.running c was).0, ground (arith, (v.running c was).1));
      },
      tt,
    )

-- The last step of `env_destroy`, for the environment that ran.
destroy-from :
    (s : Kernel) (e : ℕ) (xs : List ℕ)
    → IsKernel s xs
    → e < nenv
    → elem e xs ≡ false
    → (o : Option ℕ) → s.curenv ≡ o
    → (a : Unit {0}) (t : Kernel)
    → (elim o as (λ _. Option (Unit {0} × Kernel)) [
      | none ↦ some (tt, env_free e s)
      | some c ↦
          if c == e
          then sched_yield (record (env_free e s) { curenv = none })
          else some (tt, env_free e s)
    ])
      ≡ some (a, t)
    → Good t
unfolding env_free
destroy-from s e xs v bound out none idle a t run =
    returned (λ _. Good) run (freed-Good s e xs v bound out s.curenv (λ c cur. absurd (cc)))
destroy-from s e xs v bound out (some c) cur a t run = elim (Bool-cases (c == e)) [
  | inl same ↦
      sched_yield-Good (record (env_free e s) { curenv = none })
        (freed-Good s e xs v bound out none (λ d none_cur. absurd (cc))) tt t
        (ground (arith, same, run))
  | inr other ↦
      let kept = freed-Good s e xs v bound out s.curenv (λ d cur'. (cur', ground (arith, other))) in
      let end : env_free e s ≡ t = ground (arith, other, run) in subst Good end kept
]

pub env_destroy-Good : (e : ℕ) → Triple (Uses (e ∷ [])) (env_destroy e) (λ _. Good)
unfolding env_destroy env_free
env_destroy-Good e s (xs, v, (out, u)) a t run =
    destroy-from s e xs v out.0 out.1 s.curenv refl a t run
