-- ===== src/Env/Invariant.antt =====
-- The invariant of the environments, and what the operations of OS/lib/env.c do to it when they
-- return.
use raspberry_pi_3_jos.Prelude.{
  ℕ, ◌<◌, ◌≡◌, refl, sym, false, Option, none, some, List, [], ◌∷◌, arith, All,
}
use mathlib.Core.Path.{subst}
use raspberry_pi_3_jos.Prelude.State.{Cmd, Result, ok, err}
use raspberry_pi_3_jos.Prelude.Triple.{Triple, returned}
use raspberry_pi_3_jos.Queue.Chain.{elem}
use raspberry_pi_3_jos.Pmap.{Pmap}
use raspberry_pi_3_jos.Env.Free.{IsEnvs}
use raspberry_pi_3_jos.Env.{Env, Kernel, nenv, edit, on_pmap, current, envx}

-- The free list holds free slots, each once; every id names its slot; the environment that runs is
-- not on the list.
pub record IsKernel (s : Kernel) (xs : List ℕ) : Type 0 where
  pub envs : IsEnvs s xs
  pub ids : (e : ℕ) → e < nenv → envx (s.envs e).env_id ≡ e
  pub running : (c : ℕ) → s.curenv ≡ some c → (c < nenv) × (elem c xs ≡ false)

-- The invariant, and environments that are not on the list.
abbrev pub Uses : List ℕ → Kernel → Type 0
Uses es s = (xs : List ℕ) × IsKernel s xs × All (λ e. (e < nenv) × (elem e xs ≡ false)) es

abbrev pub Good : Kernel → Type 0
Good = Uses []

pub Uses-Good : (es : List ℕ) (s : Kernel) → Uses es s → Good s
Uses-Good es s (xs, v, u) = (xs, v, tt)

-- Nothing of it depends on the pages.
pub pmap-IsKernel :
    (s : Kernel) (xs : List ℕ) (p : Pmap) → IsKernel s xs → IsKernel (record s { pmap = p }) xs
pmap-IsKernel s xs p v = record {
  envs = record { queue = v.envs.queue; listed = v.envs.listed };
  ids = v.ids;
  running = v.running;
}

on_pmap-inv :
    {A : Type 0} (o : Option (A × Pmap)) (s : Kernel) {a : A} {t : Kernel}
    → (elim o as (λ _. Option (A × Kernel)) [
      | none ↦ none
      | some (b, p) ↦ some (b, record s { pmap = p })
    ])
      ≡ some (a, t)
    → (p : Pmap) × (t ≡ record s { pmap = p })
on_pmap-inv none s e = absurd (cc)
on_pmap-inv (some (b, p)) s e = (p, returned (λ _ u. u ≡ record s { pmap = p }) e refl)

pub on_pmap-keeps :
    {A : Type 0} (P : Kernel → Type 0) (m : Cmd Pmap A)
    → ((s : Kernel) (p : Pmap) → P s → P (record s { pmap = p }))
    → Triple P (on_pmap m) (λ _. P)
on_pmap-keeps P m keep s h a t e =
    let (p, same) = on_pmap-inv (m s.pmap) s e in subst P (sym same) (keep s p h)

pub on_pmap-Uses :
    {A : Type 0} (es : List ℕ) (m : Cmd Pmap A) → Triple (Uses es) (on_pmap m) (λ _. Uses es)
on_pmap-Uses es m = on_pmap-keeps (Uses es) m (λ s p (xs, v, u). (xs, pmap-IsKernel s xs p v, u))

-- Another field of an environment in use, or of any one but for its status.
pub edit-Uses :
    (e : ℕ) (es : List ℕ) (f : Env → Env)
    → ((v : Env) → (f v).env_id ≡ v.env_id)
    → (s : Kernel) → Uses (e ∷ es) s
    → Uses (e ∷ es) (edit e f s)
edit-Uses e es f same s (xs, v, (out, u)) = (
  xs,
  record {
    envs = record { queue = v.envs.queue; listed = λ d h. ground (arith, v.envs.listed d h) };
    ids = λ d h. ground (arith, v.ids d h, same (s.envs d));
    running = v.running;
  },
  (out, u),
)

pub edit_plain-IsKernel :
    (e : ℕ) (f : Env → Env) (s : Kernel) (xs : List ℕ)
    → ((v : Env) → (f v).env_id ≡ v.env_id)
    → ((v : Env) → (f v).env_status ≡ v.env_status)
    → IsKernel s xs
    → IsKernel (edit e f s) xs
edit_plain-IsKernel e f s xs same free v = record {
  envs = record {
    queue = v.envs.queue;
    listed = λ d h. ground (arith, v.envs.listed d h, free (s.envs d));
  };
  ids = λ d h. ground (arith, v.ids d h, same (s.envs d));
  running = v.running;
}

pub current-Uses : (es : List ℕ) → Triple (Uses es) current (λ c. Uses (c ∷ es))
current-Uses es s (xs, v, u) c t e =
    let cur : s.curenv ≡ some c = ground (arith, e) in
    let same : t ≡ s = ground (arith, e) in
    subst (Uses (c ∷ es)) (sym same) (xs, v, (v.running c cur, u))

-- What `envid2env` found.
abbrev pub Found : List ℕ → Result ℕ → Kernel → Type 0
Found es (ok e) = Uses (e ∷ es)
Found es (err code) = Uses es
