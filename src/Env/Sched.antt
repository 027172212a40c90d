-- ===== src/Env/Sched.antt =====
-- `sched_yield`: round robin over the slots of `envs`.
use raspberry_pi_3_jos.Prelude.{
  ℕ, zero, suc, ◌+◌, ◌-◌, ◌%◌, ◌≤◌, ◌<◌, ◌≡◌, refl, sym, ap, ◌∙◌, ◌≢◌, ◌⊎◌, inl, inr, Option, none,
  some, arith, ◌==◌, Bool-cases, leb, leb→le,
}
use mathlib.Core.Path.{subst}
use raspberry_pi_3_jos.Env.{Env, Kernel, nenv, env_runnable, env_run, sched_loop, sched_yield}

-- The slot `k` rounds after `i`.
abbrev pub slot : ℕ → ℕ → ℕ
slot i k = (i + k) % nenv

abbrev pub IsRunnable : (ℕ → Env) → ℕ → Type 0
IsRunnable envs e = (envs e).env_status ≡ env_runnable

-- The round `d` is the first, from the one after `i` on, that meets a runnable environment.
pub record IsNext (envs : ℕ → Env) (i d : ℕ) : Type 0 where
  pub later : 1 ≤ d
  pub runnable : IsRunnable envs (slot i d)
  pub first : (k : ℕ) → 1 ≤ k → k < d → ¬ IsRunnable envs (slot i k)

-- The state when the slot `e` was chosen.
abbrev pub chosen : ℕ → Kernel → Kernel
chosen e s = env_run e (record s { sched_i = e })

slot-slot : (i k : ℕ) → slot (slot i 1) k ≡ slot i (suc k)
slot-slot i k = omega arith

abbrev Outcome : ℕ → Kernel → Option (Unit {0} × Kernel) → Type 0
Outcome fuel s r =
    ((d : ℕ) × IsNext s.envs s.sched_i d
      × (d ≤ fuel)
      × (r ≡ some (tt, chosen (slot s.sched_i d) s)))
    ⊎ ((r ≡ none) × ((k : ℕ) → 1 ≤ k → k ≤ fuel → ¬ IsRunnable s.envs (slot s.sched_i k)))

module _ (fuel : ℕ) (s : Kernel) (busy : ¬ IsRunnable s.envs (slot s.sched_i 1)) where
  abbrev moved : Kernel
  moved = record s { sched_i = slot s.sched_i 1 }

  skip :
      (k : ℕ)
      → ¬ IsRunnable s.envs (slot moved.sched_i k)
      → ¬ IsRunnable s.envs (slot s.sched_i (suc k))
  skip k none_ready h = none_ready (subst (IsRunnable s.envs) (sym (slot-slot s.sched_i k)) h)

  busy_until :
      (b k : ℕ)
      → ((j : ℕ) → 1 ≤ j → j < b → ¬ IsRunnable s.envs (slot moved.sched_i j))
      → 1 ≤ k
      → k < suc b
      → ¬ IsRunnable s.envs (slot s.sched_i k)
  busy_until b zero none_ready lo hi = absurd (omega arith)
  busy_until b (suc zero) none_ready lo hi = busy
  busy_until b (suc (suc k)) none_ready lo hi =
      skip (suc k) (none_ready (suc k) (omega arith) (omega arith))

  later-Outcome : (r : Option (Unit {0} × Kernel)) → Outcome fuel moved r → Outcome (suc fuel) s r
  later-Outcome r (inl (d, next, le, e)) = inl (
    suc d,
    record {
      later = omega arith;
      runnable = subst (IsRunnable s.envs) (slot-slot s.sched_i d) next.runnable;
      first = λ k lo hi. busy_until d k next.first lo hi;
    },
    omega arith,
    e ∙ ap (λ (t : ℕ). some (tt, chosen t s)) (slot-slot s.sched_i d),
  )
  later-Outcome r (inr (e, none_ready)) = inr (
    e,
    λ k lo hi. busy_until (suc fuel) k (λ j a b. none_ready j a (omega arith)) lo (omega arith),
  )

sched_loop-Outcome : (fuel : ℕ) (s : Kernel) → Outcome fuel s (sched_loop fuel s)
unfolding sched_loop
sched_loop-Outcome zero s = inr (refl, λ k lo hi. absurd (omega arith))
sched_loop-Outcome (suc fuel) s =
    elim (Bool-cases ((s.envs (slot s.sched_i 1)).env_status == env_runnable)) [
      | inl e ↦ rw e (
          inl (
            1,
            record {
              later = omega arith;
              runnable = ground arith;
              first = λ k lo hi. absurd (omega arith);
            },
            omega arith,
            refl,
          ))
      | inr e ↦ rw e (
          later-Outcome fuel s (ground arith)
            (sched_loop fuel (record s { sched_i = slot s.sched_i 1 }))
            (sched_loop-Outcome fuel (record s { sched_i = slot s.sched_i 1 })))
    ]

-- How many rounds after `i` the slot `e` comes: from 1 to NENV.
abbrev pub distance : ℕ → ℕ → ℕ
distance i e = (e + nenv - i % nenv - 1) % nenv + 1

slot-distance : (i e : ℕ) → e < nenv → slot i (distance i e) ≡ e
slot-distance i e h = omega arith

-- The first runnable slot comes no later than a given one.
not_later :
    (s : Kernel) (e : ℕ)
    → e < nenv
    → IsRunnable s.envs e
    → (d : ℕ) → IsNext s.envs s.sched_i d
    → d ≤ distance s.sched_i e
not_later s e h ready d next = elim (Bool-cases (leb d (distance s.sched_i e))) [
  | inl le ↦ leb→le d (distance s.sched_i e) le
  | inr gt ↦ absurd (
      next.first (distance s.sched_i e) (omega arith) (ground arith)
        (subst (IsRunnable s.envs) (sym (slot-distance s.sched_i e h)) ready))
]

-- If some environment is runnable, `sched_yield` returns: it switches to the first runnable one
-- after the slot that it chose before, and that comes no later than any given runnable one.
pub sched_yield-IsNext :
    (s : Kernel) (e : ℕ)
    → e < nenv
    → IsRunnable s.envs e
    → (d : ℕ) × IsNext s.envs s.sched_i d
      × (d ≤ distance s.sched_i e)
      × (sched_yield s ≡ some (tt, chosen (slot s.sched_i d) s))
unfolding sched_yield
sched_yield-IsNext s e h ready = elim (sched_loop-Outcome nenv s) [
  | inl (d, next, le, runs) ↦ (d, next, not_later s e h ready d next, runs)
  | inr (stuck, none_ready) ↦ absurd (
      none_ready (distance s.sched_i e) (omega arith) (omega arith)
        (subst (IsRunnable s.envs) (sym (slot-distance s.sched_i e h)) ready))
]

-- If no environment is runnable, the loop of `sched_yield` never returns, however many rounds it is
-- given.
pub sched_yield_hangs :
    (fuel : ℕ) (s : Kernel)
    → ((e : ℕ) → e < nenv → ¬ IsRunnable s.envs e)
    → sched_loop fuel s ≡ none
sched_yield_hangs fuel s none_ready = elim (sched_loop-Outcome fuel s) [
  | inl (d, next, le, runs) ↦ absurd (none_ready (slot s.sched_i d) (omega arith) next.runnable)
  | inr (stuck, _) ↦ stuck
]

-- No starvation: a runnable environment that was not chosen has come nearer.
pub distance-slot-lt :
    (i d e : ℕ)
    → e < nenv
    → 1 ≤ d
    → d ≤ distance i e
    → slot i d ≢ e
    → distance (slot i d) e < distance i e
distance-slot-lt i d e h lo hi ne = omega arith
