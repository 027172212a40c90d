-- ===== src/Boot/Keeps.antt =====
-- `main` sets the invariant of the environments up.
use raspberry_pi_3_jos.Prelude.{
  ℕ, zero, suc, ◌<◌, ◌≡◌, ap, ◌⊎◌, inl, inr, true, some, List, [], ◌∷◌, arith, ◌==◌, Bool-cases,
}
use raspberry_pi_3_jos.Prelude.State.{◌>>◌}
use raspberry_pi_3_jos.Prelude.Triple.{Triple, Triple-then}
use raspberry_pi_3_jos.Queue.Chain.{elem}
use raspberry_pi_3_jos.Pmap.{page_init}
use raspberry_pi_3_jos.Env.{Kernel, nenv, envx, env_init}
use raspberry_pi_3_jos.Env.Free.{slots_upto, env_init_lem}
use raspberry_pi_3_jos.Env.Ids.{envx-eq}
use raspberry_pi_3_jos.Env.Invariant.{IsKernel, Good}
use raspberry_pi_3_jos.Env.Keeps.{sched_yield-Good}
use raspberry_pi_3_jos.Env.Load.{env_create}
use raspberry_pi_3_jos.Env.Load.Keeps.{env_create-Good}
use raspberry_pi_3_jos.Boot.{load_program, main, handle_int}

elem-slots_upto :
    (n e : ℕ) (xs : List ℕ) → elem e (slots_upto n xs) ≡ true → (e < n) ⊎ (elem e xs ≡ true)
unfolding slots_upto
elem-slots_upto zero e xs h = inr h
elem-slots_upto (suc n) e xs h = elim (elem-slots_upto n e (n ∷ xs) h) [
  | inl lt ↦ inl (omega arith)
  | inr m ↦ elim (Bool-cases (e == n)) [
    | inl same ↦ inl (ground arith)
    | inr other ↦ inr (ground arith)
  ]
]

pub env_init-IsKernel : (s : Kernel) → IsKernel (env_init s) (slots_upto nenv [])
env_init-IsKernel s =
    let (queue, slots, idle) = env_init_lem s in
    record {
      envs = record {
        queue = queue;
        listed = λ e m. elim (elem-slots_upto nenv e [] m) [
          | inl lt ↦ (lt, (slots e lt).0)
          | inr f ↦ absurd (cc)
        ];
      };
      ids = λ e h. omega (arith, ap envx (slots e h).1, envx-eq e);
      running = λ c cur. absurd (cc (idle, cur));
    }

pub main-Good :
    (card : ℕ → ℕ → ℕ) (program : ℕ → ℕ) (first second : ℕ) (s : Kernel) (t : Kernel)
    → main card program first second s ≡ some (tt, t)
    → Good t
unfolding main
main-Good card program first second s t run =
    let loaded = load_program card 51000 program in
    let creates : Triple Good
        (env_create first loaded 101388
          >> env_create second (load_program card 52000 loaded) 130542)
        (λ _. Good) =
      Triple-then (env_create-Good first loaded 101388)
        (env_create-Good second (load_program card 52000 loaded) 130542) in
    creates (env_init (record s { pmap = page_init s.pmap }))
      (slots_upto nenv [], env_init-IsKernel (record s { pmap = page_init s.pmap }), tt) tt t run

pub handle_int-Good : Triple Good handle_int (λ _. Good)
unfolding handle_int
handle_int-Good = sched_yield-Good
