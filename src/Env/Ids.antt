-- ===== src/Env/Ids.antt =====
-- Environment ids: an id names its slot, and `envid2env` finds the environment by it.
use raspberry_pi_3_jos.Prelude.{
  ℕ, ◌+◌, ◌-◌, ◌*◌, ◌%◌, ◌^◌, ◌<◌, ◌≡◌, ◌↔◌, refl, ap, ◌≢◌, ◌⊎◌, Bool, true, false, some, arith,
  bit_or,
}
use raspberry_pi_3_jos.Prelude.Bits.{bit_and_low, bit_or_add}
use raspberry_pi_3_jos.Env.{
  Kernel, ok, err, nenv, log2nenv, env_free_status, e_bad_env, envx, mkenvid, check_parent,
  envid2env,
}

pub envx-eq : (envid : ℕ) → envx envid ≡ envid % 1024
unfolding envx
envx-eq envid = bit_and_low 10 envid

-- The id that `mkenvid` gives to slot `e` when the counter stands at `n`.
abbrev pub id_of : ℕ → ℕ → ℕ
id_of n e = bit_or ((n + 1) % 2 ^ 64 * 2 ^ (1 + log2nenv)) e % 2 ^ 32

id_of-eq : (n e : ℕ) → e < nenv → id_of n e ≡ ((n + 1) % 2 ^ 64 * 2048 + e) % 2 ^ 32
id_of-eq n e h = omega (arith, bit_or_add 11 ((n + 1) % 2 ^ 64) e (omega arith))

pub envx-id_of : (n e : ℕ) → e < nenv → envx (id_of n e) ≡ e
envx-id_of n e h = omega (arith, envx-eq (id_of n e), id_of-eq n e h)

-- `mkenvid` gives an id whose slot is that of the environment.
pub envx-mkenvid :
    (s : Kernel) (e : ℕ)
    → e < nenv
    → (id : ℕ) × (t : Kernel) × (mkenvid e s ≡ some (id, t)) × (envx id ≡ e) × (id < 2 ^ 32)
unfolding mkenvid
envx-mkenvid s e h = (
  id_of s.next_env_id e,
  record s { next_env_id = (s.next_env_id + 1) % 2 ^ 64 },
  refl,
  envx-id_of s.next_env_id e h,
  omega arith,
)

id_of-ne :
    (n m d e : ℕ)
    → e < nenv
    → d < nenv
    → n < m
    → m < n + 2 ^ 21
    → m < 2 ^ 64 - 1
    → id_of n e ≢ id_of m d
id_of-ne n m d e he hd lt near small same = omega (arith, id_of-eq n e he, id_of-eq m d hd)

-- Two calls of `mkenvid` that stand fewer than 2 ^ 21 calls apart give different ids, whatever the
-- slots, as long as the 64-bit counter does not wrap around.
pub mkenvid_fresh :
    (s t : Kernel) (d e : ℕ)
    → e < nenv
    → d < nenv
    → s.next_env_id < t.next_env_id
    → t.next_env_id < s.next_env_id + 2 ^ 21
    → t.next_env_id < 2 ^ 64 - 1
    → (i : ℕ) × (j : ℕ) × (s' : Kernel) × (t' : Kernel) × (mkenvid e s ≡ some (i, s'))
      × (mkenvid d t ≡ some (j, t'))
      × (i ≢ j)
unfolding mkenvid
mkenvid_fresh s t d e he hd lt near small = (
  id_of s.next_env_id e,
  id_of t.next_env_id d,
  record s { next_env_id = (s.next_env_id + 1) % 2 ^ 64 },
  record t { next_env_id = (t.next_env_id + 1) % 2 ^ 64 },
  refl,
  refl,
  id_of-ne s.next_env_id t.next_env_id d e he hd lt near small,
)

-- After 2 ^ 21 further calls `mkenvid` gives the id of a slot again.
pub mkenvid_wraps :
    (s t : Kernel) (e : ℕ)
    → e < nenv
    → t.next_env_id ≡ s.next_env_id + 2 ^ 21
    → t.next_env_id < 2 ^ 64 - 1
    → (i : ℕ) × (s' : Kernel) × (t' : Kernel) × (mkenvid e s ≡ some (i, s'))
      × (mkenvid e t ≡ some (i, t'))
unfolding mkenvid
mkenvid_wraps s t e h later small = (
  id_of s.next_env_id e,
  record s { next_env_id = (s.next_env_id + 1) % 2 ^ 64 },
  record t { next_env_id = (t.next_env_id + 1) % 2 ^ 64 },
  refl,
  ap (λ (i : ℕ). some (i, record t { next_env_id = (t.next_env_id + 1) % 2 ^ 64 }))
      (omega (arith, id_of-eq s.next_env_id e h, id_of-eq t.next_env_id e h)),
)

-- Every environment in use has an id that names its slot.
abbrev pub HasIds : Kernel → Type 0
HasIds s = (e : ℕ) → e < nenv → (s.envs e).env_status ≢ env_free_status → envx (s.envs e).env_id ≡ e

-- Without a permission check `envid2env` finds by an id other than 0 exactly the environment in use
-- that has it, where each environment in use has an id that names its slot.
pub envid2env-ok_iff :
    (s : Kernel) (envid e : ℕ)
    → HasIds s
    → e < nenv
    → envid ≢ 0
    → (envid2env envid false s ≡ some (ok e, s))
      ↔ (((s.envs e).env_status ≢ env_free_status) × ((s.envs e).env_id ≡ envid))
unfolding envid2env
envid2env-ok_iff s envid e ids h ne =
    (λ found. ground arith, λ (used, same). ground (arith, ids e h used))

-- With the check `envid2env` answers without changing the state: an environment that has the id
-- and is the caller or a child of the caller, or -E_BAD_ENV where the one in that slot is not.
pub envid2env_checked :
    (s : Kernel) (envid c : ℕ)
    → s.curenv ≡ some c
    → envid ≢ 0
    → (envid2env envid true s ≡ some (ok (envx envid), s))
        × ((s.envs (envx envid)).env_status ≢ env_free_status)
        × ((s.envs (envx envid)).env_id ≡ envid)
        × ((envx envid ≡ c) ⊎ ((s.envs (envx envid)).env_parent_id ≡ (s.envs c).env_id))
      ⊎ (envid2env envid true s ≡ some (err e_bad_env, s))
        × (((s.envs (envx envid)).env_status ≡ env_free_status)
            ⊎ ((s.envs (envx envid)).env_id ≢ envid)
            ⊎ (envx envid ≢ c) × ((s.envs (envx envid)).env_parent_id ≢ (s.envs c).env_id))
unfolding envid2env check_parent
envid2env_checked s envid c cur ne = ground arith

-- What `envid2env` finds by an id other than 0 is in use.
pub envid2env-used :
    (s : Kernel) (id e : ℕ) (check : Bool) (u : Kernel)
    → id ≢ 0
    → envid2env id check s ≡ some (ok e, u)
    → (s.envs e).env_status ≢ env_free_status
unfolding envid2env check_parent
envid2env-used s id e check u ne runs = ground arith

pub envid2env_self :
    (s : Kernel) (e : ℕ) (check : Bool) (u : Kernel)
    → envid2env 0 check s ≡ some (ok e, u)
    → s.curenv ≡ some e
unfolding envid2env
envid2env_self s e check u runs = ground arith
