-- ===== src/Syscall/Keeps.antt =====
-- Every handler that returns keeps the invariant of the environments.
pub mod Copies
use raspberry_pi_3_jos.Prelude.{
  ℕ, zero, suc, ◌+◌, ◌*◌, ◌/◌, ◌%◌, ◌^◌, ◌≡◌, refl, sym, Bool, true, false, Option, none, some,
  List, [], ◌∷◌, not, ◌&&◌, ◌==◌, ltb, if◌then◌else◌, bit_or, Bool-cases, inl, inr,
}
use raspberry_pi_3_jos.Prelude.State.{
  Cmd, Result, ok, err, pure, panic, and_then, ◌>>=◌, ◌>>◌, get, modify,
}
use raspberry_pi_3_jos.Prelude.Triple.{
  Triple, Triple-pure, Triple-modify, Triple-bind, Triple-then, Triple-get,
}
use raspberry_pi_3_jos.Queue.{update}
use raspberry_pi_3_jos.Mmu.{by2pg, pte_v, attrib_ap_rw_all, utop, ustacktop, kaddr, page2kva}
use raspberry_pi_3_jos.Pmap.{Pmap, bzero, page_alloc, page_insert, page_lookup, page_remove}
use raspberry_pi_3_jos.Env.{
  Env, Kernel, env_free_status, env_runnable, env_not_runnable, edit, on_pmap, current, envid2env,
  env_alloc, env_destroy, sched_yield,
}
use raspberry_pi_3_jos.Env.Invariant.{
  Uses, Good, Uses-Good, on_pmap-Uses, edit-Uses, current-Uses, Found,
}
use raspberry_pi_3_jos.Env.Keeps.{
  envid2env-Uses, sched_yield-Good, env_alloc-Uses, env_destroy-Good,
}
use raspberry_pi_3_jos.Syscall.{
  e_inval, e_unspecified, e_ipc_not_recv, with_env, done, page_base, sys_set_return, sys_getenvid,
  sys_yield, sys_env_destroy, sys_set_pgfault_handler, sys_mem_alloc, map_found, sys_mem_map,
  sys_mem_unmap, child_of, sys_env_alloc, sys_set_env_status, sys_ipc_recv, send_page, deliver,
  transfer, sys_ipc_can_send, sys_pgtable_entry, copy_words, copy_page, copy_pages, sys_fork,
  read_sectors, sys_emmc_read,
}

-- A command that ends well from a state with the environments `es` in use.
abbrev pub Ends : {A : Type 0} → List ℕ → Cmd Kernel A → Type 0
Ends es m = Triple (Uses es) m (λ _. Good)

pub pure-Ends : {A : Type 0} (es : List ℕ) (a : A) → Ends es (pure a)
pure-Ends es a = Triple-pure (λ _. Good) a (Uses-Good es)

-- The parameters of the handlers go on to `k` where an environment was found.
pub with_env-Ends :
    {A : Type 0} (es : List ℕ) (envid : ℕ) (b : Bool) (k : ℕ → Cmd Kernel (Result A))
    → ((e : ℕ) → Ends (e ∷ es) (k e))
    → Ends es (with_env envid b k)
with_env-Ends {A} es envid b k h = Triple-bind (envid2env-Uses es envid b) go
  where
    go :
        (r : Result ℕ)
        → Triple
            (Found es r)
            (elim r as (λ _. Cmd Kernel (Result A)) [ ok e ↦ k e | err code ↦ pure (err code) ])
            (λ _. Good)
    go (ok e) = h e
    go (err code) = pure-Ends es (err code)

-- A step on the pages, and a step on an environment in use, keep the environments in use.
pub page_step :
    {A B : Type 0} (es : List ℕ) (m : Cmd Pmap A) (k : A → Cmd Kernel B)
    → ((a : A) → Ends es (k a))
    → Ends es (on_pmap m >>= k)
page_step es m k h = Triple-bind (on_pmap-Uses es m) h

pub edit_step :
    {B : Type 0} (e : ℕ) (es : List ℕ) (f : Env → Env) (k : Cmd Kernel B)
    → ((v : Env) → (f v).env_id ≡ v.env_id)
    → Ends (e ∷ es) k
    → Ends (e ∷ es) (modify (edit e f) >> k)
edit_step e es f k same h =
    Triple-then (Triple-modify (Uses (e ∷ es)) (edit e f) (edit-Uses e es f same)) h

pub sys_getenvid-Ends : Ends [] sys_getenvid
unfolding sys_getenvid
sys_getenvid-Ends =
    Triple-bind (current-Uses []) (λ c. Triple-get (λ s. pure-Ends (c ∷ []) (s.envs c).env_id))

pub sys_yield-Ends : Ends [] sys_yield
unfolding sys_yield
sys_yield-Ends = sched_yield-Good

pub sys_env_destroy-Ends : (envid : ℕ) → Ends [] (sys_env_destroy envid)
unfolding sys_env_destroy
sys_env_destroy-Ends envid =
    with_env-Ends [] envid true (λ e. env_destroy e >> done)
      (λ e. Triple-then (env_destroy-Good e) (pure-Ends [] (ok tt)))

pub sys_set_pgfault_handler-Ends :
    (envid func xstacktop : ℕ) → Ends [] (sys_set_pgfault_handler envid func xstacktop)
unfolding sys_set_pgfault_handler
sys_set_pgfault_handler-Ends envid func xstacktop =
    let f : Env → Env = λ v. record v { env_pgfault_handler = func; env_xstacktop = xstacktop } in
    with_env-Ends [] envid false (λ e. modify (edit e f) >> done)
      (λ e. edit_step e [] f done (λ v. refl) (pure-Ends (e ∷ []) (ok tt)))

pub choose :
    {A : Type 0} (es : List ℕ) (b : Bool) (m k : Cmd Kernel A)
    → Ends es m
    → Ends es k
    → Ends es (if b then m else k)
choose es b m k hm hk = elim (Bool-cases b) [ inl e ↦ rw e hm | inr e ↦ rw e hk ]

pub sys_mem_alloc-Ends : (envid va perm : ℕ) → Ends [] (sys_mem_alloc envid va perm)
unfolding sys_mem_alloc
sys_mem_alloc-Ends envid va perm =
    let insert : ℕ → ℕ → Cmd Kernel (Result (Unit {0})) = λ e ppage. get >>= λ s.
    on_pmap (
      page_insert (kaddr (s.envs e).env_pgdir) ppage va
        (bit_or (bit_or perm pte_v) attrib_ap_rw_all))
    >> done in
    let clear : ℕ → Cmd Pmap (Unit {0}) =
      λ ppage. modify (λ p. record p { mem = bzero (page2kva ppage) by2pg p.mem }) in
    choose [] (ltb utop va) (pure (err e_unspecified))
      (with_env envid false
        (λ e. on_pmap page_alloc >>= λ ppage. on_pmap (clear ppage) >> insert e ppage))
      (pure-Ends [] (err e_unspecified))
      (with_env-Ends [] envid false
        (λ e. on_pmap page_alloc >>= λ ppage. on_pmap (clear ppage) >> insert e ppage)
        (λ e.
          page_step (e ∷ []) page_alloc (λ ppage. on_pmap (clear ppage) >> insert e ppage)
            (λ ppage. Triple-then (on_pmap-Uses (e ∷ []) (clear ppage)) (
              Triple-get (λ s.
                Triple-then
                  (on_pmap-Uses (e ∷ []) (
                    page_insert (kaddr (s.envs e).env_pgdir) ppage va
                      (bit_or (bit_or perm pte_v) attrib_ap_rw_all)))
                  (pure-Ends (e ∷ []) (ok tt)))))))

map_found-Ends :
    (es : List ℕ) (found : Option (ℕ × ℕ)) (dst dstva perm : ℕ)
    → Ends es (map_found found dst dstva perm)
unfolding map_found
map_found-Ends es none dst dstva perm = pure-Ends es (err e_unspecified)
map_found-Ends es (some (ppage, pte)) dst dstva perm = Triple-get (λ s.
    Triple-then (on_pmap-Uses es (page_insert (kaddr (s.envs dst).env_pgdir) ppage dstva perm))
      (pure-Ends es (ok tt)))

pub sys_mem_map-Ends :
    (srcid srcva dstid dstva perm : ℕ) → Ends [] (sys_mem_map srcid srcva dstid dstva perm)
unfolding sys_mem_map
sys_mem_map-Ends srcid srcva dstid dstva perm =
    let map : ℕ → ℕ → Cmd Kernel (Result (Unit {0})) = λ src dst. get >>= λ s.
    on_pmap (page_lookup (s.envs src).env_pgdir (page_base srcva)) >>= λ found.
    map_found found dst (page_base dstva) perm in
    with_env-Ends [] srcid true (λ src. with_env dstid true (map src))
      (λ src. with_env-Ends (src ∷ []) dstid true (map src) (λ dst. Triple-get (λ s.
        page_step (dst ∷ src ∷ []) (page_lookup (s.envs src).env_pgdir (page_base srcva))
          (λ found. map_found found dst (page_base dstva) perm)
          (λ found. map_found-Ends (dst ∷ src ∷ []) found dst (page_base dstva) perm))))

pub sys_mem_unmap-Ends : (envid va : ℕ) → Ends [] (sys_mem_unmap envid va)
unfolding sys_mem_unmap
sys_mem_unmap-Ends envid va =
    let remove : ℕ → Cmd Kernel (Result (Unit {0})) =
      λ e. get >>= λ s. on_pmap (page_remove (s.envs e).env_pgdir va) >> done in
    with_env-Ends [] envid true remove (λ e. Triple-get (λ s.
      Triple-then (on_pmap-Uses (e ∷ []) (page_remove (s.envs e).env_pgdir va))
        (pure-Ends (e ∷ []) (ok tt))))

pub sys_env_alloc-Ends : Ends [] sys_env_alloc
unfolding sys_env_alloc child_of
sys_env_alloc-Ends = Triple-bind (current-Uses []) (λ c. Triple-get (λ s.
    Triple-bind (env_alloc-Uses (s.envs c).env_id (c ∷ [])) (λ e.
      Triple-then
        (Triple-modify (Uses (e ∷ c ∷ [])) (λ t. edit e (child_of t.time_stack) t)
          (λ t h. edit-Uses e (c ∷ []) (child_of t.time_stack) (λ v. refl) t h))
        (Triple-get (λ t. pure-Ends (e ∷ c ∷ []) (t.envs e).env_id)))))

pub sys_set_env_status-Ends : (envid status : ℕ) → Ends [] (sys_set_env_status envid status)
unfolding sys_set_env_status
sys_set_env_status-Ends envid status =
    let f : Env → Env = λ v. record v { env_status = status } in
    choose []
      (not (status == env_runnable)
        && not (status == env_not_runnable)
        && not (status == env_free_status))
      (pure (err e_inval)) (with_env envid false (λ e. modify (edit e f) >> done))
      (pure-Ends [] (err e_inval))
      (with_env-Ends [] envid false (λ e. modify (edit e f) >> done)
        (λ e. edit_step e [] f done (λ v. refl) (pure-Ends (e ∷ []) (ok tt))))

pub sys_ipc_recv-Ends : (dstva : ℕ) → Ends [] (sys_ipc_recv dstva)
unfolding sys_ipc_recv sys_yield
sys_ipc_recv-Ends dstva =
    let f : Env → Env =
      λ v. record v { env_ipc_dstva = dstva; env_ipc_recving = 1; env_status = env_not_runnable } in
    Triple-bind (current-Uses []) (λ c.
      edit_step c [] f sched_yield (λ v. refl) (λ s h. sched_yield-Good s (Uses-Good (c ∷ []) s h)))
