-- ===== src/Env/Load/Keeps.antt =====
-- `load_icode` and `env_create` keep the invariant of the environments.
use raspberry_pi_3_jos.Prelude.{ℕ, ◌-◌, ◌%◌, ◌^◌, refl, List, [], ◌∷◌}
use raspberry_pi_3_jos.Prelude.State.{ok, err}
use raspberry_pi_3_jos.Prelude.Triple.{
  Triple, Triple-pure, Triple-modify, Triple-bind, Triple-then, Triple-get,
}
use raspberry_pi_3_jos.Mmu.{by2pg, attrib_ap_rw_all, ustacktop}
use raspberry_pi_3_jos.Pmap.{page_alloc, page_insert}
use raspberry_pi_3_jos.Elf.{Phdr, call_map}
use raspberry_pi_3_jos.Elf.Keeps.{load_elf-keeps}
use raspberry_pi_3_jos.Env.{Env, edit}
use raspberry_pi_3_jos.Env.Invariant.{Uses, Good, Uses-Good, on_pmap-Uses, edit-Uses}
use raspberry_pi_3_jos.Env.Keeps.{env_alloc-Uses}
use raspberry_pi_3_jos.Env.Load.{load_segment, load_icode_mapper, load_icode, env_create}

load_icode_mapper-Uses :
    (es : List ℕ) (image : ℕ → ℕ) (e : ℕ) (h : Phdr)
    → Triple (Uses es) (call_map (load_icode_mapper image e) h) (λ _. Uses es)
unfolding load_icode_mapper
load_icode_mapper-Uses es image e h s =
    Triple-then
      (on_pmap-Uses es (
        load_segment image (s.envs e).env_pgdir h.p_vaddr (h.p_memsz % 2 ^ 32) h.p_offset
          (h.p_filesz % 2 ^ 32)))
      (Triple-pure (λ _. Uses es) (ok tt) (λ s h. h)) s

load_icode-Uses :
    (entry_point e : ℕ) (image : ℕ → ℕ) (size : ℕ)
    → Triple (Uses (e ∷ [])) (load_icode entry_point e image size) (λ _. Uses (e ∷ []))
unfolding load_icode
load_icode-Uses entry_point e image size = Triple-bind (on_pmap-Uses (e ∷ []) page_alloc) (λ p.
    Triple-get (λ s.
      Triple-then
        (on_pmap-Uses (e ∷ [])
          (page_insert (s.envs e).env_pgdir p (ustacktop - by2pg) attrib_ap_rw_all))
        (Triple-bind
          (load_elf-keeps (Uses (e ∷ [])) (load_icode_mapper image e)
            (load_icode_mapper-Uses (e ∷ []) image e) image size)
          (λ r.
            let f : Env → Env = λ v. record v {
              env_tf = record v.env_tf { elr = elim r [ err _ ↦ entry_point | ok entry ↦ entry ] };
            } in
            Triple-modify (Uses (e ∷ [])) (edit e f) (edit-Uses e [] f (λ v. refl))))))

pub env_create-Good :
    (entry_point : ℕ) (image : ℕ → ℕ) (size : ℕ)
    → Triple Good (env_create entry_point image size) (λ _. Good)
unfolding env_create
env_create-Good entry_point image size =
    Triple-bind (env_alloc-Uses 0 [])
      (λ e s h u t run. Uses-Good (e ∷ []) t (load_icode-Uses entry_point e image size s h u t run))
