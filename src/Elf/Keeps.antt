-- ===== src/Elf/Keeps.antt =====
-- What `load_elf` keeps.
use raspberry_pi_3_jos.Prelude.{ℕ, zero, suc, ◌+◌, inl, inr, not, ◌||◌, ◌==◌, ltb, Bool-cases}
use raspberry_pi_3_jos.Prelude.State.{Cmd, Result, ok, err, pure, ◌>>=◌}
use raspberry_pi_3_jos.Prelude.Triple.{Triple, returned, Triple-pure, Triple-bind}
use raspberry_pi_3_jos.Elf.{
  Mapper, Phdr, phdr, ehdr, sht_progbits, is_elf_format, call_map, load_segments, load_elf,
}

-- `load_elf` keeps what each call of its mapper keeps.
load_segments-keeps :
    {S : Type 0} (P : S → Type 0) (map : Mapper S)
    → ((h : Phdr) → Triple P (call_map map h) (λ _. P))
    → (image : ℕ → ℕ) (size n table : ℕ) → Triple P (load_segments map image size n table) (λ _. P)
unfolding load_segments
load_segments-keeps P map keep image size zero table s h r t run = returned (λ _. P) run h
load_segments-keeps {S} P map keep image size (suc n) table s h r t run =
    let header = phdr image table in
    let rest : Cmd S (Result (Unit {0})) = load_segments map image size n (table + size) in
    let rests : Triple P rest (λ _. P) =
      load_segments-keeps P map keep image size n (table + size) in
    let both : Triple P
        (call_map map header >>= λ r. elim r [ err code ↦ pure (err code) | ok _ ↦ rest ])
        (λ _. P) =
      Triple-bind (keep header) (after rest rests) in
    elim (Bool-cases (header.p_type == sht_progbits)) [
      | inl e ↦ both s h r t (rw e at run)
      | inr e ↦ rests s h r t (rw e at run)
    ]
  where
    after :
        (rest : Cmd S (Result (Unit {0})))
        → Triple P rest (λ _. P)
        → (r : Result (Unit {0}))
        → Triple P
            (elim r as (λ _. Cmd S (Result (Unit {0}))) [
              | err code ↦ pure (err code)
              | ok _ ↦ rest
            ])
            (λ _. P)
    after rest rests (err code) = Triple-pure (λ _. P) (err code) (λ s h. h)
    after rest rests (ok _) = rests

pub load_elf-keeps :
    {S : Type 0} (P : S → Type 0) (map : Mapper S)
    → ((h : Phdr) → Triple P (call_map map h) (λ _. P))
    → (image : ℕ → ℕ) (size : ℕ) → Triple P (load_elf map image size) (λ _. P)
unfolding load_elf
load_elf-keeps {S} P map keep image size s h r t run =
    let e = ehdr image in
    let whole : Triple P
        (load_segments map image e.e_phentsize e.e_phnum e.e_phoff >>= λ r. elim r [
          | err code ↦ pure (err code)
          | ok _ ↦ pure (ok e.e_entry)
        ])
        (λ _. P) =
      Triple-bind (load_segments-keeps P map keep image e.e_phentsize e.e_phnum e.e_phoff)
        (answer e.e_entry) in
    elim (Bool-cases (ltb size 4 || not (is_elf_format image))) [
      | inl e ↦ returned (λ _. P) (rw e at run) h
      | inr e ↦ whole s h r t (rw e at run)
    ]
  where
    answer :
        (entry : ℕ) (r : Result (Unit {0}))
        → Triple P
            (elim r as (λ _. Cmd S (Result ℕ)) [
              | err code ↦ pure (err code)
              | ok _ ↦ pure (ok entry)
            ])
            (λ _. P)
    answer entry (err code) = Triple-pure (λ _. P) (err code) (λ s h. h)
    answer entry (ok _) = Triple-pure (λ _. P) (ok entry) (λ s h. h)
