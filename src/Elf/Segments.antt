-- ===== src/Elf/Segments.antt =====
-- The segments of an image, and what `load_elf` does with them.
use raspberry_pi_3_jos.Prelude.{
  ℕ, zero, suc, ◌+◌, ◌≤◌, ◌<◌, ◌≡◌, ◌⊎◌, refl, ap, ◌∙◌, inl, inr, true, false, some, List, [], ◌∷◌,
  arith, ◌==◌, ltb, Bool-cases, if◌then◌else◌,
}
use raspberry_pi_3_jos.Prelude.State.{Cmd, Result, ok, err, pure, and_then}
use raspberry_pi_3_jos.Elf.{
  Phdr, phdr, ehdr, sht_progbits, is_elf_format, Mapper, call_map, load_segments, load_elf,
}

-- The headers `0`, ..., `n - 1` of a table.
abbrev pub headers : (image : ℕ → ℕ) → (table size n : ℕ) → List Phdr
headers image table size zero = []
headers image table size (suc n) = phdr image table ∷ headers image (table + size) size n

abbrev pub loadable : List Phdr → List Phdr
loadable [] = []
loadable (h ∷ hs) = if h.p_type == sht_progbits then h ∷ loadable hs else loadable hs

-- The segments to load, in the order of the table.
unfoldable pub segments : (image : ℕ → ℕ) → List Phdr
segments image = let h = ehdr image in loadable (headers image h.e_phoff h.e_phentsize h.e_phnum)

-- Each of the segments is mapped; the first error ends it.
unfoldable pub map_all : {S : Type 0} → Mapper S → List Phdr → Cmd S (Result (Unit {0}))
map_all map [] s = some (ok tt, s)
map_all map (h ∷ hs) s =
    let rest = map_all map hs in
    and_then (call_map map h s) (λ r. elim r [ err code ↦ pure (err code) | ok _ ↦ rest ])

load_segments-map_all :
    {S : Type 0} (map : Mapper S) (image : ℕ → ℕ) (size n table : ℕ)
    → load_segments map image size n table ≡ map_all map (loadable (headers image table size n))
unfolding load_segments map_all
load_segments-map_all map image size zero table = refl
load_segments-map_all {S} map image size (suc n) table =
    let h = phdr image table in
    let hs = loadable (headers image (table + size) size n) in
    let step : Cmd S (Result (Unit {0})) → Cmd S (Result (Unit {0})) = λ rest s.
      if h.p_type == sht_progbits
      then and_then (call_map map h s) (λ r. elim r [ err code ↦ pure (err code) | ok _ ↦ rest ])
      else rest s in
    ap step (load_segments-map_all map image size n (table + size))
    ∙ elim (Bool-cases (h.p_type == sht_progbits)) [ inl e ↦ rw e refl | inr e ↦ rw e refl ]

pub load_elf-map_all :
    {S : Type 0} (map : Mapper S) (image : ℕ → ℕ) (size : ℕ) (s : S)
    → 4 ≤ size
    → is_elf_format image ≡ true
    → load_elf map image size s
      ≡ and_then
          (map_all map (segments image) s)
          (λ r. elim r [ err code ↦ pure (err code) | ok _ ↦ pure (ok (ehdr image).e_entry) ])
unfolding load_elf segments
load_elf-map_all map image size s long e =
    let h = ehdr image in
    let same = load_segments-map_all map image h.e_phentsize h.e_phnum h.e_phoff in
    let f : ltb size 4 ≡ false = ground arith in
    rw (f, e)
      (ap
        (λ (m : Cmd _ _).
          and_then (m s) (λ r. elim r [ err code ↦ pure (err code) | ok _ ↦ pure (ok h.e_entry) ]))
        same)

-- `load_elf` of an ELF file maps the loadable segments in the order of the program headers up to
-- the first error, which it returns; without one it returns the entry point. Any other image is
-- refused with -1, and nothing is mapped.
pub load_elf-segments :
    {S : Type 0} (map : Mapper S) (image : ℕ → ℕ) (size : ℕ) (s : S)
    → ((4 ≤ size)
        × (is_elf_format image ≡ true)
        × (load_elf map image size s
            ≡ and_then (map_all map (segments image) s) (λ r. elim r [
              | err code ↦ pure (err code)
              | ok _ ↦ pure (ok (ehdr image).e_entry)
            ])))
      ⊎ (load_elf map image size s ≡ some (err 1, s)) × ((size < 4) ⊎ (is_elf_format image ≡ false))
unfolding load_elf
load_elf-segments map image size s = elim (Bool-cases (is_elf_format image)) [
  | inl e ↦ elim (Bool-cases (ltb size 4)) [
    | inl f ↦ inr (rw f refl, inl (ground arith))
    | inr f ↦
        let long : 4 ≤ size = ground arith in
        inl (long, e, load_elf-map_all map image size s long e)
  ]
  | inr e ↦ inr (ground (arith, e), inr e)
]
