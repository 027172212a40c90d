-- ===== src/Elf.antt =====
-- The ELF loader: OS/lib/kernel_elfloader.c and OS/include/kerelf.h. The image is the bytes at
-- `binary`, by their offset, and the function that maps a segment is a parameter, as in the source;
-- it gets the offset of the segment's bytes for their address.
pub mod Segments
pub mod Keeps
use raspberry_pi_3_jos.Prelude.{
  ℕ, zero, suc, ◌+◌, ◌*◌, ◌%◌, ◌^◌, Bool, not, ◌&&◌, ◌||◌, some, ◌==◌, ltb, if◌then◌else◌,
}
use raspberry_pi_3_jos.Prelude.State.{Cmd, Result, ok, err, pure, and_then}

-- The `n` bytes from `a` on as a number, the lowest first.
unfoldable pub le : (n : ℕ) → (image : ℕ → ℕ) → (a : ℕ) → ℕ
le zero image a = 0
le (suc n) image a = image a % 256 + 256 * le n image (a + 1)

-- The fields of `Elf64_Ehdr` that the loader reads.
pub record Ehdr : Type 0 where
  pub e_entry : ℕ
  pub e_phoff : ℕ
  pub e_phentsize : ℕ
  pub e_phnum : ℕ

abbrev pub ehdr : (ℕ → ℕ) → Ehdr
ehdr image = record {
  e_entry = le 8 image 24;
  e_phoff = le 8 image 32;
  e_phentsize = le 2 image 54;
  e_phnum = le 2 image 56;
}

-- The fields of `Elf64_Phdr` that the loader reads, of the header at `ptr_ph_table`.
pub record Phdr : Type 0 where
  pub p_type : ℕ
  pub p_offset : ℕ
  pub p_vaddr : ℕ
  pub p_filesz : ℕ
  pub p_memsz : ℕ

abbrev pub phdr : (ℕ → ℕ) → ℕ → Phdr
phdr image ptr_ph_table = record {
  p_type = le 4 image ptr_ph_table;
  p_offset = le 8 image (ptr_ph_table + 8);
  p_vaddr = le 8 image (ptr_ph_table + 16);
  p_filesz = le 8 image (ptr_ph_table + 32);
  p_memsz = le 8 image (ptr_ph_table + 40);
}

abbrev pub sht_progbits : ℕ
sht_progbits = 1

unfoldable pub is_elf_format : (ℕ → ℕ) → Bool
is_elf_format image =
    image 0 % 256 == 0x7f && image 1 % 256 == 0x45 && image 2 % 256 == 0x4c && image 3 % 256 == 0x46

-- `map(va, sgsize, bin, bin_size, user_data)`, whose sizes are u_int32_t.
abbrev pub Mapper : Type 0 → Type 0
Mapper S = (va sgsize bin bin_size : ℕ) → Cmd S (Result (Unit {0}))

abbrev pub call_map : {S : Type 0} → Mapper S → Phdr → Cmd S (Result (Unit {0}))
call_map map h = map h.p_vaddr (h.p_memsz % 2 ^ 32) h.p_offset (h.p_filesz % 2 ^ 32)

-- `while (ph_entry_count--)`, over the count.
pub load_segments :
    {S : Type 0}
    → Mapper S
    → (image : ℕ → ℕ) → (ph_entry_size ph_entry_count ptr_ph_table : ℕ) → Cmd S (Result (Unit {0}))
load_segments map image ph_entry_size zero ptr_ph_table s = some (ok tt, s)
load_segments map image ph_entry_size (suc ph_entry_count) ptr_ph_table s =
    let h = phdr image ptr_ph_table in
    let rest =
      load_segments map image ph_entry_size ph_entry_count (ptr_ph_table + ph_entry_size) in
    if h.p_type == sht_progbits
    then and_then (call_map map h s) (λ r. elim r [ err code ↦ pure (err code) | ok _ ↦ rest ])
    else rest s

-- The result is the entry point; an image that is too short or no ELF file is refused with -1.
pub load_elf : {S : Type 0} → Mapper S → (image : ℕ → ℕ) → (size : ℕ) → Cmd S (Result ℕ)
unfolding load_segments is_elf_format
load_elf map image size s =
    let h = ehdr image in
    if ltb size 4 || not (is_elf_format image)
    then some (err 1, s)
    else and_then (load_segments map image h.e_phentsize h.e_phnum h.e_phoff s)
        (λ r. elim r [ err code ↦ pure (err code) | ok _ ↦ pure (ok h.e_entry) ])
