-- ===== src/Examples/Descriptors.antt =====
-- A table with descriptor 0 open for reading on a device that always has 512 bytes of value 7.
use raspberry_pi_3_jos.Prelude.{
  ℕ, ◌+◌, ◌-◌, ◌%◌, ◌^◌, ◌<◌, ◌≡◌, ◌≢◌, ◌⊎◌, refl, none, some, arith, ◌==◌, leb, ◌&&◌, ltb,
  if◌then◌else◌,
}
use raspberry_pi_3_jos.Prelude.State.{ok, err}
use raspberry_pi_3_jos.Fd.{Fd, Files, Dev, maxfd, e_max_open, fd_alloc, read}
use raspberry_pi_3_jos.Fd.Slots.{fd_alloc_lem}
use raspberry_pi_3_jos.Fd.Reads.{IsReadable, read_lem}

abbrev opened : Fd
opened = record { fd_dev_id = 0x66; fd_offset = 0; fd_omode = 0 }

abbrev sevens : ℕ → ℕ
sevens a = if leb 1000 a && ltb a 1512 then 7 else 0

abbrev seven_device : Dev (Unit {0})
seven_device = record {
  dev_id = 0x66;
  dev_read = λ fd buf n offset mem d. (ok 512, sevens, d);
  dev_write = λ fd buf n offset mem d. (ok n, d);
  dev_close = λ fd d. (ok tt, d);
}

abbrev files : Files (Unit {0})
files = record { table = λ i. if i == 0 then some opened else none; mem = λ _. 0; device = tt }

files-IsReadable : IsReadable seven_device files 0 opened
files-IsReadable = record {
  bound = omega arith;
  present = refl;
  device = refl;
  mode = λ e. omega (arith, e);
}

fd_alloc_example :
    ((n : ℕ) × (fd_alloc files ≡ ok n)
      × (n < maxfd - 1)
      × (files.table n ≡ none)
      × ((j : ℕ) → j < n → files.table j ≢ none))
    ⊎ (fd_alloc files ≡ err e_max_open) × ((j : ℕ) → j < maxfd - 1 → files.table j ≢ none)
fd_alloc_example = fd_alloc_lem files

-- The byte at 1000, the first one that was read, is lost.
read_example :
    let offset = (opened.fd_offset + 512) % 2 ^ 32 in
    (t : Files (Unit {0})) × (read seven_device 0 1000 512 files ≡ some (ok 512, t))
    × (t.table 0 ≡ some (record opened { fd_offset = offset }))
    × (t.mem (1000 + offset % 512) ≡ 0)
    × ((a : ℕ) → a ≢ 1000 + offset % 512 → t.mem a ≡ sevens a)
read_example = read_lem seven_device files 0 1000 512 512 opened sevens tt files-IsReadable refl
