-- ===== src/Fd/Reads.antt =====
-- `read`: what it does to the descriptor and to memory.
use raspberry_pi_3_jos.Prelude.{
  ℕ, ◌+◌, ◌%◌, ◌^◌, ◌<◌, ◌≡◌, refl, ap, ◌∙◌, ◌≢◌, true, false, Option, none, some, arith, ◌==◌, leb,
  if◌then◌else◌, bit_and,
}
use raspberry_pi_3_jos.Prelude.State.{Result, ok, err}
use raspberry_pi_3_jos.Queue.{update}
use raspberry_pi_3_jos.Fd.{Fd, Files, Dev, maxfd, e_inval, fd_lookup, dev_lookup, read_device, read}

-- An open descriptor of the device with a mode that allows reading.
pub record IsReadable {D : Type 0} (dev : Dev D) (s : Files D) (fdnum : ℕ) (fd : Fd) : Type 0 where
  pub bound : fdnum < maxfd
  pub present : s.table fdnum ≡ some fd
  pub device : fd.fd_dev_id ≡ dev.dev_id
  pub mode : bit_and fd.fd_omode 3 ≢ 1

lookup_runs :
    {D : Type 0} (dev : Dev D) (s : Files D) (fdnum : ℕ) (fd : Fd)
    → IsReadable dev s fdnum fd
    → fd_lookup fdnum s ≡ ok fd
unfolding fd_lookup
lookup_runs dev s fdnum fd v =
    let in_table : leb maxfd fdnum ≡ false = ground (arith, v.bound) in
    rw in_table (
      ap (λ (r : Option Fd). elim r as (λ _. Result Fd) [ none ↦ err e_inval | some f ↦ ok f ])
        v.present)

device_runs :
    {D : Type 0} (dev : Dev D) (s : Files D) (fdnum : ℕ) (fd : Fd)
    → IsReadable dev s fdnum fd
    → dev_lookup dev fd.fd_dev_id ≡ ok dev
unfolding dev_lookup
device_runs dev s fdnum fd v =
    let same : (dev.dev_id == fd.fd_dev_id) ≡ true = ground (arith, v.device) in rw same refl

read_runs :
    {D : Type 0} (dev : Dev D) (s : Files D) (fdnum buf n : ℕ) (fd : Fd)
    → IsReadable dev s fdnum fd
    → read dev fdnum buf n s ≡ read_device dev fdnum fd dev buf n s
unfolding read
read_runs {D} dev s fdnum buf n fd v =
    let allowed : (bit_and fd.fd_omode 3 == 1) ≡ false = ground (arith, v.mode) in
    let go : Fd → Dev D → Option (Result ℕ × Files D) = λ f d.
      if bit_and f.fd_omode 3 == 1
      then some (err e_inval, s)
      else read_device dev fdnum f d buf n s in
    ap
      (λ (r : Result Fd). elim r as (λ _. Option (Result ℕ × Files D)) [
        | err code ↦ some (err code, s)
        | ok f ↦ elim (dev_lookup dev f.fd_dev_id) as (λ _. Option (Result ℕ × Files D)) [
          | err code ↦ some (err code, s)
          | ok d ↦ go f d
        ]
      ])
      (lookup_runs dev s fdnum fd v)
    ∙ ap
        (λ (r : Result (Dev D)). elim r as (λ _. Option (Result ℕ × Files D)) [
          | err code ↦ some (err code, s)
          | ok d ↦ go fd d
        ])
        (device_runs dev s fdnum fd v)
    ∙ rw allowed refl

-- A read for which the device gives `m` bytes returns `m` and moves the offset by `m`; memory is what
-- the device left, but that the byte of the buffer at the new offset modulo 512 is set to 0, also
-- where it is one of the bytes that were read.
pub read_lem :
    {D : Type 0} (dev : Dev D) (s : Files D) (fdnum buf n m : ℕ) (fd : Fd) (mem : ℕ → ℕ) (d : D)
    → IsReadable dev s fdnum fd
    → dev.dev_read fd buf n fd.fd_offset s.mem s.device ≡ (ok m, mem, d)
    → let offset = (fd.fd_offset + m) % 2 ^ 32 in
      (t : Files D) × (read dev fdnum buf n s ≡ some (ok m, t))
      × (t.table fdnum ≡ some (record fd { fd_offset = offset }))
      × (t.mem (buf + offset % 512) ≡ 0)
      × ((a : ℕ) → a ≢ buf + offset % 512 → t.mem a ≡ mem a)
unfolding read_device
read_lem dev s fdnum buf n m fd mem d v given =
    let offset = (fd.fd_offset + m) % 2 ^ 32 in
    (
      record {
        table = update s.table fdnum (some (record fd { fd_offset = offset }));
        mem = update mem (buf + offset % 512) 0;
        device = d;
      },
      read_runs dev s fdnum buf n fd v ∙ rw given refl,
      ground arith,
      ground arith,
      λ a ne. ground arith,
    )
