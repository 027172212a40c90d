-- ===== src/Fd.antt =====
-- File descriptors: OS/user/fd.c and OS/user/fd.h. A descriptor is the number of its page in the
-- table at FDTABLE, below 2 ^ 31; a page without an entry is `none`. The functions of the device
-- are a parameter, and so is their state; buffers are bytes of the memory. `writef` is left out.
pub mod Slots
pub mod Reads
use raspberry_pi_3_jos.Prelude.{
  ℕ, zero, suc, ◌+◌, ◌-◌, ◌*◌, ◌/◌, ◌%◌, ◌^◌, Bool, true, false, not, ◌&&◌, Option, none, some,
  ◌==◌, ltb, leb, if◌then◌else◌, bit_and,
}
use raspberry_pi_3_jos.Prelude.State.{
  Cmd, Result, ok, err, pure, and_then, ◌>>=◌, ◌>>◌, get, modify,
}
use raspberry_pi_3_jos.Queue.{update}

abbrev pub maxfd : ℕ
maxfd = 32

abbrev pub e_inval : ℕ
e_inval = 3

abbrev pub e_max_open : ℕ
e_max_open = 8

-- FDTABLE, INDEX2FD and INDEX2DATA.
abbrev pub fdtable : ℕ
fdtable = 0x6000_0000 - 4 * 1024 * 1024

abbrev pub index2data : ℕ → ℕ
index2data i = 0x6000_0000 + i * (4 * 1024 * 1024)

-- `struct Fd`
pub record Fd : Type 0 where
  pub fd_dev_id : ℕ
  pub fd_offset : ℕ
  pub fd_omode : ℕ

-- The table, the memory of buffers and the state of the device.
pub record Files (D : Type 0) : Type 0 where
  pub table : ℕ → Option Fd
  pub mem : ℕ → ℕ
  pub device : D

-- `struct Dev`: each function may fail, or give a count of bytes; a read fills its buffer.
pub record Dev (D : Type 0) : Type 0 where
  pub dev_id : ℕ
  pub dev_read : (fd : Fd) → (buf n offset : ℕ) → (mem : ℕ → ℕ) → D → Result ℕ × (ℕ → ℕ) × D
  pub dev_write : (fd : Fd) → (buf n offset : ℕ) → (mem : ℕ → ℕ) → D → Result ℕ × D
  pub dev_close : (fd : Fd) → D → Result (Unit {0}) × D

pub fd2num : ℕ → ℕ
fd2num fd = (fd - fdtable) / 4096

pub num2fd : ℕ → ℕ
num2fd fd = fd * 4096 + fdtable

pub fd2data : ℕ → ℕ
unfolding fd2num
fd2data fd = index2data (fd2num fd)

module _ {D : Type 0} where
  -- The loop of `fd_alloc`, over the rounds left.
  unfoldable pub search_fd : (rounds fdno : ℕ) → Files D → Result ℕ
  search_fd zero fdno s = err e_max_open
  search_fd (suc rounds) fdno s =
      let later = search_fd rounds (fdno + 1) s in
      elim (s.table fdno) [ none ↦ ok fdno | some _ ↦ later ]

  unfoldable pub fd_alloc : Files D → Result ℕ
  fd_alloc s = search_fd (maxfd - 1) 0 s

  unfoldable pub fd_close : ℕ → Files D → Files D
  fd_close fdno s = record s { table = update s.table fdno none }

  -- The descriptor's fields.
  unfoldable pub fd_lookup : ℕ → Files D → Result Fd
  fd_lookup fdnum s =
      if leb maxfd fdnum
      then err e_inval
      else elim (s.table fdnum) [ none ↦ err e_inval | some fd ↦ ok fd ]

  module _ (devfile : Dev D) where
    -- `devtab` holds one device.
    unfoldable pub dev_lookup : ℕ → Result (Dev D)
    dev_lookup dev_id = if devfile.dev_id == dev_id then ok devfile else err e_inval

    pub close : (fdnum : ℕ) → Cmd (Files D) (Result (Unit {0}))
    close fdnum s = elim (fd_lookup fdnum s) [
      | err code ↦ some (err code, s)
      | ok fd ↦ elim (dev_lookup fd.fd_dev_id) [
        | err code ↦ some (err code, s)
        | ok dev ↦
            let r = dev.dev_close fd s.device in
            some (r.0, fd_close fdnum (record s { device = r.1 }))
      ]
    ]

    -- `for (i = 0; i < MAXFD; i++) close(i)`, over the rounds left.
    close_from : (rounds i : ℕ) → Cmd (Files D) (Unit {0})
    close_from zero i s = some (tt, s)
    close_from (suc rounds) i s =
        let rest = close_from rounds (i + 1) in and_then (close i s) (λ _. rest)

    pub close_all : Cmd (Files D) (Unit {0})
    unfolding close_from
    close_all = close_from maxfd 0

    -- `fd->fd_offset += r`, where `r` is positive.
    abbrev pub advance : (fdnum : ℕ) → Fd → Result ℕ → Fd
    advance fdnum fd (err code) = fd
    advance fdnum fd (ok n) = record fd { fd_offset = (fd.fd_offset + n) % 2 ^ 32 }

    -- The last five lines of `read`.
    unfoldable pub read_device : (fdnum : ℕ) → Fd → Dev D → (buf n : ℕ) → Cmd (Files D) (Result ℕ)
    read_device fdnum fd dev buf n s =
        let (r, mem, device) = dev.dev_read fd buf n fd.fd_offset s.mem s.device in
        let fd' = advance fdnum fd r in
        some (
          r,
          record {
            table = update s.table fdnum (some fd');
            mem = update mem (buf + fd'.fd_offset % 512) 0;
            device = device;
          },
        )

    -- O_ACCMODE is 3, O_WRONLY is 1 and O_RDONLY is 0.
    unfoldable pub read : (fdnum buf n : ℕ) → Cmd (Files D) (Result ℕ)
    read fdnum buf n s = elim (fd_lookup fdnum s) [
      | err code ↦ some (err code, s)
      | ok fd ↦ elim (dev_lookup fd.fd_dev_id) [
        | err code ↦ some (err code, s)
        | ok dev ↦
            if bit_and fd.fd_omode 3 == 1
            then some (err e_inval, s)
            else read_device fdnum fd dev buf n s
      ]
    ]

    -- The loop of `readn`, on fuel: a round that goes on has read a byte.
    pub readn_from : (fuel fdnum buf n tot : ℕ) → Cmd (Files D) (Result ℕ)
    readn_from zero fdnum buf n tot s = none
    readn_from (suc fuel) fdnum buf n tot s =
        let rest = λ (m : ℕ). readn_from fuel fdnum buf n (tot + m) in
        if leb n tot
        then some (ok tot, s)
        else and_then (read fdnum (buf + tot) (n - tot) s) λ r t. elim r [
          | err code ↦ some (err code, t)
          | ok m ↦ if m == 0 then some (ok tot, t) else rest m t
        ]

    pub readn : (fdnum buf n : ℕ) → Cmd (Files D) (Result ℕ)
    readn fdnum buf n = readn_from (n + 1) fdnum buf n 0

    pub write_device : (fdnum : ℕ) → Fd → Dev D → (buf n : ℕ) → Cmd (Files D) (Result ℕ)
    write_device fdnum fd dev buf n s =
        let (r, device) = dev.dev_write fd buf n fd.fd_offset s.mem s.device in
        some (
          r,
          record s { table = update s.table fdnum (some (advance fdnum fd r)); device = device },
        )

    pub write : (fdnum buf n : ℕ) → Cmd (Files D) (Result ℕ)
    write fdnum buf n s = elim (fd_lookup fdnum s) [
      | err code ↦ some (err code, s)
      | ok fd ↦ elim (dev_lookup fd.fd_dev_id) [
        | err code ↦ some (err code, s)
        | ok dev ↦
            if bit_and fd.fd_omode 3 == 0
            then some (err e_inval, s)
            else write_device fdnum fd dev buf n s
      ]
    ]

  unfoldable pub seek : (fdnum offset : ℕ) → Cmd (Files D) (Result (Unit {0}))
  seek fdnum offset s = elim (fd_lookup fdnum s) [
    | err code ↦ some (err code, s)
    | ok fd ↦
        some (
          ok tt,
          record s { table = update s.table fdnum (some (record fd { fd_offset = offset })) },
        )
  ]
