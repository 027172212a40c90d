-- ===== src/Boot.antt =====
-- The start of the kernel: `load_program`, `main` and `handle_int` of OS/init/main.c. `card` is what
-- `emmc_read_sector` reads, by the sector. Messages and the set-up of the devices (`uart_init`,
-- `emmc_init`, `kclock_init`) are left out, and so is the loop at the end of `main`, which only echoes
-- characters.
pub mod Programs
pub mod Shown
pub mod Start
pub mod Keeps
use raspberry_pi_3_jos.Prelude.{ℕ, zero, suc, ◌+◌, ◌%◌, ◌^◌}
use raspberry_pi_3_jos.Prelude.State.{Cmd, and_then, ◌>>=◌, ◌>>◌, pure, modify}
use raspberry_pi_3_jos.Queue.{update}
use raspberry_pi_3_jos.Pmap.{page_init}
use raspberry_pi_3_jos.Env.{Kernel, env_init, sched_yield}
use raspberry_pi_3_jos.Env.Load.{env_create}

-- `for (j = 0; j < 512; j++) program[pos + j] = buf[j];`, over the rounds left.
unfoldable pub copy_sector : (rounds : ℕ) → (buf : ℕ → ℕ) → (pos j : ℕ) → (program : ℕ → ℕ) → ℕ → ℕ
copy_sector zero buf pos j program = program
copy_sector (suc rounds) buf pos j program =
    copy_sector rounds buf pos (j + 1) (update program (pos + j) (buf j))

-- `for (i = 0; i < 300; i++)`, over the rounds left.
unfoldable pub load_sectors :
    (rounds : ℕ) → (card : ℕ → ℕ → ℕ) → (sector i pos : ℕ) → (program : ℕ → ℕ) → ℕ → ℕ
load_sectors zero card sector i pos program = program
load_sectors (suc rounds) card sector i pos program =
    load_sectors rounds card sector (i + 1) ((pos + 512) % 2 ^ 32)
      (copy_sector 512 (card ((sector + i) % 2 ^ 32)) pos 0 program)

pub load_program : (card : ℕ → ℕ → ℕ) → (sector : ℕ) → (program : ℕ → ℕ) → ℕ → ℕ
unfolding load_sectors
load_program card sector program = load_sectors 300 card sector 0 0 program

-- `main` up to its last loop; `program` is the array before it, and `first` and `second` are what
-- the variable `entry_point` of `load_icode` holds in the two calls.
pub main : (card : ℕ → ℕ → ℕ) → (program : ℕ → ℕ) → (first second : ℕ) → Cmd Kernel (Unit {0})
main card program first second = do
  modify (λ s. record s { pmap = page_init s.pmap })
  modify env_init
  env_create first (load_program card 51000 program) 101388
  env_create second (load_program card 52000 (load_program card 51000 program)) 130542

-- The clock interrupt.
unfoldable pub handle_int : Cmd Kernel (Unit {0})
handle_int = sched_yield
