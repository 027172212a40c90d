-- ===== src/Examples/Start.antt =====
-- A card with an ELF file in both places, and the kernel that starts from it.
use raspberry_pi_3_jos.Prelude.{
  ℕ, ◌+◌, ◌-◌, ◌*◌, ◌/◌, ◌%◌, ◌^◌, ◌≤◌, ◌≡◌, ◌⊎◌, refl, sym, ◌∙◌, inl, inr, some, List, arith, ltb,
  leb, if◌then◌else◌,
}
use mathlib.Core.Path.{subst, fun_ext}
use raspberry_pi_3_jos.Elf.{is_elf_format}
use raspberry_pi_3_jos.Elf.Segments.{segments}
use raspberry_pi_3_jos.Env.{Kernel}
use raspberry_pi_3_jos.Env.Invariant.{IsKernel}
use raspberry_pi_3_jos.Env.Load.Program.{total, IsLayout, OutsideAll}
use raspberry_pi_3_jos.Env.Load.Create.{stack_page}
use raspberry_pi_3_jos.Env.Sched.{IsRunnable, slot, chosen, sched_yield-IsNext}
use raspberry_pi_3_jos.Boot.{load_program, main, handle_int}
use raspberry_pi_3_jos.Boot.Programs.{load_program_lem}
use raspberry_pi_3_jos.Boot.Start.{IsProgram, Started, ready, main-Started}
use raspberry_pi_3_jos.Syscall.Reach.{Reach, Step, Reach-IsKernel}
use raspberry_pi_3_jos.Examples.Envs.{kernel}
use raspberry_pi_3_jos.Examples.Spaces.{elf, elf-segments, text-IsLayout}

-- The file is in the sectors from 51000 on and again from 52000 on.
card : ℕ → ℕ → ℕ
card sector k = elf (512 * (sector - (if leb 52000 sector then 52000 else 51000)) + k)

load_program_example :
    load_program card 51000 elf 5000
    ≡ (if ltb 5000 (512 * 300) then card ((51000 + 5000 / 512) % 2 ^ 32) (5000 % 512) else elf 5000)
load_program_example = load_program_lem card 51000 elf 5000

-- The array already holds the file, so that it stays what it is.
loads : (sector : ℕ) → (sector ≡ 51000) ⊎ (sector ≡ 52000) → load_program card sector elf ≡ elf
unfolding card
loads sector which = fun_ext (λ a. load_program_lem card sector elf a ∙ ground arith)

elf-IsProgram : IsProgram elf
unfolding elf is_elf_format
elf-IsProgram = record {
  elf = refl;
  layout = subst IsLayout (sym elf-segments) text-IsLayout;
  clear = λ p.
      subst (λ hs. OutsideAll p hs p stack_page) (sym elf-segments)
        (λ j h. inr (λ e. omega arith), tt);
}

-- The card's second image is read over the first.
card_images :
    (load_program card 51000 elf ≡ elf)
    × (load_program card 52000 (load_program card 51000 elf) ≡ elf)
card_images =
    let one = loads 51000 (inl refl) in
    (one, subst (λ p. load_program card 52000 p ≡ elf) (sym one) (loads 52000 (inr refl)))

card_room :
    4
      * (total (segments (load_program card 51000 elf))
          + total (segments (load_program card 52000 (load_program card 51000 elf))))
    ≤ 117_000
card_room = rw (card_images.1, card_images.0, elf-segments) (omega arith)

-- The kernel in memory that is 0.
abbrev powered : Kernel
powered = record kernel {
  pmap = record { mem = λ _. 0; pp_ref = λ _. 0; page_free_list = kernel.pmap.page_free_list };
}

first-IsProgram : IsProgram (load_program card 51000 elf)
first-IsProgram = subst IsProgram (sym card_images.0) elf-IsProgram

second-IsProgram : IsProgram (load_program card 52000 (load_program card 51000 elf))
second-IsProgram = subst IsProgram (sym card_images.1) elf-IsProgram

main-Started_example :
    (u : Kernel) × (main card elf 0 0 powered ≡ some (tt, u))
    × Started
        (ready powered)
        (load_program card 51000 elf)
        (load_program card 52000 (load_program card 51000 elf))
        u
main-Started_example =
    main-Started card elf 0 0 powered (λ x h. refl) first-IsProgram second-IsProgram card_room

-- The state behind `main`, and that after the first clock interrupt.
booted : Kernel
booted =
    (main-Started card elf 0 0 powered (λ x h. refl) first-IsProgram second-IsProgram card_room).0

booted-Reach : Reach card booted
unfolding booted
booted-Reach =
    Reach.start elf 0 0 powered
      (main-Started card elf 0 0 powered (λ x h. refl) first-IsProgram second-IsProgram card_room).1

second_runs : IsRunnable booted.envs 1
unfolding booted
second_runs =
    (main-Started card elf 0 0 powered (λ x h. refl) first-IsProgram second-IsProgram
      card_room).2.second.runnable

ticked : Kernel
ticked =
    chosen (slot booted.sched_i (sched_yield-IsNext booted 1 (omega arith) second_runs).0) booted

ticked-Reach : Reach card ticked
unfolding ticked handle_int
ticked-Reach =
    Reach.later booted-Reach (Step.clock (sched_yield-IsNext booted 1 (omega arith) second_runs).3)

Reach-IsKernel_example : (xs : List ℕ) × IsKernel ticked xs
Reach-IsKernel_example = Reach-IsKernel ticked-Reach
