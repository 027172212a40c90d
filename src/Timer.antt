-- ===== src/Timer.antt =====
-- Waits on the system timer: `usleep`, `register_timer` and `compare_timer` of OS/drivers/timer.c.
-- The timer is the sequence of its readings, u32s. An int `usec` is its two's complement.
-- The clock interrupt (`setup_clock_int`, `clear_clock_int`) only writes to the device.
pub mod Waits
use raspberry_pi_3_jos.Prelude.{
  ℕ, zero, suc, ◌+◌, ◌%◌, ◌^◌, Bool, true, false, not, ◌&&◌, ◌||◌, Option, none, some, ◌==◌, ltb,
  leb, if◌then◌else◌,
}

-- `struct timer_wait`
pub record TimerWait : Type 0 where
  pub trigger_value : ℕ
  pub rollover : Bool

-- The trigger for a reading: 0 where that is 0.
abbrev pub trigger : (cur_timer usec : ℕ) → ℕ
trigger cur_timer usec = if cur_timer == 0 then 0 else (cur_timer + usec) % 2 ^ 32

unfoldable pub register_timer : (cur_timer usec : ℕ) → TimerWait
register_timer cur_timer usec =
    if leb (2 ^ 31) usec then record { trigger_value = 0; rollover = false } else record {
      trigger_value = trigger cur_timer usec;
      rollover = not (ltb cur_timer (trigger cur_timer usec));
    }

-- `tw` is passed by value, so that `tw.rollover = 0` changes a copy that is dropped.
unfoldable pub compare_timer : (cur_timer : ℕ) → TimerWait → Bool
compare_timer cur_timer tw =
    if tw.trigger_value == 0
    then true
    else if ltb cur_timer tw.trigger_value
    then false
    else not tw.rollover

-- `while (!compare_timer(tw))` from reading `k` on: the reading that ends it.
unfoldable pub wait : (fuel : ℕ) → (clock : ℕ → ℕ) → (k : ℕ) → TimerWait → Option ℕ
wait zero clock k tw = none
wait (suc fuel) clock k tw =
    let later = wait fuel clock (k + 1) tw in if compare_timer (clock k) tw then some k else later

unfoldable pub usleep : (fuel : ℕ) → (clock : ℕ → ℕ) → (usec : ℕ) → Option ℕ
usleep fuel clock usec = wait fuel clock 1 (register_timer (clock 0) usec)
