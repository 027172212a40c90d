-- ===== src/Timer/Waits.antt =====
-- When `usleep` returns.
use raspberry_pi_3_jos.Prelude.{
  ℕ, zero, suc, ◌+◌, ◌%◌, ◌^◌, ◌≤◌, ◌<◌, ◌≡◌, refl, sym, ap, ◌∙◌, true, false, none, some, arith,
}
use raspberry_pi_3_jos.Timer.{TimerWait, register_timer, compare_timer, wait, usleep}

shift : (k j : ℕ) → k + 1 + j ≡ k + suc j
shift k j = omega arith

-- The reading `k + d` is the first that ends the wait.
wait_first :
    (fuel : ℕ) (clock : ℕ → ℕ) (k d : ℕ) (tw : TimerWait)
    → d < fuel
    → ((j : ℕ) → j < d → compare_timer (clock (k + j)) tw ≡ false)
    → compare_timer (clock (k + d)) tw ≡ true
    → wait fuel clock k tw ≡ some (k + d)
unfolding wait
wait_first zero clock k d tw h before hit = absurd (omega arith)
wait_first (suc fuel) clock k zero tw h before hit =
    let here : k + 0 ≡ k = omega arith in
    let hit' : compare_timer (clock k) tw ≡ true =
      ap (λ (i : ℕ). compare_timer (clock i) tw) (sym here) ∙ hit in
    rw hit' (ap (λ (i : ℕ). some i) (sym here))
wait_first (suc fuel) clock k (suc d) tw h before hit =
    let zero_round : k ≡ k + 0 = omega arith in
    let miss : compare_timer (clock k) tw ≡ false =
      ap (λ (i : ℕ). compare_timer (clock i) tw) zero_round ∙ before 0 (omega arith) in
    rw miss (
      wait_first fuel clock (k + 1) d tw (omega arith)
        (λ j lt.
          ap (λ (i : ℕ). compare_timer (clock i) tw) (shift k j) ∙ before (suc j) (omega arith))
        (ap (λ (i : ℕ). compare_timer (clock i) tw) (shift k d) ∙ hit)
      ∙ ap (λ (i : ℕ). some i) (shift k d))

wait_never :
    (fuel : ℕ) (clock : ℕ → ℕ) (k : ℕ) (tw : TimerWait)
    → ((j : ℕ) → compare_timer (clock j) tw ≡ false)
    → wait fuel clock k tw ≡ none
unfolding wait
wait_never zero clock k tw miss = refl
wait_never (suc fuel) clock k tw miss = rw (miss k) (wait_never fuel clock (k + 1) tw miss)

-- If `usec` is from 1 to 2 ^ 31 - 1, the first reading of the timer is not 0 and the timer does not
-- wrap around within the wait, `usleep` returns at the first later reading that has reached the first
-- one plus `usec`.
pub usleep_lem :
    (fuel : ℕ) (clock : ℕ → ℕ) (usec d : ℕ)
    → 0 < clock 0
    → 0 < usec
    → usec < 2 ^ 31
    → clock 0 + usec < 2 ^ 32
    → d < fuel
    → ((j : ℕ) → j < d → clock (1 + j) < clock 0 + usec)
    → clock 0 + usec ≤ clock (1 + d)
    → usleep fuel clock usec ≡ some (1 + d)
unfolding usleep register_timer compare_timer
usleep_lem fuel clock usec d started some_time small no_wrap enough before reached =
    wait_first fuel clock 1 d (register_timer (clock 0) usec) enough
      (λ j lt. ground (arith, before j lt)) (ground arith)

-- If the first reading of the timer is not 0, `usec` is below 2 ^ 31, and the trigger wraps around to a
-- value that is not 0, or `usec` is 0, `usleep` never returns, whatever the timer reads after that: the
-- flag that it waits for is cleared in a copy only.
pub usleep_hangs :
    (fuel : ℕ) (clock : ℕ → ℕ) (usec : ℕ)
    → 0 < clock 0
    → usec < 2 ^ 31
    → 0 < (clock 0 + usec) % 2 ^ 32
    → (clock 0 + usec) % 2 ^ 32 ≤ clock 0
    → usleep fuel clock usec ≡ none
unfolding usleep register_timer compare_timer
usleep_hangs fuel clock usec started small nonzero wrapped =
    wait_never fuel clock 1 (register_timer (clock 0) usec) (λ j. ground arith)
