-- ===== src/Examples/Library.antt =====
-- Strings in a small memory, and waits on a timer that ticks once for each reading.
use raspberry_pi_3_jos.Prelude.{
  ℕ, ◌+◌, ◌≡◌, refl, none, some, List, [], ◌∷◌, arith, ◌==◌, if◌then◌else◌,
}
use raspberry_pi_3_jos.Strings.{strcmp, memcpy}
use raspberry_pi_3_jos.Strings.Scan.{IsString, strcmp_lem, compare_strings}
use raspberry_pi_3_jos.Strings.Copy.{IsCopy, memcpy-IsCopy}
use raspberry_pi_3_jos.Timer.{usleep}
use raspberry_pi_3_jos.Timer.Waits.{usleep_lem, usleep_hangs}

-- "ab" at 100 and "ac" at 200.
abbrev memory : ℕ → ℕ
memory a =
    if a == 100
    then 97
    else if a == 101
    then 98
    else if a == 200
    then 97
    else if a == 201
    then 99
    else 0

abbrev ab : List ℕ
ab = 97 ∷ 98 ∷ []

abbrev ac : List ℕ
ac = 97 ∷ 99 ∷ []

ab-IsString : IsString memory 100 ab
ab-IsString = (refl, (λ e. omega (arith, e)), (refl, (λ e. omega (arith, e)), refl))

ac-IsString : IsString memory 200 ac
ac-IsString = (refl, (λ e. omega (arith, e)), (refl, (λ e. omega (arith, e)), refl))

strcmp_example : strcmp 9 memory 100 200 ≡ some (compare_strings ab ac)
strcmp_example = strcmp_lem 9 memory 100 200 ab ac ab-IsString ac-IsString (omega arith)

memcpy_example : IsCopy 300 100 3 memory (memcpy 3 300 100 memory)
memcpy_example = memcpy-IsCopy 3 300 100 memory (omega arith)

usleep_example : usleep 10 (λ k. 1000 + k) 5 ≡ some 5
usleep_example =
    usleep_lem 10 (λ k. 1000 + k) 5 4 (omega arith) (omega arith) (omega arith) (omega arith)
      (omega arith) (λ j h. omega arith) (omega arith)

usleep_hangs_example : usleep 10 (λ k. 1000 + k) 0 ≡ none
usleep_hangs_example =
    usleep_hangs 10 (λ k. 1000 + k) 0 (omega arith) (omega arith) (omega arith) (omega arith)
