-- ===== src/Strings.antt =====
-- Strings and memory of user programs: OS/user/string.c, on a memory of bytes. Plain `char` is
-- unsigned on this processor. A loop that looks for a NUL has fuel.
pub mod Scan
pub mod Copy
use raspberry_pi_3_jos.Prelude.{
  ℕ, zero, suc, ◌+◌, ◌-◌, ◌*◌, ◌/◌, ◌%◌, Bool, true, false, not, ◌&&◌, Option, none, some, ◌==◌,
  ltb, if◌then◌else◌,
}
use raspberry_pi_3_jos.Queue.{update}

-- The loop of `strlen` after `n` characters.
unfoldable pub strlen_from : (fuel : ℕ) → (mem : ℕ → ℕ) → (s n : ℕ) → Option ℕ
strlen_from zero mem s n = none
strlen_from (suc fuel) mem s n =
    let rest = strlen_from fuel mem (s + 1) (n + 1) in if mem s == 0 then some n else rest

unfoldable pub strlen : (fuel : ℕ) → (mem : ℕ → ℕ) → (s : ℕ) → Option ℕ
strlen fuel mem s = strlen_from fuel mem s 0

unfoldable pub strcpy : (fuel : ℕ) → (dst src : ℕ) → (ℕ → ℕ) → Option (ℕ → ℕ)
strcpy zero dst src mem = none
strcpy (suc fuel) dst src mem =
    let rest = strcpy fuel (dst + 1) (src + 1) (update mem dst (mem src)) in
    if mem src == 0 then some (update mem dst (mem src)) else rest

-- The result of the loop: the address of the character, or NULL (`none` inside).
unfoldable pub strchr : (fuel : ℕ) → (mem : ℕ → ℕ) → (s c : ℕ) → Option (Option ℕ)
strchr zero mem s c = none
strchr (suc fuel) mem s c =
    let rest = strchr fuel mem (s + 1) c in
    if mem s == 0 then some none else if mem s == c then some (some s) else rest

-- `while (len-- > 0)`
unfoldable pub memcpy : (len dest src : ℕ) → (ℕ → ℕ) → ℕ → ℕ
memcpy zero dest src mem = mem
memcpy (suc len) dest src mem = memcpy len (dest + 1) (src + 1) (update mem dest (mem src))

-- The results -1, 0 and 1 of `strcmp`.
pub data Sign : Type 0 where
  below : Sign
  equal : Sign
  above : Sign

unfoldable pub compare_chars : (a b : ℕ) → Sign
compare_chars a b = if ltb a b then below else if ltb b a then above else equal

unfoldable pub strcmp : (fuel : ℕ) → (mem : ℕ → ℕ) → (p q : ℕ) → Option Sign
strcmp zero mem p q = none
strcmp (suc fuel) mem p q =
    let rest = strcmp fuel mem (p + 1) (q + 1) in
    if not (mem p == 0) && (mem p == mem q) then rest else some (compare_chars (mem p) (mem q))

-- `*(int *) dst = *(int *) src`: the four bytes are read before one is written.
pub copy_int : (src dst : ℕ) → (ℕ → ℕ) → ℕ → ℕ
copy_int src dst mem =
    update
      (update (update (update mem dst (mem src)) (dst + 1) (mem (src + 1))) (dst + 2)
        (mem (src + 2)))
      (dst + 3) (mem (src + 3))

unfoldable pub copy_ints : (rounds src dst : ℕ) → (ℕ → ℕ) → ℕ → ℕ
copy_ints zero src dst mem = mem
copy_ints (suc rounds) src dst mem = copy_ints rounds (src + 4) (dst + 4) (copy_int src dst mem)

-- `while (dst + 3 < max)` has a round for every whole int, and the second loop one for every byte
-- that is left.
unfoldable pub user_bcopy : (src dst len : ℕ) → (ℕ → ℕ) → ℕ → ℕ
user_bcopy src dst len mem =
    let whole = len / 4 in
    memcpy (len % 4) (dst + 4 * whole) (src + 4 * whole) (copy_ints whole src dst mem)

-- For `n` below 2 ^ 31: the code counts in an int.
unfoldable pub user_bzero : (n v : ℕ) → (ℕ → ℕ) → ℕ → ℕ
user_bzero zero v mem = mem
user_bzero (suc n) v mem = user_bzero n (v + 1) (update mem v 0)
