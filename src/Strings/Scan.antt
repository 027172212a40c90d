-- ===== src/Strings/Scan.antt =====
-- `strlen` and `strcmp` on strings in memory.
use raspberry_pi_3_jos.Prelude.{
  ℕ, zero, suc, ◌+◌, ◌<◌, ◌≡◌, ap, ◌∙◌, ◌≢◌, some, List, [], ◌∷◌, arith, ltb, if◌then◌else◌, length,
}
use raspberry_pi_3_jos.Strings.{
  strlen_from, strlen, Sign, below, equal, above, compare_chars, strcmp,
}

-- At `s` stand the characters, none of them NUL, and then a NUL.
abbrev pub IsString : (ℕ → ℕ) → ℕ → List ℕ → Type 0
IsString mem s [] = mem s ≡ 0
IsString mem s (c ∷ cs) = (mem s ≡ c) × (c ≢ 0) × IsString mem (s + 1) cs

strlen_from_lem :
    (fuel : ℕ) (mem : ℕ → ℕ) (s n : ℕ) (cs : List ℕ)
    → IsString mem s cs
    → length cs < fuel
    → strlen_from fuel mem s n ≡ some (n + length cs)
unfolding strlen_from
strlen_from_lem zero mem s n cs h lt = absurd (omega arith)
strlen_from_lem (suc fuel) mem s n [] h lt = ground arith
strlen_from_lem (suc fuel) mem s n (c ∷ cs) h lt =
    ground (arith, strlen_from_lem fuel mem (s + 1) (n + 1) cs h.2 (omega arith))

-- `strlen` returns the number of characters before the NUL.
pub strlen_lem :
    (fuel : ℕ) (mem : ℕ → ℕ) (s : ℕ) (cs : List ℕ)
    → IsString mem s cs
    → length cs < fuel
    → strlen fuel mem s ≡ some (length cs)
unfolding strlen
strlen_lem fuel mem s cs h lt =
    strlen_from_lem fuel mem s 0 cs h lt ∙ ap (λ (n : ℕ). some n) (omega arith)

-- The order of strings by their characters: a prefix comes first.
unfoldable pub compare_strings : List ℕ → List ℕ → Sign
compare_strings [] [] = equal
compare_strings [] (d ∷ ds) = below
compare_strings (c ∷ cs) [] = above
compare_strings (c ∷ cs) (d ∷ ds) =
    if ltb c d then below else if ltb d c then above else compare_strings cs ds

-- `strcmp` returns, with the sign of the order of the two strings.
pub strcmp_lem :
    (fuel : ℕ) (mem : ℕ → ℕ) (p q : ℕ) (cs ds : List ℕ)
    → IsString mem p cs
    → IsString mem q ds
    → length cs < fuel
    → strcmp fuel mem p q ≡ some (compare_strings cs ds)
unfolding strcmp compare_chars compare_strings
strcmp_lem zero mem p q cs ds hp hq lt = absurd (omega arith)
strcmp_lem (suc fuel) mem p q [] [] hp hq lt = ground arith
strcmp_lem (suc fuel) mem p q [] (d ∷ ds) hp hq lt = ground arith
strcmp_lem (suc fuel) mem p q (c ∷ cs) [] hp hq lt = ground arith
strcmp_lem (suc fuel) mem p q (c ∷ cs) (d ∷ ds) hp hq lt =
    ground (arith, strcmp_lem fuel mem (p + 1) (q + 1) cs ds hp.2 hq.2 (omega arith))
