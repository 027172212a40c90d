-- ===== src/Syscall/Entry.antt =====
-- `sys_pgtable_entry`, and `pageref` of OS/user/pageref.c, which asks for an entry.
use raspberry_pi_3_jos.Prelude.{
  ℕ, ◌/◌, ◌^◌, ◌<◌, ◌≡◌, ◌≢◌, refl, sym, ap, ◌∙◌, Option, none, some, false, arith, ◌==◌, bit_or,
  if◌then◌else◌,
}
use raspberry_pi_3_jos.Prelude.State.{Cmd, pure, get, and_then, ◌>>=◌}
use raspberry_pi_3_jos.Mmu.{npage, kaddr, pte_addr, page2pa, is_valid}
use raspberry_pi_3_jos.Mmu.Fields.{pte_addr-entry, is_valid-eq, is_valid-entry}
use raspberry_pi_3_jos.Pmap.{entry_perm, page_lookup}
use raspberry_pi_3_jos.Pmap.Leaf.{entry_perm-lt, entry_perm_valid}
use raspberry_pi_3_jos.Pmap.Maps.{Maps, page_lookup-Maps, page_lookup-kaddr}
use raspberry_pi_3_jos.Pmap.Absent.{Absent, page_lookup-Absent}
use raspberry_pi_3_jos.Env.{Kernel, on_pmap}
use raspberry_pi_3_jos.Env.Setup.{on_pmap-some}
use raspberry_pi_3_jos.Syscall.Ipc.{current-eq}
use raspberry_pi_3_jos.Syscall.{sys_pgtable_entry}

-- `counts` is what the window at UPAGES shows: `pp_ref` of each page, as a program reads it.
pub pageref : (counts : ℕ → ℕ) → (va : ℕ) → Cmd Kernel ℕ
pageref counts va = do
  pte ← sys_pgtable_entry va
  pure (if pte == 0 then 0 else counts (pte_addr pte / 2 ^ 12))

-- What the directory `p` maps `va` to: no page, or a page with its attributes.
abbrev pub Shows : (mem level : ℕ → ℕ) → (p va : ℕ) → Option (ℕ × ℕ) → Type 0
Shows mem level p va none = Absent mem level p va
Shows mem level p va (some (pp, perm)) =
    (pp < npage) × (perm < 4096) × Maps mem level p va pp (entry_perm perm)

abbrev entry_of : Option (ℕ × ℕ) → ℕ
entry_of none = 0
entry_of (some (pp, perm)) = bit_or (page2pa pp) (entry_perm perm)

-- The rest of `sys_pgtable_entry` behind its lookup.
answer : Option (ℕ × ℕ) → Cmd Kernel ℕ
answer found = get >>= λ t. pure (elim found [ none ↦ 0 | some (_, pte) ↦ t.pmap.mem pte ])

module _ (s : Kernel) (c p va : ℕ) (level : ℕ → ℕ) (running : s.curenv ≡ some c)
    (dir : (s.envs c).env_pgdir ≡ page2pa p) (bound : p < npage) where
  behind_lookup :
      (found : Option (ℕ × ℕ))
      → page_lookup (page2pa p) va s.pmap ≡ some (found, s.pmap)
      → sys_pgtable_entry va s ≡ answer found s
  unfolding sys_pgtable_entry answer
  behind_lookup found looks =
      ap
        (λ r.
          and_then r
            (λ d t. and_then (on_pmap (page_lookup (kaddr (t.envs d).env_pgdir) va) t) answer))
        (current-eq s c running)
      ∙ ap (λ r. and_then r answer)
          (on_pmap-some (page_lookup (kaddr (s.envs c).env_pgdir) va) s (
            ap (λ (d : ℕ). page_lookup (kaddr d) va s.pmap) dir
            ∙ page_lookup-kaddr p va s.pmap bound
            ∙ looks))

  sys_pgtable_entry_lem :
      (o : Option (ℕ × ℕ))
      → Shows s.pmap.mem level p va o
      → sys_pgtable_entry va s ≡ some (entry_of o, s)
  unfolding answer
  sys_pgtable_entry_lem none gone =
      behind_lookup none (page_lookup-Absent s.pmap level p va bound gone)
  sys_pgtable_entry_lem (some (pp, perm)) (in_range, small, m) =
      behind_lookup _ (page_lookup-Maps s.pmap level p va pp perm bound in_range small m)
      ∙ ap (λ (e : ℕ). some (e, s)) m.entry

-- An entry names its page and is not 0.
entry_page :
    (pp perm : ℕ)
    → pp < npage
    → perm < 4096
    → let e = bit_or (page2pa pp) (entry_perm perm) in (pte_addr e / 2 ^ 12 ≡ pp) × (e ≢ 0)
unfolding page2pa
entry_page pp perm h small =
    let lt = entry_perm-lt perm small in
    let three = entry_perm_valid perm in
    let named = pte_addr-entry pp (entry_perm perm) (omega arith) lt in
    let valid = is_valid-entry pp (entry_perm perm) (omega arith) lt three in
    (omega (arith, named), λ z. cc (sym valid ∙ ap is_valid z ∙ is_valid-eq 0))

abbrev pub count_of : (counts : ℕ → ℕ) → Option (ℕ × ℕ) → ℕ
count_of counts none = 0
count_of counts (some (pp, perm)) = counts pp

counted :
    (counts : ℕ → ℕ) (mem level : ℕ → ℕ) (p va : ℕ) (o : Option (ℕ × ℕ))
    → Shows mem level p va o
    → (if entry_of o == 0 then 0 else counts (pte_addr (entry_of o) / 2 ^ 12)) ≡ count_of counts o
counted counts mem level p va none gone = refl
counted counts mem level p va (some (pp, perm)) (in_range, small, m) =
    let (named, nonzero) = entry_page pp perm in_range small in
    let used : (bit_or (page2pa pp) (entry_perm perm) == 0) ≡ false = ground (arith, nonzero) in
    rw used (ap counts named)

-- For an address at which the caller's directory maps a page, or none, `pageref` gives what the window
-- shows as the count of that page, or 0, and changes nothing.
pub pageref_lem :
    (counts : ℕ → ℕ) (s : Kernel) (c p va : ℕ) (level : ℕ → ℕ) (o : Option (ℕ × ℕ))
    → s.curenv ≡ some c
    → (s.envs c).env_pgdir ≡ page2pa p
    → p < npage
    → Shows s.pmap.mem level p va o
    → pageref counts va s ≡ some (count_of counts o, s)
unfolding pageref
pageref_lem counts s c p va level o running dir bound shows =
    ap (λ r. and_then r (λ pte. pure (if pte == 0 then 0 else counts (pte_addr pte / 2 ^ 12))))
      (sys_pgtable_entry_lem s c p va level running dir bound o shows)
    ∙ ap (λ (n : ℕ). some (n, s)) (counted counts s.pmap.mem level p va o shows)
