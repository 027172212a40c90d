-- ===== src/Pmap/Root.antt =====
-- A page that becomes a page directory, as `env_setup_vm` makes one.
use raspberry_pi_3_jos.Prelude.{
  ℕ, suc, ◌<◌, ◌≡◌, sym, ap, ◌∙◌, ◌≢◌, inl, inr, true, List, ◌∷◌, arith, ◌==◌, Bool-cases, ==_iff,
}
use mathlib.Core.Path.{subst}
use raspberry_pi_3_jos.Queue.{update}
use raspberry_pi_3_jos.Mmu.{npage, is_valid, page2kva}
use raspberry_pi_3_jos.Mmu.Fields.{is_valid-eq}
use raspberry_pi_3_jos.Pmap.{Pmap, raise_ref}
use raspberry_pi_3_jos.Pmap.Alloc.{taken, taken-IsFree, bzero_page}
use raspberry_pi_3_jos.Pmap.Tables.{word, word_outside, IsPaged, IsTree, Grows}

-- The state after the page was allocated and counted.
abbrev pub rooted : ℕ → Pmap → Pmap
rooted x s = raise_ref x (taken x s)

module _ {s : Pmap} {level : ℕ → ℕ} {x : ℕ} {xs : List ℕ} (v : IsPaged s level (x ∷ xs)) where
  abbrev pub root_level : ℕ → ℕ
  root_level = update level x 1

  was_free : level x ≡ 0
  was_free = v.free x (ground arith)

  root_bound : x < npage
  root_bound = v.alloc.bounds.0

  other_level : (p : ℕ) → p ≢ x → root_level p ≡ level p
  other_level p ne = ground arith

  rooted-new : (i : ℕ) → i < 512 → (rooted x s).mem (word x i) ≡ 0
  unfolding raise_ref
  rooted-new i h = (bzero_page (page2kva x) s.mem).0 i h

  pub rooted-away :
      (p i : ℕ) → p < npage → i < 512 → p ≢ x → (rooted x s).mem (word p i) ≡ s.mem (word p i)
  unfolding raise_ref
  rooted-away p i b h ne =
      (bzero_page (page2kva x) s.mem).1 (word p i) (word_outside p x i b root_bound h ne)

  empty : (i : ℕ) → i < 512 → is_valid ((rooted x s).mem (word x i)) ≢ true
  empty i h e = cc (sym e ∙ ap is_valid (rooted-new i h) ∙ is_valid-eq 0)

  no_entry : (p i : ℕ) → i < 512 → is_valid ((rooted x s).mem (word p i)) ≡ true → p ≢ x
  no_entry p i h e same =
      empty i h (subst (λ r. is_valid ((rooted x s).mem (word r i)) ≡ true) same e)

  rooted-IsTree : IsTree s.mem level → IsTree (rooted x s).mem root_level
  rooted-IsTree tree a j a' j' q la ha lb hb k k' n n' =
      let ne = no_entry a j k n.valid in
      let ne' = no_entry a' j' k' n'.valid in
      let same = other_level a ne in
      let same' = other_level a' ne' in
      let table : level a ≢ 0 = λ z. la (same ∙ z) in
      let table' : level a' ≢ 0 = λ z. lb (same' ∙ z) in
      let kept = rooted-away a j (v.tables a table) k ne in
      let kept' = rooted-away a' j' (v.tables a' table') k' ne' in
      tree a j a' j' q table (rw same at ha) table' (rw same' at hb) k k'
        (record { valid = rw kept at n.valid; target = rw kept at n.target })
        (record { valid = rw kept' at n'.valid; target = rw kept' at n'.target })

  pub rooted-Grows : Grows s level (rooted x s) root_level
  unfolding raise_ref
  rooted-Grows = record {
    keeps_level = λ p h. other_level p (λ e. h (ap level e ∙ was_free));
    keeps_entry =
        λ p i h k e. rooted-away p i (v.tables p h) k (λ same. h (ap level same ∙ was_free));
    keeps_ref = λ y h. ground arith;
    keeps_table_ref = λ y h. let ne : y ≢ x = λ same. h (ap level same ∙ was_free) in ground arith;
    keeps_data = λ q i h k e.
        let here : root_level x ≡ 1 = ground arith in
        rooted-away q i h k (λ same. omega (arith, ap root_level same, here));
    keeps_tree = rooted-IsTree;
  }

  pub rooted-IsPaged : IsPaged (rooted x s) root_level xs
  unfolding raise_ref
  rooted-IsPaged = record {
    alloc = let t = taken-IsFree v.alloc in record { queue = t.queue; bounds = t.bounds };
    tables = λ p h. elim (Bool-cases (p == x)) [
      | inl e ↦ rw ((==_iff p x).0 e) root_bound
      | inr e ↦ v.tables p (ground arith)
    ];
    free =
        λ y h. other_level y (ground (arith, v.alloc.queue.distinct.0)) ∙ v.free y (ground arith);
    entries = λ p i lo hi h valid.
        let ne = no_entry p i h valid in
        let same = other_level p ne in
        let kept = rooted-away p i (v.tables p (ground arith)) h ne in
        let old = v.entries p i (rw same at lo) (rw same at hi) h (rw kept at valid) in
        (
          old.0,
          rw kept old.1,
          other_level old.0 (λ e. omega (arith, ap level e, was_free, old.2))
              ∙ old.2
              ∙ ap suc (sym same),
        );
  }
