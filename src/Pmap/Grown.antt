-- ===== src/Pmap/Grown.antt =====
-- A new table: a page that was free becomes the target of an entry.
use raspberry_pi_3_jos.Prelude.{
  ℕ, suc, ◌≤◌, ◌<◌, ◌≡◌, refl, sym, ap, ◌∙◌, ◌≢◌, ◌⊎◌, inl, inr, true, false, List, ◌∷◌, arith,
  ◌==◌, Bool-cases, ==_iff, bit_or,
}
use mathlib.Core.Path.{subst}
use raspberry_pi_3_jos.Queue.{update}
use raspberry_pi_3_jos.Mmu.{npage, pte_v, pte_addr, is_valid, page2pa, page2kva}
use raspberry_pi_3_jos.Mmu.Fields.{page2kva-eq, is_valid-eq, pte_addr-entry, is_valid-entry}
use raspberry_pi_3_jos.Pmap.{Pmap}
use raspberry_pi_3_jos.Pmap.Alloc.{IsFree, taken, taken-IsFree, bzero_page}
use raspberry_pi_3_jos.Pmap.Tables.{
  word, Names, IsPaged, IsTree, Grows, page2pa-injective, word_apart, word_outside,
}

-- The state after the entry at `e` was given the new table `x`.
abbrev pub grown : ℕ → ℕ → Pmap → Pmap
grown x e s = record (taken x s) {
  mem = update (taken x s).mem e (bit_or (page2pa x) pte_v);
  pp_ref = update (taken x s).pp_ref x 1;
}

module _ {s : Pmap} {level : ℕ → ℕ} {x : ℕ} {xs : List ℕ} (v : IsPaged s level (x ∷ xs)) (p i : ℕ)
    (lo : 1 ≤ level p) (hi : level p ≤ 3) (small : i < 512) where
  abbrev level' : ℕ → ℕ
  level' = update level x (suc (level p))

  new_level : level x ≡ 0
  new_level = v.free x (ground arith)

  here_level : level' x ≡ suc (level p)
  here_level = ground arith

  new_bound : x < npage
  new_bound = v.alloc.bounds.0

  table_bound : p < npage
  table_bound = v.tables p (omega arith)

  x_ne : x ≢ p
  x_ne e = omega (arith, new_level, ap level e)

  grown-here : (grown x (word p i) s).mem (word p i) ≡ bit_or (page2pa x) pte_v
  grown-here = ground arith

  -- A word of another page, other than the entry that was written.
  grown-away :
      (p' i' : ℕ)
      → p' < npage
      → i' < 512
      → p' ≢ x
      → word p' i' ≢ word p i
      → (grown x (word p i) s).mem (word p' i') ≡ s.mem (word p' i')
  grown-away p' i' h k ne far = ground (
    arith,
    (bzero_page (page2kva x) s.mem).1 (word p' i') (word_outside p' x i' h new_bound k ne),
  )

  pub grown-only :
      (q k : ℕ)
      → level q ≢ 0
      → k < 512
      → word q k ≢ word p i
      → (grown x (word p i) s).mem (word q k) ≡ s.mem (word q k)
  grown-only q k h b ne =
      grown-away q k (v.tables q h) b (λ e. h (ap level e ∙ v.free x (ground arith))) ne

  -- The new table is empty.
  grown-new : (i' : ℕ) → i' < 512 → (grown x (word p i) s).mem (word x i') ≡ 0
  grown-new i' k = ground (
    arith,
    (bzero_page (page2kva x) s.mem).0 i' k,
    word_apart x p i' i new_bound table_bound k small x_ne,
  )

  other_level : (p' : ℕ) → p' ≢ x → level' p' ≡ level p'
  other_level p' ne = ground arith

  pub grown-Names : Names (grown x (word p i) s).mem p i x
  grown-Names = record {
    valid = rw grown-here (is_valid-entry x pte_v (omega (arith, new_bound)) (omega arith) refl);
    target = rw grown-here (pte_addr-entry x pte_v (omega (arith, new_bound)) (omega arith));
  }

  empty : (i' : ℕ) → i' < 512 → is_valid ((grown x (word p i) s).mem (word x i')) ≢ true
  empty i' k e = cc (sym e ∙ ap is_valid (grown-new i' k) ∙ is_valid-eq 0)

  -- An entry after the growth is the new one, or one that was there and names another table.
  named_by :
      (p' i' q : ℕ)
      → level' p' ≢ 0
      → level' p' ≤ 3
      → i' < 512
      → Names (grown x (word p i) s).mem p' i' q
      → ((p' ≡ p) × (i' ≡ i) × (q ≡ x))
        ⊎ ((level p' ≢ 0) × (level p' ≤ 3) × (q ≢ x) × Names s.mem p' i' q)
  named_by p' i' q a b k n = elim (Bool-cases (p' == x)) [
    | inl e ↦
        let same : p' ≡ x = (==_iff p' x).0 e in
        absurd (
          empty i' k
            (subst (λ r. is_valid ((grown x (word p i) s).mem (word r i')) ≡ true) same n.valid))
    | inr e ↦
        let ne : p' ≢ x = ground arith in
        let keep = other_level p' ne in
        let table : level p' ≢ 0 = λ z. a (keep ∙ z) in
        let upper : level p' ≤ 3 = rw keep at b in
        let bound' : p' < npage = v.tables p' table in
        elim (Bool-cases (word p' i' == word p i)) [
          | inl f ↦
              let same : word p' i' ≡ word p i = (==_iff (word p' i') (word p i)).0 f in
              let target : page2pa q ≡ page2pa x =
                sym n.target
                ∙ ap (λ (y : ℕ). pte_addr ((grown x (word p i) s).mem y)) same
                ∙ grown-Names.target in
              let p_eq = page2kva-eq p (omega (arith, table_bound)) in
              let p'_eq = page2kva-eq p' (omega arith) in
              inl (
                omega (arith, p_eq, p'_eq),
                omega (arith, p_eq, p'_eq),
                page2pa-injective q x target,
              )
          | inr f ↦
              let kept = grown-away p' i' bound' k ne (ground arith) in
              let old : Names s.mem p' i' q = record {
                valid = rw kept at n.valid;
                target = rw kept at n.target;
              } in
              let named = v.entries p' i' (ground arith) upper k old.valid in
              let same_table : q ≡ named.0 =
                page2pa-injective q named.0 (sym old.target ∙ named.1) in
              inr (
                table,
                upper,
                (λ z. omega (arith, named.2, new_level, ap level (sym same_table ∙ z))),
                old,
              )
        ]
  ]

  grown-IsTree : IsTree s.mem level → IsTree (grown x (word p i) s).mem level'
  grown-IsTree tree a j a' j' q la ha lb hb k k' n n' = elim (named_by a j q la ha k n) [
    | inl (ea, ej, eq) ↦ elim (named_by a' j' q lb hb k' n') [
      | inl (ea', ej', eq') ↦ (ea ∙ sym ea', ej ∙ sym ej')
      | inr (l, h, ne, old) ↦ absurd (ne eq)
    ]
    | inr (l, h, ne, old) ↦ elim (named_by a' j' q lb hb k' n') [
      | inl (ea', ej', eq') ↦ absurd (ne eq')
      | inr (l', h', ne', old') ↦ tree a j a' j' q l h l' h' k k' old old'
    ]
  ]

  pub grown-Grows :
      is_valid (s.mem (word p i)) ≡ false → Grows s level (grown x (word p i) s) level'
  grown-Grows blank = record {
    keeps_level = λ p' h. other_level p' (λ e. h (ap level e ∙ new_level));
    keeps_entry = λ p' i' h k e.
        grown-away p' i' (v.tables p' h) k (λ same. h (ap level same ∙ new_level))
          (λ same. cc (sym e ∙ ap (λ (a : ℕ). is_valid (s.mem a)) same ∙ blank));
    keeps_ref = λ y h. ground arith;
    keeps_table_ref = λ y h. let ne : y ≢ x = λ same. h (ap level same ∙ new_level) in ground arith;
    keeps_data = λ q j h k e.
        let new : q ≢ x = λ same. omega (arith, here_level, ap level' same, e) in
        let old : level q ≡ 0 = sym (other_level q new) ∙ e in
        grown-away q j h k new
          (word_apart q p j i h table_bound k small (λ same. omega (arith, ap level same, old)));
    keeps_tree = grown-IsTree;
  }

  grown-IsFree : IsFree (grown x (word p i) s) xs
  grown-IsFree = let t = taken-IsFree v.alloc in record { queue = t.queue; bounds = t.bounds }

  grown-tables : (p' : ℕ) → level' p' ≢ 0 → p' < npage
  grown-tables p' h = elim (Bool-cases (p' == x)) [
    | inl e ↦ rw ((==_iff p' x).0 e) new_bound
    | inr e ↦ v.tables p' (ground arith)
  ]

  -- The entries of the table `p'` that was there before.
  old_entries :
      (p' i' : ℕ)
      → p' ≢ x
      → 1 ≤ level p'
      → level p' ≤ 3
      → i' < 512
      → is_valid ((grown x (word p i) s).mem (word p' i')) ≡ true
      → (q : ℕ) × (pte_addr ((grown x (word p i) s).mem (word p' i')) ≡ page2pa q)
        × (level' q ≡ suc (level p'))
  old_entries p' i' ne a b k valid = elim (Bool-cases (word p' i' == word p i)) [
    | inl e ↦
        let same : word p' i' ≡ word p i = (==_iff (word p' i') (word p i)).0 e in
        let bound' : p' < npage = v.tables p' (omega arith) in
        let page_same : p' ≡ p =
          omega (arith, page2kva-eq p (omega (arith, table_bound)), page2kva-eq p' (omega arith)) in
        (x, rw same grown-Names.target, rw page_same (ground arith))
    | inr e ↦
        let far : word p' i' ≢ word p i = ground arith in
        let kept = grown-away p' i' (v.tables p' (omega arith)) k ne far in
        let old = v.entries p' i' a b k (rw kept at valid) in
        (
          old.0,
          rw kept old.1,
          other_level old.0 (λ e'. absurd (omega (arith, ap level e', new_level, old.2))) ∙ old.2,
        )
  ]

  grown-entries :
      (p' i' : ℕ)
      → 1 ≤ level' p'
      → level' p' ≤ 3
      → i' < 512
      → is_valid ((grown x (word p i) s).mem (word p' i')) ≡ true
      → (q : ℕ) × (pte_addr ((grown x (word p i) s).mem (word p' i')) ≡ page2pa q)
        × (level' q ≡ suc (level' p'))
  grown-entries p' i' a b k valid = elim (Bool-cases (p' == x)) [
    | inl e ↦
        let same : p' ≡ x = (==_iff p' x).0 e in
        absurd (
          empty i' k
            (subst (λ r. is_valid ((grown x (word p i) s).mem (word r i')) ≡ true) same valid))
    | inr e ↦
        let ne : p' ≢ x = ground arith in
        let keep = other_level p' ne in
        let old = old_entries p' i' ne (rw keep at a) (rw keep at b) k valid in
        (old.0, old.1, old.2 ∙ ap suc (sym keep))
  ]

  pub grown-IsPaged : IsPaged (grown x (word p i) s) level' xs
  grown-IsPaged = record {
    alloc = grown-IsFree;
    tables = grown-tables;
    free = λ y h. other_level y (ground arith) ∙ v.free y (ground arith);
    entries = grown-entries;
  }
