-- ===== src/Queue/Refine.antt =====
-- The list operations of queue.h implement the operations on the list of elements.
use raspberry_pi_3_jos.Prelude.{
  ℕ, ◌≡◌, refl, sym, ap, ◌∙◌, ◌≢◌, inl, inr, Bool, true, false, Option, none, some, List, [], ◌∷◌,
  arith, ◌==◌, if◌then◌else◌, Bool-cases, ==_iff,
}
use mathlib.Core.Path.{subst}
use raspberry_pi_3_jos.Queue.{
  Slot, first_of_head, next_of, Queue, list_init, list_insert_head, list_remove, set_prev, store,
}
use raspberry_pi_3_jos.Queue.Chain.{
  elem, Distinct, erase, Chain, IsQueue, Chain-frame, Distinct-erase, Chain-prev, Chain-next,
  Chain-next_ne,
}

-- `*slot`
abbrev deref : Queue → Slot → Option ℕ
deref q first_of_head = q.lh_first
deref q (next_of w) = q.le_next w

abbrev slot_eq : Slot → Slot → Bool
slot_eq first_of_head first_of_head = true
slot_eq first_of_head (next_of w) = false
slot_eq (next_of v) first_of_head = false
slot_eq (next_of v) (next_of w) = v == w

slot_eq_refl : (s : Slot) → slot_eq s s ≡ true
slot_eq_refl first_of_head = refl
slot_eq_refl (next_of w) = ground arith

abbrev points_at : Option ℕ → ℕ → Bool
points_at none w = false
points_at (some z) w = w == z

-- No element of `xs` holds the slot.
abbrev Fresh : Slot → List ℕ → Type 0
Fresh first_of_head xs = Unit {0}
Fresh (next_of w) xs = elem w xs ≡ false

-- The queue `q'` is `q` with the element `x` unlinked.
record Unlinked (q q' : Queue) (x : ℕ) : Type 0 where
  reads : (s : Slot) → deref q' s ≡ (if slot_eq s (q.le_prev x) then q.le_next x else deref q s)
  backs : (w : ℕ) → q'.le_prev w ≡ (if points_at (q.le_next x) w then q.le_prev x else q.le_prev w)

list_remove-Unlinked : (q : Queue) (x : ℕ) → q.le_next x ≢ some x → Unlinked q (list_remove x q) x
unfolding list_remove set_prev store
list_remove-Unlinked q x ne = record {
  reads = λ s. reads_at s (q.le_prev x) (q.le_next x) ne refl refl;
  backs = λ w. backs_at w (q.le_prev x) (q.le_next x) refl refl;
}
  where
    reads_at :
        (s t : Slot) (n : Option ℕ)
        → n ≢ some x
        → q.le_prev x ≡ t
        → q.le_next x ≡ n
        → deref (list_remove x q) s ≡ (if slot_eq s t then n else deref q s)
    reads_at first_of_head first_of_head n n_ne e e' = ground arith
    reads_at first_of_head (next_of v) n n_ne e e' = ground arith
    reads_at (next_of w) first_of_head n n_ne e e' = ground arith
    reads_at (next_of w) (next_of v) n n_ne e e' = ground arith

    backs_at :
        (w : ℕ) (t : Slot) (n : Option ℕ)
        → q.le_prev x ≡ t
        → q.le_next x ≡ n
        → (list_remove x q).le_prev w ≡ (if points_at n w then t else q.le_prev w)
    backs_at w first_of_head n e e' = ground arith
    backs_at w (next_of v) n e e' = ground arith

slot_eq-Fresh :
    (z : ℕ) (s : Slot) (xs : List ℕ)
    → Fresh s xs
    → elem z xs ≡ true
    → (slot_eq (next_of z) s ≡ false) × (slot_eq s (next_of z) ≡ false)
slot_eq-Fresh z first_of_head xs f h = (refl, refl)
slot_eq-Fresh z (next_of w) xs f h = (ground arith, ground arith)

Fresh-tail : (s : Slot) (y : ℕ) (ys : List ℕ) → Fresh s (y ∷ ys) → Fresh s ys
Fresh-tail first_of_head y ys f = tt
Fresh-tail (next_of w) y ys f = ground arith

module _ (q q' : Queue) (x : ℕ) (u : Unlinked q q' x) where
  unfolded_read :
      (s t : Slot) → q.le_prev x ≡ t → deref q' s ≡ (if slot_eq s t then q.le_next x else deref q s)
  unfolded_read s t e = u.reads s ∙ ap (λ r. if slot_eq s r then q.le_next x else deref q s) e

  -- The links behind the removed element are those that were there.
  behind-Chain :
      (slot : Slot) (ys : List ℕ)
      → q.le_prev x ≡ slot
      → Chain q (next_of x) (q.le_next x) ys
      → Fresh slot ys
      → Distinct ys
      → Chain q' slot (q.le_next x) ys
  behind-Chain slot [] at c f d = c
  behind-Chain slot (z ∷ zs) at c f d =
      let next_same : (y : ℕ) → elem y (z ∷ zs) ≡ true → q'.le_next y ≡ q.le_next y = λ y h.
        ground (arith, unfolded_read (next_of y) slot at, slot_eq-Fresh y slot (z ∷ zs) f h) in
      (
        c.0,
        ground (arith, u.backs z),
        rw (next_same z (ground arith)) (
            Chain-frame q q' (next_of z) (q.le_next z) zs
              (λ y h. (next_same y (ground arith), ground (arith, u.backs y))) c.2),
      )

  not_at :
      (slot : Slot) (p : Option ℕ) (y : ℕ) (ys : List ℕ)
      → Chain q (next_of y) p ys
      → Fresh slot (y ∷ ys)
      → elem x ys ≡ true
      → slot_eq slot (q.le_prev x) ≡ false
  not_at slot p y ys c f h = elim (Chain-prev q (next_of y) p ys x c h) [
    | inl e ↦ rw e (slot_eq-Fresh y slot (y ∷ ys) f (ground arith)).1
    | inr (w, e, m) ↦ rw e (slot_eq-Fresh w slot (y ∷ ys) f (ground arith)).1
  ]

  not_next :
      (slot : Slot) (p : Option ℕ) (y : ℕ) (ys : List ℕ)
      → Chain q slot p ys
      → elem y ys ≡ false
      → elem x ys ≡ true
      → points_at (q.le_next x) y ≡ false
  not_next slot p y ys c f h = elim (Chain-next q slot p ys x c h) [
    | inl e ↦ rw e
    | inr (z, e, m) ↦ rw e (ground arith)
  ]

remove-Chain :
    (q q' : Queue) (x : ℕ) (slot : Slot) (ys : List ℕ)
    → Unlinked q q' x
    → Chain q slot (deref q slot) ys
    → Fresh slot ys
    → Distinct ys
    → elem x ys ≡ true
    → Chain q' slot (deref q' slot) (erase x ys)
remove-Chain q q' x slot [] u c f d h = absurd (cc)
remove-Chain q q' x slot (y ∷ ys) u c f d h = elim (Bool-cases (x == y)) [
  | inl e ↦
      let same : x ≡ y = (==_iff x y).0 e in
      let at : q.le_prev x ≡ slot = ap q.le_prev same ∙ c.1 in
      rw (e, unfolded_read q q' x u slot slot at, slot_eq_refl slot)
        (behind-Chain q q' x u slot ys at
          (subst (λ t. Chain q (next_of t) (q.le_next t) ys) (sym same) c.2)
          (Fresh-tail slot y ys f) d.1)
  | inr e ↦ rw e (
    rw (u.reads slot, not_at q q' x u slot (q.le_next y) y ys c.2 f (ground arith)) (c.0),
    rw (u.backs y, not_next q q' x u (next_of y) (q.le_next y) y ys c.2 d.0 (ground arith)) (c.1),
    remove-Chain q q' x (next_of y) ys u c.2 d.0 d.1 (ground arith),
  )
]

-- LIST_INIT empties the list.
pub list_init-IsQueue : (q : Queue) → IsQueue (list_init q) []
unfolding list_init
list_init-IsQueue q = record { chain = refl; distinct = tt }

-- LIST_INSERT_HEAD puts an element that is not in the list in front of it.
pub list_insert_head-IsQueue :
    (q : Queue) (x : ℕ) (xs : List ℕ)
    → IsQueue q xs
    → elem x xs ≡ false
    → IsQueue (list_insert_head x q) (x ∷ xs)
unfolding list_insert_head set_prev
list_insert_head-IsQueue q x [] v out = record {
  chain = ground arith;
  distinct = (out, v.distinct);
}
list_insert_head-IsQueue q x (y ∷ ys) v out =
    let q' = list_insert_head x q in
    let first = v.chain.0 in
    let y_next : q'.le_next y ≡ q.le_next y = ground arith in
    let same : (w : ℕ)
        → elem w ys ≡ true
        → (q'.le_next w ≡ q.le_next w) × (q'.le_prev w ≡ q.le_prev w) =
      λ w h. (ground arith, ground arith) in
    record {
      chain = (
        refl,
        ground arith,
        (
          ground arith,
          ground arith,
          subst (λ p. Chain q' (next_of y) p ys) (sym y_next)
              (Chain-frame q q' (next_of y) (q.le_next y) ys same v.chain.2),
        ),
      );
      distinct = (out, v.distinct);
    }

-- LIST_REMOVE takes an element out of the list, wherever it stands.
pub list_remove-IsQueue :
    (q : Queue) (x : ℕ) (xs : List ℕ)
    → IsQueue q xs
    → elem x xs ≡ true
    → IsQueue (list_remove x q) (erase x xs)
list_remove-IsQueue q x xs v h = record {
  chain =
      remove-Chain q (list_remove x q) x first_of_head xs
        (list_remove-Unlinked q x
          (Chain-next_ne q first_of_head q.lh_first xs x v.chain v.distinct h))
        v.chain tt v.distinct h;
  distinct = Distinct-erase x xs v.distinct;
}
