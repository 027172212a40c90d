-- ===== src/Queue/Chain.antt =====
-- What a queue stands for: the elements in order, linked both ways.
use raspberry_pi_3_jos.Prelude.{
  ℕ, ◌≡◌, ◌≢◌, ◌⊎◌, inl, inr, Bool, true, false, ◌||◌, Option, none, some, List, [], ◌∷◌, arith,
  ◌==◌, if◌then◌else◌, ◌∙◌, Bool-cases,
}
use raspberry_pi_3_jos.Queue.{Slot, first_of_head, next_of, Queue}

abbrev pub elem : ℕ → List ℕ → Bool
elem x [] = false
elem x (y ∷ ys) = (x == y) || elem x ys

abbrev pub Distinct : List ℕ → Type 0
Distinct [] = Unit {0}
Distinct (x ∷ xs) = (elem x xs ≡ false) × Distinct xs

abbrev pub erase : ℕ → List ℕ → List ℕ
erase x [] = []
erase x (y ∷ ys) = if x == y then ys else y ∷ erase x ys

-- From the pointer `p`, which stands at `slot`, the links lead through `xs` to NULL, and each
-- element names the slot that points at it.
abbrev pub Chain : Queue → Slot → Option ℕ → List ℕ → Type 0
Chain q slot p [] = p ≡ none
Chain q slot p (x ∷ xs) = (p ≡ some x) × (q.le_prev x ≡ slot) × Chain q (next_of x) (q.le_next x) xs

pub record IsQueue (q : Queue) (xs : List ℕ) : Type 0 where
  pub chain : Chain q first_of_head q.lh_first xs
  pub distinct : Distinct xs

-- A chain reads only the links of its own elements.
pub Chain-frame :
    (q q' : Queue) (slot : Slot) (p : Option ℕ) (xs : List ℕ)
    → ((y : ℕ) → elem y xs ≡ true → (q'.le_next y ≡ q.le_next y) × (q'.le_prev y ≡ q.le_prev y))
    → Chain q slot p xs
    → Chain q' slot p xs
Chain-frame q q' slot p [] same c = c
Chain-frame q q' slot p (x ∷ xs) same c =
    let here = same x (ground arith) in
    (
      c.0,
      here.1 ∙ c.1,
      rw here.0 (Chain-frame q q' (next_of x) (q.le_next x) xs (λ y h. same y (ground arith)) c.2),
    )

pub elem-erase : (x y : ℕ) (xs : List ℕ) → elem y xs ≡ false → elem y (erase x xs) ≡ false
elem-erase x y [] h = h
elem-erase x y (z ∷ zs) h = ground (arith, elem-erase x y zs)

pub Distinct-erase : (x : ℕ) (xs : List ℕ) → Distinct xs → Distinct (erase x xs)
Distinct-erase x [] d = d
Distinct-erase x (y ∷ ys) d = elim (Bool-cases (x == y)) [
  | inl e ↦ rw e d.1
  | inr e ↦ rw e (elem-erase x y ys d.0, Distinct-erase x ys d.1)
]

-- The slot of a later element is the link of an element before it.
pub Chain-prev :
    (q : Queue) (slot : Slot) (p : Option ℕ) (xs : List ℕ) (x : ℕ)
    → Chain q slot p xs
    → elem x xs ≡ true
    → (q.le_prev x ≡ slot) ⊎ ((w : ℕ) × (q.le_prev x ≡ next_of w) × (elem w xs ≡ true))
Chain-prev q slot p [] x c h = absurd (cc)
Chain-prev q slot p (y ∷ ys) x c h = elim (Bool-cases (x == y)) [
  | inl e ↦ inl (ground arith)
  | inr e ↦ elim (Chain-prev q (next_of y) (q.le_next y) ys x c.2 (ground arith)) [
    | inl f ↦ inr (y, f, ground arith)
    | inr (w, f, m) ↦ inr (w, f, ground arith)
  ]
]

-- What follows an element is an element.
pub Chain-next :
    (q : Queue) (slot : Slot) (p : Option ℕ) (xs : List ℕ) (x : ℕ)
    → Chain q slot p xs
    → elem x xs ≡ true
    → (q.le_next x ≡ none) ⊎ ((z : ℕ) × (q.le_next x ≡ some z) × (elem z xs ≡ true))
Chain-next q slot p [] x c h = absurd (cc)
Chain-next q slot p (y ∷ []) x c h = inl (ground arith)
Chain-next q slot p (y ∷ z ∷ zs) x c h = elim (Bool-cases (x == y)) [
  | inl e ↦ inr (z, ground arith, ground arith)
  | inr e ↦ elim (Chain-next q (next_of y) (q.le_next y) (z ∷ zs) x c.2 (ground arith)) [
    | inl f ↦ inl f
    | inr (w, f, m) ↦ inr (w, f, ground arith)
  ]
]

-- No element follows itself.
pub Chain-next_ne :
    (q : Queue) (slot : Slot) (p : Option ℕ) (xs : List ℕ) (x : ℕ)
    → Chain q slot p xs
    → Distinct xs
    → elem x xs ≡ true
    → q.le_next x ≢ some x
Chain-next_ne q slot p [] x c d h = absurd (cc)
Chain-next_ne q slot p (y ∷ []) x c d h = ground arith
Chain-next_ne q slot p (y ∷ z ∷ zs) x c d h =
    ground (arith, Chain-next_ne q (next_of y) (q.le_next y) (z ∷ zs) x c.2 d.1)
