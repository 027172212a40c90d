-- ===== src/Prelude/State.antt =====
-- Stateful code that may panic: `none` is a run that ends in `panic`, which never returns.
use Prim.Native.Nat.{ℕ}
use mathlib.Core.Path.{◌≡◌, refl, ap}
use mathlib.Core.Option.{Option, none, some}

abbrev pub Cmd : Type 0 → Type 0 → Type 0
Cmd S A = S → Option (A × S)

-- What a C function returns that gives a negative code or 0 with a value.
pub data Result (A : Type 0) : Type 0 where
  ok : A → Result A
  err : ℕ → Result A

abbrev pub pure : {S A : Type 0} → A → Cmd S A
pure a s = some (a, s)

abbrev pub panic : {S A : Type 0} → Cmd S A
panic s = none

abbrev pub and_then : {S A B : Type 0} → Option (A × S) → (A → Cmd S B) → Option (B × S)
and_then none f = none
and_then (some (a, s)) f = f a s

infixl 5 ◌>>=◌ ◌>>◌
abbrev pub ◌>>=◌ : {S A B : Type 0} → Cmd S A → (A → Cmd S B) → Cmd S B
◌>>=◌ m f s = and_then (m s) f

abbrev pub ◌>>◌ : {S A B : Type 0} → Cmd S A → Cmd S B → Cmd S B
◌>>◌ m k s = and_then (m s) (λ _. k)

abbrev pub get : {S : Type 0} → Cmd S S
get s = some (s, s)

abbrev pub modify : {S : Type 0} → (S → S) → Cmd S (Unit {0})
modify f s = some (tt, f s)

-- The first step of a run that returns has returned.
pub and_then-eq-some :
    {S A B : Type 0} (r : Option (A × S)) (f : A → Cmd S B) {b : B} {t : S}
    → and_then r f ≡ some (b, t)
    → (a : A) × (s : S) × (r ≡ some (a, s)) × (f a s ≡ some (b, t))
and_then-eq-some none f e = absurd (cc)
and_then-eq-some (some (a, s)) f e = (a, s, refl, e)

-- A first step that returns is followed by the rest.
pub bind_some :
    {S A B : Type 0} (m : Cmd S A) (k : A → Cmd S B) (s : S) {a : A} {t : S}
    → m s ≡ some (a, t)
    → (m >>= k) s ≡ k a t
bind_some m k s e = ap (λ r. and_then r k) e
