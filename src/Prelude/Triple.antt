-- ===== src/Prelude/Triple.antt =====
-- Runs that return: what holds after a command of what held before it.
use mathlib.Core.Path.{◌≡◌, ap, subst}
use mathlib.Core.Option.{Option, none, some}
use raspberry_pi_3_jos.Prelude.State.{Cmd, pure, ◌>>=◌, ◌>>◌, get, modify, and_then-eq-some}

-- If `P` holds before the command and it returns, `Q` holds of its result and the state behind it.
abbrev pub Triple : {S A : Type 0} → (S → Type 0) → Cmd S A → (A → S → Type 0) → Type 0
Triple {S} {A} P m Q = (s : S) → P s → (a : A) (t : S) → m s ≡ some (a, t) → Q a t

value : {A : Type 0} → A → Option A → A
value d none = d
value d (some a) = a

pub returned :
    {S A : Type 0} (Q : A → S → Type 0) {a b : A} {s t : S}
    → ◌≡◌ {A = Option (A × S)} (some (a, s)) (some (b, t))
    → Q a s
    → Q b t
unfolding value
returned {S} {A} Q {a} {b} {s} {t} e h =
    subst (λ (r : A × S). Q r.0 r.1) (ap (value {A = A × S} (a, s)) e) h

pub Triple-pure :
    {S A : Type 0} {P : S → Type 0} (Q : A → S → Type 0) (a : A)
    → ((s : S) → P s → Q a s)
    → Triple P (pure a) Q
Triple-pure Q a h s p b t e = returned Q e (h s p)

pub Triple-modify :
    {S : Type 0} {P : S → Type 0} (Q : S → Type 0) (f : S → S)
    → ((s : S) → P s → Q (f s))
    → Triple P (modify f) (λ _. Q)
Triple-modify Q f h s p b t e = returned (λ _. Q) e (h s p)

pub Triple-bind :
    {S A B : Type 0} {P : S → Type 0} {Q : A → S → Type 0} {R : B → S → Type 0} {m : Cmd S A}
    {k : A → Cmd S B}
    → Triple P m Q
    → ((a : A) → Triple (Q a) (k a) R)
    → Triple P (m >>= k) R
Triple-bind {S} {A} {B} {P} {Q} {R} {m} {k} h g s p b t e =
    let (a, u, first, rest) = and_then-eq-some (m s) k e in g a u (h s p a u first) b t rest

pub Triple-then :
    {S A B : Type 0} {P Q : S → Type 0} {R : B → S → Type 0} {m : Cmd S A} {k : Cmd S B}
    → Triple P m (λ _. Q)
    → Triple Q k R
    → Triple P (m >> k) R
Triple-then {S} {A} {B} {P} {Q} {R} {m} {k} h g s p b t e =
    let (a, u, first, rest) = and_then-eq-some (m s) (λ _. k) e in g u (h s p a u first) b t rest

-- A command that looks at the state first.
pub Triple-get :
    {S A : Type 0} {P : S → Type 0} {R : A → S → Type 0} {k : S → Cmd S A}
    → ((s : S) → Triple P (k s) R)
    → Triple P (get >>= k) R
Triple-get {S} {A} {P} {R} {k} h s p a t e = h s s p a t e
