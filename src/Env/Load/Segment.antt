-- ===== src/Env/Load/Segment.antt =====
-- A segment in a directory.
use raspberry_pi_3_jos.Prelude.{
  ℕ, ◌+◌, ◌-◌, ◌*◌, ◌^◌, ◌≤◌, ◌<◌, ◌≡◌, sym, ap, ◌∙◌, ◌≢◌, ◌⊎◌, inl, inr, List, arith, ltb,
  Bool-cases,
}
use mathlib.Core.Path.{subst}
use raspberry_pi_3_jos.Mmu.{by2pg}
use raspberry_pi_3_jos.Pmap.{Pmap}
use raspberry_pi_3_jos.Pmap.Tables.{IsPaged, IsTree}
use raspberry_pi_3_jos.Pmap.Maps.{vpn}
use raspberry_pi_3_jos.Env.Window.{Outside}
use raspberry_pi_3_jos.Env.Load.Frame.{Frame, Frame-refl, Frame-trans, Loaded, Loaded-keep}

-- `n` new pages from `va` on in the directory `p` have the count `c` and hold the bytes `content`.
pub record Segment (s : Pmap) (level : ℕ → ℕ) (xs : List ℕ) (c p va n : ℕ) (content : ℕ → ℕ)
    (t : Pmap) : Type 0 where
  pub frame : Frame s level xs n (Outside p va n) t
  pub pages :
      (i : ℕ)
      → i < n
      → Loaded t frame.levels frame.free c p (va + i * by2pg) (λ k. content (i * by2pg + k))

pub empty-Segment :
    (s : Pmap) (level : ℕ → ℕ) (xs : List ℕ) (c p va : ℕ) (content : ℕ → ℕ)
    → IsPaged s level xs
    → IsTree s.mem level
    → Segment s level xs c p va 0 content s
unfolding Frame-refl
empty-Segment s level xs c p va content v tree = record {
  frame = Frame-refl s level xs (Outside p va 0) v tree;
  pages = λ i h. absurd (omega arith);
}

-- A segment followed by another one.
module _ {s : Pmap} {level : ℕ → ℕ} {xs : List ℕ} {c p va n : ℕ} {content : ℕ → ℕ} {t : Pmap}
    (a : Segment s level xs c p va n content t) {m : ℕ} {u : Pmap}
    (b : Segment t a.frame.levels a.frame.free c p
      (va + n * by2pg)
      m
      (λ j. content (n * by2pg + j))
      u)
    (top : level p ≡ 1) (few : n + m < 2 ^ 27) where
  apart :
      (i : ℕ) → i < n → (j : ℕ) → j < m → vpn (va + i * by2pg) ≢ vpn (va + n * by2pg + j * by2pg)
  apart i h j k e = omega arith

  later :
      (i : ℕ)
      → i < n + m
      → n ≤ i
      → Loaded u b.frame.levels b.frame.free c p (va + i * by2pg) (λ k. content (i * by2pg + k))
  later i h more =
      let place : va + n * by2pg + (i - n) * by2pg ≡ va + i * by2pg = omega arith in
      let bytes : (k : ℕ) → content (n * by2pg + ((i - n) * by2pg + k)) ≡ content (i * by2pg + k) =
        λ k. ap content (omega arith) in
      let l = b.pages (i - n) (omega arith) in
      record {
        page = l.page;
        bound = l.bound;
        maps = rw (sym place) l.maps;
        count = l.count;
        holds = λ k h. l.holds k h ∙ bytes k;
        used = l.used;
        plain = l.plain;
      }

  both :
      (q v : ℕ) → Outside p va (n + m) q v → Outside p va n q v × Outside p (va + n * by2pg) m q v
  both q v far = (
    λ j h. far j (omega arith),
    λ j h. subst (λ x. (q ≢ p) ⊎ (vpn v ≢ vpn x)) (omega arith) (far (n + j) (omega arith)),
  )

  pub append-Segment : Segment s level xs c p va (n + m) content u
  unfolding Frame-trans
  append-Segment = record {
    frame = Frame-trans a.frame b.frame (Outside p va (n + m)) both;
    pages = λ i h. elim (Bool-cases (ltb i n)) [
      | inl e ↦
          Loaded-keep b.frame c p (va + i * by2pg) (λ k. content (i * by2pg + k))
            (a.frame.keeps_level p (λ z. omega arith) ∙ top)
            (λ j k. inr (apart i (ground arith) j k)) (a.pages i (ground arith))
      | inr e ↦ later i h (ground arith)
    ];
  }

-- A segment is told by its bytes alone.
pub recast-Segment :
    {s : Pmap} {level : ℕ → ℕ} {xs : List ℕ} {c p va n : ℕ} {f : ℕ → ℕ} {t : Pmap}
    → Segment s level xs c p va n f t
    → (va' : ℕ) (g : ℕ → ℕ) → va ≡ va'
    → ((k : ℕ) → k < n * by2pg → f k ≡ g k)
    → Segment s level xs c p va' n g t
recast-Segment {s} {level} {xs} {c} {p} {va} {n} {f} {t} a va' g moved same =
    subst (λ w. Segment s level xs c p w n g t) moved
      (record {
        frame = a.frame;
        pages = λ i h.
            let l = a.pages i h in
            record {
              page = l.page;
              bound = l.bound;
              maps = l.maps;
              count = l.count;
              holds = λ k small. l.holds k small ∙ same (i * by2pg + k) (omega arith);
              used = l.used;
              plain = l.plain;
            };
      })
