-- ===== src/Pmap/Bytes.antt =====
-- Bytes of the memory: `bcopy` into a page.
use raspberry_pi_3_jos.Prelude.{
  ℕ, zero, suc, ◌+◌, ◌*◌, ◌/◌, ◌%◌, ◌≤◌, ◌<◌, ◌≡◌, refl, sym, ap, ◌∙◌, ◌⊎◌, inl, inr, arith, ◌==◌,
  ltb, if◌then◌else◌, Bool-cases, ==_iff, ◌≢◌,
}
use raspberry_pi_3_jos.Mmu.{npage, page2kva}
use raspberry_pi_3_jos.Mmu.Fields.{page2kva-eq}
use raspberry_pi_3_jos.Pmap.{lane, put_lane, byte_at, put_byte, bcopy_bytes, bcopy_ints, bcopy}
use raspberry_pi_3_jos.Pmap.Tables.{word}

lane-put_lane_same : (k v w : ℕ) → lane k (put_lane k v w) ≡ v % 256
unfolding lane put_lane
lane-put_lane_same zero v w = omega arith
lane-put_lane_same (suc k) v w = ap (lane k) (omega arith) ∙ lane-put_lane_same k v (w / 256)

lane-put_lane_other : (j k v w : ℕ) → j ≢ k → lane j (put_lane k v w) ≡ lane j w
unfolding lane put_lane
lane-put_lane_other zero zero v w ne = absurd (ne refl)
lane-put_lane_other zero (suc k) v w ne = omega arith
lane-put_lane_other (suc j) zero v w ne = ap (lane j) (omega arith)
lane-put_lane_other (suc j) (suc k) v w ne =
    ap (lane j) (omega arith) ∙ lane-put_lane_other j k v (w / 256) (λ e. ne (ap suc e))

put_byte-here : (a v : ℕ) (mem : ℕ → ℕ) → byte_at (put_byte a v mem) a ≡ v % 256
unfolding byte_at put_byte
put_byte-here a v mem = ground (arith, lane-put_lane_same (a % 8) v (mem (a / 8 * 8)))

put_byte-other :
    (a v : ℕ) (mem : ℕ → ℕ) (b : ℕ) → b ≢ a → byte_at (put_byte a v mem) b ≡ byte_at mem b
unfolding byte_at put_byte
put_byte-other a v mem b ne = elim (Bool-cases (b / 8 * 8 == a / 8 * 8)) [
  | inl e ↦
      let same : b / 8 * 8 ≡ a / 8 * 8 = (==_iff (b / 8 * 8) (a / 8 * 8)).0 e in
      let lanes : b % 8 ≢ a % 8 = λ f. ne (omega arith) in
      rw e (
        lane-put_lane_other (b % 8) (a % 8) v (mem (a / 8 * 8)) lanes
        ∙ ap (λ (t : ℕ). lane (b % 8) (mem t)) (sym same))
  | inr e ↦ rw e refl
]

-- A word without the byte stays.
put_byte-word :
    (a v : ℕ) (mem : ℕ → ℕ) (b : ℕ) → (b + 8 ≤ a) ⊎ (a < b) → b % 8 ≡ 0 → put_byte a v mem b ≡ mem b
unfolding put_byte
put_byte-word a v mem b far whole = let ne : b ≢ a / 8 * 8 = λ e. omega arith in ground arith

bcopy_bytes-outside :
    (n : ℕ) (image : ℕ → ℕ) (src dst : ℕ) (mem : ℕ → ℕ) (a : ℕ)
    → (a < dst) ⊎ (dst + n ≤ a)
    → byte_at (bcopy_bytes n image src dst mem) a ≡ byte_at mem a
unfolding bcopy_bytes
bcopy_bytes-outside zero image src dst mem a h = refl
bcopy_bytes-outside (suc n) image src dst mem a h =
    bcopy_bytes-outside n image (src + 1) (dst + 1) (put_byte dst (image src) mem) a (omega arith)
    ∙ put_byte-other dst (image src) mem a (λ e. omega arith)

bcopy_bytes-inside :
    (n : ℕ) (image : ℕ → ℕ) (src dst : ℕ) (mem : ℕ → ℕ) (i : ℕ)
    → i < n
    → byte_at (bcopy_bytes n image src dst mem) (dst + i) ≡ image (src + i) % 256
unfolding bcopy_bytes
bcopy_bytes-inside zero image src dst mem i h = absurd (omega arith)
bcopy_bytes-inside (suc n) image src dst mem zero h =
    let here : dst + 0 ≡ dst = omega arith in
    let there : src + 0 ≡ src = omega arith in
    rw (here, there)
      (bcopy_bytes-outside n image (src + 1) (dst + 1) (put_byte dst (image src) mem) dst
          (omega arith)
        ∙ put_byte-here dst (image src) mem)
bcopy_bytes-inside (suc n) image src dst mem (suc i) h =
    let here : dst + suc i ≡ dst + 1 + i = omega arith in
    let there : src + suc i ≡ src + 1 + i = omega arith in
    rw (here, there)
      (bcopy_bytes-inside n image (src + 1) (dst + 1) (put_byte dst (image src) mem) i
        (omega arith))

-- A word apart from the bytes stays.
pub bcopy_bytes-word :
    (n : ℕ) (image : ℕ → ℕ) (src dst : ℕ) (mem : ℕ → ℕ) (b : ℕ)
    → (b + 8 ≤ dst) ⊎ (dst + n ≤ b)
    → b % 8 ≡ 0
    → bcopy_bytes n image src dst mem b ≡ mem b
unfolding bcopy_bytes
bcopy_bytes-word zero image src dst mem b h whole = refl
bcopy_bytes-word (suc n) image src dst mem b h whole =
    bcopy_bytes-word n image (src + 1) (dst + 1) (put_byte dst (image src) mem) b (omega arith)
      whole
    ∙ put_byte-word dst (image src) mem b (omega arith) whole

bcopy_bytes-append :
    (n m : ℕ) (image : ℕ → ℕ) (src dst : ℕ) (mem : ℕ → ℕ)
    → bcopy_bytes m image (src + n) (dst + n) (bcopy_bytes n image src dst mem)
      ≡ bcopy_bytes (n + m) image src dst mem
unfolding bcopy_bytes
bcopy_bytes-append zero m image src dst mem =
    let here : dst + 0 ≡ dst = omega arith in
    let there : src + 0 ≡ src = omega arith in
    let none_more : 0 + m ≡ m = omega arith in rw (here, there, none_more) refl
bcopy_bytes-append (suc n) m image src dst mem =
    let here : dst + suc n ≡ dst + 1 + n = omega arith in
    let there : src + suc n ≡ src + 1 + n = omega arith in
    let more : suc n + m ≡ suc (n + m) = omega arith in
    rw (here, there, more)
      (bcopy_bytes-append n m image (src + 1) (dst + 1) (put_byte dst (image src) mem))

bcopy_ints-bytes :
    (n : ℕ) (image : ℕ → ℕ) (src dst : ℕ) (mem : ℕ → ℕ)
    → bcopy_ints n image src dst mem ≡ bcopy_bytes (n * 4) image src dst mem
unfolding bcopy_ints
bcopy_ints-bytes zero image src dst mem = unfold bcopy_bytes in refl
bcopy_ints-bytes (suc n) image src dst mem =
    let more : suc n * 4 ≡ 4 + n * 4 = omega arith in
    rw more (
      bcopy_ints-bytes n image (src + 4) (dst + 4) (bcopy_bytes 4 image src dst mem)
      ∙ bcopy_bytes-append 4 (n * 4) image src dst mem)

-- `bcopy` copies the bytes one after the other.
pub bcopy-bytes :
    (image : ℕ → ℕ) (src dst len : ℕ) (mem : ℕ → ℕ)
    → bcopy image src dst len mem ≡ bcopy_bytes len image src dst mem
unfolding bcopy
bcopy-bytes image src dst len mem =
    let all : len / 4 * 4 + len % 4 ≡ len = omega arith in
    rw (bcopy_ints-bytes (len / 4) image src dst mem) (
      bcopy_bytes-append (len / 4 * 4) (len % 4) image src dst mem
      ∙ ap (λ (k : ℕ). bcopy_bytes k image src dst mem) all)

-- The bytes of the page `p`.
abbrev pub Holds : (mem : ℕ → ℕ) → (p : ℕ) → (ℕ → ℕ) → Type 0
Holds mem p f = (k : ℕ) → k < 4096 → byte_at mem (page2kva p + k) ≡ f k

in_word : (p k : ℕ) → p < npage → k < 4096 → (page2kva p + k) / 8 * 8 ≡ word p (k / 8)
in_word p k h small = omega (arith, page2kva-eq p (omega arith))

-- A page with the words of another one has its bytes.
pub Holds-copy :
    (mem mem' : ℕ → ℕ) (p x : ℕ) (f : ℕ → ℕ)
    → p < npage
    → x < npage
    → ((i : ℕ) → i < 512 → mem' (word x i) ≡ mem (word p i))
    → Holds mem p f
    → Holds mem' x f
unfolding byte_at
Holds-copy mem mem' p x f h h' same holds k small =
    let lanes : (page2kva x + k) % 8 ≡ (page2kva p + k) % 8 =
      omega (arith, page2kva-eq p (omega (arith, h)), page2kva-eq x (omega (arith, h'))) in
    ap (λ (j : ℕ). lane j (mem' ((page2kva x + k) / 8 * 8))) lanes
    ∙ ap (lane ((page2kva p + k) % 8)) (
        ap mem' (in_word x k h' small)
        ∙ same (k / 8) (omega arith)
        ∙ ap mem (sym (in_word p k h small)))
    ∙ holds k small

-- A page whose words stay keeps its bytes.
pub Holds-keep :
    (mem mem' : ℕ → ℕ) (p : ℕ) (f : ℕ → ℕ)
    → p < npage
    → ((i : ℕ) → i < 512 → mem' (word p i) ≡ mem (word p i))
    → Holds mem p f
    → Holds mem' p f
Holds-keep mem mem' p f h = Holds-copy mem mem' p p f h h

lane_zero : (k : ℕ) → lane k 0 ≡ 0
unfolding lane
lane_zero zero = refl
lane_zero (suc k) = lane_zero k

pub Holds-zero :
    (mem : ℕ → ℕ) (p : ℕ)
    → p < npage
    → ((i : ℕ) → i < 512 → mem (word p i) ≡ 0)
    → Holds mem p (λ _. 0)
unfolding byte_at
Holds-zero mem p h zeros k small =
    ap (lane ((page2kva p + k) % 8)) (ap mem (in_word p k h small) ∙ zeros (k / 8) (omega arith))
    ∙ lane_zero ((page2kva p + k) % 8)

-- The page after `n` bytes were copied to its start.
pub bcopy-Holds :
    (image : ℕ → ℕ) (src p n : ℕ) (mem : ℕ → ℕ)
    → Holds mem p (λ _. 0)
    → Holds
        (bcopy image src (page2kva p) n mem)
        p
        (λ k. if ltb k n then image (src + k) % 256 else 0)
bcopy-Holds image src p n mem zeros k small =
    rw (bcopy-bytes image src (page2kva p) n mem) (elim (Bool-cases (ltb k n)) [
      | inl e ↦ rw e (bcopy_bytes-inside n image src (page2kva p) mem k (ground arith))
      | inr e ↦ rw e (
          bcopy_bytes-outside n image src (page2kva p) mem (page2kva p + k) (inr (ground arith))
          ∙ zeros k small)
    ])
