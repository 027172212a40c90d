-- ===== src/Boot/Programs.antt =====
-- What `load_program` leaves in the array `program`.
use raspberry_pi_3_jos.Prelude.{
  ℕ, zero, suc, ◌+◌, ◌-◌, ◌*◌, ◌/◌, ◌%◌, ◌^◌, ◌≤◌, ◌<◌, ◌≡◌, ◌⊎◌, refl, ap, ◌∙◌, inl, inr, arith,
  ◌==◌, Bool-cases, ltb, if◌then◌else◌,
}
use raspberry_pi_3_jos.Queue.{update}
use raspberry_pi_3_jos.Boot.{copy_sector, load_sectors, load_program}

copy_sector-outside :
    (n : ℕ) (buf : ℕ → ℕ) (pos j : ℕ) (program : ℕ → ℕ) (a : ℕ)
    → (a < pos + j) ⊎ (pos + j + n ≤ a)
    → copy_sector n buf pos j program a ≡ program a
unfolding copy_sector
copy_sector-outside zero buf pos j program a h = refl
copy_sector-outside (suc n) buf pos j program a h =
    copy_sector-outside n buf pos (j + 1) (update program (pos + j) (buf j)) a (ground arith)
    ∙ ground arith

copy_sector-inside :
    (n : ℕ) (buf : ℕ → ℕ) (pos j : ℕ) (program : ℕ → ℕ) (a : ℕ)
    → pos + j ≤ a
    → a < pos + j + n
    → copy_sector n buf pos j program a ≡ buf (a - pos)
unfolding copy_sector
copy_sector-inside zero buf pos j program a low high = absurd (omega arith)
copy_sector-inside (suc n) buf pos j program a low high =
    let program' = update program (pos + j) (buf j) in
    elim (Bool-cases (a == pos + j)) [
      | inl same ↦
          copy_sector-outside n buf pos (j + 1) program' a (inl (ground arith))
          ∙ (let here : j ≡ a - pos = ground arith in ground (arith, ap buf here))
      | inr other ↦ copy_sector-inside n buf pos (j + 1) program' a (ground arith) (omega arith)
    ]

-- The rounds from `i` on, where `pos` is `512 * i`.
load_sectors-outside :
    (n : ℕ) (card : ℕ → ℕ → ℕ) (sector i pos : ℕ) (program : ℕ → ℕ) (a : ℕ)
    → pos ≡ 512 * i
    → i + n ≤ 300
    → (a < pos) ⊎ (pos + 512 * n ≤ a)
    → load_sectors n card sector i pos program a ≡ program a
unfolding load_sectors
load_sectors-outside zero card sector i pos program a at room h = refl
load_sectors-outside (suc n) card sector i pos program a at room h =
    let buf = card ((sector + i) % 2 ^ 32) in
    let next : (pos + 512) % 2 ^ 32 ≡ pos + 512 = omega arith in
    load_sectors-outside n card sector (i + 1) ((pos + 512) % 2 ^ 32)
      (copy_sector 512 buf pos 0 program) a (omega arith) (omega arith) (ground arith)
    ∙ copy_sector-outside 512 buf pos 0 program a (ground arith)

load_sectors-inside :
    (n : ℕ) (card : ℕ → ℕ → ℕ) (sector i pos : ℕ) (program : ℕ → ℕ) (a : ℕ)
    → pos ≡ 512 * i
    → i + n ≤ 300
    → pos ≤ a
    → a < pos + 512 * n
    → load_sectors n card sector i pos program a ≡ card ((sector + a / 512) % 2 ^ 32) (a % 512)
unfolding load_sectors
load_sectors-inside zero card sector i pos program a at room low high = absurd (omega arith)
load_sectors-inside (suc n) card sector i pos program a at room low high =
    let buf = card ((sector + i) % 2 ^ 32) in
    let program' = copy_sector 512 buf pos 0 program in
    let pos' = (pos + 512) % 2 ^ 32 in
    let next : pos' ≡ pos + 512 = omega arith in
    elim (Bool-cases (ltb a (pos + 512))) [
      | inl here ↦
          let below : a < pos + 512 = ground arith in
          let row : i ≡ a / 512 = omega arith in
          let column : a - pos ≡ a % 512 = omega arith in
          load_sectors-outside n card sector (i + 1) pos' program' a (omega arith) (omega arith)
            (inl (omega arith))
          ∙ copy_sector-inside 512 buf pos 0 program a (omega arith) (omega arith)
          ∙ ap buf column
          ∙ ap (λ (r : ℕ). card ((sector + r) % 2 ^ 32) (a % 512)) row
      | inr later ↦
          let above : pos + 512 ≤ a = ground arith in
          load_sectors-inside n card sector (i + 1) pos' program' a (omega arith) (omega arith)
            (omega arith) (omega arith)
    ]

-- `load_program` fills the array `program` with the 300 sectors from `sector` on, byte for byte in
-- their order, and changes no byte behind it.
pub load_program_lem :
    (card : ℕ → ℕ → ℕ) (sector : ℕ) (program : ℕ → ℕ) (a : ℕ)
    → load_program card sector program a
      ≡ (if ltb a (512 * 300) then card ((sector + a / 512) % 2 ^ 32) (a % 512) else program a)
unfolding load_program
load_program_lem card sector program a = elim (Bool-cases (ltb a (512 * 300))) [
  | inl e ↦
      let inside : a < 512 * 300 = ground arith in
      rw e (
        load_sectors-inside 300 card sector 0 0 program a (omega arith) (omega arith) (omega arith)
          (omega (arith, inside)))
  | inr e ↦
      let outside : 512 * 300 ≤ a = ground arith in
      rw e (
        load_sectors-outside 300 card sector 0 0 program a (omega arith) (omega arith)
          (inr (omega (arith, outside))))
]
