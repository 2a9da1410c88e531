-- ===== src/Qr/Place/Best.antt =====
-- The choice of the mask (qr.go, the loop over the masks in `buildMatrix`).
use lanrunner.Common.{
  ℕ, zero, suc, ◌+◌, ◌*◌, ◌<◌, ◌≤◌, ◌≡◌, refl, sym, true, false, List, Option, none, some, ltb,
  ltb→lt, ltb→le, inl, inr, Bool-cases, Nat-cases, arith,
}
use lanrunner.Qr.Grid.{Matrix}
use lanrunner.Qr.Patterns.{function_patterns}
use lanrunner.Qr.Penalty.{penalty}
use lanrunner.Qr.Place.{candidate, best_mask, place_data, build_matrix}
use lanrunner.Qr.Versions.{QrVersion}

module _ (modules reserved : Matrix) (size : ℕ) where
  abbrev pub score_of : ℕ → ℕ
  score_of mask = penalty (candidate modules reserved size mask) size

  -- The matrix is the candidate of a mask below `count`, with its score, which no other of them
  -- undercuts and none before it reaches.
  abbrev pub Best : ℕ → ℕ → Matrix → Type 0
  Best count score m =
      (mask : ℕ) × (mask < count)
      × (m ≡ candidate modules reserved size mask)
      × (score ≡ score_of mask)
      × ((k : ℕ) → k < count → score ≤ score_of k)
      × ((k : ℕ) → k < mask → score < score_of k)

  abbrev pub Chosen : ℕ → Option (ℕ × Matrix) → Type 0
  Chosen count o = (score : ℕ) × (m : Matrix) × (o ≡ some (score, m)) × Best count score m

  -- A bound on all scores below `count`, and on the next one.
  one_more :
      (bound count : ℕ)
      → ((k : ℕ) → k < count → bound ≤ score_of k)
      → bound ≤ score_of count
      → (k : ℕ) → k < suc count
      → bound ≤ score_of k
  one_more bound count below here k h = elim (Nat-cases k count) [
    | inl e ↦ rw e here
    | inr ne ↦ below k (omega arith)
  ]

  first-Best : Best 1 (score_of 0) (candidate modules reserved size 0)
  first-Best = (
    0,
    omega arith,
    refl,
    refl,
    one_more (score_of 0) 0 (λ k h. absurd (omega arith)) (omega arith),
    λ k h. absurd (omega arith),
  )

  better-Best :
      (mask best : ℕ) (kept : Matrix)
      → ltb (score_of mask) best ≡ true
      → Best mask best kept
      → Best (suc mask) (score_of mask) (candidate modules reserved size mask)
  better-Best mask best kept e (old, below, is, score, least, strict) =
      let lower : score_of mask < best = ltb→lt (score_of mask) best e in
      (
        mask,
        omega arith,
        refl,
        refl,
        one_more (score_of mask) mask (λ k h. omega (arith, least k h)) (omega arith),
        λ k h. omega (arith, least k h),
      )

  kept-Best :
      (mask best : ℕ) (kept : Matrix)
      → ltb (score_of mask) best ≡ false
      → Best mask best kept
      → Best (suc mask) best kept
  kept-Best mask best kept e (old, below, is, score, least, strict) =
      let higher : best ≤ score_of mask = ltb→le best (score_of mask) e in
      (old, omega arith, is, score, one_more best mask least higher, strict)

  best_mask-Chosen :
      (left mask count best : ℕ) (kept : Matrix)
      → mask + left ≡ count
      → Best mask best kept
      → Chosen count (best_mask left mask modules reserved size (some (best, kept)))
  unfolding best_mask
  best_mask-Chosen zero mask count best kept total chosen =
      let all : mask ≡ count = omega arith in (best, kept, refl, rw (sym all) chosen)
  best_mask-Chosen (suc left) mask count best kept total chosen =
      elim (Bool-cases (ltb (score_of mask) best)) [
        | inl e ↦ rw e (
            best_mask-Chosen left (suc mask) count (score_of mask)
              (candidate modules reserved size mask) (omega arith)
              (better-Best mask best kept e chosen))
        | inr e ↦ rw e (
            best_mask-Chosen left (suc mask) count best kept (omega arith)
              (kept-Best mask best kept e chosen))
      ]

  eight-Chosen : Chosen 8 (best_mask 8 0 modules reserved size none)
  unfolding best_mask
  eight-Chosen =
      best_mask-Chosen 7 1 8 (score_of 0) (candidate modules reserved size 0) refl first-Best

-- A matrix is always built: that of the first mask, of eight, with the lowest score.
pub build_matrix-Chosen :
    (version : ℕ) (spec : QrVersion) (codewords : List ℕ)
    → Chosen
        (place_data
          (function_patterns version spec (version * 4 + 17))
          codewords
          (version * 4 + 17))
        (function_patterns version spec (version * 4 + 17)).reserved
        (version * 4 + 17)
        8
        (build_matrix version spec codewords)
unfolding build_matrix
build_matrix-Chosen version spec codewords =
    eight-Chosen
      (place_data (function_patterns version spec (version * 4 + 17)) codewords (version * 4 + 17))
      (function_patterns version spec (version * 4 + 17)).reserved (version * 4 + 17)
