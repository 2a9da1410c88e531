-- ===== src/Qr/Encode/Smallest.antt =====
-- Which version a text gets.
use lanrunner.Common.{
  ℕ, zero, suc, ◌+◌, ◌≤◌, ◌<◌, ◌≡◌, ◌⊎◌, refl, false, leb, leb→le, ◌==◌, ==_iff, inl, inr,
  Bool-cases, arith,
}
use lanrunner.Qr.Versions.{qr_versions, byte_capacity}
use lanrunner.Qr.Encode.{choose, choose_version}

abbrev pub capacity_of : ℕ → ℕ
capacity_of v = byte_capacity (qr_versions v) v

-- No version from `low` on, below `high`, carries `n` bytes.
abbrev pub TooSmall : ℕ → ℕ → ℕ → Type 0
TooSmall n low high = (w : ℕ) → low ≤ w → w < high → capacity_of w < n

abbrev pub Smallest : ℕ → ℕ → ℕ → ℕ → Type 0
Smallest n low high v =
    ((v ≡ 0) × TooSmall n low high)
    ⊎ ((low ≤ v) × (v < high) × (n ≤ capacity_of v) × TooSmall n low v)

one_more :
    (n v high : ℕ) → leb n (capacity_of v) ≡ false → TooSmall n (suc v) high → TooSmall n v high
one_more n v high h t w l k = elim (Bool-cases (w == v)) [
  | inl e ↦ rw ((==_iff w v).0 e) (ground arith)
  | inr e ↦ t w (ground arith) k
]

widen :
    (n v left r : ℕ)
    → leb n (capacity_of v) ≡ false
    → Smallest n (suc v) (suc v + left) r
    → Smallest n v (v + suc left) r
widen n v left r h (inl (e, t)) =
    inl (e, one_more n v (v + suc left) h (λ w l k. t w l (omega arith)))
widen n v left r h (inr (l, k, f, t)) = inr (omega arith, omega arith, f, one_more n v r h t)

choose-Smallest : (left v n : ℕ) → Smallest n v (v + left) (choose left v n)
unfolding choose
choose-Smallest zero v n = inl (refl, λ w l k. absurd (omega arith))
choose-Smallest (suc left) v n = elim (Bool-cases (leb n (capacity_of v))) [
  | inl h ↦ rw h (inr (omega arith, omega arith, leb→le _ _ h, λ w l k. absurd (omega arith)))
  | inr h ↦ rw h (widen n v left (choose left (suc v) n) h (choose-Smallest left (suc v) n))
]

-- The encoder takes the smallest of the ten versions that carries the bytes, and gives up exactly if
-- none does.
pub choose_version-Smallest : (n : ℕ) → Smallest n 1 11 (choose_version n)
unfolding choose_version
choose_version-Smallest n = choose-Smallest 10 1 n
