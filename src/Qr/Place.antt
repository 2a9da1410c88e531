-- ===== src/Qr/Place.antt =====
-- Data placement and the choice of the mask (qr.go, `buildMatrix`, `qrEncode`).
pub mod Best
pub mod Unmask
use Prim.Native.Nat.{bit_and}
use lanrunner.Common.{
  ℕ, zero, suc, ◌+◌, ◌-◌, ◌*◌, ◌/◌, ◌%◌, ◌^◌, Bool, true, false, List, Option, none, some, ltb,
  ◌==◌, not, if◌then◌else◌, get_or, length,
}
use lanrunner.Qr.Encode.{codewords_of}
use lanrunner.Qr.Grid.{Matrix, Grid, loop, at, put}
use lanrunner.Qr.Mask.{apply_mask, place_format}
use lanrunner.Qr.Patterns.{function_patterns}
use lanrunner.Qr.Penalty.{penalty}
use lanrunner.Qr.Versions.{QrVersion, qr_versions}

pub record Pen : Type 0 where
  pub modules : Matrix
  pub bit_index : ℕ

code_bit : List ℕ → ℕ → Bool
code_bit codewords i =
    if ltb i (length codewords * 8)
    then not (bit_and (get_or codewords (i / 8) 0) (2 ^ (7 - i % 8)) == 0)
    else false

place_bit : Matrix → List ℕ → ℕ → ℕ → Pen → Pen
unfolding code_bit
place_bit reserved codewords row col p = if at reserved row col then p else record {
  modules = put p.modules row col (code_bit codewords p.bit_index);
  bit_index = p.bit_index + 1;
}

-- Two columns, upward or downward.
place_pair : Matrix → List ℕ → ℕ → Bool → ℕ → Pen → Pen
unfolding place_bit
place_pair reserved codewords size upward right = loop size 0 (λ i p.
    let row = if upward then size - 1 - i else i in
    place_bit reserved codewords row (right - 1) (place_bit reserved codewords row right p))

-- `right` starts at `size - 1` and falls by two or three, so that `size` rounds are enough.
zigzag : ℕ → Matrix → List ℕ → ℕ → Bool → ℕ → Pen → Pen
unfolding place_pair
zigzag zero reserved codewords size upward right p = p
zigzag (suc fuel) reserved codewords size upward right p =
    let col = if right == 6 then 5 else right in
    let rest =
      zigzag fuel reserved codewords size (not upward) (col - 2)
        (place_pair reserved codewords size upward col p) in
    if ltb right 1 then p else rest

pub place_data : Grid → List ℕ → ℕ → Matrix
unfolding zigzag
place_data g codewords size =
    (zigzag size g.reserved codewords size true (size - 1)
      (record { modules = g.modules; bit_index = 0 })).modules

pub candidate : Matrix → Matrix → ℕ → ℕ → Matrix
candidate modules reserved size mask =
    place_format (apply_mask modules reserved mask size) mask size

-- The best score so far with its matrix; the first of two equal scores stays.
best_mask : ℕ → ℕ → Matrix → Matrix → ℕ → Option (ℕ × Matrix) → Option (ℕ × Matrix)
unfolding candidate
best_mask zero mask modules reserved size best = best
best_mask (suc left) mask modules reserved size none =
    let m = candidate modules reserved size mask in
    best_mask left (suc mask) modules reserved size (some (penalty m size, m))
best_mask (suc left) mask modules reserved size (some (best, kept)) =
    let m = candidate modules reserved size mask in
    let score = penalty m size in
    best_mask left (suc mask) modules reserved size
      (if ltb score best then some (score, m) else some (best, kept))

unfoldable pub build_matrix : ℕ → QrVersion → List ℕ → Option (ℕ × Matrix)
unfolding place_data best_mask
build_matrix version spec codewords =
    let size = version * 4 + 17 in
    let g = function_patterns version spec size in
    best_mask 8 0 (place_data g codewords size) g.reserved size none

-- `none` is the error of a text that is too long.
unfoldable pub qr_encode : List ℕ → Option Matrix
qr_encode data' = elim (codewords_of data') [
  | none ↦ none
  | some (version, codewords) ↦ elim (build_matrix version (qr_versions version) codewords) [
    | none ↦ none
    | some (score, m) ↦ some m
  ]
]
