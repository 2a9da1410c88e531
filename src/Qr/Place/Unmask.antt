-- ===== src/Qr/Place/Unmask.antt =====
-- What a reader of a QR code gets back (qr.go, `buildMatrix`, the placement of data under a mask).
use lanrunner.Common.{
  ℕ, zero, suc, ◌+◌, ◌-◌, ◌<◌, ◌≡◌, Bool, true, List, not, ◌&&◌, ltb, ◌==◌, if◌then◌else◌,
}
use lanrunner.Qr.Grid.{Matrix, Grid, at, put}
use lanrunner.Qr.Grid.Square.{Square, put-Square, loop-keeps, branch-keeps}
use lanrunner.Qr.Mask.{mask_at, apply_mask}
use lanrunner.Qr.Mask.Cells.{apply_mask-apply_mask}
use lanrunner.Qr.Patterns.{function_patterns}
use lanrunner.Qr.Patterns.Square.{function_patterns-Square}
use lanrunner.Qr.Place.{Pen, code_bit, place_bit, place_pair, zigzag, place_data}
use lanrunner.Qr.Versions.{QrVersion}

module _ (size : ℕ) (reserved : Matrix) (codewords : List ℕ) where
  abbrev SquarePen : Pen → Type 0
  SquarePen p = Square size p.modules

  place_bit-SquarePen :
      (row col : ℕ) (p : Pen) → SquarePen p → SquarePen (place_bit reserved codewords row col p)
  unfolding place_bit
  place_bit-SquarePen row col p square =
      branch-keeps SquarePen (at reserved row col) p
        (record {
          modules = put p.modules row col (code_bit codewords p.bit_index);
          bit_index = p.bit_index + 1;
        })
        square (put-Square size p.modules row col (code_bit codewords p.bit_index) square)

  place_pair-SquarePen :
      (upward : Bool) (right : ℕ) (p : Pen)
      → SquarePen p
      → SquarePen (place_pair reserved codewords size upward right p)
  unfolding place_pair
  place_pair-SquarePen upward right p =
      loop-keeps SquarePen size 0
        (λ i q.
          let row = if upward then size - 1 - i else i in
          place_bit reserved codewords row (right - 1) (place_bit reserved codewords row right q))
        p
        (λ i q square.
          let row = if upward then size - 1 - i else i in
          place_bit-SquarePen row (right - 1) (place_bit reserved codewords row right q)
            (place_bit-SquarePen row right q square))

  zigzag-SquarePen :
      (fuel : ℕ) (upward : Bool) (right : ℕ) (p : Pen)
      → SquarePen p
      → SquarePen (zigzag fuel reserved codewords size upward right p)
  unfolding zigzag
  zigzag-SquarePen zero upward right p square = square
  zigzag-SquarePen (suc fuel) upward right p square =
      let col = if right == 6 then 5 else right in
      branch-keeps SquarePen (ltb right 1) p
        (zigzag fuel reserved codewords size (not upward) (col - 2)
          (place_pair reserved codewords size upward col p))
        square
        (zigzag-SquarePen fuel (not upward) (col - 2)
          (place_pair reserved codewords size upward col p)
          (place_pair-SquarePen upward col p square))

pub place_data-Square :
    (size : ℕ) (g : Grid) (codewords : List ℕ)
    → Square size g.modules
    → Square size (place_data g codewords size)
unfolding place_data
place_data-Square size g codewords square =
    zigzag-SquarePen size g.reserved codewords size true (size - 1)
      (record { modules = g.modules; bit_index = 0 }) square

-- The module after one pass of the mask, and after two.
abbrev pub Reads : Matrix → Matrix → ℕ → ℕ → ℕ → ℕ → Type 0
Reads placed reserved mask size r c =
    (at (apply_mask placed reserved mask size) r c
      ≡ (if not (at reserved r c) && mask_at mask r c then not (at placed r c) else at placed r c))
    × (at (apply_mask (apply_mask placed reserved mask size) reserved mask size) r c
        ≡ at placed r c)

-- In the matrix of any version each mask inverts exactly the modules that it marks and that the patterns
-- leave free, and a reader who applies it once more has every module back as it was placed.
pub apply_mask-place_data :
    (version : ℕ) (spec : QrVersion) (codewords : List ℕ) (mask size r c : ℕ)
    → r < size
    → c < size
    → Reads
        (place_data (function_patterns version spec size) codewords size)
        (function_patterns version spec size).reserved
        mask
        size
        r
        c
apply_mask-place_data version spec codewords mask size r c in_r in_c =
    let g = function_patterns version spec size in
    apply_mask-apply_mask g.reserved mask size (place_data g codewords size) r c
      (place_data-Square size g codewords (function_patterns-Square size version spec)) in_r in_c
