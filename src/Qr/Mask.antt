-- ===== src/Qr/Mask.antt =====
-- Masks and format information (qr.go, `maskAt`, `applyMask`, `placeFormat`).
pub mod Cells
use Prim.Native.Nat.{bit_and}
use lanrunner.Common.{
  ℕ, ◌+◌, ◌-◌, ◌*◌, ◌/◌, ◌%◌, ◌^◌, Bool, true, ltb, ◌==◌, not, ◌&&◌, if◌then◌else◌,
}
use lanrunner.Qr.Grid.{Matrix, loop, at, put}
use lanrunner.Qr.Versions.{qr_format_m}

unfoldable pub mask_at : ℕ → ℕ → ℕ → Bool
mask_at mask r c =
    if mask == 0
    then (r + c) % 2 == 0
    else if mask == 1
    then r % 2 == 0
    else if mask == 2
    then c % 3 == 0
    else if mask == 3
    then (r + c) % 3 == 0
    else if mask == 4
    then (r / 2 + c / 3) % 2 == 0
    else if mask == 5
    then r * c % 2 + r * c % 3 == 0
    else if mask == 6
    then (r * c % 2 + r * c % 3) % 2 == 0
    else ((r + c) % 2 + r * c % 3) % 2 == 0

pub flip_cell : Matrix → ℕ → ℕ → ℕ → Matrix → Matrix
flip_cell reserved mask r c out =
    if not (at reserved r c) && mask_at mask r c then put out r c (not (at out r c)) else out

unfoldable pub apply_mask : Matrix → Matrix → ℕ → ℕ → Matrix
unfolding flip_cell
apply_mask src reserved mask size =
    loop size 0 (λ r. loop size 0 (λ c. flip_cell reserved mask r c)) src

-- The copy around the top-left finder, and the copy that is split between the other two.
format_bit : ℕ → Bool → ℕ → Matrix → Matrix
format_bit size dark i m =
    let first =
      if ltb i 6
      then put m 8 i dark
      else if i == 6
      then put m 8 7 dark
      else if i == 7
      then put m 8 8 dark
      else if i == 8
      then put m 7 8 dark
      else put m (14 - i) 8 dark in
    if ltb i 8 then put first 8 (size - 1 - i) dark else put first (size - 15 + i) 8 dark

unfoldable pub place_format : Matrix → ℕ → ℕ → Matrix
unfolding format_bit
place_format m mask size =
    put (loop 15 0 (λ i. format_bit size (not (bit_and (qr_format_m mask) (2 ^ i) == 0)) i) m)
      (size - 8) 8 true
