-- ===== src/Qr/Patterns.antt =====
-- What the specification fixes in the matrix (qr.go, `functionPatterns`). A loop over an offset
-- from -1 or -2 runs over the offset plus 1 or plus 2 here.
pub mod Square
use Prim.Native.Nat.{bit_and}
use lanrunner.Common.{
  ℕ, ◌+◌, ◌-◌, ◌/◌, ◌%◌, ◌^◌, Bool, true, false, List, [], ◌∷◌, Option, none, some, leb, ltb, ◌==◌,
  not, ◌&&◌, ◌||◌, if◌then◌else◌,
}
use lanrunner.Qr.Grid.{Grid, loop, at, blank, claim}
use lanrunner.Qr.Versions.{QrVersion, qr_version_info}

-- `dr` and `dc` are one more than in the source, so that the ring is 1 to 7 and the core 3 to 5.
finder_dark : ℕ → ℕ → Bool
finder_dark dr dc =
    (leb 1 dr
      && (leb dr 7 && (leb 1 dc && (leb dc 7 && (dr == 1 || (dr == 7 || (dc == 1 || dc == 7)))))))
    || (leb 3 dr && (leb dr 5 && (leb 3 dc && leb dc 5)))

finder_cell : ℕ → ℕ → ℕ → ℕ → ℕ → Grid → Grid
unfolding finder_dark
finder_cell size pr pc dr dc g =
    if (ltb (pr + dr) 1 || leb (size + 1) (pr + dr))
      || (ltb (pc + dc) 1 || leb (size + 1) (pc + dc))
    then g
    else claim (pr + dr - 1) (pc + dc - 1) (finder_dark dr dc) g

finder : ℕ → ℕ → ℕ → Grid → Grid
unfolding finder_cell
finder size pr pc = loop 9 0 (λ dr. loop 9 0 (λ dc. finder_cell size pr pc dr dc))

claim_free : ℕ → ℕ → Bool → Grid → Grid
claim_free r c dark g = if not (at g.reserved r c) then claim r c dark g else g

timing : ℕ → Grid → Grid
unfolding claim_free
timing size =
    loop (size - 16) 8 (λ i g. claim_free i 6 (i % 2 == 0) (claim_free 6 i (i % 2 == 0) g))

alignment_square : ℕ → ℕ → Grid → Grid
alignment_square ar ac = loop 5 0 (λ dr. loop 5 0 (λ dc.
    claim (ar + dr - 2) (ac + dc - 2)
      (dr == 0 || (dr == 4 || (dc == 0 || (dc == 4 || (dr == 2 && dc == 2)))))))

alignment_row : ℕ → List ℕ → Grid → Grid
unfolding alignment_square
alignment_row ar [] g = g
alignment_row ar (ac ∷ acs) g =
    alignment_row ar acs (if at g.reserved ar ac then g else alignment_square ar ac g)

alignments : List ℕ → List ℕ → Grid → Grid
unfolding alignment_row
alignments [] all g = g
alignments (ar ∷ ars) all g = alignments ars all (alignment_row ar all g)

format_area : ℕ → Grid → Grid
unfolding claim_free
format_area size g =
    loop 8 0 (λ i g. claim_free (size - 1 - i) 8 false (claim_free 8 (size - 1 - i) false g))
      (loop 9 0 (λ i g. claim_free i 8 false (claim_free 8 i false g)) g)

version_area : ℕ → Option ℕ → Grid → Grid
version_area size none g = g
version_area size (some info) g =
    loop 18 0
      (λ i g.
        let dark = not (bit_and info (2 ^ i) == 0) in
        claim (size - 11 + i % 3) (i / 3) dark (claim (i / 3) (size - 11 + i % 3) dark g))
      g

unfoldable pub function_patterns : ℕ → QrVersion → ℕ → Grid
unfolding finder timing alignments format_area version_area
function_patterns version spec size =
    let start : Grid = record { modules = blank size; reserved = blank size } in
    let finders = finder size (size - 7) 0 (finder size 0 (size - 7) (finder size 0 0 start)) in
    let aligned = alignments spec.alignment spec.alignment (timing size finders) in
    version_area size (qr_version_info version) (format_area size (claim (size - 8) 8 true aligned))
