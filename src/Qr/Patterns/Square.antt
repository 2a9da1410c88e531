-- ===== src/Qr/Patterns/Square.antt =====
-- The fixed patterns keep the matrix square.
use Prim.Native.Nat.{bit_and}
use lanrunner.Common.{
  ℕ, true, false, if◌then◌else◌, ◌+◌, ◌-◌, ◌%◌, ◌/◌, ◌^◌, Bool, List, [], ◌∷◌, Option, none, some,
  leb, ltb, ◌==◌, not, ◌||◌, ◌&&◌,
}
use lanrunner.Qr.Grid.{Grid, loop, at, claim, blank}
use lanrunner.Qr.Grid.Square.{
  Square, SquareGrid, blank-Square, loop-keeps, branch-keeps, claim-SquareGrid,
}
use lanrunner.Qr.Patterns.{
  finder_dark, finder_cell, finder, claim_free, timing, alignment_square, alignment_row, alignments,
  format_area, version_area, function_patterns,
}
use lanrunner.Qr.Versions.{QrVersion, qr_version_info}

module _ (size : ℕ) where
  finder_cell-SquareGrid :
      (pr pc dr dc : ℕ) (g : Grid)
      → SquareGrid size g
      → SquareGrid size (finder_cell size pr pc dr dc g)
  unfolding finder_cell
  finder_cell-SquareGrid pr pc dr dc g square =
      branch-keeps (SquareGrid size)
        ((ltb (pr + dr) 1 || leb (size + 1) (pr + dr))
          || (ltb (pc + dc) 1 || leb (size + 1) (pc + dc)))
        g (claim (pr + dr - 1) (pc + dc - 1) (finder_dark dr dc) g) square
        (claim-SquareGrid size (pr + dr - 1) (pc + dc - 1) (finder_dark dr dc) g square)

  finder-SquareGrid :
      (pr pc : ℕ) (g : Grid) → SquareGrid size g → SquareGrid size (finder size pr pc g)
  unfolding finder
  finder-SquareGrid pr pc g =
      loop-keeps (SquareGrid size) 9 0 (λ dr. loop 9 0 (λ dc. finder_cell size pr pc dr dc)) g
        (λ dr h.
          loop-keeps (SquareGrid size) 9 0 (λ dc. finder_cell size pr pc dr dc) h
            (λ dc. finder_cell-SquareGrid pr pc dr dc))

  claim_free-SquareGrid :
      (r c : ℕ) (dark : Bool) (g : Grid)
      → SquareGrid size g
      → SquareGrid size (claim_free r c dark g)
  unfolding claim_free
  claim_free-SquareGrid r c dark g square =
      branch-keeps (SquareGrid size) (not (at g.reserved r c)) (claim r c dark g) g
        (claim-SquareGrid size r c dark g square) square

  timing-SquareGrid : (g : Grid) → SquareGrid size g → SquareGrid size (timing size g)
  unfolding timing
  timing-SquareGrid g =
      loop-keeps (SquareGrid size) (size - 16) 8
        (λ i h. claim_free i 6 (i % 2 == 0) (claim_free 6 i (i % 2 == 0) h)) g
        (λ i h square.
          claim_free-SquareGrid i 6 (i % 2 == 0) (claim_free 6 i (i % 2 == 0) h)
            (claim_free-SquareGrid 6 i (i % 2 == 0) h square))

  abbrev ring : ℕ → ℕ → Bool
  ring dr dc = dr == 0 || (dr == 4 || (dc == 0 || (dc == 4 || (dr == 2 && dc == 2))))

  alignment_square-SquareGrid :
      (ar ac : ℕ) (g : Grid) → SquareGrid size g → SquareGrid size (alignment_square ar ac g)
  unfolding alignment_square
  alignment_square-SquareGrid ar ac g =
      loop-keeps (SquareGrid size) 5 0
        (λ dr. loop 5 0 (λ dc. claim (ar + dr - 2) (ac + dc - 2) (ring dr dc))) g
        (λ dr h.
          loop-keeps (SquareGrid size) 5 0 (λ dc. claim (ar + dr - 2) (ac + dc - 2) (ring dr dc)) h
            (λ dc. claim-SquareGrid size (ar + dr - 2) (ac + dc - 2) (ring dr dc)))

  alignment_row-SquareGrid :
      (ar : ℕ) (acs : List ℕ) (g : Grid)
      → SquareGrid size g
      → SquareGrid size (alignment_row ar acs g)
  unfolding alignment_row
  alignment_row-SquareGrid ar [] g square = square
  alignment_row-SquareGrid ar (ac ∷ acs) g square =
      alignment_row-SquareGrid ar acs (if at g.reserved ar ac then g else alignment_square ar ac g)
        (branch-keeps (SquareGrid size) (at g.reserved ar ac) g (alignment_square ar ac g) square
          (alignment_square-SquareGrid ar ac g square))

  alignments-SquareGrid :
      (ars all : List ℕ) (g : Grid) → SquareGrid size g → SquareGrid size (alignments ars all g)
  unfolding alignments
  alignments-SquareGrid [] all g square = square
  alignments-SquareGrid (ar ∷ ars) all g square =
      alignments-SquareGrid ars all (alignment_row ar all g)
        (alignment_row-SquareGrid ar all g square)

  format_area-SquareGrid : (g : Grid) → SquareGrid size g → SquareGrid size (format_area size g)
  unfolding format_area
  format_area-SquareGrid g square =
      loop-keeps (SquareGrid size) 8 0
        (λ i h. claim_free (size - 1 - i) 8 false (claim_free 8 (size - 1 - i) false h))
        (loop 9 0 (λ i h. claim_free i 8 false (claim_free 8 i false h)) g)
        (λ i h kept.
          claim_free-SquareGrid (size - 1 - i) 8 false (claim_free 8 (size - 1 - i) false h)
            (claim_free-SquareGrid 8 (size - 1 - i) false h kept))
        (loop-keeps (SquareGrid size) 9 0 (λ i h. claim_free i 8 false (claim_free 8 i false h)) g
          (λ i h kept.
            claim_free-SquareGrid i 8 false (claim_free 8 i false h)
              (claim_free-SquareGrid 8 i false h kept))
          square)

  version_area-SquareGrid :
      (o : Option ℕ) (g : Grid) → SquareGrid size g → SquareGrid size (version_area size o g)
  unfolding version_area
  version_area-SquareGrid none g square = square
  version_area-SquareGrid (some info) g square =
      let dark : ℕ → Bool = λ i. not (bit_and info (2 ^ i) == 0) in
      loop-keeps (SquareGrid size) 18 0
        (λ i h.
          claim (size - 11 + i % 3) (i / 3) (dark i) (claim (i / 3) (size - 11 + i % 3) (dark i) h))
        g
        (λ i h kept.
          claim-SquareGrid size (size - 11 + i % 3) (i / 3) (dark i)
            (claim (i / 3) (size - 11 + i % 3) (dark i) h)
            (claim-SquareGrid size (i / 3) (size - 11 + i % 3) (dark i) h kept))
        square

  pub function_patterns-Square :
      (version : ℕ) (spec : QrVersion) → Square size (function_patterns version spec size).modules
  unfolding function_patterns
  function_patterns-Square version spec =
      let start : Grid = record { modules = blank size; reserved = blank size } in
      let finders = finder size (size - 7) 0 (finder size 0 (size - 7) (finder size 0 0 start)) in
      let aligned = alignments spec.alignment spec.alignment (timing size finders) in
      let dark = claim (size - 8) 8 true aligned in
      version_area-SquareGrid (qr_version_info version) (format_area size dark) (
        format_area-SquareGrid dark (
          claim-SquareGrid size (size - 8) 8 true aligned (
            alignments-SquareGrid spec.alignment spec.alignment (timing size finders) (
              timing-SquareGrid finders (
                finder-SquareGrid (size - 7) 0 (finder size 0 (size - 7) (finder size 0 0 start)) (
                  finder-SquareGrid 0 (size - 7) (finder size 0 0 start)
                    (finder-SquareGrid 0 0 start (blank-Square size))))))))
