-- ===== src/Qr/Penalty.antt =====
-- The score of a masked matrix (qr.go, `penalty`).
use lanrunner.Common.{
  ℕ, suc, ◌+◌, ◌-◌, ◌*◌, ◌/◌, Bool, true, false, List, [], ◌∷◌, leb, ltb, ◌&&◌, ◌||◌, if◌then◌else◌,
}
use lanrunner.Qr.Grid.{Matrix, loop, at}

beq : Bool → Bool → Bool
beq true b = b
beq false true = false
beq false false = true

record Runs : Type 0 where
  score : ℕ
  run_row : ℕ
  run_col : ℕ

run_score : ℕ → ℕ
run_score run = if leb 5 run then run - 2 else 0

-- One step of rule 1 along row `i` and column `i`.
run_step : Matrix → ℕ → ℕ → Runs → Runs
unfolding beq run_score
run_step m i j s =
    let same_row = beq (at m i j) (at m i (j - 1)) in
    let same_col = beq (at m j i) (at m (j - 1) i) in
    record {
      score =
          s.score
          + (if same_row then 0 else run_score s.run_row)
          + (if same_col then 0 else run_score s.run_col);
      run_row = if same_row then s.run_row + 1 else 1;
      run_col = if same_col then s.run_col + 1 else 1;
    }

runs_of : Matrix → ℕ → ℕ → ℕ → ℕ
unfolding run_step
runs_of m size i score =
    let s = loop (size - 1) 1 (run_step m i) (record { score = score; run_row = 1; run_col = 1 }) in
    s.score + run_score s.run_row + run_score s.run_col

block_score : Matrix → ℕ → ℕ → ℕ → ℕ
unfolding beq
block_score m r c score =
    if beq (at m r c) (at m r (c + 1))
      && (beq (at m r c) (at m (r + 1) c) && beq (at m r c) (at m (r + 1) (c + 1)))
    then score + 3
    else score

abbrev pattern_a : List Bool
pattern_a = true ∷ false ∷ true ∷ true ∷ true ∷ false ∷ true ∷ false ∷ false ∷ false ∷ false ∷ []

abbrev pattern_b : List Bool
pattern_b = false ∷ false ∷ false ∷ false ∷ true ∷ false ∷ true ∷ true ∷ true ∷ false ∷ true ∷ []

matches : (ℕ → Bool) → ℕ → List Bool → Bool
unfolding beq
matches get start [] = true
matches get start (w ∷ want) = beq (get start) w && matches get (suc start) want

finder_score : Matrix → ℕ → ℕ → ℕ → ℕ
unfolding matches
finder_score m i j score =
    score
    + (if matches (λ k. at m i k) j pattern_a || matches (λ k. at m i k) j pattern_b then 40 else 0)
    + (if matches (λ k. at m k i) j pattern_a || matches (λ k. at m k i) j pattern_b then 40 else 0)

dark_count : Matrix → ℕ → ℕ
dark_count m size = loop size 0 (λ r. loop size 0 (λ c dark. if at m r c then dark + 1 else dark)) 0

-- The distance of `percent` from 50.
deviation : ℕ → ℕ
deviation percent = if ltb percent 50 then 50 - percent else percent - 50

unfoldable pub penalty : Matrix → ℕ → ℕ
unfolding runs_of block_score finder_score dark_count deviation
penalty m size =
    let lines = loop size 0 (runs_of m size) 0 in
    let blocks = loop (size - 1) 0 (λ r. loop (size - 1) 0 (λ c. block_score m r c)) lines in
    let finders = loop size 0 (λ i. loop (size - 10) 0 (λ j. finder_score m i j)) blocks in
    finders + deviation (dark_count m size * 100 / (size * size)) / 5 * 10
