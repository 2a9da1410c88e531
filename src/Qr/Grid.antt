-- ===== src/Qr/Grid.antt =====
-- Module matrices as lists of rows, and the counted loops over them. A read out of range is light
-- and a write out of range is dropped; the encoder makes neither.
pub mod Square
use lanrunner.Common.{ℕ, zero, suc, Bool, true, false, List, [], get_or, set, replicate}

-- `for i := start; i < start+count; i++ { s = body(i, s) }`.
abbrev pub loop {ℓ} : {S : Type ℓ} → ℕ → ℕ → (ℕ → S → S) → S → S
loop zero i body s = s
loop (suc count) i body s = loop count (suc i) body (body i s)

abbrev pub Matrix : Type 0
Matrix = List (List Bool)

unfoldable pub at : Matrix → ℕ → ℕ → Bool
at m r c = get_or (get_or m r []) c false

unfoldable pub put : Matrix → ℕ → ℕ → Bool → Matrix
put m r c dark = set m r (set (get_or m r []) c dark)

unfoldable pub blank : ℕ → Matrix
blank size = replicate size (replicate size false)

pub record Grid : Type 0 where
  pub modules : Matrix
  pub reserved : Matrix

-- The closure `set` of `functionPatterns`.
unfoldable pub claim : ℕ → ℕ → Bool → Grid → Grid
unfolding put
claim r c dark g = record { modules = put g.modules r c dark; reserved = put g.reserved r c true }
