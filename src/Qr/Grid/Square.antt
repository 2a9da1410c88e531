-- ===== src/Qr/Grid/Square.antt =====
-- Square matrices, and the loops that keep them square.
use lanrunner.Common.{
  ℕ, zero, suc, ◌<◌, ◌≡◌, ◌≢◌, refl, ap, ◌∙◌, Bool, true, false, List, [], ◌∷◌, length, get_or, set,
  length-set, replicate, if◌then◌else◌, inl, inr, Nat-cases, arith,
}
use lanrunner.Qr.Grid.{Matrix, Grid, loop, put, blank, claim}

module _ {ℓ} {A : Type ℓ} where
  pub get_or-set_self :
      (xs : List A) (i : ℕ) (v d : A) → i < length xs → get_or (set xs i v) i d ≡ v
  get_or-set_self [] i v d h = absurd (omega arith)
  get_or-set_self (x ∷ xs) zero v d h = refl
  get_or-set_self (x ∷ xs) (suc i) v d h = get_or-set_self xs i v d (omega arith)

  pub get_or-set_other :
      (xs : List A) (i j : ℕ) (v d : A) → j ≢ i → get_or (set xs i v) j d ≡ get_or xs j d
  get_or-set_other [] i j v d h = refl
  get_or-set_other (x ∷ xs) zero zero v d h = absurd (h refl)
  get_or-set_other (x ∷ xs) zero (suc j) v d h = refl
  get_or-set_other (x ∷ xs) (suc i) zero v d h = refl
  get_or-set_other (x ∷ xs) (suc i) (suc j) v d h = get_or-set_other xs i j v d (λ e. h (ap suc e))

-- `size` rows of `size` modules.
abbrev pub Square : ℕ → Matrix → Type 0
Square size m = (length m ≡ size) × ((r : ℕ) → r < size → length (get_or m r []) ≡ size)

pub put-Square :
    (size : ℕ) (m : Matrix) (r c : ℕ) (dark : Bool) → Square size m → Square size (put m r c dark)
unfolding put
put-Square size m r c dark (rows, row) = (
  length-set m r (set (get_or m r []) c dark) ∙ rows,
  λ k below. elim (Nat-cases k r) [
    | inl e ↦ rw e (
        ap length (get_or-set_self m r (set (get_or m r []) c dark) [] (omega arith))
        ∙ length-set (get_or m r []) c dark
        ∙ row r (omega arith))
    | inr ne ↦ ap length (get_or-set_other m r k (set (get_or m r []) c dark) [] ne) ∙ row k below
  ],
)

get_or-replicate {ℓ} : {A : Type ℓ} (n i : ℕ) (v d : A) → i < n → get_or (replicate n v) i d ≡ v
get_or-replicate zero i v d h = absurd (omega arith)
get_or-replicate (suc n) zero v d h = refl
get_or-replicate (suc n) (suc i) v d h = get_or-replicate n i v d (omega arith)

length-replicate {ℓ} : {A : Type ℓ} (n : ℕ) (v : A) → length (replicate n v) ≡ n
length-replicate zero v = refl
length-replicate (suc n) v = ap suc (length-replicate n v)

pub blank-Square : (size : ℕ) → Square size (blank size)
unfolding blank
blank-Square size = (
  length-replicate size (replicate size false),
  λ r h.
      ap length (get_or-replicate size r (replicate size false) [] h) ∙ length-replicate size false,
)

-- What every round keeps, the loop keeps.
pub loop-keeps {ℓ ℓ'} :
    {S : Type ℓ} (P : S → Type ℓ') (count i : ℕ) (body : ℕ → S → S) (s : S)
    → ((k : ℕ) (t : S) → P t → P (body k t))
    → P s
    → P (loop count i body s)
loop-keeps P zero i body s keeps p = p
loop-keeps P (suc count) i body s keeps p =
    loop-keeps P count (suc i) body (body i s) keeps (keeps i s p)

pub branch-keeps {ℓ ℓ'} :
    {S : Type ℓ} (P : S → Type ℓ') (b : Bool) (s t : S) → P s → P t → P (if b then s else t)
branch-keeps P true s t p q = p
branch-keeps P false s t p q = q

abbrev pub SquareGrid : ℕ → Grid → Type 0
SquareGrid size g = Square size g.modules

pub claim-SquareGrid :
    (size r c : ℕ) (dark : Bool) (g : Grid) → SquareGrid size g → SquareGrid size (claim r c dark g)
unfolding claim
claim-SquareGrid size r c dark g = put-Square size g.modules r c dark
