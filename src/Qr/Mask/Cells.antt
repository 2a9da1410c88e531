-- ===== src/Qr/Mask/Cells.antt =====
-- What a mask does to each module of a square matrix (qr.go, `applyMask`).
use lanrunner.Common.{
  ℕ, zero, suc, ◌+◌, ◌<◌, ◌≤◌, ◌≡◌, ◌≢◌, refl, ap, ◌∙◌, Bool, true, false, [], not, ◌&&◌,
  if◌then◌else◌, get_or, set, inl, inr, ◌⊎◌, Bool-cases, Nat-cases, arith,
}
use lanrunner.Qr.Grid.{Matrix, loop, at, put}
use lanrunner.Qr.Grid.Square.{Square, get_or-set_self, get_or-set_other, put-Square}
use lanrunner.Qr.Mask.{mask_at, flip_cell, apply_mask}

at-put_self :
    (size : ℕ) (m : Matrix) (r c : ℕ) (dark : Bool)
    → r < size
    → c < size
    → Square size m
    → at (put m r c dark) r c ≡ dark
unfolding at put
at-put_self size m r c dark in_r in_c (rows, row) =
    ap (λ xs. get_or xs c false) (get_or-set_self m r (set (get_or m r []) c dark) [] (omega arith))
    ∙ get_or-set_self (get_or m r []) c dark false (let wide = row r in_r in omega arith)

at-put_other :
    (size : ℕ) (m : Matrix) (r c x y : ℕ) (dark : Bool)
    → r < size
    → Square size m
    → (x ≢ r) ⊎ (y ≢ c)
    → at (put m r c dark) x y ≡ at m x y
unfolding at put
at-put_other size m r c x y dark in_r (rows, row) off = elim (Nat-cases x r) [
  | inr ne ↦
      ap (λ xs. get_or xs y false) (get_or-set_other m r x (set (get_or m r []) c dark) [] ne)
  | inl e ↦ rw e (
      ap (λ xs. get_or xs y false)
        (get_or-set_self m r (set (get_or m r []) c dark) [] (omega arith))
      ∙ elim off [
        | inl ne ↦ absurd (ne e)
        | inr ne ↦ get_or-set_other (get_or m r []) c y dark false ne
      ])
]

not-not : (b : Bool) → not (not b) ≡ b
not-not true = refl
not-not false = refl

module _ (reserved : Matrix) (mask : ℕ) where
  -- The module with the mask on it.
  abbrev pub flipped : ℕ → ℕ → Bool → Bool
  flipped r c dark = if not (at reserved r c) && mask_at mask r c then not dark else dark

  flip_cell-at :
      (size : ℕ) (m : Matrix) (r c : ℕ)
      → r < size
      → c < size
      → Square size m
      → Square size (flip_cell reserved mask r c m)
        × (at (flip_cell reserved mask r c m) r c ≡ flipped r c (at m r c))
        × ((x y : ℕ) → (x ≢ r) ⊎ (y ≢ c) → at (flip_cell reserved mask r c m) x y ≡ at m x y)
  unfolding flip_cell
  flip_cell-at size m r c in_r in_c square =
      elim (Bool-cases (not (at reserved r c) && mask_at mask r c)) [
        | inl e ↦ rw e (
          put-Square size m r c (not (at m r c)) square,
          at-put_self size m r c (not (at m r c)) in_r in_c square,
          λ x y off. at-put_other size m r c x y (not (at m r c)) in_r square off,
        )
        | inr e ↦ rw e (square, refl, λ x y off. refl)
      ]

  -- What a pass over the modules `i` to `i + n` of the row `r` leaves.
  abbrev RowPassed : ℕ → ℕ → ℕ → ℕ → Matrix → Matrix → Type 0
  RowPassed size r i n m m' =
      Square size m'
      × ((y : ℕ) → i ≤ y → y < i + n → at m' r y ≡ flipped r y (at m r y))
      × ((x y : ℕ) → (x ≢ r) ⊎ ((y < i) ⊎ (i + n ≤ y)) → at m' x y ≡ at m x y)

  row_pass :
      (size r n i : ℕ) (m : Matrix)
      → r < size
      → i + n ≤ size
      → Square size m
      → RowPassed size r i n m (loop n i (λ c. flip_cell reserved mask r c) m)
  row_pass size r zero i m in_r fits square =
      (square, λ y low high. absurd (omega arith), λ x y off. refl)
  row_pass size r (suc n) i m in_r fits square =
      let (square1, on1, off1) = flip_cell-at size m r i in_r (omega arith) square in
      let (square2, on2, off2) =
        row_pass size r n (suc i) (flip_cell reserved mask r i m) in_r (omega arith) square1 in
      (
        square2,
        λ y low high. elim (Nat-cases y i) [
          | inl e ↦ rw e (off2 r i (inr (inl (omega arith))) ∙ on1)
          | inr ne ↦ on2 y (omega arith) (omega arith) ∙ ap (flipped r y) (off1 r y (inr ne))
        ],
        λ x y off. elim off [
          | inl ne ↦ off2 x y (inl ne) ∙ off1 x y (inl ne)
          | inr (inl low) ↦ off2 x y (inr (inl (omega arith))) ∙ off1 x y (inr (λ e. omega arith))
          | inr (inr high) ↦ off2 x y (inr (inr (omega arith))) ∙ off1 x y (inr (λ e. omega arith))
        ],
      )

  abbrev RowsPassed : ℕ → ℕ → ℕ → Matrix → Matrix → Type 0
  RowsPassed size i n m m' =
      Square size m'
      × ((x y : ℕ) → i ≤ x → x < i + n → y < size → at m' x y ≡ flipped x y (at m x y))
      × ((x y : ℕ) → (x < i) ⊎ (i + n ≤ x) → at m' x y ≡ at m x y)

  rows_pass :
      (size n i : ℕ) (m : Matrix)
      → i + n ≤ size
      → Square size m
      → RowsPassed size i n m (loop n i (λ r. loop size 0 (λ c. flip_cell reserved mask r c)) m)
  rows_pass size zero i m fits square =
      (square, λ x y low high wide. absurd (omega arith), λ x y off. refl)
  rows_pass size (suc n) i m fits square =
      let (square1, on1, off1) = row_pass size i size 0 m (omega arith) (omega arith) square in
      let (square2, on2, off2) =
        rows_pass size n (suc i) (loop size 0 (λ c. flip_cell reserved mask i c) m) (omega arith)
          square1 in
      (
        square2,
        λ x y low high wide. elim (Nat-cases x i) [
          | inl e ↦ rw e (off2 i y (inl (omega arith)) ∙ on1 y (omega arith) (omega arith))
          | inr ne ↦ on2 x y (omega arith) (omega arith) wide ∙ ap (flipped x y) (off1 x y (inl ne))
        ],
        λ x y off. elim off [
          | inl low ↦ off2 x y (inl (omega arith)) ∙ off1 x y (inl (λ e. omega arith))
          | inr high ↦ off2 x y (inr (omega arith)) ∙ off1 x y (inl (λ e. omega arith))
        ],
      )

  apply_mask-at :
      (size : ℕ) (src : Matrix)
      → Square size src
      → Square size (apply_mask src reserved mask size)
        × ((r c : ℕ)
            → r < size
            → c < size
            → at (apply_mask src reserved mask size) r c ≡ flipped r c (at src r c))
  unfolding apply_mask
  apply_mask-at size src square =
      let (square', on, off) = rows_pass size size 0 src (omega arith) square in
      (square', λ r c in_r in_c. on r c (omega arith) (omega arith) in_c)

  flipped-flipped : (r c : ℕ) (dark : Bool) → flipped r c (flipped r c dark) ≡ dark
  flipped-flipped r c dark = elim (Bool-cases (not (at reserved r c) && mask_at mask r c)) [
    | inl e ↦ rw e (not-not dark)
    | inr e ↦ rw e refl
  ]

  -- On a square matrix a mask inverts exactly the modules that it marks and that are not reserved, and a
  -- reader who applies it once more has every module back.
  pub apply_mask-apply_mask :
      (size : ℕ) (src : Matrix) (r c : ℕ)
      → Square size src
      → r < size
      → c < size
      → (at (apply_mask src reserved mask size) r c
          ≡ (if not (at reserved r c) && mask_at mask r c then not (at src r c) else at src r c))
        × (at (apply_mask (apply_mask src reserved mask size) reserved mask size) r c ≡ at src r c)
  apply_mask-apply_mask size src r c square in_r in_c =
      let (square1, once) = apply_mask-at size src square in
      let (square2, twice) = apply_mask-at size (apply_mask src reserved mask size) square1 in
      (
        once r c in_r in_c,
        twice r c in_r in_c
            ∙ ap (flipped r c) (once r c in_r in_c)
            ∙ flipped-flipped r c (at src r c),
      )
