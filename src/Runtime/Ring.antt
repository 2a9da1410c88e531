-- ===== src/Runtime/Ring.antt =====
-- The ring keeps the newest lines.
use lanrunner.Common.{
  append-nil, append_assoc, ℕ, zero, suc, ◌+◌, ◌-◌, ◌≤◌, ◌≡◌, refl, sym, ap, ◌∙◌, List, [], ◌∷◌,
  ◌++◌, ltb, if◌then◌else◌, length, drop, length-append, length-drop, inl, inr, Bool-cases, arith,
}
use lanrunner.Runtime.{LogLine, logf, log_ring_size}

pub log_all : List LogLine → List LogLine → List LogLine
log_all ring [] = ring
log_all ring (l ∷ ls) = log_all (logf ring l) ls

-- The last lines, as many as the ring holds.
abbrev pub newest : List LogLine → List LogLine
newest ls = drop (length ls - log_ring_size) ls

drop-append : (m : ℕ) (xs ys : List LogLine) → m ≤ length xs → drop m xs ++ ys ≡ drop m (xs ++ ys)
drop-append zero xs ys h = refl
drop-append (suc m) [] ys h = absurd (omega arith)
drop-append (suc m) (x ∷ xs) ys h = drop-append m xs ys (omega arith)

drop-nil : (n : ℕ) → drop {A = LogLine} n [] ≡ []
drop-nil zero = refl
drop-nil (suc n) = refl

drop-drop : (a b : ℕ) (xs : List LogLine) → drop a (drop b xs) ≡ drop (b + a) xs
drop-drop a zero xs = ap (λ n. drop n xs) (omega arith)
drop-drop zero (suc b) [] = sym (drop-nil (suc b + 0))
drop-drop (suc a) (suc b) [] = sym (drop-nil (suc b + suc a))
drop-drop a (suc b) (x ∷ xs) =
    let n : suc b + a ≡ suc (b + a) = omega arith in
    drop-drop a b xs ∙ sym (ap (λ k. drop k (x ∷ xs)) n)

-- One line more on a list of which `m` lines are gone.
step :
    (m : ℕ) (xs : List LogLine)
    → (if ltb log_ring_size (length (drop m xs))
        then drop (length (drop m xs) - log_ring_size) (drop m xs)
        else drop m xs)
      ≡ drop (m + (length xs - m - log_ring_size)) xs
step m xs = elim (Bool-cases (ltb log_ring_size (length (drop m xs)))) [
  | inl big ↦ rw (big, drop-drop (length (drop m xs) - log_ring_size) m xs, length-drop m xs) refl
  | inr small ↦
      let none_more : m + (length xs - m - log_ring_size) ≡ m = ground (arith, length-drop m xs) in
      rw (small, none_more) refl
]

logf-newest : (all : List LogLine) (l : LogLine) → logf (newest all) l ≡ newest (all ++ l ∷ [])
unfolding logf
logf-newest all l =
    let m = length all - log_ring_size in
    let xs = all ++ l ∷ [] in
    let grown = length-append all (l ∷ []) in
    let far : m + (length xs - m - log_ring_size) ≡ length xs - log_ring_size =
      omega (arith, grown) in
    rw (drop-append m all (l ∷ []) (omega arith)) (step m xs ∙ ap (λ k. drop k xs) far)

log_all-from : (all ls : List LogLine) → log_all (newest all) ls ≡ newest (all ++ ls)
unfolding log_all
log_all-from all [] = ap newest (sym (append-nil all))
log_all-from all (l ∷ ls) =
    rw (logf-newest all l)
      (log_all-from (all ++ l ∷ []) ls ∙ ap newest (append_assoc all (l ∷ []) ls))

-- Whatever is logged, and however much of it, the ring holds exactly the last 500 lines, or all of them
-- where there are fewer.
pub log_all-newest : (ls : List LogLine) → log_all [] ls ≡ newest ls
log_all-newest ls = log_all-from [] ls
