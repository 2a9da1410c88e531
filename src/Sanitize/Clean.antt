-- ===== src/Sanitize/Clean.antt =====
-- No control character or markup survives the cleaning.
use mathlib.Core.List.{reverse, reverse-cons}
use lanrunner.Common.{
  ℕ, zero, suc, ◌≤◌, ◌≡◌, Bool, false, [], ◌∷◌, ◌++◌, ltb, Bool-cases, inl, inr, ltb→le, arith,
  Text, take, length, length-take,
}
use lanrunner.Sanitize.{
  is_control, trim_left, trim_space, bad_in_nick, strip_nick, sanitize_nick, strip_body,
  sanitize_body, cut_body, max_body_runes,
}

-- No character of the text meets the test.
abbrev pub Free : (ℕ → Bool) → Text → Type 0
Free p [] = Unit {0}
Free p (r ∷ s) = (p r ≡ false) × Free p s

Free-append : (p : ℕ → Bool) (s t : Text) → Free p s → Free p t → Free p (s ++ t)
Free-append p [] t h k = k
Free-append p (r ∷ s) t h k = (h.0, Free-append p s t h.1 k)

Free-reverse : (p : ℕ → Bool) (s : Text) → Free p s → Free p (reverse s)
Free-reverse p [] h = tt
Free-reverse p (r ∷ s) h =
    rw (reverse-cons r s) (Free-append p (reverse s) (r ∷ []) (Free-reverse p s h.1) (h.0, tt))

Free-trim_left : (p : ℕ → Bool) (s : Text) → Free p s → Free p (trim_left s)
unfolding trim_left
Free-trim_left p [] h = tt
Free-trim_left p (r ∷ s) h = ground (arith, Free-trim_left p s h.1)

Free-trim_space : (p : ℕ → Bool) (s : Text) → Free p s → Free p (trim_space s)
unfolding trim_space
Free-trim_space p s h =
    Free-reverse p _ (Free-trim_left p _ (Free-reverse p _ (Free-trim_left p s h)))

Free-take : (p : ℕ → Bool) (n : ℕ) (s : Text) → Free p s → Free p (take n s)
Free-take p zero s h = tt
Free-take p (suc n) [] h = tt
Free-take p (suc n) (r ∷ s) h = (h.0, Free-take p n s h.1)

strip_nick-Free : (s : Text) → Free bad_in_nick (strip_nick s)
unfolding strip_nick
strip_nick-Free [] = tt
strip_nick-Free (r ∷ s) = ground (arith, strip_nick-Free s)

-- A cleaned name has at most 24 characters, none of them a control character, `<`, `>` or `|`.
pub sanitize_nick-Free :
    (s : Text) → Free bad_in_nick (sanitize_nick s) × (length (sanitize_nick s) ≤ 24)
unfolding sanitize_nick
sanitize_nick-Free s = ground (
  arith,
  strip_nick-Free (trim_space s),
  Free-take bad_in_nick 24 (strip_nick (trim_space s)),
  length-take 24 (strip_nick (trim_space s)),
)

strip_body-Free : (s : Text) → Free is_control (strip_body s)
unfolding strip_body
strip_body-Free [] = tt
strip_body-Free (r ∷ s) = ground (arith, strip_body-Free s)

cut-Free : (s : Text) → Free is_control s → Free is_control (cut_body s)
unfolding cut_body
cut-Free s h = elim (Bool-cases (ltb max_body_runes (length s))) [
  | inl long ↦ rw long (Free-take is_control max_body_runes s h)
  | inr short ↦ rw short h
]

cut-length : (s : Text) → length (cut_body s) ≤ max_body_runes
unfolding cut_body
cut-length s = elim (Bool-cases (ltb max_body_runes (length s))) [
  | inl long ↦ rw long (omega (arith, length-take max_body_runes s))
  | inr short ↦ rw short (ltb→le _ max_body_runes short)
]

-- What is shown and stored of a body has at most 2048 characters and no control character.
pub cut_body-Free :
    (s : Text)
    → Free is_control (cut_body (sanitize_body s).0)
      × (length (cut_body (sanitize_body s).0) ≤ max_body_runes)
unfolding sanitize_body
cut_body-Free s = (
  cut-Free (trim_space (strip_body s))
      (Free-trim_space is_control (strip_body s) (strip_body-Free s)),
  cut-length (trim_space (strip_body s)),
)
