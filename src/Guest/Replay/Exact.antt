-- ===== src/Guest/Replay/Exact.antt =====
-- The 64-bit window decides exactly what a window over the set of all accepted counters decides.
use Prim.Native.Nat.{bit_and, bit_or, max as larger}
use native.Mathlib.Nat.{one-le-pow}
use lanrunner.Common.Bits.{
  bit, bit-zero, bit-lt-two, bit-bit_or, bit-pow, bit-shl, bit-mod, bit_and-pow,
}
use lanrunner.Common.{
  ℕ, ◌+◌, ◌-◌, ◌*◌, ◌^◌, ◌≤◌, ◌<◌, ◌≡◌, refl, Bool, true, false, List, [], ◌∷◌, leb, ltb, ◌==◌, not,
  ◌&&◌, ◌||◌, if◌then◌else◌, arith, ltb→lt, Bool-cases, inl, inr, ap,
}
use lanrunner.Guest.Replay.{ReplayWindow, new_window, accept, accept_all, slide}

abbrev pub elem : ℕ → List ℕ → Bool
elem s [] = false
elem s (t ∷ seen) = s == t || elem s seen

-- The specification keeps every accepted counter and the newest of them.
abbrev pub may_accept : ℕ → List ℕ → ℕ → Bool
may_accept newest seen s = ltb 0 s && ltb newest (s + 64) && not (elem s seen)

-- Digit `max - s` of the word is set exactly if `s` was accepted, for each `s` in the window.
abbrev Marks : ℕ → ℕ → List ℕ → Type 0
Marks newest bits seen =
    (s : ℕ)
    → 0 < s
    → s ≤ newest
    → newest < s + 64
    → bit bits (newest - s) ≡ (if elem s seen then 1 else 0)

abbrev Bounded : ℕ → List ℕ → Type 0
Bounded newest seen = (s : ℕ) → elem s seen ≡ true → s ≤ newest

record Tracks (w : ReplayWindow) (seen : List ℕ) : Type 0 where
  marks : Marks w.max w.bits seen
  bounded : Bounded w.max seen

-- The word after the window moved on by `d` places to a counter that was not seen before.
bit-slide :
    (bits d k : ℕ) → k < 64 → bit (slide bits d) k ≡ (if ltb k d then 0 else bit bits (k - d))
unfolding slide
bit-slide bits d k h = elim (Bool-cases (leb 64 d)) [
  | inl far ↦ ground (arith, bit-zero k)
  | inr near ↦ rw (near, bit-mod (bits * 2 ^ d) 64 k h) (bit-shl bits d k)
]

-- A newer counter enters at digit 0, and the others keep their meaning.
Marks-newer :
    (m bits seq : ℕ) (seen : List ℕ)
    → m < seq
    → Bounded m seen
    → Marks m bits seen
    → Marks seq (bit_or (slide bits (seq - m)) 1) (seq ∷ seen)
Marks-newer m bits seq seen newer bounded marks s pos low high =
    rw (bit-bit_or (slide bits (seq - m)) 1 (seq - s)) (
      ground (
        arith,
        bit-slide bits (seq - m) (seq - s),
        bit-pow 0 (seq - s),
        bounded s,
        marks s,
        ap (bit bits) (back s),
      ))
  where
    back : (t : ℕ) → seq - t - (seq - m) ≡ m - t
    back t = omega arith

-- A late counter sets its own digit, and no other.
Marks-late :
    (m bits seq : ℕ) (seen : List ℕ)
    → seq ≤ m
    → Marks m bits seen
    → Marks m (bit_or bits (2 ^ (m - seq))) (seq ∷ seen)
Marks-late m bits seq seen late marks s pos low high =
    rw (bit-bit_or bits (2 ^ (m - seq)) (m - s))
      (ground (arith, bit-pow (m - seq) (m - s), marks s, bit-lt-two bits (m - s)))

-- The test of a digit is zero exactly if its counter is new.
digit-test :
    (m bits seq : ℕ) (seen : List ℕ)
    → Marks m bits seen
    → 0 < seq
    → seq ≤ m
    → m < seq + 64
    → (bit_and bits (2 ^ (m - seq)) == 0) ≡ not (elem seq seen)
digit-test m bits seq seen marks pos low high =
    rw (bit_and-pow bits (m - seq), marks seq pos low high)
      (elim (Bool-cases (elem seq seen)) [
        | inl old ↦ rw old (ground (arith, one-le-pow (m - seq) 2 (omega arith)))
        | inr new ↦ rw new (ground arith)
      ])

accept-exact :
    (w : ReplayWindow) (seen : List ℕ) (seq : ℕ)
    → Tracks w seen
    → (accept w seq).1 ≡ may_accept w.max seen seq
unfolding accept
accept-exact w seen seq t = ground (arith, digit-test w.max w.bits seq seen t.marks, t.bounded seq)

-- What the window tracks after a frame.
abbrev pub heard : Bool → ℕ → List ℕ → List ℕ
heard fresh seq seen = if fresh then seq ∷ seen else seen

accept-Tracks :
    (w : ReplayWindow) (seen : List ℕ) (seq : ℕ)
    → Tracks w seen
    → Tracks (accept w seq).0 (heard (accept w seq).1 seq seen)
unfolding accept
accept-Tracks w seen seq t = elim (Bool-cases (seq == 0)) [
  | inl z ↦ rw z t
  | inr nz ↦ rw nz (elim (Bool-cases (ltb w.max seq)) [
    | inl n ↦ rw n (record {
      marks = Marks-newer w.max w.bits seq seen (ltb→lt _ _ n) t.bounded t.marks;
      bounded = λ s h. ground (arith, t.bounded s);
    })
    | inr o ↦ rw o (elim (Bool-cases (leb 64 (w.max - seq))) [
      | inl far ↦ rw far t
      | inr near ↦ rw near (elim (Bool-cases (bit_and w.bits (2 ^ (w.max - seq)) == 0)) [
        | inl new ↦ rw new (record {
          marks = Marks-late w.max w.bits seq seen (ground arith) t.marks;
          bounded = λ s h. ground (arith, t.bounded s);
        })
        | inr old ↦ rw old t
      ])
    ])
  ])
]

accept-max :
    (w : ReplayWindow) (seq : ℕ)
    → (accept w seq).0.max ≡ (if (accept w seq).1 then larger w.max seq else w.max)
unfolding accept
accept-max w seq = ground arith

pub may_accept_all : ℕ → List ℕ → List ℕ → List Bool
may_accept_all newest seen [] = []
may_accept_all newest seen (seq ∷ rest) =
    let fresh = may_accept newest seen seq in
    fresh ∷ may_accept_all (if fresh then larger newest seq else newest) (heard fresh seq seen) rest

accept_all-refines :
    (w : ReplayWindow) (seen seqs : List ℕ)
    → Tracks w seen
    → accept_all w seqs ≡ may_accept_all w.max seen seqs
unfolding accept_all may_accept_all
accept_all-refines w seen [] t = refl
accept_all-refines w seen (seq ∷ rest) t =
    rw (← accept-exact w seen seq t, ← accept-max w seq)
      (ap (◌∷◌ (accept w seq).1) (
        accept_all-refines (accept w seq).0 (heard (accept w seq).1 seq seen) rest
          (accept-Tracks w seen seq t)))

new_window-Tracks : Tracks new_window []
new_window-Tracks = record { marks = λ s p q r. absurd (omega arith); bounded = λ s h. cc }

-- On every stream of counters the gateway's 64-bit window gives frame by frame the verdicts of the
-- specification that remembers all it accepted: a counter is accepted exactly if it is positive,
-- less than 64 behind the newest accepted one, and was not accepted before.
pub accept_all-may_accept_all :
    (seqs : List ℕ) → accept_all new_window seqs ≡ may_accept_all 0 [] seqs
accept_all-may_accept_all seqs = accept_all-refines new_window [] seqs new_window-Tracks

-- The counters of the accepted frames, in order.
pub accepted : ReplayWindow → List ℕ → List ℕ
accepted w [] = []
accepted w (seq ∷ rest) = let (w', fresh) = accept w seq in heard fresh seq (accepted w' rest)

abbrev pub Distinct : List ℕ → Type 0
Distinct [] = Unit {0}
Distinct (s ∷ rest) = (elem s rest ≡ false) × Distinct rest

accepted-new :
    (w : ReplayWindow) (seen seqs : List ℕ) (s : ℕ)
    → Tracks w seen
    → elem s seen ≡ true
    → elem s (accepted w seqs) ≡ false
unfolding accepted
accepted-new w seen [] s t h = refl
accepted-new w seen (seq ∷ rest) s t h = ground (
  arith,
  accept-exact w seen seq t,
  accepted-new (accept w seq).0 (heard (accept w seq).1 seq seen) rest s
      (accept-Tracks w seen seq t),
)

accepted-Distinct_from :
    (w : ReplayWindow) (seen seqs : List ℕ) → Tracks w seen → Distinct (accepted w seqs)
unfolding accepted
accepted-Distinct_from w seen [] t = tt
accepted-Distinct_from w seen (seq ∷ rest) t = ground (
  arith,
  accepted-new (accept w seq).0 (seq ∷ seen) rest seq,
  accept-Tracks w seen seq t,
  accepted-Distinct_from (accept w seq).0 (heard (accept w seq).1 seq seen) rest
      (accept-Tracks w seen seq t),
)

-- No counter is accepted twice, whatever frames are replayed and in whatever order they arrive.
pub accepted-Distinct : (seqs : List ℕ) → Distinct (accepted new_window seqs)
accepted-Distinct seqs = accepted-Distinct_from new_window [] seqs new_window-Tracks
