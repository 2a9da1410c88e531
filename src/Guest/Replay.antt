-- ===== src/Guest/Replay.antt =====
-- The anti-replay window of a guest session (guest.go, `replayWindow`): 64-bit words, wrapping.
pub mod Exact
use Prim.Native.Nat.{bit_and, bit_or}
use lanrunner.Common.{
  ℕ, ◌-◌, ◌*◌, ◌%◌, ◌^◌, Bool, true, false, List, [], ◌∷◌, leb, ltb, ◌==◌, not, ◌&&◌, if◌then◌else◌,
}

abbrev pub u64_mod : ℕ
u64_mod = 2 ^ 64

pub record ReplayWindow : Type 0 where
  pub max : ℕ
  pub bits : ℕ

abbrev pub new_window : ReplayWindow
new_window = record { max = 0; bits = 0 }

-- `w.bits` moved by `shift` places: 0 from 64 on, as the code writes it.
slide : ℕ → ℕ → ℕ
slide bits shift = if leb 64 shift then 0 else bits * 2 ^ shift % u64_mod

-- Both subtractions are of a smaller number, so that no word wraps.
pub accept : ReplayWindow → ℕ → ReplayWindow × Bool
accept w seq =
    if seq == 0
    then (w, false)
    else if ltb w.max seq
    then (record { max = seq; bits = bit_or (slide w.bits (seq - w.max)) 1 }, true)
    else if leb 64 (w.max - seq)
    then (w, false)
    else if not (bit_and w.bits (2 ^ (w.max - seq)) == 0)
    then (w, false)
    else (record w { bits = bit_or w.bits (2 ^ (w.max - seq)) }, true)

-- The verdicts on a stream of frames, in order of arrival.
pub accept_all : ReplayWindow → List ℕ → List Bool
accept_all w [] = []
accept_all w (seq ∷ rest) = let (w', fresh) = accept w seq in fresh ∷ accept_all w' rest
