-- ===== src/Qr/Buffer.antt =====
-- The bit buffer (qr.go, `bitBuffer`).
use Prim.Native.Nat.{bit_and, bit_or}
use lanrunner.Common.{
  ℕ, zero, suc, ◌+◌, ◌-◌, ◌/◌, ◌%◌, ◌^◌, Bool, List, [], ◌∷◌, ◌++◌, not, ◌==◌, if◌then◌else◌,
  get_or, set, replicate, length,
}

-- `n` bits of `value`, the highest first.
unfoldable pub append : List Bool → ℕ → ℕ → List Bool
append bits value zero = bits
append bits value (suc i) = append (bits ++ not (bit_and value (2 ^ i) == 0) ∷ []) value i

-- `i` is the index of the first bit left.
pack : ℕ → List Bool → List ℕ → List ℕ
pack i [] out = out
pack i (b ∷ bits) out =
    pack (suc i) bits
      (if b then set out (i / 8) (bit_or (get_or out (i / 8) 0) (2 ^ (7 - i % 8))) else out)

unfoldable pub bytes : List Bool → List ℕ
unfolding pack
bytes bits = pack 0 bits (replicate ((length bits + 7) / 8) 0)
