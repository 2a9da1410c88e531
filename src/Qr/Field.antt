-- ===== src/Qr/Field.antt =====
-- Galois field tables and Reed-Solomon codewords (qr.go, `init`, `gfMul`, `rsGenerator`,
-- `rsEncode`). Bytes are numbers below 256; no index is out of range at such numbers.
use Prim.Native.Nat.{bit_and, bit_xor}
use lanrunner.Common.{
  ℕ, zero, suc, ◌+◌, ◌-◌, ◌*◌, ◌%◌, ◌≡◌, refl, List, [], ◌∷◌, ◌++◌, ◌||◌, ◌==◌, if◌then◌else◌,
  get_or, set, drop, replicate, length,
}

-- `x <<= 1`, reduced by the primitive polynomial.
unfoldable pub double : ℕ → ℕ
double x = if bit_and (x * 2) 0x100 == 0 then x * 2 else bit_xor (x * 2) 0x11d

pub record Tables : Type 0 where
  pub exp : List ℕ
  pub log : List ℕ

-- The first loop of `init`: `left` rounds from `i` on.
fill : ℕ → ℕ → ℕ → Tables → Tables
unfolding double
fill zero i x t = t
fill (suc left) i x t =
    fill left (suc i) (double x)
      (record { exp = set t.exp i (x % 256); log = set t.log x (i % 256) })

-- The second loop.
extend : ℕ → ℕ → List ℕ → List ℕ
extend zero i e = e
extend (suc left) i e = extend left (suc i) (set e i (get_or e (i - 255) 0))

pub gf_tables : Tables
unfolding fill extend
gf_tables =
    let t = fill 255 0 1 (record { exp = replicate 512 0; log = replicate 256 0 }) in
    record { exp = extend 257 255 t.exp; log = t.log }

unfoldable pub gf_exp : ℕ → ℕ
unfolding gf_tables
gf_exp i = get_or gf_tables.exp i 0

unfoldable pub gf_log : ℕ → ℕ
unfolding gf_tables
gf_log a = get_or gf_tables.log a 0

unfoldable pub gf_mul : ℕ → ℕ → ℕ
unfolding gf_exp gf_log
gf_mul a b = if a == 0 || b == 0 then 0 else gf_exp (gf_log a + gf_log b)

-- `l[i] ^= v`.
xor_at : List ℕ → ℕ → ℕ → List ℕ
xor_at l i v = set l i (bit_xor (get_or l i 0) v)

-- The product of `g` and (x - a), `j` the index of the first coefficient left.
times_root : ℕ → ℕ → List ℕ → List ℕ → List ℕ
unfolding xor_at
times_root a j [] next = next
times_root a j (c ∷ g) next = times_root a (suc j) g (xor_at (xor_at next j c) (suc j) (gf_mul c a))

generator_loop : ℕ → ℕ → List ℕ → List ℕ
unfolding times_root
generator_loop zero i g = g
generator_loop (suc left) i g =
    generator_loop left (suc i) (times_root (gf_exp i) 0 g (replicate (suc (length g)) 0))

unfoldable pub rs_generator : ℕ → List ℕ
unfolding generator_loop
rs_generator n = generator_loop n 0 (1 ∷ [])

-- `rem[i] ^= gfMul(c, factor)` along the generator without its leading coefficient.
subtract : ℕ → ℕ → List ℕ → List ℕ → List ℕ
unfolding xor_at
subtract factor i [] rem = rem
subtract factor i (c ∷ g) rem = subtract factor (suc i) g (xor_at rem i (gf_mul c factor))

-- The division, one data byte at a time; the remainder has at least one byte.
divide : List ℕ → List ℕ → List ℕ → List ℕ
unfolding subtract
divide g rem [] = rem
divide g rem (d ∷ data') =
    divide g (subtract (bit_xor d (get_or rem 0 0)) 0 g (drop 1 rem ++ 0 ∷ [])) data'

unfoldable pub rs_encode : List ℕ → ℕ → List ℕ
unfolding divide rs_generator
rs_encode data' n = divide (drop 1 (rs_generator n)) (replicate n 0) data'

generator_ten : rs_generator 7 ≡ 1 ∷ 127 ∷ 122 ∷ 154 ∷ 164 ∷ 11 ∷ 68 ∷ 117 ∷ []
unfolding rs_generator gf_mul
generator_ten = refl
