-- ===== src/Secure/Nonces.antt =====
-- No counter gives the nonce of another.
use lanrunner.Common.{
  ℕ, ◌/◌, ◌%◌, ◌<◌, ◌≡◌, refl, sym, ap, ◌∙◌, [], ◌∷◌, ◌++◌, arith, drop, length, get_or,
}
use lanrunner.Secure.{Bytes, put_uint32, put_uint64, nonce_for}

drop-append : (p q : Bytes) → drop (length p) (p ++ q) ≡ q
drop-append [] q = refl
drop-append (x ∷ p) q = drop-append p q

digits :
    (a b : ℕ)
    → a < 0x100000000
    → b < 0x100000000
    → a / 0x1000000 % 256 ≡ b / 0x1000000 % 256
    → a / 0x10000 % 256 ≡ b / 0x10000 % 256
    → a / 0x100 % 256 ≡ b / 0x100 % 256
    → a % 256 ≡ b % 256
    → a ≡ b
digits a b h k e f g i = omega arith

-- Two counters of 64 bits with one nonce are equal.
pub nonce_for-injective :
    (prefix : Bytes) (a b : ℕ)
    → a < 0x10000000000000000
    → b < 0x10000000000000000
    → nonce_for prefix a ≡ nonce_for prefix b
    → a ≡ b
unfolding nonce_for put_uint64 put_uint32
nonce_for-injective prefix a b h k e =
    let tails =
      sym (drop-append prefix (put_uint64 a))
      ∙ ap (drop (length prefix)) e
      ∙ drop-append prefix (put_uint64 b) in
    let digit : (i : ℕ) → get_or (put_uint64 a) i 0 ≡ get_or (put_uint64 b) i 0 =
      λ i. ap (λ l. get_or l i 0) tails in
    let high =
      digits (a / 0x100000000) (b / 0x100000000) (omega arith) (omega arith) (digit 0) (digit 1)
        (digit 2) (digit 3) in
    let low =
      digits (a % 0x100000000) (b % 0x100000000) (omega arith) (omega arith) (digit 4) (digit 5)
        (digit 6) (digit 7) in
    omega arith
