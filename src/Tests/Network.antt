-- ===== src/Tests/Network.antt =====
-- The theorems on the encrypted channel and on peers (crypto.go, discovery.go, transport.go) at
-- concrete inputs, with a toy cipher that puts the nonce before the text.
use lanrunner.Common.{
  ℕ, zero, suc, ◌+◌, ◌≤◌, ◌≡◌, ◌≢◌, refl, sym, ap, ◌∙◌, Bool, true, false, List, [], ◌∷◌, ◌++◌,
  Option, none, some, if◌then◌else◌, Text, codes, map, same, same_iff, same_refl, length, take,
  drop, replicate, length-append, length-take, length-replicate, Bool-cases, inl, inr, arith,
}
use lanrunner.Common.Dict.{lookup}
use lanrunner.Secure.{Bytes, SecureConn, frame, auth_failed, read_frame, write_frame, hkdf_sha256}
use lanrunner.Secure.Keys.{length-hkdf_sha256}
use lanrunner.Secure.Stream.{read_all, write_all, wire_of, read_all-write_all, read_frame-replayed}
use lanrunner.Peers.{Net, Conn, dialer_of}
use lanrunner.Peers.Converge.{smaller, both, register-converge}

tag : Bytes → Bytes
tag n = take 16 (n ++ replicate 16 0)

length-tag : (n : Bytes) → length (tag n) ≡ 16
unfolding tag
length-tag n = omega (
  arith,
  length-take 16 (n ++ replicate 16 0),
  length-append n (replicate 16 0),
  length-replicate {A = ℕ} 16 0,
)

toy_seal : Bytes → Bytes → Bytes → Bytes
toy_seal k n p = tag n ++ p

toy_open : Bytes → Bytes → Bytes → Option Bytes
toy_open k n c = if same (tag n) (take 16 c) then some (drop 16 c) else none

take-front : (m : ℕ) (p q : Bytes) → length p ≡ m → take m (p ++ q) ≡ p
take-front zero [] q h = refl
take-front zero (x ∷ p) q h = absurd (omega arith)
take-front (suc m) [] q h = absurd (omega arith)
take-front (suc m) (x ∷ p) q h = ap (x ∷◌) (take-front m p q (omega arith))

drop-front : (m : ℕ) (p q : Bytes) → length p ≡ m → drop m (p ++ q) ≡ q
drop-front zero [] q h = refl
drop-front zero (x ∷ p) q h = absurd (omega arith)
drop-front (suc m) [] q h = absurd (omega arith)
drop-front (suc m) (x ∷ p) q h = drop-front m p q (omega arith)

toy_opens : (k n p : Bytes) → toy_open k n (toy_seal k n p) ≡ some p
unfolding toy_open toy_seal
toy_opens k n p =
    rw
      (
        take-front 16 (tag n) p (length-tag n),
        drop-front 16 (tag n) p (length-tag n),
        same_refl (tag n),
      )
      refl

toy_tagged : (k n p : Bytes) → length (toy_seal k n p) ≡ length p + 16
unfolding toy_seal
toy_tagged k n p = omega (arith, length-append (tag n) p, length-tag n)

take-take : (m k : ℕ) (p : Bytes) → m ≤ k → take m (take k p) ≡ take m p
take-take zero k p h = refl
take-take (suc m) zero p h = absurd (omega arith)
take-take (suc m) (suc k) [] h = refl
take-take (suc m) (suc k) (x ∷ p) h = ap (x ∷◌) (take-take m k p (omega arith))

tag_nonce : (n : Bytes) → length n ≡ 12 → take 12 (tag n) ≡ n
unfolding tag
tag_nonce n h =
    take-take 12 16 (n ++ replicate 16 0) (omega arith) ∙ take-front 12 n (replicate 16 0) h

toy_bound :
    (k n m p : Bytes) → length n ≡ 12 → length m ≡ 12 → n ≢ m → toy_open k m (toy_seal k n p) ≡ none
unfolding toy_open toy_seal
toy_bound k n m p h i other =
    rw (take-front 16 (tag n) p (length-tag n)) (elim (Bool-cases (same (tag m) (tag n))) [
      | inl e ↦ absurd (
          other (
            sym (tag_nonce n h)
            ∙ (ap (take 12) (sym ((same_iff (tag m) (tag n)).0 e)) ∙ tag_nonce m i)))
      | inr e ↦ rw e refl
    ])

abbrev sender : SecureConn Bytes
sender = record {
  tx = b'k' ∷ [];
  rx = b'j' ∷ [];
  tx_prefix = 1 ∷ 2 ∷ 3 ∷ 4 ∷ [];
  rx_prefix = 5 ∷ 6 ∷ 7 ∷ 8 ∷ [];
  tx_ctr = 7;
  rx_ctr = 0;
}

abbrev receiver : ℕ → SecureConn Bytes
receiver ctr = record {
  tx = b'j' ∷ [];
  rx = b'k' ∷ [];
  tx_prefix = 5 ∷ 6 ∷ 7 ∷ 8 ∷ [];
  rx_prefix = 1 ∷ 2 ∷ 3 ∷ 4 ∷ [];
  tx_ctr = 0;
  rx_ctr = ctr;
}

abbrev words : List Bytes
words = codes "hello" ∷ [] ∷ codes "bye" ∷ []

read_all-write_all_example :
    read_all toy_seal toy_open toy_opens toy_tagged
      (receiver 7)
      3
      (write_all toy_seal toy_open toy_opens toy_tagged sender words ++ codes "more")
    ≡ map frame words
read_all-write_all_example =
    read_all-write_all toy_seal toy_open toy_opens toy_tagged sender (receiver 7) words
      (codes "more") (omega arith, (omega arith, (omega arith, tt))) (refl, refl, refl)

read_frame-replayed_example :
    (read_frame toy_seal toy_open
      (receiver 8)
      (wire_of (write_frame toy_seal toy_open sender true (codes "hello")).1 ++ [])).2
    ≡ auth_failed 8
read_frame-replayed_example =
    read_frame-replayed toy_seal toy_open toy_opens toy_tagged toy_bound sender (receiver 8)
      (codes "hello") [] (omega arith) refl refl refl (omega arith) (omega arith) (ground arith)

toy_hmac : Bytes → Bytes → Bytes
toy_hmac key text = replicate 32 (length key + length text)

toy_hmac-sized : (key text : Bytes) → length (toy_hmac key text) ≡ 32
unfolding toy_hmac
toy_hmac-sized key text = length-replicate 32 (length key + length text)

length-hkdf_sha256_example :
    length (hkdf_sha256 toy_hmac (codes "s") (codes "salt") (codes "info") 36) ≡ 36
length-hkdf_sha256_example =
    length-hkdf_sha256 toy_hmac toy_hmac-sized (codes "s") (codes "salt") (codes "info") 36

abbrev four : Bytes
four = 1 ∷ 2 ∷ 3 ∷ 4 ∷ []

abbrev net_of : Text → Net
net_of fp = record {
  self_fp = fp;
  peers = [];
  conns = [];
  trust = record { recs = []; saved = [] };
}

abbrev link : ℕ → Text → Bool → Conn
link serial fp outbound = record { serial = serial; fp = fp; outbound = outbound; closed = false }

register-converge_example :
    (s : Conn) × (s' : Conn) × (lookup
        (codes "b")
        (both (net_of (codes "a")) (link 1 (codes "b") true) (link 2 (codes "b") false)).conns
      ≡ some s)
    × (lookup
          (codes "a")
          (both (net_of (codes "b")) (link 1 (codes "a") true) (link 2 (codes "a") false)).conns
        ≡ some s')
    × (dialer_of s (codes "a") ≡ smaller (codes "a") (codes "b"))
    × (dialer_of s' (codes "b") ≡ smaller (codes "a") (codes "b"))
unfolding lookup
register-converge_example =
    register-converge (net_of (codes "a")) (net_of (codes "b")) (codes "a") (codes "b")
      (link 1 (codes "b") true) (link 2 (codes "b") false) (link 1 (codes "a") true)
      (link 2 (codes "a") false) refl refl (refl, refl, refl, refl) (refl, refl, refl, refl)
