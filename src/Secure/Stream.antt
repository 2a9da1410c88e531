-- ===== src/Secure/Stream.antt =====
-- What a reader makes of the frames of a writer.
use lanrunner.Common.{
  append_assoc, ℕ, zero, suc, ◌+◌, ◌/◌, ◌%◌, ◌≤◌, ◌<◌, ◌≡◌, ◌≢◌, refl, ap, ◌∙◌, true, false, List,
  [], ◌∷◌, ◌++◌, map, Option, none, some, ltb, ◌==◌, arith, length, take, drop, length-append,
  le→ltb,
}
use lanrunner.Secure.{
  Bytes, SecureConn, Written, over_ceiling, write_failed, wrote, Received, frame, auth_failed,
  write_frame, read_frame, read_body, opened, uint32, put_uint32, put_uint64, nonce_for, max_wire,
}
use lanrunner.Secure.Nonces.{nonce_for-injective}

take-append : (p q : Bytes) → take (length p) (p ++ q) ≡ p
take-append [] q = refl
take-append (x ∷ p) q = ap (x ∷◌) (take-append p q)

drop-append : (p q : Bytes) → drop (length p) (p ++ q) ≡ q
drop-append [] q = refl
drop-append (x ∷ p) q = drop-append p q

uint32-put :
    (n : ℕ)
    → n < 0x100000000
    → uint32 (n / 0x1000000 % 256) (n / 0x10000 % 256) (n / 0x100 % 256) (n % 256) ≡ n
unfolding uint32
uint32-put n h = omega arith

-- What reaches the connection.
abbrev pub wire_of : Written → Bytes
wire_of (over_ceiling n) = []
wire_of write_failed = []
wire_of (wrote bytes) = bytes

module _ {Aead : Type 0} (seal : Aead → Bytes → Bytes → Bytes)
    (open_sealed : Aead → Bytes → Bytes → Option Bytes)
    (opens : (k : Aead) (n p : Bytes) → open_sealed k n (seal k n p) ≡ some p)
    (tagged : (k : Aead) (n p : Bytes) → length (seal k n p) ≡ length p + 16) where
  -- What one end sends is what the other end reads next.
  abbrev pub InStep : SecureConn Aead → SecureConn Aead → Type 0
  InStep s r = (r.rx ≡ s.tx) × (r.rx_prefix ≡ s.tx_prefix) × (r.rx_ctr ≡ s.tx_ctr)

  abbrev pub sealed_now : SecureConn Aead → Bytes → Bytes
  sealed_now s pt = seal s.tx (nonce_for s.tx_prefix s.tx_ctr) pt

  abbrev pub on_wire : Bytes → Bytes
  on_wire ct = put_uint32 (length ct) ++ ct

  read_body-taken :
      (r : SecureConn Aead) (ct rest : Bytes)
      → 0 < length ct
      → length ct ≤ max_wire
      → read_body seal open_sealed r (length ct) (ct ++ rest) ≡ (
        record r { rx_ctr = suc r.rx_ctr % 0x10000000000000000 },
        rest,
        opened r.rx_ctr (open_sealed r.rx (nonce_for r.rx_prefix r.rx_ctr) ct),
      )
  unfolding read_body
  read_body-taken r ct rest h k =
      let nonempty : (length ct == 0) ≡ false = ground arith in
      let fits : ltb max_wire (length ct) ≡ false = le→ltb (length ct) max_wire k in
      let there : ltb (length (ct ++ rest)) (length ct) ≡ false =
        le→ltb (length ct) (length (ct ++ rest)) (omega (arith, length-append ct rest)) in
      rw (nonempty, fits, there, take-append ct rest, drop-append ct rest) refl

  read_frame-on_wire :
      (r : SecureConn Aead) (ct rest : Bytes)
      → 0 < length ct
      → length ct ≤ max_wire
      → read_frame seal open_sealed r (on_wire ct ++ rest) ≡ (
        record r { rx_ctr = suc r.rx_ctr % 0x10000000000000000 },
        rest,
        opened r.rx_ctr (open_sealed r.rx (nonce_for r.rx_prefix r.rx_ctr) ct),
      )
  unfolding put_uint32 read_frame
  read_frame-on_wire r ct rest h k =
      rw (uint32-put (length ct) (omega arith)) (read_body-taken r ct rest h k)

  abbrev pub Small : Bytes → Type 0
  Small pt = length pt + 16 ≤ max_wire

  -- The frame of a writer, read by the reader that is in step.
  read_frame-sealed_now :
      (s r : SecureConn Aead) (pt rest : Bytes)
      → Small pt
      → InStep s r
      → read_frame seal open_sealed r (on_wire (sealed_now s pt) ++ rest)
        ≡ (record r { rx_ctr = suc r.rx_ctr % 0x10000000000000000 }, rest, frame pt)
  unfolding opened
  read_frame-sealed_now s r pt rest small (e, f, g) =
      let len = tagged s.tx (nonce_for s.tx_prefix s.tx_ctr) pt in
      read_frame-on_wire r (sealed_now s pt) rest (omega (arith, len)) (omega (arith, len))
      ∙ rw (e, f, g, opens s.tx (nonce_for s.tx_prefix s.tx_ctr) pt) refl

  -- The frames that go out, one after the other, while the connection takes them.
  pub write_all : SecureConn Aead → List Bytes → Bytes
  write_all s [] = []
  write_all s (pt ∷ pts) =
      wire_of (write_frame seal open_sealed s true pt).1
      ++ write_all (write_frame seal open_sealed s true pt).0 pts

  -- The first frames of the input.
  pub read_all : SecureConn Aead → ℕ → Bytes → List Received
  read_all r zero input = []
  read_all r (suc n) input =
      let got = read_frame seal open_sealed r input in got.2 ∷ read_all got.0 n got.1

  abbrev pub AllSmall : List Bytes → Type 0
  AllSmall [] = Unit {0}
  AllSmall (pt ∷ pts) = Small pt × AllSmall pts

  written-Small :
      (s : SecureConn Aead) (pt : Bytes)
      → Small pt
      → wire_of (write_frame seal open_sealed s true pt).1 ≡ on_wire (sealed_now s pt)
  unfolding write_frame
  written-Small s pt small =
      let fits : ltb max_wire (length (sealed_now s pt)) ≡ false =
        le→ltb (length (sealed_now s pt)) max_wire
          (omega (arith, tagged s.tx (nonce_for s.tx_prefix s.tx_ctr) pt)) in
      rw fits refl

  -- Whatever is sent, in frames under the ceiling, arrives in order and whole.
  pub read_all-write_all :
      (s r : SecureConn Aead) (pts : List Bytes) (rest : Bytes)
      → AllSmall pts
      → InStep s r
      → read_all r (length pts) (write_all s pts ++ rest) ≡ map frame pts
  unfolding read_all write_all write_frame
  read_all-write_all s r [] rest small step = refl
  read_all-write_all s r (pt ∷ pts) rest (small, smalls) (e, f, g) =
      let s2 = (write_frame seal open_sealed s true pt).0 in
      let r2 = record r { rx_ctr = suc r.rx_ctr % 0x10000000000000000 } in
      rw
        (
          written-Small s pt small,
          append_assoc (on_wire (sealed_now s pt)) (write_all s2 pts) rest,
          read_frame-sealed_now s r pt (write_all s2 pts ++ rest) small (e, f, g),
        )
        (ap (frame pt ∷◌) (
          read_all-write_all s2 r2 pts rest smalls (e, f, ap (λ n. suc n % 0x10000000000000000) g)))

  length-nonce_for :
      (prefix : Bytes) (ctr : ℕ) → length prefix ≡ 4 → length (nonce_for prefix ctr) ≡ 12
  unfolding nonce_for put_uint64 put_uint32
  length-nonce_for prefix ctr h = omega (arith, length-append prefix (put_uint64 ctr))

  module _
      (bound : (k : Aead) (n m p : Bytes)
        → length n ≡ 12
        → length m ≡ 12
        → n ≢ m
        → open_sealed k m (seal k n p) ≡ none) where
    -- A frame that was sealed at one counter is refused at any other: replayed, reordered, or sent
    -- after a frame that got lost.
    pub read_frame-replayed :
        (s r : SecureConn Aead) (pt rest : Bytes)
        → Small pt
        → length s.tx_prefix ≡ 4
        → r.rx ≡ s.tx
        → r.rx_prefix ≡ s.tx_prefix
        → s.tx_ctr < 0x10000000000000000
        → r.rx_ctr < 0x10000000000000000
        → s.tx_ctr ≢ r.rx_ctr
        → (read_frame seal open_sealed r
            (wire_of (write_frame seal open_sealed s true pt).1 ++ rest)).2
          ≡ auth_failed r.rx_ctr
    unfolding opened
    read_frame-replayed s r pt rest small four e f h k other =
        let len = tagged s.tx (nonce_for s.tx_prefix s.tx_ctr) pt in
        let refused =
          bound s.tx (nonce_for s.tx_prefix s.tx_ctr) (nonce_for s.tx_prefix r.rx_ctr) pt
            (length-nonce_for s.tx_prefix s.tx_ctr four)
            (length-nonce_for s.tx_prefix r.rx_ctr four)
            (λ eq. other (nonce_for-injective s.tx_prefix s.tx_ctr r.rx_ctr h k eq)) in
        rw
          (
            written-Small s pt small,
            read_frame-on_wire r (sealed_now s pt) rest (omega (arith, len)) (omega (arith, len)),
            e,
            f,
            refused,
          )
          refl
