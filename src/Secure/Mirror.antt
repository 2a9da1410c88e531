-- ===== src/Secure/Mirror.antt =====
-- The two ends of a session.
use lanrunner.Common.{◌≡◌, true, false, Option, none, some, Text, take, arith}
use lanrunner.Secure.{Bytes, SecureConn, with_keys, keys_of, derive_session, d2r, r2d}

-- What each end sends, the other reads: keys, prefixes and counters.
abbrev pub Mirror : {Aead : Type 0} → SecureConn Aead → SecureConn Aead → Type 0
Mirror s r =
    (r.rx ≡ s.tx)
    × (r.rx_prefix ≡ s.tx_prefix)
    × (r.rx_ctr ≡ s.tx_ctr)
    × (r.tx ≡ s.rx)
    × (r.tx_prefix ≡ s.rx_prefix)
    × (r.tx_ctr ≡ s.rx_ctr)

module _ {Aead : Type 0} (hmac : Bytes → Bytes → Bytes) (new_gcm : Bytes → Option Aead) where
  with_keys-Mirror :
      (a b : Bytes) (o p : Option Aead) (s r : SecureConn Aead)
      → with_keys hmac new_gcm a b o p ≡ some s
      → with_keys hmac new_gcm b a p o ≡ some r
      → Mirror s r
  unfolding with_keys
  with_keys-Mirror a b none p s r e f = absurd (ground arith)
  with_keys-Mirror a b (some x) none s r e f = absurd (ground arith)
  with_keys-Mirror a b (some x) (some y) s r e f = ground arith

  -- Both ends of a handshake that agree on the secret, the salt and the two fingerprints derive
  -- mirrored sessions, whichever of them dialled.
  pub derive_session-Mirror :
      (shared salt : Bytes) (dialer responder : Text) (s r : SecureConn Aead)
      → derive_session hmac new_gcm shared salt dialer responder true ≡ some s
      → derive_session hmac new_gcm shared salt dialer responder false ≡ some r
      → Mirror s r
  unfolding derive_session keys_of
  derive_session-Mirror shared salt dialer responder s r e f =
      let down = d2r hmac new_gcm shared salt dialer responder in
      let up = r2d hmac new_gcm shared salt dialer responder in
      with_keys-Mirror down up (new_gcm (take 32 down)) (new_gcm (take 32 up)) s r e f
