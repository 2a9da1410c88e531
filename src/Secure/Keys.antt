-- ===== src/Secure/Keys.antt =====
-- The length of the key material, and that it gives a session.
use lanrunner.Common.{
  ℕ, zero, suc, ◌+◌, ◌%◌, ◌≤◌, ◌≡◌, refl, Bool, true, false, Option, some, Text, take, drop, [],
  ◌∷◌, ◌++◌, arith, length, length-append, length-take,
}
use lanrunner.Secure.{
  Bytes, SecureConn, expand, hkdf_sha256, derive_session, keys_of, with_keys, d2r, r2d,
}

module _ (hmac : Bytes → Bytes → Bytes)
    (sized : (key text : Bytes) → length (hmac key text) ≡ 32) where
  length-expand :
      (prk info : Bytes) (n : ℕ) (t out : Bytes) (i fuel : ℕ)
      → n ≤ length out + fuel
      → n ≤ length (expand hmac prk info n t out i fuel)
  unfolding expand
  length-expand prk info n t out i zero h = omega arith
  length-expand prk info n t out i (suc fuel) h =
      let block = hmac prk (t ++ info ++ (i ∷ [])) in
      let grown =
        length-expand prk info n block (out ++ block) (suc i % 256) fuel
          (omega (arith, length-append out block, sized prk (t ++ info ++ (i ∷ [])))) in
      ground (arith, grown)

  -- With an HMAC of 32 bytes, any length that is asked for is given, to the byte.
  pub length-hkdf_sha256 :
      (secret salt info : Bytes) (n : ℕ) → length (hkdf_sha256 hmac secret salt info n) ≡ n
  unfolding hkdf_sha256
  length-hkdf_sha256 secret salt info n = omega (
    arith,
    length-take n (expand hmac (hmac salt secret) info n [] [] 1 n),
    length-expand (hmac salt secret) info n [] [] 1 n (omega arith),
  )

  module _ {Aead : Type 0} (new_gcm : Bytes → Option Aead)
      (takes : (k : Bytes) → length k ≡ 32 → (aead : Aead) × (new_gcm k ≡ some aead)) where
    -- 36 bytes of key material give a cipher.
    keyed : (mat : Bytes) → length mat ≡ 36 → (aead : Aead) × (new_gcm (take 32 mat) ≡ some aead)
    keyed mat h = takes (take 32 mat) (omega (arith, length-take 32 mat))

    keys_of-some :
        (tx rx : Bytes)
        → length tx ≡ 36
        → length rx ≡ 36
        → (s : SecureConn Aead) × (keys_of hmac new_gcm tx rx ≡ some s)
    unfolding keys_of with_keys
    keys_of-some tx rx h k =
        let (a, p) = keyed tx h in
        let (b, q) = keyed rx k in
        let s : SecureConn Aead = record {
          tx = a;
          rx = b;
          tx_prefix = take 4 (drop 32 tx);
          rx_prefix = take 4 (drop 32 rx);
          tx_ctr = 0;
          rx_ctr = 0;
        } in
        (s, rw (p, q) refl)

    pub derive_session-some :
        (shared salt : Bytes) (dialer responder : Text) (we_are_dialer : Bool)
        → (s : SecureConn Aead) × (derive_session hmac new_gcm shared salt dialer responder
              we_are_dialer
            ≡ some s)
    unfolding derive_session d2r r2d
    derive_session-some shared salt dialer responder true =
        keys_of-some _ _ (length-hkdf_sha256 shared salt _ 36) (length-hkdf_sha256 shared salt _ 36)
    derive_session-some shared salt dialer responder false =
        keys_of-some _ _ (length-hkdf_sha256 shared salt _ 36) (length-hkdf_sha256 shared salt _ 36)
