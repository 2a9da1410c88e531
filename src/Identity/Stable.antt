-- ===== src/Identity/Stable.antt =====
-- An identity outlives the program, and its file is never replaced.
use lanrunner.Common.{
  ℕ, ◌≡◌, refl, ap, Bool, true, false, List, Option, some, ◌==◌, Text, length, arith,
}
use lanrunner.Peers.Discovery.{Crypto}
use lanrunner.Identity.{
  KeyLib, absent, content, loaded, identity_of, with_x, x_decoded, with_seed, read_keys, key_file,
  store_keys, create_identity, load_or_create_identity,
}

module _ (c : Crypto) (k : KeyLib) where
  -- The libraries read back what they write, for these keys.
  abbrev pub ReadBack : List ℕ → List ℕ → Text → Text → Type 0
  ReadBack ed_priv x_priv made blob =
      (k.marshal (key_file c k ed_priv x_priv made) ≡ some blob)
      × (k.parse blob ≡ some (key_file c k ed_priv x_priv made))
      × (c.base64_decode (k.base64_encode (k.seed_of ed_priv)) ≡ some (k.seed_of ed_priv))
      × (length (k.seed_of ed_priv) ≡ 32)
      × (k.key_from_seed (k.seed_of ed_priv) ≡ ed_priv)
      × (c.base64_decode (k.base64_encode (k.x_bytes x_priv)) ≡ some (k.x_bytes x_priv))
      × (k.x_private (k.x_bytes x_priv) ≡ some x_priv)

  read_keys-key_file :
      (ed_priv x_priv : List ℕ) (made blob : Text)
      → ReadBack ed_priv x_priv made blob
      → read_keys c k (k.parse blob) ≡ loaded (identity_of c k ed_priv x_priv) false
  unfolding read_keys with_seed x_decoded with_x key_file
  read_keys-key_file ed_priv x_priv made blob (marshals, parses, seed, len, key, x, priv) =
      let wide : (length (k.seed_of ed_priv) == 32) ≡ true = ground (arith, len) in
      rw (parses, seed, wide, x, priv, key) refl

  -- An identity that was made and written at the first start is the identity of every later start,
  -- whatever keys are at hand then, and later starts write nothing.
  pub load_or_create_identity-again :
      (ed_priv x_priv : List ℕ) (made blob : Text) (ed x : Option (List ℕ)) (later : Text)
      (dir writes : Bool)
      → ReadBack ed_priv x_priv made blob
      → (load_or_create_identity c k absent (some ed_priv) (some x_priv) made true true
          ≡ (content blob, loaded (identity_of c k ed_priv x_priv) true))
        × (load_or_create_identity c k
              (load_or_create_identity c k absent (some ed_priv) (some x_priv) made true true).0
              ed
              x
              later
              dir
              writes
            ≡ (content blob, loaded (identity_of c k ed_priv x_priv) false))
  unfolding load_or_create_identity create_identity store_keys
  load_or_create_identity-again ed_priv x_priv made blob ed x later dir writes back =
      rw back.0
        (refl, ap (λ r. (content blob, r)) (read_keys-key_file ed_priv x_priv made blob back))
