-- ===== src/Secure.antt =====
-- The encrypted channel (crypto.go): HKDF, the session keys, the nonces, the frames. HMAC-SHA256 and
-- AES-GCM are parameters. A byte is a number; the fingerprints in the info string are ASCII, so that
-- their code points are their bytes.
pub mod Keys
pub mod Mirror
pub mod Nonces
pub mod Stream
use lanrunner.Common.{
  ℕ, zero, suc, ◌+◌, ◌*◌, ◌/◌, ◌%◌, Bool, true, false, List, [], ◌∷◌, ◌++◌, Option, none, some, ltb,
  leb, ◌==◌, if◌then◌else◌, Text, codes, length, take, drop,
}

abbrev pub Bytes : Type 0
Bytes = List ℕ

abbrev pub max_wire : ℕ
max_wire = 0x10000

module _ (hmac : Bytes → Bytes → Bytes) where
  -- The loop, with `i` the block counter, a byte.
  pub expand : Bytes → Bytes → ℕ → Bytes → Bytes → ℕ → ℕ → Bytes
  expand prk info n t out i zero = out
  expand prk info n t out i (suc fuel) =
      let block = hmac prk (t ++ info ++ (i ∷ [])) in
      let rest = expand prk info n block (out ++ block) (suc i % 256) fuel in
      if ltb (length out) n then rest else out

  -- `n` rounds are enough, since every block has a byte.
  unfoldable pub hkdf_sha256 : Bytes → Bytes → Bytes → ℕ → Bytes
  hkdf_sha256 secret salt info n = take n (expand (hmac salt secret) info n [] [] 1 n)

pub record SecureConn (Aead : Type 0) : Type 0 where
  pub tx : Aead
  pub rx : Aead
  pub tx_prefix : Bytes
  pub rx_prefix : Bytes
  pub tx_ctr : ℕ
  pub rx_ctr : ℕ

abbrev u64_next : ℕ → ℕ
u64_next n = suc n % 0x10000000000000000

module _ {Aead : Type 0} (hmac : Bytes → Bytes → Bytes) (new_gcm : Bytes → Option Aead) where
  pub base_info : Text → Text → Bytes
  base_info dialer_fp responder_fp = codes "lanrunner-v2|" ++ dialer_fp ++ codes "|" ++ responder_fp

  pub d2r : Bytes → Bytes → Text → Text → Bytes
  d2r shared salt dialer responder =
      hkdf_sha256 hmac shared salt (base_info dialer responder ++ codes "|d2r") 36

  pub r2d : Bytes → Bytes → Text → Text → Bytes
  r2d shared salt dialer responder =
      hkdf_sha256 hmac shared salt (base_info dialer responder ++ codes "|r2d") 36

  pub with_keys : Bytes → Bytes → Option Aead → Option Aead → Option (SecureConn Aead)
  with_keys tx_mat rx_mat none rx = none
  with_keys tx_mat rx_mat (some tx) none = none
  with_keys tx_mat rx_mat (some tx) (some rx) = some (record {
    tx = tx;
    rx = rx;
    tx_prefix = take 4 (drop 32 tx_mat);
    rx_prefix = take 4 (drop 32 rx_mat);
    tx_ctr = 0;
    rx_ctr = 0;
  })

  pub keys_of : Bytes → Bytes → Option (SecureConn Aead)
  unfolding with_keys
  keys_of tx_mat rx_mat =
      with_keys tx_mat rx_mat (new_gcm (take 32 tx_mat)) (new_gcm (take 32 rx_mat))

  unfoldable pub derive_session : Bytes → Bytes → Text → Text → Bool → Option (SecureConn Aead)
  unfolding keys_of d2r r2d
  derive_session shared salt dialer responder we_are_dialer =
      if we_are_dialer
      then keys_of (d2r shared salt dialer responder) (r2d shared salt dialer responder)
      else keys_of (r2d shared salt dialer responder) (d2r shared salt dialer responder)

-- `binary.BigEndian.PutUint32` and `PutUint64`.
pub put_uint32 : ℕ → Bytes
put_uint32 n = n / 0x1000000 % 256 ∷ n / 0x10000 % 256 ∷ n / 0x100 % 256 ∷ n % 256 ∷ []

pub put_uint64 : ℕ → Bytes
unfolding put_uint32
put_uint64 n = put_uint32 (n / 0x100000000) ++ put_uint32 (n % 0x100000000)

pub nonce_for : Bytes → ℕ → Bytes
unfolding put_uint64
nonce_for prefix ctr = prefix ++ put_uint64 ctr

-- What `WriteFrame` does: the bytes that go out, or its error.
pub data Written : Type 0 where
  over_ceiling : ℕ → Written
  write_failed : Written
  wrote : Bytes → Written

-- What `ReadFrame` returns.
pub data Received : Type 0 where
  no_frame zero_length : Received
  frame_too_long : ℕ → Received
  auth_failed : ℕ → Received
  frame : Bytes → Received

uint32 : ℕ → ℕ → ℕ → ℕ → ℕ
uint32 a b c d = a * 0x1000000 + b * 0x10000 + c * 0x100 + d

opened : ℕ → Option Bytes → Received
opened ctr none = auth_failed ctr
opened ctr (some pt) = frame pt

module _ {Aead : Type 0} (seal : Aead → Bytes → Bytes → Bytes)
    (open_sealed : Aead → Bytes → Bytes → Option Bytes) where
  -- `up`: the connection takes the bytes.
  pub write_frame : SecureConn Aead → Bool → Bytes → SecureConn Aead × Written
  unfolding nonce_for
  write_frame s up pt =
      let ct = seal s.tx (nonce_for s.tx_prefix s.tx_ctr) pt in
      (
        record s { tx_ctr = u64_next s.tx_ctr },
        if ltb max_wire (length ct)
            then over_ceiling (length ct)
            else if up
            then wrote (put_uint32 (length ct) ++ ct)
            else write_failed,
      )

  -- `input` is what the connection delivers until it ends; the second result is what is left of it.
  read_body : SecureConn Aead → ℕ → Bytes → SecureConn Aead × Bytes × Received
  unfolding nonce_for opened
  read_body s n input =
      if n == 0
      then (s, input, zero_length)
      else if ltb max_wire n
      then (s, input, frame_too_long n)
      else if ltb (length input) n
      then (s, [], no_frame)
      else (
        record s { rx_ctr = u64_next s.rx_ctr },
        drop n input,
        opened s.rx_ctr (open_sealed s.rx (nonce_for s.rx_prefix s.rx_ctr) (take n input)),
      )

  pub read_frame : SecureConn Aead → Bytes → SecureConn Aead × Bytes × Received
  unfolding read_body uint32
  read_frame s (a ∷ b ∷ c ∷ d ∷ input) = read_body s (uint32 a b c d) input
  read_frame s [] = (s, [], no_frame)
  read_frame s (a ∷ []) = (s, [], no_frame)
  read_frame s (a ∷ b ∷ []) = (s, [], no_frame)
  read_frame s (a ∷ b ∷ c ∷ []) = (s, [], no_frame)
