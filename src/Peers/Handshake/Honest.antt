-- ===== src/Peers/Handshake/Honest.antt =====
-- Two hosts that follow the protocol.
use lanrunner.Common.{
  ℕ, ◌≡◌, refl, ◌≤◌, Bool, true, false, List, [], ◌++◌, Option, some, not, ◌&&◌, ◌==◌, Text, same,
  same_iff, same_refl, byte_len, length, le→ltb, inl, inr, ◌⊎◌, arith,
}
use lanrunner.Secure.{SecureConn}
use lanrunner.Secure.Keys.{derive_session-some}
use lanrunner.Secure.Mirror.{Mirror, derive_session-Mirror}
use lanrunner.Peers.{Net}
use lanrunner.Peers.Discovery.{Crypto, verify_sig, timely, ed_key, x_key, fingerprint}
use lanrunner.Peers.Handshake.{
  Hello, Host, verified, heard, Session, established, read_hello, exchange, hello_payload,
  build_hello, shown_nick, with_x, with_ed, verify_hello, keep_peer, opened, session_keys, agreed,
  screened, answered, handshake,
}

module _ (c : Crypto) (base64_encode : List ℕ → Text) where
  -- The keys of a host are its own: its fingerprint and its signatures fit the key, and the encodings
  -- are read back.
  abbrev pub Fit : Host → Type 0
  Fit a =
      (c.base64_decode (base64_encode a.ed_pub) ≡ some a.ed_pub)
      × (length a.ed_pub ≡ 32)
      × (fingerprint c a.ed_pub ≡ a.fp)
      × ((payload : Text) → verify_sig c a.ed_pub payload (a.sign payload) ≡ true)
      × (c.base64_decode (base64_encode a.x_pub) ≡ some a.x_pub)
      × (c.x25519_key a.x_pub ≡ some a.x_pub)

  pub verify_hello-build_hello :
      (a : Host) (nonce : Text) (now_ms : ℕ)
      → Fit a
      → 16 ≤ byte_len nonce
      → verify_hello c (build_hello c base64_encode a nonce now_ms) ≡ verified a.ed_pub a.x_pub
  unfolding verify_hello build_hello with_ed with_x hello_payload ed_key x_key same
  verify_hello-build_hello a nonce now_ms (ed, len, fp, signs, x, key) long =
      let wide : (length a.ed_pub == 32) ≡ true = ground (arith, len) in
      rw
        (
          ed,
          wide,
          fp,
          same_refl a.fp,
          signs (hello_payload c (build_hello c base64_encode a nonce now_ms)),
          le→ltb 16 (byte_len nonce) long,
          x,
          key,
        )
        refl

  not_other :
      (fp expect_fp : Text)
      → (expect_fp ≡ []) ⊎ (fp ≡ expect_fp)
      → (not (same expect_fp []) && not (same fp expect_fp)) ≡ false
  not_other fp expect_fp (inl e) = rw (e, same_refl []) refl
  not_other fp expect_fp (inr e) = ground (arith, same_iff fp expect_fp)

  module _ (hmac : List ℕ → List ℕ → List ℕ) {Aead : Type 0} (new_gcm : List ℕ → Option Aead)
      (equal_fold : Text → Text → Bool) where
    -- The end that hears the greeting of an honest host.
    screened-established :
        (n : Net) (a b : Host) (nonce : Text) (h : Hello) (outbound : Bool) (expect_fp : Text)
        (serial : ℕ) (ip : Text) (port now : ℕ) (shared : List ℕ) (sc : SecureConn Aead)
        → same h.fp a.fp ≡ false
        → (expect_fp ≡ []) ⊎ (h.fp ≡ expect_fp)
        → timely c h.ts now ≡ true
        → a.ecdh b.x_pub ≡ some shared
        → session_keys c hmac new_gcm equal_fold a.fp nonce h outbound shared ≡ some sc
        → (n' : Net) × (s : Session Aead) × (screened c hmac new_gcm equal_fold n a nonce h outbound
              expect_fp serial ip port now
              (verified b.ed_pub b.x_pub)
            ≡ established n' s)
          × (s.sc ≡ sc)
    unfolding screened agreed opened
    screened-established n a b nonce h outbound expect_fp serial ip port now shared sc other
          expected fresh agree keys =
        let met = not_other h.fp expect_fp expected in
        (
          keep_peer c hmac new_gcm equal_fold n h b.ed_pub b.x_pub ip port now,
          record {
            conn = record { serial = serial; fp = h.fp; outbound = outbound; closed = false };
            nick = shown_nick c h;
            sc = sc;
            rtt = 0;
            ping_seq = 0;
            pings = [];
          },
          rw (other, met, fresh, agree, keys) refl,
          refl,
        )

    exchange-heard :
        (parse : Text → Option Hello) (outbound : Bool) (line : Text) (h : Hello)
        → read_hello parse (some line) ≡ heard h
        → exchange parse outbound true (some line) ≡ heard h
    unfolding exchange
    exchange-heard parse false line h e = rw e refl
    exchange-heard parse true line h e = rw e refl

    -- One end, with the greeting of the other.
    handshake-established :
        (parse : Text → Option Hello) (n : Net) (a b : Host) (nonce peer_nonce : Text)
        (outbound : Bool) (expect_fp line : Text) (serial : ℕ) (ip : Text) (port now peer_ms : ℕ)
        (shared : List ℕ) (sc : SecureConn Aead)
        → Fit b
        → 16 ≤ byte_len peer_nonce
        → read_hello parse (some line) ≡ heard (build_hello c base64_encode b peer_nonce peer_ms)
        → same b.fp a.fp ≡ false
        → (expect_fp ≡ []) ⊎ (b.fp ≡ expect_fp)
        → timely c peer_ms now ≡ true
        → a.ecdh b.x_pub ≡ some shared
        → session_keys c hmac new_gcm equal_fold a.fp nonce
            (build_hello c base64_encode b peer_nonce peer_ms)
            outbound
            shared
          ≡ some sc
        → (n' : Net) × (s : Session Aead) × (handshake c hmac new_gcm equal_fold parse n a nonce
              outbound expect_fp true
              (some line)
              serial
              ip
              port
              now
            ≡ established n' s)
          × (s.sc ≡ sc)
    unfolding handshake answered build_hello
    handshake-established parse n a b nonce peer_nonce outbound expect_fp line serial ip port now
          peer_ms shared sc fit long reads other expected fresh agree keys =
        let h = build_hello c base64_encode b peer_nonce peer_ms in
        rw
          (
            exchange-heard parse outbound line h reads,
            verify_hello-build_hello b peer_nonce peer_ms fit long,
          )
          (screened-established n a b nonce h outbound expect_fp serial ip port now shared sc other
            expected fresh agree keys)

    module _ (sized : (key text : List ℕ) → length (hmac key text) ≡ 32)
        (takes : (k : List ℕ) → length k ≡ 32 → (aead : Aead) × (new_gcm k ≡ some aead)) where
      -- Both ends of a connection that is up have a session, and what each sends the other reads: `a`
      -- dialled `b`, the keys of each fit, the greetings arrive, each within the window of the other's
      -- clock, the nonces have 16 bytes or more, and the two key agreements give one secret.
      pub handshake-Mirror :
          (parse : Text → Option Hello) (na nb : Net) (a b : Host) (nonce_a nonce_b : Text)
          (expect_fp line_a line_b : Text) (serial_a serial_b : ℕ) (ip_a ip_b : Text)
          (port_a port_b now_a now_b ms_a ms_b : ℕ) (shared : List ℕ)
          → Fit a
          → Fit b
          → 16 ≤ byte_len nonce_a
          → 16 ≤ byte_len nonce_b
          → read_hello parse (some line_a) ≡ heard (build_hello c base64_encode a nonce_a ms_a)
          → read_hello parse (some line_b) ≡ heard (build_hello c base64_encode b nonce_b ms_b)
          → same a.fp b.fp ≡ false
          → (expect_fp ≡ []) ⊎ (b.fp ≡ expect_fp)
          → timely c ms_b now_a ≡ true
          → timely c ms_a now_b ≡ true
          → a.ecdh b.x_pub ≡ some shared
          → b.ecdh a.x_pub ≡ some shared
          → (na' : Net) × (nb' : Net) × (sa : Session Aead) × (sb : Session Aead) × (handshake c
                hmac new_gcm equal_fold parse na a nonce_a true expect_fp true
                (some line_b)
                serial_a
                ip_b
                port_b
                now_a
              ≡ established na' sa)
            × (handshake c hmac new_gcm equal_fold parse nb b nonce_b false [] true
                  (some line_a)
                  serial_b
                  ip_a
                  port_a
                  now_b
                ≡ established nb' sb)
            × Mirror sa.sc sb.sc
      unfolding session_keys build_hello
      handshake-Mirror parse na nb a b nonce_a nonce_b expect_fp line_a line_b serial_a serial_b
            ip_a ip_b port_a port_b now_a now_b ms_a ms_b shared fit_a fit_b long_a long_b reads_a
            reads_b other expected fresh_b fresh_a agree_a agree_b =
          let salt = nonce_a ++ nonce_b in
          let (s, p) = derive_session-some hmac sized new_gcm takes shared salt a.fp b.fp true in
          let (r, q) = derive_session-some hmac sized new_gcm takes shared salt a.fp b.fp false in
          let other' : same b.fp a.fp ≡ false =
            ground (arith, same_iff a.fp b.fp, same_iff b.fp a.fp) in
          let (na', sa, runs_a, sc_a) =
            handshake-established parse na a b nonce_a nonce_b true expect_fp line_b serial_a ip_b
              port_b now_a ms_b shared s fit_b long_b reads_b other' expected fresh_b agree_a p in
          let (nb', sb, runs_b, sc_b) =
            handshake-established parse nb b a nonce_b nonce_a false [] line_a serial_b ip_a port_a
              now_b ms_a shared r fit_a long_a reads_a other (inl refl) fresh_a agree_b q in
          (
            na',
            nb',
            sa,
            sb,
            runs_a,
            runs_b,
            rw (sc_a, sc_b) (derive_session-Mirror hmac new_gcm shared salt a.fp b.fp s r p q),
          )
