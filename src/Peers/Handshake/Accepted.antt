-- ===== src/Peers/Handshake/Accepted.antt =====
-- What a completed handshake proves of the other end.
use lanrunner.Common.{
  ℕ, ◌≡◌, refl, sym, ap, ◌∙◌, Bool, true, false, List, [], Option, none, some, not, ◌&&◌, ltb, Text,
  same, same_iff, byte_len, inl, inr, ◌⊎◌, Bool-cases, arith,
}
use lanrunner.Common.Dict.{lookup, lookup-insert}
use lanrunner.Secure.{SecureConn}
use lanrunner.Peers.{Net}
use lanrunner.Peers.Discovery.{Crypto, verify_sig, timely, ed_key, x_key, fingerprint}
use lanrunner.Peers.Handshake.{
  Hello, Host, Verified, verified, invalid, Read, heard, unheard, Session, established,
  hello_payload, with_x, with_ed, verify_hello, keep_peer, opened, session_keys, agreed, screened,
  answered, handshake, exchange,
}

as_expected :
    (fp expect_fp : Text)
    → (not (same expect_fp []) && not (same fp expect_fp)) ≡ false
    → (expect_fp ≡ []) ⊎ (fp ≡ expect_fp)
as_expected fp expect_fp e = elim (Bool-cases (same expect_fp [])) [
  | inl h ↦ inl ((same_iff expect_fp []).0 h)
  | inr h ↦ elim (Bool-cases (same fp expect_fp)) [
    | inl k ↦ inr ((same_iff fp expect_fp).0 k)
    | inr k ↦ absurd (ground arith)
  ]
]

module _ (c : Crypto) where
  -- The greeting carries the key that its fingerprint names, a signature of that key on its content,
  -- a nonce of 16 bytes at least, and the key for the agreement.
  abbrev pub Genuine : Hello → List ℕ → List ℕ → Type 0
  Genuine h ed_pub x_pub =
      (ed_key c (c.base64_decode h.ed) ≡ some ed_pub)
      × (same (fingerprint c ed_pub) h.fp ≡ true)
      × (verify_sig c ed_pub (hello_payload c h) h.sig ≡ true)
      × (ltb (byte_len h.nonce) 16 ≡ false)
      × (x_key c (c.base64_decode h.xk) ≡ some x_pub)

  with_x-accepted :
      (ed_pub : List ℕ) (o : Option (List ℕ)) (e x : List ℕ)
      → with_x c ed_pub o ≡ verified e x
      → (ed_pub ≡ e) × (o ≡ some x)
  unfolding with_x
  with_x-accepted ed_pub none e x p = absurd (ground arith)
  with_x-accepted ed_pub (some y) e x p = ground arith

  with_ed-accepted :
      (h : Hello) (o : Option (List ℕ)) (e x : List ℕ)
      → with_ed c h o ≡ verified e x
      → (o ≡ some e)
        × (same (fingerprint c e) h.fp ≡ true)
        × (verify_sig c e (hello_payload c h) h.sig ≡ true)
        × (ltb (byte_len h.nonce) 16 ≡ false)
        × (x_key c (c.base64_decode h.xk) ≡ some x)
  unfolding with_ed
  with_ed-accepted h none e x p = absurd (ground arith)
  with_ed-accepted h (some key) e x p =
      ground (arith, with_x-accepted key (x_key c (c.base64_decode h.xk)) e x)

  verify_hello-Genuine :
      (h : Hello) (e x : List ℕ) → verify_hello c h ≡ verified e x → Genuine h e x
  unfolding verify_hello
  verify_hello-Genuine h e x p =
      ground (arith, with_ed-accepted h (ed_key c (c.base64_decode h.ed)) e x)

  module _ {Aead : Type 0} (hmac : List ℕ → List ℕ → List ℕ) (new_gcm : List ℕ → Option Aead)
      (equal_fold : Text → Text → Bool) where
    -- The session runs to the peer of the greeting, under the keys that its key gives with ours, and only
    -- the record of that peer has changed.
    abbrev pub Opens : Net → Host → Text → Hello → List ℕ → Bool → Net → Session Aead → Type 0
    Opens n a nonce h x_pub outbound n' s =
        (s.conn.fp ≡ h.fp)
        × ((shared : List ℕ) × (a.ecdh x_pub ≡ some shared)
            × (session_keys c hmac new_gcm equal_fold a.fp nonce h outbound shared ≡ some s.sc))
        × (n'.conns ≡ n.conns)
        × ((k : Text) → same h.fp k ≡ false → lookup k n'.peers ≡ lookup k n.peers)

    -- What the other end has shown.
    abbrev pub Accepted :
        Net → Host → Text → Bool → Text → ℕ → Hello → List ℕ → List ℕ → Net → Session Aead → Type 0
    Accepted n a nonce outbound expect_fp now h ed_pub x_pub n' s =
        Genuine h ed_pub x_pub
        × (same h.fp a.fp ≡ false)
        × ((expect_fp ≡ []) ⊎ (h.fp ≡ expect_fp))
        × (timely c h.ts now ≡ true)
        × Opens n a nonce h x_pub outbound n' s

    established-injective :
        (n n' : Net) (s s' : Session Aead)
        → established n s ≡ established n' s'
        → (n ≡ n') × (s ≡ s')
    established-injective n n' s s' e = ground arith

    opened-Opens :
        (n : Net) (a : Host) (nonce : Text) (h : Hello) (ed_pub x_pub shared : List ℕ)
        (outbound : Bool) (serial : ℕ) (ip : Text) (port now : ℕ) (o : Option (SecureConn Aead))
        (n' : Net) (s : Session Aead)
        → a.ecdh x_pub ≡ some shared
        → session_keys c hmac new_gcm equal_fold a.fp nonce h outbound shared ≡ o
        → opened c hmac new_gcm equal_fold n h ed_pub x_pub outbound serial ip port now o
          ≡ established n' s
        → Opens n a nonce h x_pub outbound n' s
    unfolding opened keep_peer
    opened-Opens n a nonce h ed_pub x_pub shared outbound serial ip port now none n' s agree keys
          e =
        absurd (ground arith)
    opened-Opens n a nonce h ed_pub x_pub shared outbound serial ip port now (some sc) n' s agree
          keys e =
        let (net, session) = established-injective _ n' _ s e in
        (
          ap (λ (t : Session Aead). t.conn.fp) (sym session),
          (shared, agree, keys ∙ ap (λ (t : Session Aead). some t.sc) session),
          ap (λ (m : Net). m.conns) (sym net),
          λ k off.
              ap (λ (m : Net). lookup k m.peers) (sym net)
              ∙ lookup-insert h.fp k _ n.peers
              ∙ rw off refl,
        )

    agreed-Opens :
        (n : Net) (a : Host) (nonce : Text) (h : Hello) (ed_pub x_pub : List ℕ) (outbound : Bool)
        (serial : ℕ) (ip : Text) (port now : ℕ) (o : Option (List ℕ)) (n' : Net) (s : Session Aead)
        → a.ecdh x_pub ≡ o
        → agreed c hmac new_gcm equal_fold n a nonce h ed_pub x_pub outbound serial ip port now o
          ≡ established n' s
        → Opens n a nonce h x_pub outbound n' s
    unfolding agreed
    agreed-Opens n a nonce h ed_pub x_pub outbound serial ip port now none n' s agree e =
        absurd (ground arith)
    agreed-Opens n a nonce h ed_pub x_pub outbound serial ip port now (some shared) n' s agree e =
        opened-Opens n a nonce h ed_pub x_pub shared outbound serial ip port now
          (session_keys c hmac new_gcm equal_fold a.fp nonce h outbound shared) n' s agree refl e

    screened-Accepted :
        (n : Net) (a : Host) (nonce : Text) (h : Hello) (outbound : Bool) (expect_fp : Text)
        (serial : ℕ) (ip : Text) (port now : ℕ) (v : Verified) (n' : Net) (s : Session Aead)
        → verify_hello c h ≡ v
        → screened c hmac new_gcm equal_fold n a nonce h outbound expect_fp serial ip port now v
          ≡ established n' s
        → (ed_pub x_pub : List ℕ) × Accepted n a nonce outbound expect_fp now h ed_pub x_pub n' s
    unfolding screened
    screened-Accepted n a nonce h outbound expect_fp serial ip port now (invalid r) n' s v e =
        absurd (ground arith)
    screened-Accepted n a nonce h outbound expect_fp serial ip port now (verified ed_pub x_pub) n' s
          v e =
        let genuine = verify_hello-Genuine h ed_pub x_pub v in
        elim (Bool-cases (same h.fp a.fp)) [
          | inl own ↦ absurd (ground arith)
          | inr own ↦ elim (Bool-cases (not (same expect_fp []) && not (same h.fp expect_fp))) [
            | inl other ↦ absurd (ground arith)
            | inr other ↦ elim (Bool-cases (timely c h.ts now)) [
              | inr late ↦ absurd (ground arith)
              | inl late ↦
                  let done : agreed c hmac new_gcm equal_fold n a nonce h ed_pub x_pub outbound
                        serial ip port now (a.ecdh x_pub)
                      ≡ established n' s =
                    ground arith in
                  (
                    ed_pub,
                    x_pub,
                    (
                      genuine,
                      own,
                      as_expected h.fp expect_fp other,
                      late,
                      agreed-Opens n a nonce h ed_pub x_pub outbound serial ip port now
                          (a.ecdh x_pub) n' s refl done,
                    ),
                  )
            ]
          ]
        ]

    answered-Accepted :
        (n : Net) (a : Host) (nonce : Text) (outbound : Bool) (expect_fp : Text) (serial : ℕ)
        (ip : Text) (port now : ℕ) (r : Read) (n' : Net) (s : Session Aead)
        → answered c hmac new_gcm equal_fold n a nonce outbound expect_fp serial ip port now r
          ≡ established n' s
        → (h : Hello) × (r ≡ heard h)
          × ((ed_pub x_pub : List ℕ) × Accepted n a nonce outbound expect_fp now h ed_pub x_pub n'
                s)
    unfolding answered
    answered-Accepted n a nonce outbound expect_fp serial ip port now (unheard r) n' s e =
        absurd (ground arith)
    answered-Accepted n a nonce outbound expect_fp serial ip port now (heard h) n' s e = (
      h,
      refl,
      screened-Accepted n a nonce h outbound expect_fp serial ip port now (verify_hello c h) n' s
          refl e,
    )

    -- A handshake that completes has read a greeting that is genuine, timely, of another host, and of the
    -- peer that was expected if one was; its session runs to that peer, under keys agreed with the key
    -- that the peer has signed; and nothing but the record of that peer has changed.
    pub handshake-Accepted :
        (parse : Text → Option Hello) (n : Net) (a : Host) (nonce : Text) (outbound : Bool)
        (expect_fp : Text) (up : Bool) (line : Option Text) (serial : ℕ) (ip : Text) (port now : ℕ)
        (n' : Net) (s : Session Aead)
        → handshake c hmac new_gcm equal_fold parse n a nonce outbound expect_fp up line serial ip
            port now
          ≡ established n' s
        → (h : Hello) × (exchange parse outbound up line ≡ heard h)
          × ((ed_pub x_pub : List ℕ) × Accepted n a nonce outbound expect_fp now h ed_pub x_pub n'
                s)
    unfolding handshake answered
    handshake-Accepted parse n a nonce outbound expect_fp up line serial ip port now n' s =
        answered-Accepted n a nonce outbound expect_fp serial ip port now
          (exchange parse outbound up line) n' s
