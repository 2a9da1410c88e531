-- ===== src/Peers/Dial/Keyed.antt =====
-- The table of sessions of a host, over whatever its peers and its own loops do.
use lanrunner.Common.{
  ℕ, ◌≡◌, refl, sym, ap, ◌∙◌, Bool, true, false, List, [], Option, none, some, Text, codes, same,
  inl, inr,
}
use lanrunner.Common.Dict.{lookup}
use lanrunner.Secure.{Received, frame, auth_failed, no_frame, zero_length, frame_too_long}
use lanrunner.History.{History}
use lanrunner.Peers.{Net, Peer, Conn, maintain, close_all_conns}
use lanrunner.Peers.Keyed.{
  Keyed, handle_bye-Keyed, register-Keyed, leave-Keyed, close_all_conns-Keyed,
}
use lanrunner.Peers.Discovery.{Crypto, Announce, on_announce}
use lanrunner.Peers.Discovery.Sessions.{on_announce-Spares}
use lanrunner.Peers.Handshake.{Hello, Host, Session, Shaken, established, rejected, handshake}
use lanrunner.Peers.Handshake.Accepted.{handshake-Accepted}
use lanrunner.Peers.Dispatch.{Msg, flag_peer, handle_frame}
use lanrunner.Peers.Dispatch.Writes.{handle_frame-Confined, flag_peer-OnlyPeer}
use lanrunner.Peers.Dial.{start, after_handshake, fail, accept, dial, dial_unless, dial_peer}

same_conns-Keyed : (self : Text) (n n' : Net) → n'.conns ≡ n.conns → Keyed self n → Keyed self n'
same_conns-Keyed self n n' e keyed k conn held = keyed k conn (ap (lookup k) (sym e) ∙ held)

module _ {Aead : Type 0} where
  pub fail-Keyed :
      (self : Text) (n : Net) (s : Session Aead) (r : Received)
      → Keyed self n
      → Keyed self (fail n s r)
  unfolding fail
  fail-Keyed self n s (auth_failed ctr) keyed =
      leave-Keyed self (flag_peer n s.conn.fp (codes "AEAD-FAIL")) s.conn (
        same_conns-Keyed self n (flag_peer n s.conn.fp (codes "AEAD-FAIL"))
          (flag_peer-OnlyPeer n s.conn.fp (codes "AEAD-FAIL")).1 keyed)
  fail-Keyed self n s no_frame keyed = leave-Keyed self n s.conn keyed
  fail-Keyed self n s zero_length keyed = leave-Keyed self n s.conn keyed
  fail-Keyed self n s (frame_too_long len) keyed = leave-Keyed self n s.conn keyed
  fail-Keyed self n s (frame pt) keyed = keyed

  module _ (c : Crypto) (hmac : List ℕ → List ℕ → List ℕ) (new_gcm : List ℕ → Option Aead)
      (equal_fold : Text → Text → Bool) (parse : Text → Option Hello) (a : Host) where
    after_handshake-Keyed :
        (n : Net) (rtt : ℕ) (nonce : Text) (outbound : Bool) (expect_fp : Text) (up : Bool)
        (line : Option Text) (serial : ℕ) (ip : Text) (port now : ℕ) (r : Shaken Aead)
        → handshake c hmac new_gcm equal_fold parse n a nonce outbound expect_fp up line serial ip
            port now
          ≡ r
        → Keyed a.fp n
        → Keyed a.fp (after_handshake n rtt r).net
    unfolding after_handshake start
    after_handshake-Keyed n rtt nonce outbound expect_fp up line serial ip port now (rejected e)
          shaken keyed =
        keyed
    after_handshake-Keyed n rtt nonce outbound expect_fp up line serial ip port now
          (established n' s) shaken keyed =
        let (
          h,
          greeting,
          (ed_pub, x_pub, (genuine, own, expected, late, (fp, keys, conns, local))),
        ) =
          handshake-Accepted c hmac new_gcm equal_fold parse n a nonce outbound expect_fp up line
            serial ip port now n' s shaken in
        register-Keyed a.fp n' s.conn (ap (λ t. same t a.fp) fp ∙ own)
          (same_conns-Keyed a.fp n n' conns keyed)

    dial_unless-Keyed :
        (o : Option Conn) (n : Net) (p : Peer) (connect : Option ℕ) (nonce : Text) (up : Bool)
        (line : Option Text) (serial now : ℕ)
        → Keyed a.fp n
        → Keyed a.fp
            (dial_unless c hmac new_gcm equal_fold parse a o n p connect nonce up line serial
              now).net
    unfolding dial_unless dial
    dial_unless-Keyed (some conn) n p connect nonce up line serial now keyed = keyed
    dial_unless-Keyed none n p none nonce up line serial now keyed = keyed
    dial_unless-Keyed none n p (some ms) nonce up line serial now keyed =
        after_handshake-Keyed n ms nonce true p.fp up line serial p.ip p.port now
          (handshake c hmac new_gcm equal_fold parse n a nonce true p.fp up line serial p.ip p.port
            now)
          refl keyed

    -- What changes the state of a host: an announcement, a connection that comes or that it makes, a frame
    -- of a session, the end of a session, the sweep of its peers, and the end of all sessions.
    pub data NetStep : Net → Net → Type 0 where
      announced :
          (n : Net) (m : Announce) (ip : Text) (now : ℕ)
          → NetStep n (on_announce c equal_fold n m ip now).net
      accepted :
          (n : Net) (nonce : Text) (up : Bool) (line : Option Text) (serial : ℕ) (ip : Text)
          (port now : ℕ)
          → NetStep n
              (accept c hmac new_gcm equal_fold parse a n nonce up line serial ip port now).net
      dialled :
          (n : Net) (p : Peer) (connect : Option ℕ) (nonce : Text) (up : Bool) (line : Option Text)
          (serial now : ℕ)
          → NetStep n
              (dial_peer c hmac new_gcm equal_fold parse a n p connect nonce up line serial now).net
      handled :
          (n : Net) (hist : History) (s : Session Aead) (o : Option Msg) (now now_ms : ℕ)
          → NetStep n (handle_frame n hist s o now now_ms).net
      failed : (n : Net) (s : Session Aead) (r : Received) → NetStep n (fail n s r)
      swept : (n : Net) (now : ℕ) → NetStep n (maintain n now).0
      closed : (n : Net) → NetStep n (close_all_conns n).0

    pub data NetReach : Net → Net → Type 0 where
      still : (n : Net) → NetReach n n
      then_step : (n n' n'' : Net) → NetReach n n' → NetStep n' n'' → NetReach n n''

    NetStep-Keyed : (n n' : Net) → NetStep n n' → Keyed a.fp n → Keyed a.fp n'
    unfolding accept dial_peer maintain
    NetStep-Keyed _ _ (announced n m ip now) keyed =
        elim (on_announce-Spares c equal_fold n m ip now) [
          | inl e ↦ same_conns-Keyed a.fp n (on_announce c equal_fold n m ip now).net e keyed
          | inr e ↦ rw e (handle_bye-Keyed a.fp n m.fp keyed)
        ]
    NetStep-Keyed _ _ (accepted n nonce up line serial ip port now) keyed =
        after_handshake-Keyed n 0 nonce false [] up line serial ip port now
          (handshake c hmac new_gcm equal_fold parse n a nonce false [] up line serial ip port now)
          refl keyed
    NetStep-Keyed _ _ (dialled n p connect nonce up line serial now) keyed =
        dial_unless-Keyed (lookup p.fp n.conns) n p connect nonce up line serial now keyed
    NetStep-Keyed _ _ (handled n hist s o now now_ms) keyed =
        same_conns-Keyed a.fp n (handle_frame n hist s o now now_ms).net
          (handle_frame-Confined n hist s o now now_ms).0.1 keyed
    NetStep-Keyed _ _ (failed n s r) keyed = fail-Keyed a.fp n s r keyed
    NetStep-Keyed _ _ (swept n now) keyed = keyed
    NetStep-Keyed _ _ (closed n) keyed = close_all_conns-Keyed a.fp n keyed

    -- Whatever is announced, dialled, accepted, received or ended, in any order: where every session in the
    -- table of a host stood under the fingerprint of its peer, and none was with the host itself, so it is
    -- ever after.
    pub NetReach-Keyed : (n n' : Net) → NetReach n n' → Keyed a.fp n → Keyed a.fp n'
    NetReach-Keyed _ _ (still n) keyed = keyed
    NetReach-Keyed _ _ (then_step n m n' reach step) keyed =
        NetStep-Keyed m n' step (NetReach-Keyed n m reach keyed)
