-- ===== src/Peers/Outbound/Found.antt =====
-- A host that announces itself is found.
use lanrunner.Common.{
  ℕ, ◌≤◌, ◌<◌, ◌≡◌, refl, ap, ◌∙◌, Bool, true, false, List, none, ◌==◌, Text, codes, same,
  same_refl, length, arith,
}
use lanrunner.Common.Dict.{lookup}
use lanrunner.Peers.{Net}
use lanrunner.Peers.Discovery.{
  Crypto, on_announce, announce_payload, verify_sig, ed_key, x_key, timely,
}
use lanrunner.Peers.Discovery.Meets.{Met, announce_payload-sig, on_announce-Met}
use lanrunner.Peers.Handshake.{Host}
use lanrunner.Peers.Handshake.Honest.{Fit}
use lanrunner.Peers.Outbound.{unsigned_announce, build_announce}

module _ (c : Crypto) (base64_encode : List ℕ → Text) (equal_fold : Text → Text → Bool) where
  -- A host that hears the announcement of another whose keys fit, with a port and within the window,
  -- records it with the address that it came from, the port and the keys, if it has not met it and the
  -- fingerprints differ.
  pub on_announce-build_announce :
      (join_host_port : Text → ℕ → Text) (a : Host) (na n : Net) (ip : Text)
      (tcp_port now_ms now : ℕ)
      → Fit c base64_encode a
      → same a.fp n.self_fp ≡ false
      → 0 < tcp_port
      → tcp_port ≤ 65535
      → timely c now_ms now ≡ true
      → lookup a.fp n.peers ≡ none
      → Met c equal_fold
          (on_announce c equal_fold n
            (build_announce c base64_encode join_host_port a na (codes "announce") tcp_port now_ms)
            ip
            now).net
          (build_announce c base64_encode join_host_port a na (codes "announce") tcp_port now_ms)
          ip
          a.ed_pub
          a.x_pub
  unfolding build_announce unsigned_announce ed_key x_key
  on_announce-build_announce join_host_port a na n ip tcp_port now_ms now
        (ed, len, fp, signs, x, key) other some_port port fresh unknown =
      let unsigned =
        unsigned_announce base64_encode join_host_port a na (codes "announce") tcp_port now_ms in
      let announce =
        build_announce c base64_encode join_host_port a na (codes "announce") tcp_port now_ms in
      let wide : (length a.ed_pub == 32) ≡ true = ground (arith, len) in
      on_announce-Met c equal_fold n announce ip a.ed_pub a.x_pub now other refl refl
        (rw (ed, wide) refl) (rw (fp, same_refl a.fp) refl)
        (ap (λ t. verify_sig c a.ed_pub t announce.sig)
            (announce_payload-sig c equal_fold unsigned announce.sig)
          ∙ signs (announce_payload c unsigned))
        fresh (ground arith) (rw (x, key) refl) unknown
