-- ===== src/Peers/Discovery/Meets.antt =====
-- What a good announcement does to a host that has not met the peer.
use lanrunner.Common.{
  ℕ, ◌≡◌, refl, Bool, true, false, List, none, some, ◌||◌, ltb, ◌==◌, Text, codes, same, arith,
}
use lanrunner.Common.Dict.{lookup, lookup-insert_self}
use lanrunner.Trust.{Status, new, known, renamed, impersonation, observe}
use lanrunner.Peers.{Net, Peer, add_flag}
use lanrunner.Peers.Discovery.{
  Crypto, Announce, on_announce, checked, dispatch, keyed, upsert, met, marked, announce_payload,
  verify_sig, fingerprint, ed_key, x_key, timely, proto_version,
}

module _ (c : Crypto) (equal_fold : Text → Text → Bool) where
  -- The signature is not part of what is signed.
  pub announce_payload-sig :
      (a : Announce) (sig : Text)
      → announce_payload c (record a { sig = sig }) ≡ announce_payload c a
  unfolding announce_payload
  announce_payload-sig a sig = refl

  -- Recorded under its fingerprint with the address and the keys of the announcement, and dialled.
  abbrev pub Met : Net → Announce → Text → List ℕ → List ℕ → Type 0
  Met n a ip ed_pub x_pub =
      (p : Peer) × (lookup a.fp n.peers ≡ some p)
      × (p.ip ≡ ip)
      × (p.port ≡ a.port)
      × (p.ed_pub ≡ ed_pub)
      × (p.x_pub ≡ x_pub)
      × (p.last_ts ≡ a.ts)

  marked-same :
      (p : Peer) (s : Status)
      → ((marked c p s).ip ≡ p.ip)
        × ((marked c p s).port ≡ p.port)
        × ((marked c p s).ed_pub ≡ p.ed_pub)
        × ((marked c p s).x_pub ≡ p.x_pub)
        × ((marked c p s).last_ts ≡ p.last_ts)
  unfolding marked add_flag
  marked-same p new = (refl, refl, refl, refl, refl)
  marked-same p known = (refl, refl, refl, refl, refl)
  marked-same p renamed = (refl, refl, refl, refl, refl)
  marked-same p impersonation = ground arith

  upsert-Met :
      (n : Net) (a : Announce) (ip : Text) (ed_pub x_pub : List ℕ) (now : ℕ)
      → Met (upsert c equal_fold n a ip ed_pub x_pub now none).net a ip ed_pub x_pub
  unfolding upsert met
  upsert-Met n a ip ed_pub x_pub now =
      let p = met c a ip ed_pub x_pub now none in
      let verdict = (observe equal_fold n.trust a.fp p.nick now).1.status in
      let (ip_kept, port_kept, ed_kept, x_kept, ts_kept) = marked-same p verdict in
      (
        marked c p verdict,
        lookup-insert_self a.fp (marked c p verdict) n.peers,
        ip_kept,
        port_kept,
        ed_kept,
        x_kept,
        ts_kept,
      )

  -- A good announcement of a peer that is not in the table is recorded.
  pub on_announce-Met :
      (n : Net) (a : Announce) (ip : Text) (ed_pub x_pub : List ℕ) (now : ℕ)
      → same a.fp n.self_fp ≡ false
      → a.v ≡ proto_version
      → a.kind ≡ codes "announce"
      → ed_key c (c.base64_decode a.ed) ≡ some ed_pub
      → same (fingerprint c ed_pub) a.fp ≡ true
      → verify_sig c ed_pub (announce_payload c a) a.sig ≡ true
      → timely c a.ts now ≡ true
      → (a.port == 0 || ltb 65535 a.port) ≡ false
      → x_key c (c.base64_decode a.xk) ≡ some x_pub
      → lookup a.fp n.peers ≡ none
      → Met (on_announce c equal_fold n a ip now).net a ip ed_pub x_pub
  unfolding on_announce checked dispatch keyed same
  on_announce-Met n a ip ed_pub x_pub now other v kind ed fp sig fresh port x unknown =
      let current : (a.v == proto_version) ≡ true = rw v refl in
      let no_bye : same a.kind (codes "bye") ≡ false = rw kind refl in
      let announces : same a.kind (codes "announce") ≡ true = rw kind refl in
      rw (other, current, ed, fp, sig, fresh, no_bye, announces, port, x, unknown)
        (upsert-Met n a ip ed_pub x_pub now)
