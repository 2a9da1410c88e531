-- ===== src/Peers/Discovery/Sessions.antt =====
-- What an announcement does to the sessions.
use lanrunner.Common.{
  ℕ, ◌≡◌, refl, Bool, List, Option, none, some, not, ◌||◌, ltb, leb, ◌==◌, Text, codes, same, inl,
  inr, ◌⊎◌, Bool-cases,
}
use lanrunner.Common.Dict.{lookup}
use lanrunner.Peers.{Net, Peer, handle_bye}
use lanrunner.Peers.Discovery.{
  Crypto, Announce, on_announce, checked, dispatch, keyed, upsert, ignored, ed_key, x_key,
  fingerprint, verify_sig, announce_payload, timely, proto_version,
}

module _ (c : Crypto) (equal_fold : Text → Text → Bool) where
  -- The sessions are the same, or the state is what the peer's farewell leaves.
  abbrev pub Spares : Net → Text → Net → Type 0
  Spares n fp n' = (n'.conns ≡ n.conns) ⊎ (n' ≡ handle_bye n fp)

  upsert-conns :
      (n : Net) (a : Announce) (ip : Text) (ed x : List ℕ) (now : ℕ) (o : Option Peer)
      → (upsert c equal_fold n a ip ed x now o).net.conns ≡ n.conns
  unfolding upsert ignored
  upsert-conns n a ip ed x now none = refl
  upsert-conns n a ip ed x now (some old) = elim (Bool-cases (leb a.ts old.last_ts)) [
    | inl b ↦ rw b refl
    | inr b ↦ rw b refl
  ]

  keyed-conns :
      (n : Net) (a : Announce) (ip : Text) (ed : List ℕ) (now : ℕ) (o : Option (List ℕ))
      → (keyed c equal_fold n a ip ed now o).net.conns ≡ n.conns
  unfolding keyed ignored
  keyed-conns n a ip ed now none = refl
  keyed-conns n a ip ed now (some x) = upsert-conns n a ip ed x now (lookup a.fp n.peers)

  dispatch-Spares :
      (n : Net) (a : Announce) (ip : Text) (ed : List ℕ) (now : ℕ)
      → Spares n a.fp (dispatch c equal_fold n a ip ed now).net
  unfolding dispatch ignored
  dispatch-Spares n a ip ed now = elim (Bool-cases (same a.kind (codes "bye"))) [
    | inl b ↦ rw b (inr refl)
    | inr b ↦ elim (Bool-cases (not (same a.kind (codes "announce")))) [
      | inl d ↦ rw (b, d) (inl refl)
      | inr d ↦ elim (Bool-cases (a.port == 0 || ltb 65535 a.port)) [
        | inl e ↦ rw (b, d, e) (inl refl)
        | inr e ↦ rw (b, d, e) (inl (keyed-conns n a ip ed now (x_key c (c.base64_decode a.xk))))
      ]
    ]
  ]

  checked-Spares :
      (n : Net) (a : Announce) (ip : Text) (now : ℕ) (o : Option (List ℕ))
      → Spares n a.fp (checked c equal_fold n a ip now o).net
  unfolding checked ignored
  checked-Spares n a ip now none = inl refl
  checked-Spares n a ip now (some key) = elim (Bool-cases (same (fingerprint c key) a.fp)) [
    | inr f ↦ rw f (inl refl)
    | inl f ↦ elim (Bool-cases (verify_sig c key (announce_payload c a) a.sig)) [
      | inr g ↦ rw (f, g) (inl refl)
      | inl g ↦ elim (Bool-cases (timely c a.ts now)) [
        | inr t ↦ rw (f, g, t) (inl refl)
        | inl t ↦ rw (f, g, t) (dispatch-Spares n a ip key now)
      ]
    ]
  ]

  pub on_announce-Spares :
      (n : Net) (a : Announce) (ip : Text) (now : ℕ)
      → Spares n a.fp (on_announce c equal_fold n a ip now).net
  unfolding on_announce ignored
  on_announce-Spares n a ip now = elim (Bool-cases (same a.fp n.self_fp)) [
    | inl s ↦ rw s (inl refl)
    | inr s ↦ elim (Bool-cases (a.v == proto_version)) [
      | inr v ↦ rw (s, v) (inl refl)
      | inl v ↦ rw (s, v) (checked-Spares n a ip now (ed_key c (c.base64_decode a.ed)))
    ]
  ]
