-- ===== src/Peers/Discovery/Authentic.antt =====
-- What an announcement can change.
use lanrunner.Common.{
  ℕ, ◌≡◌, refl, ◌∙◌, Bool, true, false, List, Option, none, some, not, ◌||◌, ltb, leb, ◌==◌, Text,
  codes, same, inl, inr, ◌⊎◌, Bool-cases,
}
use lanrunner.Common.Dict.{Dict, lookup, lookup-insert, lookup-erase}
use lanrunner.Peers.{Net, Peer, Conn, shut, handle_bye}
use lanrunner.Trust.Pins.{observe-recs_off}
use lanrunner.Peers.Discovery.{
  Crypto, Announce, on_announce, checked, dispatch, keyed, upsert, ignored, ed_key, x_key,
  fingerprint, verify_sig, announce_payload, timely, proto_version,
}

module _ (c : Crypto) (equal_fold : Text → Text → Bool) where
  -- The datagram carries the key that its fingerprint names, a signature of that key on its content,
  -- and a time within the window.
  abbrev pub Authentic : Announce → ℕ → Type 0
  Authentic a now =
      (key : List ℕ) × (ed_key c (c.base64_decode a.ed) ≡ some key)
      × (same (fingerprint c key) a.fp ≡ true)
      × (verify_sig c key (announce_payload c a) a.sig ≡ true)
      × (timely c a.ts now ≡ true)

  -- Off `fp`, the peers, the sessions and the pins are the same.
  abbrev pub Local : Net → Text → Net → Type 0
  Local n fp n' =
      (k : Text)
      → same fp k ≡ false
      → (lookup k n'.peers ≡ lookup k n.peers)
        × (lookup k n'.conns ≡ lookup k n.conns)
        × (lookup k n'.trust.recs ≡ lookup k n.trust.recs)

  shut-off :
      (fp k : Text) (o : Option Conn) (conns : Dict Conn)
      → same fp k ≡ false
      → lookup k (shut fp o conns) ≡ lookup k conns
  unfolding shut
  shut-off fp k none conns off = refl
  shut-off fp k (some conn) conns off = lookup-insert fp k _ conns ∙ rw off refl

  handle_bye-Local : (n : Net) (fp : Text) → Local n fp (handle_bye n fp)
  unfolding handle_bye
  handle_bye-Local n fp k off =
      (lookup-erase fp k n.peers ∙ rw off refl, shut-off fp k (lookup fp n.conns) n.conns off, refl)

  upsert-Local :
      (n : Net) (a : Announce) (ip : Text) (ed x : List ℕ) (now : ℕ) (o : Option Peer)
      → Local n a.fp (upsert c equal_fold n a ip ed x now o).net
  unfolding upsert ignored
  upsert-Local n a ip ed x now none k off = (
    lookup-insert a.fp k _ n.peers ∙ rw off refl,
    refl,
    observe-recs_off equal_fold n.trust a.fp _ k now off,
  )
  upsert-Local n a ip ed x now (some old) k off = elim (Bool-cases (leb a.ts old.last_ts)) [
    | inl b ↦ rw b (refl, refl, refl)
    | inr b ↦ rw b (
      lookup-insert a.fp k _ n.peers ∙ rw off refl,
      refl,
      observe-recs_off equal_fold n.trust a.fp _ k now off,
    )
  ]

  keyed-Local :
      (n : Net) (a : Announce) (ip : Text) (ed : List ℕ) (now : ℕ) (o : Option (List ℕ))
      → Local n a.fp (keyed c equal_fold n a ip ed now o).net
  unfolding keyed ignored
  keyed-Local n a ip ed now none k off = (refl, refl, refl)
  keyed-Local n a ip ed now (some x) k off =
      upsert-Local n a ip ed x now (lookup a.fp n.peers) k off

  dispatch-Local :
      (n : Net) (a : Announce) (ip : Text) (ed : List ℕ) (now : ℕ)
      → Local n a.fp (dispatch c equal_fold n a ip ed now).net
  unfolding dispatch ignored
  dispatch-Local n a ip ed now k off = elim (Bool-cases (same a.kind (codes "bye"))) [
    | inl b ↦ rw b (handle_bye-Local n a.fp k off)
    | inr b ↦ elim (Bool-cases (not (same a.kind (codes "announce")))) [
      | inl d ↦ rw (b, d) (refl, refl, refl)
      | inr d ↦ elim (Bool-cases (a.port == 0 || ltb 65535 a.port)) [
        | inl e ↦ rw (b, d, e) (refl, refl, refl)
        | inr e ↦ rw (b, d, e) (keyed-Local n a ip ed now (x_key c (c.base64_decode a.xk)) k off)
      ]
    ]
  ]

  checked-outcome :
      (n : Net) (a : Announce) (ip : Text) (now : ℕ) (o : Option (List ℕ))
      → ed_key c (c.base64_decode a.ed) ≡ o
      → ((checked c equal_fold n a ip now o).net ≡ n)
        ⊎ (Authentic a now × Local n a.fp (checked c equal_fold n a ip now o).net)
  unfolding checked ignored
  checked-outcome n a ip now none e = inl refl
  checked-outcome n a ip now (some key) e = elim (Bool-cases (same (fingerprint c key) a.fp)) [
    | inr f ↦ rw f (inl refl)
    | inl f ↦ elim (Bool-cases (verify_sig c key (announce_payload c a) a.sig)) [
      | inr g ↦ rw (f, g) (inl refl)
      | inl g ↦ elim (Bool-cases (timely c a.ts now)) [
        | inr t ↦ rw (f, g, t) (inl refl)
        | inl t ↦ rw (f, g, t) (inr ((key, e, f, g, refl), dispatch-Local n a ip key now))
      ]
    ]
  ]

  -- A datagram changes nothing, or it is authentic (key, fingerprint, signature, time) and changes at most
  -- what is kept of the peer that it names: its entry, its session and its pin.
  pub on_announce-Authentic :
      (n : Net) (a : Announce) (ip : Text) (now : ℕ)
      → ((on_announce c equal_fold n a ip now).net ≡ n)
        ⊎ (Authentic a now × Local n a.fp (on_announce c equal_fold n a ip now).net)
  unfolding on_announce ignored
  on_announce-Authentic n a ip now = elim (Bool-cases (same a.fp n.self_fp)) [
    | inl s ↦ rw s (inl refl)
    | inr s ↦ elim (Bool-cases (a.v == proto_version)) [
      | inr v ↦ rw (s, v) (inl refl)
      | inl v ↦ rw (s, v) (checked-outcome n a ip now (ed_key c (c.base64_decode a.ed)) refl)
    ]
  ]
