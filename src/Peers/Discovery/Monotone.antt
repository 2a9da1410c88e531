-- ===== src/Peers/Discovery/Monotone.antt =====
-- The timestamps of a peer that stays known.
use lanrunner.Common.{
  ℕ, ◌<◌, ◌≡◌, refl, sym, ap, ◌∙◌, Bool, List, Option, none, some, not, ◌||◌, ltb, leb, ◌==◌, Text,
  codes, same, same_refl, arith, inl, inr, ◌⊎◌, Bool-cases,
}
use lanrunner.Common.Dict.{lookup, erase, lookup-insert_self, lookup-erase}
use lanrunner.Peers.{Net, Peer, handle_bye}
use lanrunner.Peers.Discovery.{
  Crypto, Announce, on_announce, checked, dispatch, keyed, upsert, met, ignored, ed_key, x_key,
  fingerprint, verify_sig, announce_payload, timely, proto_version,
}

-- A peer known before and after is the same object, or its timestamp is later.
abbrev Rises : Text → Net → Net → Type 0
Rises fp n n' =
    (p p' : Peer)
    → lookup fp n.peers ≡ some p
    → lookup fp n'.peers ≡ some p'
    → (p' ≡ p) ⊎ (p.last_ts < p'.last_ts)

abbrev or_peer : Peer → Option Peer → Peer
or_peer d none = d
or_peer d (some p) = p

one_peer : (p q : Peer) {o : Option Peer} → o ≡ some p → o ≡ some q → p ≡ q
one_peer p q e f = ap (or_peer p) (sym e ∙ f)

module _ (c : Crypto) (equal_fold : Text → Text → Bool) where
  upsert-Rises :
      (n : Net) (a : Announce) (ip : Text) (ed x : List ℕ) (now : ℕ) (o : Option Peer)
      → lookup a.fp n.peers ≡ o
      → Rises a.fp n (upsert c equal_fold n a ip ed x now o).net
  unfolding upsert ignored met
  upsert-Rises n a ip ed x now none e =
      λ p p' h k. let clash : none ≡ some p = sym e ∙ h in absurd (ground arith)
  upsert-Rises n a ip ed x now (some old) e = elim (Bool-cases (leb a.ts old.last_ts)) [
    | inl b ↦ rw b (λ p p' h k. inl (one_peer p' p k h))
    | inr b ↦ rw b (λ p p' h k.
        let before : p.last_ts ≡ old.last_ts = ap (λ (q : Peer). q.last_ts) (one_peer p old h e) in
        let after : p'.last_ts ≡ a.ts =
          ap (λ (q : Peer). q.last_ts) (one_peer p' _ k (lookup-insert_self a.fp _ n.peers)) in
        inr (ground arith))
  ]

  keyed-Rises :
      (n : Net) (a : Announce) (ip : Text) (ed : List ℕ) (now : ℕ) (o : Option (List ℕ))
      → Rises a.fp n (keyed c equal_fold n a ip ed now o).net
  unfolding keyed ignored
  keyed-Rises n a ip ed now none = λ p p' h k. inl (one_peer p' p k h)
  keyed-Rises n a ip ed now (some x) = upsert-Rises n a ip ed x now (lookup a.fp n.peers) refl

  bye-Rises : (n : Net) (fp : Text) → Rises fp n (handle_bye n fp)
  unfolding handle_bye
  bye-Rises n fp p p' h k =
      let gone : lookup fp (erase fp n.peers) ≡ none =
        lookup-erase fp fp n.peers ∙ rw (same_refl fp) refl in
      let clash : none ≡ some p' = sym gone ∙ k in absurd (ground arith)

  dispatch-Rises :
      (n : Net) (a : Announce) (ip : Text) (ed : List ℕ) (now : ℕ)
      → Rises a.fp n (dispatch c equal_fold n a ip ed now).net
  unfolding dispatch ignored
  dispatch-Rises n a ip ed now = elim (Bool-cases (same a.kind (codes "bye"))) [
    | inl b ↦ rw b (bye-Rises n a.fp)
    | inr b ↦ elim (Bool-cases (not (same a.kind (codes "announce")))) [
      | inl d ↦ rw (b, d) (λ p p' h k. inl (one_peer p' p k h))
      | inr d ↦ elim (Bool-cases (a.port == 0 || ltb 65535 a.port)) [
        | inl e ↦ rw (b, d, e) (λ p p' h k. inl (one_peer p' p k h))
        | inr e ↦ rw (b, d, e) (keyed-Rises n a ip ed now (x_key c (c.base64_decode a.xk)))
      ]
    ]
  ]

  checked-Rises :
      (n : Net) (a : Announce) (ip : Text) (now : ℕ) (o : Option (List ℕ))
      → Rises a.fp n (checked c equal_fold n a ip now o).net
  unfolding checked ignored
  checked-Rises n a ip now none = λ p p' h k. inl (one_peer p' p k h)
  checked-Rises n a ip now (some key) = elim (Bool-cases (same (fingerprint c key) a.fp)) [
    | inr f ↦ rw f (λ p p' h k. inl (one_peer p' p k h))
    | inl f ↦ elim (Bool-cases (verify_sig c key (announce_payload c a) a.sig)) [
      | inr g ↦ rw (f, g) (λ p p' h k. inl (one_peer p' p k h))
      | inl g ↦ elim (Bool-cases (timely c a.ts now)) [
        | inr t ↦ rw (f, g, t) (λ p p' h k. inl (one_peer p' p k h))
        | inl t ↦ rw (f, g, t) (dispatch-Rises n a ip key now)
      ]
    ]
  ]

  any-Rises :
      (n : Net) (a : Announce) (ip : Text) (now : ℕ)
      → Rises a.fp n (on_announce c equal_fold n a ip now).net
  unfolding on_announce ignored
  any-Rises n a ip now = elim (Bool-cases (same a.fp n.self_fp)) [
    | inl s ↦ rw s (λ p p' h k. inl (one_peer p' p k h))
    | inr s ↦ elim (Bool-cases (a.v == proto_version)) [
      | inr v ↦ rw (s, v) (λ p p' h k. inl (one_peer p' p k h))
      | inl v ↦ rw (s, v) (checked-Rises n a ip now (ed_key c (c.base64_decode a.ed)))
    ]
  ]

  -- Where an announcement finds the peer that it names and leaves it in the table, the peer is as it
  -- was, or its timestamp is later than before.
  pub last_ts-on_announce :
      (n : Net) (a : Announce) (ip : Text) (now : ℕ) (p p' : Peer)
      → lookup a.fp n.peers ≡ some p
      → lookup a.fp (on_announce c equal_fold n a ip now).net.peers ≡ some p'
      → (p' ≡ p) ⊎ (p.last_ts < p'.last_ts)
  last_ts-on_announce n a ip now p p' h k = any-Rises n a ip now p p' h k
