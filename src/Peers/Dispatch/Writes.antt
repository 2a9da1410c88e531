-- ===== src/Peers/Dispatch/Writes.antt =====
-- What a peer can change by its frames.
use lanrunner.Common.{
  ℕ, ◌≤◌, ◌≡◌, refl, ◌∙◌, Bool, false, [], Option, none, some, if◌then◌else◌, Text, codes, same,
  length, inl, inr, ◌⊎◌, Bool-cases, arith,
}
use lanrunner.Common.Dict.{lookup, lookup-insert}
use lanrunner.Sanitize.{sanitize_body, is_control, max_body_runes}
use lanrunner.Sanitize.Clean.{Free, cut_body-Free}
use lanrunner.History.{History, HistEntry, append, ack, mark_delivered}
use lanrunner.History.Receipts.{mark_delivered-append}
use lanrunner.Peers.{Net, Peer}
use lanrunner.Peers.Handshake.{Session}
use lanrunner.Peers.Dispatch.{
  Msg, Handled, conv_of, put_peer, flag_peer, seen_peer, ping_at, nothing, pong_at, received,
  on_msg, handle_frame,
}

-- Nothing, or one clean entry of the room or of the peer's own conversation: a receipt, or in its name.
abbrev pub AddsFor : Text → Text → History → History → Type 0
AddsFor fp nick hist hist' =
    (hist' ≡ hist)
    ⊎ ((e : HistEntry) × (hist' ≡ append hist e)
        × ((e.conv ≡ codes "room") ⊎ (e.conv ≡ fp))
        × (((e.fp ≡ []) × (e.nick ≡ []) × (e.kind ≡ codes "ack")) ⊎ ((e.fp ≡ fp) × (e.nick ≡ nick)))
        × (e.self ≡ false)
        × Free is_control e.body
        × (length e.body ≤ max_body_runes))

-- Off `fp` the peers are the same, and the sessions and the pins are.
abbrev pub OnlyPeer : Text → Net → Net → Type 0
OnlyPeer fp n n' =
    ((k : Text) → same fp k ≡ false → lookup k n'.peers ≡ lookup k n.peers)
    × (n'.conns ≡ n.conns)
    × (n'.trust ≡ n.trust)

abbrev pub Confined : {Aead : Type 0} → Text → Text → Net → History → Handled Aead → Type 0
Confined fp nick n hist done = OnlyPeer fp n done.net × AddsFor fp nick hist done.hist

conv_of-cases : (scope fp : Text) → (conv_of scope fp ≡ codes "room") ⊎ (conv_of scope fp ≡ fp)
unfolding conv_of
conv_of-cases scope fp = elim (Bool-cases (same scope (codes "dm"))) [
  | inl e ↦ rw e (inr refl)
  | inr e ↦ rw e (inl refl)
]

put_peer-OnlyPeer :
    (n : Net) (fp : Text) (change : Peer → Peer) (o : Option Peer)
    → OnlyPeer fp n (put_peer n fp change o)
unfolding put_peer
put_peer-OnlyPeer n fp change none = (λ k off. refl, refl, refl)
put_peer-OnlyPeer n fp change (some p) =
    (λ k off. lookup-insert fp k (change p) n.peers ∙ rw off refl, refl, refl)

pub flag_peer-OnlyPeer : (n : Net) (fp flag : Text) → OnlyPeer fp n (flag_peer n fp flag)
unfolding flag_peer
flag_peer-OnlyPeer n fp flag = put_peer-OnlyPeer n fp _ (lookup fp n.peers)

seen_peer-OnlyPeer : (n : Net) (fp : Text) (now : ℕ) → OnlyPeer fp n (seen_peer n fp now)
unfolding seen_peer
seen_peer-OnlyPeer n fp now = put_peer-OnlyPeer n fp _ (lookup fp n.peers)

OnlyPeer-trans : (fp : Text) (a b c : Net) → OnlyPeer fp a b → OnlyPeer fp b c → OnlyPeer fp a c
OnlyPeer-trans fp a b c (p, q, r) (p', q', r') = (λ k off. p' k off ∙ p k off, q' ∙ q, r' ∙ r)

mark_delivered-AddsFor :
    (hist : History) (scope fp nick mid : Text) (now : ℕ)
    → AddsFor fp nick hist (mark_delivered hist (conv_of scope fp) mid now)
mark_delivered-AddsFor hist scope fp nick mid now =
    elim (mark_delivered-append hist (conv_of scope fp) mid now) [
      | inl e ↦ inl e
      | inr e ↦ inr (
        ack (conv_of scope fp) mid now,
        e,
        conv_of-cases scope fp,
        inl (refl, refl, refl),
        refl,
        tt,
        omega arith,
      )
    ]

module _ {Aead : Type 0} where
  nothing-Confined :
      (n : Net) (hist : History) (s : Session Aead) (fp nick : Text)
      → Confined fp nick n hist (nothing n hist s)
  unfolding nothing
  nothing-Confined n hist s fp nick = ((λ k off. refl, refl, refl), inl refl)

  pong_at-Confined :
      (n : Net) (hist : History) (s : Session Aead) (pn now : ℕ) (o : Option ℕ)
      → Confined s.conn.fp s.nick n hist (pong_at n hist s pn now o)
  unfolding pong_at nothing
  pong_at-Confined n hist s pn now none = ((λ k off. refl, refl, refl), inl refl)
  pong_at-Confined n hist s pn now (some t0) = (seen_peer-OnlyPeer n s.conn.fp now, inl refl)

  on_msg-Confined :
      (n : Net) (hist : History) (s : Session Aead) (m : Msg) (text : Text) (had : Bool)
      (now now_ms : ℕ)
      → Confined s.conn.fp s.nick n hist (on_msg n hist s m (sanitize_body text).0 had now now_ms)
  unfolding on_msg nothing received
  on_msg-Confined n hist s m text had now now_ms =
      let n' = if had then flag_peer n s.conn.fp (codes "CONTROL-CHARS") else n in
      let flagged : OnlyPeer s.conn.fp n n' = elim (Bool-cases had) [
        | inl e ↦ rw e (flag_peer-OnlyPeer n s.conn.fp (codes "CONTROL-CHARS"))
        | inr e ↦ rw e (λ k off. refl, refl, refl)
      ] in
      elim (Bool-cases (same (sanitize_body text).0 [])) [
        | inl e ↦ rw e (flagged, inl refl)
        | inr e ↦ rw e (
          OnlyPeer-trans s.conn.fp n n' (seen_peer n' s.conn.fp now) flagged
              (seen_peer-OnlyPeer n' s.conn.fp now),
          inr (
            _,
            refl,
            conv_of-cases m.conv s.conn.fp,
            inr (refl, refl),
            refl,
            (cut_body-Free text).0,
            (cut_body-Free text).1,
          ),
        )
      ]

  -- Whatever a peer sends, a frame of its session changes no session and no pin and no peer but itself,
  -- and writes nothing, or one entry: in the room or in the peer's own conversation, either a receipt
  -- without a name or under the fingerprint of the peer and the name that its session has, without
  -- control characters and of 2048 characters at most.
  pub handle_frame-Confined :
      (n : Net) (hist : History) (s : Session Aead) (o : Option Msg) (now now_ms : ℕ)
      → Confined s.conn.fp s.nick n hist (handle_frame n hist s o now now_ms)
  unfolding handle_frame nothing
  handle_frame-Confined n hist s none now now_ms = nothing-Confined n hist s s.conn.fp s.nick
  handle_frame-Confined n hist s (some m) now now_ms =
      let idle = nothing-Confined n hist s s.conn.fp s.nick in
      elim (Bool-cases (same m.kind (codes "ping"))) [
        | inl a ↦ rw a ((λ k off. refl, refl, refl), inl refl)
        | inr a ↦ elim (Bool-cases (same m.kind (codes "pong"))) [
          | inl b ↦ rw (a, b) (pong_at-Confined n hist s m.pn now (ping_at m.pn s.pings))
          | inr b ↦ elim (Bool-cases (same m.kind (codes "ack"))) [
            | inl c ↦
                rw (a, b, c)
                  (
                    (λ k off. refl, refl, refl),
                    mark_delivered-AddsFor hist m.conv s.conn.fp s.nick m.mid now_ms,
                  )
            | inr c ↦ elim (Bool-cases (same m.kind (codes "typing"))) [
              | inl d ↦ rw (a, b, c, d) idle
              | inr d ↦ elim (Bool-cases (same m.kind (codes "msg"))) [
                | inl f ↦
                    rw (a, b, c, d, f)
                      (on_msg-Confined n hist s m m.body (sanitize_body m.body).1 now now_ms)
                | inr f ↦ rw (a, b, c, d, f) idle
              ]
            ]
          ]
        ]
      ]
