-- ===== src/Peers/Converge.antt =====
-- Two peers that connect to each other at once.
use lanrunner.Common.{
  ◌≡◌, refl, sym, ap, ◌∙◌, none, some, not, if◌then◌else◌, Text, text_lt, text_lt_flip, text_lt_tie,
  arith, inl, inr, Bool-cases,
}
use lanrunner.Common.Dict.{lookup, insert, lookup-insert_self}
use lanrunner.Peers.{Net, Conn, register, register_at, dialer_of}

abbrev pub smaller : Text → Text → Text
smaller a b = if text_lt a b then a else b

smaller_comm : (a b : Text) → smaller a b ≡ smaller b a
smaller_comm a b = elim (Bool-cases (text_lt a b)) [
  | inl h ↦ rw (h, text_lt_flip a b h) refl
  | inr h ↦ elim (Bool-cases (text_lt b a)) [
    | inl k ↦ rw (h, k) refl
    | inr k ↦ rw (h, k) (sym (text_lt_tie a b h k))
  ]
]

-- Two connections with one peer, one opened by each side, registered one after the other.
abbrev pub Crossed : Net → Text → Conn → Conn → Type 0
Crossed n peer c d =
    (c.fp ≡ peer) × (d.fp ≡ peer) × (d.outbound ≡ not c.outbound) × (lookup peer n.conns ≡ none)

abbrev pub both : Net → Conn → Conn → Net
both n c d = (register (register n c).0 d).0

first_in :
    (n : Net) (peer : Text) (c : Conn)
    → c.fp ≡ peer
    → lookup peer n.conns ≡ none
    → (register n c).0 ≡ record n { conns = insert peer c n.conns }
unfolding register register_at
first_in n peer c cf e =
    let free : lookup c.fp n.conns ≡ none = ap (λ k. lookup k n.conns) cf ∙ e in
    rw free (ap (λ k. record n { conns = insert k c n.conns }) cf)

second_in :
    (n : Net) (peer : Text) (c d : Conn)
    → d.fp ≡ peer
    → lookup peer n.conns ≡ some c
    → lookup peer (register n d).0.conns
      ≡ some (if text_lt (dialer_of d n.self_fp) (dialer_of c n.self_fp) then d else c)
unfolding register register_at
second_in n peer c d df e =
    let held : lookup d.fp n.conns ≡ some c = ap (λ k. lookup k n.conns) df ∙ e in
    elim (Bool-cases (text_lt (dialer_of d n.self_fp) (dialer_of c n.self_fp))) [
      | inl h ↦
          rw (held, h)
            (ap (λ k. lookup peer (insert k d n.conns)) df ∙ lookup-insert_self peer d n.conns)
      | inr h ↦ rw (held, h) e
    ]

both-survivor :
    (n : Net) (peer : Text) (c d : Conn)
    → Crossed n peer c d
    → lookup peer (both n c d).conns
      ≡ some (if text_lt (dialer_of d n.self_fp) (dialer_of c n.self_fp) then d else c)
both-survivor n peer c d (cf, df, o, e) =
    ap (λ (m : Net). lookup peer (register m d).0.conns) (first_in n peer c cf e)
    ∙ second_in (record n { conns = insert peer c n.conns }) peer c d df
        (lookup-insert_self peer c n.conns)

survivor-smaller :
    (self peer : Text) (c d : Conn)
    → c.fp ≡ peer
    → d.fp ≡ peer
    → d.outbound ≡ not c.outbound
    → dialer_of (if text_lt (dialer_of d self) (dialer_of c self) then d else c) self
      ≡ smaller self peer
unfolding dialer_of
survivor-smaller self peer c d cf df o = ground (arith, smaller_comm self peer)

-- Two hosts that have no session yet and each register the two connections that they opened to each
-- other, each in its own order, are both left with one that the smaller fingerprint opened.
pub register-converge :
    (m n : Net) (a b : Text) (c d c' d' : Conn)
    → m.self_fp ≡ a
    → n.self_fp ≡ b
    → Crossed m b c d
    → Crossed n a c' d'
    → (s : Conn) × (s' : Conn) × (lookup b (both m c d).conns ≡ some s)
      × (lookup a (both n c' d').conns ≡ some s')
      × (dialer_of s a ≡ smaller a b)
      × (dialer_of s' b ≡ smaller a b)
register-converge m n a b c d c' d' ma nb x y = (
  _,
  _,
  both-survivor m b c d x,
  both-survivor n a c' d' y,
  ap (λ f. dialer_of (if text_lt (dialer_of d f) (dialer_of c f) then d else c) a) ma
      ∙ survivor-smaller a b c d x.0 x.1 x.2,
  ap (λ f. dialer_of (if text_lt (dialer_of d' f) (dialer_of c' f) then d' else c') b) nb
      ∙ (survivor-smaller b a c' d' y.0 y.1 y.2 ∙ smaller_comm b a),
)
