-- ===== src/Peers/Dispatch/Pings.antt =====
-- The pings that are open stay few.
use lanrunner.Common.{
  ℕ, suc, ◌+◌, ◌-◌, ◌%◌, ◌≤◌, ◌<◌, ◌≡◌, List, [], ◌∷◌, ltb, leb, ◌==◌, length, arith, inl, inr,
  Bool-cases,
}
use lanrunner.Peers.Handshake.{Session}
use lanrunner.Peers.Dispatch.{forget_ping, later_pings, beat}

-- The newest first, each key below the one before.
abbrev Falling : ℕ → List (ℕ × ℕ) → Type 0
Falling u [] = Unit {0}
Falling u ((k, t) ∷ pings) = (k < u) × Falling k pings

Falling-weaken : (u v : ℕ) (pings : List (ℕ × ℕ)) → u ≤ v → Falling u pings → Falling v pings
Falling-weaken u v [] h f = tt
Falling-weaken u v ((k, t) ∷ pings) h (below, rest) = (omega arith, rest)

forget_ping-Falling :
    (pn u : ℕ) (pings : List (ℕ × ℕ)) → Falling u pings → Falling u (forget_ping pn pings)
unfolding forget_ping
forget_ping-Falling pn u [] f = tt
forget_ping-Falling pn u ((k, t) ∷ pings) (below, rest) = elim (Bool-cases (k == pn)) [
  | inl e ↦ rw e (forget_ping-Falling pn u pings (Falling-weaken k u pings (omega arith) rest))
  | inr e ↦ rw e (below, forget_ping-Falling pn k pings rest)
]

later_pings-Falling :
    (b u : ℕ) (pings : List (ℕ × ℕ)) → Falling u pings → Falling u (later_pings b pings)
unfolding later_pings
later_pings-Falling b u [] f = tt
later_pings-Falling b u ((k, t) ∷ pings) (below, rest) = elim (Bool-cases (leb k b)) [
  | inl e ↦ rw e (later_pings-Falling b u pings (Falling-weaken k u pings (omega arith) rest))
  | inr e ↦ rw e (below, later_pings-Falling b k pings rest)
]

-- Only the keys between the two bounds are left.
length-later_pings :
    (b u : ℕ) (pings : List (ℕ × ℕ)) → Falling u pings → length (later_pings b pings) ≤ (u - 1) - b
unfolding later_pings
length-later_pings b u [] f = omega arith
length-later_pings b u ((k, t) ∷ pings) (below, rest) = elim (Bool-cases (leb k b)) [
  | inl e ↦ rw e (omega (arith, length-later_pings b k pings rest))
  | inr e ↦ rw e (ground (arith, length-later_pings b k pings rest))
]

length-forget_ping : (pn : ℕ) (pings : List (ℕ × ℕ)) → length (forget_ping pn pings) ≤ length pings
unfolding forget_ping
length-forget_ping pn [] = omega arith
length-forget_ping pn ((k, t) ∷ pings) = ground (arith, length-forget_ping pn pings)

-- What can happen to the pings of a session.
pub data PingEvent : Type 0 where
  ticked : ℕ → ℕ → PingEvent
  answered : ℕ → PingEvent

module _ {Aead : Type 0} where
  pub ping_run : Session Aead → List PingEvent → Session Aead
  ping_run s [] = s
  ping_run s (ticked now now_ms ∷ events) = ping_run (beat s now now_ms).0 events
  ping_run s (answered pn ∷ events) = ping_run (record s { pings = forget_ping pn s.pings }) events

  -- At most eight pings, all of numbers given so far.
  abbrev Few : Session Aead → Type 0
  Few s = Falling (suc s.ping_seq) s.pings × (length s.pings ≤ 8)

  beat-Few :
      (s : Session Aead) (now now_ms : ℕ)
      → suc s.ping_seq < 0x10000000000000000
      → Few s
      → Few (beat s now now_ms).0
  unfolding beat
  beat-Few s now now_ms room (falling, few) = elim (Bool-cases s.conn.closed) [
    | inl e ↦ rw e (falling, few)
    | inr e ↦
        let pn = suc s.ping_seq % 0x10000000000000000 in
        let exact : pn ≡ suc s.ping_seq = omega arith in
        let kept = forget_ping pn s.pings in
        let grown : Falling (suc pn) ((pn, now) ∷ kept) = (
          omega arith,
          Falling-weaken (suc s.ping_seq) pn kept (omega (arith, exact))
              (forget_ping-Falling pn (suc s.ping_seq) s.pings falling),
        ) in
        let bound = (pn + (0x10000000000000000 - 8)) % 0x10000000000000000 in
        elim (Bool-cases (ltb 8 (length ((pn, now) ∷ kept)))) [
          | inr small ↦ rw (e, small) (grown, ground arith)
          | inl big ↦
              rw (e, big)
                (
                  later_pings-Falling bound (suc pn) ((pn, now) ∷ kept) grown,
                  omega (arith, length-later_pings bound (suc pn) ((pn, now) ∷ kept) grown),
                )
        ]
  ]

  ping_seq-beat :
      (s : Session Aead) (now now_ms : ℕ) → (beat s now now_ms).0.ping_seq ≤ suc s.ping_seq
  unfolding beat
  ping_seq-beat s now now_ms = elim (Bool-cases s.conn.closed) [
    | inl e ↦ rw e (omega arith)
    | inr e ↦ rw e (omega arith)
  ]

  ping_run-Few :
      (s : Session Aead) (events : List PingEvent)
      → Few s
      → s.ping_seq + length events < 0x10000000000000000
      → length (ping_run s events).pings ≤ 8
  unfolding ping_run
  ping_run-Few s [] few room = few.1
  ping_run-Few s (ticked now now_ms ∷ events) few room =
      ping_run-Few (beat s now now_ms).0 events (beat-Few s now now_ms (omega arith) few)
        (omega (arith, ping_seq-beat s now now_ms))
  ping_run-Few s (answered pn ∷ events) (falling, few) room =
      ping_run-Few (record s { pings = forget_ping pn s.pings }) events
        (
          forget_ping-Falling pn (suc s.ping_seq) s.pings falling,
          omega (arith, length-forget_ping pn s.pings),
        )
        (omega arith)

  -- A session that starts without pings has at most eight open after any beats and answers of its
  -- peer, in any order, while the 64-bit counter does not wrap.
  pub pings-ping_run :
      (s : Session Aead) (events : List PingEvent)
      → s.pings ≡ []
      → s.ping_seq + length events < 0x10000000000000000
      → length (ping_run s events).pings ≤ 8
  pings-ping_run s events e = ping_run-Few s events (rw e tt, rw e (omega arith))
