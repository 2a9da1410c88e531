-- ===== src/Guest/Hub/Sessions/Deliver.antt =====
-- Deliveries into the queues of sessions.
use lanrunner.Common.{
  ◌≡◌, refl, ◌∙◌, Bool, false, List, [], ◌∷◌, some, arith, Text, same, Bool-cases, inl, inr,
  Option-cases,
}
use lanrunner.Common.Dict.{Dict, lookup, insert, lookup-insert}
use lanrunner.Guest.Session.{GuestSession, Envelope, push}
use lanrunner.Guest.Hub.{GuestHub, tabs}
use lanrunner.Guest.Hub.Sessions.{member, deliver_to, deliver}
use lanrunner.Guest.Hub.Sessions.Keeps.{Sound, SoundAt, replace-Sound}

push-same :
    (s : GuestSession) (e : Envelope) → ((push s e).sid ≡ s.sid) × ((push s e).invite ≡ s.invite)
unfolding push
push-same s e = ground arith

-- A push into the queue of a session that is there.
pub push-Sound :
    (h : GuestHub) (sid : Text) (s : GuestSession) (e : Envelope)
    → lookup sid h.sessions ≡ some s
    → Sound h
    → SoundAt (insert sid (push s e) h.sessions) h.by_invite h.invites
push-Sound h sid s e at = replace-Sound h sid s (push s e) at (push-same s e).0 (push-same s e).1

deliver_to-Sound :
    (can_seal : GuestSession → Bool) (e : Envelope) (sids : List Text) (h : GuestHub)
    → Sound h
    → SoundAt (deliver_to can_seal e sids h.sessions).0 h.by_invite h.invites
unfolding deliver_to
deliver_to-Sound can_seal e [] h sound = sound
deliver_to-Sound can_seal e (sid ∷ sids) h sound = elim (Option-cases (lookup sid h.sessions)) [
  | inl n ↦ rw (n, deliver_to) (deliver_to-Sound can_seal e sids h sound)
  | inr (s, n) ↦ elim (Bool-cases (can_seal s)) [
    | inl y ↦
        rw (n, deliver_to, y)
          (deliver_to-Sound can_seal e sids
            (record h { sessions = insert sid (push s e) h.sessions })
            (push-Sound h sid s e n sound))
    | inr y ↦ rw (n, deliver_to, y) (deliver_to-Sound can_seal e sids h sound)
  ]
]

pub deliver-Sound :
    (can_seal : GuestSession → Bool) (h : GuestHub) (id : Text) (e : Envelope)
    → Sound h
    → Sound (deliver can_seal h id e).0
unfolding deliver
deliver-Sound can_seal h id e = deliver_to-Sound can_seal e (tabs h id) h

-- A tab that is not listed is as it was.
deliver_to-others :
    (can_seal : GuestSession → Bool) (e : Envelope) (sids : List Text)
    (sessions : Dict GuestSession) (k : Text)
    → member k sids ≡ false
    → lookup k (deliver_to can_seal e sids sessions).0 ≡ lookup k sessions
unfolding deliver_to member
deliver_to-others can_seal e [] sessions k off = refl
deliver_to-others can_seal e (sid ∷ sids) sessions k off =
    let other : same sid k ≡ false = ground arith in
    let rest : member k sids ≡ false = ground arith in
    elim (Option-cases (lookup sid sessions)) [
      | inl n ↦ rw (n, deliver_to) (deliver_to-others can_seal e sids sessions k rest)
      | inr (s, n) ↦ elim (Bool-cases (can_seal s)) [
        | inl y ↦
            rw (n, deliver_to, y)
              (deliver_to-others can_seal e sids (insert sid (push s e) sessions) k rest
                ∙ lookup-insert sid k (push s e) sessions
                ∙ rw other refl)
        | inr y ↦ rw (n, deliver_to, y) (deliver_to-others can_seal e sids sessions k rest)
      ]
    ]

-- Only tabs of the invite are touched.
pub deliver-others :
    (can_seal : GuestSession → Bool) (h : GuestHub) (id : Text) (e : Envelope) (sid : Text)
    (s : GuestSession)
    → Sound h
    → lookup sid h.sessions ≡ some s
    → same s.invite id ≡ false
    → lookup sid (deliver can_seal h id e).0.sessions ≡ some s
unfolding deliver tabs
deliver-others can_seal h id e sid s (book, held, own) at other =
    let unlisted : member sid (tabs h id) ≡ false = book sid id ∙ rw (at, other) refl in
    deliver_to-others can_seal e (tabs h id) h.sessions sid unlisted ∙ at
