-- ===== src/Guest/Session/Stream/Identity.antt =====
-- A stream leaves a tab the tab that it is.
use lanrunner.Common.{ℕ, ◌≡◌, refl, Bool, true, false, List, [], ◌∷◌, inl, inr, Bool-cases}
use lanrunner.History.{History}
use lanrunner.Guest.Session.{GuestSession, Envelope, touch}
use lanrunner.Guest.Session.Stream.{Stream, open_stream, take_from, turn, keepalive}

-- The id and the invite.
abbrev pub SameTab : GuestSession → GuestSession → Type 0
SameTab s s' = (s'.sid ≡ s.sid) × (s'.invite ≡ s.invite)

pub open_stream-SameTab :
    (s : GuestSession) (hist : History) (now : ℕ) → SameTab s (open_stream s hist now).0
unfolding open_stream touch
open_stream-SameTab s hist now = (refl, refl)

take_from-SameTab :
    (s : GuestSession) (st : Stream) (up : Bool) (now : ℕ) (ch : List Envelope)
    → SameTab s (take_from s st up now ch).0
unfolding take_from touch
take_from-SameTab s st up now [] = (refl, refl)
take_from-SameTab s st true now (e ∷ rest) = (refl, refl)
take_from-SameTab s st false now (e ∷ rest) = (refl, refl)

pub turn-SameTab :
    (s : GuestSession) (st : Stream) (up : Bool) (now : ℕ) → SameTab s (turn s st up now).0
unfolding turn
turn-SameTab s st up now = elim (Bool-cases st.live) [
  | inl e ↦ rw e (take_from-SameTab s (record st { live = true }) up now s.ch)
  | inr e ↦ rw e (refl, refl)
]

pub keepalive-SameTab :
    (s : GuestSession) (st : Stream) (up : Bool) (now : ℕ) → SameTab s (keepalive s st up now).0
unfolding keepalive touch
keepalive-SameTab s st up now = elim (Bool-cases st.live) [
  | inr e ↦ rw e (refl, refl)
  | inl e ↦ elim (Bool-cases up) [ inl u ↦ rw (e, u) (refl, refl) | inr u ↦ rw (e, u) (refl, refl) ]
]
