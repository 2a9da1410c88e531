-- ===== src/Chat/Private.antt =====
-- Who gets a message of a private conversation.
use lanrunner.Common.{
  ℕ, ◌≡◌, refl, Bool, true, false, List, [], ◌∷◌, Option, none, some, none-ne-some, Text, codes,
  same, inl, inr, Bool-cases, arith,
}
use lanrunner.Common.Dict.{Dict, lookup}
use lanrunner.Sanitize.{sanitize_body, cut_body}
use lanrunner.Guest.Session.{GuestSession}
use lanrunner.Guest.Hub.{GuestHub}
use lanrunner.Guest.Hub.Sessions.Deliver.{deliver-others}
use lanrunner.Guest.Hub.Sessions.Keeps.{Sound}
use lanrunner.Peers.{Conn}
use lanrunner.Chat.{App, Sent, found, targets_of, to_guest, to_peers, guest_here, send}

-- The sessions of guests, if there is a gateway.
abbrev pub guest_at : Text → Option GuestHub → Option GuestSession
guest_at sid none = none
guest_at sid (some h) = lookup sid h.sessions

abbrev pub SoundGuests : Option GuestHub → Type 0
SoundGuests none = Unit {0}
SoundGuests (some h) = Sound h

abbrev pub Only : Text → Dict Conn → List Conn → Type 0
Only conv conns [] = Unit {0}
Only conv conns (conn ∷ rest) = (lookup conv conns ≡ some conn) × Only conv conns rest

-- No peer but the one that the conversation names, no guest but those of the invite that it names.
abbrev pub KeptPrivate : Text → App → Sent → Type 0
KeptPrivate conv a out =
    Only conv a.net.conns out.targets
    × ((sid : Text) (s : GuestSession)
        → guest_at sid a.guests ≡ some s
        → same s.invite conv ≡ false
        → guest_at sid out.app.guests ≡ some s)
    × (guest_here a.guests conv ≡ true → out.targets ≡ [])

found-Only :
    (conv : Text) (conns : Dict Conn) (o : Option Conn)
    → lookup conv conns ≡ o
    → Only conv conns (found o)
unfolding found
found-Only conv conns none e = tt
found-Only conv conns (some conn) e = (e, tt)

module _ (can_seal : GuestSession → Bool) where
  to_guest-others :
      (a : App) (conv body mid : Text) (now_ms : ℕ) (o : Option GuestHub) (sid : Text)
      (s : GuestSession)
      → a.guests ≡ o
      → SoundGuests o
      → guest_at sid o ≡ some s
      → same s.invite conv ≡ false
      → guest_at sid (to_guest can_seal a conv body mid now_ms o).guests ≡ some s
  unfolding to_guest
  to_guest-others a conv body mid now_ms none sid s same_hub sound at other =
      absurd (none-ne-some s at)
  to_guest-others a conv body mid now_ms (some h) sid s same_hub sound at other =
      deliver-others can_seal h conv _ sid s sound at other

  -- A message in a conversation that is not the room goes to no session but that of the peer that the
  -- conversation names, and reaches the queue of no guest but those of the invite that it names; for
  -- an invite there is no peer at all. The gateway is sound.
  pub send-KeptPrivate :
      (up : Conn → Bool) (a : App) (conv body mid : Text) (now_ms : ℕ)
      → SoundGuests a.guests
      → same conv (codes "room") ≡ false
      → KeptPrivate conv a (send can_seal up a conv body mid now_ms)
  unfolding send to_peers targets_of
  send-KeptPrivate up a conv body mid now_ms sound closed =
      elim (Bool-cases (same (sanitize_body body).0 [])) [
        | inl e ↦ rw e (tt, λ sid s at other. at, λ here. refl)
        | inr e ↦ elim (Bool-cases (guest_here a.guests conv)) [
          | inl g ↦
              rw (e, g)
                (
                  tt,
                  λ sid s at other.
                      to_guest-others a conv (cut_body (sanitize_body body).0) mid now_ms a.guests
                        sid s refl sound at other,
                  λ here. refl,
                )
          | inr g ↦
              rw (e, g, closed)
                (
                  found-Only conv a.net.conns (lookup conv a.net.conns) refl,
                  λ sid s at other. at,
                  λ here. absurd (ground arith),
                )
        ]
      ]
