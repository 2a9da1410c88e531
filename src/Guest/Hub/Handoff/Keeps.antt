-- ===== src/Guest/Hub/Handoff/Keeps.antt =====
-- Minting and redeeming a code keep the hub sound.
use lanrunner.Common.{ℕ, [], Option, none, some, Text, same, ltb, leb, inl, inr, Bool-cases}
use lanrunner.Common.Dict.{lookup}
use lanrunner.Guest.Hub.{GuestHub, HandoffCode}
use lanrunner.Guest.Hub.Sessions.Keeps.{Sound}
use lanrunner.Guest.Hub.Handoff.{new_handoff, spend, redeem_handoff, handoff_max_uses}

pub new_handoff-Sound :
    (h : GuestHub) (invite code : Text) (now : ℕ)
    → Sound h
    → Sound (new_handoff h invite code now).0
unfolding new_handoff
new_handoff-Sound h invite code now sound = sound

spend-Sound :
    (h : GuestHub) (code : Text) (now now_ms : ℕ) (o : Option HandoffCode)
    → Sound h
    → Sound (spend h code now now_ms o).0
unfolding spend
spend-Sound h code now now_ms none sound = sound
spend-Sound h code now now_ms (some rec) sound = elim (Bool-cases (ltb rec.expires now)) [
  | inl e ↦ rw e sound
  | inr e ↦ elim (Bool-cases (leb handoff_max_uses rec.uses)) [
    | inl u ↦ rw (e, u) sound
    | inr u ↦ rw (e, u) sound
  ]
]

pub redeem_handoff-Sound :
    (h : GuestHub) (code : Text) (now now_ms : ℕ)
    → Sound h
    → Sound (redeem_handoff h code now now_ms).0
unfolding redeem_handoff
redeem_handoff-Sound h code now now_ms sound = elim (Bool-cases (same code [])) [
  | inl e ↦ rw e sound
  | inr e ↦ rw e (spend-Sound h code now now_ms (lookup code h.handoffs) sound)
]
