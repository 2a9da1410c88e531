-- ===== src/Guest/Hub/Handoff/Listed.antt =====
-- Minting and redeeming a code keep every invite in the order.
use lanrunner.Common.{ℕ, [], Option, none, some, Text, same, ltb, leb, inl, inr, Bool-cases}
use lanrunner.Common.Dict.{lookup}
use lanrunner.Guest.Hub.{GuestHub, HandoffCode}
use lanrunner.Guest.Hub.Reach.Ordered.{Ordered}
use lanrunner.Guest.Hub.Handoff.{new_handoff, spend, redeem_handoff, handoff_max_uses}

pub new_handoff-Ordered :
    (h : GuestHub) (invite code : Text) (now : ℕ)
    → Ordered h
    → Ordered (new_handoff h invite code now).0
unfolding new_handoff
new_handoff-Ordered h invite code now ordered = ordered

spend-Ordered :
    (h : GuestHub) (code : Text) (now now_ms : ℕ) (o : Option HandoffCode)
    → Ordered h
    → Ordered (spend h code now now_ms o).0
unfolding spend
spend-Ordered h code now now_ms none ordered = ordered
spend-Ordered h code now now_ms (some rec) ordered = elim (Bool-cases (ltb rec.expires now)) [
  | inl e ↦ rw e ordered
  | inr e ↦ elim (Bool-cases (leb handoff_max_uses rec.uses)) [
    | inl u ↦ rw (e, u) ordered
    | inr u ↦ rw (e, u) ordered
  ]
]

pub redeem_handoff-Ordered :
    (h : GuestHub) (code : Text) (now now_ms : ℕ)
    → Ordered h
    → Ordered (redeem_handoff h code now now_ms).0
unfolding redeem_handoff
redeem_handoff-Ordered h code now now_ms ordered = elim (Bool-cases (same code [])) [
  | inl e ↦ rw e ordered
  | inr e ↦ rw e (spend-Ordered h code now now_ms (lookup code h.handoffs) ordered)
]
