-- ===== src/Guest/Hub/Handoff/Table.antt =====
-- The table of handoff codes keeps its bound, and minting a code spares the others.
use lanrunner.Common.{
  ℕ, ◌+◌, ◌≤◌, ◌<◌, ◌≡◌, false, [], ◌∷◌, some, arith, lt→leb, Text, same, length,
}
use lanrunner.Common.Dict.{
  Dict, lookup, lookup-insert, Unique, keep_if, lookup-keep_if, only_if, length-keep_if,
}
use lanrunner.Guest.Hub.{GuestHub, HandoffCode}
use lanrunner.Guest.Hub.Handoff.{
  handoff_lifetime, handoff_max, in_time, drop_expired, make_room, new_handoff,
}

-- Every code was minted by `now`, and so expires within the lifetime.
abbrev pub Minted : ℕ → Dict HandoffCode → Type 0
Minted now [] = Unit {0}
Minted now ((c, rec) ∷ m) = (rec.expires ≤ now + handoff_lifetime) × Minted now m

abbrev Present : Text → Dict HandoffCode → Type 0
Present x m = (rec : HandoffCode) × (lookup x m ≡ some rec)

-- While fewer than 128 codes are in the table, minting one leaves every other code that is still in
-- time as it was, and drops exactly those that have expired.
pub new_handoff-spares :
    (h : GuestHub) (invite code other : Text) (now : ℕ)
    → Unique h.handoffs
    → length h.handoffs < handoff_max
    → same code other ≡ false
    → lookup other (new_handoff h invite code now).0.handoffs
      ≡ only_if (in_time now) (lookup other h.handoffs)
unfolding new_handoff make_room drop_expired
new_handoff-spares h invite code other now u room ne =
    rw
      (
        lt→leb (length (keep_if (in_time now) h.handoffs)) handoff_max
            (omega (arith, length-keep_if (in_time now) h.handoffs)),
        lookup-insert code other _ (keep_if (in_time now) h.handoffs),
        ne,
      )
      (lookup-keep_if (in_time now) other h.handoffs u)
