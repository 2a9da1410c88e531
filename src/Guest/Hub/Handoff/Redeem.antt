-- ===== src/Guest/Hub/Handoff/Redeem.antt =====
-- A code that was just minted.
use lanrunner.Common.{ℕ, ◌+◌, ◌≤◌, ◌≡◌, refl, true, false, [], some, ltb, le→ltb, Text, same}
use lanrunner.Common.Dict.{lookup, lookup-insert_self}
use lanrunner.Guest.Hub.{GuestHub, Invite, HandoffCode, usable}
use lanrunner.Guest.Hub.Handoff.{
  new_handoff, redeem_handoff, spend, invite_of_code, granted, handoff_lifetime, make_room,
  drop_expired,
}

-- A code that was minted at `now` opens its invite until half an hour later.
pub redeem_handoff-new_handoff :
    (h : GuestHub) (id code : Text) (now later now_ms : ℕ) (inv : Invite)
    → same code [] ≡ false
    → lookup id h.invites ≡ some inv
    → usable inv now_ms ≡ true
    → later ≤ now + handoff_lifetime
    → (redeem_handoff (new_handoff h id code now).0 code later now_ms).1 ≡ granted inv
unfolding redeem_handoff spend new_handoff invite_of_code
redeem_handoff-new_handoff h id code now later now_ms inv named known good soon =
    let rec : HandoffCode = record { invite = id; expires = now + handoff_lifetime; uses = 0 } in
    let table = make_room now (drop_expired now h.handoffs) in
    let in_time : ltb (now + handoff_lifetime) later ≡ false =
      le→ltb later (now + handoff_lifetime) soon in
    rw (named, lookup-insert_self code rec table, in_time, known, good) refl
