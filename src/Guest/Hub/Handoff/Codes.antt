-- ===== src/Guest/Hub/Handoff/Codes.antt =====
-- What a handoff code is good for.
use lanrunner.Common.{
  ℕ, suc, ◌+◌, ◌-◌, ◌≤◌, ◌<◌, ◌≡◌, refl, true, false, List, [], ◌∷◌, Option, none, some, leb, ltb,
  arith, if◌then◌else◌, Text, same, same_iff, Bool-cases, inl, inr,
}
use lanrunner.Common.Dict.{
  Dict, lookup, lookup-insert, lookup-erase, Unique, keep_if, lookup-keep_if, keep_if-Unique,
  insert-Unique, erase-Unique,
}
use lanrunner.Guest.Hub.{GuestHub, HandoffCode, Invite, usable}
use lanrunner.Guest.Hub.Handoff.{
  Redeemed, granted, refused, handoff_max_uses, drop_expired, in_time, hour, oldest_code, make_room,
  new_handoff, redeem_handoff, spend, invite_of_code,
}

-- A code opens an invite only if it is known, in time and not used up, and if that invite is its own,
-- still there and usable.
pub redeem_handoff-granted :
    (h : GuestHub) (code : Text) (now now_ms : ℕ) (inv : Invite)
    → (redeem_handoff h code now now_ms).1 ≡ granted inv
    → (rec : HandoffCode) × (lookup code h.handoffs ≡ some rec)
      × (now ≤ rec.expires)
      × (rec.uses < handoff_max_uses)
      × (lookup rec.invite h.invites ≡ some inv)
      × (usable inv now_ms ≡ true)
unfolding redeem_handoff
redeem_handoff-granted h code now now_ms inv e = ground arith

-- What happens to the table of codes.
pub data CodeEvent : Type 0 where
  mints : Text → Text → ℕ → CodeEvent
  redeems : Text → ℕ → ℕ → CodeEvent

pub code_step : GuestHub → CodeEvent → GuestHub
code_step h (mints invite code now) = (new_handoff h invite code now).0
code_step h (redeems code now now_ms) = (redeem_handoff h code now now_ms).0

is_granted : Redeemed → ℕ
is_granted (granted inv) = 1
is_granted (refused why) = 0

grants_of : Text → GuestHub → CodeEvent → ℕ
unfolding is_granted
grants_of code h (mints invite other now) = 0
grants_of code h (redeems other now now_ms) =
    if same other code then is_granted (redeem_handoff h other now now_ms).1 else 0

-- How often a code opens its invite in a stream of events.
pub grants : Text → GuestHub → List CodeEvent → ℕ
unfolding grants_of
grants code h [] = 0
grants code h (e ∷ es) = grants_of code h e + grants code (code_step h e) es

abbrev pub NotMinted : Text → List CodeEvent → Type 0
NotMinted code [] = Unit {0}
NotMinted code (mints invite other now ∷ es) = (same other code ≡ false) × NotMinted code es
NotMinted code (redeems other now now_ms ∷ es) = NotMinted code es

abbrev pub uses_left : Option HandoffCode → ℕ
uses_left none = 0
uses_left (some rec) = handoff_max_uses - rec.uses

uses_left-make_room :
    (now : ℕ) (code : Text) (m : Dict HandoffCode)
    → uses_left (lookup code (make_room now m)) ≤ uses_left (lookup code m)
unfolding make_room
uses_left-make_room now code m = ground (arith, lookup-erase (oldest_code [] (now + hour) m) code m)

uses_left-drop_expired :
    (now : ℕ) (code : Text) (m : Dict HandoffCode)
    → Unique m
    → uses_left (lookup code (drop_expired now m)) ≤ uses_left (lookup code m)
unfolding drop_expired
uses_left-drop_expired now code m u = ground (arith, lookup-keep_if (in_time now) code m u)

new_handoff-Unique :
    (h : GuestHub) (invite code : Text) (now : ℕ)
    → Unique h.handoffs
    → Unique (new_handoff h invite code now).0.handoffs
unfolding new_handoff make_room drop_expired
new_handoff-Unique h invite code now u =
    let kept = keep_if-Unique (in_time now) h.handoffs u in
    insert-Unique code _ _ (
      ground (
        arith,
        erase-Unique (oldest_code [] (now + hour) (keep_if (in_time now) h.handoffs)) _ kept,
      ))

redeem_handoff-Unique :
    (h : GuestHub) (code : Text) (now now_ms : ℕ)
    → Unique h.handoffs
    → Unique (redeem_handoff h code now now_ms).0.handoffs
unfolding redeem_handoff
redeem_handoff-Unique h code now now_ms u = elim (Bool-cases (same code [])) [
  | inl e ↦ rw e u
  | inr ne ↦ rw ne (spent (lookup code h.handoffs))
]
  where
    spent : (o : Option HandoffCode) → Unique (spend h code now now_ms o).0.handoffs
    spent none = u
    spent (some rec) = elim (Bool-cases (ltb rec.expires now)) [
      | inl late ↦ rw late (erase-Unique code h.handoffs u)
      | inr ok ↦ rw ok (elim (Bool-cases (leb handoff_max_uses rec.uses)) [
        | inl full ↦ rw full (erase-Unique code h.handoffs u)
        | inr more ↦ rw more (insert-Unique code _ h.handoffs u)
      ])
    ]

code_step-Unique :
    (h : GuestHub) (e : CodeEvent) → Unique h.handoffs → Unique (code_step h e).handoffs
unfolding code_step
code_step-Unique h (mints invite code now) u = new_handoff-Unique h invite code now u
code_step-Unique h (redeems code now now_ms) u = redeem_handoff-Unique h code now now_ms u

mint-uses_left :
    (h : GuestHub) (invite other code : Text) (now : ℕ)
    → Unique h.handoffs
    → same other code ≡ false
    → uses_left (lookup code (new_handoff h invite other now).0.handoffs)
      ≤ uses_left (lookup code h.handoffs)
unfolding new_handoff
mint-uses_left h invite other code now u ne =
    rw (lookup-insert other code _ (make_room now (drop_expired now h.handoffs)), ne)
      (omega (
        arith,
        uses_left-make_room now code (drop_expired now h.handoffs),
        uses_left-drop_expired now code h.handoffs u,
      ))

uses_left-le : (o : Option HandoffCode) → uses_left o ≤ handoff_max_uses
uses_left-le none = omega arith
uses_left-le (some rec) = omega arith

granted-le : (r : Redeemed) → is_granted r ≤ 1
unfolding is_granted
granted-le (granted inv) = omega arith
granted-le (refused why) = omega arith

spend-uses_left :
    (h : GuestHub) (other code : Text) (now now_ms : ℕ) (o : Option HandoffCode)
    → lookup other h.handoffs ≡ o
    → (if same other code then is_granted (spend h other now now_ms o).1 else 0)
        + uses_left (lookup code (spend h other now now_ms o).0.handoffs)
      ≤ uses_left (lookup code h.handoffs)
unfolding spend is_granted
spend-uses_left h other code now now_ms none e = ground arith
spend-uses_left h other code now now_ms (some rec) e = ground (
  arith,
  same_iff other code,
  lookup-erase other code h.handoffs,
  lookup-insert other code (record rec { uses = suc rec.uses }) h.handoffs,
  granted-le (invite_of_code (lookup rec.invite h.invites) now_ms),
)

-- A redemption that opens the invite costs one use.
redeem-uses_left :
    (h : GuestHub) (other code : Text) (now now_ms : ℕ)
    → grants_of code h (redeems other now now_ms)
        + uses_left (lookup code (redeem_handoff h other now now_ms).0.handoffs)
      ≤ uses_left (lookup code h.handoffs)
unfolding grants_of redeem_handoff
redeem-uses_left h other code now now_ms = elim (Bool-cases (same other [])) [
  | inl e ↦ rw e (ground arith)
  | inr ne ↦ rw ne (spend-uses_left h other code now now_ms (lookup other h.handoffs) refl)
]

grants-le_from :
    (code : Text) (h : GuestHub) (es : List CodeEvent)
    → Unique h.handoffs
    → NotMinted code es
    → grants code h es ≤ uses_left (lookup code h.handoffs)
unfolding grants code_step
grants-le_from code h [] u n = omega arith
grants-le_from code h (mints invite other now ∷ es) u n = omega (
  arith,
  mint-uses_left h invite other code now u n.0,
  grants-le_from code (new_handoff h invite other now).0 es
      (new_handoff-Unique h invite other now u) n.1,
)
grants-le_from code h (redeems other now now_ms ∷ es) u n = omega (
  arith,
  redeem-uses_left h other code now now_ms,
  grants-le_from code (redeem_handoff h other now now_ms).0 es
      (redeem_handoff-Unique h other now now_ms u) n,
)

-- A freshly minted code opens its invite at most twenty times, whatever else is minted or redeemed
-- meanwhile, unless the same code is drawn again.
pub grants-le :
    (code invite : Text) (h : GuestHub) (now : ℕ) (es : List CodeEvent)
    → Unique h.handoffs
    → NotMinted code es
    → grants code (new_handoff h invite code now).0 es ≤ handoff_max_uses
grants-le code invite h now es u n = omega (
  arith,
  grants-le_from code (new_handoff h invite code now).0 es (new_handoff-Unique h invite code now u)
      n,
  uses_left-le (lookup code (new_handoff h invite code now).0.handoffs),
)
