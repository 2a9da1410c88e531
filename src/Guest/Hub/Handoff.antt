-- ===== src/Guest/Hub/Handoff.antt =====
-- Handoff codes, which a QR code carries (guest.go, `newHandoff`, `redeemHandoff`). The random code
-- is an argument.
pub mod Codes
pub mod Keeps
pub mod Listed
pub mod Redeem
pub mod Table
use lanrunner.Common.{
  ℕ, zero, suc, ◌+◌, ◌*◌, Bool, true, false, List, [], ◌∷◌, Option, none, some, leb, ltb, not,
  if◌then◌else◌, Text, same, length,
}
use lanrunner.Common.Dict.{Dict, lookup, insert, erase, keep_if}
use lanrunner.Guest.Hub.{GuestHub, HandoffCode, Invite, usable}

abbrev pub handoff_lifetime : ℕ
handoff_lifetime = 1800 * 1_000_000_000

abbrev pub handoff_max_uses : ℕ
handoff_max_uses = 20

abbrev pub hour : ℕ
hour = 3600 * 1_000_000_000

abbrev pub handoff_max : ℕ
handoff_max = 128

abbrev pub in_time : ℕ → HandoffCode → Bool
in_time now rec = not (ltb rec.expires now)

pub drop_expired : ℕ → Dict HandoffCode → Dict HandoffCode
drop_expired now = keep_if (in_time now)

-- The code that expires first among those before `oldest_at`, or `oldest`.
oldest_code : Text → ℕ → Dict HandoffCode → Text
oldest_code oldest oldest_at [] = oldest
oldest_code oldest oldest_at ((c, rec) ∷ codes') =
    oldest_code (if ltb rec.expires oldest_at then c else oldest)
      (if ltb rec.expires oldest_at then rec.expires else oldest_at) codes'

pub make_room : ℕ → Dict HandoffCode → Dict HandoffCode
make_room now codes' =
    if leb handoff_max (length codes')
    then erase (oldest_code [] (now + hour) codes') codes'
    else codes'

unfoldable pub new_handoff : GuestHub → Text → Text → ℕ → GuestHub × ℕ
new_handoff h invite code now = (
  record h {
    handoffs =
        insert code (record { invite = invite; expires = now + handoff_lifetime; uses = 0 })
          (make_room now (drop_expired now h.handoffs));
  },
  now + handoff_lifetime,
)

pub data Refusal : Type 0 where
  no_code unknown_code code_expired code_used_up invite_gone invite_unusable : Refusal

pub data Redeemed : Type 0 where
  granted : Invite → Redeemed
  refused : Refusal → Redeemed

-- The second half of `redeemHandoff`, on the invite that the code names.
invite_of_code : Option Invite → ℕ → Redeemed
invite_of_code none now_ms = refused invite_gone
invite_of_code (some inv) now_ms =
    if usable inv now_ms then granted inv else refused invite_unusable

pub spend : GuestHub → Text → ℕ → ℕ → Option HandoffCode → GuestHub × Redeemed
unfolding invite_of_code
spend h code now now_ms none = (h, refused unknown_code)
spend h code now now_ms (some rec) =
    if ltb rec.expires now
    then (record h { handoffs = erase code h.handoffs }, refused code_expired)
    else if leb handoff_max_uses rec.uses
    then (record h { handoffs = erase code h.handoffs }, refused code_used_up)
    else (
      record h { handoffs = insert code (record rec { uses = suc rec.uses }) h.handoffs },
      invite_of_code (lookup rec.invite h.invites) now_ms,
    )

unfoldable pub redeem_handoff : GuestHub → Text → ℕ → ℕ → GuestHub × Redeemed
unfolding spend
redeem_handoff h code now now_ms =
    if same code [] then (h, refused no_code) else spend h code now now_ms (lookup code h.handoffs)
