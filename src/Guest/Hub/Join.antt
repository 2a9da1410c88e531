-- ===== src/Guest/Hub/Join.antt =====
-- The way of a phone (guest.go, `JoinURL`, `handleJoin`, `guestKeys`, `Views`). The address of this
-- machine, the port of the HTTPS server (0 where it does not run), the random code and the page are
-- arguments.
pub mod Serves
use lanrunner.Common.{
  ℕ, zero, suc, ◌+◌, Bool, true, false, List, [], ◌∷◌, ◌++◌, Option, none, some, not, ◌&&◌, ◌||◌,
  ltb, ◌==◌, if◌then◌else◌, Text, codes, length,
}
use lanrunner.Common.Dict.{Dict, lookup}
use lanrunner.Secure.{hkdf_sha256}
use lanrunner.Guest.Hub.{GuestHub, Invite, is_invite, expired, tabs}
use lanrunner.Guest.Hub.Handoff.{new_handoff, redeem_handoff, Redeemed, granted, refused}
use lanrunner.Guest.Hub.Hello.{Request, Reply, guest_gate}

pub data Link : Type 0 where
  unknown_invite no_https : Link
  link : Text → ℕ → Link

unfoldable pub join_url : GuestHub → Text → ℕ → (ℕ → Text) → Text → Text → ℕ → GuestHub × Link
join_url h id tls_port decimal host code now =
    if not (is_invite h id)
    then (h, unknown_invite)
    else if tls_port == 0
    then (h, no_https)
    else let (h', expires) = new_handoff h id code now in
      (
        h',
        link (codes "https://" ++ host ++ codes ":" ++ decimal tls_port ++ codes "/join?c=" ++ code)
            expires,
      )

-- What the browser gets: the answer of the gate, the page that says that the link has expired, the page
-- of an invite, or an error where the page cannot be built.
pub data Joined : Type 0 where
  gated : Reply → Joined
  link_refused page_failed : Joined
  served : Invite → Joined

pub served_page : (Invite → Bool) → Redeemed → Joined
served_page builds (refused why) = link_refused
served_page builds (granted inv) = if builds inv then served inv else page_failed

pub join_gated : (Invite → Bool) → GuestHub → Text → ℕ → ℕ → Option Reply → GuestHub × Joined
unfolding served_page
join_gated builds h code now now_ms (some reply) = (h, gated reply)
join_gated builds h code now now_ms none =
    let (h', answer) = redeem_handoff h code now now_ms in (h', served_page builds answer)

pub handle_join :
    (Text → Bool) → (Invite → Bool) → GuestHub → Request → Text → ℕ → ℕ → GuestHub × Joined
unfolding join_gated
handle_join allowed builds h r code now now_ms =
    join_gated builds h code now now_ms (guest_gate allowed h r now)

-- The two keys of a guest's session, salted with the token of its invite.
pub guest_key :
    {Aead : Type 0}
    → (List ℕ → List ℕ → List ℕ)
    → (List ℕ → Option Aead)
    → List ℕ
    → Invite
    → Text
    → Text
    → Option Aead
guest_key hmac new_gcm shared inv sid info = new_gcm (
    hkdf_sha256 hmac shared inv.token
      ((codes "lanrunner-guest-v1|" ++ inv.id ++ codes "|" ++ sid) ++ info) 32)

pub both_keys : {Aead : Type 0} → Option Aead → Option Aead → Option (Aead × Aead)
both_keys none g2h = none
both_keys (some h2g) none = none
both_keys (some h2g) (some g2h) = some (h2g, g2h)

pub guest_keys :
    {Aead : Type 0}
    → (List ℕ → List ℕ → List ℕ)
    → (List ℕ → Option Aead)
    → List ℕ
    → Invite
    → Text
    → Option (Aead × Aead)
unfolding guest_key both_keys
guest_keys hmac new_gcm shared inv sid =
    both_keys (guest_key hmac new_gcm shared inv sid (codes "|h2g"))
      (guest_key hmac new_gcm shared inv sid (codes "|g2h"))

-- One line of the operator's panel. The token is not in it.
pub record InviteView : Type 0 where
  pub id : Text
  pub label : Text
  pub folder : Text
  pub created : ℕ
  pub expires : ℕ
  pub is_expired : Bool
  pub revoked : Bool
  pub plain : Bool
  pub online : ℕ
  pub last_nick : Text
  pub last_seen : ℕ

pub view_of : GuestHub → ℕ → Invite → InviteView
view_of h now_ms inv = record {
  id = inv.id;
  label = inv.label;
  folder = inv.folder;
  created = inv.created;
  expires = inv.expires;
  is_expired = expired inv now_ms;
  revoked = inv.revoked;
  plain = inv.allow_plain;
  online = length (tabs h inv.id);
  last_nick = inv.last_nick;
  last_seen = inv.last_seen;
}

pub views_in : GuestHub → ℕ → List Text → List InviteView
unfolding view_of
views_in h now_ms [] = []
views_in h now_ms (id ∷ order) = elim (lookup id h.invites) [
  | none ↦ views_in h now_ms order
  | some inv ↦ view_of h now_ms inv ∷ views_in h now_ms order
]

-- The usable ones first, and among these the ones with more open tabs.
pub before : InviteView → InviteView → Bool
before a b =
    let dead_a = a.revoked || a.is_expired in
    let dead_b = b.revoked || b.is_expired in
    if dead_a && not dead_b
    then false
    else if not dead_a && dead_b
    then true
    else ltb b.online a.online

-- `sort.SliceStable` is an argument.
pub views :
    ((InviteView → InviteView → Bool) → List InviteView → List InviteView)
    → GuestHub
    → ℕ
    → List InviteView
unfolding views_in before
views sort_stable h now_ms = sort_stable before (views_in h now_ms h.order)
