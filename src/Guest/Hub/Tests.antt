-- ===== src/Guest/Hub/Tests.antt =====
-- The theorems on codes and on the gateway's end at concrete inputs.
use lanrunner.Common.{
  ◌+◌, ◌==◌, if◌then◌else◌, arith, ℕ, Bool, List, Option, none, ◌<◌, ◌≤◌, ◌≡◌, refl, true, false,
  [], ◌∷◌, some, Text, codes, same,
}
use lanrunner.Common.Dict.{lookup}
use lanrunner.Guest.Hub.{GuestHub, Invite, HandoffCode, empty_hub, usable, expired}
use lanrunner.Guest.Hub.Handoff.{redeem_handoff, handoff_max_uses}
use lanrunner.Guest.Hub.Handoff.Codes.{redeem_handoff-granted}
use lanrunner.Guest.Session.{GuestSession}
use lanrunner.Guest.Throttle.{blocked, wait_of}
use lanrunner.Guest.Hub.Hello.{guest_gate, waiting}
use lanrunner.Guest.Hub.Handoff.{new_handoff, handoff_lifetime}
use lanrunner.Guest.Hub.Join.{link, served, join_url, handle_join}
use lanrunner.Guest.Hub.Join.Serves.{handle_join-join_url}
use lanrunner.Guest.Hub.{is_invite, new_guest_hub, load_from, load_one}
use lanrunner.Guest.Hub.Hello.{Request, GuestHelloIn, Agreement, agreed, handle_hello}
use lanrunner.Guest.Hub.Frames.{GuestPayload}
use lanrunner.Guest.Hub.Sessions.Keeps.{Sound}
use lanrunner.Guest.Hub.Reach.{here, next, greeted, revoked, HubReach-Sound}
use lanrunner.Guest.Hub.Invites.{revoke}

abbrev kit : Text → Invite
kit id = record {
  id = id;
  token = codes "tok";
  label = codes "Gil";
  folder = codes "/tmp/kit";
  created = 1;
  expires = 0;
  revoked = false;
  allow_plain = false;
  last_nick = [];
  last_seen = 0;
}

-- Two invites and one code.
abbrev two_kits : GuestHub
two_kits = record empty_hub {
  invites = (codes "a", kit (codes "a")) ∷ (codes "b", kit (codes "b")) ∷ [];
  order = codes "a" ∷ codes "b" ∷ [];
  handoffs = (codes "code", record { invite = codes "a"; expires = 100; uses = 3 }) ∷ [];
  running = true;
}

redeem_handoff-granted_example :
    (rec : HandoffCode) × (lookup (codes "code") two_kits.handoffs ≡ some rec)
    × (50 ≤ rec.expires)
    × (rec.uses < handoff_max_uses)
    × (lookup rec.invite two_kits.invites ≡ some (kit (codes "a")))
    × (usable (kit (codes "a")) 5 ≡ true)
unfolding redeem_handoff lookup same usable expired
redeem_handoff-granted_example =
    redeem_handoff-granted two_kits (codes "code") 50 5 (kit (codes "a")) refl

abbrev in_clear : Text → Option (List ℕ)
in_clear t = none

abbrev no_cipher : Text → List ℕ → List ℕ → Option Text
no_cipher sid nonce ct = none

abbrev no_payload : Text → Option GuestPayload
no_payload t = none

abbrev can_seal_all : GuestSession → Bool
can_seal_all s = true

abbrev from_anywhere : Text → Bool
from_anywhere host = true

abbrev agree_always : Text → Invite → Text → Agreement
agree_always xk inv sid = agreed

abbrev hello_request : Request
hello_request = record { options = false; post = true; remote = codes "10.0.0.9" }

abbrev hello_in : GuestHelloIn
hello_in = record {
  v = 2;
  id = codes "a";
  token = codes "tok";
  nick = codes "Gil";
  xk = codes "key";
}

abbrev greeted_hub : GuestHub
greeted_hub =
    (handle_hello from_anywhere agree_always (new_guest_hub (kit (codes "a") ∷ [])) hello_request
      (some hello_in) (codes "s1") 5 5).0

HubReach-Sound_example : Sound (revoke greeted_hub (codes "a") 6).0
unfolding new_guest_hub load_from load_one lookup same
HubReach-Sound_example =
    HubReach-Sound in_clear no_cipher no_payload can_seal_all from_anywhere agree_always
      (kit (codes "a") ∷ []) (revoke greeted_hub (codes "a") 6).0
      (next (next here (greeted hello_request (some hello_in) (codes "s1") 5 5 refl))
        (revoked (codes "a") 6))

abbrev decimal_of : ℕ → Text
decimal_of n = n ∷ []

abbrev builds_all : Invite → Bool
builds_all inv = true

-- The value of the first parameter of an address.
abbrev first_value : Text → Text → Text
first_value [] name = []
first_value (r ∷ url) name = if r == b'=' then url else first_value url name

abbrev hub_with_link : GuestHub
hub_with_link =
    (join_url two_kits (codes "a") 47103 decimal_of (codes "10.0.0.2") (codes "c0de") 5).0

handle_join-join_url_example :
    (address : Text) × ((join_url two_kits
        (codes "a")
        47103
        decimal_of
        (codes "10.0.0.2")
        (codes "c0de")
        5).1
      ≡ link address (5 + handoff_lifetime))
    × ((handle_join from_anywhere builds_all hub_with_link hello_request
          (first_value address (codes "c"))
          6
          6).1
        ≡ served (kit (codes "a")))
unfolding join_url guest_gate waiting blocked wait_of lookup same usable expired is_invite
    new_handoff
handle_join-join_url_example =
    handle_join-join_url first_value from_anywhere builds_all two_kits (codes "a") 47103 decimal_of
      (codes "10.0.0.2") (codes "c0de") 5 6 6 hello_request (kit (codes "a")) refl refl refl refl
      refl (omega arith) refl refl
