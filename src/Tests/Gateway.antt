-- ===== src/Tests/Gateway.antt =====
-- The theorems on the guest gateway (guest.go) at concrete inputs.
use Prim.Native.Nat.{min}
use lanrunner.Common.{
  ℕ, ◌*◌, ◌^◌, ◌≤◌, ◌≡◌, refl, sym, true, false, List, [], ◌∷◌, none, Text, codes, same, Bool-cases,
  inl, inr, arith, if◌then◌else◌,
}
use lanrunner.Common.Dict.{lookup}
use lanrunner.Guest.Replay.{accept_all, new_window}
use lanrunner.Guest.Replay.Exact.{may_accept_all, accept_all-may_accept_all}
use lanrunner.Guest.Throttle.{AuthThrottle, backoff, second, guest_auth_ban_max}
use lanrunner.Guest.Throttle.Backoff.{backoff-min}
use lanrunner.Guest.Throttle.Bans.{penalties, ladder, penalties-ladder}
use lanrunner.Guest.Session.{GuestSession, guest_rate_max}
use lanrunner.Guest.Session.Rate.{passed, passed-le}
use lanrunner.Guest.Hub.{GuestHub, Invite, empty_hub, tabs}
use lanrunner.Guest.Hub.Sessions.{session, member}
use lanrunner.Guest.Hub.Sessions.Book.{Book}
use lanrunner.Guest.Hub.Invites.{revoke, invite_for}
use lanrunner.Guest.Hub.Invites.Gone.{revoke-session, revoke-invite_for}
use lanrunner.Guest.Hub.Handoff.{new_handoff, handoff_max_uses}
use lanrunner.Guest.Hub.Handoff.Codes.{mints, redeems, grants, grants-le}

abbrev counters : List ℕ
counters = 1 ∷ 70 ∷ 6 ∷ 7 ∷ 7 ∷ 0 ∷ 70 ∷ []

accept_all-may_accept_all_example : accept_all new_window counters ≡ may_accept_all 0 [] counters
accept_all-may_accept_all_example = accept_all-may_accept_all counters

abbrev ip : Text
ip = codes "10.0.0.9"

abbrev tries : List ℕ
tries = 1 ∷ 2 ∷ 3 ∷ 4 ∷ 5 ∷ []

penalties-ladder_example : penalties [] ip (1 ∷ tries) ≡ ladder 1 (1 ∷ tries)
unfolding lookup
penalties-ladder_example =
    penalties-ladder [] ip 1 tries refl
      (omega arith, (omega arith, (omega arith, (omega arith, (omega arith, tt)))))

abbrev banned : AuthThrottle
banned = (ip, record { n = 5; seen = 1; until = 30 * second }) ∷ []

backoff-min_example : backoff 2 ≡ min (30 * second * 2 ^ 2) guest_auth_ban_max
backoff-min_example = backoff-min 2

abbrev tab : Text → ℕ → GuestSession
tab sid at = record {
  sid = sid;
  invite = codes "inv";
  remote = ip;
  nick = codes "Gil";
  enc = true;
  ch = [];
  created = at;
  last = at;
  stream_gen = 0;
  sent_backlog = false;
  rate_n = 0;
  rate_at = at;
  replay = new_window;
  closed = false;
}

passed-le_example : passed (tab (codes "s") 0) (1 ∷ 2 ∷ 9 * second ∷ []) ≤ 2 * guest_rate_max
passed-le_example =
    passed-le (tab (codes "s") 0) (1 ∷ 2 ∷ 9 * second ∷ []) 0
      (omega arith, omega arith, (omega arith, omega arith, (omega arith, omega arith, tt)))

abbrev inv : Invite
inv = record {
  id = codes "inv";
  token = codes "tok";
  label = codes "Gil";
  folder = codes "/tmp/kit";
  created = 1;
  expires = 0;
  revoked = false;
  allow_plain = false;
  last_nick = [];
  last_seen = 0;
}

-- One invite, one tab, one code.
abbrev hub : GuestHub
hub = record empty_hub {
  invites = (codes "inv", inv) ∷ [];
  order = codes "inv" ∷ [];
  sessions = (codes "s", tab (codes "s") 1) ∷ [];
  by_invite = (codes "inv", codes "s" ∷ []) ∷ [];
  handoffs = (codes "code", record { invite = codes "inv"; expires = 100; uses = 3 }) ∷ [];
  running = true;
}

hub-Book : Book hub
unfolding tabs lookup member
hub-Book sid id = elim (Bool-cases (same (codes "inv") id)) [
  | inl a ↦ elim (Bool-cases (same (codes "s") sid)) [
    | inl b ↦ rw (a, b) (sym a)
    | inr b ↦ rw (a, b) refl
  ]
  | inr a ↦ elim (Bool-cases (same (codes "s") sid)) [
    | inl b ↦ rw (a, b) (sym a)
    | inr b ↦ rw (a, b) refl
  ]
]

revoke-session_example :
    (session (revoke hub (codes "inv") 5).0 (codes "inv") (codes "s") 9).1 ≡ none
unfolding lookup same
revoke-session_example = revoke-session hub (codes "inv") (codes "s") 5 9 inv refl hub-Book

revoke-invite_for_example :
    invite_for (revoke hub (codes "inv") 5).0 (codes "inv") (codes "tok") 9 ≡ (
      if same (codes "inv") (codes "inv")
      then none
      else invite_for hub (codes "inv") (codes "tok") 9)
unfolding lookup same
revoke-invite_for_example =
    revoke-invite_for hub (codes "inv") (codes "inv") (codes "tok") 5 9 inv refl

grants-le_example :
    grants (codes "new") (new_handoff hub (codes "inv") (codes "new") 50).0 (
      redeems (codes "new") 60 5
      ∷ mints (codes "inv") (codes "n2") 70
      ∷ redeems (codes "new") 80 5
      ∷ [])
    ≤ handoff_max_uses
unfolding same lookup
grants-le_example =
    grants-le (codes "new") (codes "inv") hub 50
      (redeems (codes "new") 60 5
        ∷ mints (codes "inv") (codes "n2") 70
        ∷ redeems (codes "new") 80 5
        ∷ [])
      (refl, tt) (refl, tt)
