-- ===== src/Guest/Hub/Hello.antt =====
-- Admission to the gateway (guest.go, `allowedGuestSource`, `guestGate`, `handleHello`). The time, the
-- random session id, IP parsing and the key agreement are parameters; of the answer, the status code
-- and what the page acts on are kept.
pub mod Admission
pub mod Keeps
pub mod Listed
use lanrunner.Common.{
  ℕ, suc, ◌+◌, Bool, true, false, List, [], ◌∷◌, Option, none, some, not, ◌&&◌, ◌||◌, leb, ◌==◌,
  if◌then◌else◌, Text, same,
}
use lanrunner.Sanitize.{sanitize_nick}
use lanrunner.Guest.Replay.{new_window}
use lanrunner.Guest.Session.{GuestSession}
use lanrunner.Guest.Throttle.{blocked, bad, good}
use lanrunner.Guest.Hub.{GuestHub, Invite}
use lanrunner.Guest.Hub.Invites.{invite_for}
use lanrunner.Guest.Hub.Sessions.{register}

abbrev pub guest_proto_version : ℕ
guest_proto_version = 2

-- What `net.ParseIP` finds of an address.
pub record Ip : Type 0 where
  pub loopback : Bool
  pub is_private : Bool
  pub link_local : Bool
  pub ip4 : Option (ℕ × ℕ)

carrier : Option (ℕ × ℕ) → Bool
carrier none = false
carrier (some (a, b)) = a == 100 && (leb 64 b && leb b 127)

local_ip : Option Ip → Bool
unfolding carrier
local_ip none = false
local_ip (some ip) = ip.loopback || (ip.is_private || (ip.link_local || carrier ip.ip4))

pub allowed_guest_source : Bool → (Text → Option Ip) → Text → Bool
unfolding local_ip
allowed_guest_source any_source parse_ip host = any_source || local_ip (parse_ip host)

pub record Request : Type 0 where
  pub options : Bool
  pub post : Bool
  pub remote : Text

pub data Reply : Type 0 where
  no_content : Reply
  failed : ℕ → Reply
  retry_after : ℕ → Reply
  welcome : Text → Bool → Reply

unfoldable pub waiting : Option ℕ → Option Reply
waiting none = none
waiting (some wait) = some (retry_after wait)

-- The answer that stops the request, if there is one.
unfoldable pub guest_gate : (Text → Bool) → GuestHub → Request → ℕ → Option Reply
unfolding waiting
guest_gate allowed h r now =
    if r.options
    then some no_content
    else if not (allowed r.remote)
    then some (failed 403)
    else waiting (blocked h.throttle r.remote now)

pub record GuestHelloIn : Type 0 where
  pub v : ℕ
  pub id : Text
  pub token : Text
  pub nick : Text
  pub xk : Text

-- How the key agreement ends: `refused` with 400 or 500.
pub data Agreement : Type 0 where
  agreed : Agreement
  refused : ℕ → Agreement

abbrev name_or : Text → Text → Text
name_or nick label = if same nick [] then label else nick

new_session : Invite → Text → Text → Text → Bool → ℕ → GuestSession
new_session inv sid remote nick enc now = record {
  sid = sid;
  invite = inv.id;
  remote = remote;
  nick = name_or (sanitize_nick nick) inv.label;
  enc = enc;
  ch = [];
  created = now;
  last = now;
  stream_gen = 0;
  sent_backlog = false;
  rate_n = 0;
  rate_at = now;
  replay = new_window;
  closed = false;
}

join : GuestHub → Invite → Text → Text → Text → Bool → ℕ → ℕ → GuestHub × Reply
unfolding new_session
join h inv sid remote nick enc now now_ms =
    (register h inv (new_session inv sid remote nick enc now) now now_ms, welcome sid enc)

keyed : GuestHub → Invite → Text → Text → Text → ℕ → ℕ → Agreement → GuestHub × Reply
unfolding join
keyed h inv sid remote nick now now_ms agreed = join h inv sid remote nick true now now_ms
keyed h inv sid remote nick now now_ms (refused code) = (h, failed code)

module _ (allowed : Text → Bool) (agree : Text → Invite → Text → Agreement) where
  -- After the throttle is cleared.
  pub open_tab : GuestHub → Text → GuestHelloIn → Invite → Text → ℕ → ℕ → GuestHub × Reply
  unfolding keyed join
  open_tab h remote b inv sid now now_ms =
      if not (b.v == guest_proto_version)
      then (h, failed 400)
      else if not (same b.xk [])
      then keyed h inv sid remote b.nick now now_ms (agree b.xk inv sid)
      else if not inv.allow_plain
      then (h, failed 403)
      else join h inv sid remote b.nick false now now_ms

  pub admit : GuestHub → Text → GuestHelloIn → Option Invite → Text → ℕ → ℕ → GuestHub × Reply
  unfolding open_tab
  admit h remote b none sid now now_ms =
      (record h { throttle = (bad h.throttle remote now).0 }, failed 403)
  admit h remote b (some inv) sid now now_ms =
      open_tab (record h { throttle = good h.throttle remote }) remote b inv sid now now_ms

  pub greet : GuestHub → Request → Option GuestHelloIn → Text → ℕ → ℕ → GuestHub × Reply
  unfolding admit
  greet h r none sid now now_ms = (h, failed 400)
  greet h r (some b) sid now now_ms =
      admit h r.remote b (invite_for h b.id b.token now_ms) sid now now_ms

  pub after_gate :
      GuestHub → Request → Option GuestHelloIn → Text → ℕ → ℕ → Option Reply → GuestHub × Reply
  unfolding greet
  after_gate h r body sid now now_ms (some reply) = (h, reply)
  after_gate h r body sid now now_ms none =
      if not r.post then (h, failed 405) else greet h r body sid now now_ms

  -- `body` is none where the body does not decode.
  pub handle_hello : GuestHub → Request → Option GuestHelloIn → Text → ℕ → ℕ → GuestHub × Reply
  unfolding after_gate
  handle_hello h r body sid now now_ms =
      after_gate h r body sid now now_ms (guest_gate allowed h r now)
