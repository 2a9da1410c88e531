-- ===== src/Chat.antt =====
-- The send path of the host (transport.go, `Send`, `sendToGuest`, `SendTyping`): one application that
-- holds the peers, the transcripts and, if it is not disabled, the guest gateway. Message ids, the time
-- and what a connection or a cipher takes are arguments; events for the page and log lines are left out.
pub mod Private
use lanrunner.Common.{
  ℕ, Bool, true, false, List, [], ◌∷◌, ◌++◌, Option, none, some, not, ◌&&◌, ◌||◌, ◌==◌,
  if◌then◌else◌, Text, codes, same,
}
use lanrunner.Common.Dict.{Dict, lookup}
use lanrunner.Sanitize.{sanitize_body, cut_body}
use lanrunner.History.{History, HistEntry, append, mark_delivered}
use lanrunner.Guest.Session.{GuestSession, Envelope}
use lanrunner.Guest.Hub.{GuestHub, is_invite}
use lanrunner.Guest.Hub.Sessions.{deliver}
use lanrunner.Peers.{Net, Conn}
use lanrunner.Peers.Dispatch.{Msg}

-- `active` is `lastActivity`.
pub record App : Type 0 where
  pub nick : Text
  pub net : Net
  pub hist : History
  pub guests : Option GuestHub
  pub active : ℕ

-- The state after a message was sent, the sessions that it went to, and what went to them.
pub record Sent : Type 0 where
  pub app : App
  pub targets : List Conn
  pub msg : Option Msg

abbrev pub quiet : App → Sent
quiet a = record { app = a; targets = []; msg = none }

abbrev pub values : Dict Conn → List Conn
values [] = []
values ((fp, conn) ∷ conns) = conn ∷ values conns

pub found : Option Conn → List Conn
found none = []
found (some conn) = conn ∷ []

-- All sessions for the room, and otherwise that of the peer that the conversation names.
pub targets_of : Dict Conn → Text → List Conn
unfolding found
targets_of conns conv = if same conv (codes "room") then values conns else found (lookup conv conns)

-- A session whose write fails is closed.
pub close_failed : (Conn → Bool) → Text → Dict Conn → Dict Conn
close_failed up conv [] = []
close_failed up conv ((fp, conn) ∷ conns) =
    (
      fp,
      if (same conv (codes "room") || same fp conv) && not (up conn)
          then record conn { closed = true }
          else conn,
    )
    ∷ close_failed up conv conns

pub own_entry : App → Text → Text → Text → ℕ → HistEntry
own_entry a conv body mid now_ms = record {
  kind = [];
  ts = now_ms;
  conv = conv;
  fp = a.net.self_fp;
  nick = a.nick;
  self = true;
  body = body;
  mid = mid;
  delivered = 0;
}

pub guest_here : Option GuestHub → Text → Bool
guest_here none conv = false
guest_here (some h) conv = is_invite h conv

module _ (can_seal : GuestSession → Bool) where
  -- Handed to the gateway; a delivery to at least one tab counts as a receipt.
  pub to_guest : App → Text → Text → Text → ℕ → Option GuestHub → App
  unfolding own_entry
  to_guest a conv body mid now_ms none = a
  to_guest a conv body mid now_ms (some h) =
      let hist' = append a.hist (own_entry a conv body mid now_ms) in
      let (h', n) =
        deliver can_seal h conv (record { kind = codes "msg"; mid = mid; body = body }) in
      record a {
        guests = some h';
        hist = if n == 0 then hist' else mark_delivered hist' conv mid now_ms;
      }

  pub to_peers : (Conn → Bool) → App → Text → Text → Text → ℕ → Sent
  unfolding own_entry targets_of close_failed
  to_peers up a conv body mid now_ms = record {
    app = record a {
      hist = append a.hist (own_entry a conv body mid now_ms);
      net = record a.net { conns = close_failed up conv a.net.conns };
    };
    targets = targets_of a.net.conns conv;
    msg = some (record {
      kind = codes "msg";
      conv = if same conv (codes "room") then codes "room" else codes "dm";
      mid = mid;
      ts = now_ms;
      body = body;
      pn = 0;
    });
  }

  -- `Send`.
  pub send : (Conn → Bool) → App → Text → Text → Text → ℕ → Sent
  unfolding to_guest to_peers guest_here
  send up a conv body mid now_ms =
      let clean = (sanitize_body body).0 in
      if same clean []
      then quiet a
      else if guest_here a.guests conv
      then quiet (to_guest a conv (cut_body clean) mid now_ms a.guests)
      else to_peers up a conv (cut_body clean) mid now_ms

  pub typing_guest : App → Text → Option GuestHub → App
  typing_guest a conv none = a
  typing_guest a conv (some h) = record a {
    guests =
        some
          (deliver can_seal h conv (record { kind = codes "typing"; mid = []; body = a.nick })).0;
  }

  -- `SendTyping`: a write that fails is ignored.
  pub send_typing : App → Text → Sent
  unfolding typing_guest targets_of guest_here
  send_typing a conv =
      if guest_here a.guests conv then quiet (typing_guest a conv a.guests) else record {
        app = a;
        targets = targets_of a.net.conns conv;
        msg =
            some
              (record { kind = codes "typing"; conv = conv; mid = []; ts = 0; body = []; pn = 0 });
      }
