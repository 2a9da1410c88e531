-- ===== src/Peers/Dispatch/Tests.antt =====
-- The theorems on the frames of a session (transport.go) at concrete inputs.
use lanrunner.Common.{
  ℕ, ◌+◌, ◌≤◌, ◌≡◌, refl, true, false, List, [], ◌∷◌, some, if◌then◌else◌, Text, codes, same,
  length, arith,
}
use lanrunner.Sanitize.{sanitize_body, trim_space, trim_left, strip_body, had_control}
use lanrunner.History.{stored, acks_of, safe_name}
use lanrunner.Peers.{Net}
use lanrunner.Peers.Handshake.{Session}
use lanrunner.Peers.Dispatch.{Msg, conv_of, handle_frame}
use lanrunner.Peers.Dispatch.Writes.{Confined, handle_frame-Confined}
use lanrunner.Peers.Dispatch.Receipts.{acks_of-handle_frame}
use lanrunner.Peers.Dispatch.Pings.{PingEvent, ticked, answered, ping_run, pings-ping_run}

abbrev quiet_net : Net
quiet_net = record {
  self_fp = codes "aaaa";
  peers = [];
  conns = [];
  trust = record { recs = []; saved = [] };
}

abbrev session_with : Text → Session ℕ
session_with fp = record {
  conn = record { serial = 1; fp = fp; outbound = true; closed = false };
  nick = codes "Bob";
  sc = record { tx = 1; rx = 2; tx_prefix = []; rx_prefix = []; tx_ctr = 0; rx_ctr = 0 };
  rtt = 0;
  ping_seq = 0;
  pings = [];
}

abbrev hi : Msg
hi = record {
  kind = codes "msg";
  conv = codes "dm";
  mid = codes "m1";
  ts = 5;
  body = codes "hi";
  pn = 0;
}

handle_frame-Confined_example :
    Confined
      (codes "bbbb")
      (codes "Bob")
      quiet_net
      []
      (handle_frame quiet_net [] (session_with (codes "bbbb")) (some hi) 5 5)
handle_frame-Confined_example =
    handle_frame-Confined quiet_net [] (session_with (codes "bbbb")) (some hi) 5 5

acks_of-handle_frame_example :
    (r : Msg) × ((handle_frame quiet_net [] (session_with (codes "aaaa")) (some hi) 5 5).reply
      ≡ some r)
    × (acks_of (codes "m1") (
          stored
            (handle_frame quiet_net [] (session_with (codes "bbbb")) (some r) 7 7).hist
            (safe_name (conv_of (codes "dm") (codes "bbbb"))))
        ≡ acks_of (codes "m1") (stored [] (safe_name (conv_of (codes "dm") (codes "bbbb"))))
          + (if same (codes "m1") (codes "m1") then 1 else 0))
unfolding same sanitize_body trim_space trim_left strip_body had_control
acks_of-handle_frame_example =
    acks_of-handle_frame quiet_net quiet_net [] [] (session_with (codes "bbbb"))
      (session_with (codes "aaaa")) hi (codes "m1") 5 5 7 7 refl refl refl

abbrev two_beats : List PingEvent
two_beats = ticked 8 8 ∷ answered 1 ∷ ticked 16 16 ∷ []

pings-ping_run_example : length (ping_run (session_with (codes "bbbb")) two_beats).pings ≤ 8
pings-ping_run_example = pings-ping_run (session_with (codes "bbbb")) two_beats refl (omega arith)
