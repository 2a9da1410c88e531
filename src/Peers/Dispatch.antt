-- ===== src/Peers/Dispatch.antt =====
-- The frames of a session (transport.go, `Msg`, `handleFrame`, `heartbeat`, `flagPeer`). A frame that
-- is not valid JSON is `none`. The time is an argument, in nanoseconds and in milliseconds. The log, the
-- events for the page and the counters of a peer that are only shown are left out; what is sent back
-- may be lost, which the source ignores.
pub mod Writes
pub mod Receipts
pub mod Pings
mod Tests
use lanrunner.Common.{
  ℕ, suc, ◌+◌, ◌-◌, ◌/◌, ◌%◌, Bool, true, false, List, [], ◌∷◌, Option, none, some, ltb, leb, ◌==◌,
  not, if◌then◌else◌, Text, codes, same, length,
}
use lanrunner.Common.Dict.{lookup, insert}
use lanrunner.Sanitize.{sanitize_body, cut_body}
use lanrunner.History.{History, HistEntry, append, mark_delivered}
use lanrunner.Peers.{Net, Peer, Conn, add_flag}
use lanrunner.Peers.Handshake.{Session}

pub record Msg : Type 0 where
  pub kind : Text
  pub conv : Text
  pub mid : Text
  pub ts : ℕ
  pub body : Text
  pub pn : ℕ

abbrev pub bare : Msg
bare = record { kind = []; conv = []; mid = []; ts = 0; body = []; pn = 0 }

abbrev Pings : Type 0
Pings = List (ℕ × ℕ)

pub ping_at : ℕ → List (ℕ × ℕ) → Option ℕ
ping_at pn [] = none
ping_at pn ((k, t) ∷ pings) = if k == pn then some t else ping_at pn pings

pub forget_ping : ℕ → List (ℕ × ℕ) → List (ℕ × ℕ)
forget_ping pn [] = []
forget_ping pn ((k, t) ∷ pings) =
    if k == pn then forget_ping pn pings else (k, t) ∷ forget_ping pn pings

-- The pings that are left where those up to `bound` are deleted.
pub later_pings : ℕ → List (ℕ × ℕ) → List (ℕ × ℕ)
later_pings bound [] = []
later_pings bound ((k, t) ∷ pings) =
    if leb k bound then later_pings bound pings else (k, t) ∷ later_pings bound pings

pub put_peer : Net → Text → (Peer → Peer) → Option Peer → Net
put_peer n fp change none = n
put_peer n fp change (some p) = record n { peers = insert fp (change p) n.peers }

pub flag_peer : Net → Text → Text → Net
unfolding put_peer
flag_peer n fp flag = put_peer n fp (λ p. add_flag p flag) (lookup fp n.peers)

pub seen_peer : Net → Text → ℕ → Net
unfolding put_peer
seen_peer n fp now = put_peer n fp (λ p. record p { last = now }) (lookup fp n.peers)

-- The scope that a peer names, as our conversation: a direct message is kept under its fingerprint.
pub conv_of : Text → Text → Text
conv_of scope fp = if same scope (codes "dm") then fp else codes "room"

-- What a frame leaves, and what is sent back.
pub record Handled (Aead : Type 0) : Type 0 where
  pub net : Net
  pub hist : History
  pub session : Session Aead
  pub reply : Option Msg

module _ {Aead : Type 0} where
  pub nothing : Net → History → Session Aead → Handled Aead
  nothing n hist s = record { net = n; hist = hist; session = s; reply = none }

  pub pong_at : Net → History → Session Aead → ℕ → ℕ → Option ℕ → Handled Aead
  unfolding nothing
  pong_at n hist s pn now none = nothing n hist (record s { pings = forget_ping pn s.pings })
  pong_at n hist s pn now (some t0) =
      nothing (seen_peer n s.conn.fp now) hist
        (record s { pings = forget_ping pn s.pings; rtt = (now - t0) / 1_000_000 })

  pub received : Msg → Session Aead → Text → ℕ → HistEntry
  received m s body now_ms = record {
    kind = [];
    ts = now_ms;
    conv = conv_of m.conv s.conn.fp;
    fp = s.conn.fp;
    nick = s.nick;
    self = false;
    body = cut_body body;
    mid = m.mid;
    delivered = 0;
  }

  pub on_msg : Net → History → Session Aead → Msg → Text → Bool → ℕ → ℕ → Handled Aead
  unfolding nothing received
  on_msg n hist s m body had_control now now_ms =
      let n' = if had_control then flag_peer n s.conn.fp (codes "CONTROL-CHARS") else n in
      if same body [] then nothing n' hist s else record {
        net = seen_peer n' s.conn.fp now;
        hist = append hist (received m s body now_ms);
        session = s;
        reply = some (record bare { kind = codes "ack"; mid = m.mid; conv = m.conv });
      }

  pub handle_frame : Net → History → Session Aead → Option Msg → ℕ → ℕ → Handled Aead
  unfolding nothing pong_at on_msg
  handle_frame n hist s none now now_ms = nothing n hist s
  handle_frame n hist s (some m) now now_ms =
      if same m.kind (codes "ping")
      then record (nothing n hist s) {
        reply = some (record bare { kind = codes "pong"; pn = m.pn; ts = now_ms });
      }
      else if same m.kind (codes "pong")
      then pong_at n hist s m.pn now (ping_at m.pn s.pings)
      else if same m.kind (codes "ack")
      then nothing n (mark_delivered hist (conv_of m.conv s.conn.fp) m.mid now_ms) s
      else if same m.kind (codes "typing")
      then nothing n hist s
      else if same m.kind (codes "msg")
      then on_msg n hist s m (sanitize_body m.body).0 (sanitize_body m.body).1 now now_ms
      else nothing n hist s

  -- One beat of `heartbeat`: the ping is noted, and if more than eight are open, those that are eight
  -- or more beats old are deleted. The counter and the difference wrap as a uint64 does.
  pub beat : Session Aead → ℕ → ℕ → Session Aead × Option Msg
  beat s now now_ms =
      if s.conn.closed
      then (s, none)
      else let pn = suc s.ping_seq % 0x10000000000000000 in
        let pings' = (pn, now) ∷ forget_ping pn s.pings in
        (
          record s {
            ping_seq = pn;
            pings =
                if ltb 8 (length pings')
                then later_pings ((pn + (0x10000000000000000 - 8)) % 0x10000000000000000) pings'
                else pings';
          },
          some (record bare { kind = codes "ping"; pn = pn; ts = now_ms }),
        )
