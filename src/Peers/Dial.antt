-- ===== src/Peers/Dial.antt =====
-- The life of a session (transport.go, `dialPeer`, `acceptLoop`, `runConn`): dialling and accepting end
-- in a handshake, whose session is registered; its frames are handled until one fails; then its entry
-- goes. The result of the connect is an argument.
pub mod Keyed
use lanrunner.Common.{
  ℕ, Bool, true, false, List, [], Option, none, some, ◌==◌, if◌then◌else◌, Text, codes,
}
use lanrunner.Common.Dict.{lookup}
use lanrunner.Secure.{Received, frame, auth_failed, no_frame, zero_length, frame_too_long}
use lanrunner.History.{History}
use lanrunner.Peers.{Net, Peer, Conn, register, leave}
use lanrunner.Peers.Discovery.{Crypto}
use lanrunner.Peers.Handshake.{Hello, Host, Session, Shaken, established, rejected, handshake}
use lanrunner.Peers.Dispatch.{Msg, flag_peer, handle_frame, Handled}

-- What an attempt leaves: the state, the session that runs, if any, and the one closed for it.
pub record Started (Aead : Type 0) : Type 0 where
  pub net : Net
  pub running : Option (Session Aead)
  pub superseded : Option Conn

module _ {Aead : Type 0} where
  -- The beginning of `runConn`.
  pub start : Net → Session Aead → Started Aead
  start n s =
      let (n', superseded, stays) = register n s.conn in
      record { net = n'; running = if stays then some s else none; superseded = superseded }

  pub after_handshake : Net → ℕ → Shaken Aead → Started Aead
  unfolding start
  after_handshake n rtt (rejected e) = record { net = n; running = none; superseded = none }
  after_handshake n rtt (established n' s) = start n' (record s { rtt = rtt })

  -- A frame that could not be opened marks the peer; any failure ends the session.
  pub fail : Net → Session Aead → Received → Net
  fail n s (auth_failed ctr) = leave (flag_peer n s.conn.fp (codes "AEAD-FAIL")) s.conn
  fail n s no_frame = leave n s.conn
  fail n s zero_length = leave n s.conn
  fail n s (frame_too_long len) = leave n s.conn
  fail n s (frame pt) = n

  module _ (c : Crypto) (hmac : List ℕ → List ℕ → List ℕ) (new_gcm : List ℕ → Option Aead)
      (equal_fold : Text → Text → Bool) (parse : Text → Option Hello) (a : Host) where
    pub accept : Net → Text → Bool → Option Text → ℕ → Text → ℕ → ℕ → Started Aead
    unfolding after_handshake
    accept n nonce up line serial ip port now =
        after_handshake n 0
          (handshake c hmac new_gcm equal_fold parse n a nonce false [] up line serial ip port now)

    -- `connect_ms` is none where the connect fails.
    pub dial : Net → Peer → Option ℕ → Text → Bool → Option Text → ℕ → ℕ → Started Aead
    unfolding after_handshake
    dial n p none nonce up line serial now = record { net = n; running = none; superseded = none }
    dial n p (some connect_ms) nonce up line serial now = after_handshake n connect_ms (
        handshake c hmac new_gcm equal_fold parse n a nonce true p.fp up line serial p.ip p.port
          now)

    pub dial_unless :
        Option Conn → Net → Peer → Option ℕ → Text → Bool → Option Text → ℕ → ℕ → Started Aead
    unfolding dial
    dial_unless (some conn) n p connect nonce up line serial now = record {
      net = n;
      running = none;
      superseded = none;
    }
    dial_unless none n p connect nonce up line serial now =
        dial n p connect nonce up line serial now

    -- A peer that has a session is not dialled.
    pub dial_peer : Net → Peer → Option ℕ → Text → Bool → Option Text → ℕ → ℕ → Started Aead
    unfolding dial_unless
    dial_peer n p connect nonce up line serial now =
        dial_unless (lookup p.fp n.conns) n p connect nonce up line serial now
