-- ===== src/Peers.antt =====
-- The peers and their sessions (main.go, `Peer`, `maintenanceLoop`; discovery.go, `gossipAddrs`,
-- `handleBye`; transport.go, `register`, the end of `runConn`, `closeAllConns`). Times are nanoseconds.
-- The message and byte counts and the round trip time of a peer, which are only shown, are left out.
pub mod Discovery
pub mod Converge
pub mod Handshake
pub mod Dial
pub mod Dispatch
pub mod Keyed
pub mod Outbound
use lanrunner.Common.{
  ℕ, ◌+◌, ◌*◌, Bool, true, false, List, [], ◌∷◌, ◌++◌, Option, none, some, not, ◌&&◌, ◌||◌, ltb,
  leb, ◌==◌, if◌then◌else◌, Text, codes, same, length, byte_len, text_lt, take,
}
use lanrunner.Common.Dict.{Dict, lookup, insert, erase}
use lanrunner.Sanitize.{sanitize_nick, short_fp}
use lanrunner.Trust.{TrustStore}

abbrev pub peer_timeout : ℕ
peer_timeout = 15_000_000_000

pub record Peer : Type 0 where
  pub fp : Text
  pub nick : Text
  pub ip : Text
  pub port : ℕ
  pub ed_pub : List ℕ
  pub x_pub : List ℕ
  pub first : ℕ
  pub last : ℕ
  pub last_ts : ℕ
  pub flags : List Text
  pub direct : Bool

-- `serial` stands for the object's identity.
pub record Conn : Type 0 where
  pub serial : ℕ
  pub fp : Text
  pub outbound : Bool
  pub closed : Bool

pub record Net : Type 0 where
  pub self_fp : Text
  pub peers : Dict Peer
  pub conns : Dict Conn
  pub trust : TrustStore

mem : Text → List Text → Bool
mem k [] = false
mem k (j ∷ l) = same j k || mem k l

-- `Peer.flag`.
pub add_flag : Peer → Text → Peer
unfolding mem
add_flag p f = if mem f p.flags then p else record p { flags = p.flags ++ f ∷ [] }

direct_addrs : (Text → ℕ → Text) → Dict Peer → List Text
direct_addrs join_host_port [] = []
direct_addrs join_host_port ((fp, p) ∷ peers) =
    if not p.direct
    then direct_addrs join_host_port peers
    else join_host_port p.ip p.port ∷ direct_addrs join_host_port peers

-- Sixteen at most.
pub gossip_addrs : (Text → ℕ → Text) → Dict Peer → List Text
unfolding direct_addrs
gossip_addrs join_host_port peers = take 16 (direct_addrs join_host_port peers)

-- The session of a peer, closed, and its entry: the map keeps it until its read loop ends.
shut : Text → Option Conn → Dict Conn → Dict Conn
shut fp none conns = conns
shut fp (some conn) conns = insert fp (record conn { closed = true }) conns

unfoldable pub handle_bye : Net → Text → Net
unfolding shut
handle_bye n fp = record n { peers = erase fp n.peers; conns = shut fp (lookup fp n.conns) n.conns }

-- The peers that time out go; those that are fresh and have no session are dialled.
online : Text → Dict Conn → Bool
online fp conns = elim (lookup fp conns) [ none ↦ false | some conn ↦ true ]

pub sweep_peers : Dict Conn → ℕ → Dict Peer → Dict Peer
unfolding online
sweep_peers conns now [] = []
sweep_peers conns now ((fp, p) ∷ peers) =
    if ltb (p.last + peer_timeout) now && not (online fp conns)
    then sweep_peers conns now peers
    else (fp, p) ∷ sweep_peers conns now peers

pub to_dial : Dict Conn → ℕ → Dict Peer → List Peer
unfolding online
to_dial conns now [] = []
to_dial conns now ((fp, p) ∷ peers) =
    if not (online fp conns) && (ltb now (p.last + peer_timeout) && ltb 0 p.port)
    then p ∷ to_dial conns now peers
    else to_dial conns now peers

-- One tick of `maintenanceLoop`.
pub maintain : Net → ℕ → Net × List Peer
maintain n now = (record n { peers = sweep_peers n.conns now n.peers }, to_dial n.conns now n.peers)

-- The fingerprint that opened a connection.
pub dialer_of : Conn → Text → Text
dialer_of conn self_fp = if conn.outbound then self_fp else conn.fp

-- `register`: the new table, the connection that is closed for it, and whether the new one stays.
register_at : Net → Conn → Option Conn → Net × Option Conn × Bool
register_at n conn none = (record n { conns = insert conn.fp conn n.conns }, none, true)
register_at n conn (some existing) =
    if text_lt (dialer_of conn n.self_fp) (dialer_of existing n.self_fp)
    then (
      record n { conns = insert conn.fp conn n.conns },
      some (record existing { closed = true }),
      true,
    )
    else (n, none, false)

pub register : Net → Conn → Net × Option Conn × Bool
unfolding register_at
register n conn = register_at n conn (lookup conn.fp n.conns)

-- The end of `runConn`: the entry goes if it is still this connection's.
leave_at : Net → Conn → Option Conn → Net
leave_at n conn none = n
leave_at n conn (some held) =
    if held.serial == conn.serial then record n { conns = erase conn.fp n.conns } else n

pub leave : Net → Conn → Net
unfolding leave_at
leave n conn = leave_at n conn (lookup conn.fp n.conns)

closed_all : Dict Conn → List Conn
closed_all [] = []
closed_all ((fp, conn) ∷ conns) = record conn { closed = true } ∷ closed_all conns

pub close_all_conns : Net → Net × List Conn
unfolding closed_all
close_all_conns n = (record n { conns = [] }, closed_all n.conns)
