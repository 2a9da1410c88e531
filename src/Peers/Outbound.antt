-- ===== src/Peers/Outbound.antt =====
-- What goes out to be found (discovery.go, `buildAnnounce`, `probeGossip`, `discoveryTargets`). The
-- network interfaces, the resolver and the parsing of addresses are arguments; an IPv4 address is its
-- four bytes.
pub mod Found
use Prim.Native.Nat.{bit_or}
use lanrunner.Common.{
  ℕ, ◌-◌, Bool, true, false, List, [], ◌∷◌, ◌++◌, Option, none, some, not, ◌&&◌, ◌||◌, ◌==◌,
  if◌then◌else◌, Text, codes, same, length, drop,
}
use lanrunner.Common.Dict.{Dict}
use lanrunner.Peers.{Net, Peer, gossip_addrs}
use lanrunner.Peers.Discovery.{Crypto, Announce, announce_payload, proto_version}
use lanrunner.Peers.Handshake.{Host}

pub unsigned_announce : (List ℕ → Text) → (Text → ℕ → Text) → Host → Net → Text → ℕ → ℕ → Announce
unsigned_announce base64_encode join_host_port a n kind tcp_port now_ms = record {
  v = proto_version;
  kind = kind;
  fp = a.fp;
  nick = a.nick;
  ed = base64_encode a.ed_pub;
  xk = base64_encode a.x_pub;
  port = tcp_port;
  ts = now_ms;
  gossip = if same kind (codes "announce") then gossip_addrs join_host_port n.peers else [];
  sig = [];
}

pub build_announce :
    Crypto → (List ℕ → Text) → (Text → ℕ → Text) → Host → Net → Text → ℕ → ℕ → Announce
unfolding unsigned_announce
build_announce c base64_encode join_host_port a n kind tcp_port now_ms =
    let unsigned = unsigned_announce base64_encode join_host_port a n kind tcp_port now_ms in
    record unsigned { sig = a.sign (announce_payload c unsigned) }

pub known_ip : Text → Dict Peer → Bool
known_ip host [] = false
known_ip host ((fp, p) ∷ peers) = same p.ip host || known_ip host peers

-- The hints that are probed: host of the hint, if it parses; its IPv4 form, if it has one.
pub probe_gossip :
    (Text → Option Text)
    → (Text → Option (List ℕ))
    → (Text → Bool)
    → Dict Peer
    → List Text
    → List (List ℕ)
unfolding known_ip
probe_gossip split_host ip4_of is_local peers [] = []
probe_gossip split_host ip4_of is_local peers (h ∷ hints) =
    let rest = probe_gossip split_host ip4_of is_local peers hints in
    elim (split_host h) [
      | none ↦ rest
      | some host ↦ elim (ip4_of host) [
        | none ↦ rest
        | some ip ↦ if known_ip host peers || is_local host then rest else ip ∷ rest
      ]
    ]

-- The broadcast address of a network: the host bits set.
pub broadcast : List ℕ → List ℕ → List ℕ
broadcast (b ∷ ip) (m ∷ mask) = bit_or b (255 - m) ∷ broadcast ip mask
broadcast [] mask = []
broadcast (b ∷ ip) [] = []

-- A network of an interface that is up: its IPv4 address, if it has one, and its mask, of 4 or 16 bytes.
pub record IfaceNet : Type 0 where
  pub ip4 : Option (List ℕ)
  pub mask : List ℕ

abbrev pub short_mask : List ℕ → List ℕ
short_mask mask = if length mask == 16 then drop 12 mask else mask

pub broadcasts : List IfaceNet → List (List ℕ)
unfolding broadcast
broadcasts [] = []
broadcasts (net ∷ nets) =
    let rest = broadcasts nets in
    elim net.ip4 [
      | none ↦ rest
      | some ip ↦
          if not (length (short_mask net.mask) == 4)
          then rest
          else broadcast ip (short_mask net.mask) ∷ rest
    ]

-- A seed that the operator named, as its first IPv4 address and its port, if it resolves.
pub seeded : (Text → Option (List ℕ × ℕ)) → List Text → List (List ℕ × ℕ)
seeded resolve [] = []
seeded resolve (s ∷ seeds) =
    let rest = seeded resolve seeds in elim (resolve s) [ none ↦ rest | some addr ↦ addr ∷ rest ]

pub at_port : ℕ → List (List ℕ) → List (List ℕ × ℕ)
at_port port [] = []
at_port port (ip ∷ ips) = (ip, port) ∷ at_port port ips

-- `group` is the multicast address, if multicast is on and the address parses.
pub discovery_targets :
    Option (List ℕ)
    → List IfaceNet
    → (Text → Option (List ℕ × ℕ))
    → List Text
    → ℕ
    → List (List ℕ × ℕ)
unfolding broadcasts seeded at_port
discovery_targets group nets resolve seeds port =
    at_port port (
      (255 ∷ 255 ∷ 255 ∷ 255 ∷ [])
      ∷ (127 ∷ 0 ∷ 0 ∷ 1 ∷ [])
      ∷ (elim group as (λ o. List (List ℕ)) [ none ↦ [] | some ip ↦ ip ∷ [] ] ++ broadcasts nets))
    ++ seeded resolve seeds
