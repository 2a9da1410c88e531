-- ===== src/Peers/Discovery.antt =====
-- The announcements of peers (discovery.go, `Announce`, `announcePayload`, `onAnnounce`; identity.go,
-- `Fingerprint`, `VerifySig`). The libraries for base64, SHA-256, hex, Ed25519, X25519 and decimal
-- numbers are the fields of `Crypto`, and `strings.EqualFold` is a parameter. The time of a datagram is
-- in milliseconds, the clock in nanoseconds. Probing gossip hints only sends datagrams: it is left out.
pub mod Authentic
pub mod Meets
pub mod Sessions
pub mod Monotone
mod Tests
use lanrunner.Common.{
  ℕ, ◌+◌, ◌*◌, Bool, true, false, List, [], ◌∷◌, ◌++◌, Option, none, some, not, ◌&&◌, ◌||◌, ltb,
  leb, ◌==◌, if◌then◌else◌, Text, codes, same, length, take,
}
use lanrunner.Common.Dict.{lookup, insert}
use lanrunner.Sanitize.{sanitize_nick, short_fp}
use lanrunner.Trust.{Status, observe, new, known, renamed, impersonation}
use lanrunner.Peers.{Net, Peer, add_flag, handle_bye}

abbrev pub proto_version : ℕ
proto_version = 2

abbrev pub clock_skew : ℕ
clock_skew = 120_000_000_000

pub record Crypto : Type 0 where
  pub base64_decode : Text → Option (List ℕ)
  pub sha256 : List ℕ → List ℕ
  pub hex : List ℕ → Text
  pub ed25519_verify : List ℕ → Text → List ℕ → Bool
  pub x25519_key : List ℕ → Option (List ℕ)
  pub decimal : ℕ → Text

pub record Announce : Type 0 where
  pub v : ℕ
  pub kind : Text
  pub fp : Text
  pub nick : Text
  pub ed : Text
  pub xk : Text
  pub port : ℕ
  pub ts : ℕ
  pub gossip : List Text
  pub sig : Text

-- `strings.Join`.
pub join : Text → List Text → Text
join sep [] = []
join sep (s ∷ []) = s
join sep (s ∷ t ∷ rest) = s ++ sep ++ join sep (t ∷ rest)

module _ (c : Crypto) where
  unfoldable pub verify_sig_raw : List ℕ → Text → Option (List ℕ) → Bool
  verify_sig_raw key payload none = false
  verify_sig_raw key payload (some raw) = c.ed25519_verify key payload raw

  unfoldable pub verify_sig : List ℕ → Text → Text → Bool
  verify_sig key payload sig = verify_sig_raw key payload (c.base64_decode sig)

  pub announce_payload : Announce → Text
  unfolding join
  announce_payload a = join (codes "|") (
      codes "lanrunner-announce-v2"
      ∷ a.kind
      ∷ a.fp
      ∷ a.nick
      ∷ a.ed
      ∷ a.xk
      ∷ c.decimal a.port
      ∷ c.decimal a.ts
      ∷ join (codes ",") a.gossip
      ∷ [])

  -- The announcement is within the window of two minutes.
  unfoldable pub timely : ℕ → ℕ → Bool
  timely ts now =
      not (ltb (ts * 1_000_000 + clock_skew) now) && not (ltb (now + clock_skew) (ts * 1_000_000))

  -- The keys of a datagram that passes: the Ed25519 key, if it is of 32 bytes.
  unfoldable pub ed_key : Option (List ℕ) → Option (List ℕ)
  ed_key none = none
  ed_key (some raw) = if length raw == 32 then some raw else none

  unfoldable pub x_key : Option (List ℕ) → Option (List ℕ)
  x_key none = none
  x_key (some raw) = c.x25519_key raw

  unfoldable pub fingerprint : List ℕ → Text
  fingerprint key = c.hex (take 16 (c.sha256 key))

  -- What one datagram does: the new state, the peers to dial, and whether it was our own.
  pub record Heard : Type 0 where
    pub net : Net
    pub dials : List Peer
    pub loopback : Bool

  ignored : Net → Heard
  ignored n = record { net = n; dials = []; loopback = false }

  abbrev shown_nick : Announce → Text
  shown_nick a = if same (sanitize_nick a.nick) [] then short_fp a.fp else sanitize_nick a.nick

  met : Announce → Text → List ℕ → List ℕ → ℕ → Option Peer → Peer
  met a ip ed_pub x_pub now none = record {
    fp = a.fp;
    nick = shown_nick a;
    ip = ip;
    port = a.port;
    ed_pub = ed_pub;
    x_pub = x_pub;
    first = now;
    last = now;
    last_ts = a.ts;
    flags = [];
    direct = true;
  }
  met a ip ed_pub x_pub now (some p) = record p {
    nick = shown_nick a;
    ip = ip;
    port = a.port;
    ed_pub = ed_pub;
    x_pub = x_pub;
    last = now;
    last_ts = a.ts;
    direct = true;
  }

  marked : Peer → Status → Peer
  unfolding add_flag
  marked p impersonation = add_flag p (codes "NAME-CONFLICT")
  marked p new = p
  marked p known = p
  marked p renamed = p

  module _ (equal_fold : Text → Text → Bool) where
    -- The peer is stored and its name checked against the pinned ones; a new peer is dialled.
    upsert : Net → Announce → Text → List ℕ → List ℕ → ℕ → Option Peer → Heard
    unfolding met marked
    upsert n a ip ed_pub x_pub now none =
        let p = met a ip ed_pub x_pub now none in
        let (trust, seen) = observe equal_fold n.trust a.fp (shown_nick a) now in
        record {
          net = record n { peers = insert a.fp (marked p seen.status) n.peers; trust = trust };
          dials = p ∷ [];
          loopback = false;
        }
    upsert n a ip ed_pub x_pub now (some old) = if leb a.ts old.last_ts then ignored n else record {
      net = record n {
        peers = insert a.fp (met a ip ed_pub x_pub now (some old)) n.peers;
        trust = (observe equal_fold n.trust a.fp (shown_nick a) now).0;
      };
      dials = [];
      loopback = false;
    }

    keyed : Net → Announce → Text → List ℕ → ℕ → Option (List ℕ) → Heard
    unfolding upsert ignored
    keyed n a ip ed_pub now none = ignored n
    keyed n a ip ed_pub now (some x_pub) = upsert n a ip ed_pub x_pub now (lookup a.fp n.peers)

    -- A datagram whose signature and time are good.
    dispatch : Net → Announce → Text → List ℕ → ℕ → Heard
    unfolding keyed ignored
    dispatch n a ip ed_pub now =
        if same a.kind (codes "bye")
        then record { net = handle_bye n a.fp; dials = []; loopback = false }
        else if not (same a.kind (codes "announce"))
        then ignored n
        else if a.port == 0 || ltb 65535 a.port
        then ignored n
        else keyed n a ip ed_pub now (x_key (c.base64_decode a.xk))

    checked : Net → Announce → Text → ℕ → Option (List ℕ) → Heard
    unfolding dispatch ignored
    checked n a ip now none = ignored n
    checked n a ip now (some ed_pub) =
        if not (same (fingerprint ed_pub) a.fp)
        then ignored n
        else if not (verify_sig ed_pub (announce_payload a) a.sig)
        then ignored n
        else if not (timely a.ts now)
        then ignored n
        else dispatch n a ip ed_pub now

    -- The datagram that decodes to `a`, from the address `ip`.
    pub on_announce : Net → Announce → Text → ℕ → Heard
    unfolding checked ignored
    on_announce n a ip now =
        if same a.fp n.self_fp
        then record { net = n; dials = []; loopback = true }
        else if not (a.v == proto_version)
        then ignored n
        else checked n a ip now (ed_key (c.base64_decode a.ed))
