-- ===== src/Peers/Handshake.antt =====
-- The handshake of two hosts (transport.go, `Hello`, `helloPayload`, `buildHello`, `verifyHello`,
-- `handshake`). The keys of a host, its signature and its half of the key agreement are the fields of
-- `Host`; encoding and decoding of JSON and base64 are parameters. `line` is what the connection
-- delivers up to the first line break, and `up` says that it takes our line.
pub mod Accepted
pub mod Honest
mod Tests
use mathlib.Core.List.{reverse}
use lanrunner.Common.{
  ℕ, ◌*◌, Bool, true, false, List, [], ◌∷◌, ◌++◌, Option, none, some, not, ◌&&◌, ◌||◌, ltb, ◌==◌,
  if◌then◌else◌, Text, codes, same, byte_len,
}
use lanrunner.Common.Dict.{Dict, lookup, insert}
use lanrunner.Sanitize.{sanitize_nick, short_fp}
use lanrunner.Secure.{SecureConn, derive_session}
use lanrunner.Trust.{observe}
use lanrunner.Peers.{Net, Peer, Conn}
use lanrunner.Peers.Discovery.{
  Crypto, join, verify_sig, timely, ed_key, x_key, fingerprint, proto_version,
}

abbrev pub hello_max_line : ℕ
hello_max_line = 8 * 1024

pub record Hello : Type 0 where
  pub v : ℕ
  pub kind : Text
  pub fp : Text
  pub nick : Text
  pub ed : Text
  pub xk : Text
  pub nonce : Text
  pub ts : ℕ
  pub sig : Text

-- The identity of a host and the name it shows.
pub record Host : Type 0 where
  pub fp : Text
  pub nick : Text
  pub ed_pub : List ℕ
  pub x_pub : List ℕ
  pub sign : Text → Text
  pub ecdh : List ℕ → Option (List ℕ)

-- Why a handshake is refused, in the order of the tests.
pub data Refusal : Type 0 where
  no_handshake line_too_long not_json not_sent : Refusal
  wrong_version wrong_opcode bad_ed_key forged bad_signature short_nonce bad_x_key : Refusal
  own_fingerprint unexpected_peer stale no_agreement no_keys : Refusal

pub data Verified : Type 0 where
  verified : List ℕ → List ℕ → Verified
  invalid : Refusal → Verified

pub data Read : Type 0 where
  heard : Hello → Read
  unheard : Refusal → Read

-- A session at the end of a handshake: `Conn` with its channel, its round trip time and its pings.
pub record Session (Aead : Type 0) : Type 0 where
  pub conn : Conn
  pub nick : Text
  pub sc : SecureConn Aead
  pub rtt : ℕ
  pub ping_seq : ℕ
  pub pings : List (ℕ × ℕ)

pub data Shaken (Aead : Type 0) : Type 0 where
  established : Net → Session Aead → Shaken Aead
  rejected : Refusal → Shaken Aead

-- `strings.TrimRight(line, "\r\n")`.
pub drop_breaks : Text → Text
drop_breaks [] = []
drop_breaks (r ∷ s) = if r == 0x0d || r == 0x0a then drop_breaks s else r ∷ s

pub trim_line : Text → Text
unfolding drop_breaks
trim_line line = reverse (drop_breaks (reverse line))

pub read_hello : (Text → Option Hello) → Option Text → Read
read_hello parse none = unheard no_handshake
read_hello parse (some line) =
    if ltb hello_max_line (byte_len line)
    then unheard line_too_long
    else elim (parse (trim_line line)) [ none ↦ unheard not_json | some h ↦ heard h ]

-- The two lines cross: the host that dialled sends first.
pub exchange : (Text → Option Hello) → Bool → Bool → Option Text → Read
unfolding read_hello
exchange parse outbound up line =
    if outbound && not up then unheard not_sent else elim (read_hello parse line) [
      | unheard e ↦ unheard e
      | heard h ↦ if up then heard h else unheard not_sent
    ]

module _ (c : Crypto) where
  pub hello_payload : Hello → Text
  hello_payload h =
      join (codes "|")
        (codes "lanrunner-hello-v2" ∷ h.fp ∷ h.nick ∷ h.ed ∷ h.xk ∷ h.nonce ∷ c.decimal h.ts ∷ [])

  pub build_hello : (List ℕ → Text) → Host → Text → ℕ → Hello
  unfolding hello_payload
  build_hello base64_encode a nonce now_ms =
      let unsigned : Hello = record {
        v = proto_version;
        kind = codes "hello";
        fp = a.fp;
        nick = a.nick;
        ed = base64_encode a.ed_pub;
        xk = base64_encode a.x_pub;
        nonce = nonce;
        ts = now_ms;
        sig = [];
      } in
      record unsigned { sig = a.sign (hello_payload unsigned) }

  pub with_x : List ℕ → Option (List ℕ) → Verified
  with_x ed_pub none = invalid bad_x_key
  with_x ed_pub (some x_pub) = verified ed_pub x_pub

  pub with_ed : Hello → Option (List ℕ) → Verified
  unfolding with_x hello_payload
  with_ed h none = invalid bad_ed_key
  with_ed h (some ed_pub) =
      if not (same (fingerprint c ed_pub) h.fp)
      then invalid forged
      else if not (verify_sig c ed_pub (hello_payload h) h.sig)
      then invalid bad_signature
      else if ltb (byte_len h.nonce) 16
      then invalid short_nonce
      else with_x ed_pub (x_key c (c.base64_decode h.xk))

  pub verify_hello : Hello → Verified
  unfolding with_ed
  verify_hello h =
      if not (h.v == proto_version)
      then invalid wrong_version
      else if not (same h.kind (codes "hello"))
      then invalid wrong_opcode
      else with_ed h (ed_key c (c.base64_decode h.ed))

  abbrev pub shown_nick : Hello → Text
  shown_nick h = if same (sanitize_nick h.nick) [] then short_fp h.fp else sanitize_nick h.nick

  -- The peer is recorded even if no announcement of it was heard.
  pub known_peer : Hello → List ℕ → List ℕ → Text → ℕ → ℕ → Option Peer → Peer
  known_peer h ed_pub x_pub ip port now none = record {
    fp = h.fp;
    nick = shown_nick h;
    ip = ip;
    port = port;
    ed_pub = ed_pub;
    x_pub = x_pub;
    first = now;
    last = now;
    last_ts = 0;
    flags = [];
    direct = false;
  }
  known_peer h ed_pub x_pub ip port now (some p) = record p {
    nick = shown_nick h;
    ed_pub = ed_pub;
    x_pub = x_pub;
    last = now;
    ip = if same p.ip [] then ip else p.ip;
    port = if p.port == 0 then port else p.port;
  }

  module _ {Aead : Type 0} (hmac : List ℕ → List ℕ → List ℕ) (new_gcm : List ℕ → Option Aead)
      (equal_fold : Text → Text → Bool) where
    pub keep_peer : Net → Hello → List ℕ → List ℕ → Text → ℕ → ℕ → Net
    unfolding known_peer
    keep_peer n h ed_pub x_pub ip port now = record n {
      peers = insert h.fp (known_peer h ed_pub x_pub ip port now (lookup h.fp n.peers)) n.peers;
      trust = (observe equal_fold n.trust h.fp (shown_nick h) now).0;
    }

    pub opened :
        Net
        → Hello
        → List ℕ
        → List ℕ
        → Bool
        → ℕ
        → Text
        → ℕ
        → ℕ
        → Option (SecureConn Aead)
        → Shaken Aead
    unfolding keep_peer
    opened n h ed_pub x_pub outbound serial ip port now none = rejected no_keys
    opened n h ed_pub x_pub outbound serial ip port now (some sc) =
        established (keep_peer n h ed_pub x_pub ip port now) (record {
          conn = record { serial = serial; fp = h.fp; outbound = outbound; closed = false };
          nick = shown_nick h;
          sc = sc;
          rtt = 0;
          ping_seq = 0;
          pings = [];
        })

    -- The keys of the session: the dialler's nonce and fingerprint come first.
    pub session_keys : Text → Text → Hello → Bool → List ℕ → Option (SecureConn Aead)
    session_keys self nonce h outbound shared =
        if outbound
        then derive_session hmac new_gcm shared (nonce ++ h.nonce) self h.fp true
        else derive_session hmac new_gcm shared (h.nonce ++ nonce) h.fp self false

    pub agreed :
        Net
        → Host
        → Text
        → Hello
        → List ℕ
        → List ℕ
        → Bool
        → ℕ
        → Text
        → ℕ
        → ℕ
        → Option (List ℕ)
        → Shaken Aead
    unfolding opened session_keys
    agreed n a nonce h ed_pub x_pub outbound serial ip port now none = rejected no_agreement
    agreed n a nonce h ed_pub x_pub outbound serial ip port now (some shared) =
        opened n h ed_pub x_pub outbound serial ip port now
          (session_keys a.fp nonce h outbound shared)

    -- The tests that follow `verifyHello`.
    pub screened :
        Net → Host → Text → Hello → Bool → Text → ℕ → Text → ℕ → ℕ → Verified → Shaken Aead
    unfolding agreed
    screened n a nonce h outbound expect_fp serial ip port now (invalid e) = rejected e
    screened n a nonce h outbound expect_fp serial ip port now (verified ed_pub x_pub) =
        if same h.fp a.fp
        then rejected own_fingerprint
        else if not (same expect_fp []) && not (same h.fp expect_fp)
        then rejected unexpected_peer
        else if not (timely c h.ts now)
        then rejected stale
        else agreed n a nonce h ed_pub x_pub outbound serial ip port now (a.ecdh x_pub)

    pub answered : Net → Host → Text → Bool → Text → ℕ → Text → ℕ → ℕ → Read → Shaken Aead
    unfolding screened
    answered n a nonce outbound expect_fp serial ip port now (unheard e) = rejected e
    answered n a nonce outbound expect_fp serial ip port now (heard h) =
        screened n a nonce h outbound expect_fp serial ip port now (verify_hello h)

    -- `handshake` of the host `a` on a connection to `ip` and `port`; `expect_fp` is "" where any
    -- peer may answer.
    pub handshake :
        (Text → Option Hello)
        → Net
        → Host
        → Text
        → Bool
        → Text
        → Bool
        → Option Text
        → ℕ
        → Text
        → ℕ
        → ℕ
        → Shaken Aead
    unfolding answered
    handshake parse n a nonce outbound expect_fp up line serial ip port now =
        answered n a nonce outbound expect_fp serial ip port now (exchange parse outbound up line)
