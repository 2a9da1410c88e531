-- ===== src/Tests/Local.antt =====
-- The theorems on the parts that stay on the machine (transport.go, `Send`; httpui.go; identity.go;
-- tlscert.go; main.go) at concrete inputs.
use lanrunner.Common.{
  length, ◌⊎◌, ◌-◌, ◌≤◌, ◌==◌, if◌then◌else◌, ℕ, ◌*◌, ◌≡◌, refl, Bool, true, false, List, [], ◌∷◌,
  ◌++◌, Option, none, some, Text, codes, same,
}
use lanrunner.Guest.Session.{GuestSession}
use lanrunner.Guest.Hub.{new_guest_hub}
use lanrunner.Guest.Hub.Hello.{Agreement, agreed}
use lanrunner.Guest.Hub.Frames.{GuestPayload}
use lanrunner.Guest.Hub.{Invite}
use lanrunner.Guest.Hub.Reach.{here, HubReach-Sound}
use lanrunner.Peers.{Conn}
use lanrunner.Peers.Discovery.{Crypto}
use lanrunner.Chat.{App, send}
use lanrunner.Chat.Private.{KeptPrivate, send-KeptPrivate}
use lanrunner.Operator.{posted, rename, handle_nick, serve}
use lanrunner.Operator.Refusals.{Unchanged, serve-Unchanged}
use lanrunner.Identity.{
  KeyLib, KeyFile, absent, content, loaded, identity_of, key_file, load_or_create_identity,
}
use lanrunner.Identity.Stable.{load_or_create_identity-again}
use lanrunner.Certs.{
  GuestCert, Stored, SchemeConn, month, split_by_scheme, hung_up, tls_side, plain_side,
}
use lanrunner.Certs.Guard.{useful, reads, split_by_scheme-reads}
use lanrunner.Runtime.{LogLine}
use lanrunner.Runtime.Ring.{log_all, newest, log_all-newest}

abbrev gil : Invite
gil = record {
  id = codes "inv";
  token = codes "tok";
  label = codes "Gil";
  folder = codes "/tmp/kit";
  created = 1;
  expires = 0;
  revoked = false;
  allow_plain = true;
  last_nick = [];
  last_seen = 0;
}

abbrev to_bob : Conn
to_bob = record { serial = 1; fp = codes "bbbb"; outbound = true; closed = false }

abbrev my_app : App
my_app = record {
  nick = codes "Ann";
  net = record {
    self_fp = codes "aaaa";
    peers = [];
    conns = (codes "bbbb", to_bob) ∷ [];
    trust = record { recs = []; saved = [] };
  };
  hist = [];
  guests = some (new_guest_hub (gil ∷ []));
  active = 0;
}

abbrev seals_all : GuestSession → Bool
seals_all s = true

abbrev takes_write : Conn → Bool
takes_write conn = true

abbrev undecoded : Text → Option (List ℕ)
undecoded t = none

abbrev sealed_shut : Text → List ℕ → List ℕ → Option Text
sealed_shut sid nonce ct = none

abbrev unparsed : Text → Option GuestPayload
unparsed t = none

abbrev anywhere : Text → Bool
anywhere host = true

abbrev agreeing : Text → Invite → Text → Agreement
agreeing xk inv sid = agreed

send-KeptPrivate_example :
    KeptPrivate
      (codes "bbbb")
      my_app
      (send seals_all takes_write my_app (codes "bbbb") (codes "hi") (codes "m") 5)
unfolding same
send-KeptPrivate_example =
    send-KeptPrivate seals_all takes_write my_app (codes "bbbb") (codes "hi") (codes "m") 5
      (HubReach-Sound undecoded sealed_shut unparsed seals_all anywhere agreeing (gil ∷ [])
        (new_guest_hub (gil ∷ [])) here)
      refl

serve-Unchanged_example : Unchanged my_app (serve seals_all my_app true (rename none) 7 7).0
unfolding serve handle_nick posted
serve-Unchanged_example = serve-Unchanged seals_all my_app true (rename none) 7 7 400 refl

abbrev toy_crypto : Crypto
toy_crypto = record {
  base64_decode = λ t. some t;
  sha256 = λ b. b;
  hex = λ b. b;
  ed25519_verify = λ key payload raw. true;
  x25519_key = λ b. some b;
  decimal = λ n. n ∷ [];
}

abbrev key_seed : List ℕ
key_seed = codes "0123456789abcdef0123456789abcdef"

abbrev toy_key_file : KeyFile
toy_key_file = record { version = 2; ed_seed = key_seed; x_priv = 9 ∷ []; made = codes "today" }

abbrev toy_keys : KeyLib
toy_keys = record {
  parse = λ t. some toy_key_file;
  marshal = λ kf. some (codes "{}");
  base64_encode = λ b. b;
  key_from_seed = λ b. b;
  seed_of = λ b. b;
  ed_public = λ b. b;
  x_private = λ b. some b;
  x_bytes = λ b. b;
  x_public = λ b. b;
  ed25519_sign = λ key payload. key;
}

load_or_create_identity-again_example :
    (load_or_create_identity toy_crypto toy_keys absent
        (some key_seed)
        (some (9 ∷ []))
        (codes "today")
        true
        true
      ≡ (content (codes "{}"), loaded (identity_of toy_crypto toy_keys key_seed (9 ∷ [])) true))
    × (load_or_create_identity toy_crypto toy_keys
          (load_or_create_identity toy_crypto toy_keys absent
            (some key_seed)
            (some (9 ∷ []))
            (codes "today")
            true
            true).0
          none
          none
          (codes "later")
          false
          false
        ≡ (content (codes "{}"), loaded (identity_of toy_crypto toy_keys key_seed (9 ∷ [])) false))
unfolding key_file
load_or_create_identity-again_example =
    load_or_create_identity-again toy_crypto toy_keys key_seed (9 ∷ []) (codes "today") (codes "{}")
      none none (codes "later") false false (refl, refl, refl, refl, refl, refl, refl)

abbrev new_cert : GuestCert
new_cert = record {
  fingerprint = codes "AB:CD";
  hosts = codes "localhost" ∷ codes "127.0.0.1" ∷ codes "10.0.0.2" ∷ [];
  not_after = 10 * month;
}

abbrev makes_cert : Stored → List Text → Stored × Bool
makes_cert stored hosts = (some new_cert, true)

abbrev makes_none : Stored → List Text → Stored × Bool
makes_none stored hosts = (stored, false)

abbrev greeting_bytes : List ℕ
greeting_bytes = 22 ∷ 3 ∷ 1 ∷ 0 ∷ []

split_by_scheme-reads_example :
    ((greeting_bytes ≡ []) × (split_by_scheme greeting_bytes ≡ hung_up))
    ⊎ ((b : ℕ) × (rest : List ℕ) × (conn : SchemeConn) × (greeting_bytes ≡ b ∷ rest)
        × (split_by_scheme greeting_bytes ≡ (if b == 0x16 then tls_side conn else plain_side conn))
        × ((later : List ℕ) × ((reads conn ((5, 9) ∷ (2, 9) ∷ [])).1 ++ later ≡ greeting_bytes)
            × (length later ≤ length greeting_bytes - useful ((5, 9) ∷ (2, 9) ∷ []))))
split_by_scheme-reads_example = split_by_scheme-reads greeting_bytes ((5, 9) ∷ (2, 9) ∷ [])

abbrev a_line : LogLine
a_line = record {
  ts = codes "12:00";
  level = codes "SYS";
  src = codes "local";
  text = codes "hello";
}

log_all-newest_example : log_all [] (a_line ∷ a_line ∷ []) ≡ newest (a_line ∷ a_line ∷ [])
log_all-newest_example = log_all-newest (a_line ∷ a_line ∷ [])
