-- ===== src/Peers/Handshake/Tests.antt =====
-- The theorems on handshakes and on the table of sessions (transport.go) and on one's own announcements (discovery.go) at concrete
-- inputs.
use lanrunner.Common.{
  ℕ, ◌*◌, ◌≡◌, refl, Bool, true, false, List, [], ◌∷◌, ◌++◌, Option, none, some, none-ne-some,
  if◌then◌else◌, Text, codes, same, same_refl, inr, arith,
}
use lanrunner.Secure.Mirror.{Mirror}
use lanrunner.Peers.{Net, Peer}
use lanrunner.Peers.Keyed.{Keyed}
use lanrunner.Peers.Dial.{dial_peer}
use lanrunner.Peers.Dial.Keyed.{still, then_step, dialled, NetReach-Keyed}
use lanrunner.Common.Dict.{lookup}
use lanrunner.Peers.Discovery.Meets.{Met}
use lanrunner.Peers.Outbound.{build_announce}
use lanrunner.Peers.Outbound.Found.{on_announce-build_announce}
use lanrunner.Peers.Discovery.{on_announce, Crypto, verify_sig, verify_sig_raw, fingerprint, timely}
use lanrunner.Peers.Handshake.{
  Hello, Host, Session, established, build_hello, read_hello, trim_line, drop_breaks, handshake,
  exchange, heard,
}
use lanrunner.Peers.Handshake.Accepted.{Accepted, handshake-Accepted}
use lanrunner.Peers.Handshake.Honest.{Fit, handshake-Mirror}

abbrev plain_crypto : Crypto
plain_crypto = record {
  base64_decode = λ t. some t;
  sha256 = λ b. b;
  hex = λ b. b;
  ed25519_verify = λ key payload raw. same raw (key ++ payload);
  x25519_key = λ b. some b;
  decimal = λ n. n ∷ [];
}

abbrev as_is : List ℕ → Text
as_is b = b

abbrev key_a : List ℕ
key_a = codes "aaaaaaaaaaaaaaaaaaaaaaaaaaaaaaaa"

abbrev key_b : List ℕ
key_b = codes "bbbbbbbbbbbbbbbbbbbbbbbbbbbbbbbb"

-- A toy agreement: the product of the two numbers.
abbrev times : ℕ → List ℕ → Option (List ℕ)
times secret [] = none
times secret (p ∷ rest) = some (secret * p ∷ [])

abbrev host_a : Host
host_a = record {
  fp = codes "aaaaaaaaaaaaaaaa";
  nick = codes "Ann";
  ed_pub = key_a;
  x_pub = 3 ∷ [];
  sign = λ payload. key_a ++ payload;
  ecdh = times 3;
}

abbrev host_b : Host
host_b = record {
  fp = codes "bbbbbbbbbbbbbbbb";
  nick = codes "Bob";
  ed_pub = key_b;
  x_pub = 5 ∷ [];
  sign = λ payload. key_b ++ payload;
  ecdh = times 5;
}

abbrev nonce_a : Text
nonce_a = codes "0123456789abcdef"

abbrev nonce_b : Text
nonce_b = codes "fedcba9876543210"

abbrev hello_of : Text → Option Hello
hello_of t =
    if same t (1 ∷ [])
    then some (build_hello plain_crypto as_is host_a nonce_a 5)
    else some (build_hello plain_crypto as_is host_b nonce_b 5)

abbrev digest : List ℕ → List ℕ → List ℕ
digest key text = codes "0123456789abcdef0123456789abcdef"

abbrev takes_all : List ℕ → Option (List ℕ)
takes_all k = some k

abbrev same_names : Text → Text → Bool
same_names s t = same s t

abbrev nobody : Text → Net
nobody fp = record {
  self_fp = fp;
  peers = [];
  conns = [];
  trust = record { recs = []; saved = [] };
}

host_a-Fit : Fit plain_crypto as_is host_a
unfolding fingerprint verify_sig verify_sig_raw
host_a-Fit = (refl, refl, refl, λ payload. same_refl (key_a ++ payload), refl, refl)

host_b-Fit : Fit plain_crypto as_is host_b
unfolding fingerprint verify_sig verify_sig_raw
host_b-Fit = (refl, refl, refl, λ payload. same_refl (key_b ++ payload), refl, refl)

reads_a :
    read_hello hello_of (some (1 ∷ [])) ≡ heard (build_hello plain_crypto as_is host_a nonce_a 5)
unfolding read_hello trim_line drop_breaks same
reads_a = refl

reads_b :
    read_hello hello_of (some (2 ∷ [])) ≡ heard (build_hello plain_crypto as_is host_b nonce_b 5)
unfolding read_hello trim_line drop_breaks same
reads_b = refl

-- The two ends after the handshake of the two hosts.
abbrev Established : Type 0
Established =
    (na' : Net) × (nb' : Net) × (sa : Session (List ℕ)) × (sb : Session (List ℕ)) × (handshake
        plain_crypto digest takes_all same_names hello_of (nobody host_a.fp) host_a nonce_a true
        host_b.fp true (some (2 ∷ [])) 1 (codes "10.0.0.2") 7 6_000_000
      ≡ established na' sa)
    × (handshake plain_crypto digest takes_all same_names hello_of (nobody host_b.fp) host_b nonce_b
          false [] true (some (1 ∷ [])) 1 (codes "10.0.0.1") 8 6_000_000
        ≡ established nb' sb)
    × Mirror sa.sc sb.sc

met : Established
unfolding timely same
met =
    handshake-Mirror plain_crypto as_is digest takes_all same_names (λ key text. refl)
      (λ k h. (k, refl)) hello_of (nobody host_a.fp) (nobody host_b.fp) host_a host_b nonce_a
      nonce_b host_b.fp (1 ∷ []) (2 ∷ []) 1 1 (codes "10.0.0.1") (codes "10.0.0.2") 8 7 6_000_000
      6_000_000 5 5 (15 ∷ []) host_a-Fit host_b-Fit (omega arith) (omega arith) reads_a reads_b refl
      (inr refl) refl refl refl refl

handshake-Mirror_example : Established
unfolding timely same
handshake-Mirror_example =
    handshake-Mirror plain_crypto as_is digest takes_all same_names (λ key text. refl)
      (λ k h. (k, refl)) hello_of (nobody host_a.fp) (nobody host_b.fp) host_a host_b nonce_a
      nonce_b host_b.fp (1 ∷ []) (2 ∷ []) 1 1 (codes "10.0.0.1") (codes "10.0.0.2") 8 7 6_000_000
      6_000_000 5 5 (15 ∷ []) host_a-Fit host_b-Fit (omega arith) (omega arith) reads_a reads_b refl
      (inr refl) refl refl refl refl

handshake-Accepted_example :
    (h : Hello) × (exchange hello_of true true (some (2 ∷ [])) ≡ heard h)
    × ((ed_pub x_pub : List ℕ) × Accepted plain_crypto digest takes_all same_names
          (nobody host_a.fp)
          host_a
          nonce_a
          true
          host_b.fp
          6_000_000
          h
          ed_pub
          x_pub
          met.0
          met.2)
handshake-Accepted_example =
    handshake-Accepted plain_crypto digest takes_all same_names hello_of (nobody host_a.fp) host_a
      nonce_a true host_b.fp true (some (2 ∷ [])) 1 (codes "10.0.0.2") 7 6_000_000 met.0 met.2 met.4

abbrev joined : Text → ℕ → Text
joined host port = host

abbrev heard_of_a : Net
heard_of_a =
    (on_announce plain_crypto same_names (nobody host_b.fp)
      (build_announce plain_crypto as_is joined host_a (nobody host_a.fp) (codes "announce") 47101
        5)
      (codes "10.0.0.1") 6_000_000).net

on_announce-build_announce_example :
    Met plain_crypto same_names heard_of_a
      (build_announce plain_crypto as_is joined host_a
        (nobody host_a.fp)
        (codes "announce")
        47101
        5)
      (codes "10.0.0.1")
      key_a
      (3 ∷ [])
unfolding timely lookup same
on_announce-build_announce_example =
    on_announce-build_announce plain_crypto as_is same_names joined host_a (nobody host_a.fp)
      (nobody host_b.fp) (codes "10.0.0.1") 47101 5 6_000_000 host_a-Fit refl (omega arith)
      (omega arith) refl refl

abbrev peer_b : Peer
peer_b = record {
  fp = host_b.fp;
  nick = codes "Bob";
  ip = codes "10.0.0.2";
  port = 7;
  ed_pub = [];
  x_pub = [];
  first = 0;
  last = 0;
  last_ts = 0;
  flags = [];
  direct = true;
}

abbrev dialled_b : Net
dialled_b =
    (dial_peer plain_crypto digest takes_all same_names hello_of host_a (nobody host_a.fp) peer_b
      (some 3) nonce_a true (some (2 ∷ [])) 1 6_000_000).net

nobody-Keyed : Keyed host_a.fp (nobody host_a.fp)
unfolding lookup
nobody-Keyed k conn e = absurd (none-ne-some conn e)

NetReach-Keyed_example : Keyed host_a.fp dialled_b
NetReach-Keyed_example =
    NetReach-Keyed plain_crypto digest takes_all same_names hello_of host_a (nobody host_a.fp)
      dialled_b
      (then_step (nobody host_a.fp) (nobody host_a.fp) dialled_b (still (nobody host_a.fp))
        (dialled (nobody host_a.fp) peer_b (some 3) nonce_a true (some (2 ∷ [])) 1 6_000_000))
      nobody-Keyed
