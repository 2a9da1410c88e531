-- ===== src/Peers/Discovery/Tests.antt =====
-- The theorems on announcements at concrete inputs.
use lanrunner.Common.{◌<◌, ◌≡◌, ◌⊎◌, refl, true, [], ◌∷◌, some, codes, same, replicate}
use lanrunner.Common.Dict.{lookup, insert}
use lanrunner.Peers.{Net, Peer}
use lanrunner.Peers.Discovery.{
  Crypto, Announce, on_announce, checked, dispatch, keyed, upsert, met, ed_key, x_key, fingerprint,
  verify_sig, verify_sig_raw, timely,
}
use lanrunner.Peers.Discovery.Authentic.{Authentic, Local, on_announce-Authentic}
use lanrunner.Peers.Discovery.Monotone.{last_ts-on_announce}

abbrev ann : Peer
ann = record {
  fp = replicate 16 b'a';
  nick = codes "Ann";
  ip = codes "10.0.0.2";
  port = 47100;
  ed_pub = [];
  x_pub = [];
  first = 1;
  last = 1;
  last_ts = 500;
  flags = [];
  direct = true;
}

abbrev hosts : Net
hosts = record {
  self_fp = codes "b";
  peers = (replicate 16 b'a', ann) ∷ [];
  conns = [];
  trust = record { recs = []; saved = [] };
}

abbrev toy_crypto : Crypto
toy_crypto = record {
  base64_decode = λ t. some t;
  sha256 = λ bytes. bytes;
  hex = λ bytes. bytes;
  ed25519_verify = λ key text sig. true;
  x25519_key = λ bytes. some bytes;
  decimal = λ n. n ∷ [];
}

abbrev hello_all : Announce
hello_all = record {
  v = 2;
  kind = codes "announce";
  fp = replicate 16 b'a';
  nick = codes "Ann";
  ed = replicate 32 b'a';
  xk = codes "x";
  port = 47100;
  ts = 1000;
  gossip = [];
  sig = codes "sig";
}

on_announce-Authentic_example :
    ((on_announce toy_crypto same hosts hello_all (codes "10.0.0.2") 1_000_000_000).net ≡ hosts)
    ⊎ (Authentic toy_crypto same hello_all 1_000_000_000
        × Local toy_crypto same hosts hello_all.fp
            (on_announce toy_crypto same hosts hello_all (codes "10.0.0.2") 1_000_000_000).net)
on_announce-Authentic_example =
    on_announce-Authentic toy_crypto same hosts hello_all (codes "10.0.0.2") 1_000_000_000

abbrev ann_later : Peer
ann_later =
    met toy_crypto hello_all (codes "10.0.0.2") (replicate 32 b'a') (codes "x") 1_000_000_000
      (some ann)

last_ts-on_announce_example : (ann_later ≡ ann) ⊎ (ann.last_ts < ann_later.last_ts)
unfolding on_announce checked dispatch keyed upsert ed_key x_key fingerprint verify_sig
    verify_sig_raw timely same lookup insert
last_ts-on_announce_example =
    last_ts-on_announce toy_crypto same hosts hello_all (codes "10.0.0.2") 1_000_000_000 ann
      ann_later refl refl
