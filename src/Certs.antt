-- ===== src/Certs.antt =====
-- The certificate of the guest gateway and the scheme guard before it (tlscert.go). Generating, writing
-- and reading certificates are arguments, and so are the local addresses (`localIPs`). Times are
-- nanoseconds.
pub mod Reuse
pub mod Guard
use lanrunner.Common.{
  ℕ, ◌+◌, ◌-◌, ◌*◌, Bool, true, false, List, [], ◌∷◌, ◌++◌, Option, none, some, not, ◌&&◌, ◌||◌,
  ltb, ◌==◌, if◌then◌else◌, Text, codes, same, length, take, drop,
}
use lanrunner.Identity.{upper}
use lanrunner.Peers.Discovery.{join}
use lanrunner.Guest.Hub.Sessions.{member}

abbrev pub month : ℕ
month = 30 * 24 * 3600 * 1_000_000_000

pub record GuestCert : Type 0 where
  pub fingerprint : Text
  pub hosts : List Text
  pub not_after : ℕ

-- Two hex digits each, of the first eight bytes, in capitals.
pub pairs : ℕ → Text → List Text
pairs i (a ∷ b ∷ s) =
    let rest = pairs (i + 2) s in if ltb i 16 then (upper a ∷ upper b ∷ []) ∷ rest else []
pairs i [] = []
pairs i (a ∷ []) = []

pub cert_fingerprint : Text → Text
unfolding pairs
cert_fingerprint hex_sum = join (codes ":") (pairs 0 hex_sum)

unfoldable pub covers : GuestCert → List Text → Bool
covers cert [] = true
covers cert (w ∷ wanted) = if not (member w cert.hosts) then false else covers cert wanted

-- The names of this machine, each once.
unfoldable pub more_hosts : List Text → List Text → List Text
more_hosts seen [] = []
more_hosts seen (ip ∷ ips) =
    let skip = more_hosts seen ips in
    let rest = more_hosts (ip ∷ seen) ips in
    if same ip (codes "none") || (same ip (codes "unknown") || member ip seen)
    then skip
    else ip ∷ rest

abbrev pub always_hosts : List Text
always_hosts = codes "localhost" ∷ codes "127.0.0.1" ∷ []

unfoldable pub cert_hosts : List Text → List Text
unfolding more_hosts
cert_hosts local_ips = always_hosts ++ more_hosts always_hosts local_ips

-- The pair of files: what reading them gives.
abbrev pub Stored : Type 0
Stored = Option GuestCert

unfoldable pub fits : Stored → List Text → ℕ → Bool
unfolding covers
fits none wanted now = false
fits (some cert) wanted now = covers cert wanted && ltb (now + month) cert.not_after

-- `make` generates a certificate for the hosts and writes the two files: what is on disk after, and
-- whether both writes succeeded.
pub renew : Stored × Bool → Stored × Option GuestCert
renew (stored, true) = (stored, stored)
renew (stored, false) = (stored, none)

-- What is on disk, and the certificate in use.
pub load_or_create_guest_cert :
    (Stored → List Text → Stored × Bool) → Stored → List Text → ℕ → Stored × Option GuestCert
unfolding fits renew cert_hosts
load_or_create_guest_cert make stored local_ips now =
    if fits stored (cert_hosts local_ips) now
    then (stored, stored)
    else renew (make stored (cert_hosts local_ips))

-- A connection whose first bytes were read ahead.
pub record SchemeConn : Type 0 where
  pub prefix : List ℕ
  pub rest : List ℕ

-- `Read` into a buffer of `n` bytes, where the connection has given `most` bytes at most.
pub read : SchemeConn → ℕ → ℕ → SchemeConn × List ℕ
read conn n most =
    if not (length conn.prefix == 0)
    then (record conn { prefix = drop n conn.prefix }, take n conn.prefix)
    else (
      record conn { rest = drop (if ltb most n then most else n) conn.rest },
      take (if ltb most n then most else n) conn.rest,
    )

pub data Side : Type 0 where
  tls_side plain_side : SchemeConn → Side
  hung_up : Side

-- `splitByScheme`, for what one connection sends.
pub split_by_scheme : List ℕ → Side
split_by_scheme [] = hung_up
split_by_scheme (b ∷ rest) =
    if b == 0x16
    then tls_side (record { prefix = b ∷ []; rest = rest })
    else plain_side (record { prefix = b ∷ []; rest = rest })

-- `redirectToHTTPS`: the address that the caller is sent to. `host_of` is the host of `SplitHostPort`.
pub redirect_to_https : (Text → Option Text) → Text → ℕ → (ℕ → Text) → Text → Text
redirect_to_https host_of host port decimal uri =
    let name : Text = elim (host_of host) [ none ↦ host | some h ↦ h ] in
    codes "https://" ++ name ++ codes ":" ++ decimal port ++ uri
