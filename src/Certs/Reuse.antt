-- ===== src/Certs/Reuse.antt =====
-- A certificate that guests have accepted stays.
use lanrunner.Common.{ℕ, ◌+◌, ◌≡◌, refl, Bool, true, false, List, some, ltb, Text}
use lanrunner.Certs.{
  GuestCert, Stored, covers, cert_hosts, fits, renew, load_or_create_guest_cert, month,
}

-- The first start has no certificate that fits, makes one for the names of the machine, and stores it.
-- Every later start that finds the machine under the same names, more than thirty days before the end of
-- the certificate, uses the same one and writes nothing, whatever `make` would give.
pub load_or_create_guest_cert-again :
    (make make' : Stored → List Text → Stored × Bool) (stored : Stored) (local_ips : List Text)
    (now later : ℕ) (cert : GuestCert)
    → fits stored (cert_hosts local_ips) now ≡ false
    → make stored (cert_hosts local_ips) ≡ (some cert, true)
    → covers cert (cert_hosts local_ips) ≡ true
    → ltb (later + month) cert.not_after ≡ true
    → load_or_create_guest_cert make'
        (load_or_create_guest_cert make stored local_ips now).0
        local_ips
        later
      ≡ (some cert, some cert)
unfolding load_or_create_guest_cert renew fits
load_or_create_guest_cert-again make make' stored local_ips now later cert stale makes wide young =
    rw (stale, makes, wide, young) refl
