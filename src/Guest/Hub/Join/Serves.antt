-- ===== src/Guest/Hub/Join/Serves.antt =====
-- A link that was given out works.
use lanrunner.Common.{
  ℕ, ◌+◌, ◌≤◌, ◌≡◌, refl, ap, ◌∙◌, Bool, true, false, [], none, some, ◌==◌, ◌++◌, Text, codes, same,
}
use lanrunner.Common.Dict.{lookup}
use lanrunner.Guest.Hub.{GuestHub, Invite, usable, is_invite}
use lanrunner.Guest.Hub.Handoff.{new_handoff, redeem_handoff, granted, handoff_lifetime}
use lanrunner.Guest.Hub.Handoff.Redeem.{redeem_handoff-new_handoff}
use lanrunner.Guest.Hub.Hello.{Request, guest_gate}
use lanrunner.Guest.Hub.Join.{Link, link, served, served_page, join_gated, join_url, handle_join}

-- The address in the link.
abbrev pub join_link : (ℕ → Text) → Text → ℕ → Text → Text
join_link decimal host tls_port code =
    codes "https://" ++ host ++ codes ":" ++ decimal tls_port ++ codes "/join?c=" ++ code

join_url-eq :
    (h : GuestHub) (id : Text) (tls_port : ℕ) (decimal : ℕ → Text) (host code : Text) (now : ℕ)
    (inv : Invite)
    → lookup id h.invites ≡ some inv
    → (tls_port == 0) ≡ false
    → join_url h id tls_port decimal host code now ≡ (
      (new_handoff h id code now).0,
      link (join_link decimal host tls_port code) (now + handoff_lifetime),
    )
unfolding join_url is_invite new_handoff
join_url-eq h id tls_port decimal host code now inv known runs = rw (known, is_invite, runs) refl

join_gated-served :
    (builds : Invite → Bool) (h : GuestHub) (code : Text) (now now_ms : ℕ) (inv : Invite)
    → (redeem_handoff h code now now_ms).1 ≡ granted inv
    → builds inv ≡ true
    → (join_gated builds h code now now_ms none).1 ≡ served inv
unfolding join_gated served_page
join_gated-served builds h code now now_ms inv opens built = rw (opens, built) refl

-- The link that the operator shows as a QR code, which runs out in half an hour, brings the page of its
-- invite to a browser that follows it by then and passes the gate, if nothing else has happened since,
-- the invite is usable, the page can be built, HTTPS runs, the code is not empty, and the URL library
-- finds in the address of a join page the code that stands there.
pub handle_join-join_url :
    (query_get : Text → Text → Text) (allowed : Text → Bool) (builds : Invite → Bool) (h : GuestHub)
    (id : Text) (tls_port : ℕ) (decimal : ℕ → Text) (host code : Text) (now later now_ms : ℕ)
    (r : Request) (inv : Invite)
    → query_get (join_link decimal host tls_port code) (codes "c") ≡ code
    → same code [] ≡ false
    → (tls_port == 0) ≡ false
    → lookup id h.invites ≡ some inv
    → usable inv now_ms ≡ true
    → later ≤ now + handoff_lifetime
    → builds inv ≡ true
    → guest_gate allowed (join_url h id tls_port decimal host code now).0 r later ≡ none
    → (address : Text) × ((join_url h id tls_port decimal host code now).1
        ≡ link address (now + handoff_lifetime))
      × ((handle_join allowed builds
            (join_url h id tls_port decimal host code now).0
            r
            (query_get address (codes "c"))
            later
            now_ms).1
          ≡ served inv)
unfolding handle_join
handle_join-join_url query_get allowed builds h id tls_port decimal host code now later now_ms r inv
      found named runs known good soon built passes =
    let shown = join_url-eq h id tls_port decimal host code now inv known runs in
    let opens = redeem_handoff-new_handoff h id code now later now_ms inv named known good soon in
    (
      join_link decimal host tls_port code,
      ap (λ (p : GuestHub × Link). p.1) shown,
      rw (passes, found)
          (join_gated-served builds (join_url h id tls_port decimal host code now).0 code later
            now_ms inv
            (ap (λ (p : GuestHub × Link). (redeem_handoff p.0 code later now_ms).1) shown ∙ opens)
            built),
    )
