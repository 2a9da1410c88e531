-- ===== src/Guest/Hub/Invites/Gone.antt =====
-- What is left of an invite that was revoked.
use lanrunner.Common.{
  ℕ, ◌<◌, ◌≡◌, refl, sym, ap, ◌∙◌, true, none, some, arith, if◌then◌else◌, Text, codes, same,
}
use lanrunner.Common.Dict.{lookup, insert, lookup-insert}
use lanrunner.Guest.Hub.{GuestHub, Invite, tabs, save_locked, usable, live_count_locked}
use lanrunner.Guest.Hub.Sessions.{drop_all, session}
use lanrunner.Guest.Hub.Sessions.Book.{Book, drop_tabs-gone, drop_all-SameBut, session-none}
use lanrunner.Guest.Hub.Invites.{
  revoke, revoke_found, settle, stop_server, invite_for, check_invite,
}

-- The hub between the mark and the dropping of the sessions.
marked : GuestHub → Text → Invite → GuestHub
marked h id inv =
    save_locked (record h { invites = insert id (record inv { revoked = true }) h.invites })

revoke-eq :
    (h : GuestHub) (id : Text) (now_ms : ℕ) (inv : Invite)
    → lookup id h.invites ≡ some inv
    → (revoke h id now_ms).0
      ≡ settle
          (drop_all (marked h id inv) (tabs h id) (codes "invite revoked"))
          (live_count_locked (marked h id inv) now_ms)
unfolding revoke
revoke-eq h id now_ms inv e = rw e (unfold revoke_found marked in refl)

settle-sessions : (h : GuestHub) (live : ℕ) → (settle h live).sessions ≡ h.sessions
unfolding settle stop_server
settle-sessions h live = ground arith

settle-invites : (h : GuestHub) (live : ℕ) → (settle h live).invites ≡ h.invites
unfolding settle stop_server
settle-invites h live = ground arith

marked-tabs :
    (h : GuestHub) (id other : Text) (inv : Invite) → tabs (marked h id inv) other ≡ tabs h other
unfolding marked save_locked tabs
marked-tabs h id other inv = refl

marked-Book : (h : GuestHub) (id : Text) (inv : Invite) → Book h → Book (marked h id inv)
unfolding marked save_locked tabs
marked-Book h id inv book = book

-- While the two maps agree, once an invite is revoked no session id is good for it any more.
pub revoke-session :
    (h : GuestHub) (id sid : Text) (now_ms now : ℕ) (inv : Invite)
    → lookup id h.invites ≡ some inv
    → Book h
    → (session (revoke h id now_ms).0 id sid now).1 ≡ none
revoke-session h id sid now_ms now inv e book =
    let m = marked h id inv in
    let gone = drop_all m (tabs h id) (codes "invite revoked") in
    rw (revoke-eq h id now_ms inv e) (
      session-none (settle gone (live_count_locked m now_ms)) id sid now (λ s at.
        drop_tabs-gone m id (codes "invite revoked") sid s (marked-Book h id inv book) (
          rw (marked-tabs h id id inv)
            (ap (lookup sid) (sym (settle-sessions gone (live_count_locked m now_ms))) ∙ at))))

pub revoke-invites :
    (h : GuestHub) (id : Text) (now_ms : ℕ) (inv : Invite)
    → lookup id h.invites ≡ some inv
    → (revoke h id now_ms).0.invites ≡ insert id (record inv { revoked = true }) h.invites
revoke-invites h id now_ms inv e =
    let m = marked h id inv in
    let gone = drop_all m (tabs h id) (codes "invite revoked") in
    rw (revoke-eq h id now_ms inv e) (
      settle-invites gone (live_count_locked m now_ms)
      ∙ (drop_all-SameBut m (tabs h id) (codes "invite revoked")).0
      ∙ unfold marked save_locked in refl)

-- After a revocation no token opens a handshake for the invite, at any time, and every other invite
-- answers as before.
pub revoke-invite_for :
    (h : GuestHub) (id other token : Text) (now_ms later : ℕ) (inv : Invite)
    → lookup id h.invites ≡ some inv
    → invite_for (revoke h id now_ms).0 other token later
      ≡ (if same id other then none else invite_for h other token later)
unfolding invite_for
revoke-invite_for h id other token now_ms later inv e =
    rw
      (
        revoke-invites h id now_ms inv e,
        lookup-insert id other (record inv { revoked = true }) h.invites,
      )
      (unfold check_invite usable in ground arith)

settle-running : (h : GuestHub) (live : ℕ) → (settle h live).running ≡ true → 0 < live
unfolding settle stop_server
settle-running h live e = ground arith

-- A revocation that leaves the gateway open leaves a usable invite.
pub revoke-running :
    (h : GuestHub) (id : Text) (now_ms : ℕ) (inv : Invite)
    → lookup id h.invites ≡ some inv
    → (revoke h id now_ms).0.running ≡ true
    → 0 < live_count_locked (revoke h id now_ms).0 now_ms
unfolding live_count_locked marked save_locked
revoke-running h id now_ms inv e up =
    let m = marked h id inv in
    let gone = drop_all m (tabs h id) (codes "invite revoked") in
    rw (revoke-invites h id now_ms inv e) (
      settle-running gone (live_count_locked m now_ms)
        (ap (λ (g : GuestHub). g.running) (sym (revoke-eq h id now_ms inv e)) ∙ up))
