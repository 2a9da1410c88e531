-- ===== src/Guest/Hub/Sessions/Listed.antt =====
-- The operations on sessions keep every invite in the order.
use lanrunner.Common.{
  ℕ, ◌≡◌, sym, ap, ◌∙◌, Bool, List, [], some, Text, codes, same, inl, inr, Bool-cases, Option-cases,
}
use lanrunner.Common.Dict.{lookup}
use lanrunner.Guest.Hub.Reach.Ordered.{Ordered, change-Ordered}
use lanrunner.Guest.Hub.{GuestHub, Invite, save_locked}
use lanrunner.Guest.Session.{GuestSession, Envelope}
use lanrunner.Guest.Hub.Sessions.{
  member, drop_session, drop_all, session, found_session, evicted, enter, register, reap_idle,
  idle_sids, close, sids_of, deliver,
}
use lanrunner.Guest.Hub.Sessions.Book.{SameBut, drop_session-SameBut, drop_all-SameBut}

pub same-Ordered : (h k : GuestHub) → SameBut k h → Ordered h → Ordered k
same-Ordered h k (invites, order, running) ordered id inv held =
    ap (member id) order ∙ ordered id inv (ap (lookup id) (sym invites) ∙ held)

pub drop_session-Ordered :
    (h : GuestHub) (sid why : Text) → Ordered h → Ordered (drop_session h sid why).0
drop_session-Ordered h sid why =
    same-Ordered h (drop_session h sid why).0 (drop_session-SameBut h sid why)

pub drop_all-Ordered :
    (h : GuestHub) (sids : List Text) (why : Text) → Ordered h → Ordered (drop_all h sids why)
drop_all-Ordered h sids why = same-Ordered h (drop_all h sids why) (drop_all-SameBut h sids why)

pub reap_idle-Ordered : (h : GuestHub) (now : ℕ) → Ordered h → Ordered (reap_idle h now)
unfolding reap_idle
reap_idle-Ordered h now = drop_all-Ordered h (idle_sids h.sessions now) (codes "idle")

pub close-Ordered : (h : GuestHub) → Ordered h → Ordered (close h)
unfolding close
close-Ordered h = drop_all-Ordered h (sids_of h.sessions) (codes "host shutting down")

pub session-Ordered :
    (h : GuestHub) (id sid : Text) (now : ℕ) → Ordered h → Ordered (session h id sid now).0
unfolding session found_session
session-Ordered h id sid now ordered = elim (Option-cases (lookup sid h.sessions)) [
  | inl e ↦ rw (e, found_session) ordered
  | inr (s, e) ↦ elim (Bool-cases (same s.invite id)) [
    | inr d ↦ rw (e, found_session, d) ordered
    | inl d ↦ rw (e, found_session, d) ordered
  ]
]

pub deliver-Ordered :
    (can_seal : GuestSession → Bool) (h : GuestHub) (id : Text) (e : Envelope)
    → Ordered h
    → Ordered (deliver can_seal h id e).0
unfolding deliver
deliver-Ordered can_seal h id e ordered = ordered

pub register-Ordered :
    (h : GuestHub) (inv : Invite) (s : GuestSession) (now now_ms : ℕ)
    → lookup inv.id h.invites ≡ some inv
    → Ordered h
    → Ordered (register h inv s now now_ms)
unfolding register enter save_locked
register-Ordered h inv s now now_ms there ordered =
    let changed : Invite = record inv { last_nick = s.nick; last_seen = now_ms } in
    let entered = change-Ordered h.invites h.order inv.id changed inv there ordered in
    elim (Bool-cases (same (evicted h s.invite now) [])) [
      | inl e ↦ rw e entered
      | inr e ↦
          rw e (drop_session-Ordered (enter h inv s now_ms) (evicted h s.invite now) _ entered)
    ]
