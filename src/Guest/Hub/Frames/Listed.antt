-- ===== src/Guest/Hub/Frames/Listed.antt =====
-- The requests of a guest with a session keep every invite in the order.
use lanrunner.Common.{
  ℕ, ◌≡◌, refl, Bool, List, [], ◌∷◌, Option, none, some, not, ◌||◌, Text, same, inl, inr,
  Bool-cases, Option-cases,
}
use lanrunner.Common.Dict.{lookup, insert}
use lanrunner.History.{History}
use lanrunner.Guest.Session.{GuestSession, Envelope, allow, push}
use lanrunner.Guest.Hub.{GuestHub, Invite, tabs}
use lanrunner.Guest.Hub.Hello.{Request, Reply, guest_gate}
use lanrunner.Guest.Hub.Reach.Ordered.{Ordered, change-Ordered}
use lanrunner.Guest.Hub.Sessions.{session}
use lanrunner.Guest.Hub.Sessions.Listed.{session-Ordered, drop_session-Ordered}
use lanrunner.Guest.Hub.Frames.{
  GuestFrameIn, GuestPayload, Opened, stopped, opened, store_session, check_fresh, check_text,
  check_session, check_body, read_frame, echo, acknowledge, seen_now, spread, accept_body,
  send_opened, send_gated, handle_send, typing_opened, typing_gated, handle_typing, bye_found,
  bye_gated, handle_bye,
}

module _ (decode : Text → Option (List ℕ)) (gcm_open : Text → List ℕ → List ℕ → Option Text)
    (parse : Text → Option GuestPayload) (can_seal : GuestSession → Bool) where
  check_fresh-Ordered :
      (h : GuestHub) (s : GuestSession) (o : Option GuestPayload)
      → Ordered h
      → Ordered (check_fresh decode gcm_open parse can_seal h s o).0
  unfolding check_fresh store_session
  check_fresh-Ordered h s none ordered = ordered
  check_fresh-Ordered h s (some p) ordered = ordered

  check_text-Ordered :
      (h : GuestHub) (s : GuestSession) (o : Option Text)
      → Ordered h
      → Ordered (check_text decode gcm_open parse can_seal h s o).0
  unfolding check_text
  check_text-Ordered h s none ordered = ordered
  check_text-Ordered h s (some pt) ordered = check_fresh-Ordered h s (parse pt) ordered

  check_session-Ordered :
      (h : GuestHub) (b : GuestFrameIn) (o : Option GuestSession)
      → Ordered h
      → Ordered (check_session decode gcm_open parse can_seal h b o).0
  unfolding check_session
  check_session-Ordered h b none ordered = ordered
  check_session-Ordered h b (some s) ordered = check_text-Ordered h s _ ordered

  check_body-Ordered :
      (h : GuestHub) (body : Option GuestFrameIn) (now : ℕ)
      → Ordered h
      → Ordered (check_body decode gcm_open parse can_seal h body now).0
  unfolding check_body
  check_body-Ordered h none now ordered = ordered
  check_body-Ordered h (some b) now ordered =
      check_session-Ordered (session h b.id b.sid now).0 b (session h b.id b.sid now).1
        (session-Ordered h b.id b.sid now ordered)

  read_frame-Ordered :
      (h : GuestHub) (r : Request) (body : Option GuestFrameIn) (now : ℕ)
      → Ordered h
      → Ordered (read_frame decode gcm_open parse can_seal h r body now).0
  unfolding read_frame
  read_frame-Ordered h r body now ordered = elim (Bool-cases r.post) [
    | inr p ↦ rw p ordered
    | inl p ↦ rw p (check_body-Ordered h body now ordered)
  ]

  echo-Ordered :
      (e : Envelope) (sid : Text) (sids : List Text) (h : GuestHub)
      → Ordered h
      → Ordered (echo decode gcm_open parse can_seal e sid sids h)
  unfolding echo
  echo-Ordered e sid [] h ordered = ordered
  echo-Ordered e sid (other ∷ sids) h ordered = elim (Option-cases (lookup other h.sessions)) [
    | inl n ↦ rw (n, echo) (echo-Ordered e sid sids h ordered)
    | inr (o, n) ↦ elim (Bool-cases (same other sid || not (can_seal o))) [
      | inl s ↦ rw (n, echo, s) (echo-Ordered e sid sids h ordered)
      | inr s ↦
          rw (n, echo, s)
            (echo-Ordered e sid sids (record h { sessions = insert other (push o e) h.sessions })
              ordered)
    ]
  ]

  acknowledge-Ordered :
      (sid mid : Text) (h : GuestHub) (o : Option GuestSession)
      → Ordered h
      → Ordered (acknowledge decode gcm_open parse can_seal sid mid o h)
  unfolding acknowledge
  acknowledge-Ordered sid mid h none ordered = ordered
  acknowledge-Ordered sid mid h (some s) ordered = elim (Bool-cases (can_seal s)) [
    | inr b ↦ rw b ordered
    | inl b ↦ rw b ordered
  ]

  seen_now-Ordered :
      (id nick : Text) (now_ms : ℕ) (h : GuestHub) (o : Option Invite)
      → lookup id h.invites ≡ o
      → Ordered h
      → Ordered (seen_now decode gcm_open parse can_seal id nick now_ms o h)
  unfolding seen_now
  seen_now-Ordered id nick now_ms h none e ordered = ordered
  seen_now-Ordered id nick now_ms h (some inv) e ordered =
      change-Ordered h.invites h.order id (record inv { last_seen = now_ms; last_nick = nick }) inv
        e ordered

  accept_body-Ordered :
      (h : GuestHub) (hist : History) (s : GuestSession) (body mid : Text) (now_ms : ℕ)
      → Ordered h
      → Ordered (accept_body decode gcm_open parse can_seal h hist s body mid now_ms).hub
  unfolding accept_body spread
  accept_body-Ordered h hist s body mid now_ms ordered = elim (Bool-cases (same body [])) [
    | inl b ↦ rw b ordered
    | inr b ↦ rw b (
        seen_now-Ordered s.invite s.nick now_ms _ _ refl
          (acknowledge-Ordered s.sid mid _ _ (echo-Ordered _ s.sid (tabs h s.invite) h ordered)))
  ]

  send_opened-Ordered :
      (o : GuestHub × Opened) (hist : History) (mid : Text) (now now_ms : ℕ)
      → Ordered o.0
      → Ordered (send_opened decode gcm_open parse can_seal o hist mid now now_ms).hub
  unfolding send_opened store_session
  send_opened-Ordered (h, stopped reply) hist mid now now_ms ordered = ordered
  send_opened-Ordered (h, opened s p) hist mid now now_ms ordered =
      elim (Bool-cases (allow s now).1) [
        | inr f ↦ rw f ordered
        | inl f ↦ rw f (
            accept_body-Ordered
              (record h { sessions = insert (allow s now).0.sid (allow s now).0 h.sessions }) hist
              (allow s now).0 _ mid now_ms ordered)
      ]

  send_gated-Ordered :
      (h : GuestHub) (hist : History) (r : Request) (body : Option GuestFrameIn) (mid : Text)
      (now now_ms : ℕ) (gate : Option Reply)
      → Ordered h
      → Ordered (send_gated decode gcm_open parse can_seal h hist r body mid now now_ms gate).hub
  unfolding send_gated
  send_gated-Ordered h hist r body mid now now_ms (some reply) ordered = ordered
  send_gated-Ordered h hist r body mid now now_ms none ordered =
      send_opened-Ordered (read_frame decode gcm_open parse can_seal h r body now) hist mid now
        now_ms (read_frame-Ordered h r body now ordered)

  pub handle_send-Ordered :
      (allowed : Text → Bool) (h : GuestHub) (hist : History) (r : Request)
      (body : Option GuestFrameIn) (mid : Text) (now now_ms : ℕ)
      → Ordered h
      → Ordered
          (handle_send decode gcm_open parse can_seal allowed h hist r body mid now now_ms).hub
  unfolding handle_send
  handle_send-Ordered allowed h hist r body mid now now_ms =
      send_gated-Ordered h hist r body mid now now_ms (guest_gate allowed h r now)

  typing_opened-Ordered :
      (o : GuestHub × Opened)
      → Ordered o.0
      → Ordered (typing_opened decode gcm_open parse can_seal o).0
  unfolding typing_opened
  typing_opened-Ordered (h, stopped reply) ordered = ordered
  typing_opened-Ordered (h, opened s p) ordered = ordered

  typing_gated-Ordered :
      (h : GuestHub) (r : Request) (body : Option GuestFrameIn) (now : ℕ) (gate : Option Reply)
      → Ordered h
      → Ordered (typing_gated decode gcm_open parse can_seal h r body now gate).0
  unfolding typing_gated
  typing_gated-Ordered h r body now (some reply) ordered = ordered
  typing_gated-Ordered h r body now none ordered =
      typing_opened-Ordered (read_frame decode gcm_open parse can_seal h r body now)
        (read_frame-Ordered h r body now ordered)

  pub handle_typing-Ordered :
      (allowed : Text → Bool) (h : GuestHub) (r : Request) (body : Option GuestFrameIn) (now : ℕ)
      → Ordered h
      → Ordered (handle_typing decode gcm_open parse can_seal allowed h r body now).0
  unfolding handle_typing
  handle_typing-Ordered allowed h r body now =
      typing_gated-Ordered h r body now (guest_gate allowed h r now)

bye_found-Ordered :
    (h : GuestHub) (o : Option GuestSession) → Ordered h → Ordered (bye_found (h, o))
unfolding bye_found
bye_found-Ordered h none ordered = ordered
bye_found-Ordered h (some s) ordered = drop_session-Ordered h s.sid _ ordered

bye_gated-Ordered :
    (h : GuestHub) (body : Option GuestFrameIn) (now : ℕ) (gate : Option Reply)
    → Ordered h
    → Ordered (bye_gated h body now gate).0
unfolding bye_gated
bye_gated-Ordered h none now (some reply) ordered = ordered
bye_gated-Ordered h (some b) now (some reply) ordered = ordered
bye_gated-Ordered h none now none ordered = ordered
bye_gated-Ordered h (some b) now none ordered =
    bye_found-Ordered (session h b.id b.sid now).0 (session h b.id b.sid now).1
      (session-Ordered h b.id b.sid now ordered)

pub handle_bye-Ordered :
    (allowed : Text → Bool) (h : GuestHub) (r : Request) (body : Option GuestFrameIn) (now : ℕ)
    → Ordered h
    → Ordered (handle_bye allowed h r body now).0
unfolding handle_bye
handle_bye-Ordered allowed h r body now = bye_gated-Ordered h body now (guest_gate allowed h r now)
