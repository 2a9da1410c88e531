-- ===== src/Guest/Hub/Frames/Requests.antt =====
-- The handlers of a guest's frames keep the hub sound.
use lanrunner.Common.{
  ℕ, ◌≡◌, ap, ◌∙◌, Bool, List, Option, none, some, Text, codes, inl, inr, Bool-cases, arith,
}
use lanrunner.Common.Dict.{lookup}
use lanrunner.History.{History}
use lanrunner.Guest.Session.{GuestSession, allow}
use lanrunner.Guest.Hub.{GuestHub}
use lanrunner.Guest.Hub.Hello.{Request, Reply, guest_gate}
use lanrunner.Guest.Hub.Sessions.{session}
use lanrunner.Guest.Hub.Sessions.Keeps.{Sound, store-Sound, session-Sound, drop_session-Sound}
use lanrunner.Guest.Hub.Frames.{
  GuestFrameIn, GuestPayload, Opened, stopped, opened, store_session, send_opened, send_gated,
  handle_send, read_frame, typing_opened, typing_gated, handle_typing, bye_found, bye_gated,
  handle_bye,
}
use lanrunner.Guest.Hub.Frames.Keeps.{Kept, read_frame-Kept, accept_body-Sound}

allow-same :
    (s : GuestSession) (now : ℕ)
    → ((allow s now).0.sid ≡ s.sid) × ((allow s now).0.invite ≡ s.invite)
unfolding allow
allow-same s now = ground arith

module _ (decode : Text → Option (List ℕ)) (gcm_open : Text → List ℕ → List ℕ → Option Text)
    (parse : Text → Option GuestPayload) (can_seal : GuestSession → Bool) where
  send_opened-Sound :
      (o : GuestHub × Opened) (hist : History) (mid : Text) (now now_ms : ℕ)
      → Kept o
      → Sound (send_opened decode gcm_open parse can_seal o hist mid now now_ms).hub
  unfolding send_opened store_session
  send_opened-Sound (h, stopped reply) hist mid now now_ms sound = sound
  send_opened-Sound (h, opened s p) hist mid now now_ms (sound, (t, at, same_sid, same_invite)) =
      let counted = (allow s now).0 in
      let (a, b) = allow-same s now in
      let stored =
        store-Sound h counted
          (t, ap (λ k. lookup k h.sessions) a ∙ at, a ∙ same_sid, b ∙ same_invite) sound in
      elim (Bool-cases (allow s now).1) [
        | inr f ↦ rw f stored
        | inl f ↦
            rw f
              (accept_body-Sound decode gcm_open parse can_seal _ hist counted _ mid now_ms stored)
      ]

  send_gated-Sound :
      (h : GuestHub) (hist : History) (r : Request) (body : Option GuestFrameIn) (mid : Text)
      (now now_ms : ℕ) (gate : Option Reply)
      → Sound h
      → Sound (send_gated decode gcm_open parse can_seal h hist r body mid now now_ms gate).hub
  unfolding send_gated
  send_gated-Sound h hist r body mid now now_ms (some reply) sound = sound
  send_gated-Sound h hist r body mid now now_ms none sound =
      send_opened-Sound (read_frame decode gcm_open parse can_seal h r body now) hist mid now now_ms
        (read_frame-Kept decode gcm_open parse can_seal h r body now sound)

  pub handle_send-Sound :
      (allowed : Text → Bool) (h : GuestHub) (hist : History) (r : Request)
      (body : Option GuestFrameIn) (mid : Text) (now now_ms : ℕ)
      → Sound h
      → Sound (handle_send decode gcm_open parse can_seal allowed h hist r body mid now now_ms).hub
  unfolding handle_send
  handle_send-Sound allowed h hist r body mid now now_ms =
      send_gated-Sound h hist r body mid now now_ms (guest_gate allowed h r now)

  typing_opened-Sound :
      (o : GuestHub × Opened) → Kept o → Sound (typing_opened decode gcm_open parse can_seal o).0
  unfolding typing_opened
  typing_opened-Sound (h, stopped reply) sound = sound
  typing_opened-Sound (h, opened s p) (sound, cur) = sound

  typing_gated-Sound :
      (h : GuestHub) (r : Request) (body : Option GuestFrameIn) (now : ℕ) (gate : Option Reply)
      → Sound h
      → Sound (typing_gated decode gcm_open parse can_seal h r body now gate).0
  unfolding typing_gated
  typing_gated-Sound h r body now (some reply) sound = sound
  typing_gated-Sound h r body now none sound =
      typing_opened-Sound (read_frame decode gcm_open parse can_seal h r body now)
        (read_frame-Kept decode gcm_open parse can_seal h r body now sound)

  pub handle_typing-Sound :
      (allowed : Text → Bool) (h : GuestHub) (r : Request) (body : Option GuestFrameIn) (now : ℕ)
      → Sound h
      → Sound (handle_typing decode gcm_open parse can_seal allowed h r body now).0
  unfolding handle_typing
  handle_typing-Sound allowed h r body now =
      typing_gated-Sound h r body now (guest_gate allowed h r now)

bye_found-Sound : (h : GuestHub) (o : Option GuestSession) → Sound h → Sound (bye_found (h, o))
unfolding bye_found
bye_found-Sound h none sound = sound
bye_found-Sound h (some s) sound = drop_session-Sound h s.sid (codes "guest closed the page") sound

bye_gated-Sound :
    (h : GuestHub) (body : Option GuestFrameIn) (now : ℕ) (gate : Option Reply)
    → Sound h
    → Sound (bye_gated h body now gate).0
unfolding bye_gated
bye_gated-Sound h none now (some reply) sound = sound
bye_gated-Sound h (some b) now (some reply) sound = sound
bye_gated-Sound h none now none sound = sound
bye_gated-Sound h (some b) now none sound =
    bye_found-Sound (session h b.id b.sid now).0 (session h b.id b.sid now).1
      (session-Sound h b.id b.sid now sound).0

pub handle_bye-Sound :
    (allowed : Text → Bool) (h : GuestHub) (r : Request) (body : Option GuestFrameIn) (now : ℕ)
    → Sound h
    → Sound (handle_bye allowed h r body now).0
unfolding handle_bye
handle_bye-Sound allowed h r body now = bye_gated-Sound h body now (guest_gate allowed h r now)
