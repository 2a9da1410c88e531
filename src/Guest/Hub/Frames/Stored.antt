-- ===== src/Guest/Hub/Frames/Stored.antt =====
-- What a guest can put into the transcripts.
use lanrunner.Common.{
  ℕ, ◌≤◌, ◌≡◌, refl, ◌∙◌, Bool, false, List, [], Option, none, some, not, Text, same, same_iff,
  length, arith, inl, inr, ◌⊎◌, Bool-cases, Option-cases,
}
use lanrunner.Common.Dict.{lookup}
use lanrunner.Sanitize.{sanitize_body, is_control, max_body_runes}
use lanrunner.Sanitize.Clean.{Free, cut_body-Free}
use lanrunner.History.{HistEntry, History, append}
use lanrunner.Guest.Session.{GuestSession, allow, fresh, touch}
use lanrunner.Guest.Hub.{GuestHub}
use lanrunner.Guest.Hub.Hello.{Request, guest_gate}
use lanrunner.Guest.Hub.Sessions.{session, found_session}
use lanrunner.Guest.Hub.Frames.{
  GuestFrameIn, GuestPayload, Opened, stopped, opened, check_fresh, check_text, check_session,
  check_body, read_frame, entry, accept_body, send_opened, send_gated, handle_send,
}

-- Either nothing, or one clean entry of a conversation.
abbrev pub Adds : History → History → Text → Type 0
Adds hist hist' conv =
    (hist' ≡ hist)
    ⊎ ((e : HistEntry) × (hist' ≡ append hist e)
        × (e.conv ≡ conv)
        × (e.self ≡ false)
        × Free is_control e.body
        × (length e.body ≤ max_body_runes))

-- The session of a frame that was opened belongs to the invite that the frame names.
abbrev Of : Text → Opened → Type 0
Of id (stopped reply) = Unit {0}
Of id (opened s p) = s.invite ≡ id

allow-invite : (s : GuestSession) (now : ℕ) → (allow s now).0.invite ≡ s.invite
unfolding allow
allow-invite s now = ground arith

module _ (decode : Text → Option (List ℕ)) (gcm_open : Text → List ℕ → List ℕ → Option Text)
    (parse : Text → Option GuestPayload) (can_seal : GuestSession → Bool) where
  check_fresh-Of :
      (h : GuestHub) (s : GuestSession) (o : Option GuestPayload) (id : Text)
      → s.invite ≡ id
      → Of id (check_fresh decode gcm_open parse can_seal h s o).1
  unfolding check_fresh fresh
  check_fresh-Of h s none id e = tt
  check_fresh-Of h s (some p) id e = elim (Bool-cases (fresh s p.seq).1) [
    | inl f ↦ rw f e
    | inr f ↦ rw f tt
  ]

  check_text-Of :
      (h : GuestHub) (s : GuestSession) (o : Option Text) (id : Text)
      → s.invite ≡ id
      → Of id (check_text decode gcm_open parse can_seal h s o).1
  unfolding check_text
  check_text-Of h s none id e = tt
  check_text-Of h s (some pt) id e = check_fresh-Of h s (parse pt) id e

  check_found-Of :
      (h : GuestHub) (b : GuestFrameIn) (o : Option GuestSession) (now : ℕ)
      → Of b.id
          (check_session decode gcm_open parse can_seal
            (found_session h b.id b.sid now o).0
            b
            (found_session h b.id b.sid now o).1).1
  unfolding check_session found_session touch
  check_found-Of h b none now = tt
  check_found-Of h b (some s) now = elim (Bool-cases (same s.invite b.id)) [
    | inr f ↦ rw f tt
    | inl f ↦ rw f (check_text-Of _ (touch s now) _ b.id ((same_iff s.invite b.id).0 f))
  ]

  named : Option GuestFrameIn → Text
  named none = []
  named (some b) = b.id

  read_frame-Of :
      (h : GuestHub) (r : Request) (body : Option GuestFrameIn) (now : ℕ)
      → Of (named body) (read_frame decode gcm_open parse can_seal h r body now).1
  unfolding read_frame check_body session named
  read_frame-Of h r none now = elim (Bool-cases r.post) [ inl p ↦ rw p tt | inr p ↦ rw p tt ]
  read_frame-Of h r (some b) now = elim (Bool-cases r.post) [
    | inl p ↦ rw p (check_found-Of h b (lookup b.sid h.sessions) now)
    | inr p ↦ rw p tt
  ]

  accept_body-Adds :
      (h : GuestHub) (hist : History) (s : GuestSession) (text mid : Text) (now_ms : ℕ) (id : Text)
      → s.invite ≡ id
      → Adds hist
          (accept_body decode gcm_open parse can_seal h hist s
            (sanitize_body text).0
            mid
            now_ms).hist
          id
  unfolding accept_body entry
  accept_body-Adds h hist s text mid now_ms id e =
      elim (Bool-cases (same (sanitize_body text).0 [])) [
        | inl b ↦ rw b (inl refl)
        | inr b ↦ rw b (inr (_, refl, e, refl, (cut_body-Free text).0, (cut_body-Free text).1))
      ]

  send_opened-Adds :
      (o : GuestHub × Opened) (hist : History) (mid : Text) (now now_ms : ℕ) (id : Text)
      → Of id o.1
      → Adds hist (send_opened decode gcm_open parse can_seal o hist mid now now_ms).hist id
  unfolding send_opened allow
  send_opened-Adds (h, stopped reply) hist mid now now_ms id e = inl refl
  send_opened-Adds (h, opened s p) hist mid now now_ms id e =
      elim (Bool-cases (not (allow s now).1)) [
        | inl b ↦ rw b (inl refl)
        | inr b ↦
            rw b (
              accept_body-Adds _ hist (allow s now).0 p.body mid now_ms id (allow-invite s now ∙ e))
      ]

  -- A send request stores nothing, or one entry: in the conversation of the invite that its frame
  -- names, not as the operator's own, without control characters and of 2048 characters at most.
  pub handle_send-Adds :
      (allowed : Text → Bool) (h : GuestHub) (hist : History) (r : Request) (b : GuestFrameIn)
      (mid : Text) (now now_ms : ℕ)
      → Adds hist
          (handle_send decode gcm_open parse can_seal allowed h hist r (some b) mid now now_ms).hist
          b.id
  unfolding handle_send send_gated named
  handle_send-Adds allowed h hist r b mid now now_ms =
      elim (Option-cases (guest_gate allowed h r now)) [
        | inr (reply, g) ↦ rw g (inl refl)
        | inl g ↦ rw g (
            send_opened-Adds (read_frame decode gcm_open parse can_seal h r (some b) now) hist mid
              now now_ms b.id (read_frame-Of h r (some b) now))
      ]
