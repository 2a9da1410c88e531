-- ===== src/Guest/Hub/Frames/Keeps.antt =====
-- The requests of a guest with a session keep the hub sound.
use lanrunner.Common.{
  ℕ, ◌≡◌, refl, sym, ap, ◌∙◌, Bool, List, [], ◌∷◌, Option, none, some, some-injective, not, ◌||◌,
  Text, same, same_iff, inl, inr, Bool-cases, Option-cases,
}
use lanrunner.Common.Dict.{Dict, lookup, insert, insert_cases, lookup-insert}
use lanrunner.Sanitize.{cut_body}
use lanrunner.History.{History}
use lanrunner.Guest.Session.{GuestSession, Envelope, fresh, push}
use lanrunner.Guest.Hub.{GuestHub, Invite, tabs}
use lanrunner.Guest.Hub.Hello.{Request}
use lanrunner.Guest.Hub.Sessions.{session}
use lanrunner.Guest.Hub.Sessions.Deliver.{push-Sound}
use lanrunner.Guest.Hub.Sessions.Keeps.{
  Sound, SoundAt, Current, AllCurrent, store-Sound, store-Current, session-Sound,
}
use lanrunner.Guest.Hub.Frames.{
  GuestFrameIn, GuestPayload, Opened, stopped, opened, store_session, check_fresh, check_text,
  check_session, check_body, read_frame, echo, acknowledge, seen_now, spread, accept_body,
}

-- The hub is sound, and a session that a frame was opened for is one that it holds.
abbrev pub Kept : GuestHub × Opened → Type 0
Kept (h, stopped reply) = Sound h
Kept (h, opened s p) = Sound h × Current h.sessions s

-- An invite that is there gets new notes on its guest.
update-Sound :
    (sessions : Dict GuestSession) (by : Dict (List Text)) (invites : Dict Invite) (id : Text)
    (inv inv' : Invite)
    → lookup id invites ≡ some inv
    → inv'.id ≡ inv.id
    → inv'.revoked ≡ inv.revoked
    → SoundAt sessions by invites
    → SoundAt sessions by (insert id inv' invites)
update-Sound sessions by invites id inv inv' at same_id same_mark (book, held, own) = (
  book,
  λ j t e.
      let (a, (old, l, r)) = held j t e in
      elim (Bool-cases (same id t.invite)) [
        | inl h ↦
            let still : inv ≡ old =
              some-injective inv old
                (sym at ∙ ap (λ k. lookup k invites) ((same_iff id t.invite).0 h) ∙ l) in
            (
              a,
              (
                inv',
                lookup-insert id t.invite inv' invites ∙ rw h refl,
                same_mark ∙ ap (λ (u : Invite). u.revoked) still ∙ r,
              ),
            )
        | inr h ↦ (a, (old, (lookup-insert id t.invite inv' invites ∙ rw h refl) ∙ l, r))
      ],
  λ k i e. elim (insert_cases id k inv' i invites e) [
    | inl (same_key, v) ↦ ap (λ (u : Invite). u.id) (sym v) ∙ same_id ∙ own id inv at ∙ same_key
    | inr (d, k_in) ↦ own k i k_in
  ],
)

module _ (decode : Text → Option (List ℕ)) (gcm_open : Text → List ℕ → List ℕ → Option Text)
    (parse : Text → Option GuestPayload) (can_seal : GuestSession → Bool) where
  check_fresh-Kept :
      (h : GuestHub) (s : GuestSession) (o : Option GuestPayload)
      → Sound h
      → Current h.sessions s
      → Kept (check_fresh decode gcm_open parse can_seal h s o)
  unfolding check_fresh store_session fresh
  check_fresh-Kept h s none sound cur = sound
  check_fresh-Kept h s (some p) sound cur =
      let marked = (fresh s p.seq).0 in
      let stored = store-Sound h marked cur sound in
      elim (Bool-cases (fresh s p.seq).1) [
        | inl f ↦ rw f (stored, store-Current h.sessions marked)
        | inr f ↦ rw f stored
      ]

  check_text-Kept :
      (h : GuestHub) (s : GuestSession) (o : Option Text)
      → Sound h
      → Current h.sessions s
      → Kept (check_text decode gcm_open parse can_seal h s o)
  unfolding check_text
  check_text-Kept h s none sound cur = sound
  check_text-Kept h s (some pt) sound cur = check_fresh-Kept h s (parse pt) sound cur

  check_session-Kept :
      (h : GuestHub) (b : GuestFrameIn) (o : Option GuestSession)
      → Sound h
      → AllCurrent h.sessions o
      → Kept (check_session decode gcm_open parse can_seal h b o)
  unfolding check_session
  check_session-Kept h b none sound cur = sound
  check_session-Kept h b (some s) sound cur = check_text-Kept h s _ sound cur

  check_body-Kept :
      (h : GuestHub) (body : Option GuestFrameIn) (now : ℕ)
      → Sound h
      → Kept (check_body decode gcm_open parse can_seal h body now)
  unfolding check_body
  check_body-Kept h none now sound = sound
  check_body-Kept h (some b) now sound =
      let (kept, cur) = session-Sound h b.id b.sid now sound in
      check_session-Kept (session h b.id b.sid now).0 b (session h b.id b.sid now).1 kept cur

  pub read_frame-Kept :
      (h : GuestHub) (r : Request) (body : Option GuestFrameIn) (now : ℕ)
      → Sound h
      → Kept (read_frame decode gcm_open parse can_seal h r body now)
  unfolding read_frame
  read_frame-Kept h r body now sound = elim (Bool-cases r.post) [
    | inr p ↦ rw p sound
    | inl p ↦ rw p (check_body-Kept h body now sound)
  ]

  echo-Sound :
      (e : Envelope) (sid : Text) (sids : List Text) (h : GuestHub)
      → Sound h
      → Sound (echo decode gcm_open parse can_seal e sid sids h)
  unfolding echo
  echo-Sound e sid [] h sound = sound
  echo-Sound e sid (other ∷ sids) h sound = elim (Option-cases (lookup other h.sessions)) [
    | inl n ↦ rw (n, echo) (echo-Sound e sid sids h sound)
    | inr (o, n) ↦ elim (Bool-cases (same other sid || not (can_seal o))) [
      | inl s ↦ rw (n, echo, s) (echo-Sound e sid sids h sound)
      | inr s ↦
          rw (n, echo, s)
            (echo-Sound e sid sids (record h { sessions = insert other (push o e) h.sessions })
              (push-Sound h other o e n sound))
    ]
  ]

  acknowledge-Sound :
      (sid mid : Text) (h : GuestHub) (o : Option GuestSession)
      → lookup sid h.sessions ≡ o
      → Sound h
      → Sound (acknowledge decode gcm_open parse can_seal sid mid o h)
  unfolding acknowledge
  acknowledge-Sound sid mid h none e sound = sound
  acknowledge-Sound sid mid h (some s) e sound = elim (Bool-cases (can_seal s)) [
    | inr b ↦ rw b sound
    | inl b ↦ rw b (push-Sound h sid s _ e sound)
  ]

  seen_now-Sound :
      (id nick : Text) (now_ms : ℕ) (h : GuestHub) (o : Option Invite)
      → lookup id h.invites ≡ o
      → Sound h
      → Sound (seen_now decode gcm_open parse can_seal id nick now_ms o h)
  unfolding seen_now
  seen_now-Sound id nick now_ms h none e sound = sound
  seen_now-Sound id nick now_ms h (some inv) e sound =
      update-Sound h.sessions h.by_invite h.invites id inv
        (record inv { last_seen = now_ms; last_nick = nick }) e refl refl sound

  spread-Sound :
      (h : GuestHub) (s : GuestSession) (body mid : Text) (now_ms : ℕ)
      → Sound h
      → Sound (spread decode gcm_open parse can_seal h s body mid now_ms)
  unfolding spread
  spread-Sound h s body mid now_ms sound =
      seen_now-Sound s.invite s.nick now_ms _ _ refl
        (acknowledge-Sound s.sid mid _ _ refl (echo-Sound _ s.sid (tabs h s.invite) h sound))

  pub accept_body-Sound :
      (h : GuestHub) (hist : History) (s : GuestSession) (body mid : Text) (now_ms : ℕ)
      → Sound h
      → Sound (accept_body decode gcm_open parse can_seal h hist s body mid now_ms).hub
  unfolding accept_body
  accept_body-Sound h hist s body mid now_ms sound = elim (Bool-cases (same body [])) [
    | inl b ↦ rw b sound
    | inr b ↦ rw b (spread-Sound h s (cut_body body) mid now_ms sound)
  ]
