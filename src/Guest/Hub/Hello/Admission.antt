-- ===== src/Guest/Hub/Hello/Admission.antt =====
-- Who gets a session.
use lanrunner.Common.{
  ℕ, ◌≡◌, refl, sym, ap, ◌∙◌, Bool, true, false, [], Option, none, some, not, ◌==◌, Text, same,
  arith, inl, inr, ◌⊎◌, Bool-cases, Option-cases,
}
use lanrunner.Common.Dict.{lookup}
use lanrunner.Guest.Session.{GuestSession}
use lanrunner.Guest.Throttle.{blocked, good}
use lanrunner.Guest.Hub.Sessions.Opened.{Opened, register-Opened}
use lanrunner.Guest.Hub.Invites.Named.{Named, invite_for-Named}
use lanrunner.Guest.Hub.{GuestHub, Invite}
use lanrunner.Guest.Hub.Invites.{invite_for}
use lanrunner.Guest.Hub.Hello.{
  Request, Reply, no_content, failed, retry_after, welcome, guest_gate, waiting, GuestHelloIn,
  Agreement, agreed, refused, new_session, join, keyed, open_tab, admit, greet, after_gate,
  handle_hello, guest_proto_version,
}

-- The sessions and the invites of two hubs are the same.
abbrev pub Untouched : GuestHub → GuestHub → Type 0
Untouched h h' =
    (h'.sessions ≡ h.sessions) × (h'.by_invite ≡ h.by_invite) × (h'.invites ≡ h.invites)

module _ (allowed : Text → Bool) (agree : Text → Invite → Text → Agreement) where
  -- What a session in the making stands on.
  abbrev pub Entitled : Text → GuestHelloIn → Invite → Bool → Type 0
  Entitled sid b inv enc =
      (b.v ≡ guest_proto_version)
      × (((enc ≡ true) × (agree b.xk inv sid ≡ agreed))
          ⊎ ((enc ≡ false) × (inv.allow_plain ≡ true)))

  -- The table has the tab that was asked for, as the answer describes it, and no other new one.
  abbrev pub TabOf : GuestHub → Invite → Text → Text → Bool → GuestHub → Type 0
  TabOf h inv sid remote enc h' =
      (tab : GuestSession) × (tab.sid ≡ sid)
      × (tab.invite ≡ inv.id)
      × (tab.remote ≡ remote)
      × (tab.enc ≡ enc)
      × Opened h tab h'

  abbrev pub Outcome :
      GuestHub → Request → Option GuestHelloIn → Text → ℕ → ℕ → GuestHub × Reply → Type 0
  Outcome h r body sid now now_ms (h', no_content) = Untouched h h'
  Outcome h r body sid now now_ms (h', failed code) = Untouched h h'
  Outcome h r body sid now now_ms (h', retry_after wait) = Untouched h h'
  Outcome h r body sid now now_ms (h', welcome s enc) =
      (allowed r.remote ≡ true)
      × (blocked h.throttle r.remote now ≡ none)
      × (s ≡ sid)
      × ((b : GuestHelloIn) × (inv : Invite) × (body ≡ some b)
          × Named h b.id b.token now_ms inv
          × Entitled sid b inv enc
          × TabOf h inv sid r.remote enc h')

  module _ (h : GuestHub) (r : Request) (body : Option GuestHelloIn) (sid : Text) (now now_ms : ℕ)
      (new : lookup sid h.sessions ≡ none) where
    join-TabOf :
        (h' : GuestHub) (inv : Invite) (nick : Text) (enc : Bool)
        → h'.sessions ≡ h.sessions
        → TabOf h inv sid r.remote enc (join h' inv sid r.remote nick enc now now_ms).0
    unfolding join new_session
    join-TabOf h' inv nick enc kept =
        let tab = new_session inv sid r.remote nick enc now in
        let (there, before) = register-Opened h' inv tab now now_ms (ap (lookup sid) kept ∙ new) in
        (
          tab,
          refl,
          refl,
          refl,
          refl,
          (there, λ k t off held. ap (lookup k) (sym kept) ∙ before k t off held),
        )

    keyed-Outcome :
        (h' : GuestHub) (b : GuestHelloIn) (inv : Invite) (a : Agreement)
        → Untouched h h'
        → allowed r.remote ≡ true
        → blocked h.throttle r.remote now ≡ none
        → body ≡ some b
        → Named h b.id b.token now_ms inv
        → b.v ≡ guest_proto_version
        → agree b.xk inv sid ≡ a
        → Outcome h r body sid now now_ms (keyed h' inv sid r.remote b.nick now now_ms a)
    unfolding keyed
    keyed-Outcome h' b inv agreed u al bl eb ei ev ea =
        unfold join in
        (al, bl, refl, (b, inv, eb, ei, (ev, inl (refl, ea)), join-TabOf h' inv b.nick true u.0))
    keyed-Outcome h' b inv (refused code) u al bl eb ei ev ea = u

    open_tab-Outcome :
        (h' : GuestHub) (b : GuestHelloIn) (inv : Invite)
        → Untouched h h'
        → allowed r.remote ≡ true
        → blocked h.throttle r.remote now ≡ none
        → body ≡ some b
        → Named h b.id b.token now_ms inv
        → Outcome h r body sid now now_ms (open_tab allowed agree h' r.remote b inv sid now now_ms)
    unfolding open_tab
    open_tab-Outcome h' b inv u al bl eb ei = elim (Bool-cases (b.v == guest_proto_version)) [
      | inr v ↦ rw v u
      | inl v ↦ elim (Bool-cases (same b.xk [])) [
        | inr k ↦
            rw (v, k)
              (keyed-Outcome h' b inv (agree b.xk inv sid) u al bl eb ei (ground arith) refl)
        | inl k ↦ elim (Bool-cases inv.allow_plain) [
          | inr p ↦ rw (v, k, p) u
          | inl p ↦
              let np : not inv.allow_plain ≡ false = ap not p in
              rw (v, k, np, join)
                (
                  al,
                  bl,
                  refl,
                  (
                    b,
                    inv,
                    eb,
                    ei,
                    (ground arith, inr (refl, p)),
                    join-TabOf h' inv b.nick false u.0,
                  ),
                )
        ]
      ]
    ]

    admit-Outcome :
        (b : GuestHelloIn) (o : Option Invite)
        → allowed r.remote ≡ true
        → blocked h.throttle r.remote now ≡ none
        → body ≡ some b
        → invite_for h b.id b.token now_ms ≡ o
        → Outcome h r body sid now now_ms (admit allowed agree h r.remote b o sid now now_ms)
    unfolding admit
    admit-Outcome b none al bl eb ei = (refl, refl, refl)
    admit-Outcome b (some inv) al bl eb ei =
        open_tab-Outcome (record h { throttle = good h.throttle r.remote }) b inv (refl, refl, refl)
          al bl eb (invite_for-Named h b.id b.token now_ms inv ei)

    greet-Outcome :
        (o : Option GuestHelloIn)
        → allowed r.remote ≡ true
        → blocked h.throttle r.remote now ≡ none
        → body ≡ o
        → Outcome h r body sid now now_ms (greet allowed agree h r o sid now now_ms)
    unfolding greet
    greet-Outcome none al bl eb = (refl, refl, refl)
    greet-Outcome (some b) al bl eb =
        admit-Outcome b (invite_for h b.id b.token now_ms) al bl eb refl

    -- Where the random session id is new, a session is opened only for a request that comes from an
    -- allowed address that serves no timeout and names an invite that is there, with its token, neither
    -- revoked nor run out, and the version of this host, and under a key that was agreed on unless the
    -- invite allows plaintext; the session that then stands in the table is the one that the answer
    -- describes, for that invite and address, and no other is new. Any other answer leaves the sessions
    -- and the invites as they were.
    pub handle_hello-Outcome :
        Outcome h r body sid now now_ms (handle_hello allowed agree h r body sid now now_ms)
    unfolding handle_hello after_gate guest_gate waiting
    handle_hello-Outcome = elim (Bool-cases r.options) [
      | inl o ↦ rw o (refl, refl, refl)
      | inr o ↦ elim (Bool-cases (allowed r.remote)) [
        | inr a ↦ rw (o, a) (refl, refl, refl)
        | inl a ↦ elim (Option-cases (blocked h.throttle r.remote now)) [
          | inr (w, b) ↦ rw (o, a, b) (refl, refl, refl)
          | inl b ↦ elim (Bool-cases r.post) [
            | inr p ↦ rw (o, a, b, p) (refl, refl, refl)
            | inl p ↦ rw (o, a, b, p) (greet-Outcome body a b refl)
          ]
        ]
      ]
    ]
