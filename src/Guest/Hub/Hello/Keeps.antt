-- ===== src/Guest/Hub/Hello/Keeps.antt =====
-- A handshake keeps the hub sound.
use lanrunner.Common.{
  ℕ, ◌≡◌, refl, Bool, true, false, none, some, Option, [], not, ◌==◌, Text, same, inl, inr,
  Bool-cases,
}
use lanrunner.Common.Dict.{lookup}
use lanrunner.Guest.Throttle.{good}
use lanrunner.Guest.Hub.{GuestHub, Invite}
use lanrunner.Guest.Hub.Invites.{invite_for}
use lanrunner.Guest.Hub.Invites.Keeps.{invite_for-revoked}
use lanrunner.Guest.Hub.Sessions.Keeps.{Sound, register-Sound}
use lanrunner.Guest.Hub.Hello.{
  Request, GuestHelloIn, Agreement, agreed, refused, guest_proto_version, new_session, join, keyed,
  open_tab, admit, greet, after_gate, guest_gate, handle_hello, Reply,
}

module _ (sid : Text) (now now_ms : ℕ) where
  join-Sound :
      (h : GuestHub) (inv : Invite) (remote nick : Text) (enc : Bool)
      → lookup sid h.sessions ≡ none
      → inv.revoked ≡ false
      → Sound h
      → Sound (join h inv sid remote nick enc now now_ms).0
  unfolding join new_session
  join-Sound h inv remote nick enc new fresh =
      register-Sound h inv (new_session inv sid remote nick enc now) now now_ms new refl fresh

  keyed-Sound :
      (h : GuestHub) (inv : Invite) (remote nick : Text) (a : Agreement)
      → lookup sid h.sessions ≡ none
      → inv.revoked ≡ false
      → Sound h
      → Sound (keyed h inv sid remote nick now now_ms a).0
  unfolding keyed
  keyed-Sound h inv remote nick agreed new fresh sound =
      join-Sound h inv remote nick true new fresh sound
  keyed-Sound h inv remote nick (refused code) new fresh sound = sound

  module _ (allowed : Text → Bool) (agree : Text → Invite → Text → Agreement) where
    open_tab-Sound :
        (h : GuestHub) (remote : Text) (b : GuestHelloIn) (inv : Invite)
        → lookup sid h.sessions ≡ none
        → inv.revoked ≡ false
        → Sound h
        → Sound (open_tab allowed agree h remote b inv sid now now_ms).0
    unfolding open_tab
    open_tab-Sound h remote b inv new fresh sound = elim (Bool-cases (b.v == guest_proto_version)) [
      | inr v ↦ rw v sound
      | inl v ↦ elim (Bool-cases (same b.xk [])) [
        | inr k ↦ rw (v, k) (keyed-Sound h inv remote b.nick (agree b.xk inv sid) new fresh sound)
        | inl k ↦ elim (Bool-cases (not inv.allow_plain)) [
          | inl p ↦ rw (v, k, p) sound
          | inr p ↦ rw (v, k, p) (join-Sound h inv remote b.nick false new fresh sound)
        ]
      ]
    ]

    admit-Sound :
        (h : GuestHub) (remote : Text) (b : GuestHelloIn) (o : Option Invite)
        → invite_for h b.id b.token now_ms ≡ o
        → lookup sid h.sessions ≡ none
        → Sound h
        → Sound (admit allowed agree h remote b o sid now now_ms).0
    unfolding admit
    admit-Sound h remote b none e new sound = sound
    admit-Sound h remote b (some inv) e new sound =
        open_tab-Sound (record h { throttle = good h.throttle remote }) remote b inv new
          (invite_for-revoked h b.id b.token now_ms inv e) sound

    greet-Sound :
        (h : GuestHub) (r : Request) (body : Option GuestHelloIn)
        → lookup sid h.sessions ≡ none
        → Sound h
        → Sound (greet allowed agree h r body sid now now_ms).0
    unfolding greet
    greet-Sound h r none new sound = sound
    greet-Sound h r (some b) new sound =
        admit-Sound h r.remote b (invite_for h b.id b.token now_ms) refl new sound

    after_gate-Sound :
        (h : GuestHub) (r : Request) (body : Option GuestHelloIn) (o : Option Reply)
        → lookup sid h.sessions ≡ none
        → Sound h
        → Sound (after_gate allowed agree h r body sid now now_ms o).0
    unfolding after_gate
    after_gate-Sound h r body (some reply) new sound = sound
    after_gate-Sound h r body none new sound = elim (Bool-cases r.post) [
      | inr p ↦ rw p sound
      | inl p ↦ rw p (greet-Sound h r body new sound)
    ]

    pub handle_hello-Sound :
        (h : GuestHub) (r : Request) (body : Option GuestHelloIn)
        → lookup sid h.sessions ≡ none
        → Sound h
        → Sound (handle_hello allowed agree h r body sid now now_ms).0
    unfolding handle_hello
    handle_hello-Sound h r body = after_gate-Sound h r body (guest_gate allowed h r now)
