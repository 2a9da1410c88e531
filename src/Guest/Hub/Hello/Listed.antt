-- ===== src/Guest/Hub/Hello/Listed.antt =====
-- A handshake keeps every invite in the order.
use lanrunner.Common.{
  ℕ, ◌≡◌, refl, ap, ◌∙◌, Bool, true, false, none, some, Option, [], not, ◌==◌, Text, same, inl, inr,
  Bool-cases,
}
use lanrunner.Common.Dict.{lookup}
use lanrunner.Guest.Throttle.{good}
use lanrunner.Guest.Hub.{GuestHub, Invite}
use lanrunner.Guest.Hub.Invites.{invite_for}
use lanrunner.Guest.Hub.Reach.Ordered.{Ordered}
use lanrunner.Guest.Hub.Sessions.Listed.{register-Ordered}
use lanrunner.Guest.Hub.Invites.Named.{invite_for-Named}
use lanrunner.Guest.Hub.Hello.{
  Request, GuestHelloIn, Agreement, agreed, refused, guest_proto_version, new_session, join, keyed,
  open_tab, admit, greet, after_gate, guest_gate, handle_hello, Reply,
}

module _ (sid : Text) (now now_ms : ℕ) where
  join-Ordered :
      (h : GuestHub) (inv : Invite) (remote nick : Text) (enc : Bool)
      → lookup inv.id h.invites ≡ some inv
      → Ordered h
      → Ordered (join h inv sid remote nick enc now now_ms).0
  unfolding join new_session
  join-Ordered h inv remote nick enc there =
      register-Ordered h inv (new_session inv sid remote nick enc now) now now_ms there

  keyed-Ordered :
      (h : GuestHub) (inv : Invite) (remote nick : Text) (a : Agreement)
      → lookup inv.id h.invites ≡ some inv
      → Ordered h
      → Ordered (keyed h inv sid remote nick now now_ms a).0
  unfolding keyed
  keyed-Ordered h inv remote nick agreed there ordered =
      join-Ordered h inv remote nick true there ordered
  keyed-Ordered h inv remote nick (refused code) there ordered = ordered

  module _ (allowed : Text → Bool) (agree : Text → Invite → Text → Agreement) where
    open_tab-Ordered :
        (h : GuestHub) (remote : Text) (b : GuestHelloIn) (inv : Invite)
        → lookup inv.id h.invites ≡ some inv
        → Ordered h
        → Ordered (open_tab allowed agree h remote b inv sid now now_ms).0
    unfolding open_tab
    open_tab-Ordered h remote b inv there ordered = elim (Bool-cases (b.v == guest_proto_version)) [
      | inr v ↦ rw v ordered
      | inl v ↦ elim (Bool-cases (same b.xk [])) [
        | inr k ↦ rw (v, k) (keyed-Ordered h inv remote b.nick (agree b.xk inv sid) there ordered)
        | inl k ↦ elim (Bool-cases (not inv.allow_plain)) [
          | inl p ↦ rw (v, k, p) ordered
          | inr p ↦ rw (v, k, p) (join-Ordered h inv remote b.nick false there ordered)
        ]
      ]
    ]

    admit-Ordered :
        (h : GuestHub) (remote : Text) (b : GuestHelloIn) (o : Option Invite)
        → invite_for h b.id b.token now_ms ≡ o
        → ((id : Text) (i : Invite) → lookup id h.invites ≡ some i → i.id ≡ id)
        → Ordered h
        → Ordered (admit allowed agree h remote b o sid now now_ms).0
    unfolding admit
    admit-Ordered h remote b none e own ordered = ordered
    admit-Ordered h remote b (some inv) e own ordered =
        open_tab-Ordered (record h { throttle = good h.throttle remote }) remote b inv
          (let at = (invite_for-Named h b.id b.token now_ms inv e).0 in
            ap (λ k. lookup k h.invites) (own b.id inv at) ∙ at)
          ordered

    greet-Ordered :
        (h : GuestHub) (r : Request) (body : Option GuestHelloIn)
        → ((id : Text) (i : Invite) → lookup id h.invites ≡ some i → i.id ≡ id)
        → Ordered h
        → Ordered (greet allowed agree h r body sid now now_ms).0
    unfolding greet
    greet-Ordered h r none own ordered = ordered
    greet-Ordered h r (some b) own ordered =
        admit-Ordered h r.remote b (invite_for h b.id b.token now_ms) refl own ordered

    after_gate-Ordered :
        (h : GuestHub) (r : Request) (body : Option GuestHelloIn) (o : Option Reply)
        → ((id : Text) (i : Invite) → lookup id h.invites ≡ some i → i.id ≡ id)
        → Ordered h
        → Ordered (after_gate allowed agree h r body sid now now_ms o).0
    unfolding after_gate
    after_gate-Ordered h r body (some reply) own ordered = ordered
    after_gate-Ordered h r body none own ordered = elim (Bool-cases r.post) [
      | inr p ↦ rw p ordered
      | inl p ↦ rw p (greet-Ordered h r body own ordered)
    ]

    pub handle_hello-Ordered :
        (h : GuestHub) (r : Request) (body : Option GuestHelloIn)
        → ((id : Text) (i : Invite) → lookup id h.invites ≡ some i → i.id ≡ id)
        → Ordered h
        → Ordered (handle_hello allowed agree h r body sid now now_ms).0
    unfolding handle_hello
    handle_hello-Ordered h r body = after_gate-Ordered h r body (guest_gate allowed h r now)
