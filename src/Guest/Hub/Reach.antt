-- ===== src/Guest/Hub/Reach.antt =====
-- The gateway as a transition system (guest.go): a step is one operation of the hub, run as a whole,
-- and a run is any sequence of steps from the hub that the invite file gives, so calls of operators,
-- guests and the reaper follow each other in any order and at any times. The random ids, codes and
-- tokens, the clock, the file system and the cryptography are arguments. A session id that `handleHello`
-- draws is new. The source gives the mutex back inside some operations; interleavings there are not steps.
pub mod Ordered
pub mod Restart
use lanrunner.Common.{
  ℕ, ◌≡◌, refl, Bool, List, [], ◌∷◌, ◌||◌, Option, none, some, none-ne-some, Text, same, inl, inr,
  Bool-cases, ◌∙◌, ap, sym,
}
use lanrunner.Common.Dict.{insert, lookup, insert_cases}
use lanrunner.History.{History}
use lanrunner.Guest.Session.{GuestSession, Envelope}
use lanrunner.Guest.Session.Stream.{Stream, open_stream, turn, keepalive}
use lanrunner.Guest.Session.Stream.Identity.{open_stream-SameTab, turn-SameTab, keepalive-SameTab}
use lanrunner.Guest.Throttle.{sweep}
use lanrunner.Guest.Hub.{GuestHub, Invite, load_one, load_from, new_guest_hub, empty_hub, tabs}
use lanrunner.Guest.Hub.Sessions.{member, session, deliver, reap_idle, close}
use lanrunner.Guest.Hub.Sessions.Deliver.{deliver-Sound}
use lanrunner.Guest.Hub.Sessions.Keeps.{
  Sound, replace-Sound, session-Sound, reap_idle-Sound, close-Sound,
}
use lanrunner.Guest.Hub.Invites.{create, revoke, remove_invite, regenerate, sweep_expired, resume}
use lanrunner.Guest.Hub.Invites.Keeps.{
  create-Sound, revoke-Sound, remove_invite-Sound, regenerate-Sound, sweep_expired-Sound,
  resume-Sound,
}
use lanrunner.Guest.Hub.Handoff.{new_handoff, redeem_handoff}
use lanrunner.Guest.Hub.Handoff.Keeps.{new_handoff-Sound, redeem_handoff-Sound}
use lanrunner.Guest.Hub.Hello.{Request, GuestHelloIn, Agreement, handle_hello}
use lanrunner.Guest.Hub.Hello.Keeps.{handle_hello-Sound}
use lanrunner.Guest.Hub.Frames.{GuestFrameIn, GuestPayload, handle_send, handle_typing, handle_bye}
use lanrunner.Guest.Hub.Frames.Requests.{handle_send-Sound, handle_typing-Sound, handle_bye-Sound}

-- A hub without sessions.
abbrev NoSessions : GuestHub → Type 0
NoSessions h = (h.sessions ≡ []) × (h.by_invite ≡ [])

abbrev Ready : GuestHub → Type 0
Ready h = NoSessions h × Sound h

load_one-Ready : (inv : Invite) (h : GuestHub) → Ready h → Ready (load_one inv h)
unfolding load_one lookup
load_one-Ready inv h ((no_sessions, no_tabs), sound) =
    elim (Bool-cases (same inv.id [] || same inv.token [])) [
      | inl e ↦ rw e ((no_sessions, no_tabs), sound)
      | inr e ↦ rw e (
        (no_sessions, no_tabs),
        (
          sound.0,
          λ j t at. absurd (none-ne-some t (ap (lookup j) (sym no_sessions) ∙ at)),
          λ k i at. elim (insert_cases inv.id k inv i h.invites at) [
            | inl (k_id, v) ↦ ap (λ (u : Invite). u.id) (sym v) ∙ k_id
            | inr (d, k_in) ↦ sound.2 k i k_in
          ],
        ),
      )
    ]

load_from-Ready : (list : List Invite) (h : GuestHub) → Ready h → Ready (load_from list h)
unfolding load_from
load_from-Ready [] h ready = ready
load_from-Ready (inv ∷ list) h ready =
    load_from-Ready list (load_one inv h) (load_one-Ready inv h ready)

new_guest_hub-Sound : (file : List Invite) → Sound (new_guest_hub file)
unfolding new_guest_hub lookup member tabs
new_guest_hub-Sound file =
    (load_from-Ready file (record empty_hub { saved = file })
      (
        (refl, refl),
        (
          λ sid id. refl,
          λ j t at. absurd (none-ne-some t at),
          λ k i at. absurd (none-ne-some i at),
        ),
      )).1

module _ (decode : Text → Option (List ℕ)) (gcm_open : Text → List ℕ → List ℕ → Option Text)
    (parse : Text → Option GuestPayload) (can_seal : GuestSession → Bool) (allowed : Text → Bool)
    (agree : Text → Invite → Text → Agreement) where
  pub data HubStep : GuestHub → GuestHub → Type 0 where
    created :
        {h : GuestHub} (label folder : Text) (plain : Bool) (id token : Text) (now_ms ttl : ℕ)
        (listens writes : Bool)
        → HubStep h (create h label folder plain id token now_ms ttl listens writes).0
    revoked : {h : GuestHub} (id : Text) (now_ms : ℕ) → HubStep h (revoke h id now_ms).0
    removed : {h : GuestHub} (id : Text) (now_ms : ℕ) → HubStep h (remove_invite h id now_ms).0
    regenerated :
        {h : GuestHub} (id : Text) (listens writes : Bool)
        → HubStep h (regenerate h id listens writes).0
    resumed : {h : GuestHub} (now_ms : ℕ) (listens : Bool) → HubStep h (resume h now_ms listens)
    minted :
        {h : GuestHub} (invite code : Text) (now : ℕ) → HubStep h (new_handoff h invite code now).0
    redeemed :
        {h : GuestHub} (code : Text) (now now_ms : ℕ)
        → HubStep h (redeem_handoff h code now now_ms).0
    greeted :
        {h : GuestHub} (r : Request) (body : Option GuestHelloIn) (sid : Text) (now now_ms : ℕ)
        → lookup sid h.sessions ≡ none
        → HubStep h (handle_hello allowed agree h r body sid now now_ms).0
    sent :
        {h : GuestHub} (hist : History) (r : Request) (body : Option GuestFrameIn) (mid : Text)
        (now now_ms : ℕ)
        → HubStep h
            (handle_send decode gcm_open parse can_seal allowed h hist r body mid now now_ms).hub
    typed :
        {h : GuestHub} (r : Request) (body : Option GuestFrameIn) (now : ℕ)
        → HubStep h (handle_typing decode gcm_open parse can_seal allowed h r body now).0
    left :
        {h : GuestHub} (r : Request) (body : Option GuestFrameIn) (now : ℕ)
        → HubStep h (handle_bye allowed h r body now).0
    polled : {h : GuestHub} (id sid : Text) (now : ℕ) → HubStep h (session h id sid now).0
    delivered : {h : GuestHub} (id : Text) (e : Envelope) → HubStep h (deliver can_seal h id e).0
    -- A turn of a stream of the session `s`, which the hub holds.
    connected :
        {h : GuestHub} (sid : Text) (s : GuestSession) (hist : History) (now : ℕ)
        → lookup sid h.sessions ≡ some s
        → HubStep h (record h { sessions = insert sid (open_stream s hist now).0 h.sessions })
    turned :
        {h : GuestHub} (sid : Text) (s : GuestSession) (st : Stream) (up : Bool) (now : ℕ)
        → lookup sid h.sessions ≡ some s
        → HubStep h (record h { sessions = insert sid (turn s st up now).0 h.sessions })
    kept_alive :
        {h : GuestHub} (sid : Text) (s : GuestSession) (st : Stream) (up : Bool) (now : ℕ)
        → lookup sid h.sessions ≡ some s
        → HubStep h (record h { sessions = insert sid (keepalive s st up now).0 h.sessions })
    reaped : {h : GuestHub} (now now_ms : ℕ) → HubStep h (sweep_expired (reap_idle h now) now_ms)
    forgiven : {h : GuestHub} (now : ℕ) → HubStep h (record h { throttle = sweep h.throttle now })
    stopped : {h : GuestHub} → HubStep h (close h)
    -- From now on the invite file can, or cannot, be written.
    disk_turned : {h : GuestHub} (works : Bool) → HubStep h (record h { disk = works })

  pub data HubReach (h : GuestHub) : GuestHub → Type 0 where
    here : HubReach h h
    next : {g k : GuestHub} → HubReach h g → HubStep g k → HubReach h k

  step-Sound : (h k : GuestHub) → HubStep h k → Sound h → Sound k
  step-Sound h k (created label folder plain id token now_ms ttl listens writes) sound =
      create-Sound h label folder plain id token now_ms ttl listens writes sound
  step-Sound h k (revoked id now_ms) sound = revoke-Sound h id now_ms sound
  step-Sound h k (removed id now_ms) sound = remove_invite-Sound h id now_ms sound
  step-Sound h k (regenerated id listens writes) sound = regenerate-Sound h id listens writes sound
  step-Sound h k (resumed now_ms listens) sound = resume-Sound h now_ms listens sound
  step-Sound h k (minted invite code now) sound = new_handoff-Sound h invite code now sound
  step-Sound h k (redeemed code now now_ms) sound = redeem_handoff-Sound h code now now_ms sound
  step-Sound h k (greeted r body sid now now_ms new) sound =
      handle_hello-Sound sid now now_ms allowed agree h r body new sound
  step-Sound h k (sent hist r body mid now now_ms) sound =
      handle_send-Sound decode gcm_open parse can_seal allowed h hist r body mid now now_ms sound
  step-Sound h k (typed r body now) sound =
      handle_typing-Sound decode gcm_open parse can_seal allowed h r body now sound
  step-Sound h k (left r body now) sound = handle_bye-Sound allowed h r body now sound
  step-Sound h k (polled id sid now) sound = (session-Sound h id sid now sound).0
  step-Sound h k (delivered id e) sound = deliver-Sound can_seal h id e sound
  step-Sound h k (connected sid s hist now at) sound =
      let (a, b) = open_stream-SameTab s hist now in
      replace-Sound h sid s (open_stream s hist now).0 at a b sound
  step-Sound h k (turned sid s st up now at) sound =
      let (a, b) = turn-SameTab s st up now in
      replace-Sound h sid s (turn s st up now).0 at a b sound
  step-Sound h k (kept_alive sid s st up now at) sound =
      let (a, b) = keepalive-SameTab s st up now in
      replace-Sound h sid s (keepalive s st up now).0 at a b sound
  step-Sound h k (reaped now now_ms) sound =
      sweep_expired-Sound (reap_idle h now) now_ms (reap_idle-Sound h now sound)
  step-Sound h k (forgiven now) sound = sound
  step-Sound h k stopped sound = close-Sound h sound
  step-Sound h k (disk_turned works) sound = sound

  -- Whatever sequence of operations a gateway has run since it read its invite file, every session
  -- stands under its own id and belongs to an invite that is there and not revoked, every invite stands
  -- under its own id, and the map from invites to tabs lists exactly the open sessions.
  pub HubReach-Sound :
      (file : List Invite) (h : GuestHub) → HubReach (new_guest_hub file) h → Sound h
  HubReach-Sound file h here = new_guest_hub-Sound file
  HubReach-Sound file h (next {g} {k} run step) = step-Sound g k step (HubReach-Sound file g run)
