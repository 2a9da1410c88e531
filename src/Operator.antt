-- ===== src/Operator.antt =====
-- The requests of the operator's page (httpui.go). A body that does not decode is `none`; of the answer
-- its kind is kept. The ids, the time, `strconv.Atoi`, the listener and the file system are arguments.
-- Events for the page, log lines and `sendAnnounce` are left out.
pub mod Refusals
use lanrunner.Common.{
  ℕ, Bool, true, false, List, [], ◌∷◌, Option, none, some, not, ◌&&◌, leb, ltb, if◌then◌else◌, Text,
  codes, same,
}
use lanrunner.Sanitize.{sanitize_nick}
use lanrunner.History.{HistEntry, load, delete, valid_conversation_id}
use lanrunner.Trust.{set_verified}
use lanrunner.Guest.Session.{GuestSession}
use lanrunner.Guest.Hub.{GuestHub, Invite}
use lanrunner.Guest.Hub.Invites.{
  Created, created, too_many, no_server, no_folder, Refreshed, refreshed, unknown_invite,
  invite_revoked, server_failed, folder_failed, create, revoke, remove_invite, regenerate,
}
use lanrunner.Peers.{Conn}
use lanrunner.Chat.{App, Sent, send, send_typing}

pub data Answer : Type 0 where
  no_content answered : Answer
  failed : ℕ → Answer

pub touch_activity : App → ℕ → App
touch_activity a now = record a { active = now }

abbrev pub or_room : Text → Text
or_room conv = if same conv [] then codes "room" else conv

-- The test of the method and the decoding of the body, which all handlers of a `POST` begin with.
unfoldable pub posted : {B : Type 0} → App → Bool → Option B → (B → App × Answer) → App × Answer
posted a post none serve = (a, failed (if post then 400 else 405))
posted a post (some b) serve = if post then serve b else (a, failed 405)

module _ (can_seal : GuestSession → Bool) where
  pub handle_send : (Conn → Bool) → App → Bool → Option (Text × Text) → Text → ℕ → ℕ → App × Answer
  unfolding posted touch_activity
  handle_send up a post body mid now now_ms = posted a post body (λ (b : Text × Text).
      ((send can_seal up (touch_activity a now) (or_room b.0) b.1 mid now_ms).app, no_content))

  pub handle_typing : App → Bool → Option Text → ℕ → App × Answer
  unfolding posted touch_activity
  handle_typing a post body now =
      posted a post body
        (λ conv. ((send_typing can_seal (touch_activity a now) (or_room conv)).app, no_content))

unfoldable pub handle_nick : App → Bool → Option Text → ℕ → App × Answer
unfolding posted touch_activity
handle_nick a post body now = posted a post body (λ nick.
    if same (sanitize_nick nick) []
    then (a, failed 400)
    else (record (touch_activity a now) { nick = sanitize_nick nick }, no_content))

pub handle_verify : App → Bool → Option (Text × Bool) → ℕ → App × Answer
unfolding posted touch_activity
handle_verify a post body now = posted a post body (λ (b : Text × Bool).
    let (trust, known) = set_verified a.net.trust b.0 b.1 in
    if not known
    then (a, failed 404)
    else (record (touch_activity a now) { net = record a.net { trust = trust } }, no_content))

pub handle_clear_messages : App → Bool → Option Text → ℕ → App × Answer
unfolding posted touch_activity
handle_clear_messages a post body now = posted a post body (λ conv.
    if not (valid_conversation_id (or_room conv))
    then (a, failed 400)
    else (record (touch_activity a now) { hist = delete a.hist (or_room conv) }, answered))

-- The limit that is asked for, if it is a number from 1 to 2000.
limit_of : Option ℕ → ℕ
limit_of none = 200
limit_of (some n) = if ltb 0 n && leb n 2000 then n else 200

pub handle_history : App → Text → Option ℕ → ℕ → App × List HistEntry
unfolding touch_activity limit_of
handle_history a conv limit now =
    (touch_activity a now, load a.hist (or_room conv) (limit_of limit))

-- `guestAction` and `handleGuestNew`: the gateway is looked for before the body is decoded.
pub with_hub :
    {B : Type 0}
    → App
    → Bool
    → Option B
    → ℕ
    → Option GuestHub
    → (GuestHub → B → GuestHub × Answer)
    → App × Answer
with_hub a post body now none serve = (a, failed (if post then 503 else 405))
with_hub a post none now (some h) serve = (a, failed (if post then 400 else 405))
with_hub a post (some b) now (some h) serve =
    let (h', answer) = serve h b in
    if post then (record a { active = now; guests = some h' }, answer) else (a, failed 405)

pub created_answer : GuestHub × Created → GuestHub × Answer
created_answer (h, created inv) = (h, answered)
created_answer (h, too_many) = (h, failed 500)
created_answer (h, no_server) = (h, failed 500)
created_answer (h, no_folder) = (h, failed 500)

pub found_answer : GuestHub × Bool → GuestHub × Answer
found_answer (h, found) = (h, if found then no_content else failed 400)

pub refreshed_answer : GuestHub × Refreshed → GuestHub × Answer
refreshed_answer (h, refreshed folder) = (h, no_content)
refreshed_answer (h, unknown_invite) = (h, failed 400)
refreshed_answer (h, invite_revoked) = (h, failed 400)
refreshed_answer (h, server_failed) = (h, failed 400)
refreshed_answer (h, folder_failed) = (h, failed 400)

pub record GuestNew : Type 0 where
  pub label : Text
  pub folder : Text
  pub allow_plain : Bool

-- `dir` is the directory that the label, the folder and the id give.
pub handle_guest_new :
    App
    → Bool
    → Option GuestNew
    → (GuestNew → Text)
    → Text
    → Text
    → ℕ
    → ℕ
    → ℕ
    → Bool
    → Bool
    → App × Answer
unfolding with_hub created_answer
handle_guest_new a post body dir id token now now_ms ttl listens writes =
    with_hub a post body now a.guests (λ h b.
      created_answer (create h b.label (dir b) b.allow_plain id token now_ms ttl listens writes))

pub handle_guest_revoke : App → Bool → Option Text → ℕ → ℕ → App × Answer
unfolding with_hub found_answer
handle_guest_revoke a post body now now_ms =
    with_hub a post body now a.guests (λ h id. found_answer (revoke h id now_ms))

pub handle_guest_remove : App → Bool → Option Text → ℕ → ℕ → App × Answer
unfolding with_hub found_answer
handle_guest_remove a post body now now_ms =
    with_hub a post body now a.guests (λ h id. found_answer (remove_invite h id now_ms))

pub handle_guest_refresh : App → Bool → Option Text → ℕ → Bool → Bool → App × Answer
unfolding with_hub refreshed_answer
handle_guest_refresh a post body now listens writes =
    with_hub a post body now a.guests (λ h id. refreshed_answer (regenerate h id listens writes))

-- The routes that change something, each request with what it takes from outside.
pub data Request : Type 0 where
  send_text : (Conn → Bool) → Option (Text × Text) → Text → Request
  typing : Option Text → Request
  rename : Option Text → Request
  verify : Option (Text × Bool) → Request
  clear : Option Text → Request
  guest_new : Option GuestNew → (GuestNew → Text) → Text → Text → ℕ → Bool → Bool → Request
  guest_revoke : Option Text → Request
  guest_remove : Option Text → Request
  guest_refresh : Option Text → Bool → Bool → Request

unfoldable pub serve : (GuestSession → Bool) → App → Bool → Request → ℕ → ℕ → App × Answer
unfolding handle_send handle_typing handle_nick handle_verify handle_clear_messages handle_guest_new
    handle_guest_revoke handle_guest_remove handle_guest_refresh
serve can_seal a post (send_text up body mid) now now_ms =
    handle_send can_seal up a post body mid now now_ms
serve can_seal a post (typing body) now now_ms = handle_typing can_seal a post body now
serve can_seal a post (rename body) now now_ms = handle_nick a post body now
serve can_seal a post (verify body) now now_ms = handle_verify a post body now
serve can_seal a post (clear body) now now_ms = handle_clear_messages a post body now
serve can_seal a post (guest_new body dir id token ttl listens writes) now now_ms =
    handle_guest_new a post body dir id token now now_ms ttl listens writes
serve can_seal a post (guest_revoke body) now now_ms = handle_guest_revoke a post body now now_ms
serve can_seal a post (guest_remove body) now now_ms = handle_guest_remove a post body now now_ms
serve can_seal a post (guest_refresh body listens writes) now now_ms =
    handle_guest_refresh a post body now listens writes
