-- ===== src/Guest/Hub/Frames.antt =====
-- The frames of a guest (guest.go, `guestSession.open`, `readFrame`, `handleSend`, `handleTyping`,
-- `handleBye`, `handlePing`). Base64, AES-GCM under the session's key, JSON, the random message id and
-- the time are parameters, and `can_seal` is false where sealing fails. A JSON payload that is sent in the clear is the text of `p`.
pub mod Stored
pub mod Keeps
pub mod Listed
pub mod Requests
use lanrunner.Common.{
  ℕ, suc, ◌+◌, Bool, true, false, List, [], ◌∷◌, Option, none, some, not, ◌||◌, ltb, if◌then◌else◌,
  Text, codes, same, length, take, drop,
}
use lanrunner.Common.Dict.{lookup, insert}
use lanrunner.Sanitize.{sanitize_body, cut_body}
use lanrunner.History.{HistEntry, History, append}
use lanrunner.Guest.Session.{GuestSession, Envelope, allow, fresh, push}
use lanrunner.Guest.Hub.{GuestHub, Invite, tabs}
use lanrunner.Guest.Hub.Hello.{Request, Reply, no_content, failed, guest_gate}
use lanrunner.Guest.Hub.Sessions.{session, drop_session}

abbrev pub guest_max_frame : ℕ
guest_max_frame = 0x10000

pub record GuestFrameIn : Type 0 where
  pub id : Text
  pub sid : Text
  pub frame : Text
  pub plain : Text

pub record GuestPayload : Type 0 where
  pub kind : Text
  pub body : Text
  pub seq : ℕ

-- What `readFrame` returns.
pub data Opened : Type 0 where
  stopped : Reply → Opened
  opened : GuestSession → GuestPayload → Opened

module _ (decode : Text → Option (List ℕ)) (gcm_open : Text → List ℕ → List ℕ → Option Text)
    (parse : Text → Option GuestPayload) (can_seal : GuestSession → Bool) where
  decrypt : GuestSession → Option (List ℕ) → Option Text
  decrypt s none = none
  decrypt s (some raw) =
      if ltb (length raw) 13 || ltb guest_max_frame (length raw)
      then none
      else gcm_open s.sid (take 12 raw) (drop 12 raw)

  pub open_frame : GuestSession → Text → Text → Option Text
  unfolding decrypt
  open_frame s frame plain =
      if not s.enc
      then if same plain [] then none else some plain
      else if same frame []
      then none
      else decrypt s (decode frame)

  store_session : GuestHub → GuestSession → GuestHub
  store_session h s = record h { sessions = insert s.sid s h.sessions }

  check_fresh : GuestHub → GuestSession → Option GuestPayload → GuestHub × Opened
  unfolding store_session
  check_fresh h s none = (h, stopped (failed 400))
  check_fresh h s (some p) =
      let (s', ok) = fresh s p.seq in
      (store_session h s', if ok then opened s' p else stopped (failed 400))

  check_text : GuestHub → GuestSession → Option Text → GuestHub × Opened
  unfolding check_fresh
  check_text h s none = (h, stopped (failed 400))
  check_text h s (some pt) = check_fresh h s (parse pt)

  check_session : GuestHub → GuestFrameIn → Option GuestSession → GuestHub × Opened
  unfolding check_text
  check_session h b none = (h, stopped (failed 403))
  check_session h b (some s) = check_text h s (open_frame s b.frame b.plain)

  check_body : GuestHub → Option GuestFrameIn → ℕ → GuestHub × Opened
  unfolding check_session
  check_body h none now = (h, stopped (failed 400))
  check_body h (some b) now = let (h', found) = session h b.id b.sid now in check_session h' b found

  -- `body` is none where the body does not decode.
  pub read_frame : GuestHub → Request → Option GuestFrameIn → ℕ → GuestHub × Opened
  unfolding check_body
  read_frame h r body now = if not r.post then (h, stopped (failed 405)) else check_body h body now

  -- What one request leaves: the gateway, the transcripts and the answer.
  pub record Served : Type 0 where
    pub hub : GuestHub
    pub hist : History
    pub reply : Reply

  echo : Envelope → Text → List Text → GuestHub → GuestHub
  echo e sid [] h = h
  echo e sid (other ∷ sids) h = elim (lookup other h.sessions) [
    | none ↦ echo e sid sids h
    | some o ↦ echo e sid sids (
        if same other sid || not (can_seal o)
        then h
        else record h { sessions = insert other (push o e) h.sessions })
  ]

  acknowledge : Text → Text → Option GuestSession → GuestHub → GuestHub
  acknowledge sid mid none h = h
  acknowledge sid mid (some s) h = if not (can_seal s) then h else record h {
    sessions = insert sid (push s (record { kind = codes "ack"; mid = mid; body = [] })) h.sessions;
  }

  seen_now : Text → Text → ℕ → Option Invite → GuestHub → GuestHub
  seen_now id nick now_ms none h = h
  seen_now id nick now_ms (some inv) h = record h {
    invites = insert id (record inv { last_seen = now_ms; last_nick = nick }) h.invites;
  }

  entry : GuestSession → Text → Text → ℕ → HistEntry
  entry s body mid now_ms = record {
    kind = [];
    ts = now_ms;
    conv = s.invite;
    fp = s.invite;
    nick = s.nick;
    self = false;
    body = body;
    mid = mid;
    delivered = 0;
  }

  -- The other tabs, the acknowledgement, the invite.
  spread : GuestHub → GuestSession → Text → Text → ℕ → GuestHub
  unfolding echo acknowledge seen_now
  spread h s body mid now_ms =
      let e : Envelope = record { kind = codes "msg"; mid = mid; body = body } in
      let h' = echo e s.sid (tabs h s.invite) h in
      let h'' = acknowledge s.sid mid (lookup s.sid h'.sessions) h' in
      seen_now s.invite s.nick now_ms (lookup s.invite h''.invites) h''

  pub accept_body : GuestHub → History → GuestSession → Text → Text → ℕ → Served
  unfolding spread entry
  accept_body h hist s body mid now_ms =
      if same body [] then record { hub = h; hist = hist; reply = no_content } else record {
        hub = spread h s (cut_body body) mid now_ms;
        hist = append hist (entry s (cut_body body) mid now_ms);
        reply = no_content;
      }

  send_opened : GuestHub × Opened → History → Text → ℕ → ℕ → Served
  unfolding accept_body store_session
  send_opened (h, stopped reply) hist mid now now_ms = record {
    hub = h;
    hist = hist;
    reply = reply;
  }
  send_opened (h, opened s p) hist mid now now_ms =
      let (s', ok) = allow s now in
      let h' = store_session h s' in
      if not ok
      then record { hub = h'; hist = hist; reply = failed 429 }
      else accept_body h' hist s' (sanitize_body p.body).0 mid now_ms

  send_gated :
      GuestHub → History → Request → Option GuestFrameIn → Text → ℕ → ℕ → Option Reply → Served
  unfolding send_opened
  send_gated h hist r body mid now now_ms (some reply) = record {
    hub = h;
    hist = hist;
    reply = reply;
  }
  send_gated h hist r body mid now now_ms none =
      send_opened (read_frame h r body now) hist mid now now_ms

  pub handle_send :
      (Text → Bool) → GuestHub → History → Request → Option GuestFrameIn → Text → ℕ → ℕ → Served
  unfolding send_gated
  handle_send allowed h hist r body mid now now_ms =
      send_gated h hist r body mid now now_ms (guest_gate allowed h r now)

  typing_opened : GuestHub × Opened → GuestHub × Reply
  typing_opened (h, stopped reply) = (h, reply)
  typing_opened (h, opened s p) = (h, no_content)

  typing_gated : GuestHub → Request → Option GuestFrameIn → ℕ → Option Reply → GuestHub × Reply
  unfolding typing_opened
  typing_gated h r body now (some reply) = (h, reply)
  typing_gated h r body now none = typing_opened (read_frame h r body now)

  pub handle_typing :
      (Text → Bool) → GuestHub → Request → Option GuestFrameIn → ℕ → GuestHub × Reply
  unfolding typing_gated
  handle_typing allowed h r body now = typing_gated h r body now (guest_gate allowed h r now)

-- Leaving: the session that is named is dropped.
bye_found : GuestHub × Option GuestSession → GuestHub
bye_found (h, none) = h
bye_found (h, some s) = (drop_session h s.sid (codes "guest closed the page")).0

bye_gated : GuestHub → Option GuestFrameIn → ℕ → Option Reply → GuestHub × Reply
unfolding bye_found
bye_gated h body now (some reply) = (h, reply)
bye_gated h none now none = (h, failed 400)
bye_gated h (some b) now none = (bye_found (session h b.id b.sid now), no_content)

pub handle_bye : (Text → Bool) → GuestHub → Request → Option GuestFrameIn → ℕ → GuestHub × Reply
unfolding bye_gated
handle_bye allowed h r body now = bye_gated h body now (guest_gate allowed h r now)
