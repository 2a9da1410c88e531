-- ===== src/Guest/Hub/Sessions.antt =====
-- Opening, finding and dropping the sessions of an invite (guest.go, `dropSession`, `session`,
-- `Deliver`, the locked part of `handleHello`, the first half of `reapLoop`, `Close`).
pub mod Book
pub mod Deliver
pub mod Keeps
pub mod Listed
pub mod Opened
use lanrunner.Common.{
  ℕ, suc, ◌+◌, ◌*◌, Bool, true, false, List, [], ◌∷◌, ◌++◌, Option, none, some, leb, ltb, ◌||◌,
  if◌then◌else◌, Text, codes, same, length,
}
use lanrunner.Common.Dict.{Dict, lookup, insert, erase}
use lanrunner.Guest.Hub.{GuestHub, Invite, or_nil, tabs, save_locked}
use lanrunner.Guest.Session.{GuestSession, Envelope, push, touch}

abbrev pub guest_max_sessions : ℕ
guest_max_sessions = 4

abbrev pub guest_session_idle : ℕ
guest_session_idle = 180 * 1_000_000_000

unfoldable pub member : Text → List Text → Bool
member k [] = false
member k (j ∷ l) = same j k || member k l

-- `delete(m, sid)`.
pub remove : Text → List Text → List Text
remove k [] = []
remove k (j ∷ l) = if same j k then remove k l else j ∷ remove k l

-- `delete(h.byInvite[id], sid)`; the empty map goes.
put_back : Text → List Text → Dict (List Text) → Dict (List Text)
put_back id [] by = erase id by
put_back id (x ∷ xs) by = insert id (x ∷ xs) by

detach : Text → Text → Option (List Text) → Dict (List Text) → Dict (List Text)
detach id sid none by = by
detach id sid (some sids) by = put_back id (remove sid sids) by

abbrev bye : Text → Envelope
bye why = record { kind = codes "bye"; mid = []; body = why }

-- The object of a dropped session, which its stream still reads.
pub ended : GuestSession → Text → GuestSession
ended s why =
    let told = push (record s { closed = true }) (bye why) in
    if s.closed then s else record told { stream_gen = suc told.stream_gen }

drop_found : GuestHub → Text → Text → Option GuestSession → GuestHub × Option GuestSession
drop_found h sid why none = (h, none)
drop_found h sid why (some s) = (
  record h {
    sessions = erase sid h.sessions;
    by_invite = detach s.invite sid (lookup s.invite h.by_invite) h.by_invite;
  },
  some (ended s why),
)

pub drop_session : GuestHub → Text → Text → GuestHub × Option GuestSession
drop_session h sid why = drop_found h sid why (lookup sid h.sessions)

unfoldable pub drop_all : GuestHub → List Text → Text → GuestHub
drop_all h [] why = h
drop_all h (sid ∷ sids) why = drop_all (drop_session h sid why).0 sids why

unfoldable pub found_session :
    GuestHub → Text → Text → ℕ → Option GuestSession → GuestHub × Option GuestSession
found_session h id sid now none = (h, none)
found_session h id sid now (some s) =
    if same s.invite id
    then (record h { sessions = insert sid (touch s now) h.sessions }, some (touch s now))
    else (h, none)

unfoldable pub session : GuestHub → Text → Text → ℕ → GuestHub × Option GuestSession
session h id sid now = found_session h id sid now (lookup sid h.sessions)

-- The tab that was created first, among those created before `oldest`.
oldest_tab : Dict GuestSession → ℕ → Text → List Text → Text
oldest_tab sessions oldest evict [] = evict
oldest_tab sessions oldest evict (sid ∷ sids) = elim (lookup sid sessions) [
  | none ↦ oldest_tab sessions oldest evict sids
  | some other ↦
      oldest_tab sessions (if ltb other.created oldest then other.created else oldest)
        (if ltb other.created oldest then sid else evict) sids
]

pub evicted : GuestHub → Text → ℕ → Text
unfolding oldest_tab
evicted h id now =
    if leb guest_max_sessions (length (tabs h id))
    then oldest_tab h.sessions now [] (tabs h id)
    else []

-- `m[sid] = s` on the set of ids.
pub enlist : Text → List Text → List Text
enlist sid sids = if member sid sids then sids else sids ++ sid ∷ []

pub enter : GuestHub → Invite → GuestSession → ℕ → GuestHub
enter h inv s now_ms = save_locked (record h {
  sessions = insert s.sid s h.sessions;
  by_invite = insert s.invite (enlist s.sid (tabs h s.invite)) h.by_invite;
  invites = insert inv.id (record inv { last_nick = s.nick; last_seen = now_ms }) h.invites;
})

-- The locked part of `handleHello` and the eviction after it.
pub register : GuestHub → Invite → GuestSession → ℕ → ℕ → GuestHub
register h inv s now now_ms =
    let evict = evicted h s.invite now in
    let h' = enter h inv s now_ms in
    if same evict [] then h' else (drop_session h' evict (codes "replaced by a newer tab")).0

-- `can_seal` is false where marshalling or the random source fails.
deliver_to :
    (GuestSession → Bool) → Envelope → List Text → Dict GuestSession → Dict GuestSession × ℕ
deliver_to can_seal e [] sessions = (sessions, 0)
deliver_to can_seal e (sid ∷ sids) sessions = elim (lookup sid sessions) [
  | none ↦ deliver_to can_seal e sids sessions
  | some s ↦
      let rest = deliver_to can_seal e sids (insert sid (push s e) sessions) in
      let skip = deliver_to can_seal e sids sessions in
      if can_seal s then (rest.0, suc rest.1) else skip
]

pub deliver : (GuestSession → Bool) → GuestHub → Text → Envelope → GuestHub × ℕ
unfolding deliver_to
deliver can_seal h id e =
    let (sessions', n) = deliver_to can_seal e (tabs h id) h.sessions in
    (record h { sessions = sessions' }, n)

idle_sids : Dict GuestSession → ℕ → List Text
idle_sids [] now = []
idle_sids ((sid, s) ∷ sessions) now =
    if ltb (s.last + guest_session_idle) now
    then sid ∷ idle_sids sessions now
    else idle_sids sessions now

pub reap_idle : GuestHub → ℕ → GuestHub
unfolding idle_sids
reap_idle h now = drop_all h (idle_sids h.sessions now) (codes "idle")

sids_of : Dict GuestSession → List Text
sids_of [] = []
sids_of ((sid, s) ∷ sessions) = sid ∷ sids_of sessions

pub close : GuestHub → GuestHub
unfolding sids_of
close h = record (drop_all h (sids_of h.sessions) (codes "host shutting down")) { running = false }
