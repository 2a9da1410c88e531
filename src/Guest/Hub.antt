-- ===== src/Guest/Hub.antt =====
-- The state of the guest gateway (guest.go, `Invite`, `handoffCode`, `GuestHub`). Sessions are
-- shared by pointer between two maps in the source; here `sessions` holds them and `by_invite`
-- their ids. Times are milliseconds for invites (`nowMS`) and nanoseconds elsewhere. `saved` is the
-- content of the invite file, as the JSON library reads it back, and `disk` says whether the file can
-- be written. Log lines, UI events and the sockets are left out but for `running`.
pub mod Handoff
pub mod Invites
pub mod Sessions
pub mod Hello
pub mod Join
pub mod Frames
pub mod Reach
mod Tests
use lanrunner.Common.{
  ℕ, zero, suc, ◌+◌, Bool, true, false, List, [], ◌∷◌, ◌++◌, Option, none, some, not, ◌&&◌, ◌||◌,
  ltb, if◌then◌else◌, Text, same, length,
}
use lanrunner.Common.Dict.{Dict, lookup, insert}
use lanrunner.Guest.Session.{GuestSession}
use lanrunner.Guest.Throttle.{AuthThrottle}

pub record Invite : Type 0 where
  pub id : Text
  pub token : Text
  pub label : Text
  pub folder : Text
  pub created : ℕ
  pub expires : ℕ
  pub revoked : Bool
  pub allow_plain : Bool
  pub last_nick : Text
  pub last_seen : ℕ

pub record HandoffCode : Type 0 where
  pub invite : Text
  pub expires : ℕ
  pub uses : ℕ

pub record GuestHub : Type 0 where
  pub invites : Dict Invite
  pub order : List Text
  pub announced : List Text
  pub handoffs : Dict HandoffCode
  pub sessions : Dict GuestSession
  pub by_invite : Dict (List Text)
  pub running : Bool
  pub saved : List Invite
  pub disk : Bool
  pub throttle : AuthThrottle

pub expired : Invite → ℕ → Bool
expired inv now = ltb 0 inv.expires && ltb inv.expires now

pub usable : Invite → ℕ → Bool
unfolding expired
usable inv now = not inv.revoked && not (expired inv now)

abbrev pub or_nil : Option (List Text) → List Text
or_nil none = []
or_nil (some sids) = sids

-- The session ids of an invite; a missing key reads as the empty map.
unfoldable pub tabs : GuestHub → Text → List Text
tabs h id = or_nil (lookup id h.by_invite)

prepend : Option Invite → List Invite → List Invite
prepend none list = list
prepend (some inv) list = inv ∷ list

listed : List Text → Dict Invite → List Invite
unfolding prepend
listed [] invites = []
listed (id ∷ order) invites = prepend (lookup id invites) (listed order invites)

-- Where marshalling or writing fails, the file stays as it was, and nobody is told.
pub save_locked : GuestHub → GuestHub
unfolding listed
save_locked h = record h { saved = if h.disk then listed h.order h.invites else h.saved }

live_count : Dict Invite → ℕ → ℕ
live_count [] now = 0
live_count ((id, inv) ∷ invites) now = (if usable inv now then 1 else 0) + live_count invites now

pub live_count_locked : GuestHub → ℕ → ℕ
unfolding live_count
live_count_locked h now = live_count h.invites now

pub is_invite : GuestHub → Text → Bool
is_invite h id = elim (lookup id h.invites) [ none ↦ false | some inv ↦ true ]

-- `load`: entries without an id or a token are dropped.
pub load_one : Invite → GuestHub → GuestHub
load_one inv h =
    if same inv.id [] || same inv.token []
    then h
    else record h { invites = insert inv.id inv h.invites; order = h.order ++ inv.id ∷ [] }

pub load_from : List Invite → GuestHub → GuestHub
load_from [] h = h
load_from (inv ∷ list) h = load_from list (load_one inv h)

abbrev pub empty_hub : GuestHub
empty_hub = record {
  invites = [];
  order = [];
  announced = [];
  handoffs = [];
  sessions = [];
  by_invite = [];
  running = false;
  saved = [];
  disk = true;
  throttle = [];
}

pub new_guest_hub : List Invite → GuestHub
unfolding load_from
new_guest_hub file = load_from file (record empty_hub { saved = file })
