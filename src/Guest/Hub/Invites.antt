-- ===== src/Guest/Hub/Invites.antt =====
-- Making, revoking, removing and expiring invites (guest.go, `Create`, `Revoke`, `Remove`,
-- `inviteFor`, `sweepExpired`, `ensureServer`, `stopServer`, `Resume`, `Label`). What `net.Listen`
-- and the writing of the folder say is an argument, and so are the random ids.
pub mod Gone
pub mod Keeps
pub mod Listed
pub mod Named
pub mod Refused
pub mod Restart
use lanrunner.Common.{
  ℕ, suc, ◌+◌, ◌*◌, Bool, true, false, List, [], ◌∷◌, ◌++◌, Option, none, some, leb, ltb, ◌==◌, not,
  ◌||◌, ◌&&◌, if◌then◌else◌, Text, codes, same, length,
}
use lanrunner.Common.Dict.{Dict, lookup, insert, erase}
use lanrunner.Guest.Hub.{
  GuestHub, Invite, or_nil, tabs, save_locked, expired, usable, live_count_locked,
}
use lanrunner.Guest.Hub.Sessions.{drop_all, member}
use lanrunner.Sanitize.{sanitize_nick, short_fp}

abbrev pub guest_max_invites : ℕ
guest_max_invites = 64

pub data Created : Type 0 where
  created : Invite → Created
  too_many no_server no_folder : Created

pub ensure_server : GuestHub → Bool → GuestHub × Bool
ensure_server h listens =
    if h.running
    then (h, true)
    else if listens
    then (record h { running = true }, true)
    else (h, false)

pub stop_server : GuestHub → GuestHub
stop_server h = record h { running = false }

-- The label of a new invite.
label_of : Text → Text
label_of label = if same (sanitize_nick label) [] then codes "guest" else sanitize_nick label

-- `folder` is the directory that `slugify` and `filepath.Join` give; `ttl` is in milliseconds.
pub create : GuestHub → Text → Text → Bool → Text → Text → ℕ → ℕ → Bool → Bool → GuestHub × Created
create h label folder plain id token now_ms ttl listens writes =
    let inv : Invite = record {
      id = id;
      token = token;
      label = label_of label;
      folder = folder;
      created = now_ms;
      expires = if ltb 0 ttl then now_ms + ttl else 0;
      revoked = false;
      allow_plain = plain;
      last_nick = [];
      last_seen = 0;
    } in
    let (h', up) = ensure_server h listens in
    if leb guest_max_invites (length h.invites)
    then (h, too_many)
    else if not up
    then (h', no_server)
    else if not writes
    then (h', no_folder)
    else (
      save_locked (record h' { invites = insert id inv h'.invites; order = h'.order ++ id ∷ [] }),
      created inv,
    )

-- The server stops when no usable invite is left.
settle : GuestHub → ℕ → GuestHub
settle h live = if live == 0 then stop_server h else h

revoke_found : GuestHub → Text → ℕ → Option Invite → GuestHub × Bool
unfolding settle
revoke_found h id now_ms none = (h, false)
revoke_found h id now_ms (some inv) =
    let h' =
      save_locked (record h { invites = insert id (record inv { revoked = true }) h.invites }) in
    (settle (drop_all h' (tabs h id) (codes "invite revoked")) (live_count_locked h' now_ms), true)

unfoldable pub revoke : GuestHub → Text → ℕ → GuestHub × Bool
unfolding revoke_found
revoke h id now_ms = revoke_found h id now_ms (lookup id h.invites)

-- The first entry goes.
remove_first : Text → List Text → List Text
remove_first id [] = []
remove_first id (x ∷ order) = if same x id then order else x ∷ remove_first id order

forget : GuestHub → Text → Option Invite → GuestHub × Bool
forget h id none = (h, false)
forget h id (some inv) =
    (save_locked (record h { invites = erase id h.invites; order = remove_first id h.order }), true)

pub remove_invite : GuestHub → Text → ℕ → GuestHub × Bool
remove_invite h id now_ms = let h' = (revoke h id now_ms).0 in forget h' id (lookup id h'.invites)

-- `Regenerate` changes no invite; it needs the server and the folder.
pub data Refreshed : Type 0 where
  refreshed : Text → Refreshed
  unknown_invite invite_revoked server_failed folder_failed : Refreshed

regenerate_found : GuestHub → Bool → Bool → Option Invite → GuestHub × Refreshed
regenerate_found h listens writes none = (h, unknown_invite)
regenerate_found h listens writes (some inv) =
    let (h', up) = ensure_server h listens in
    if inv.revoked
    then (h, invite_revoked)
    else if not up
    then (h', server_failed)
    else if writes
    then (h', refreshed inv.folder)
    else (h', folder_failed)

pub regenerate : GuestHub → Text → Bool → Bool → GuestHub × Refreshed
unfolding regenerate_found
regenerate h id listens writes = regenerate_found h listens writes (lookup id h.invites)

abbrev zeros : Text
zeros = codes "0000000000000000000000000000000000000000000000000000000000000000"

token_of : Option Invite → Text
token_of none = zeros
token_of (some inv) = inv.token

check_invite : Option Invite → Bool → ℕ → Option Invite
check_invite none token_fits now_ms = none
check_invite (some inv) token_fits now_ms =
    if not token_fits || not (usable inv now_ms) then none else some inv

-- `subtle.ConstantTimeCompare` is equality.
pub invite_for : GuestHub → Text → Text → ℕ → Option Invite
unfolding token_of check_invite
invite_for h id token now_ms =
    check_invite (lookup id h.invites) (same (token_of (lookup id h.invites)) token) now_ms

-- The invites whose expiry was not announced yet.
newly_expired : List Text → ℕ → Dict Invite → List Text
newly_expired announced now_ms [] = []
newly_expired announced now_ms ((id, inv) ∷ invites) =
    if inv.revoked || (not (expired inv now_ms) || member id announced)
    then newly_expired announced now_ms invites
    else id ∷ newly_expired announced now_ms invites

tabs_of_all : GuestHub → List Text → List Text
tabs_of_all h [] = []
tabs_of_all h (id ∷ ids) = tabs h id ++ tabs_of_all h ids

-- The sessions of the invites go, and the server if nothing live is left.
expire : GuestHub → ℕ → List Text → GuestHub
unfolding tabs_of_all settle
expire h now_ms [] = h
expire h now_ms (id ∷ ids) =
    settle
      (drop_all (record h { announced = h.announced ++ id ∷ ids }) (tabs_of_all h (id ∷ ids))
        (codes "invite expired"))
      (live_count_locked h now_ms)

pub sweep_expired : GuestHub → ℕ → GuestHub
unfolding newly_expired expire
sweep_expired h now_ms = expire h now_ms (newly_expired h.announced now_ms h.invites)

pub resume : GuestHub → ℕ → Bool → GuestHub
resume h now_ms listens = if live_count_locked h now_ms == 0 then h else (ensure_server h listens).0

label_found : Text → Option Invite → Text
label_found id none = short_fp id
label_found id (some inv) =
    if not (same inv.last_nick [])
    then inv.last_nick
    else if not (same inv.label [])
    then inv.label
    else codes "guest " ++ short_fp id

pub label : GuestHub → Text → Text
unfolding label_found
label h id = label_found id (lookup id h.invites)
