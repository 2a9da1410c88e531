-- ===== src/Guest/Hub/Sessions/Book.antt =====
-- The two maps of sessions agree: a tab is listed under an invite exactly if it is a session of it.
use lanrunner.Common.{
  ℕ, ◌≡◌, refl, ap, ◌∙◌, Bool, true, false, List, [], ◌∷◌, ◌++◌, Option, none, some, ◌||◌, arith,
  if◌then◌else◌, Text, same, same_iff, Bool-cases, inl, inr, Option-cases,
}
use lanrunner.Common.Dict.{Dict, lookup, lookup-insert, lookup-erase}
use lanrunner.Guest.Hub.{GuestHub, Invite, or_nil, tabs, save_locked}
use lanrunner.Guest.Session.{GuestSession}
use lanrunner.Guest.Hub.Sessions.{
  member, remove, put_back, detach, drop_found, drop_session, drop_all, session, found_session,
  evicted, enlist, enter, register,
}

abbrev pub belongs : Option GuestSession → Text → Bool
belongs none id = false
belongs (some s) id = same s.invite id

abbrev pub Book : GuestHub → Type 0
Book h = (sid id : Text) → member sid (tabs h id) ≡ belongs (lookup sid h.sessions) id

member-remove :
    (k j : Text) (l : List Text) → member j (remove k l) ≡ (if same k j then false else member j l)
unfolding member remove
member-remove k j [] = ground arith
member-remove k j (x ∷ l) =
    ground (arith, same_iff k j, same_iff x k, same_iff x j, member-remove k j l)

member-append : (j k : Text) (l : List Text) → member j (l ++ k ∷ []) ≡ (member j l || same k j)
unfolding member
member-append j k [] = ground arith
member-append j k (x ∷ l) = ground (arith, member-append j k l)

member-enlist :
    (k j : Text) (l : List Text) → member j (enlist k l) ≡ (if same k j then true else member j l)
unfolding enlist
member-enlist k j l = ground (arith, same_iff k j, member-append j k l)

tabs-put_back :
    (id other : Text) (sids : List Text) (by : Dict (List Text))
    → or_nil (lookup other (put_back id sids by))
      ≡ (if same id other then sids else or_nil (lookup other by))
unfolding put_back
tabs-put_back id other [] by = ground (arith, lookup-erase id other by)
tabs-put_back id other (x ∷ xs) by = ground (arith, lookup-insert id other (x ∷ xs) by)

-- Dropping removes the id from the list of its invite.
tabs-detach :
    (id sid other : Text) (by : Dict (List Text))
    → or_nil (lookup other (detach id sid (lookup id by) by))
      ≡ (if same id other then remove sid (or_nil (lookup id by)) else or_nil (lookup other by))
unfolding detach remove
tabs-detach id sid other by = elim (Option-cases (lookup id by)) [
  | inl e ↦ rw (e, detach) (ground (arith, same_iff id other))
  | inr (sids, e) ↦ rw (e, detach) (tabs-put_back id other (remove sid sids) by)
]

drop_found-Book :
    (h : GuestHub) (sid why : Text) (s : GuestSession)
    → lookup sid h.sessions ≡ some s
    → Book h
    → Book (drop_found h sid why (some s)).0
unfolding drop_found tabs
drop_found-Book h sid why s e book j id =
    rw (ap (member j) (tabs-detach s.invite sid id h.by_invite), lookup-erase sid j h.sessions)
      (ground (
        arith,
        same_iff s.invite id,
        same_iff sid j,
        book j id,
        book j s.invite,
        member-remove sid j (or_nil (lookup s.invite h.by_invite)),
      ))

pub drop_session-Book : (h : GuestHub) (sid why : Text) → Book h → Book (drop_session h sid why).0
unfolding drop_session
drop_session-Book h sid why book = elim (Option-cases (lookup sid h.sessions)) [
  | inl e ↦ rw e (unfold drop_found in book)
  | inr (s, e) ↦ rw e (drop_found-Book h sid why s e book)
]

pub drop_all-Book :
    (h : GuestHub) (sids : List Text) (why : Text) → Book h → Book (drop_all h sids why)
unfolding drop_all
drop_all-Book h [] why book = book
drop_all-Book h (sid ∷ sids) why book =
    drop_all-Book (drop_session h sid why).0 sids why (drop_session-Book h sid why book)

pub enter-Book :
    (h : GuestHub) (inv : Invite) (s : GuestSession) (now_ms : ℕ)
    → lookup s.sid h.sessions ≡ none
    → Book h
    → Book (enter h inv s now_ms)
unfolding enter save_locked tabs
enter-Book h inv s now_ms new book j id =
    rw
      (
        lookup-insert s.invite id (enlist s.sid (or_nil (lookup s.invite h.by_invite))) h.by_invite,
        lookup-insert s.sid j s h.sessions,
      )
      (ground (
        arith,
        same_iff s.invite id,
        same_iff s.sid j,
        book j id,
        book j s.invite,
        member-enlist s.sid j (or_nil (lookup s.invite h.by_invite)),
      ))

-- A guest that joins under a new session id keeps the two maps in agreement, the eviction of its
-- oldest tab included.
pub register-Book :
    (h : GuestHub) (inv : Invite) (s : GuestSession) (now now_ms : ℕ)
    → lookup s.sid h.sessions ≡ none
    → Book h
    → Book (register h inv s now now_ms)
unfolding register
register-Book h inv s now now_ms new book = elim (Bool-cases (same (evicted h s.invite now) [])) [
  | inl none_out ↦ rw none_out (enter-Book h inv s now_ms new book)
  | inr out ↦ rw out (
      drop_session-Book (enter h inv s now_ms) (evicted h s.invite now) _
        (enter-Book h inv s now_ms new book))
]

pub drop_session-lookup :
    (h : GuestHub) (sid why j : Text)
    → lookup j (drop_session h sid why).0.sessions
      ≡ (if same sid j then none else lookup j h.sessions)
unfolding drop_session
drop_session-lookup h sid why j = elim (Option-cases (lookup sid h.sessions)) [
  | inl e ↦ rw e (unfold drop_found in ground (arith, same_iff sid j))
  | inr (s, e) ↦ rw e (unfold drop_found in lookup-erase sid j h.sessions)
]

pub drop_all-lookup :
    (h : GuestHub) (sids : List Text) (why j : Text)
    → lookup j (drop_all h sids why).sessions
      ≡ (if member j sids then none else lookup j h.sessions)
unfolding drop_all member
drop_all-lookup h [] why j = refl
drop_all-lookup h (sid ∷ sids) why j =
    rw (drop_all-lookup (drop_session h sid why).0 sids why j, drop_session-lookup h sid why j)
      (ground arith)

-- What dropping sessions leaves alone.
abbrev pub SameBut : GuestHub → GuestHub → Type 0
SameBut g h = (g.invites ≡ h.invites) × (g.order ≡ h.order) × (g.running ≡ h.running)

pub drop_session-SameBut : (h : GuestHub) (sid why : Text) → SameBut (drop_session h sid why).0 h
unfolding drop_session drop_found
drop_session-SameBut h sid why = elim (Option-cases (lookup sid h.sessions)) [
  | inl e ↦ rw (e, drop_found) (refl, refl, refl)
  | inr (s, e) ↦ rw (e, drop_found) (refl, refl, refl)
]

pub drop_all-SameBut :
    (h : GuestHub) (sids : List Text) (why : Text) → SameBut (drop_all h sids why) h
unfolding drop_all
drop_all-SameBut h [] why = (refl, refl, refl)
drop_all-SameBut h (sid ∷ sids) why =
    let (a, b, c) = drop_all-SameBut (drop_session h sid why).0 sids why in
    let (d, e, f) = drop_session-SameBut h sid why in (a ∙ d, b ∙ e, c ∙ f)

-- A tab whose id is listed under an invite is gone once all its tabs are dropped.
pub drop_tabs-gone :
    (h : GuestHub) (id why j : Text) (s : GuestSession)
    → Book h
    → lookup j (drop_all h (tabs h id) why).sessions ≡ some s
    → same s.invite id ≡ false
drop_tabs-gone h id why j s book e = ground (arith, drop_all-lookup h (tabs h id) why j, book j id)

pub session-none :
    (h : GuestHub) (id sid : Text) (now : ℕ)
    → ((s : GuestSession) → lookup sid h.sessions ≡ some s → same s.invite id ≡ false)
    → (session h id sid now).1 ≡ none
unfolding session found_session
session-none h id sid now foreign = elim (Option-cases (lookup sid h.sessions)) [
  | inl e ↦ rw (e, found_session)
  | inr (s, e) ↦ rw (e, found_session) (rw (foreign s e))
]
