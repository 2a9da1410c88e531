-- ===== src/Guest/Hub/Sessions/Keeps.antt =====
-- What holds of the sessions at any time, and what the operations on sessions keep of it.
use lanrunner.Common.{
  ℕ, ◌≡◌, refl, sym, ap, ◌∙◌, false, List, [], ◌∷◌, Option, none, some, arith, Text, codes, same,
  same_iff, Bool-cases, inl, inr, Option-cases,
}
use lanrunner.Common.Dict.{Dict, lookup, insert, lookup-insert, lookup-insert_self, insert_cases}
use lanrunner.Guest.Session.{GuestSession, touch}
use lanrunner.Guest.Hub.{GuestHub, Invite, or_nil, tabs, save_locked}
use lanrunner.Guest.Hub.Sessions.{
  member, drop_session, drop_all, session, found_session, evicted, enter, register, reap_idle,
  idle_sids, close, sids_of,
}
use lanrunner.Guest.Hub.Sessions.Book.{
  belongs, drop_session-Book, drop_session-lookup, drop_session-SameBut, enter-Book,
}

-- An invite that is there and not revoked.
abbrev pub Live : Dict Invite → Text → Type 0
Live invites id = (inv : Invite) × (lookup id invites ≡ some inv) × (inv.revoked ≡ false)

-- Every session and every invite stands under its own id, the two maps of sessions agree, and the
-- invite of each session is live.
abbrev pub SoundAt : Dict GuestSession → Dict (List Text) → Dict Invite → Type 0
SoundAt sessions by invites =
    ((sid id : Text) → member sid (or_nil (lookup id by)) ≡ belongs (lookup sid sessions) id)
    × ((sid : Text) (s : GuestSession)
        → lookup sid sessions ≡ some s
        → (s.sid ≡ sid) × Live invites s.invite)
    × ((id : Text) (inv : Invite) → lookup id invites ≡ some inv → inv.id ≡ id)

abbrev pub Sound : GuestHub → Type 0
Sound h = SoundAt h.sessions h.by_invite h.invites

-- A session that is replaced by one of the same id and invite.
pub replace-Sound :
    (h : GuestHub) (sid : Text) (s s' : GuestSession)
    → lookup sid h.sessions ≡ some s
    → s'.sid ≡ s.sid
    → s'.invite ≡ s.invite
    → Sound h
    → SoundAt (insert sid s' h.sessions) h.by_invite h.invites
replace-Sound h sid s s' at same_sid same_invite (book, held, own) = (
  λ j id. rw (lookup-insert sid j s' h.sessions) (ground (arith, book j id, same_iff sid j)),
  λ j t e. elim (insert_cases sid j s' t h.sessions e) [
    | inl (k, v) ↦
        let (a, (inv, l, r)) = held sid s at in
        (
          ap (λ (u : GuestSession). u.sid) (sym v) ∙ same_sid ∙ a ∙ k,
          (
            inv,
            ap (λ (u : GuestSession). lookup u.invite h.invites) (sym v)
                ∙ ap (λ i. lookup i h.invites) same_invite
                ∙ l,
            r,
          ),
        )
    | inr (d, k) ↦ held j t k
  ],
  own,
)

-- The session of a map after a drop was there before.
still_there :
    (h : GuestHub) (sid why j : Text) (t : GuestSession)
    → lookup j (drop_session h sid why).0.sessions ≡ some t
    → lookup j h.sessions ≡ some t
still_there h sid why j t e = ground (arith, drop_session-lookup h sid why j)

pub drop_session-Sound :
    (h : GuestHub) (sid why : Text) → Sound h → Sound (drop_session h sid why).0
unfolding tabs
drop_session-Sound h sid why (book, held, own) =
    let kept = (drop_session-SameBut h sid why).0 in
    (
      drop_session-Book h sid why book,
      λ j t e.
          let (a, (inv, l, r)) = held j t (still_there h sid why j t e) in
          (a, (inv, ap (lookup t.invite) kept ∙ l, r)),
      λ id inv e. own id inv (ap (lookup id) (sym kept) ∙ e),
    )

pub drop_all-Sound :
    (h : GuestHub) (sids : List Text) (why : Text) → Sound h → Sound (drop_all h sids why)
unfolding drop_all
drop_all-Sound h [] why sound = sound
drop_all-Sound h (sid ∷ sids) why sound =
    drop_all-Sound (drop_session h sid why).0 sids why (drop_session-Sound h sid why sound)

pub reap_idle-Sound : (h : GuestHub) (now : ℕ) → Sound h → Sound (reap_idle h now)
unfolding reap_idle
reap_idle-Sound h now = drop_all-Sound h (idle_sids h.sessions now) (codes "idle")

pub close-Sound : (h : GuestHub) → Sound h → Sound (close h)
unfolding close
close-Sound h = drop_all-Sound h (sids_of h.sessions) (codes "host shutting down")

-- An invite that is new, or was changed, and is not revoked.
pub insert-Sound :
    (sessions : Dict GuestSession) (by : Dict (List Text)) (invites : Dict Invite) (id : Text)
    (inv : Invite)
    → inv.id ≡ id
    → inv.revoked ≡ false
    → SoundAt sessions by invites
    → SoundAt sessions by (insert id inv invites)
insert-Sound sessions by invites id inv mine fresh (book, held, own) = (
  book,
  λ j t e.
      let (a, (old, l, r)) = held j t e in
      elim (Bool-cases (same id t.invite)) [
        | inl h ↦ (a, (inv, lookup-insert id t.invite inv invites ∙ rw h refl, fresh))
        | inr h ↦ (a, (old, (lookup-insert id t.invite inv invites ∙ rw h refl) ∙ l, r))
      ],
  λ k i e. elim (insert_cases id k inv i invites e) [
    | inl (same_key, v) ↦ ap (λ (u : Invite). u.id) (sym v) ∙ mine ∙ same_key
    | inr (d, k_in) ↦ own k i k_in
  ],
)

pub enter-Sound :
    (h : GuestHub) (inv : Invite) (s : GuestSession) (now_ms : ℕ)
    → lookup s.sid h.sessions ≡ none
    → s.invite ≡ inv.id
    → inv.revoked ≡ false
    → Sound h
    → Sound (enter h inv s now_ms)
unfolding enter save_locked tabs
enter-Sound h inv s now_ms new mine fresh (book, held, own) =
    let changed : Invite = record inv { last_nick = s.nick; last_seen = now_ms } in
    let rest =
      insert-Sound h.sessions h.by_invite h.invites inv.id changed refl fresh (book, held, own) in
    (
      enter-Book h inv s now_ms new book,
      λ j t e. elim (insert_cases s.sid j s t h.sessions e) [
        | inl (k, v) ↦ (
          ap (λ (u : GuestSession). u.sid) (sym v) ∙ k,
          (
            changed,
            ap (λ (u : GuestSession). lookup u.invite (insert inv.id changed h.invites)) (sym v)
                ∙ ap (λ i. lookup i (insert inv.id changed h.invites)) mine
                ∙ lookup-insert_self inv.id changed h.invites,
            fresh,
          ),
        )
        | inr (d, k) ↦ rest.1 j t k
      ],
      rest.2,
    )

pub register-Sound :
    (h : GuestHub) (inv : Invite) (s : GuestSession) (now now_ms : ℕ)
    → lookup s.sid h.sessions ≡ none
    → s.invite ≡ inv.id
    → inv.revoked ≡ false
    → Sound h
    → Sound (register h inv s now now_ms)
unfolding register
register-Sound h inv s now now_ms new mine fresh sound =
    let entered = enter-Sound h inv s now_ms new mine fresh sound in
    elim (Bool-cases (same (evicted h s.invite now) [])) [
      | inl none_out ↦ rw none_out entered
      | inr out ↦
          rw out (drop_session-Sound (enter h inv s now_ms) (evicted h s.invite now) _ entered)
    ]

-- A copy of a session that the hub holds: what it holds has the same id and invite.
abbrev pub Current : Dict GuestSession → GuestSession → Type 0
Current sessions s =
    (t : GuestSession) × (lookup s.sid sessions ≡ some t) × (s.sid ≡ t.sid) × (s.invite ≡ t.invite)

pub store-Sound :
    (h : GuestHub) (s : GuestSession)
    → Current h.sessions s
    → Sound h
    → SoundAt (insert s.sid s h.sessions) h.by_invite h.invites
store-Sound h s (t, at, same_sid, same_invite) = replace-Sound h s.sid t s at same_sid same_invite

pub store-Current :
    (sessions : Dict GuestSession) (s : GuestSession) → Current (insert s.sid s sessions) s
store-Current sessions s = (s, lookup-insert_self s.sid s sessions, refl, refl)

abbrev pub AllCurrent : Dict GuestSession → Option GuestSession → Type 0
AllCurrent sessions none = Unit {0}
AllCurrent sessions (some s) = Current sessions s

-- Looking a session up keeps the hub sound and gives one that it holds.
pub session-Sound :
    (h : GuestHub) (id sid : Text) (now : ℕ)
    → Sound h
    → Sound (session h id sid now).0
      × AllCurrent (session h id sid now).0.sessions (session h id sid now).1
unfolding session found_session touch
session-Sound h id sid now sound = elim (Option-cases (lookup sid h.sessions)) [
  | inl e ↦ rw (e, found_session) (sound, tt)
  | inr (s, e) ↦ elim (Bool-cases (same s.invite id)) [
    | inr d ↦ rw (e, found_session, d) (sound, tt)
    | inl d ↦
        rw (e, found_session, d)
          (
            replace-Sound h sid s (touch s now) e refl refl sound,
            (
              touch s now,
              ap (λ k. lookup k (insert sid (touch s now) h.sessions)) (sound.1 sid s e).0
                  ∙ lookup-insert_self sid (touch s now) h.sessions,
              refl,
              refl,
            ),
          )
  ]
]
