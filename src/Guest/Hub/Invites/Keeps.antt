-- ===== src/Guest/Hub/Invites/Keeps.antt =====
-- The operations on invites keep the hub sound.
use lanrunner.Common.{
  ℕ, ◌≡◌, refl, sym, ap, ◌∙◌, Bool, true, false, List, [], ◌∷◌, ◌++◌, Option, none, some,
  none-ne-some, ◌==◌, not, leb, arith, Text, codes, same, same_iff, length, Bool-cases, inl, inr,
  Option-cases,
}
use lanrunner.Common.Dict.{
  lookup, insert, erase, insert_cases, erase_cases, lookup-insert, lookup-erase,
}
use lanrunner.Guest.Session.{GuestSession}
use lanrunner.Guest.Hub.{GuestHub, Invite, tabs, save_locked, live_count_locked, usable}
use lanrunner.Guest.Hub.Sessions.{drop_all}
use lanrunner.Guest.Hub.Sessions.Book.{
  drop_all-Book, drop_all-lookup, drop_all-SameBut, drop_tabs-gone,
}
use lanrunner.Guest.Hub.Sessions.Keeps.{Sound, SoundAt, drop_all-Sound, insert-Sound}
use lanrunner.Guest.Hub.Invites.{
  ensure_server, stop_server, create, settle, revoke, revoke_found, forget, remove_invite,
  regenerate, regenerate_found, invite_for, check_invite, guest_max_invites, sweep_expired, expire,
  newly_expired, tabs_of_all, resume,
}

settle-Sound : (h : GuestHub) (live : ℕ) → Sound h → Sound (settle h live)
unfolding settle stop_server
settle-Sound h live sound = elim (Bool-cases (live == 0)) [
  | inl e ↦ rw e sound
  | inr e ↦ rw e sound
]

ensure_server-Sound : (h : GuestHub) (listens : Bool) → Sound h → Sound (ensure_server h listens).0
unfolding ensure_server
ensure_server-Sound h listens sound = elim (Bool-cases h.running) [
  | inl r ↦ rw r sound
  | inr r ↦ elim (Bool-cases listens) [ inl l ↦ rw (r, l) sound | inr l ↦ rw (r, l) sound ]
]

abbrev mark : GuestHub → Text → Invite → GuestHub
mark h id inv =
    save_locked (record h { invites = insert id (record inv { revoked = true }) h.invites })

abbrev dropped : GuestHub → Text → Invite → GuestHub
dropped h id inv = drop_all (mark h id inv) (tabs h id) (codes "invite revoked")

-- The session of a map after drops was there before.
still_there :
    (h : GuestHub) (sids : List Text) (why j : Text) (t : GuestSession)
    → lookup j (drop_all h sids why).sessions ≡ some t
    → lookup j h.sessions ≡ some t
still_there h sids why j t e = ground (arith, drop_all-lookup h sids why j)

-- No session of the invite is left.
dropped-foreign :
    (h : GuestHub) (id : Text) (inv : Invite) (j : Text) (t : GuestSession)
    → Sound h
    → lookup j (dropped h id inv).sessions ≡ some t
    → same t.invite id ≡ false
unfolding save_locked tabs
dropped-foreign h id inv j t sound =
    drop_tabs-gone (mark h id inv) id (codes "invite revoked") j t sound.0

-- The sessions that are left have other invites, which are as they were.
dropped-Sound :
    (h : GuestHub) (id : Text) (inv : Invite)
    → lookup id h.invites ≡ some inv
    → Sound h
    → Sound (dropped h id inv)
unfolding save_locked tabs
dropped-Sound h id inv e (book, held, own) =
    let off : Invite = record inv { revoked = true } in
    let kept = (drop_all-SameBut (mark h id inv) (tabs h id) (codes "invite revoked")).0 in
    (
      drop_all-Book (mark h id inv) (tabs h id) (codes "invite revoked") book,
      λ j t at.
          let (a, (i, l, r)) = held j t (still_there (mark h id inv) (tabs h id) _ j t at) in
          let foreign = dropped-foreign h id inv j t (book, held, own) at in
          let other : same id t.invite ≡ false =
            ground (arith, same_iff id t.invite, same_iff t.invite id) in
          (
            a,
            (
              i,
              ap (lookup t.invite) kept ∙ lookup-insert id t.invite off h.invites ∙ rw other l,
              r,
            ),
          ),
      λ k i at. elim (insert_cases id k off i h.invites (ap (lookup k) (sym kept) ∙ at)) [
        | inl (k_id, v) ↦ ap (λ (u : Invite). u.id) (sym v) ∙ own id inv e ∙ k_id
        | inr (d, k_in) ↦ own k i k_in
      ],
    )

pub revoke-Sound : (h : GuestHub) (id : Text) (now_ms : ℕ) → Sound h → Sound (revoke h id now_ms).0
unfolding revoke revoke_found
revoke-Sound h id now_ms sound = elim (Option-cases (lookup id h.invites)) [
  | inl e ↦ rw (e, revoke_found) sound
  | inr (inv, e) ↦
      rw (e, revoke_found) (settle-Sound (dropped h id inv) _ (dropped-Sound h id inv e sound))
]

settle-sessions : (h : GuestHub) (live : ℕ) → (settle h live).sessions ≡ h.sessions
unfolding settle stop_server
settle-sessions h live = ground arith

revoke-foreign :
    (h : GuestHub) (id : Text) (now_ms : ℕ) (j : Text) (t : GuestSession)
    → Sound h
    → lookup j (revoke h id now_ms).0.sessions ≡ some t
    → same t.invite id ≡ false
unfolding revoke revoke_found
revoke-foreign h id now_ms j t sound = elim (Option-cases (lookup id h.invites)) [
  | inl e ↦
      rw (e, revoke_found)
        (λ at.
          let (a, (i, l, r)) = sound.1 j t at in
          elim (Bool-cases (same t.invite id)) [
            | inr d ↦ d
            | inl d ↦ absurd (
                none-ne-some i
                  (sym e ∙ ap (λ k. lookup k h.invites) (sym ((same_iff t.invite id).0 d)) ∙ l))
          ])
  | inr (inv, e) ↦
      rw (e, revoke_found)
        (λ at.
          dropped-foreign h id inv j t sound
            (ap (lookup j) (sym (settle-sessions (dropped h id inv) _)) ∙ at))
]

erase-Sound :
    (h : GuestHub) (id : Text)
    → ((j : Text) (t : GuestSession) → lookup j h.sessions ≡ some t → same t.invite id ≡ false)
    → Sound h
    → SoundAt h.sessions h.by_invite (erase id h.invites)
erase-Sound h id foreign (book, held, own) = (
  book,
  λ j t at.
      let (a, (i, l, r)) = held j t at in
      let off = foreign j t at in
      let other : same id t.invite ≡ false =
        ground (arith, same_iff id t.invite, same_iff t.invite id) in
      (a, (i, lookup-erase id t.invite h.invites ∙ rw other l, r)),
  λ k i at. own k i (erase_cases id k i h.invites at).1,
)

pub remove_invite-Sound :
    (h : GuestHub) (id : Text) (now_ms : ℕ) → Sound h → Sound (remove_invite h id now_ms).0
unfolding remove_invite forget save_locked
remove_invite-Sound h id now_ms sound =
    let g = (revoke h id now_ms).0 in
    let kept : Sound g = revoke-Sound h id now_ms sound in
    elim (Option-cases (lookup id g.invites)) [
      | inl e ↦ rw (e, forget) kept
      | inr (inv, e) ↦
          rw (e, forget) (erase-Sound g id (λ j t. revoke-foreign h id now_ms j t sound) kept)
    ]

pub create-Sound :
    (h : GuestHub) (label folder : Text) (plain : Bool) (id token : Text) (now_ms ttl : ℕ)
    (listens writes : Bool)
    → Sound h
    → Sound (create h label folder plain id token now_ms ttl listens writes).0
unfolding create save_locked
create-Sound h label folder plain id token now_ms ttl listens writes sound =
    let up = ensure_server-Sound h listens sound in
    elim (Bool-cases (leb guest_max_invites (length h.invites))) [
      | inl a ↦ rw a sound
      | inr a ↦ elim (Bool-cases (not (ensure_server h listens).1)) [
        | inl b ↦ rw (a, b) up
        | inr b ↦ elim (Bool-cases (not writes)) [
          | inl c ↦ rw (a, b, c) up
          | inr c ↦
              rw (a, b, c) (insert-Sound _ _ (ensure_server h listens).0.invites id _ refl refl up)
        ]
      ]
    ]

pub regenerate-Sound :
    (h : GuestHub) (id : Text) (listens writes : Bool)
    → Sound h
    → Sound (regenerate h id listens writes).0
unfolding regenerate regenerate_found
regenerate-Sound h id listens writes sound = elim (Option-cases (lookup id h.invites)) [
  | inl e ↦ rw (e, regenerate_found) sound
  | inr (inv, e) ↦
      rw (e, regenerate_found)
        (elim (Bool-cases inv.revoked) [
          | inl v ↦ rw v sound
          | inr v ↦
              let up = ensure_server-Sound h listens sound in
              elim (Bool-cases (ensure_server h listens).1) [
                | inr u ↦ rw (v, u) up
                | inl u ↦ elim (Bool-cases writes) [
                  | inl w ↦ rw (v, u, w) up
                  | inr w ↦ rw (v, u, w) up
                ]
              ]
        ])
]

pub resume-Sound :
    (h : GuestHub) (now_ms : ℕ) (listens : Bool) → Sound h → Sound (resume h now_ms listens)
unfolding resume
resume-Sound h now_ms listens sound = elim (Bool-cases (live_count_locked h now_ms == 0)) [
  | inl e ↦ rw e sound
  | inr e ↦ rw e (ensure_server-Sound h listens sound)
]

expire-Sound : (h : GuestHub) (now_ms : ℕ) (ids : List Text) → Sound h → Sound (expire h now_ms ids)
unfolding expire
expire-Sound h now_ms [] sound = sound
expire-Sound h now_ms (id ∷ ids) sound = settle-Sound _ (live_count_locked h now_ms) (
    drop_all-Sound (record h { announced = h.announced ++ id ∷ ids }) (tabs_of_all h (id ∷ ids))
      (codes "invite expired") sound)

pub sweep_expired-Sound : (h : GuestHub) (now_ms : ℕ) → Sound h → Sound (sweep_expired h now_ms)
unfolding sweep_expired
sweep_expired-Sound h now_ms = expire-Sound h now_ms (newly_expired h.announced now_ms h.invites)

check_invite-revoked :
    (o : Option Invite) (fits : Bool) (now_ms : ℕ) (inv : Invite)
    → check_invite o fits now_ms ≡ some inv
    → inv.revoked ≡ false
unfolding check_invite usable
check_invite-revoked none fits now_ms inv e = absurd (none-ne-some inv e)
check_invite-revoked (some i) fits now_ms inv e = ground arith

-- A token opens only an invite that is not revoked.
pub invite_for-revoked :
    (h : GuestHub) (id token : Text) (now_ms : ℕ) (inv : Invite)
    → invite_for h id token now_ms ≡ some inv
    → inv.revoked ≡ false
unfolding invite_for
invite_for-revoked h id token now_ms = check_invite-revoked (lookup id h.invites) _ now_ms
