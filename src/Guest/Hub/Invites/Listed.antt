-- ===== src/Guest/Hub/Invites/Listed.antt =====
-- The operations on invites keep every invite in the order.
use lanrunner.Common.{
  ℕ, ◌≡◌, refl, ◌∙◌, Bool, true, false, List, [], ◌∷◌, ◌++◌, not, ◌==◌, leb, arith, Text, codes,
  same, same_iff, length, inl, inr, Bool-cases, Option-cases,
}
use lanrunner.Common.Dict.{lookup, insert, erase_cases}
use lanrunner.Guest.Hub.Reach.Ordered.{Ordered, insert-Ordered, change-Ordered}
use lanrunner.Guest.Hub.{GuestHub, save_locked, live_count_locked, tabs}
use lanrunner.Guest.Hub.Sessions.{member}
use lanrunner.Guest.Hub.Sessions.Listed.{drop_all-Ordered}
use lanrunner.Guest.Hub.Invites.{
  ensure_server, stop_server, create, settle, revoke, revoke_found, forget, remove_first,
  remove_invite, regenerate, regenerate_found, guest_max_invites, sweep_expired, expire,
  newly_expired, tabs_of_all, resume,
}

settle-Ordered : (h : GuestHub) (live : ℕ) → Ordered h → Ordered (settle h live)
unfolding settle stop_server
settle-Ordered h live ordered = elim (Bool-cases (live == 0)) [
  | inl e ↦ rw e ordered
  | inr e ↦ rw e ordered
]

ensure_server-Ordered :
    (h : GuestHub) (listens : Bool) → Ordered h → Ordered (ensure_server h listens).0
unfolding ensure_server
ensure_server-Ordered h listens ordered = elim (Bool-cases h.running) [
  | inl r ↦ rw r ordered
  | inr r ↦ elim (Bool-cases listens) [ inl l ↦ rw (r, l) ordered | inr l ↦ rw (r, l) ordered ]
]

pub revoke-Ordered :
    (h : GuestHub) (id : Text) (now_ms : ℕ) → Ordered h → Ordered (revoke h id now_ms).0
unfolding revoke revoke_found
revoke-Ordered h id now_ms ordered = elim (Option-cases (lookup id h.invites)) [
  | inl e ↦ rw (e, revoke_found) ordered
  | inr (inv, e) ↦
      rw (e, revoke_found)
        (settle-Ordered _ _ (
          drop_all-Ordered
            (save_locked
              (record h { invites = insert id (record inv { revoked = true }) h.invites }))
            (tabs h id) (codes "invite revoked")
            (unfold save_locked in
              change-Ordered h.invites h.order id (record inv { revoked = true }) inv e ordered)))
]

member-remove_first :
    (id k : Text) (order : List Text)
    → same id k ≡ false
    → member k (remove_first id order) ≡ member k order
unfolding remove_first member
member-remove_first id k [] off = refl
member-remove_first id k (x ∷ order) off =
    ground (arith, member-remove_first id k order off, same_iff x id)

pub remove_invite-Ordered :
    (h : GuestHub) (id : Text) (now_ms : ℕ) → Ordered h → Ordered (remove_invite h id now_ms).0
unfolding remove_invite forget save_locked
remove_invite-Ordered h id now_ms ordered =
    let g = (revoke h id now_ms).0 in
    let kept : Ordered g = revoke-Ordered h id now_ms ordered in
    elim (Option-cases (lookup id g.invites)) [
      | inl e ↦ rw (e, forget) kept
      | inr (inv, e) ↦
          rw (e, forget)
            (λ k i held.
              let (off, was) = erase_cases id k i g.invites held in
              member-remove_first id k g.order off ∙ kept k i was)
    ]

pub create-Ordered :
    (h : GuestHub) (label folder : Text) (plain : Bool) (id token : Text) (now_ms ttl : ℕ)
    (listens writes : Bool)
    → Ordered h
    → Ordered (create h label folder plain id token now_ms ttl listens writes).0
unfolding create save_locked
create-Ordered h label folder plain id token now_ms ttl listens writes ordered =
    let up = ensure_server-Ordered h listens ordered in
    elim (Bool-cases (leb guest_max_invites (length h.invites))) [
      | inl a ↦ rw a ordered
      | inr a ↦ elim (Bool-cases (not (ensure_server h listens).1)) [
        | inl b ↦ rw (a, b) up
        | inr b ↦ elim (Bool-cases (not writes)) [
          | inl c ↦ rw (a, b, c) up
          | inr c ↦
              rw (a, b, c)
                (insert-Ordered (ensure_server h listens).0.invites
                  (ensure_server h listens).0.order id _ up)
        ]
      ]
    ]

pub regenerate-Ordered :
    (h : GuestHub) (id : Text) (listens writes : Bool)
    → Ordered h
    → Ordered (regenerate h id listens writes).0
unfolding regenerate regenerate_found
regenerate-Ordered h id listens writes ordered = elim (Option-cases (lookup id h.invites)) [
  | inl e ↦ rw (e, regenerate_found) ordered
  | inr (inv, e) ↦
      let up = ensure_server-Ordered h listens ordered in
      rw (e, regenerate_found)
        (elim (Bool-cases inv.revoked) [
          | inl v ↦ rw v ordered
          | inr v ↦ elim (Bool-cases (ensure_server h listens).1) [
            | inr u ↦ rw (v, u) up
            | inl u ↦ elim (Bool-cases writes) [ inl w ↦ rw (v, u, w) up | inr w ↦ rw (v, u, w) up ]
          ]
        ])
]

pub resume-Ordered :
    (h : GuestHub) (now_ms : ℕ) (listens : Bool) → Ordered h → Ordered (resume h now_ms listens)
unfolding resume
resume-Ordered h now_ms listens ordered = elim (Bool-cases (live_count_locked h now_ms == 0)) [
  | inl e ↦ rw e ordered
  | inr e ↦ rw e (ensure_server-Ordered h listens ordered)
]

expire-Ordered :
    (h : GuestHub) (now_ms : ℕ) (ids : List Text) → Ordered h → Ordered (expire h now_ms ids)
unfolding expire
expire-Ordered h now_ms [] ordered = ordered
expire-Ordered h now_ms (id ∷ ids) ordered = settle-Ordered _ (live_count_locked h now_ms) (
    drop_all-Ordered (record h { announced = h.announced ++ id ∷ ids }) (tabs_of_all h (id ∷ ids))
      (codes "invite expired") ordered)

pub sweep_expired-Ordered :
    (h : GuestHub) (now_ms : ℕ) → Ordered h → Ordered (sweep_expired h now_ms)
unfolding sweep_expired
sweep_expired-Ordered h now_ms =
    expire-Ordered h now_ms (newly_expired h.announced now_ms h.invites)
