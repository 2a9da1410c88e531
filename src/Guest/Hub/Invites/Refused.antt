-- ===== src/Guest/Hub/Invites/Refused.antt =====
-- What an operation on invites leaves where it fails.
use lanrunner.Common.{
  ℕ, ◌≡◌, refl, Bool, true, false, Option, none, some, none-ne-some, sym, ap, ◌∙◌, leb, not, Text,
  length, inl, inr, Bool-cases, Option-cases, arith,
}
use lanrunner.Common.Dict.{lookup, lookup-insert_self}
use lanrunner.Guest.Hub.{GuestHub, Invite}
use lanrunner.Guest.Hub.Invites.Gone.{revoke-invites}
use lanrunner.Guest.Hub.Invites.{
  Created, created, too_many, no_server, no_folder, Refreshed, refreshed, unknown_invite,
  invite_revoked, server_failed, folder_failed, ensure_server, create, revoke, revoke_found, forget,
  remove_invite, regenerate, regenerate_found, guest_max_invites,
}

-- The invites and the sessions are those of before; the server may have been started.
abbrev pub SameGuests : GuestHub → GuestHub → Type 0
SameGuests h h' =
    (h'.invites ≡ h.invites) × (h'.sessions ≡ h.sessions) × (h'.by_invite ≡ h.by_invite)

abbrev pub made : Created → Bool
made (created inv) = true
made too_many = false
made no_server = false
made no_folder = false

abbrev pub renewed : Refreshed → Bool
renewed (refreshed folder) = true
renewed unknown_invite = false
renewed invite_revoked = false
renewed server_failed = false
renewed folder_failed = false

ensure_server-SameGuests :
    (h : GuestHub) (listens : Bool) → SameGuests h (ensure_server h listens).0
unfolding ensure_server
ensure_server-SameGuests h listens = elim (Bool-cases h.running) [
  | inl r ↦ rw r (refl, refl, refl)
  | inr r ↦ elim (Bool-cases listens) [
    | inl l ↦ rw (r, l) (refl, refl, refl)
    | inr l ↦ rw (r, l) (refl, refl, refl)
  ]
]

pub create-refused :
    (h : GuestHub) (label folder : Text) (plain : Bool) (id token : Text) (now_ms ttl : ℕ)
    (listens writes : Bool)
    → made (create h label folder plain id token now_ms ttl listens writes).1 ≡ false
    → SameGuests h (create h label folder plain id token now_ms ttl listens writes).0
unfolding create
create-refused h label folder plain id token now_ms ttl listens writes =
    let up = ensure_server-SameGuests h listens in
    elim (Bool-cases (leb guest_max_invites (length h.invites))) [
      | inl a ↦ rw a (λ no. (refl, refl, refl))
      | inr a ↦ elim (Bool-cases (not (ensure_server h listens).1)) [
        | inl b ↦ rw (a, b) (λ no. up)
        | inr b ↦ elim (Bool-cases (not writes)) [
          | inl c ↦ rw (a, b, c) (λ no. up)
          | inr c ↦ rw (a, b, c) (λ no. absurd (ground arith))
        ]
      ]
    ]

pub regenerate-SameGuests :
    (h : GuestHub) (id : Text) (listens writes : Bool)
    → SameGuests h (regenerate h id listens writes).0
unfolding regenerate regenerate_found
regenerate-SameGuests h id listens writes = elim (Option-cases (lookup id h.invites)) [
  | inl e ↦ rw (e, regenerate_found) (refl, refl, refl)
  | inr (inv, e) ↦
      rw (e, regenerate_found)
        (let up = ensure_server-SameGuests h listens in
          elim (Bool-cases inv.revoked) [
            | inl v ↦ rw v (refl, refl, refl)
            | inr v ↦ elim (Bool-cases (ensure_server h listens).1) [
              | inr u ↦ rw (v, u) up
              | inl u ↦ elim (Bool-cases writes) [
                | inl w ↦ rw (v, u, w) up
                | inr w ↦ rw (v, u, w) up
              ]
            ]
          ])
]

pub revoke-refused :
    (h : GuestHub) (id : Text) (now_ms : ℕ)
    → (revoke h id now_ms).1 ≡ false
    → (revoke h id now_ms).0 ≡ h
unfolding revoke revoke_found
revoke-refused h id now_ms = elim (Option-cases (lookup id h.invites)) [
  | inl e ↦ rw (e, revoke_found) (λ no. refl)
  | inr (inv, e) ↦ rw (e, revoke_found) (λ no. absurd (ground arith))
]

-- Of an invite that is there, a revocation leaves it there.
revoke-lookup :
    (h : GuestHub) (id : Text) (now_ms : ℕ) (inv : Invite)
    → lookup id h.invites ≡ some inv
    → lookup id (revoke h id now_ms).0.invites ≡ some (record inv { revoked = true })
revoke-lookup h id now_ms inv e =
    ap (lookup id) (revoke-invites h id now_ms inv e)
    ∙ lookup-insert_self id (record inv { revoked = true }) h.invites

forget-refused :
    (h : GuestHub) (id : Text) (o : Option Invite)
    → (forget h id o).1 ≡ false
    → ((forget h id o).0 ≡ h) × (o ≡ none)
unfolding forget
forget-refused h id none e = (refl, refl)
forget-refused h id (some inv) e = absurd (ground arith)

revoke-unknown :
    (h : GuestHub) (id : Text) (now_ms : ℕ)
    → lookup id h.invites ≡ none
    → (revoke h id now_ms).0 ≡ h
unfolding revoke revoke_found
revoke-unknown h id now_ms e = rw (e, revoke_found) refl

pub remove_invite-refused :
    (h : GuestHub) (id : Text) (now_ms : ℕ)
    → (remove_invite h id now_ms).1 ≡ false
    → (remove_invite h id now_ms).0 ≡ h
unfolding remove_invite
remove_invite-refused h id now_ms e =
    let h' = (revoke h id now_ms).0 in
    let (same_hub, gone) = forget-refused h' id (lookup id h'.invites) e in
    elim (Option-cases (lookup id h.invites)) [
      | inl unknown ↦ same_hub ∙ revoke-unknown h id now_ms unknown
      | inr (inv, known) ↦ absurd (none-ne-some _ (sym gone ∙ revoke-lookup h id now_ms inv known))
    ]
