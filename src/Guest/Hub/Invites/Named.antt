-- ===== src/Guest/Hub/Invites/Named.antt =====
-- What an invite must be that a handshake names.
use lanrunner.Common.{
  ℕ, ◌≤◌, ◌≡◌, refl, sym, true, false, some, none-ne-some, Text, same, same_iff, inl, inr, ◌⊎◌,
  Option-cases, arith,
}
use lanrunner.Common.Dict.{lookup}
use lanrunner.Guest.Hub.{GuestHub, Invite, usable, expired}
use lanrunner.Guest.Hub.Invites.{token_of, check_invite, invite_for}

-- It is there under the id, its token is the one given, and it is neither revoked nor run out.
abbrev pub Named : GuestHub → Text → Text → ℕ → Invite → Type 0
Named h id token now_ms inv =
    (lookup id h.invites ≡ some inv)
    × (inv.token ≡ token)
    × (inv.revoked ≡ false)
    × ((inv.expires ≡ 0) ⊎ (now_ms ≤ inv.expires))

usable-cases :
    (inv : Invite) (now_ms : ℕ)
    → usable inv now_ms ≡ true
    → (inv.revoked ≡ false) × ((inv.expires ≡ 0) ⊎ (now_ms ≤ inv.expires))
unfolding usable expired
usable-cases inv now_ms e = ground arith

pub invite_for-Named :
    (h : GuestHub) (id token : Text) (now_ms : ℕ) (inv : Invite)
    → invite_for h id token now_ms ≡ some inv
    → Named h id token now_ms inv
unfolding invite_for
invite_for-Named h id token now_ms inv = elim (Option-cases (lookup id h.invites)) [
  | inl e ↦ rw (e, check_invite) (λ found. absurd (none-ne-some inv found))
  | inr (there, e) ↦
      rw (e, check_invite, token_of)
        (λ found.
          let fits : same there.token token ≡ true = ground arith in
          let good : usable there now_ms ≡ true = ground arith in
          let it : there ≡ inv = ground arith in
          let (fresh, time) = usable-cases there now_ms good in
          rw (sym it) (refl, (same_iff there.token token).0 fits, fresh, time))
]
