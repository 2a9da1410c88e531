-- ===== src/Guest/Hub/Sessions/Opened.antt =====
-- The table of sessions after one was opened.
use lanrunner.Common.{
  ℕ, ◌≡◌, refl, sym, ap, ◌∙◌, false, List, [], ◌∷◌, none, some, none-ne-some, ltb, leb, length,
  Text, codes, same, same_iff, inl, inr, ◌⊎◌, Bool-cases, Option-cases, arith,
}
use lanrunner.Common.Dict.{Dict, lookup, lookup-insert, lookup-insert_self}
use lanrunner.Guest.Session.{GuestSession}
use lanrunner.Guest.Hub.{GuestHub, Invite, tabs, save_locked}
use lanrunner.Guest.Hub.Sessions.{guest_max_sessions, oldest_tab, evicted, enter, register}
use lanrunner.Guest.Hub.Sessions.Book.{drop_session-lookup}

-- `s` stands in the table, and whatever stands there beside it stood there before.
abbrev pub Opened : GuestHub → GuestSession → GuestHub → Type 0
Opened h s h' =
    (lookup s.sid h'.sessions ≡ some s)
    × ((k : Text) (t : GuestSession)
        → same s.sid k ≡ false
        → lookup k h'.sessions ≡ some t
        → lookup k h.sessions ≡ some t)

oldest_tab-held :
    (sessions : Dict GuestSession) (oldest : ℕ) (evict : Text) (sids : List Text)
    → (oldest_tab sessions oldest evict sids ≡ evict)
      ⊎ ((s : GuestSession) × (lookup (oldest_tab sessions oldest evict sids) sessions ≡ some s))
unfolding oldest_tab
oldest_tab-held sessions oldest evict [] = inl refl
oldest_tab-held sessions oldest evict (sid ∷ sids) = elim (Option-cases (lookup sid sessions)) [
  | inl e ↦ rw (e, oldest_tab) (oldest_tab-held sessions oldest evict sids)
  | inr (other, e) ↦ elim (Bool-cases (ltb other.created oldest)) [
    | inr b ↦ rw (e, oldest_tab, b) (oldest_tab-held sessions oldest evict sids)
    | inl b ↦
        rw (e, oldest_tab, b)
          (elim (oldest_tab-held sessions other.created sid sids) [
            | inl last ↦ inr (other, ap (λ k. lookup k sessions) last ∙ e)
            | inr held ↦ inr held
          ])
  ]
]

evicted-held :
    (h : GuestHub) (id : Text) (now : ℕ)
    → (evicted h id now ≡ [])
      ⊎ ((s : GuestSession) × (lookup (evicted h id now) h.sessions ≡ some s))
unfolding evicted
evicted-held h id now = elim (Bool-cases (leb guest_max_sessions (length (tabs h id)))) [
  | inl e ↦ rw e (oldest_tab-held h.sessions now [] (tabs h id))
  | inr e ↦ rw e (inl refl)
]

-- A tab that has to go was open before.
evicted-other :
    (h : GuestHub) (id sid : Text) (now : ℕ)
    → lookup sid h.sessions ≡ none
    → same (evicted h id now) [] ≡ false
    → same (evicted h id now) sid ≡ false
evicted-other h id sid now new out = elim (Bool-cases (same (evicted h id now) sid)) [
  | inr e ↦ e
  | inl e ↦ elim (evicted-held h id now) [
    | inl no_one ↦ absurd (ground (arith, same_iff (evicted h id now) []))
    | inr (s, held) ↦ absurd (
        none-ne-some s (
          sym new
          ∙ ap (λ k. lookup k h.sessions) (sym ((same_iff (evicted h id now) sid).0 e))
          ∙ held))
  ]
]

enter-Opened :
    (h : GuestHub) (inv : Invite) (s : GuestSession) (now_ms : ℕ)
    → Opened h s (enter h inv s now_ms)
unfolding enter save_locked
enter-Opened h inv s now_ms = (
  lookup-insert_self s.sid s h.sessions,
  λ k t off held. sym (lookup-insert s.sid k s h.sessions ∙ rw off refl) ∙ held,
)

pub register-Opened :
    (h : GuestHub) (inv : Invite) (s : GuestSession) (now now_ms : ℕ)
    → lookup s.sid h.sessions ≡ none
    → Opened h s (register h inv s now now_ms)
unfolding register
register-Opened h inv s now now_ms new =
    let (there, before) = enter-Opened h inv s now_ms in
    elim (Bool-cases (same (evicted h s.invite now) [])) [
      | inl e ↦ rw e (there, before)
      | inr e ↦
          let gone =
            drop_session-lookup (enter h inv s now_ms) (evicted h s.invite now)
              (codes "replaced by a newer tab") in
          rw e (
            gone s.sid ∙ rw (evicted-other h s.invite s.sid now new e) there,
            λ k t off held. before k t off (ground (arith, gone k)),
          )
    ]
