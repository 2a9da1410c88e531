-- ===== src/Operator/Refusals.antt =====
-- A request that is refused changes nothing.
use lanrunner.Common.{
  ℕ, ◌≡◌, refl, sym, ap, ◌∙◌, Bool, true, false, [], Option, none, some, not, Text, same, inl, inr,
  Bool-cases, arith,
}
use lanrunner.Common.Dict.{Dict}
use lanrunner.Guest.Session.{GuestSession}
use lanrunner.Guest.Hub.{GuestHub, Invite}
use lanrunner.Guest.Hub.Invites.{
  Created, created, too_many, no_server, no_folder, Refreshed, refreshed, unknown_invite,
  invite_revoked, server_failed, folder_failed, create, revoke, remove_invite, regenerate,
}
use lanrunner.Guest.Hub.Invites.Refused.{
  SameGuests, made, create-refused, regenerate-SameGuests, revoke-refused, remove_invite-refused,
}
use lanrunner.Sanitize.{sanitize_nick}
use lanrunner.Trust.{set_verified}
use lanrunner.History.{valid_conversation_id}
use lanrunner.Chat.{App}
use lanrunner.Operator.{
  Answer, failed, posted, with_hub, created_answer, found_answer, refreshed_answer, handle_send,
  handle_typing, handle_nick, handle_verify, handle_clear_messages, handle_guest_new,
  handle_guest_revoke, handle_guest_remove, handle_guest_refresh, or_room, Request, send_text,
  typing, rename, verify, clear, guest_new, guest_revoke, guest_remove, guest_refresh, serve,
}

abbrev pub invites_of : Option GuestHub → Dict Invite
invites_of none = []
invites_of (some h) = h.invites

abbrev pub sessions_of : Option GuestHub → Dict GuestSession
sessions_of none = []
sessions_of (some h) = h.sessions

-- The name, the transcripts, the peers, their sessions and pins, the invites and the sessions of guests
-- are those of before.
abbrev pub Unchanged : App → App → Type 0
Unchanged a a' =
    (a'.nick ≡ a.nick)
    × (a'.hist ≡ a.hist)
    × (a'.net ≡ a.net)
    × (invites_of a'.guests ≡ invites_of a.guests)
    × (sessions_of a'.guests ≡ sessions_of a.guests)

-- Refused, and then unchanged.
abbrev RefusedUnchanged : App → App × Answer → Type 0
RefusedUnchanged a out = (code : ℕ) → out.1 ≡ failed code → Unchanged a out.0

same_app : (a : App) → Unchanged a a
same_app a = (refl, refl, refl, refl, refl)

posted-Refused :
    {B : Type 0} (a : App) (post : Bool) (body : Option B) (serve : B → App × Answer)
    → ((b : B) → RefusedUnchanged a (serve b))
    → RefusedUnchanged a (posted a post body serve)
unfolding posted
posted-Refused a post none serve each code e = same_app a
posted-Refused a true (some b) serve each code e = each b code e
posted-Refused a false (some b) serve each code e = same_app a

with_hub-Refused :
    {B : Type 0} (a : App) (post : Bool) (body : Option B) (now : ℕ) (o : Option GuestHub)
    (serve : GuestHub → B → GuestHub × Answer)
    → a.guests ≡ o
    → ((h : GuestHub) (b : B) (code : ℕ) → (serve h b).1 ≡ failed code → SameGuests h (serve h b).0)
    → RefusedUnchanged a (with_hub a post body now o serve)
unfolding with_hub
with_hub-Refused a post body now none serve here each code e = same_app a
with_hub-Refused a post none now (some h) serve here each code e = same_app a
with_hub-Refused a false (some b) now (some h) serve here each code e = same_app a
with_hub-Refused a true (some b) now (some h) serve here each code e =
    let (invites, sessions, by) = each h b code e in
    (refl, refl, refl, invites ∙ ap invites_of (sym here), sessions ∙ ap sessions_of (sym here))

created_answer-made :
    (out : GuestHub × Created) (code : ℕ)
    → (created_answer out).1 ≡ failed code
    → made out.1 ≡ false
unfolding created_answer
created_answer-made (h, created inv) code e = absurd (ground arith)
created_answer-made (h, too_many) code e = refl
created_answer-made (h, no_server) code e = refl
created_answer-made (h, no_folder) code e = refl

created_answer-hub : (out : GuestHub × Created) → (created_answer out).0 ≡ out.0
unfolding created_answer
created_answer-hub (h, created inv) = refl
created_answer-hub (h, too_many) = refl
created_answer-hub (h, no_server) = refl
created_answer-hub (h, no_folder) = refl

refreshed_answer-hub : (out : GuestHub × Refreshed) → (refreshed_answer out).0 ≡ out.0
unfolding refreshed_answer
refreshed_answer-hub (h, refreshed folder) = refl
refreshed_answer-hub (h, unknown_invite) = refl
refreshed_answer-hub (h, invite_revoked) = refl
refreshed_answer-hub (h, server_failed) = refl
refreshed_answer-hub (h, folder_failed) = refl

found_answer-found :
    (out : GuestHub × Bool) (code : ℕ) → (found_answer out).1 ≡ failed code → out.1 ≡ false
unfolding found_answer
found_answer-found (h, true) code e = absurd (ground arith)
found_answer-found (h, false) code e = refl

found_answer-hub : (out : GuestHub × Bool) → (found_answer out).0 ≡ out.0
unfolding found_answer
found_answer-hub (h, found) = refl

moved : (h g g' : GuestHub) → g' ≡ g → SameGuests h g → SameGuests h g'
moved h g g' e kept = rw e kept

same_guests : (h h' : GuestHub) → h' ≡ h → SameGuests h h'
same_guests h h' e = rw e (refl, refl, refl)

module _ (can_seal : GuestSession → Bool) where
  serve-RefusedUnchanged :
      (a : App) (post : Bool) (r : Request) (now now_ms : ℕ)
      → RefusedUnchanged a (serve can_seal a post r now now_ms)
  unfolding serve handle_send handle_typing handle_nick handle_verify handle_clear_messages
      handle_guest_new handle_guest_revoke handle_guest_remove handle_guest_refresh
  serve-RefusedUnchanged a post (send_text up body mid) now now_ms =
      posted-Refused a post body _ (λ b code e. absurd (ground arith))
  serve-RefusedUnchanged a post (typing body) now now_ms =
      posted-Refused a post body _ (λ conv code e. absurd (ground arith))
  serve-RefusedUnchanged a post (rename body) now now_ms =
      posted-Refused a post body _ (λ nick code. elim (Bool-cases (same (sanitize_nick nick) [])) [
        | inl h ↦ rw h (λ e. same_app a)
        | inr h ↦ rw h (λ e. absurd (ground arith))
      ])
  serve-RefusedUnchanged a post (verify body) now now_ms =
      posted-Refused a post body _ (λ (b : Text × Bool) code.
        elim (Bool-cases (not (set_verified a.net.trust b.0 b.1).1)) [
          | inl h ↦ rw h (λ e. same_app a)
          | inr h ↦ rw h (λ e. absurd (ground arith))
        ])
  serve-RefusedUnchanged a post (clear body) now now_ms = posted-Refused a post body _ (λ conv code.
      elim (Bool-cases (not (valid_conversation_id (or_room conv)))) [
        | inl h ↦ rw h (λ e. same_app a)
        | inr h ↦ rw h (λ e. absurd (ground arith))
      ])
  serve-RefusedUnchanged a post (guest_new body dir id token ttl listens writes) now now_ms =
      with_hub-Refused a post body now a.guests _ refl (λ h b code e.
        let out = create h b.label (dir b) b.allow_plain id token now_ms ttl listens writes in
        moved h out.0 _ (created_answer-hub out) (
          create-refused h b.label (dir b) b.allow_plain id token now_ms ttl listens writes
            (created_answer-made out code e)))
  serve-RefusedUnchanged a post (guest_revoke body) now now_ms =
      with_hub-Refused a post body now a.guests _ refl (λ h id code e.
        let out = revoke h id now_ms in
        same_guests h _
          (found_answer-hub out ∙ revoke-refused h id now_ms (found_answer-found out code e)))
  serve-RefusedUnchanged a post (guest_remove body) now now_ms =
      with_hub-Refused a post body now a.guests _ refl (λ h id code e.
        let out = remove_invite h id now_ms in
        same_guests h _ (
          found_answer-hub out ∙ remove_invite-refused h id now_ms (found_answer-found out code e)))
  serve-RefusedUnchanged a post (guest_refresh body listens writes) now now_ms =
      with_hub-Refused a post body now a.guests _ refl (λ h id code e.
        let out = regenerate h id listens writes in
        moved h out.0 _ (refreshed_answer-hub out) (regenerate-SameGuests h id listens writes))

  -- Whatever changes the page asks for, a request that is answered by an error, for its method, its
  -- body, its content or a failure further down, leaves the name, the transcripts, the peers, their
  -- sessions and pins, the invites and the sessions of guests as they were.
  pub serve-Unchanged :
      (a : App) (post : Bool) (r : Request) (now now_ms code : ℕ)
      → (serve can_seal a post r now now_ms).1 ≡ failed code
      → Unchanged a (serve can_seal a post r now now_ms).0
  serve-Unchanged a post r now now_ms = serve-RefusedUnchanged a post r now now_ms
