-- ===== src/Guest/Hub/Invites/Restart.antt =====
-- The invite file brings the invites back.
use lanrunner.Common.{
  ◌≡◌, refl, sym, ap, ◌∙◌, true, false, List, [], ◌∷◌, ◌++◌, Option, none, some, arith,
  if◌then◌else◌, Text, same, same_iff, inl, inr, Option-cases, Bool-cases, ◌||◌,
}
use lanrunner.Common.Dict.{Dict, lookup, insert, lookup-insert}
use lanrunner.Guest.Hub.{
  GuestHub, Invite, empty_hub, listed, prepend, load_from, load_one, new_guest_hub, save_locked,
}
use lanrunner.Guest.Hub.Reach.Ordered.{Ordered}
use lanrunner.Guest.Hub.Sessions.{member}

-- Every invite stands under its own id.
abbrev pub OwnIds : Dict Invite → Type 0
OwnIds invites = (id : Text) (inv : Invite) → lookup id invites ≡ some inv → inv.id ≡ id

-- What reading a file keeps of an invite: nothing, if it has no id or no token.
abbrev pub if_whole : Option Invite → Option Invite
if_whole none = none
if_whole (some inv) = if same inv.id [] || same inv.token [] then none else some inv

abbrev or_else : Option Invite → Option Invite → Option Invite
or_else none o = o
or_else (some inv) o = some inv

or_else-none : (o : Option Invite) → or_else o none ≡ o
or_else-none none = refl
or_else-none (some inv) = refl

load_one-part :
    (inv : Invite) (g : GuestHub)
    → (same inv.id [] || same inv.token []) ≡ true
    → load_one inv g ≡ g
unfolding load_one
load_one-part inv g e = rw e

load_one-whole :
    (inv : Invite) (g : GuestHub)
    → (same inv.id [] || same inv.token []) ≡ false
    → load_one inv g
      ≡ record g { invites = insert inv.id inv g.invites; order = g.order ++ inv.id ∷ [] }
unfolding load_one
load_one-whole inv g e = rw e

-- What is kept of the invite that stands under `id`.
if_whole-at :
    (invites : Dict Invite) (x id : Text) (inv : Invite)
    → lookup x invites ≡ some inv
    → same x id ≡ true
    → if_whole (lookup id invites)
      ≡ (if same inv.id [] || same inv.token [] then none else some inv)
if_whole-at invites x id inv e here =
    ap if_whole (ap (λ k. lookup k invites) (sym ((same_iff x id).0 here)) ∙ e)

-- Reading back an invite file written in this order: a listed invite is found, and what the hub had
-- stays where the file has nothing.
load_from-listed :
    (invites : Dict Invite) (order : List Text) (g : GuestHub) (id : Text)
    → OwnIds invites
    → ((inv : Invite) → lookup id g.invites ≡ some inv → if_whole (lookup id invites) ≡ some inv)
    → lookup id (load_from (listed order invites) g).invites ≡ (
        if member id order
        then or_else (if_whole (lookup id invites)) (lookup id g.invites)
        else lookup id g.invites)
unfolding load_from listed member
load_from-listed invites [] g id own sub = refl
load_from-listed invites (x ∷ order) g id own sub = elim (Option-cases (lookup x invites)) [
  | inl e ↦
      rw (e, prepend)
        (rw (load_from-listed invites order g id own sub) (ground (arith, same_iff x id)))
  | inr (inv, e) ↦ elim (Bool-cases (same inv.id [] || same inv.token [])) [
    | inl part ↦
        rw (e, prepend)
          (rw (load_one-part inv g part, load_from)
            (rw (load_from-listed invites order g id own sub) (elim (Bool-cases (same x id)) [
              | inr other ↦ rw other refl
              | inl here ↦
                  let gone : if_whole (lookup id invites) ≡ none =
                    if_whole-at invites x id inv e here ∙ rw part refl in
                  rw (here, gone) (ground arith)
            ])))
    | inr whole ↦
        let mine = own x inv e in
        let g' : GuestHub = record g {
          invites = insert inv.id inv g.invites;
          order = g.order ++ inv.id ∷ [];
        } in
        let at = λ (k : Text). lookup-insert inv.id k inv g.invites in
        let kept = if_whole-at invites x id inv e in
        rw (e, prepend)
          (rw (load_one-whole inv g whole, load_from)
            (rw
              (load_from-listed invites order g' id own
                (λ found eq. ground (arith, at id, sub found, kept, same_iff inv.id id)))
              (ground (arith, at id, same_iff x id, same_iff inv.id id, sub inv, kept))))
  ]
]

-- A restart after a save finds the invite under `id` as it is, or none if it has no id or no token;
-- where the file cannot be written, the restart finds what it would have found before.
abbrev pub Restarts : GuestHub → Text → Type 0
Restarts h id =
    lookup id (new_guest_hub (save_locked h).saved).invites
    ≡ (if h.disk then if_whole (lookup id h.invites) else lookup id (new_guest_hub h.saved).invites)

pub new_guest_hub-save_locked :
    (h : GuestHub) (id : Text) → OwnIds h.invites → Ordered h → Restarts h id
unfolding new_guest_hub save_locked
new_guest_hub-save_locked h id own ordered = elim (Bool-cases h.disk) [
  | inr e ↦ rw e refl
  | inl e ↦ rw e (
      load_from-listed h.invites h.order (record empty_hub { saved = listed h.order h.invites }) id
        own (λ inv found. unfold lookup in cc)
      ∙ unfold lookup in
        (ap (λ o. if member id h.order then o else none)
            (or_else-none (if_whole (lookup id h.invites)))
          ∙ elim (Option-cases (lookup id h.invites)) [
            | inl gone ↦ rw gone (ground arith)
            | inr (inv, there) ↦ rw (ordered id inv there) refl
          ]))
]
