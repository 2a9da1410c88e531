-- ===== src/Guest/Hub/Reach/Ordered.antt =====
-- The order of the panel, which is the order of the invite file, has every invite of the gateway.
use lanrunner.Common.{
  ◌≡◌, refl, sym, ap, ◌∙◌, true, List, [], ◌∷◌, ◌++◌, some, none-ne-some, ◌||◌, arith, Text, same,
  same_iff, inl, inr, Bool-cases,
}
use lanrunner.Common.Dict.{Dict, lookup, insert, insert_cases}
use lanrunner.Guest.Hub.{GuestHub, Invite, load_one, load_from, new_guest_hub, empty_hub}
use lanrunner.Guest.Hub.Sessions.{member}

abbrev pub OrderedAt : Dict Invite → List Text → Type 0
OrderedAt invites order =
    (id : Text) (inv : Invite) → lookup id invites ≡ some inv → member id order ≡ true

abbrev pub Ordered : GuestHub → Type 0
Ordered h = OrderedAt h.invites h.order

member-append :
    (k j : Text) (order : List Text) → member k (order ++ j ∷ []) ≡ (member k order || same j k)
unfolding member
member-append k j [] = ground arith
member-append k j (x ∷ order) = ground (arith, member-append k j order)

-- A new invite goes to the end of the order.
pub insert-Ordered :
    (invites : Dict Invite) (order : List Text) (id : Text) (inv : Invite)
    → OrderedAt invites order
    → OrderedAt (insert id inv invites) (order ++ id ∷ [])
insert-Ordered invites order id inv ordered k i held =
    member-append k id order ∙ elim (insert_cases id k inv i invites held) [
      | inl (here, v) ↦ ground (arith, same_iff id k)
      | inr (off, old) ↦ rw (ordered k i old) refl
    ]

-- An invite that is there may change.
pub change-Ordered :
    (invites : Dict Invite) (order : List Text) (id : Text) (inv old : Invite)
    → lookup id invites ≡ some old
    → OrderedAt invites order
    → OrderedAt (insert id inv invites) order
change-Ordered invites order id inv old there ordered k i held =
    elim (insert_cases id k inv i invites held) [
      | inl (here, v) ↦ ap (λ j. member j order) (sym here) ∙ ordered id old there
      | inr (off, was) ↦ ordered k i was
    ]

load_one-Ordered : (inv : Invite) (h : GuestHub) → Ordered h → Ordered (load_one inv h)
unfolding load_one
load_one-Ordered inv h ordered = elim (Bool-cases (same inv.id [] || same inv.token [])) [
  | inl e ↦ rw e ordered
  | inr e ↦ rw e (insert-Ordered h.invites h.order inv.id inv ordered)
]

load_from-Ordered : (list : List Invite) (h : GuestHub) → Ordered h → Ordered (load_from list h)
unfolding load_from
load_from-Ordered [] h ordered = ordered
load_from-Ordered (inv ∷ list) h ordered =
    load_from-Ordered list (load_one inv h) (load_one-Ordered inv h ordered)

pub new_guest_hub-Ordered : (file : List Invite) → Ordered (new_guest_hub file)
unfolding new_guest_hub lookup
new_guest_hub-Ordered file =
    load_from-Ordered file (record empty_hub { saved = file })
      (λ id inv held. absurd (none-ne-some inv held))
