-- ===== src/History/Receipts.antt =====
-- What one receipt adds to the counts.
use lanrunner.Common.{
  ℕ, ◌+◌, ◌≡◌, refl, ◌∙◌, false, List, [], ◌∷◌, ◌++◌, ◌&&◌, if◌then◌else◌, Text, codes, same,
  same_refl, arith, ◌⊎◌, inl, inr, Bool-cases,
}
use lanrunner.History.{History, HistEntry, stored, append, ack, acks_of, mark_delivered, safe_name}
use lanrunner.History.Transcript.{stored-append}

pub acks_of-append :
    (mid : Text) (l : List HistEntry) (e : HistEntry)
    → acks_of mid (l ++ e ∷ [])
      ≡ acks_of mid l + (if same e.kind (codes "ack") && same e.mid mid then 1 else 0)
unfolding acks_of
acks_of-append mid [] e = omega arith
acks_of-append mid (x ∷ l) e = omega (arith, acks_of-append mid l e)

pub acks_of-mark_delivered :
    (hist : History) (conv mid k : Text) (now : ℕ)
    → same mid [] ≡ false
    → acks_of k (stored (mark_delivered hist conv mid now) (safe_name conv))
      ≡ acks_of k (stored hist (safe_name conv)) + (if same mid k then 1 else 0)
unfolding mark_delivered
acks_of-mark_delivered hist conv mid k now named =
    rw (named, stored-append hist (ack conv mid now) (safe_name conv), same_refl (safe_name conv))
      (acks_of-append k (stored hist (safe_name conv)) (ack conv mid now)
        ∙ rw (same_refl (codes "ack")) refl)

pub mark_delivered-append :
    (hist : History) (conv mid : Text) (now : ℕ)
    → (mark_delivered hist conv mid now ≡ hist)
      ⊎ (mark_delivered hist conv mid now ≡ append hist (ack conv mid now))
unfolding mark_delivered
mark_delivered-append hist conv mid now = elim (Bool-cases (same mid [])) [
  | inl e ↦ rw e (inl refl)
  | inr e ↦ rw e (inr refl)
]
