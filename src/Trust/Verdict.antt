-- ===== src/Trust/Verdict.antt =====
-- When the store speaks of an impersonation.
use lanrunner.Common.{
  ℕ, ◌≡◌, ◌∙◌, Bool, false, [], ◌∷◌, Option, none, some, not, ◌&&◌, ◌||◌, arith, if◌then◌else◌,
  Text, same, same_refl, inl, inr, Option-cases,
}
use lanrunner.Common.Dict.{Dict, lookup}
use lanrunner.Trust.{
  TrustRecord, TrustStore, Status, impersonation, new, known, renamed, observe, sight, first_sight,
  seen_again, save, other_owner,
}

module _ (equal_fold : Text → Text → Bool) where
  -- Another key of the store shows this name.
  unfoldable pub claimed : Text → Text → Dict TrustRecord → Bool
  claimed fp nick [] = false
  claimed fp nick ((f, r) ∷ recs) =
      (not (same f fp) && equal_fold r.nick nick) || claimed fp nick recs

  abbrev pub NoEmptyKey : Dict TrustRecord → Type 0
  NoEmptyKey [] = Unit {0}
  NoEmptyKey ((f, r) ∷ recs) = (same f [] ≡ false) × NoEmptyKey recs

  other_owner-empty :
      (fp nick other : Text) (recs : Dict TrustRecord)
      → NoEmptyKey recs
      → same (other_owner equal_fold fp nick other recs) []
        ≡ (same other [] && not (claimed fp nick recs))
  unfolding other_owner claimed
  other_owner-empty fp nick other [] k = ground arith
  other_owner-empty fp nick other ((f, r) ∷ recs) k =
      other_owner-empty fp nick (if not (same f fp) && equal_fold r.nick nick then f else other)
        recs k.1
      ∙ ground (arith, k.0)

  -- The verdict that a sighting should get.
  abbrev pub verdict : Text → Dict TrustRecord → Option TrustRecord → Text → Status
  verdict fp recs o nick =
      if claimed fp nick recs
      then impersonation
      else elim o [ none ↦ new | some r ↦ if equal_fold r.nick nick then known else renamed ]

  -- In a store without an empty fingerprint a sighting is an impersonation exactly if another key
  -- shows the name under `equal_fold`; otherwise a first sighting, the same name or a new one.
  pub observe-verdict :
      (t : TrustStore) (fp nick : Text) (now : ℕ)
      → NoEmptyKey t.recs
      → (observe equal_fold t fp nick now).1.status ≡ verdict fp t.recs (lookup fp t.recs) nick
  unfolding observe sight first_sight seen_again save
  observe-verdict t fp nick now k = elim (Option-cases (lookup fp t.recs)) [
    | inl e ↦
        rw (e, sight, first_sight)
          (ground (arith, same_refl [], other_owner-empty fp nick [] t.recs k))
    | inr (r, e) ↦
        rw (e, sight, seen_again)
          (ground (arith, same_refl [], other_owner-empty fp nick [] t.recs k))
  ]
