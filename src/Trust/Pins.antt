-- ===== src/Trust/Pins.antt =====
-- What the store keeps of a key, whatever names it shows.
use lanrunner.Common.{
  Option, false, ℕ, ◌+◌, ◌≡◌, refl, sym, ap, ◌∙◌, Bool, true, List, [], ◌∷◌, none, some, arith,
  if◌then◌else◌, Text, same, same_iff, Bool-cases, inl, inr, Option-cases,
}
use lanrunner.Common.Dict.{Dict, lookup, insert, lookup-insert}
use lanrunner.Trust.{
  TrustRecord, TrustStore, observe, other_owner, sight, first_sight, seen_again, save, set_verified,
  set_verified_of,
}

-- What happens to a store.
pub data TrustEvent : Type 0 where
  observes : Text → Text → ℕ → TrustEvent
  verifies : Text → Bool → TrustEvent

lookup-insert_hit {ℓ} :
    {V : Type ℓ}
    → (k j : Text) (v : V) (m : Dict V) → same k j ≡ true
    → lookup j (insert k v m) ≡ some v
lookup-insert_hit k j v m h = rw (lookup-insert k j v m, h) refl

module _ (equal_fold : Text → Text → Bool) where
  pub trust_step : TrustStore → TrustEvent → TrustStore
  trust_step t (observes fp nick now) = (observe equal_fold t fp nick now).0
  trust_step t (verifies fp v) = (set_verified t fp v).0

  pub trust_run : TrustStore → List TrustEvent → TrustStore
  unfolding trust_step
  trust_run t [] = t
  trust_run t (e ∷ es) = trust_run (trust_step t e) es

  -- The verdict on a key that the operator passed last, or the one that it had.
  abbrev pub last_verdict : Text → Bool → List TrustEvent → Bool
  last_verdict fp v [] = v
  last_verdict fp v (observes other nick now ∷ es) = last_verdict fp v es
  last_verdict fp v (verifies other w ∷ es) = last_verdict fp (if same other fp then w else v) es

  abbrev pub sightings_of : Text → List TrustEvent → ℕ
  sightings_of fp [] = 0
  sightings_of fp (observes other nick now ∷ es) =
      (if same other fp then 1 else 0) + sightings_of fp es
  sightings_of fp (verifies other w ∷ es) = sightings_of fp es

  sight-recs_off :
      (t : TrustStore) (fp nick other k : Text) (now : ℕ) (o : Option TrustRecord)
      → same fp k ≡ false
      → lookup k (sight equal_fold t fp nick other now o).0.recs ≡ lookup k t.recs
  unfolding sight first_sight seen_again save
  sight-recs_off t fp nick other k now none off = lookup-insert fp k _ t.recs ∙ rw off refl
  sight-recs_off t fp nick other k now (some r) off = lookup-insert fp k _ t.recs ∙ rw off refl

  -- A sighting touches no other pin.
  pub observe-recs_off :
      (t : TrustStore) (fp nick k : Text) (now : ℕ)
      → same fp k ≡ false
      → lookup k (observe equal_fold t fp nick now).0.recs ≡ lookup k t.recs
  unfolding observe
  observe-recs_off t fp nick k now off =
      sight-recs_off t fp nick (other_owner equal_fold fp nick [] t.recs) k now (lookup fp t.recs)
        off

  observe-recs :
      (t : TrustStore) (fp other nick : Text) (now : ℕ) (r : TrustRecord)
      → lookup fp t.recs ≡ some r
      → (r' : TrustRecord) × (lookup fp (observe equal_fold t other nick now).0.recs ≡ some r')
        × (r'.first_seen ≡ r.first_seen)
        × (r'.verified ≡ r.verified)
        × (r'.sightings ≡ (if same other fp then 1 else 0) + r.sightings)
  unfolding observe sight first_sight seen_again save
  observe-recs t fp other nick now r e = elim (Bool-cases (same other fp)) [
    | inl h ↦
        let known : lookup other t.recs ≡ some r =
          ap (λ k. lookup k t.recs) ((same_iff other fp).0 h) ∙ e in
        rw (known, sight, h) (_, lookup-insert_hit other fp _ t.recs h, refl, refl, omega arith)
    | inr h ↦ elim (Option-cases (lookup other t.recs)) [
      | inl n ↦
          rw (n, sight, h) (r, lookup-insert other fp _ t.recs ∙ rw h e, refl, refl, omega arith)
      | inr (q, n) ↦
          rw (n, sight, h) (r, lookup-insert other fp _ t.recs ∙ rw h e, refl, refl, omega arith)
    ]
  ]

  set_verified-miss :
      (fp other : Text) (v : Bool) (t : TrustStore) (r : TrustRecord)
      → lookup other t.recs ≡ none
      → lookup fp t.recs ≡ some r
      → r.verified ≡ (if same other fp then v else r.verified)
  set_verified-miss fp other v t r n e = elim (Bool-cases (same other fp)) [
    | inl h ↦
        let clash : none ≡ some r =
          sym n ∙ ap (λ k. lookup k t.recs) ((same_iff other fp).0 h) ∙ e in
        ground arith
    | inr h ↦ rw h refl
  ]

  set_verified-recs :
      (t : TrustStore) (fp other : Text) (v : Bool) (r : TrustRecord)
      → lookup fp t.recs ≡ some r
      → (r' : TrustRecord) × (lookup fp (set_verified t other v).0.recs ≡ some r')
        × (r'.first_seen ≡ r.first_seen)
        × (r'.verified ≡ (if same other fp then v else r.verified))
        × (r'.sightings ≡ r.sightings)
  unfolding set_verified set_verified_of save
  set_verified-recs t fp other v r e = elim (Option-cases (lookup other t.recs)) [
    | inl n ↦ rw n (r, e, refl, set_verified-miss fp other v t r n e, refl)
    | inr (q, n) ↦ elim (Bool-cases (same other fp)) [
      | inl h ↦
          let known : lookup other t.recs ≡ some r =
            ap (λ k. lookup k t.recs) ((same_iff other fp).0 h) ∙ e in
          rw (known, h) (_, lookup-insert_hit other fp _ t.recs h, refl, refl, refl)
      | inr h ↦ rw (n, h) (r, lookup-insert other fp _ t.recs ∙ rw h e, refl, refl, refl)
    ]
  ]

  -- Of a key that is pinned, any events leave the record in place with its first sighting; its
  -- verified mark is what the operator said last, and its count grows by its own sightings.
  pub trust_run-pinned :
      (t : TrustStore) (fp : Text) (es : List TrustEvent) (r : TrustRecord)
      → lookup fp t.recs ≡ some r
      → (r' : TrustRecord) × (lookup fp (trust_run t es).recs ≡ some r')
        × (r'.first_seen ≡ r.first_seen)
        × (r'.verified ≡ last_verdict fp r.verified es)
        × (r'.sightings ≡ sightings_of fp es + r.sightings)
  unfolding trust_run trust_step
  trust_run-pinned t fp [] r e = (r, e, refl, refl, omega arith)
  trust_run-pinned t fp (observes other nick now ∷ es) r e =
      let (r1, e1, f1, v1, n1) = observe-recs t fp other nick now r e in
      let (r2, e2, f2, v2, n2) =
        trust_run-pinned (observe equal_fold t other nick now).0 fp es r1 e1 in
      (r2, e2, f2 ∙ f1, v2 ∙ ap (λ v. last_verdict fp v es) v1, n2 ∙ omega arith)
  trust_run-pinned t fp (verifies other w ∷ es) r e =
      let (r1, e1, f1, v1, n1) = set_verified-recs t fp other w r e in
      let (r2, e2, f2, v2, n2) = trust_run-pinned (set_verified t other w).0 fp es r1 e1 in
      (r2, e2, f2 ∙ f1, v2 ∙ ap (λ v. last_verdict fp v es) v1, n2 ∙ omega arith)
