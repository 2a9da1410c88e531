-- ===== src/Common/Dict.antt =====
-- Go maps with string keys, as association lists with the entries in any order. The loops of the
-- program over a map walk the list, so a theorem for every list holds for every iteration order.
use lanrunner.Common.Tests.{if◌then◌else◌, Bool-cases}
use lanrunner.Common.Lists.{length}
use lanrunner.Common.Strings.{Text, same, same_iff, same_refl}
use Prim.Native.Nat.{◌≤◌, ◌<◌, ◌+◌}
use mathlib.Core.Bool.{Bool, false}
use mathlib.Core.List.{List, [], ◌∷◌}
use mathlib.Core.Option.{Option, none, some, some-injective}
use mathlib.Core.Path.{◌≡◌, refl, sym, ◌∙◌}
use mathlib.Core.Logic.{◌⊎◌, inl, inr}
use native.Mathlib.Omega.{arith}

abbrev pub Dict {ℓ} : Type ℓ → Type ℓ
Dict V = List (Text × V)

module _ {ℓ} {V : Type ℓ} where
  unfoldable pub lookup : Text → Dict V → Option V
  lookup k [] = none
  lookup k ((j, v) ∷ m) = if same j k then some v else lookup k m

  unfoldable pub insert : Text → V → Dict V → Dict V
  insert k v [] = (k, v) ∷ []
  insert k v ((j, w) ∷ m) = if same j k then (k, v) ∷ m else (j, w) ∷ insert k v m

  unfoldable pub erase : Text → Dict V → Dict V
  erase k [] = []
  erase k ((j, w) ∷ m) = if same j k then erase k m else (j, w) ∷ erase k m

  pub lookup-insert :
      (k j : Text) (v : V) (m : Dict V)
      → lookup j (insert k v m) ≡ (if same k j then some v else lookup j m)
  unfolding lookup insert
  lookup-insert k j v [] = refl
  lookup-insert k j v ((i, w) ∷ m) =
      ground (arith, same_iff k j, same_iff i k, same_iff i j, lookup-insert k j v m)

  pub lookup-insert_self : (k : Text) (v : V) (m : Dict V) → lookup k (insert k v m) ≡ some v
  lookup-insert_self k v m = rw (lookup-insert k k v m, same_refl k)

  pub lookup-erase :
      (k j : Text) (m : Dict V) → lookup j (erase k m) ≡ (if same k j then none else lookup j m)
  unfolding lookup erase
  lookup-erase k j [] = ground arith
  lookup-erase k j ((i, w) ∷ m) =
      ground (arith, same_iff k j, same_iff i k, same_iff i j, lookup-erase k j m)

  -- No key stands twice.
  abbrev pub Unique : Dict V → Type ℓ
  Unique [] = Unit {ℓ}
  Unique ((k, v) ∷ m) = (lookup k m ≡ none) × Unique m

  pub insert-Unique : (k : Text) (v : V) (m : Dict V) → Unique m → Unique (insert k v m)
  unfolding insert lookup
  insert-Unique k v [] u = (refl, tt)
  insert-Unique k v ((i, w) ∷ m) u =
      ground (arith, same_iff i k, same_iff k i, lookup-insert k i v m, insert-Unique k v m u.1)

  pub erase-Unique : (k : Text) (m : Dict V) → Unique m → Unique (erase k m)
  unfolding erase
  erase-Unique k [] u = tt
  erase-Unique k ((i, w) ∷ m) u = ground (arith, lookup-erase k i m, erase-Unique k m u.1)

  -- A loop over a map that deletes the entries whose value fails the test.
  unfoldable pub keep_if : (V → Bool) → Dict V → Dict V
  keep_if p [] = []
  keep_if p ((k, v) ∷ m) = if p v then (k, v) ∷ keep_if p m else keep_if p m

  abbrev pub only_if : (V → Bool) → Option V → Option V
  only_if p none = none
  only_if p (some v) = if p v then some v else none

  keep_if-none :
      (p : V → Bool) (k : Text) (m : Dict V) → lookup k m ≡ none → lookup k (keep_if p m) ≡ none
  unfolding keep_if lookup
  keep_if-none p k [] h = refl
  keep_if-none p k ((j, v) ∷ m) h = ground (arith, keep_if-none p k m)

  pub lookup-keep_if :
      (p : V → Bool) (k : Text) (m : Dict V)
      → Unique m
      → lookup k (keep_if p m) ≡ only_if p (lookup k m)
  unfolding keep_if lookup
  lookup-keep_if p k [] u = refl
  lookup-keep_if p k ((j, v) ∷ m) u =
      ground (arith, same_iff j k, lookup-keep_if p k m u.1, keep_if-none p k m)

  pub keep_if-Unique : (p : V → Bool) (m : Dict V) → Unique m → Unique (keep_if p m)
  unfolding keep_if
  keep_if-Unique p [] u = tt
  keep_if-Unique p ((j, v) ∷ m) u = ground (arith, keep_if-none p j m, keep_if-Unique p m u.1)

  pub length-insert : (k : Text) (v : V) (m : Dict V) → length (insert k v m) ≤ length m + 1
  unfolding insert
  length-insert k v [] = omega arith
  length-insert k v ((j, w) ∷ m) = ground (arith, length-insert k v m)

  pub length-erase : (k : Text) (m : Dict V) → length (erase k m) ≤ length m
  unfolding erase
  length-erase k [] = omega arith
  length-erase k ((j, w) ∷ m) = ground (arith, length-erase k m)

  -- A key that is there costs an entry.
  pub length-erase_hit :
      (k : Text) (v : V) (m : Dict V) → lookup k m ≡ some v → length (erase k m) < length m
  unfolding erase lookup
  length-erase_hit k v [] h = cc
  length-erase_hit k v ((j, w) ∷ m) h = ground (arith, length-erase k m, length-erase_hit k v m)

  pub length-keep_if : (p : V → Bool) (m : Dict V) → length (keep_if p m) ≤ length m
  unfolding keep_if
  length-keep_if p [] = omega arith
  length-keep_if p ((j, w) ∷ m) = ground (arith, length-keep_if p m)

  -- Where an entry of a changed map comes from.
  pub insert_cases :
      (k j : Text) (v w : V) (m : Dict V)
      → lookup j (insert k v m) ≡ some w
      → ((k ≡ j) × (v ≡ w)) ⊎ ((same k j ≡ false) × (lookup j m ≡ some w))
  insert_cases k j v w m e = elim (Bool-cases (same k j)) [
    | inl h ↦
        let found : some v ≡ some w = sym (lookup-insert k j v m ∙ rw h refl) ∙ e in
        inl ((same_iff k j).0 h, some-injective v w found)
    | inr h ↦ inr (h, sym (lookup-insert k j v m ∙ rw h refl) ∙ e)
  ]

  pub erase_cases :
      (k j : Text) (w : V) (m : Dict V)
      → lookup j (erase k m) ≡ some w
      → (same k j ≡ false) × (lookup j m ≡ some w)
  erase_cases k j w m e = ground (arith, lookup-erase k j m)
