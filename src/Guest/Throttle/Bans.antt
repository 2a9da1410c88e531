-- ===== src/Guest/Throttle/Bans.antt =====
-- What an address gets for failing, and for how long it is kept out.
use Prim.Native.Nat.{min}
use lanrunner.Common.{
  ℕ, suc, ◌+◌, ◌-◌, ◌*◌, ◌^◌, ◌≤◌, ◌<◌, ◌≡◌, refl, ap, ◌∙◌, false, List, [], ◌∷◌, none, some, arith,
  ltb, Text, same, same_iff, if◌then◌else◌,
}
use lanrunner.Common.Dict.{lookup, lookup-insert, lookup-insert_self, Unique}
use lanrunner.Guest.Throttle.{
  AuthFail, AuthThrottle, second, guest_auth_fails, guest_auth_window, guest_auth_ban_max, blocked,
  bad, current, fail_once, sweep,
}
use lanrunner.Guest.Throttle.Backoff.{backoff-min}

-- The timeouts that an address is given for failures at these times.
pub penalties : AuthThrottle → Text → List ℕ → List ℕ
penalties t ip [] = []
penalties t ip (now ∷ rest) = let (t', penalty) = bad t ip now in penalty ∷ penalties t' ip rest

-- Four failures are free; each later one doubles the timeout up to its bound.
abbrev pub penalty : ℕ → ℕ
penalty n =
    if ltb n guest_auth_fails
    then 0
    else min (30 * second * 2 ^ (n - guest_auth_fails)) guest_auth_ban_max

abbrev pub ladder : ℕ → List ℕ → List ℕ
ladder n [] = []
ladder n (now ∷ rest) = penalty n ∷ ladder (suc n) rest

-- Each failure follows the one before within the window.
abbrev pub Close : ℕ → List ℕ → Type 0
Close last [] = Unit {0}
Close last (now ∷ rest) = (now ≤ last + guest_auth_window) × Close now rest

-- One failure after another, in the window.
bad_again :
    (t : AuthThrottle) (ip : Text) (now : ℕ) (rec : AuthFail)
    → lookup ip t ≡ some rec
    → now ≤ rec.seen + guest_auth_window
    → ((bad t ip now).1 ≡ penalty (suc rec.n))
      × (next : AuthFail) × (lookup ip (bad t ip now).0 ≡ some next)
      × (next.n ≡ suc rec.n)
      × (next.seen ≡ now)
unfolding bad
bad_again t ip now rec e h = rw e (
  ground (arith, backoff-min (suc rec.n - guest_auth_fails)),
  (fail_once (current (some rec) now) now).0,
  lookup-insert_self ip _ t,
  ground arith,
  ground arith,
)

bad_first :
    (t : AuthThrottle) (ip : Text) (now : ℕ)
    → lookup ip t ≡ none
    → ((bad t ip now).1 ≡ 0)
      × (next : AuthFail) × (lookup ip (bad t ip now).0 ≡ some next)
      × (next.n ≡ 1)
      × (next.seen ≡ now)
unfolding bad
bad_first t ip now e =
    rw e (refl, (fail_once (current none now) now).0, lookup-insert_self ip _ t, refl, refl)

penalties_from :
    (t : AuthThrottle) (ip : Text) (times : List ℕ) (rec : AuthFail)
    → lookup ip t ≡ some rec
    → Close rec.seen times
    → penalties t ip times ≡ ladder (suc rec.n) times
unfolding penalties
penalties_from t ip [] rec e c = refl
penalties_from t ip (now ∷ rest) rec e c =
    let (given, next, at, n, seen) = bad_again t ip now rec e c.0 in
    rw given (
      ap (◌∷◌ (penalty (suc rec.n)))
        (rw (← n) (penalties_from (bad t ip now).0 ip rest next at (rw seen c.1))))

-- An address with no record that fails again and again, each time within two minutes of the last,
-- is given no timeout for the first four failures, half a minute for the fifth, and twice the one
-- before for each later one, up to a quarter of an hour.
pub penalties-ladder :
    (t : AuthThrottle) (ip : Text) (first : ℕ) (rest : List ℕ)
    → lookup ip t ≡ none
    → Close first rest
    → penalties t ip (first ∷ rest) ≡ ladder 1 (first ∷ rest)
unfolding penalties
penalties-ladder t ip first rest e c =
    let (given, next, at, n, seen) = bad_first t ip first e in
    rw given (
      ap (◌∷◌ 0) (
        penalties_from (bad t ip first).0 ip rest next at (rw seen c)
        ∙ ap (λ m. ladder (suc m) rest) n))

-- A failure that draws a timeout keeps its address out for exactly that long, and a failure leaves
-- every other address as it was.
pub blocked-bad :
    (t : AuthThrottle) (ip other : Text) (now later : ℕ)
    → (0 < (bad t ip now).1
        → blocked (bad t ip now).0 ip later ≡ (
            if ltb later (now + (bad t ip now).1)
            then some (now + (bad t ip now).1 - later)
            else none))
      × (same ip other ≡ false → blocked (bad t ip now).0 other later ≡ blocked t other later)
unfolding bad blocked
blocked-bad t ip other now later = (
  λ h. rw (lookup-insert_self ip _ t) (ground arith),
  λ h. rw (lookup-insert ip other _ t, h) refl,
)

swept :
    (t : AuthThrottle) (ip : Text) (now : ℕ) → lookup ip t ≡ none → lookup ip (sweep t now) ≡ none
unfolding sweep lookup
swept [] ip now h = refl
swept ((j, rec) ∷ t) ip now h = ground (arith, swept t ip now)

-- A sweep forgets no timeout that is still being served.
pub blocked-sweep :
    (t : AuthThrottle) (ip : Text) (now later : ℕ)
    → Unique t
    → now ≤ later
    → blocked (sweep t now) ip later ≡ blocked t ip later
unfolding blocked sweep lookup
blocked-sweep [] ip now later u h = refl
blocked-sweep ((j, rec) ∷ t) ip now later u h =
    ground (arith, same_iff j ip, blocked-sweep t ip now later u.1 h, swept t ip now)
