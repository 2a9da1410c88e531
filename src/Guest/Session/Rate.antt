-- ===== src/Guest/Session/Rate.antt =====
-- How many messages a guest session lets through.
use lanrunner.Common.{
  ℕ, suc, ◌+◌, ◌-◌, ◌*◌, ◌≤◌, List, [], ◌∷◌, ltb, arith, if◌then◌else◌, Bool-cases, inl, inr,
}
use lanrunner.Guest.Session.{GuestSession, allow, guest_rate_max, guest_rate_window}

-- How many requests at these times pass.
pub passed : GuestSession → List ℕ → ℕ
passed s [] = 0
passed s (now ∷ rest) = let (s', ok) = allow s now in (if ok then 1 else 0) + passed s' rest

-- The times do not fall, and stay at most `bound`.
abbrev pub Rising : ℕ → ℕ → List ℕ → Type 0
Rising from bound [] = Unit {0}
Rising from bound (now ∷ rest) = (from ≤ now) × (now ≤ bound) × Rising now bound rest

-- What the counter leaves of a window.
abbrev left_of : ℕ → ℕ
left_of n = guest_rate_max - n

-- Until the window that began at `rate_at` ends, only what the counter leaves passes; a second
-- window that begins by then may add its full share.
passed-le_from :
    (s : GuestSession) (times : List ℕ) (from bound : ℕ)
    → Rising from bound times
    → (bound ≤ s.rate_at + guest_rate_window → passed s times ≤ left_of s.rate_n)
      × (bound ≤ from + guest_rate_window → passed s times ≤ left_of s.rate_n + guest_rate_max)
unfolding passed allow
passed-le_from s [] from bound r = omega arith
passed-le_from s (now ∷ rest) from bound r =
    elim (Bool-cases (ltb (s.rate_at + guest_rate_window) now)) [
      | inl new ↦ rw new (
          ground
            (arith, passed-le_from (record s { rate_at = now; rate_n = 1 }) rest now bound r.2))
      | inr same ↦
          rw same
            (ground (arith, passed-le_from (record s { rate_n = suc s.rate_n }) rest now bound r.2))
    ]

-- Whatever the state of its limiter, a session lets at most 60 messages through in any stretch of
-- requests that lasts no longer than the window of ten seconds.
pub passed-le :
    (s : GuestSession) (times : List ℕ) (from : ℕ)
    → Rising from (from + guest_rate_window) times
    → passed s times ≤ 2 * guest_rate_max
passed-le s times from r = ground (arith, passed-le_from s times from (from + guest_rate_window) r)
